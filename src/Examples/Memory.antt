-- ===== src/Examples/Memory.antt =====
-- The memory stores on small contents.
use lumin_acpool.Prelude.{
  ℕ, true, false, some, List, [], ◌∷◌, ◌≡◌, ◌↔◌, string_key, refl, get, put, arith, Bool-cases, inl,
  inr,
}
use mathlib.Core.List.{Memᴰ}
use lumin_acpool.Account.{
  Account, disabled, ProviderInfo, ProviderKey, key_beq, key_eq, build_provider_key,
}
use lumin_acpool.Interfaces.{UpdateField, SearchFilter}
use lumin_acpool.Memory.Stats.History.{Event, replay, stats_of, Agrees, replay-Agrees}
use lumin_acpool.Memory.Occupancy.Race.{
  Heap, Goroutines, Reach, Acquire, Release, start, occupancy, race_loses_slot,
}
use lumin_acpool.Memory.Accounts.{
  write_account, modify_provider, add_to_index, Store, add_account, update_account, search_accounts,
}
use lumin_acpool.Memory.Accounts.Counts.{Exact}
use lumin_acpool.Memory.Accounts.Found.{Answers, search_accounts_finds}
use lumin_acpool.Memory.Accounts.Reached.{Step, Reach-Exact}
use lumin_acpool.Memory.Accounts.Reached as Accounts
use lumin_acpool.Examples.World.{ext, account_named, provider}

abbrev history : List Event
history =
    Event.failure "a" "timeout" 4
    ∷ Event.failure "b" "timeout" 3
    ∷ Event.failure "a" "timeout" 2
    ∷ Event.success "a" 1
    ∷ []

replay-Agrees_example : Agrees "a" history (stats_of "a" (replay history))
replay-Agrees_example = replay-Agrees "a" history

abbrev one_taken : Heap
one_taken = record { keys = ("a", 0) ∷ []; counters = (0, 1) ∷ [] }

race_loses_slot_example :
    (g : Goroutines) × Reach "a" (start one_taken) g
    × (g.acquire ≡ Acquire.counted 1)
    × (g.release ≡ Release.finished)
    × (occupancy "a" g.heap ≡ 0)
unfolding get
race_loses_slot_example = race_loses_slot "a" 0 one_taken refl refl

-- A provider without accounts.
abbrev empty : Store ext ℕ
empty = record {
  accounts = [];
  provider_index = [];
  providers =
      (
        build_provider_key "kiro" "team",
        record provider { account_count = 0; available_account_count = 0 },
      )
      ∷ [];
  stats = [];
  usages = [];
}

empty-none :
    (key : ProviderKey) (p : ProviderInfo ext)
    → get key empty.providers ≡ some p
    → (p.account_count ≡ 0) × (p.available_account_count ≡ 0)
unfolding get
empty-none key p h = elim (Bool-cases (key_beq (build_provider_key "kiro" "team") key)) [
  | inl e ↦ ground (arith, e, h)
  | inr e ↦ absurd (ground (arith, e, h))
]

abbrev status_only : UpdateField
status_only = record {
  credential = false;
  status = true;
  priority = false;
  tags = false;
  metadata = false;
  usage_rules = false;
}

abbrev one : Store ext ℕ
one = (add_account (account_named "a") 5 empty).1

-- One account, added and then disabled.
abbrev one_disabled : Store ext ℕ
one_disabled =
    (update_account (record (account_named "a") { status = disabled }) status_only 6 one).1

one_disabled-Reach : Accounts.Reach one_disabled
one_disabled-Reach =
    Accounts.Reach.next one one_disabled
      (Accounts.Reach.next empty one (Accounts.Reach.initial empty refl empty-none)
        (Step.added (account_named "a") 5 empty))
      (Step.updated (record (account_named "a") { status = disabled }) status_only 6 one)

abbrev counted : ProviderInfo ext
counted = record provider { account_count = 1; available_account_count = 0; updated_at = 6 }

counts_one : get (build_provider_key "kiro" "team") one_disabled.providers ≡ some counted
unfolding get put add_account update_account write_account modify_provider add_to_index
counts_one = refl

Reach-Exact_example : Exact (build_provider_key "kiro" "team") counted one_disabled.accounts
Reach-Exact_example =
    Reach-Exact one_disabled (build_provider_key "kiro" "team") counted one_disabled-Reach
      counts_one

-- The disabled accounts of the provider, which the index finds.
abbrev disabled_ones : SearchFilter (Account ext)
disabled_ones = record {
  provider_type = "kiro";
  provider_name = "team";
  status = 7;
  supported_model = "";
  extra = λ a. true;
}

abbrev found_one : Account ext
found_one = record (account_named "a") { status = disabled; updated_at = 6; version = 2 }

search_accounts_finds_example :
    Memᴰ found_one (search_accounts disabled_ones one_disabled)
    ↔ ((get "a" one_disabled.accounts ≡ some found_one) × Answers disabled_ones found_one)
search_accounts_finds_example =
    search_accounts_finds disabled_ones one_disabled found_one one_disabled-Reach
