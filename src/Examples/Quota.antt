-- ===== src/Examples/Quota.antt =====
-- Usages, limits that follow them, and searches for providers, on small stores.
use mathlib.Core.List.{Memᴰ}
use lumin_acpool.Prelude.{
  String, ℕ, pos, true, false, some, List, [], ◌∷◌, get, ◌≡◌, ◌⊎◌, ◌↔◌, refl, ◌≤ℤ◌, inr, arith,
  string_key, map, All,
}
use lumin_acpool.Account.{ProviderInfo, TrackedUsage, provider_key, key_eq}
use lumin_acpool.Interfaces.{SearchFilter}
use lumin_acpool.Tracker.{Options, record_usage}
use lumin_acpool.Tracker.Charge.{charge, record_usage-charge, record_usage_misses}
use lumin_acpool.Memory.Usage.{Usages, memory_usage_store, add_local, is_past}
use lumin_acpool.Memory.Providers.{ProviderStore, search_providers, add_provider}
use lumin_acpool.Memory.Providers.Reached.{Reach, Step}
use lumin_acpool.Memory.Providers.Found.{Answers, search_providers_finds}
use lumin_acpool.Occupancy.AdaptiveLimit.{
  AdaptiveLimit, limit_of, get_fallback_limit, get_min_limit, get_max_limit,
}
use lumin_acpool.Occupancy.FixedLimit.{metadata_int64}
use lumin_acpool.Occupancy.AdaptiveLimit.Bounds.{InBounds, limit_of_bounds}
use lumin_acpool.Examples.World.{ext, account_named, provider}

-- Ten calls, seven of them left, in a window that ends at the given time.
abbrev usage_until : ℕ → TrackedUsage ext
usage_until end = record {
  rule = some 10;
  local_used = 0;
  remote_used = 3;
  remote_remain = 7;
  window_start = some 0;
  window_end = some end;
  last_sync_at = 0;
}

abbrev options : Options ext (Usages ext)
options = record { safety_ratio = 1; on_quota_exhausted = [] }

abbrev current : List (TrackedUsage ext)
current = usage_until 20 ∷ usage_until 30 ∷ []

stored : get {K = String} "a" (("a", current) ∷ []) ≡ some current
unfolding get
stored = refl

current_windows : All (λ u. is_past 5 u ≡ false) current
current_windows = (refl, (refl, tt))

record_usage-charge_example :
    get "a" (record_usage (memory_usage_store 5) options (λ m. 5) "a" 1 2 (("a", current) ∷ [])).1
    ≡ some (map (charge 1 2) current)
record_usage-charge_example =
    record_usage-charge options (λ m. 5) 5 "a" 1 2 current (("a", current) ∷ []) refl stored
      current_windows

record_usage_misses_example :
    get "a" (record_usage (memory_usage_store 25) options (λ m. 25) "a" 1 2 (("a", current) ∷ [])).1
    ≡ some (add_local 2 (usage_until 20) ∷ usage_until 30 ∷ [])
record_usage_misses_example =
    record_usage_misses options (λ m. 25) 25 "a" 1 2 (usage_until 20) (usage_until 30)
      (("a", current) ∷ []) refl stored refl refl refl

abbrev adaptive : AdaptiveLimit ext
adaptive = record { factor = 1; min_limit = pos 1; max_limit = pos 4; fallback_limit = pos 2 }

in_order : get_min_limit adaptive (account_named "a") ≤ℤ get_max_limit adaptive (account_named "a")
unfolding get_min_limit get_max_limit metadata_int64 get
in_order = ground arith

limit_of_bounds_example :
    (limit_of adaptive (account_named "a") current 5
      ≡ get_fallback_limit adaptive (account_named "a"))
    ⊎ InBounds adaptive (account_named "a") (limit_of adaptive (account_named "a") current 5)
limit_of_bounds_example = limit_of_bounds adaptive (account_named "a") current 5 (inr in_order)

abbrev empty_store : ProviderStore ext ℕ
empty_store = record {
  store = record { accounts = []; provider_index = []; providers = []; stats = []; usages = [] };
  type_index = [];
  model_index = [];
}

abbrev store : ProviderStore ext ℕ
store = (add_provider provider 3 empty_store).1

reached : Reach store
reached =
    Reach.next empty_store store (Reach.empty empty_store refl refl)
      (Step.added provider 3 empty_store)

abbrev by_model : SearchFilter (ProviderInfo ext)
by_model = record {
  provider_type = "kiro";
  provider_name = "";
  status = 0;
  supported_model = "model";
  extra = λ p. true;
}

search_providers_finds_example : Memᴰ provider (search_providers by_model store) ↔ (
    (get (provider_key provider) store.store.providers ≡ some provider) × Answers by_model provider)
search_providers_finds_example = search_providers_finds by_model store provider reached
