-- ===== src/Examples/Contracts.antt =====
-- The system of World meets what the theorems ask of the dependencies.
use lumin_acpool.Prelude.{
  ℕ, String, List, [], ◌∷◌, some, ok, arith, ◌≡◌, refl, All-of_mem, All, keep, subst, ap, beq_refl,
  none, Result, mem-keep, string_key,
}
use mathlib.Core.List.{Memᴰ}
use lumin_acpool.Account.{
  ProviderKey, ProviderInfo, Account, AccountStats, account_key, key_beq, key_beq_iff,
}
use lumin_acpool.Interfaces.{
  StatsStore, UsageTracker, CircuitBreaker, CooldownManager, StorageError, ResolverError,
}
use lumin_acpool.Occupancy.Contract.{Counts, level}
use lumin_acpool.Occupancy.FixedLimit.{get_limit, filter_available, fixed_limit, release}
use lumin_acpool.Occupancy.FixedLimit.Bound.{acquire_true, acquire_false, filter_available-mem}
use lumin_acpool.Memory.Occupancy.{counters_store}
use lumin_acpool.Memory.Occupancy.Laws.{counters_store-Counts}
use lumin_acpool.Memory.Stats.{Stats, incr_success, get_stats}
use lumin_acpool.Memory.Stats.History.{stats_of, Event, apply, effect, apply-effect, read-stats_of}
use lumin_acpool.Balancer.Pick.Slots.{Accounting}
use lumin_acpool.Balancer.Pick.Limit.{Limits}
use lumin_acpool.Balancer.Pick.Rounds.{Chooses}
use lumin_acpool.Balancer.Pick.Source.{Sourced}
use lumin_acpool.Balancer.Report.Release.{Quiet}
use lumin_acpool.Balancer.Report.Recovery.{Resetting}
use lumin_acpool.Examples.World.{
  ext, World, options, now, occupancy_store, limits, first_account, first_provider, accounts,
}

-- What holds of the dependency that is configured holds of the one that is read.
pub configured : {A : Type 0} (P : A → Type 0) (a b : A) → some a ≡ some b → P a → P b
configured P a b h p = subst P (ap (λ o. elim o [ some v ↦ v | none ↦ a ]) h) p

abbrev pub slots : World → String → ℕ
slots w i = level i w.counters

pub occupancy_store-Counts : Counts occupancy_store slots
occupancy_store-Counts = record {
  incr_ok = λ k w n h. counters_store-Counts.incr_ok k w.counters n h;
  incr_slots = λ k w n i h. counters_store-Counts.incr_slots k w.counters n i h;
  incr_err = λ k w e i h. counters_store-Counts.incr_err k w.counters e i h;
  decr_slots = λ k w i. counters_store-Counts.decr_slots k w.counters i;
  get_slots = λ ks w i. refl;
  get_ok = λ ks w m i h c. counters_store-Counts.get_ok ks w.counters m i h c;
}

pub filter_available-slots :
    (l : List (Account ext)) (w : World) (i : String)
    → slots (filter_available limits occupancy_store l w).1 i ≡ slots w i
unfolding filter_available counters_store
filter_available-slots [] w i = refl
filter_available-slots (a ∷ l) w i = refl

pub accounting : Accounting options slots
unfolding fixed_limit release
accounting = record {
  acquire_true =
      λ a w i h. (acquire_true limits occupancy_store slots occupancy_store-Counts a w i h).0;
  acquire_false =
      λ a w i h. acquire_false limits occupancy_store slots occupancy_store-Counts a w i h;
  release_lem = λ k w i. occupancy_store-Counts.decr_slots k w i;
  filter_keeps = filter_available-slots;
  update_last_used_keeps = λ s k t w i h.
      configured (λ (z : StatsStore World). slots (z.update_last_used k t w).1 i ≡ slots w i) _ _ h
        refl;
  select_keeps = λ l r w i. refl;
  group_select_keeps = λ ps r w i. refl;
  resolve_provider_keeps = λ k m w i. refl;
  resolve_providers_keeps = λ m t w i. refl;
  resolve_accounts_keeps = λ k t w i. refl;
  shuffle_providers_keeps = λ ps w i. refl;
  shuffle_accounts_keeps = λ l w i. refl;
}

pub quiet : Quiet options slots
unfolding fixed_limit release
quiet = record {
  release_lem = λ k w i. occupancy_store-Counts.decr_slots k w i;
  get_stats_keeps = λ s k w i h.
      configured (λ (z : StatsStore World). slots (z.get_stats k w).1 i ≡ slots w i) _ _ h refl;
  incr_success_keeps = λ s k w i h.
      configured (λ (z : StatsStore World). slots (z.incr_success k w).1 i ≡ slots w i) _ _ h refl;
  incr_failure_keeps = λ s k m w i h.
      configured (λ (z : StatsStore World). slots (z.incr_failure k m w).1 i ≡ slots w i) _ _ h
        refl;
  reset_keeps = λ s k w i h.
      configured
        (λ (z : StatsStore World). slots (z.reset_consecutive_failures k w).1 i ≡ slots w i) _ _ h
        refl;
  record_usage_keeps = λ t k w i h.
      configured (λ (z : UsageTracker World). slots (z.record_usage k w).1 i ≡ slots w i) _ _ h
        refl;
  calibrate_keeps = λ t k w i h.
      configured (λ (z : UsageTracker World). slots (z.calibrate_from_response k w).1 i ≡ slots w i)
        _ _ h refl;
  record_success_keeps = λ b a w i h.
      configured (λ (z : CircuitBreaker ext World). slots (z.record_success a w).1 i ≡ slots w i) _
        _ h refl;
  record_failure_keeps = λ b a n w i h.
      configured (λ (z : CircuitBreaker ext World). slots (z.record_failure a n w).1 i ≡ slots w i)
        _ _ h refl;
  start_cooldown_keeps = λ m a t w i h.
      configured (λ (z : CooldownManager ext World). slots (z.start_cooldown a t w).1 i ≡ slots w i)
        _ _ h refl;
  get_account_keeps = λ k w i. refl;
  update_account_keeps = λ a f w i. refl;
}

pub first_provider_lem :
    (ps : List (ProviderInfo ext)) (p : ProviderInfo ext) → first_provider ps ≡ ok p → Memᴰ p ps
first_provider_lem [] p h = absurd (ground arith)
first_provider_lem (q ∷ ps) p h = Memᴰ.head (ground arith)

pub chooses : Chooses options
chooses = record { group_select_mem = λ ps r w p h. first_provider_lem ps p h }

pub first_account_lem :
    (l : List (Account ext)) (a : Account ext) → first_account l ≡ ok a → Memᴰ a l
first_account_lem [] p h = absurd (ground arith)
first_account_lem (q ∷ ps) p h = Memᴰ.head (ground arith)

pub resolved_good :
    (key : ProviderKey) (l : List (Account ext))
    (resolved : Result ResolverError (List (Account ext)))
    → resolved ≡ ok (keep (λ a. key_beq (account_key a) key) accounts)
    → resolved ≡ ok l
    → All (λ a. account_key a ≡ key) l
resolved_good key l r g h = subst (All (λ a. account_key a ≡ key)) (ground arith) (
    All-of_mem (keep (λ a. key_beq (account_key a) key) accounts) (λ a m.
      (key_beq_iff (account_key a) key).0
        (mem-keep (λ a. key_beq (account_key a) key) accounts m).0))

pub sourced : Sourced options (λ key a. account_key a ≡ key)
unfolding fixed_limit
sourced = record {
  resolve_accounts_good = λ key tags w l h. resolved_good key l _ refl h;
  filter_mem =
      λ l w a m. filter_available-mem limits occupancy_store slots occupancy_store-Counts l w a m;
  shuffle_mem = λ l w a m. m;
  select_mem = λ l r w a h. first_account_lem l a h;
}

pub incr_success_zero :
    (k : String) (m : Stats) → (stats_of k (incr_success k now m)).consecutive_failures ≡ 0
unfolding apply effect
incr_success_zero k m = ground (arith, apply-effect k (Event.success k now) m, beq_refl k)

pub get_stats_reads :
    (k : String) (m : Stats) (a : AccountStats) (r : Result StorageError AccountStats)
    → r ≡ ok (get_stats k m).0
    → r ≡ ok a
    → a.consecutive_failures ≡ (stats_of k m).consecutive_failures
unfolding get_stats
get_stats_reads k m a r p q = ground (arith, read-stats_of k m)

abbrev pub failures_of : World → String → ℕ
failures_of w i = (stats_of i w.stats).consecutive_failures

pub resetting : Resetting options
resetting = record {
  failures = failures_of;
  incr_success_resets = λ s k w h g.
      configured (λ (z : StatsStore World). failures_of (z.incr_success k w).1 k ≡ 0) _ _ h
        (incr_success_zero k w.stats);
  get_stats_reads = λ s k w a h g.
      configured
        (λ (z : StatsStore World).
          (z.get_stats k w).0 ≡ ok a → a.consecutive_failures ≡ failures_of w k)
        _ _ h (λ q. get_stats_reads k w.stats a _ refl q) g;
  record_usage_keeps = λ t k w h.
      configured
        (λ (z : UsageTracker World). failures_of (z.record_usage k w).1 k ≡ failures_of w k) _ _ h
        refl;
}

pub within : Limits options slots (get_limit limits)
unfolding fixed_limit
within = record {
  acquire_within =
      λ a w h. (acquire_true limits occupancy_store slots occupancy_store-Counts a w a.id h).1;
  update_last_used_keeps = λ s k t w i h.
      configured (λ (z : StatsStore World). slots (z.update_last_used k t w).1 i ≡ slots w i) _ _ h
        refl;
}
