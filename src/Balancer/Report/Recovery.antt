-- ===== src/Balancer/Report/Recovery.antt =====
-- What `ReportSuccess` does for an account whose circuit is open.
use lumin_acpool.Prelude.{ℕ, String, some, ok, arith, ◌≡◌, refl}
use lumin_acpool.Account.{Ext, AccountStats}
use lumin_acpool.Interfaces.{StatsStore, UsageTracker, AccountStorage}
use lumin_acpool.Balancer.Types.{Options}
use lumin_acpool.Balancer.Report.{
  reset_failures, known_failures, notify_success, count_success, track_usage, report_success,
}

-- How the stores of the repository behave: `IncrSuccess` sets the consecutive failures to 0,
-- `GetStats` reads them, and the record of usage leaves them alone.
pub record Resetting {x : Ext} {W : Type 0} (b : Options x W) : Type 0 where
  pub failures : W → String → ℕ
  pub incr_success_resets :
      (s : StatsStore W) (k : String) (w : W)
      → b.stats_store ≡ some s
      → (s.incr_success k w).0 ≡ ok tt
      → failures (s.incr_success k w).1 k ≡ 0
  pub get_stats_reads :
      (s : StatsStore W) (k : String) (w : W) (a : AccountStats)
      → b.stats_store ≡ some s
      → (s.get_stats k w).0 ≡ ok a
      → a.consecutive_failures ≡ failures w k
  pub record_usage_keeps :
      (t : UsageTracker W) (k : String) (w : W)
      → b.usage_tracker ≡ some t
      → failures (t.record_usage k w).1 k ≡ failures w k

module _ {x : Ext} {W : Type 0} (b : Options x W) (c : Resetting b) where
  open c use {failures}

  known_failures_zero : (id : String) (w : W) → failures w id ≡ 0 → (known_failures b id w).0 ≡ 0
  unfolding known_failures
  known_failures_zero id w h = grind (arith, c.get_stats_reads)

  known_failures_after :
      (id : String) (w : W)
      → (count_success b id w).0 ≡ ok tt
      → (known_failures b id (track_usage b id (count_success b id w).1).1).0 ≡ 0
  unfolding known_failures track_usage count_success
  known_failures_after id w h =
      grind (arith, c.get_stats_reads, c.incr_success_resets, c.record_usage_keeps)

  -- The balancer over another account storage.
  abbrev over : AccountStorage x W → Options x W
  over s = record b { account_storage = s }

  notify_success-over :
      (s : AccountStorage x W) (id : String) (w : W)
      → (known_failures b id w).0 ≡ 0
      → notify_success (over s) id w ≡ notify_success b id w
  unfolding notify_success known_failures reset_failures
  notify_success-over s id w h = ground arith

  after_count :
      (s : AccountStorage x W) (id : String) (w : W)
      → (count_success b id w).0 ≡ ok tt
      → notify_success (over s) id (track_usage b id (count_success b id w).1).1
        ≡ notify_success b id (track_usage b id (count_success b id w).1).1
  after_count s id w h = notify_success-over s id _ (known_failures_after id w h)

  count_success-over :
      (s : AccountStorage x W) (id : String) (w : W)
      → count_success (over s) id w ≡ count_success b id w
  unfolding count_success
  count_success-over s id w = refl

  track_usage-over :
      (s : AccountStorage x W) (id : String) (w : W)
      → track_usage (over s) id w ≡ track_usage b id w
  unfolding track_usage
  track_usage-over s id w = refl

  -- With stores that behave so, `ReportSuccess` does the same over any account storage: it reads no
  -- account and updates none, so it never takes an account from CircuitOpen back to Available.
  pub report_success_ignores_accounts :
      (s : AccountStorage x W) (id : String) (w : W)
      → report_success (record b { account_storage = s }) id w ≡ report_success b id w
  unfolding report_success
  report_success_ignores_accounts s id w = ground (
    arith,
    count_success-over s id (b.occupancy_controller.release id w),
    track_usage-over s id (count_success b id (b.occupancy_controller.release id w)).1,
    after_count s id (b.occupancy_controller.release id w),
  )
