-- ===== src/Balancer/Report/Release.antt =====
-- Occupancy slots across the two reports of balancer/default_balancer.go.
use lumin_acpool.Prelude.{ℕ, ◌-◌, String, Option, some, ok, ◌==◌, string_key, indicator, arith, ◌≡◌}
use lumin_acpool.Account.{Ext, Account}
use lumin_acpool.Interfaces.{StatsStore, UsageTracker, CircuitBreaker, CooldownManager, UpdateField}
use lumin_acpool.Balancer.Types.{PickRequest, PickResult, Options}
use lumin_acpool.Balancer.Pick.{pick}
use lumin_acpool.Balancer.Pick.Slots.{Accounting, pick-slots}
use lumin_acpool.Balancer.Report.{
  CallError, reset_failures, known_failures, recover, check_recovery, notify_success, count_success,
  track_usage, report_success, count_failure, retry_update, save_status, calibrate, on_rate_limit,
  on_other_error, report_failure,
}

-- The dependencies that the reports call beside the occupancy controller move no slot.
pub record Quiet {x : Ext} {W : Type 0} (b : Options x W) (slots : W → String → ℕ) : Type 0 where
  pub release_lem :
      (k : String) (w : W) (i : String)
      → slots (b.occupancy_controller.release k w) i ≡ slots w i - indicator (k == i)
  pub get_stats_keeps :
      (s : StatsStore W) (k : String) (w : W) (i : String)
      → b.stats_store ≡ some s
      → slots (s.get_stats k w).1 i ≡ slots w i
  pub incr_success_keeps :
      (s : StatsStore W) (k : String) (w : W) (i : String)
      → b.stats_store ≡ some s
      → slots (s.incr_success k w).1 i ≡ slots w i
  pub incr_failure_keeps :
      (s : StatsStore W) (k m : String) (w : W) (i : String)
      → b.stats_store ≡ some s
      → slots (s.incr_failure k m w).1 i ≡ slots w i
  pub reset_keeps :
      (s : StatsStore W) (k : String) (w : W) (i : String)
      → b.stats_store ≡ some s
      → slots (s.reset_consecutive_failures k w).1 i ≡ slots w i
  pub record_usage_keeps :
      (t : UsageTracker W) (k : String) (w : W) (i : String)
      → b.usage_tracker ≡ some t
      → slots (t.record_usage k w).1 i ≡ slots w i
  pub calibrate_keeps :
      (t : UsageTracker W) (k : String) (w : W) (i : String)
      → b.usage_tracker ≡ some t
      → slots (t.calibrate_from_response k w).1 i ≡ slots w i
  pub record_success_keeps :
      (cb : CircuitBreaker x W) (a : Account x) (w : W) (i : String)
      → b.circuit_breaker ≡ some cb
      → slots (cb.record_success a w).1 i ≡ slots w i
  pub record_failure_keeps :
      (cb : CircuitBreaker x W) (a : Account x) (n : ℕ) (w : W) (i : String)
      → b.circuit_breaker ≡ some cb
      → slots (cb.record_failure a n w).1 i ≡ slots w i
  pub start_cooldown_keeps :
      (m : CooldownManager x W) (a : Account x) (t : Option ℕ) (w : W) (i : String)
      → b.cooldown_manager ≡ some m
      → slots (m.start_cooldown a t w).1 i ≡ slots w i
  pub get_account_keeps :
      (k : String) (w : W) (i : String) → slots (b.account_storage.get_account k w).1 i ≡ slots w i
  pub update_account_keeps :
      (a : Account x) (f : UpdateField) (w : W) (i : String)
      → slots (b.account_storage.update_account a f w).1 i ≡ slots w i

module _ {x : Ext} {W : Type 0} (b : Options x W) (slots : W → String → ℕ) (q : Quiet b slots) where
  reset_failures-slots :
      (id : String) (w : W) (i : String) → slots (reset_failures b id w) i ≡ slots w i
  unfolding reset_failures
  reset_failures-slots id w i = grind (arith, q.reset_keeps)

  known_failures-slots :
      (id : String) (w : W) (i : String) → slots (known_failures b id w).1 i ≡ slots w i
  unfolding known_failures
  known_failures-slots id w i = grind (arith, q.get_stats_keeps)

  recover-slots : (a : Account x) (w : W) (i : String) → slots (recover b a w).2 i ≡ slots w i
  unfolding recover
  recover-slots a w i = grind (arith, q.update_account_keeps)

  check_recovery-slots :
      (id : String) (w : W) (i : String) → slots (check_recovery b id w).2 i ≡ slots w i
  unfolding check_recovery
  check_recovery-slots id w i =
      grind (arith, q.get_account_keeps, q.record_success_keeps, recover-slots)

  notify_success-slots :
      (id : String) (w : W) (i : String) → slots (notify_success b id w).1 i ≡ slots w i
  unfolding notify_success
  notify_success-slots id w i =
      grind (arith, known_failures-slots, check_recovery-slots, reset_failures-slots)

  count_success-slots :
      (id : String) (w : W) (i : String) → slots (count_success b id w).1 i ≡ slots w i
  unfolding count_success
  count_success-slots id w i = grind (arith, q.incr_success_keeps)

  track_usage-slots :
      (id : String) (w : W) (i : String) → slots (track_usage b id w).1 i ≡ slots w i
  unfolding track_usage
  track_usage-slots id w i = grind (arith, q.record_usage_keeps)

  -- Where only the controller moves the counts, `ReportSuccess` gives back one slot of the account,
  -- if any is taken, and of no other, whatever it returns.
  pub report_success-slots :
      (id : String) (w : W) (i : String)
      → slots (report_success b id w).1 i ≡ slots w i - indicator (id == i)
  unfolding report_success
  report_success-slots id w i =
      grind (arith, q.release_lem, count_success-slots, track_usage-slots, notify_success-slots)

  count_failure-slots :
      (id m : String) (w : W) (i : String) → slots (count_failure b id m w).1 i ≡ slots w i
  unfolding count_failure
  count_failure-slots id m w i = grind (arith, q.incr_failure_keeps)

  retry_update-slots :
      (id : String) (a : Account x) (w : W) (i : String)
      → slots (retry_update b id a w) i ≡ slots w i
  unfolding retry_update
  retry_update-slots id a w i = grind (arith, q.get_account_keeps, q.update_account_keeps)

  save_status-slots :
      (id : String) (a : Account x) (w : W) (i : String)
      → slots (save_status b id a w).1 i ≡ slots w i
  unfolding save_status
  save_status-slots id a w i = grind (arith, q.update_account_keeps, retry_update-slots)

  calibrate-slots : (id : String) (w : W) (i : String) → slots (calibrate b id w) i ≡ slots w i
  unfolding calibrate
  calibrate-slots id w i = grind (arith, q.calibrate_keeps)

  on_rate_limit-slots :
      (id : String) (a : Account x) (e : Option CallError) (w : W) (i : String)
      → slots (on_rate_limit b id a e w).1 i ≡ slots w i
  unfolding on_rate_limit
  on_rate_limit-slots id a e w i =
      grind (arith, calibrate-slots, q.start_cooldown_keeps, save_status-slots)

  on_other_error-slots :
      (id : String) (a : Account x) (n : ℕ) (w : W) (i : String)
      → slots (on_other_error b id a n w).1 i ≡ slots w i
  unfolding on_other_error
  on_other_error-slots id a n w i = grind (arith, q.record_failure_keeps, save_status-slots)

  -- Where only the controller moves the counts, `ReportFailure` gives back one slot of the account,
  -- if any is taken, and of no other, whatever it returns.
  pub report_failure-slots :
      (id : String) (e : Option CallError) (w : W) (i : String)
      → slots (report_failure b id e w).1 i ≡ slots w i - indicator (id == i)
  unfolding report_failure
  report_failure-slots id e w i = grind (
    arith, q.release_lem, count_failure-slots, track_usage-slots, q.get_account_keeps,
    on_rate_limit-slots, on_other_error-slots,
  )

-- Where only the controller moves the counts, a `Pick` that returns an account, followed by the
-- report of that account's call, whether of a success or of a failure, leaves every account's
-- number of taken slots as it was before.
pub pick-report :
    {x : Ext} {W : Type 0} (b : Options x W) (slots : W → String → ℕ) (c : Accounting b slots)
    (q : Quiet b slots) (req : PickRequest) (e : Option CallError) (w : W) (r : PickResult x)
    → (pick b req w).0 ≡ ok r
    → (i : String)
    → (slots (report_success b r.account.id (pick b req w).1).1 i ≡ slots w i)
      × (slots (report_failure b r.account.id e (pick b req w).1).1 i ≡ slots w i)
pick-report b slots c q req e w r h i = ground (
  arith,
  pick-slots b slots c req w i,
  report_success-slots b slots q r.account.id (pick b req w).1 i,
  report_failure-slots b slots q r.account.id e (pick b req w).1 i,
)
