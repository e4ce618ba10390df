-- ===== src/Guard/CircuitBreaker/Trips.antt =====
-- When the circuit opens, for how long, and what the threshold can be.
use lumin_acpool.Prelude.{
  ℕ, suc, ◌+◌, ◌≤◌, String, pos, ◌≤ℤ◌, leb_ℤ, true, false, List, ok, arith, ◌≡◌, ◌⊎◌,
}
use lumin_acpool.Account.{Ext, Account}
use lumin_acpool.Guard.CircuitBreaker.{
  Options, dynamic_threshold, dynamic_timeout, record_success, record_failure, should_allow,
}
use lumin_acpool.Memory.Stats.{incr_failure}
use lumin_acpool.Memory.Stats.History.{Event, replay, trailing_failures, incr_failure_returns}

module _ {x : Ext} {W : Type 0} (o : Options x W) where
  -- The threshold is the default one, or no less than the minimum.
  pub dynamic_threshold_bound :
      (a : Account x)
      → (dynamic_threshold o a ≡ o.default_threshold) ⊎ (o.min_threshold ≤ℤ dynamic_threshold o a)
  unfolding dynamic_threshold
  dynamic_threshold_bound a = grind arith

  dynamic_timeout-le : (a : Account x) (now : ℕ) → o.default_timeout ≤ dynamic_timeout o a now
  unfolding dynamic_timeout
  dynamic_timeout-le a now = ground arith

  -- A failure that opens the circuit keeps it open for the default timeout at least: before that
  -- much time has passed the account is not probed. A failure that does not leaves it as it was.
  pub record_failure-should_allow :
      (a : Account x) (failures now later : ℕ)
      → later ≤ now + o.default_timeout
      → ((record_failure o a failures now).0 ≡ true
          → should_allow o (record_failure o a failures now).1 later ≡ false)
        × ((record_failure o a failures now).0 ≡ false → (record_failure o a failures now).1 ≡ a)
  unfolding record_failure
  record_failure-should_allow a failures now later h = ground (arith, dynamic_timeout-le a now)

  -- After any history of calls, the failure that the memory store counts next opens the circuit
  -- exactly if the failures in a row, this one included, have reached the threshold.
  pub record_failure-incr_failure :
      (a : Account x) (msg : String) (now : ℕ) (es : List Event)
      → (record_failure o a (incr_failure a.id msg now (replay es)).0 now).0
        ≡ leb_ℤ (dynamic_threshold o a) (pos (suc (trailing_failures a.id es)))
  unfolding record_failure
  record_failure-incr_failure a msg now es = ground (arith, incr_failure_returns a.id msg now es)

  -- A success that the store takes closes the circuit: the account may be probed at once.
  pub record_success-should_allow :
      (a b : Account x) (w : W) (now : ℕ)
      → (record_success o a w).0 ≡ ok b
      → should_allow o b now ≡ true
  unfolding record_success
  record_success-should_allow a b w now h = ground arith
