-- ===== src/Examples/Guard.antt =====
-- The circuit breaker and the cooldown on one account.
use lumin_acpool.Prelude.{suc, true, false, some, none, [], ◌∷◌, pos, leb_ℤ, arith, ◌≡◌, refl, All}
use lumin_acpool.Account.{Account}
use lumin_acpool.Guard.Window.{min_remain, Within}
use lumin_acpool.Guard.CircuitBreaker.{Options, dynamic_threshold, record_failure, should_allow}
use lumin_acpool.Guard.CircuitBreaker.Trips.{
  record_failure-should_allow, record_failure-incr_failure,
}
use lumin_acpool.Guard.Cooldown.{estimate, estimate_cooldown_duration}
use lumin_acpool.Guard.Cooldown.Until.{estimate_cooldown_duration-Within}
use lumin_acpool.Memory.Stats.{incr_failure}
use lumin_acpool.Memory.Stats.History.{Event, replay, trailing_failures}
use lumin_acpool.Examples.World.{ext, World, stats_store, account_named}

abbrev breaker : Options ext World
breaker = record {
  default_threshold = pos 5;
  default_timeout = 60;
  threshold_ratio = 1;
  min_threshold = pos 3;
  stats_store = stats_store;
}

-- With a rule of ten requests for each window.
abbrev limited : Account ext
limited = record (account_named "a") { usage_rules = some 10 ∷ none ∷ [] }

record_failure-should_allow_example :
    ((record_failure breaker limited 12 100).0 ≡ true
      → should_allow breaker (record_failure breaker limited 12 100).1 150 ≡ false)
    × ((record_failure breaker limited 12 100).0 ≡ false
        → (record_failure breaker limited 12 100).1 ≡ limited)
record_failure-should_allow_example =
    record_failure-should_allow breaker limited 12 100 150 (omega arith)

record_failure-incr_failure_example :
    (record_failure breaker limited
      (incr_failure "a" "timeout" 100 (replay (Event.failure "a" "timeout" 90 ∷ []))).0
      100).0
    ≡ leb_ℤ
        (dynamic_threshold breaker limited)
        (pos (suc (trailing_failures "a" (Event.failure "a" "timeout" 90 ∷ []))))
record_failure-incr_failure_example =
    record_failure-incr_failure breaker limited "timeout" 100 (Event.failure "a" "timeout" 90 ∷ [])

estimates : estimate_cooldown_duration limited 100 ≡ 10
unfolding estimate_cooldown_duration estimate min_remain
estimates = refl

estimate_cooldown_duration-Within_example :
    All (Within ext 100 (estimate_cooldown_duration limited 100)) (some 10 ∷ none ∷ [])
estimate_cooldown_duration-Within_example =
    estimate_cooldown_duration-Within limited 100 (omega (arith, estimates))
