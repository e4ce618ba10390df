-- ===== src/Guard/CircuitBreaker.antt =====
-- circuitbreaker/default_circuitbreaker.go: after how many failures in a row an account's circuit
-- opens, and for how long. The store of statistics is the one of the options.
pub mod Trips
use lumin_acpool.Prelude.{
  ℕ, ◌+◌, String, ℤ, pos, Bool, true, false, ◌&&◌, ◌||◌, Option, none, some, List, [], ◌∷◌, Result,
  ok, err, ltb, leb, nat_beq, ltb_ℤ, leb_ℤ, if◌then◌else◌, ◌==◌,
}
use lumin_acpool.Account.{Ext, Account, is_circuit_open_expired}
use lumin_acpool.Interfaces.{StorageError, StatsStore, CircuitBreaker}
use lumin_acpool.Guard.Window.{min_remain, max_int64}

pub record Options (x : Ext) (W : Type 0) : Type 0 where
  pub default_threshold : ℤ
  pub default_timeout : ℕ
  pub threshold_ratio : x.Float
  pub min_threshold : ℤ
  pub stats_store : StatsStore W

module _ (x : Ext) where
  -- `rule != nil && rule.SourceType == SourceTypeRequest && rule.Total > 0 && rule.Total < minTotal`
  abbrev pub lowers : Option x.Rule → x.Float → Bool
  lowers none total = false
  lowers (some r) total =
      x.source_type_eq.beq (x.source_type r) x.source_type_request
      && x.lt (x.decimal 0 0) (x.total r)
      && x.lt (x.total r) total

  abbrev pub total_of : Option x.Rule → x.Float → x.Float
  total_of none total = total
  total_of (some r) total = x.total r

  pub min_total : List (Option x.Rule) → x.Float → x.Float
  min_total [] total = total
  min_total (r ∷ rs) total = min_total rs (if lowers r total then total_of r total else total)

  -- Go's `==` on two numbers, by their order.
  abbrev pub float_beq : x.Float → x.Float → Bool
  float_beq a b = x.le a b && x.le b a

module _ {x : Ext} {W : Type 0} (o : Options x W) where
  pub dynamic_threshold : Account x → ℤ
  dynamic_threshold a = elim a.usage_rules [
    | [] ↦ o.default_threshold
    | r ∷ rs ↦
        let least = min_total x (r ∷ rs) x.max_float in
        let threshold = x.to_int (x.mul least o.threshold_ratio) in
        if float_beq x least x.max_float
        then o.default_threshold
        else if ltb_ℤ threshold o.min_threshold
        then o.min_threshold
        else threshold
  ]

  pub dynamic_timeout : Account x → ℕ → ℕ
  dynamic_timeout a now = elim a.usage_rules [
    | [] ↦ o.default_timeout
    | r ∷ rs ↦
        let remain = min_remain x (r ∷ rs) now max_int64 in
        if nat_beq remain max_int64 || ltb remain o.default_timeout
        then o.default_timeout
        else remain
  ]

  pub record_success : Account x → W → Result StorageError (Account x) × W
  record_success a w =
      let (r, w') = o.stats_store.reset_consecutive_failures a.id w in
      elim r [ err e ↦ (err e, w') | ok _ ↦ (ok (record a { circuit_open_until = none }), w') ]

  -- Whether the circuit opens, and the account as the call leaves it.
  pub record_failure : Account x → ℕ → ℕ → Bool × Account x
  record_failure a failures now =
      if leb_ℤ (dynamic_threshold a) (pos failures)
      then (true, record a { circuit_open_until = some (now + dynamic_timeout a now) })
      else (false, a)

  abbrev pub should_allow : Account x → ℕ → Bool
  should_allow a now = is_circuit_open_expired a now

  -- The methods as the interface that the balancer holds, with the clock of the runtime.
  pub circuit_breaker : (W → ℕ) → CircuitBreaker x W
  circuit_breaker clock = record {
    record_success = record_success;
    record_failure = λ a failures w. (ok (record_failure a failures (clock w)), w);
  }
