-- ===== src/Balancer/Pick/Limit.antt =====
-- The limit of the account that `Pick` of balancer/default_balancer.go returns.
use lumin_acpool.Prelude.{
  ℕ, zero, suc, ◌+◌, String, ℤ, pos, ◌≤ℤ◌, Bool, true, List, [], Result, ok, err, arith, ◌≡◌, some,
}
use lumin_acpool.Account.{Ext, ProviderKey, Account, ProviderInfo}
use lumin_acpool.Interfaces.{SelectRequest, StatsStore}
use lumin_acpool.Balancer.Types.{Error, PickRequest, PickResult, Options}
use lumin_acpool.Balancer.Pick.{
  Round, finish, again, record_use, attempt, acquire_from_accounts, select_from_accounts, Cache,
  select_account_from_provider_cached, failover_round, failover_loop, pick_auto, pick_exact,
  select_account_from_provider, pick_exact_or_fallback, dispatch, select_request, effective_retries,
  effective_failover, pick,
}

-- The controller lets no account beyond its limit, and the statistics move no slot.
pub record Limits {x : Ext} {W : Type 0} (b : Options x W) (slots : W → String → ℕ)
    (limit : Account x → ℤ) : Type 0 where
  pub acquire_within :
      (a : Account x) (w : W)
      → (b.occupancy_controller.acquire a w).0 ≡ true
      → pos (slots (b.occupancy_controller.acquire a w).1 a.id) ≤ℤ limit a
  pub update_last_used_keeps :
      (stats : StatsStore W) (k : String) (t : ℕ) (w : W) (i : String)
      → b.stats_store ≡ some stats
      → slots (stats.update_last_used k t w).1 i ≡ slots w i

module _ {x : Ext} {W : Type 0} (b : Options x W) (slots : W → String → ℕ) (limit : Account x → ℤ)
    (c : Limits b slots limit) where
  -- The account of a result, if there is one, is within its limit.
  abbrev ResultWithin : Result Error (PickResult x) → W → Type 0
  ResultWithin (ok r) w = pos (slots w r.account.id) ≤ℤ limit r.account
  ResultWithin (err e) w = Unit {0}

  abbrev RoundWithin : {S : Type 0} → Round (Result Error (PickResult x)) S → W → Type 0
  RoundWithin (finish out) w = ResultWithin out w
  RoundWithin (again s) w = Unit {0}

  record_use-within :
      (i : ℕ) (prov : ProviderInfo x) (req : SelectRequest) (chosen : Account x) (w : W)
      → pos (slots w chosen.id) ≤ℤ limit chosen
      → RoundWithin (record_use b i prov req chosen w).0 (record_use b i prov req chosen w).1
  unfolding record_use
  record_use-within i prov req chosen w h = grind (arith, c.update_last_used_keeps)

  attempt-within :
      (i : ℕ) (prov : ProviderInfo x) (accounts : List (Account x)) (req : SelectRequest) (w : W)
      → RoundWithin (attempt b i prov accounts req w).0 (attempt b i prov accounts req w).1
  unfolding attempt
  attempt-within i prov accounts req w = grind (arith, record_use-within, c.acquire_within)

  acquire_from_accounts-within :
      (left i : ℕ) (prov : ProviderInfo x) (accounts : List (Account x)) (req : SelectRequest)
      (w : W)
      → ResultWithin
          (acquire_from_accounts b left i prov accounts req w).0
          (acquire_from_accounts b left i prov accounts req w).1
  unfolding acquire_from_accounts
  acquire_from_accounts-within zero i prov accounts req w = tt
  acquire_from_accounts-within (suc left) i prov accounts req w = grind (
    arith,
    attempt-within i prov accounts req w,
    acquire_from_accounts-within left (i + 1) prov accounts,
  )

  select_from_accounts-within :
      (prov : ProviderInfo x) (accounts : List (Account x)) (req : SelectRequest) (m : ℤ) (w : W)
      → ResultWithin
          (select_from_accounts b prov accounts req m w).0
          (select_from_accounts b prov accounts req m w).1
  unfolding select_from_accounts
  select_from_accounts-within prov accounts req m w = grind (arith, acquire_from_accounts-within)

  select_cached-within :
      (prov : ProviderInfo x) (req : SelectRequest) (m : ℤ) (cache : Cache b) (w : W)
      → ResultWithin
          (select_account_from_provider_cached b prov req m cache w).0
          (select_account_from_provider_cached b prov req m cache w).2
  unfolding select_account_from_provider_cached
  select_cached-within prov req m cache w = grind (arith, select_from_accounts-within)

  failover_round-within :
      (ps : List (ProviderInfo x)) (req : SelectRequest) (m : ℤ) (failover : Bool)
      (ks : List ProviderKey) (cache : Cache b) (w : W)
      → RoundWithin
          (failover_round b ps req m failover ks cache w).0
          (failover_round b ps req m failover ks cache w).1
  unfolding failover_round
  failover_round-within ps req m failover ks cache w = grind (arith, select_cached-within)

  failover_loop-within :
      (fuel : ℕ) (ps : List (ProviderInfo x)) (req : SelectRequest) (m : ℤ) (failover : Bool)
      (ks : List ProviderKey) (cache : Cache b) (w : W)
      → ResultWithin
          (failover_loop b fuel ps req m failover ks cache w).0
          (failover_loop b fuel ps req m failover ks cache w).1
  unfolding failover_loop
  failover_loop-within zero ps req m failover ks cache w = tt
  failover_loop-within (suc fuel) ps req m failover ks cache w = grind (
    arith,
    failover_round-within ps req m failover ks cache w,
    failover_loop-within fuel ps (record req { exclude_account_ids = [] }) m failover,
  )

  pick_auto-within :
      (req : SelectRequest) (m : ℤ) (failover : Bool) (w : W)
      → ResultWithin (pick_auto b req m failover w).0 (pick_auto b req m failover w).1
  unfolding pick_auto
  pick_auto-within req m failover w = grind (arith, failover_loop-within)

  pick_exact-within :
      (req : SelectRequest) (key : ProviderKey) (m : ℤ) (w : W)
      → ResultWithin (pick_exact b req key m w).0 (pick_exact b req key m w).1
  unfolding pick_exact select_account_from_provider
  pick_exact-within req key m w = grind (arith, select_from_accounts-within)

  pick_exact_or_fallback-within :
      (req : SelectRequest) (key : ProviderKey) (m : ℤ) (failover : Bool) (w : W)
      → ResultWithin
          (pick_exact_or_fallback b req key m failover w).0
          (pick_exact_or_fallback b req key m failover w).1
  unfolding pick_exact_or_fallback
  pick_exact_or_fallback-within req key m failover w =
      grind (arith, pick_exact-within, pick_auto-within)

  dispatch-within :
      (req : SelectRequest) (m : ℤ) (failover : Bool) (w : W)
      → ResultWithin (dispatch b req m failover w).0 (dispatch b req m failover w).1
  unfolding dispatch
  dispatch-within req m failover w = grind (arith, pick_exact_or_fallback-within, pick_auto-within)

  -- Where the controller acquires no account beyond its limit and the statistics move no slot, the
  -- account that `Pick` returns has, its new call counted, no more calls in flight than its limit.
  pub pick_within :
      (req : PickRequest) (w : W) (r : PickResult x)
      → (pick b req w).0 ≡ ok r
      → pos (slots (pick b req w).1 r.account.id) ≤ℤ limit r.account
  unfolding pick
  pick_within req w r h = ground (
    arith,
    dispatch-within (select_request req) (effective_retries b req) (effective_failover b req) w,
  )
