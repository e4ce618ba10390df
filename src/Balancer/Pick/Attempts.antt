-- ===== src/Balancer/Pick/Attempts.antt =====
-- The number of rounds of the retry loop of `Pick`, balancer/default_balancer.go.
use lumin_acpool.Prelude.{
  ℕ, zero, suc, ◌+◌, ◌≤◌, ◌<◌, ℤ, Bool, List, [], Result, ok, err, arith, ◌≡◌,
}
use lumin_acpool.Account.{Ext, ProviderKey, Account, ProviderInfo}
use lumin_acpool.Interfaces.{SelectRequest}
use lumin_acpool.Balancer.Types.{Error, PickRequest, PickResult, Options}
use lumin_acpool.Balancer.Pick.{
  Round, finish, again, record_use, attempt, acquire_from_accounts, select_from_accounts, Cache,
  select_account_from_provider_cached, failover_round, failover_loop, pick_auto, pick_exact,
  select_account_from_provider, pick_exact_or_fallback, dispatch, select_request, effective_retries,
  effective_failover, pick, rounds,
}

-- A result's number of attempts lies below the bound.
abbrev pub AttemptsBelow : {x : Ext} → ℕ → Result Error (PickResult x) → Type 0
AttemptsBelow n (ok r) = r.attempts < n
AttemptsBelow n (err e) = Unit {0}

abbrev RoundBelow : {x : Ext} {S : Type 0} → ℕ → Round (Result Error (PickResult x)) S → Type 0
RoundBelow n (finish out) = AttemptsBelow n out
RoundBelow n (again s) = Unit {0}

module _ {x : Ext} {W : Type 0} (b : Options x W) where
  record_use-below :
      (i n : ℕ) (prov : ProviderInfo x) (req : SelectRequest) (chosen : Account x) (w : W)
      → i < n
      → RoundBelow n (record_use b i prov req chosen w).0
  unfolding record_use
  record_use-below i n prov req chosen w h = ground arith

  attempt-below :
      (i n : ℕ) (prov : ProviderInfo x) (accounts : List (Account x)) (req : SelectRequest) (w : W)
      → i < n
      → RoundBelow n (attempt b i prov accounts req w).0
  unfolding attempt
  attempt-below i n prov accounts req w h = grind (arith, record_use-below i n)

  acquire_from_accounts-below :
      (left i n : ℕ) (prov : ProviderInfo x) (accounts : List (Account x)) (req : SelectRequest)
      (w : W)
      → i + left ≤ n
      → AttemptsBelow n (acquire_from_accounts b left i prov accounts req w).0
  unfolding acquire_from_accounts
  acquire_from_accounts-below zero i n prov accounts req w h = tt
  acquire_from_accounts-below (suc left) i n prov accounts req w h = grind (
    arith,
    attempt-below i n prov accounts req w (omega arith),
    acquire_from_accounts-below left (i + 1) n prov accounts,
  )

  select_from_accounts-below :
      (prov : ProviderInfo x) (accounts : List (Account x)) (req : SelectRequest) (m : ℤ) (w : W)
      → AttemptsBelow (rounds m) (select_from_accounts b prov accounts req m w).0
  unfolding select_from_accounts
  select_from_accounts-below prov accounts req m w =
      grind (arith, acquire_from_accounts-below (rounds m) 0 (rounds m))

  select_cached-below :
      (prov : ProviderInfo x) (req : SelectRequest) (m : ℤ) (cache : Cache b) (w : W)
      → AttemptsBelow (rounds m) (select_account_from_provider_cached b prov req m cache w).0
  unfolding select_account_from_provider_cached
  select_cached-below prov req m cache w = grind (arith, select_from_accounts-below)

  failover_round-below :
      (ps : List (ProviderInfo x)) (req : SelectRequest) (m : ℤ) (failover : Bool)
      (ks : List ProviderKey) (cache : Cache b) (w : W)
      → RoundBelow (rounds m) (failover_round b ps req m failover ks cache w).0
  unfolding failover_round
  failover_round-below ps req m failover ks cache w = grind (arith, select_cached-below)

  failover_loop-below :
      (fuel : ℕ) (ps : List (ProviderInfo x)) (req : SelectRequest) (m : ℤ) (failover : Bool)
      (ks : List ProviderKey) (cache : Cache b) (w : W)
      → AttemptsBelow (rounds m) (failover_loop b fuel ps req m failover ks cache w).0
  unfolding failover_loop
  failover_loop-below zero ps req m failover ks cache w = tt
  failover_loop-below (suc fuel) ps req m failover ks cache w = grind (
    arith,
    failover_round-below ps req m failover ks cache w,
    failover_loop-below fuel ps (record req { exclude_account_ids = [] }) m failover,
  )

  pick_auto-below :
      (req : SelectRequest) (m : ℤ) (failover : Bool) (w : W)
      → AttemptsBelow (rounds m) (pick_auto b req m failover w).0
  unfolding pick_auto
  pick_auto-below req m failover w = grind (arith, failover_loop-below)

  pick_exact-below :
      (req : SelectRequest) (key : ProviderKey) (m : ℤ) (w : W)
      → AttemptsBelow (rounds m) (pick_exact b req key m w).0
  unfolding pick_exact select_account_from_provider
  pick_exact-below req key m w = grind (arith, select_from_accounts-below)

  pick_exact_or_fallback-below :
      (req : SelectRequest) (key : ProviderKey) (m : ℤ) (failover : Bool) (w : W)
      → AttemptsBelow (rounds m) (pick_exact_or_fallback b req key m failover w).0
  unfolding pick_exact_or_fallback
  pick_exact_or_fallback-below req key m failover w =
      grind (arith, pick_exact-below, pick_auto-below)

  dispatch-below :
      (req : SelectRequest) (m : ℤ) (failover : Bool) (w : W)
      → AttemptsBelow (rounds m) (dispatch b req m failover w).0
  unfolding dispatch
  dispatch-below req m failover w = grind (arith, pick_exact_or_fallback-below, pick_auto-below)

  -- A result reports fewer attempts than there are rounds of the retries in force.
  pub pick_below :
      (req : PickRequest) (w : W) (r : PickResult x)
      → (pick b req w).0 ≡ ok r
      → r.attempts < rounds (effective_retries b req)
  unfolding pick
  pick_below req w r h = ground (
    arith,
    dispatch-below (select_request req) (effective_retries b req) (effective_failover b req) w,
  )
