-- ===== src/Balancer/Pick/Fallback.antt =====
-- When a result of `Pick` is marked as a fallback, and which provider it comes from.
use lumin_acpool.Prelude.{
  ℕ, zero, suc, ◌+◌, ℤ, Bool, true, false, some, List, [], Result, ok, err, arith, ◌≡◌, refl,
  Option-cases, Result-cases, inl, inr,
}
use lumin_acpool.Account.{Ext, ProviderKey, Account, ProviderInfo}
use lumin_acpool.Interfaces.{SelectRequest, is_exact_provider}
use lumin_acpool.Balancer.Types.{Error, PickRequest, PickResult, Options}
use lumin_acpool.Balancer.Pick.{
  Round, finish, again, record_use, attempt, acquire_from_accounts, select_from_accounts, Cache,
  select_account_from_provider_cached, failover_round, failover_loop, pick_auto, pick_exact,
  select_account_from_provider, pick_exact_or_fallback, dispatch, select_request, effective_retries,
  effective_failover, pick,
}

abbrev is_fallback : {x : Ext} → Result Error (PickResult x) → Bool
is_fallback (ok r) = r.fallback
is_fallback (err e) = false

abbrev round_fallback : {x : Ext} {S : Type 0} → Round (Result Error (PickResult x)) S → Bool
round_fallback (finish out) = is_fallback out
round_fallback (again s) = false

module _ {x : Ext} {W : Type 0} (b : Options x W) where
  record_use-plain :
      (i : ℕ) (prov : ProviderInfo x) (req : SelectRequest) (chosen : Account x) (w : W)
      → round_fallback (record_use b i prov req chosen w).0 ≡ false
  unfolding record_use
  record_use-plain i prov req chosen w = ground arith

  attempt-plain :
      (i : ℕ) (prov : ProviderInfo x) (accounts : List (Account x)) (req : SelectRequest) (w : W)
      → round_fallback (attempt b i prov accounts req w).0 ≡ false
  unfolding attempt
  attempt-plain i prov accounts req w = grind (arith, record_use-plain)

  acquire_from_accounts-plain :
      (left i : ℕ) (prov : ProviderInfo x) (accounts : List (Account x)) (req : SelectRequest)
      (w : W)
      → is_fallback (acquire_from_accounts b left i prov accounts req w).0 ≡ false
  unfolding acquire_from_accounts
  acquire_from_accounts-plain zero i prov accounts req w = refl
  acquire_from_accounts-plain (suc left) i prov accounts req w =
      grind (arith, attempt-plain, acquire_from_accounts-plain left (i + 1) prov accounts)

  select_from_accounts-plain :
      (prov : ProviderInfo x) (accounts : List (Account x)) (req : SelectRequest) (m : ℤ) (w : W)
      → is_fallback (select_from_accounts b prov accounts req m w).0 ≡ false
  unfolding select_from_accounts
  select_from_accounts-plain prov accounts req m w = grind (arith, acquire_from_accounts-plain)

  select_cached-plain :
      (prov : ProviderInfo x) (req : SelectRequest) (m : ℤ) (cache : Cache b) (w : W)
      → is_fallback (select_account_from_provider_cached b prov req m cache w).0 ≡ false
  unfolding select_account_from_provider_cached
  select_cached-plain prov req m cache w = grind (arith, select_from_accounts-plain)

  failover_round-plain :
      (ps : List (ProviderInfo x)) (req : SelectRequest) (m : ℤ) (failover : Bool)
      (ks : List ProviderKey) (cache : Cache b) (w : W)
      → round_fallback (failover_round b ps req m failover ks cache w).0 ≡ false
  unfolding failover_round
  failover_round-plain ps req m failover ks cache w = grind (arith, select_cached-plain)

  failover_loop-plain :
      (fuel : ℕ) (ps : List (ProviderInfo x)) (req : SelectRequest) (m : ℤ) (failover : Bool)
      (ks : List ProviderKey) (cache : Cache b) (w : W)
      → is_fallback (failover_loop b fuel ps req m failover ks cache w).0 ≡ false
  unfolding failover_loop
  failover_loop-plain zero ps req m failover ks cache w = refl
  failover_loop-plain (suc fuel) ps req m failover ks cache w = grind (
    arith,
    failover_round-plain ps req m failover ks cache w,
    failover_loop-plain fuel ps (record req { exclude_account_ids = [] }) m failover,
  )

  pick_auto-plain :
      (req : SelectRequest) (m : ℤ) (failover : Bool) (w : W)
      → is_fallback (pick_auto b req m failover w).0 ≡ false
  unfolding pick_auto
  pick_auto-plain req m failover w = grind (arith, failover_loop-plain)

  pick_exact-plain :
      (req : SelectRequest) (key : ProviderKey) (m : ℤ) (w : W)
      → is_fallback (pick_exact b req key m w).0 ≡ false
  unfolding pick_exact select_account_from_provider
  pick_exact-plain req key m w = grind (arith, select_from_accounts-plain)

  -- The exact provider was asked for, failover was allowed, and the exact choice failed.
  abbrev pub FellBack : SelectRequest → ℤ → Bool → W → Type 0
  FellBack req m failover w =
      (key : ProviderKey) × (error : Error) × (req.provider_key ≡ some key)
      × (is_exact_provider req ≡ true)
      × (failover ≡ true)
      × ((pick_exact b req key m w).0 ≡ err error)

  exact_fallback :
      (req : SelectRequest) (key : ProviderKey) (m : ℤ) (failover : Bool) (w : W)
      → is_fallback (pick_exact_or_fallback b req key m failover w).0 ≡ true
      → (error : Error) × (failover ≡ true) × ((pick_exact b req key m w).0 ≡ err error)
  unfolding pick_exact_or_fallback
  exact_fallback req key m failover w h = elim (Result-cases (pick_exact b req key m w).0) [
    | inl (r, q) ↦ absurd (ground (arith, pick_exact-plain req key m w))
    | inr (e, q) ↦ (e, ground arith, q)
  ]

  dispatch_fallback :
      (req : SelectRequest) (m : ℤ) (failover : Bool) (w : W)
      → is_fallback (dispatch b req m failover w).0 ≡ true
      → FellBack req m failover w
  unfolding dispatch
  dispatch_fallback req m failover w h = elim (Option-cases req.provider_key) [
    | inl e ↦ absurd (ground (arith, pick_auto-plain req m failover w))
    | inr (key, e) ↦
        let (error, allowed, failed) =
          exact_fallback req key m failover w (ground (arith, pick_auto-plain req m failover w)) in
        (key, error, e, ground (arith, pick_auto-plain req m failover w), allowed, failed)
  ]

  -- A result is marked as a fallback only if the request named an exact provider, failover was in
  -- force, and the choice from that provider failed.
  pub pick_fallback :
      (req : PickRequest) (w : W) (r : PickResult x)
      → (pick b req w).0 ≡ ok r
      → r.fallback ≡ true
      → FellBack (select_request req) (effective_retries b req) (effective_failover b req) w
  unfolding pick
  pick_fallback req w r h marked =
      dispatch_fallback _ (effective_retries b req) (effective_failover b req) w (ground arith)
