-- ===== src/Balancer/Pick/Rounds.antt =====
-- Termination of the failover loop and the retry loop of `Pick`, balancer/default_balancer.go.
use lumin_acpool.Prelude.{
  ℕ, zero, suc, ◌+◌, ◌≤◌, ◌<◌, ℤ, Bool, true, false, ◌||◌, ◌&&◌, not, List, [], ◌∷◌, ◌++◌, Result,
  ok, err, ◌==◌, string_key, arith, ◌≡◌, refl, sym, keep, keep-true, count_if, count_if-lt,
  mem-keep, length, subst, beq_refl,
}
use mathlib.Core.List.{Memᴰ}
use lumin_acpool.Account.{Ext, ProviderKey, Account, ProviderInfo, provider_key}
use lumin_acpool.Interfaces.{SelectRequest}
use lumin_acpool.Balancer.Types.{Error, PickRequest, PickResult, Options}
use lumin_acpool.Balancer.Pick.{
  Round, finish, again, record_use, attempt, acquire_from_accounts, select_from_accounts, Cache,
  select_account_from_provider_cached, failover_round, failover_loop, pick_auto, pick_exact,
  select_account_from_provider, pick_exact_or_fallback, dispatch, select_request, effective_retries,
  effective_failover, pick, is_excluded, filter_providers,
}

-- The group selector returns one of its candidates.
pub record Chooses {x : Ext} {W : Type 0} (b : Options x W) : Type 0 where
  pub group_select_mem :
      (ps : List (ProviderInfo x)) (r : SelectRequest) (w : W) (p : ProviderInfo x)
      → (b.group_selector.select ps r w).0 ≡ ok p
      → Memᴰ p ps

abbrev pub is_out_of_fuel : {x : Ext} → Result Error (PickResult x) → Bool
is_out_of_fuel (err Error.out_of_fuel) = true
is_out_of_fuel _ = false

-- A round that returns does not return the model's own error.
abbrev settles : {x : Ext} {S : Type 0} → Round (Result Error (PickResult x)) S → Bool
settles (finish out) = not (is_out_of_fuel out)
settles (again s) = true

module _ {x : Ext} {W : Type 0} (b : Options x W) where
  record_use-settles :
      (i : ℕ) (prov : ProviderInfo x) (req : SelectRequest) (chosen : Account x) (w : W)
      → settles (record_use b i prov req chosen w).0 ≡ true
  unfolding record_use
  record_use-settles i prov req chosen w = ground arith

  attempt-settles :
      (i : ℕ) (prov : ProviderInfo x) (accounts : List (Account x)) (req : SelectRequest) (w : W)
      → settles (attempt b i prov accounts req w).0 ≡ true
  unfolding attempt
  attempt-settles i prov accounts req w = grind (arith, record_use-settles)

  acquire_from_accounts-settles :
      (left i : ℕ) (prov : ProviderInfo x) (accounts : List (Account x)) (req : SelectRequest)
      (w : W)
      → is_out_of_fuel (acquire_from_accounts b left i prov accounts req w).0 ≡ false
  unfolding acquire_from_accounts
  acquire_from_accounts-settles zero i prov accounts req w = refl
  acquire_from_accounts-settles (suc left) i prov accounts req w =
      grind (arith, attempt-settles, acquire_from_accounts-settles left (i + 1) prov accounts)

  select_from_accounts-settles :
      (prov : ProviderInfo x) (accounts : List (Account x)) (req : SelectRequest) (m : ℤ) (w : W)
      → is_out_of_fuel (select_from_accounts b prov accounts req m w).0 ≡ false
  unfolding select_from_accounts
  select_from_accounts-settles prov accounts req m w = grind (arith, acquire_from_accounts-settles)

  select_cached-settles :
      (prov : ProviderInfo x) (req : SelectRequest) (m : ℤ) (cache : Cache b) (w : W)
      → is_out_of_fuel (select_account_from_provider_cached b prov req m cache w).0 ≡ false
  unfolding select_account_from_provider_cached
  select_cached-settles prov req m cache w = grind (arith, select_from_accounts-settles)

  pick_exact-settles :
      (req : SelectRequest) (key : ProviderKey) (m : ℤ) (w : W)
      → is_out_of_fuel (pick_exact b req key m w).0 ≡ false
  unfolding pick_exact select_account_from_provider
  pick_exact-settles req key m w = grind (arith, select_from_accounts-settles)

module _ {x : Ext} where
  -- How many candidates are not excluded yet.
  abbrev remaining : List ProviderKey → List (ProviderInfo x) → ℕ
  remaining excluded ps = count_if (λ p. not (is_excluded excluded p)) ps

  filter_providers_lem :
      (ps : List (ProviderInfo x)) (ks : List ProviderKey)
      → filter_providers ps ks ≡ keep (λ p. not (is_excluded ks p)) ps
  unfolding filter_providers
  filter_providers_lem ps [] = sym (keep-true ps)
  filter_providers_lem ps (k ∷ ks) = refl

  is_excluded-append :
      (ks : List ProviderKey) (k : ProviderKey) (p : ProviderInfo x)
      → is_excluded (ks ++ k ∷ []) p
        ≡ (is_excluded ks p || (p.provider_type == k.ptype && p.provider_name == k.name))
  is_excluded-append [] k p = ground arith
  is_excluded-append (j ∷ ks) k p = ground (arith, is_excluded-append ks k p)

  remaining-lt :
      (ps : List (ProviderInfo x)) (ks : List ProviderKey) (p : ProviderInfo x)
      → Memᴰ p (filter_providers ps ks)
      → remaining (ks ++ provider_key p ∷ []) ps < remaining ks ps
  remaining-lt ps ks p m =
      let (free, m') = mem-keep _ ps (subst (Memᴰ p) (filter_providers_lem ps ks) m) in
      count_if-lt _ _ ps (λ y h. ground (arith, is_excluded-append ks (provider_key p) y)) free
        (ground (
          arith,
          is_excluded-append ks (provider_key p) p,
          beq_refl p.provider_type,
          beq_refl p.provider_name,
        ))
        m'

  remaining-le-length :
      (ps : List (ProviderInfo x)) (ks : List ProviderKey) → remaining ks ps ≤ length ps
  remaining-le-length [] ks = omega arith
  remaining-le-length (p ∷ ps) ks = ground (arith, remaining-le-length ps ks)

module _ {x : Ext} {W : Type 0} (b : Options x W) (c : Chooses b) where
  -- A round of the failover loop either returns or excludes one more candidate.
  Progress :
      List (ProviderInfo x)
      → List ProviderKey
      → Round (Result Error (PickResult x)) (List ProviderKey × Cache b)
      → Type 0
  Progress ps ks (finish out) = is_out_of_fuel out ≡ false
  Progress ps ks (again (ks', cache)) = remaining ks' ps < remaining ks ps

  failover_round-Progress :
      (ps : List (ProviderInfo x)) (req : SelectRequest) (m : ℤ) (failover : Bool)
      (ks : List ProviderKey) (cache : Cache b) (w : W)
      → Progress ps ks (failover_round b ps req m failover ks cache w).0
  unfolding failover_round Progress
  failover_round-Progress ps req m failover ks cache w =
      grind (arith, select_cached-settles, c.group_select_mem, remaining-lt)

  failover_loop-settles :
      (fuel : ℕ) (ps : List (ProviderInfo x)) (req : SelectRequest) (m : ℤ) (failover : Bool)
      (ks : List ProviderKey) (cache : Cache b) (w : W)
      → remaining ks ps < fuel
      → is_out_of_fuel (failover_loop b fuel ps req m failover ks cache w).0 ≡ false
  unfolding failover_loop Progress
  failover_loop-settles zero ps req m failover ks cache w h = absurd (omega arith)
  failover_loop-settles (suc fuel) ps req m failover ks cache w h = grind (
    arith,
    failover_round-Progress ps req m failover ks cache w,
    failover_loop-settles fuel ps (record req { exclude_account_ids = [] }) m failover,
  )

  pick_auto-settles :
      (req : SelectRequest) (m : ℤ) (failover : Bool) (w : W)
      → is_out_of_fuel (pick_auto b req m failover w).0 ≡ false
  unfolding pick_auto
  pick_auto-settles req m failover w =
      grind (arith, failover_loop-settles, remaining-le-length {x = x})

  pick_exact_or_fallback-settles :
      (req : SelectRequest) (key : ProviderKey) (m : ℤ) (failover : Bool) (w : W)
      → is_out_of_fuel (pick_exact_or_fallback b req key m failover w).0 ≡ false
  unfolding pick_exact_or_fallback
  pick_exact_or_fallback-settles req key m failover w =
      grind (arith, pick_exact-settles b, pick_auto-settles)

  dispatch-settles :
      (req : SelectRequest) (m : ℤ) (failover : Bool) (w : W)
      → is_out_of_fuel (dispatch b req m failover w).0 ≡ false
  unfolding dispatch
  dispatch-settles req m failover w =
      grind (arith, pick_exact_or_fallback-settles, pick_auto-settles)

  -- `Pick` ends: with a group selector that returns one of its candidates, one round more than there
  -- are candidates is enough for the failover loop, so the result is never the model's `out_of_fuel`.
  pub pick-settles : (req : PickRequest) (w : W) → is_out_of_fuel (pick b req w).0 ≡ false
  unfolding pick
  pick-settles req w = ground (
    arith,
    dispatch-settles (select_request req) (effective_retries b req) (effective_failover b req) w,
  )
