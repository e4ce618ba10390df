-- ===== src/Balancer/Pick/Tries.antt =====
-- What the number of attempts in a result of `Pick` says of the accounts that were tried.
use lumin_acpool.Prelude.{
  ℕ, zero, suc, ◌+◌, ◌≤◌, ◌<◌, String, ℤ, Bool, true, false, some, List, [], Map, Result, ok, err,
  arith, ◌≡◌,
}
use lumin_acpool.Account.{Ext, ProviderKey, Account, ProviderInfo}
use lumin_acpool.Interfaces.{SelectRequest, StatsStore}
use lumin_acpool.Balancer.Types.{Error, PickRequest, PickResult, Options}
use lumin_acpool.Balancer.Pick.{
  Round, finish, again, record_use, attempt, acquire_from_accounts, select_from_accounts,
  cached_accounts, Cache, select_account_from_provider_cached, failover_round, failover_loop,
  pick_auto, pick_exact, select_account_from_provider, pick_exact_or_fallback, dispatch,
  select_request, effective_retries, effective_failover, pick, rounds,
}
use lumin_acpool.Balancer.Pick.Attempts.{pick_below}

-- `tries w` is the number of calls of `Acquire` so far: each raises it by one, and nothing else that
-- `Pick` calls moves it.
pub record Tries {x : Ext} {W : Type 0} (b : Options x W) (tries : W → ℕ) : Type 0 where
  pub acquire_counts :
      (a : Account x) (w : W) → tries (b.occupancy_controller.acquire a w).1 ≡ suc (tries w)
  pub release_keeps : (k : String) (w : W) → tries (b.occupancy_controller.release k w) ≡ tries w
  pub filter_keeps :
      (l : List (Account x)) (w : W)
      → tries (b.occupancy_controller.filter_available l w).1 ≡ tries w
  pub update_last_used_keeps :
      (stats : StatsStore W) (k : String) (t : ℕ) (w : W)
      → b.stats_store ≡ some stats
      → tries (stats.update_last_used k t w).1 ≡ tries w
  pub select_keeps :
      (l : List (Account x)) (r : SelectRequest) (w : W)
      → tries (b.selector.select l r w).1 ≡ tries w
  pub group_select_keeps :
      (ps : List (ProviderInfo x)) (r : SelectRequest) (w : W)
      → tries (b.group_selector.select ps r w).1 ≡ tries w
  pub resolve_provider_keeps :
      (k : ProviderKey) (m : String) (w : W) → tries (b.resolver.resolve_provider k m w).1 ≡ tries w
  pub resolve_providers_keeps :
      (m t : String) (w : W) → tries (b.resolver.resolve_providers m t w).1 ≡ tries w
  pub resolve_accounts_keeps :
      (k : ProviderKey) (t : Map String String) (w : W)
      → tries (b.resolver.resolve_accounts k t w).1 ≡ tries w
  pub shuffle_providers_keeps :
      (ps : List (ProviderInfo x)) (w : W) → tries (b.runtime.shuffle_providers ps w).1 ≡ tries w
  pub shuffle_accounts_keeps :
      (l : List (Account x)) (w : W) → tries (b.runtime.shuffle_accounts l w).1 ≡ tries w

-- From `n` tries to `m`: a result that reports `i` attempts took `i + 1` tries, after tries on other
-- providers if failover is in force.
abbrev Tried : {x : Ext} → Bool → ℕ → Result Error (PickResult x) → ℕ → Type 0
Tried failover n (ok r) m = (n + suc r.attempts ≤ m) × (failover ≡ false → m ≡ n + suc r.attempts)
Tried failover n (err e) m = n ≤ m

abbrev RoundTried :
    {x : Ext} {S : Type 0} → Bool → ℕ → Round (Result Error (PickResult x)) S → ℕ → Type 0
RoundTried failover n (finish out) m = Tried failover n out m
RoundTried failover n (again s) m = (failover ≡ true) × (n ≤ m)

-- After `i` rounds of the retry loop that began with `n` tries.
abbrev LoopTried : {x : Ext} → ℕ → ℕ → Result Error (PickResult x) → ℕ → Type 0
LoopTried i n (ok r) m = m + i ≡ n + suc r.attempts
LoopTried i n (err e) m = n ≤ m

abbrev AttemptTried :
    {x : Ext} {S : Type 0} → ℕ → ℕ → Round (Result Error (PickResult x)) S → ℕ → Type 0
AttemptTried i n (finish out) m = LoopTried i n out m
AttemptTried i n (again s) m = m ≡ suc n

module _ {x : Ext} {W : Type 0} (b : Options x W) (tries : W → ℕ) (c : Tries b tries) where
  record_use-tries :
      (i n : ℕ) (prov : ProviderInfo x) (req : SelectRequest) (chosen : Account x) (w : W)
      → tries w ≡ suc n
      → AttemptTried i n
          (record_use b i prov req chosen w).0
          (tries (record_use b i prov req chosen w).1)
  unfolding record_use
  record_use-tries i n prov req chosen w h =
      grind (arith, c.update_last_used_keeps, c.release_keeps)

  attempt-tries :
      (i : ℕ) (prov : ProviderInfo x) (accounts : List (Account x)) (req : SelectRequest) (w : W)
      → AttemptTried i
          (tries w)
          (attempt b i prov accounts req w).0
          (tries (attempt b i prov accounts req w).1)
  unfolding attempt
  attempt-tries i prov accounts req w =
      grind (arith, c.select_keeps, c.acquire_counts, record_use-tries i (tries w) prov req)

  acquire_from_accounts-tries :
      (left i : ℕ) (prov : ProviderInfo x) (accounts : List (Account x)) (req : SelectRequest)
      (w : W)
      → LoopTried i
          (tries w)
          (acquire_from_accounts b left i prov accounts req w).0
          (tries (acquire_from_accounts b left i prov accounts req w).1)
  unfolding acquire_from_accounts
  acquire_from_accounts-tries zero i prov accounts req w = omega arith
  acquire_from_accounts-tries (suc left) i prov accounts req w = grind (
    arith,
    attempt-tries i prov accounts req w,
    acquire_from_accounts-tries left (i + 1) prov accounts,
  )

  select_from_accounts-tries :
      (failover : Bool) (prov : ProviderInfo x) (accounts : List (Account x)) (req : SelectRequest)
      (m : ℤ) (w : W)
      → Tried failover
          (tries w)
          (select_from_accounts b prov accounts req m w).0
          (tries (select_from_accounts b prov accounts req m w).1)
  unfolding select_from_accounts
  select_from_accounts-tries failover prov accounts req m w =
      grind
        (arith, c.filter_keeps, c.shuffle_accounts_keeps, acquire_from_accounts-tries (rounds m) 0)

  cached_accounts-tries :
      (key : ProviderKey) (tags : Map String String) (cache : Cache b) (w : W)
      → tries (cached_accounts b key tags cache w).2 ≡ tries w
  unfolding cached_accounts
  cached_accounts-tries key tags cache w = grind (arith, c.resolve_accounts_keeps)

  select_cached-tries :
      (failover : Bool) (prov : ProviderInfo x) (req : SelectRequest) (m : ℤ) (cache : Cache b)
      (w : W)
      → Tried failover
          (tries w)
          (select_account_from_provider_cached b prov req m cache w).0
          (tries (select_account_from_provider_cached b prov req m cache w).2)
  unfolding select_account_from_provider_cached
  select_cached-tries failover prov req m cache w =
      grind (arith, cached_accounts-tries, select_from_accounts-tries failover)

  failover_round-tries :
      (ps : List (ProviderInfo x)) (req : SelectRequest) (m : ℤ) (failover : Bool)
      (excluded : List ProviderKey) (cache : Cache b) (w : W)
      → RoundTried failover
          (tries w)
          (failover_round b ps req m failover excluded cache w).0
          (tries (failover_round b ps req m failover excluded cache w).1)
  unfolding failover_round
  failover_round-tries ps req m failover excluded cache w =
      grind (arith, c.group_select_keeps, select_cached-tries failover)

  failover_loop-tries :
      (fuel : ℕ) (ps : List (ProviderInfo x)) (req : SelectRequest) (m : ℤ) (failover : Bool)
      (excluded : List ProviderKey) (cache : Cache b) (w : W)
      → Tried failover
          (tries w)
          (failover_loop b fuel ps req m failover excluded cache w).0
          (tries (failover_loop b fuel ps req m failover excluded cache w).1)
  unfolding failover_loop
  failover_loop-tries zero ps req m failover excluded cache w = omega arith
  failover_loop-tries (suc fuel) ps req m failover excluded cache w = grind (
    arith,
    failover_round-tries ps req m failover excluded cache w,
    failover_loop-tries fuel ps (record req { exclude_account_ids = [] }) m failover,
  )

  pick_auto-tries :
      (req : SelectRequest) (m : ℤ) (failover : Bool) (w : W)
      → Tried failover
          (tries w)
          (pick_auto b req m failover w).0
          (tries (pick_auto b req m failover w).1)
  unfolding pick_auto
  pick_auto-tries req m failover w =
      grind (arith, c.resolve_providers_keeps, c.shuffle_providers_keeps, failover_loop-tries)

  pick_exact-tries :
      (failover : Bool) (req : SelectRequest) (key : ProviderKey) (m : ℤ) (w : W)
      → Tried failover (tries w) (pick_exact b req key m w).0 (tries (pick_exact b req key m w).1)
  unfolding pick_exact select_account_from_provider
  pick_exact-tries failover req key m w = grind (
    arith,
    c.resolve_provider_keeps,
    c.resolve_accounts_keeps,
    select_from_accounts-tries failover,
  )

  pick_exact_or_fallback-tries :
      (req : SelectRequest) (key : ProviderKey) (m : ℤ) (failover : Bool) (w : W)
      → Tried failover
          (tries w)
          (pick_exact_or_fallback b req key m failover w).0
          (tries (pick_exact_or_fallback b req key m failover w).1)
  unfolding pick_exact_or_fallback
  pick_exact_or_fallback-tries req key m failover w =
      grind (arith, pick_exact-tries failover req key m w, pick_auto-tries)

  dispatch-tries :
      (req : SelectRequest) (m : ℤ) (failover : Bool) (w : W)
      → Tried failover
          (tries w)
          (dispatch b req m failover w).0
          (tries (dispatch b req m failover w).1)
  unfolding dispatch
  dispatch-tries req m failover w = grind (arith, pick_exact_or_fallback-tries, pick_auto-tries)

  -- Where each call of `Acquire` is counted as a try, and nothing else is: a result of `Pick` reports
  -- fewer attempts than there are rounds of the retries in force; `Pick` has made at least one try
  -- more than it reports, and exactly one more where failover is not in force.
  pub pick_attempts :
      (req : PickRequest) (w : W) (r : PickResult x)
      → (pick b req w).0 ≡ ok r
      → (r.attempts < rounds (effective_retries b req))
        × (tries w + suc r.attempts ≤ tries (pick b req w).1)
        × (effective_failover b req ≡ false → tries (pick b req w).1 ≡ tries w + suc r.attempts)
  unfolding pick
  pick_attempts req w r h = ground (
    arith,
    pick_below b req w r h,
    dispatch-tries (select_request req) (effective_retries b req) (effective_failover b req) w,
  )
