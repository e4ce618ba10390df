-- ===== src/Balancer/Pick/Slots.antt =====
-- Occupancy slots across `Pick`: what the balancer needs to know of the occupancy controller and of
-- its other dependencies, and what it then guarantees.
use lumin_acpool.Prelude.{
  ℕ, zero, suc, ◌+◌, ◌-◌, ◌≤◌, String, ℤ, Bool, true, false, some, List, [], Map, Result, ok, err,
  ◌==◌, string_key, indicator, arith, ◌≡◌,
}
use lumin_acpool.Account.{Ext, ProviderKey, Account, ProviderInfo}
use lumin_acpool.Interfaces.{SelectRequest, StatsStore}
use lumin_acpool.Balancer.Types.{Error, PickRequest, PickResult, Options}
use lumin_acpool.Balancer.Pick.{
  Round, finish, again, record_use, attempt, acquire_from_accounts, select_from_accounts,
  cached_accounts, Cache, select_account_from_provider_cached, failover_round, failover_loop,
  pick_auto, pick_exact, select_account_from_provider, pick_exact_or_fallback, dispatch,
  select_request, effective_retries, effective_failover, pick,
}

-- `slots w i` is the number of slots of account `i` that are taken. The controller moves it by one,
-- and nothing else that `Pick` calls moves it.
pub record Accounting {x : Ext} {W : Type 0} (b : Options x W) (slots : W → String → ℕ)
    : Type 0 where
  pub acquire_true :
      (a : Account x) (w : W) (i : String)
      → (b.occupancy_controller.acquire a w).0 ≡ true
      → slots (b.occupancy_controller.acquire a w).1 i ≡ slots w i + indicator (a.id == i)
  pub acquire_false :
      (a : Account x) (w : W) (i : String)
      → (b.occupancy_controller.acquire a w).0 ≡ false
      → slots (b.occupancy_controller.acquire a w).1 i ≡ slots w i
  pub release_lem :
      (k : String) (w : W) (i : String)
      → slots (b.occupancy_controller.release k w) i ≡ slots w i - indicator (k == i)
  pub filter_keeps :
      (l : List (Account x)) (w : W) (i : String)
      → slots (b.occupancy_controller.filter_available l w).1 i ≡ slots w i
  pub update_last_used_keeps :
      (stats : StatsStore W) (k : String) (t : ℕ) (w : W) (i : String)
      → b.stats_store ≡ some stats
      → slots (stats.update_last_used k t w).1 i ≡ slots w i
  pub select_keeps :
      (l : List (Account x)) (r : SelectRequest) (w : W) (i : String)
      → slots (b.selector.select l r w).1 i ≡ slots w i
  pub group_select_keeps :
      (ps : List (ProviderInfo x)) (r : SelectRequest) (w : W) (i : String)
      → slots (b.group_selector.select ps r w).1 i ≡ slots w i
  pub resolve_provider_keeps :
      (k : ProviderKey) (m : String) (w : W) (i : String)
      → slots (b.resolver.resolve_provider k m w).1 i ≡ slots w i
  pub resolve_providers_keeps :
      (m t : String) (w : W) (i : String)
      → slots (b.resolver.resolve_providers m t w).1 i ≡ slots w i
  pub resolve_accounts_keeps :
      (k : ProviderKey) (t : Map String String) (w : W) (i : String)
      → slots (b.resolver.resolve_accounts k t w).1 i ≡ slots w i
  pub shuffle_providers_keeps :
      (ps : List (ProviderInfo x)) (w : W) (i : String)
      → slots (b.runtime.shuffle_providers ps w).1 i ≡ slots w i
  pub shuffle_accounts_keeps :
      (l : List (Account x)) (w : W) (i : String)
      → slots (b.runtime.shuffle_accounts l w).1 i ≡ slots w i

-- The slot of account `i` that the caller holds after a result, and after a round.
abbrev pub held : {x : Ext} → Result Error (PickResult x) → String → ℕ
held (ok r) i = indicator (r.account.id == i)
held (err e) i = 0

abbrev pub held_round : {x : Ext} {S : Type 0} → Round (Result Error (PickResult x)) S → String → ℕ
held_round (finish out) i = held out i
held_round (again s) i = 0

module _ {x : Ext} {W : Type 0} (b : Options x W) (slots : W → String → ℕ)
    (c : Accounting b slots) where
  record_use-slots :
      (i : ℕ) (prov : ProviderInfo x) (req : SelectRequest) (chosen : Account x) (w : W)
      (k : String)
      → indicator (chosen.id == k) ≤ slots w k
      → slots (record_use b i prov req chosen w).1 k + indicator (chosen.id == k)
        ≡ slots w k + held_round (record_use b i prov req chosen w).0 k
  unfolding record_use
  record_use-slots i prov req chosen w k h = grind (arith, c.update_last_used_keeps, c.release_lem)

  attempt-slots :
      (i : ℕ) (prov : ProviderInfo x) (accounts : List (Account x)) (req : SelectRequest) (w : W)
      (k : String)
      → slots (attempt b i prov accounts req w).1 k
        ≡ slots w k + held_round (attempt b i prov accounts req w).0 k
  unfolding attempt
  attempt-slots i prov accounts req w k =
      grind (arith, c.select_keeps, c.acquire_true, c.acquire_false, record_use-slots)

  pub acquire_from_accounts-slots :
      (left i : ℕ) (prov : ProviderInfo x) (accounts : List (Account x)) (req : SelectRequest)
      (w : W) (k : String)
      → slots (acquire_from_accounts b left i prov accounts req w).1 k
        ≡ slots w k + held (acquire_from_accounts b left i prov accounts req w).0 k
  unfolding acquire_from_accounts
  acquire_from_accounts-slots zero i prov accounts req w k = omega arith
  acquire_from_accounts-slots (suc left) i prov accounts req w k =
      grind (arith, attempt-slots, acquire_from_accounts-slots left (i + 1) prov accounts)

  select_from_accounts-slots :
      (prov : ProviderInfo x) (accounts : List (Account x)) (req : SelectRequest) (m : ℤ) (w : W)
      (k : String)
      → slots (select_from_accounts b prov accounts req m w).1 k
        ≡ slots w k + held (select_from_accounts b prov accounts req m w).0 k
  unfolding select_from_accounts
  select_from_accounts-slots prov accounts req m w k =
      grind (arith, c.filter_keeps, c.shuffle_accounts_keeps, acquire_from_accounts-slots)

  cached_accounts-slots :
      (key : ProviderKey) (tags : Map String String) (cache : Cache b) (w : W) (k : String)
      → slots (cached_accounts b key tags cache w).2 k ≡ slots w k
  unfolding cached_accounts
  cached_accounts-slots key tags cache w k = grind (arith, c.resolve_accounts_keeps)

  select_cached-slots :
      (prov : ProviderInfo x) (req : SelectRequest) (m : ℤ) (cache : Cache b) (w : W) (k : String)
      → slots (select_account_from_provider_cached b prov req m cache w).2 k
        ≡ slots w k + held (select_account_from_provider_cached b prov req m cache w).0 k
  unfolding select_account_from_provider_cached
  select_cached-slots prov req m cache w k =
      grind (arith, cached_accounts-slots, select_from_accounts-slots)

  failover_round-slots :
      (ps : List (ProviderInfo x)) (req : SelectRequest) (m : ℤ) (failover : Bool)
      (excluded : List ProviderKey) (cache : Cache b) (w : W) (k : String)
      → slots (failover_round b ps req m failover excluded cache w).1 k
        ≡ slots w k + held_round (failover_round b ps req m failover excluded cache w).0 k
  unfolding failover_round
  failover_round-slots ps req m failover excluded cache w k =
      grind (arith, c.group_select_keeps, select_cached-slots)

  failover_loop-slots :
      (fuel : ℕ) (ps : List (ProviderInfo x)) (req : SelectRequest) (m : ℤ) (failover : Bool)
      (excluded : List ProviderKey) (cache : Cache b) (w : W) (k : String)
      → slots (failover_loop b fuel ps req m failover excluded cache w).1 k
        ≡ slots w k + held (failover_loop b fuel ps req m failover excluded cache w).0 k
  unfolding failover_loop
  failover_loop-slots zero ps req m failover excluded cache w k = omega arith
  failover_loop-slots (suc fuel) ps req m failover excluded cache w k = grind (
    arith,
    failover_round-slots,
    failover_loop-slots fuel ps (record req { exclude_account_ids = [] }) m failover,
  )

  pick_auto-slots :
      (req : SelectRequest) (m : ℤ) (failover : Bool) (w : W) (k : String)
      → slots (pick_auto b req m failover w).1 k
        ≡ slots w k + held (pick_auto b req m failover w).0 k
  unfolding pick_auto
  pick_auto-slots req m failover w k =
      grind (arith, c.resolve_providers_keeps, c.shuffle_providers_keeps, failover_loop-slots)

  pick_exact-slots :
      (req : SelectRequest) (key : ProviderKey) (m : ℤ) (w : W) (k : String)
      → slots (pick_exact b req key m w).1 k ≡ slots w k + held (pick_exact b req key m w).0 k
  unfolding pick_exact select_account_from_provider
  pick_exact-slots req key m w k =
      grind (arith, c.resolve_provider_keeps, c.resolve_accounts_keeps, select_from_accounts-slots)

  pick_exact_or_fallback-slots :
      (req : SelectRequest) (key : ProviderKey) (m : ℤ) (failover : Bool) (w : W) (k : String)
      → slots (pick_exact_or_fallback b req key m failover w).1 k
        ≡ slots w k + held (pick_exact_or_fallback b req key m failover w).0 k
  unfolding pick_exact_or_fallback
  pick_exact_or_fallback-slots req key m failover w k =
      grind (arith, pick_exact-slots, pick_auto-slots)

  dispatch-slots :
      (req : SelectRequest) (m : ℤ) (failover : Bool) (w : W) (k : String)
      → slots (dispatch b req m failover w).1 k ≡ slots w k + held (dispatch b req m failover w).0 k
  unfolding dispatch
  dispatch-slots req m failover w k = grind (arith, pick_exact_or_fallback-slots, pick_auto-slots)

  -- `Pick` leaks no slot, where the controller moves an account's count by one and nothing else
  -- that `Pick` calls moves it: when it returns an account, one slot of that account more is taken
  -- than before and no other account's count has changed; when it fails, on whatever path, no count
  -- has.
  pub pick-slots :
      (req : PickRequest) (w : W) (k : String)
      → slots (pick b req w).1 k ≡ slots w k + held (pick b req w).0 k
  unfolding pick
  pick-slots req w k = ground (
    arith,
    dispatch-slots (select_request req) (effective_retries b req) (effective_failover b req) w k,
  )
