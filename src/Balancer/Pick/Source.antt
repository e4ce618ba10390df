-- ===== src/Balancer/Pick/Source.antt =====
-- Where the account that `Pick` of balancer/default_balancer.go returns comes from.
use lumin_acpool.Prelude.{
  ℕ, zero, suc, ◌+◌, String, ℤ, Bool, some, List, [], ◌∷◌, Map, Result, ok, err, arith, ◌≡◌, All,
  All-mem, All-of_mem, mem-keep, get, put, get-put_self, get-put_ne, ◌==◌, Bool-cases, inl, inr,
  ◌∙◌, sym, subst,
}
use mathlib.Core.List.{Memᴰ}
use lumin_acpool.Account.{Ext, ProviderKey, Account, ProviderInfo, provider_key, key_eq}
use lumin_acpool.Interfaces.{SelectRequest, ResolverError}
use lumin_acpool.Balancer.Types.{Error, PickRequest, PickResult, Options}
use lumin_acpool.Balancer.Pick.{
  Round, finish, again, record_use, attempt, acquire_from_accounts, select_from_accounts,
  cached_accounts, Cache, select_account_from_provider_cached, failover_round, failover_loop,
  pick_auto, pick_exact, select_account_from_provider, pick_exact_or_fallback, dispatch,
  select_request, effective_retries, effective_failover, pick, exclude_accounts, rounds,
}

-- `Good key a` is what the resolver promises of the accounts that it lists for a provider. The
-- occupancy filter, the shuffle and the selector invent no account.
pub record Sourced {x : Ext} {W : Type 0} (b : Options x W)
    (Good : ProviderKey → Account x → Type 0) : Type 0 where
  pub resolve_accounts_good :
      (key : ProviderKey) (tags : Map String String) (w : W) (l : List (Account x))
      → (b.resolver.resolve_accounts key tags w).0 ≡ ok l
      → All (Good key) l
  pub filter_mem :
      (l : List (Account x)) (w : W) (a : Account x)
      → Memᴰ a (b.occupancy_controller.filter_available l w).0
      → Memᴰ a l
  pub shuffle_mem :
      (l : List (Account x)) (w : W) (a : Account x)
      → Memᴰ a (b.runtime.shuffle_accounts l w).0
      → Memᴰ a l
  pub select_mem :
      (l : List (Account x)) (r : SelectRequest) (w : W) (a : Account x)
      → (b.selector.select l r w).0 ≡ ok a
      → Memᴰ a l

exclude_accounts-mem :
    {x : Ext} (l : List (Account x)) (ids : List String) (a : Account x)
    → Memᴰ a (exclude_accounts l ids)
    → Memᴰ a l
unfolding exclude_accounts
exclude_accounts-mem l [] a m = m
exclude_accounts-mem l (i ∷ ids) a m = (mem-keep _ l m).1

-- What holds of the account of a result.
abbrev pub ResultHas :
    {x : Ext} → (ProviderKey → Account x → Type 0) → Result Error (PickResult x) → Type 0
ResultHas P (ok r) = P r.provider_key r.account
ResultHas P (err e) = Unit {0}

abbrev RoundHas :
    {x : Ext} {S : Type 0}
    → (ProviderKey → Account x → Type 0)
    → Round (Result Error (PickResult x)) S
    → Type 0
RoundHas P (finish out) = ResultHas P out
RoundHas P (again s) = Unit {0}

module _ {x : Ext} {W : Type 0} (b : Options x W) (Good : ProviderKey → Account x → Type 0)
    (c : Sourced b Good) where
  record_use-has :
      (i : ℕ) (prov : ProviderInfo x) (req : SelectRequest) (chosen : Account x) (w : W)
      → Good (provider_key prov) chosen
      → RoundHas Good (record_use b i prov req chosen w).0
  unfolding record_use
  record_use-has i prov req chosen w g = ground arith

  chosen-Good :
      (prov : ProviderInfo x) (accounts : List (Account x)) (ids : List String)
      (req : SelectRequest) (w : W) (a : Account x)
      → All (Good (provider_key prov)) accounts
      → (b.selector.select (exclude_accounts accounts ids) req w).0 ≡ ok a
      → Good (provider_key prov) a
  chosen-Good prov accounts ids req w a g h =
      All-mem (Good (provider_key prov)) accounts g
        (exclude_accounts-mem accounts ids a (c.select_mem _ req w a h))

  attempt-has :
      (i : ℕ) (prov : ProviderInfo x) (accounts : List (Account x)) (req : SelectRequest) (w : W)
      → All (Good (provider_key prov)) accounts
      → RoundHas Good (attempt b i prov accounts req w).0
  unfolding attempt
  attempt-has i prov accounts req w g = grind (
    arith,
    record_use-has i prov req,
    λ (v : W) (a : Account x). chosen-Good prov accounts req.exclude_account_ids req v a g,
  )

  acquire_from_accounts-has :
      (left i : ℕ) (prov : ProviderInfo x) (accounts : List (Account x)) (req : SelectRequest)
      (w : W)
      → All (Good (provider_key prov)) accounts
      → ResultHas Good (acquire_from_accounts b left i prov accounts req w).0
  unfolding acquire_from_accounts
  acquire_from_accounts-has zero i prov accounts req w g = tt
  acquire_from_accounts-has (suc left) i prov accounts req w g = grind (
    arith,
    attempt-has i prov accounts req w g,
    λ (r : SelectRequest) (v : W). acquire_from_accounts-has left (i + 1) prov accounts r v g,
  )

  available-Good :
      (key : ProviderKey) (l : List (Account x)) (w v : W)
      → All (Good key) l
      → All
          (Good key)
          (b.runtime.shuffle_accounts (b.occupancy_controller.filter_available l w).0 v).0
  available-Good key l w v g =
      All-of_mem _ λ a m. All-mem (Good key) l g (c.filter_mem l w a (c.shuffle_mem _ v a m))

  select_from_accounts-has :
      (prov : ProviderInfo x) (accounts : List (Account x)) (req : SelectRequest) (m : ℤ) (w : W)
      → All (Good (provider_key prov)) accounts
      → ResultHas Good (select_from_accounts b prov accounts req m w).0
  unfolding select_from_accounts
  select_from_accounts-has prov [] req m w g = tt
  select_from_accounts-has prov (a ∷ rest) req m w g =
      let mixed : (v : W) → _ = λ v. available-Good (provider_key prov) (a ∷ rest) w v g in
      grind (arith, mixed, acquire_from_accounts-has (rounds m) 0 prov)

  -- Every entry of the cache is what the resolver gave for its key.
  CacheGood : Cache b → Type 0
  CacheGood cache =
      (key : ProviderKey) (l : List (Account x)) → get key cache ≡ some l → All (Good key) l

  AccountsGood : ProviderKey → Result ResolverError (List (Account x)) × Cache b × W → Type 0
  AccountsGood key (ok l, cache, w) = All (Good key) l × CacheGood cache
  AccountsGood key (err e, cache, w) = CacheGood cache

  put-CacheGood :
      (key : ProviderKey) (l : List (Account x)) (cache : Cache b)
      → All (Good key) l
      → CacheGood cache
      → CacheGood (put key l cache)
  unfolding CacheGood
  put-CacheGood key l cache g cg j m h = elim (Bool-cases (key == j)) [
    | inl e ↦
        let q : key ≡ j = (key_eq.beq_iff key j).0 e in
        let same : l ≡ m = cc (q, get-put_self key l cache, h) in
        subst (λ k. All (Good k) m) q (subst (All (Good key)) same g)
    | inr e ↦ cg j m (sym (get-put_ne key j l cache e) ∙ h)
  ]

  cached-Good :
      (key : ProviderKey) (cache : Cache b)
      → CacheGood cache
      → (l : List (Account x)) → get key cache ≡ some l
      → All (Good key) l
  unfolding CacheGood
  cached-Good key cache cg = cg key

  cached_accounts-good :
      (key : ProviderKey) (tags : Map String String) (cache : Cache b) (w : W)
      → CacheGood cache
      → AccountsGood key (cached_accounts b key tags cache w)
  unfolding cached_accounts AccountsGood
  cached_accounts-good key tags cache w cg =
      grind (arith, c.resolve_accounts_good, put-CacheGood, cached-Good key cache cg)

  cached-has :
      (prov : ProviderInfo x) (req : SelectRequest) (m : ℤ) (cache : Cache b) (w : W)
      → CacheGood cache
      → ResultHas Good (select_account_from_provider_cached b prov req m cache w).0
        × CacheGood (select_account_from_provider_cached b prov req m cache w).1
  unfolding select_account_from_provider_cached AccountsGood
  cached-has prov req m cache w cg = grind (
    arith,
    cached_accounts-good (provider_key prov) req.tags cache w cg,
    select_from_accounts-has prov,
  )

  -- The result of a round of the failover loop, or the cache with which it goes on.
  FailoverHas : Round (Result Error (PickResult x)) (List ProviderKey × Cache b) → Type 0
  FailoverHas (finish out) = ResultHas Good out
  FailoverHas (again (ks, cache)) = CacheGood cache

  failover_round-has :
      (ps : List (ProviderInfo x)) (req : SelectRequest) (m : ℤ) (failover : Bool)
      (ks : List ProviderKey) (cache : Cache b) (w : W)
      → CacheGood cache
      → FailoverHas (failover_round b ps req m failover ks cache w).0
  unfolding failover_round FailoverHas
  failover_round-has ps req m failover ks cache w cg =
      grind (arith, λ (p : ProviderInfo x) (v : W). cached-has p req m cache v cg)

  failover_loop-has :
      (fuel : ℕ) (ps : List (ProviderInfo x)) (req : SelectRequest) (m : ℤ) (failover : Bool)
      (ks : List ProviderKey) (cache : Cache b) (w : W)
      → CacheGood cache
      → ResultHas Good (failover_loop b fuel ps req m failover ks cache w).0
  unfolding failover_loop FailoverHas
  failover_loop-has zero ps req m failover ks cache w cg = tt
  failover_loop-has (suc fuel) ps req m failover ks cache w cg = grind (
    arith,
    failover_round-has ps req m failover ks cache w cg,
    failover_loop-has fuel ps (record req { exclude_account_ids = [] }) m failover,
  )

  empty-CacheGood : CacheGood []
  unfolding CacheGood get
  empty-CacheGood key l h = cc

  pick_auto-has :
      (req : SelectRequest) (m : ℤ) (failover : Bool) (w : W)
      → ResultHas Good (pick_auto b req m failover w).0
  unfolding pick_auto
  pick_auto-has req m failover w = grind (arith, failover_loop-has, empty-CacheGood)

  pick_exact-has :
      (req : SelectRequest) (key : ProviderKey) (m : ℤ) (w : W)
      → ResultHas Good (pick_exact b req key m w).0
  unfolding pick_exact select_account_from_provider
  pick_exact-has req key m w = grind (arith, c.resolve_accounts_good, select_from_accounts-has)

  pick_exact_or_fallback-has :
      (req : SelectRequest) (key : ProviderKey) (m : ℤ) (failover : Bool) (w : W)
      → ResultHas Good (pick_exact_or_fallback b req key m failover w).0
  unfolding pick_exact_or_fallback
  pick_exact_or_fallback-has req key m failover w = grind (arith, pick_exact-has, pick_auto-has)

  dispatch-has :
      (req : SelectRequest) (m : ℤ) (failover : Bool) (w : W)
      → ResultHas Good (dispatch b req m failover w).0
  unfolding dispatch
  dispatch-has req m failover w = grind (arith, pick_exact_or_fallback-has, pick_auto-has)

  -- Where the occupancy filter, the shuffle and the selector invent no account, whatever holds of
  -- the accounts that the resolver lists for a provider holds of the account that `Pick` returns
  -- and of the provider key beside it, through retries, failover and its cache of account lists.
  pub pick_source :
      (req : PickRequest) (w : W) (r : PickResult x)
      → (pick b req w).0 ≡ ok r
      → Good r.provider_key r.account
  unfolding pick
  pick_source req w r h = ground (
    arith,
    dispatch-has (select_request req) (effective_retries b req) (effective_failover b req) w,
  )
