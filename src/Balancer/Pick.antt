-- ===== src/Balancer/Pick.antt =====
-- balancer/default_balancer.go: `Pick` and the functions that it calls. A pointer to the request is
-- not modelled: a loop that appends to `ExcludeAccountIDs` carries the request, and the failover
-- loop, which resets that field before it goes round again, starts each round with none.
pub mod Slots
pub mod Rounds
pub mod Fallback
pub mod Source
pub mod Attempts
pub mod Tries
pub mod Limit
use lumin_acpool.Prelude.{
  ℕ, zero, suc, ◌+◌, String, ℤ, pos, negsuc, leb_ℤ, Bool, true, false, ◌||◌, ◌&&◌, not, Option,
  none, some, List, [], ◌∷◌, ◌++◌, Map, get, put, Result, ok, err, keep, length, ◌==◌, string_key,
  if◌then◌else◌,
}
use lumin_acpool.Account.{
  Ext, ProviderKey, Account, ProviderInfo, provider_key, contains, key_eq, build_provider_key,
}
use lumin_acpool.Interfaces.{
  ResolverError, SelectorError, SelectRequest, is_exact_provider, is_provider_type_only,
}
use lumin_acpool.Balancer.Types.{Error, PickRequest, PickResult, Options}

module _ {x : Ext} where
  unfoldable pub exclude_accounts : List (Account x) → List String → List (Account x)
  exclude_accounts accounts [] = accounts
  exclude_accounts accounts (i ∷ ids) = keep (λ a. not (contains (i ∷ ids) a.id)) accounts

  abbrev pub is_excluded : List ProviderKey → ProviderInfo x → Bool
  is_excluded [] p = false
  is_excluded (k ∷ ks) p =
      (p.provider_type == k.ptype && p.provider_name == k.name) || is_excluded ks p

  unfoldable pub filter_providers : List (ProviderInfo x) → List ProviderKey → List (ProviderInfo x)
  filter_providers candidates [] = candidates
  filter_providers candidates (k ∷ ks) = keep (λ p. not (is_excluded (k ∷ ks) p)) candidates

-- What one round of a retry loop comes to: a return, or another round with a new loop state.
pub data Round (A S : Type 0) : Type 0 where
  finish : A → Round A S
  again : S → Round A S

-- `for i := 0; i <= maxRetries; i++`
abbrev pub rounds : ℤ → ℕ
rounds (pos n) = suc n
rounds (negsuc n) = 0

abbrev pub select_error : SelectorError → Error
select_error SelectorError.empty_candidates = Error.no_available_account
select_error SelectorError.no_available_account = Error.no_available_account
select_error e = Error.select_account e

abbrev pub resolve_error : ResolverError → Error
resolve_error ResolverError.provider_not_found = Error.provider_not_found
resolve_error ResolverError.provider_inactive = Error.no_available_provider
resolve_error ResolverError.model_not_supported = Error.model_not_supported
resolve_error e = Error.resolve_provider e

-- The errors after which the failover loop tries another provider.
abbrev pub is_failover_error : Error → Bool
is_failover_error Error.no_available_account = true
is_failover_error Error.max_retries_exceeded = true
is_failover_error Error.occupancy_full = true
is_failover_error _ = false

abbrev pub select_request : PickRequest → SelectRequest
select_request req = record {
  user_id = req.user_id;
  model = req.model;
  provider_key = req.provider_key;
  tags = req.tags;
  exclude_account_ids = [];
}

-- The request of the fallback: the type is kept as a constraint, the name is dropped.
abbrev pub fallback_request : SelectRequest → ProviderKey → SelectRequest
fallback_request req key = record req {
  provider_key = if not (key.ptype == "") then some (build_provider_key key.ptype "") else none;
  exclude_account_ids = [];
}

abbrev pub type_constraint : SelectRequest → String
type_constraint req =
    if is_provider_type_only req then elim req.provider_key [ none ↦ "" | some k ↦ k.ptype ] else ""

module _ {x : Ext} {W : Type 0} (b : Options x W) where
  abbrev Out : Type 0
  Out = Result Error (PickResult x)

  -- The end of a round in which `chosen` was acquired: record its use, or release it and go on.
  unfoldable pub record_use :
      ℕ → ProviderInfo x → SelectRequest → Account x → W → Round Out SelectRequest × W
  record_use i prov req chosen w =
      let picked : PickResult x = record {
        account = chosen;
        provider_key = provider_key prov;
        attempts = i;
        fallback = false;
      } in
      elim b.stats_store [
        | none ↦ (finish (ok picked), w)
        | some stats ↦
            let (updated, w') = stats.update_last_used chosen.id (b.runtime.now w) w in
            elim updated [
              | ok _ ↦ (finish (ok picked), w')
              | err _ ↦ (
                again (record req {
                  exclude_account_ids = req.exclude_account_ids ++ chosen.id ∷ [];
                }),
                b.occupancy_controller.release chosen.id w',
              )
            ]
      ]

  -- One round of the loop in `acquireFromAccounts`.
  unfoldable pub attempt :
      ℕ → ProviderInfo x → List (Account x) → SelectRequest → W → Round Out SelectRequest × W
  attempt i prov accounts req w = elim (exclude_accounts accounts req.exclude_account_ids) [
    | [] ↦ (finish (err Error.no_available_account), w)
    | a ∷ rest ↦
        let (selected, w1) = b.selector.select (a ∷ rest) req w in
        elim selected [
          | err e ↦ (finish (err (select_error e)), w1)
          | ok chosen ↦
              let (acquired, w2) = b.occupancy_controller.acquire chosen w1 in
              elim acquired [
                | false ↦ (
                  again (record req {
                    exclude_account_ids = req.exclude_account_ids ++ chosen.id ∷ [];
                  }),
                  w2,
                )
                | true ↦ record_use i prov req chosen w2
              ]
        ]
  ]

  -- The loop, with the rounds that are left and the number of this one.
  unfoldable pub acquire_from_accounts :
      ℕ → ℕ → ProviderInfo x → List (Account x) → SelectRequest → W → Out × W
  acquire_from_accounts zero i prov accounts req w = (err Error.max_retries_exceeded, w)
  acquire_from_accounts (suc left) i prov accounts req w =
      let (r, w') = attempt i prov accounts req w in
      elim r [
        | finish out ↦ (out, w')
        | again req' ↦ acquire_from_accounts left (i + 1) prov accounts req' w'
      ]

  -- What `selectAccountFromProvider` and its cached version do with the accounts resolved.
  unfoldable pub select_from_accounts :
      ProviderInfo x → List (Account x) → SelectRequest → ℤ → W → Out × W
  select_from_accounts prov accounts req max_retries w = elim accounts [
    | [] ↦ (err Error.no_available_account, w)
    | a ∷ rest ↦
        let (free, w1) = b.occupancy_controller.filter_available (a ∷ rest) w in
        elim free [
          | [] ↦ (err Error.occupancy_full, w1)
          | f ∷ fs ↦
              let (mixed, w2) = b.runtime.shuffle_accounts (f ∷ fs) w1 in
              acquire_from_accounts (rounds max_retries) 0 prov mixed req w2
        ]
  ]

  unfoldable pub select_account_from_provider : ProviderInfo x → SelectRequest → ℤ → W → Out × W
  select_account_from_provider prov req max_retries w =
      let (resolved, w1) = b.resolver.resolve_accounts (provider_key prov) req.tags w in
      elim resolved [
        | err e ↦ (err (Error.resolve_accounts e), w1)
        | ok accounts ↦ select_from_accounts prov accounts req max_retries w1
      ]

  abbrev pub Cache : Type 0
  Cache = Map ProviderKey (List (Account x))

  -- The accounts of a provider, from the cache if they were resolved before.
  unfoldable pub cached_accounts :
      ProviderKey
      → Map String String
      → Cache
      → W
      → Result ResolverError (List (Account x)) × Cache × W
  cached_accounts key tags cache w = elim (get key cache) [
    | some accounts ↦ (ok accounts, cache, w)
    | none ↦
        let (resolved, w') = b.resolver.resolve_accounts key tags w in
        elim resolved [
          | err e ↦ (err e, cache, w')
          | ok accounts ↦ (ok accounts, put key accounts cache, w')
        ]
  ]

  unfoldable pub select_account_from_provider_cached :
      ProviderInfo x → SelectRequest → ℤ → Cache → W → Out × Cache × W
  select_account_from_provider_cached prov req max_retries cache w =
      let (resolved, cache', w1) = cached_accounts (provider_key prov) req.tags cache w in
      elim resolved [
        | err e ↦ (err (Error.resolve_accounts e), cache', w1)
        | ok accounts ↦
            let (out, w2) = select_from_accounts prov accounts req max_retries w1 in
            (out, cache', w2)
      ]

  -- One round of the failover loop in `pickAuto`: its state is the excluded keys and the cache.
  unfoldable pub failover_round :
      List (ProviderInfo x)
      → SelectRequest
      → ℤ
      → Bool
      → List ProviderKey
      → Cache
      → W
      → Round Out (List ProviderKey × Cache) × W
  failover_round candidates req max_retries failover excluded cache w =
      if b.runtime.cancelled w
      then (finish (err Error.context_done), w)
      else elim (filter_providers candidates excluded) [
        | [] ↦ (finish (err Error.no_available_provider), w)
        | p ∷ ps ↦
            let (selected, w1) = b.group_selector.select (p ∷ ps) req w in
            elim selected [
              | err e ↦ (finish (err (Error.group_select e)), w1)
              | ok chosen ↦
                  let (out, cache', w2) =
                    select_account_from_provider_cached chosen req max_retries cache w1 in
                  elim out [
                    | ok picked ↦ (finish (ok picked), w2)
                    | err e ↦
                        if failover && is_failover_error e
                        then (again (excluded ++ provider_key chosen ∷ [], cache'), w2)
                        else (finish (err e), w2)
                  ]
            ]
      ]

  -- The loop on fuel; `pick_auto` gives it one round more than there are candidates.
  unfoldable pub failover_loop :
      ℕ → List (ProviderInfo x) → SelectRequest → ℤ → Bool → List ProviderKey → Cache → W → Out × W
  failover_loop zero candidates req max_retries failover excluded cache w =
      (err Error.out_of_fuel, w)
  failover_loop (suc fuel) candidates req max_retries failover excluded cache w =
      let (r, w') = failover_round candidates req max_retries failover excluded cache w in
      elim r [
        | finish out ↦ (out, w')
        | again (excluded', cache') ↦
            failover_loop fuel candidates (record req { exclude_account_ids = [] }) max_retries
              failover excluded' cache' w'
      ]

  unfoldable pub pick_auto : SelectRequest → ℤ → Bool → W → Out × W
  pick_auto req max_retries failover w =
      let (resolved, w1) = b.resolver.resolve_providers req.model (type_constraint req) w in
      elim resolved [
        | err e ↦ (err (Error.resolve_providers e), w1)
        | ok [] ↦ (err Error.model_not_supported, w1)
        | ok (c ∷ cs) ↦
            let (mixed, w2) = b.runtime.shuffle_providers (c ∷ cs) w1 in
            failover_loop (suc (length mixed)) mixed req max_retries failover [] [] w2
      ]

  unfoldable pub pick_exact : SelectRequest → ProviderKey → ℤ → W → Out × W
  pick_exact req key max_retries w =
      let (resolved, w1) = b.resolver.resolve_provider key req.model w in
      elim resolved [
        | err e ↦ (err (resolve_error e), w1)
        | ok prov ↦ select_account_from_provider prov req max_retries w1
      ]

  abbrev pub mark_fallback : PickResult x → PickResult x
  mark_fallback r = record r { fallback = true }

  unfoldable pub pick_exact_or_fallback : SelectRequest → ProviderKey → ℤ → Bool → W → Out × W
  pick_exact_or_fallback req key max_retries failover w =
      let (out, w1) = pick_exact req key max_retries w in
      elim out [
        | ok picked ↦ (ok picked, w1)
        | err e ↦
            let (out2, w2) = pick_auto (fallback_request req key) max_retries failover w1 in
            if failover
            then elim out2 [ ok picked ↦ (ok (mark_fallback picked), w2) | err _ ↦ (err e, w2) ]
            else (err e, w1)
      ]

  abbrev pub effective_retries : PickRequest → ℤ
  effective_retries req =
      if leb_ℤ req.max_retries (pos 0) then b.default_max_retries else req.max_retries

  abbrev pub effective_failover : PickRequest → Bool
  effective_failover req = req.enable_failover || b.default_enable_failover

  -- The `switch` of `Pick`, on the three states of the provider key.
  unfoldable pub dispatch : SelectRequest → ℤ → Bool → W → Out × W
  dispatch req max_retries failover w = elim req.provider_key [
    | none ↦ pick_auto req max_retries failover w
    | some key ↦
        if is_exact_provider req
        then pick_exact_or_fallback req key max_retries failover w
        else pick_auto req max_retries failover w
  ]

  unfoldable pub pick : PickRequest → W → Out × W
  pick req w =
      if req.model == ""
      then (err Error.model_required, w)
      else dispatch (select_request req) (effective_retries req) (effective_failover req) w
