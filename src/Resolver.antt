-- ===== src/Resolver.antt =====
-- resolver/storage_resolver.go: the resolver over the storages of providers and of accounts.
pub mod Promise
use lumin_acpool.Prelude.{
  ℕ, ◌&&◌, ◌||◌, not, String, Bool, true, false, Option, none, some, List, [], ◌∷◌, Map, get,
  string_key, Result, ok, err, keep, ltb, leb, ◌==◌, if◌then◌else◌,
}
use lumin_acpool.Account.{
  Ext, Account, ProviderInfo, ProviderKey, available, status_code, is_active, supports_model,
  contains,
}
use lumin_acpool.Interfaces.{
  StorageError, ResolverError, SearchFilter, ProviderStorage, AccountStorage, Resolver,
}

abbrev pub get_provider_error : StorageError → ResolverError
get_provider_error StorageError.not_found = ResolverError.provider_not_found
get_provider_error e = ResolverError.failed "resolver: get provider"

-- The tests of `matchTags`: every tag that is required is there with its value.
pub match_tags : Map String String → Map String String → Bool
match_tags tags [] = true
match_tags tags ((k, v) ∷ required) =
    elim (get k tags) [ some u ↦ u == v | none ↦ false ] && match_tags tags required

module _ {x : Ext} where
  abbrev pub has_accounts : ProviderInfo x → Bool
  has_accounts p = ltb 0 p.account_count && ltb 0 p.available_account_count

  -- What `ResolveProvider` tests of the provider that the storage has.
  unfoldable pub check_provider : String → ProviderInfo x → Result ResolverError (ProviderInfo x)
  check_provider model p =
      if not (is_active p)
      then err ResolverError.provider_inactive
      else if not (supports_model p model)
      then err ResolverError.model_not_supported
      else if leb p.account_count 0 || leb p.available_account_count 0
      then err ResolverError.no_account
      else ok p

  unfoldable pub filter_excluded : List (Account x) → List String → List (Account x)
  filter_excluded accounts [] = accounts
  filter_excluded accounts (i ∷ ids) = keep (λ a. not (contains (i ∷ ids) a.id)) accounts

  unfoldable pub filter_by_tags : List (Account x) → Map String String → List (Account x)
  filter_by_tags accounts [] = accounts
  filter_by_tags accounts (t ∷ tags) = keep (λ a. match_tags a.tags (t ∷ tags)) accounts

  abbrev pub provider_filter : String → String → SearchFilter (ProviderInfo x)
  provider_filter model provider_type = record {
    provider_type = provider_type;
    provider_name = "";
    status = 0;
    supported_model = model;
    extra = λ p. true;
  }

  abbrev pub account_filter : ProviderKey → SearchFilter (Account x)
  account_filter key = record {
    provider_type = key.ptype;
    provider_name = key.name;
    status = status_code available;
    supported_model = "";
    extra = λ a. true;
  }

module _ {x : Ext} {W : Type 0} (providers : ProviderStorage x W)
    (accounts : AccountStorage x W) where
  unfoldable pub resolve_provider :
      ProviderKey → String → W → Result ResolverError (ProviderInfo x) × W
  resolve_provider key model w =
      let (r, w') = providers.get_provider key w in
      elim r [ err e ↦ (err (get_provider_error e), w') | ok p ↦ (check_provider model p, w') ]

  pub resolve_providers : String → String → W → Result ResolverError (List (ProviderInfo x)) × W
  resolve_providers model provider_type w =
      let (r, w') = providers.search_providers (provider_filter model provider_type) w in
      elim r [
        | err e ↦ (err (ResolverError.failed "resolver: search providers"), w')
        | ok candidates ↦ (ok (keep (λ p. is_active p && has_accounts p) candidates), w')
      ]

  unfoldable pub resolve_accounts :
      ProviderKey
      → Map String String
      → List String
      → W
      → Result ResolverError (List (Account x)) × W
  resolve_accounts key tags exclude_ids w =
      let (r, w') = accounts.search_accounts (account_filter key) w in
      elim r [
        | err e ↦ (err (ResolverError.failed "resolver: search accounts"), w')
        | ok found ↦ (ok (filter_by_tags (filter_excluded found exclude_ids) tags), w')
      ]

  -- The interface, by the request that the balancer makes, which excludes no account.
  pub storage_resolver : Resolver x W
  storage_resolver = record {
    resolve_provider = resolve_provider;
    resolve_providers = resolve_providers;
    resolve_accounts = λ key tags w. resolve_accounts key tags [] w;
  }
