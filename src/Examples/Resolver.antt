-- ===== src/Examples/Resolver.antt =====
-- The resolver over a memory store of accounts.
use lumin_acpool.Prelude.{
  ℕ, true, false, List, [], ◌∷◌, Result, ok, err, ◌≡◌, refl, subst, All, get, arith, string_key,
}
use lumin_acpool.Account.{
  Account, ProviderKey, build_provider_key, same_status, available, account_key, contains,
}
use lumin_acpool.Interfaces.{
  StorageError, UpdateField, SearchFilter, ProviderStorage, AccountStorage,
}
use lumin_acpool.Memory.Accounts.{
  Store, search_accounts, look_up, match_search_filter, passes, update_account,
}
use lumin_acpool.Memory.Accounts.Search.{search_accounts-passes}
use lumin_acpool.Memory.Accounts.Conflict.{update_account_stale}
use lumin_acpool.Resolver.{
  resolve_provider, resolve_accounts, check_provider, filter_by_tags, filter_excluded, match_tags,
}
use lumin_acpool.Resolver.Promise.{Searches, resolve_accounts_usable}
use lumin_acpool.Examples.World.{ext, account_named, provider}

abbrev key : ProviderKey
key = build_provider_key "kiro" "team"

abbrev stock : Store ext ℕ
stock = record {
  accounts = ("a", account_named "a") ∷ ("b", account_named "b") ∷ [];
  provider_index = (key, "a" ∷ "b" ∷ []) ∷ [];
  providers = (key, provider) ∷ [];
  stats = [];
  usages = [];
}

abbrev providers : ProviderStorage ext (Store ext ℕ)
providers = record {
  get_provider = λ k s. (ok provider, s);
  search_providers = λ f s. (ok (provider ∷ []), s);
  update_provider = λ p s. (ok tt, s);
}

abbrev account_storage : AccountStorage ext (Store ext ℕ)
account_storage = record {
  get_account = λ k s. (err StorageError.not_found, s);
  search_accounts = λ f s. (ok (search_accounts f s), s);
  update_account = λ a f s. update_account a f 9 s;
}

found_passes :
    (f : SearchFilter (Account ext)) (s : Store ext ℕ) (l : List (Account ext))
    (r : Result StorageError (List (Account ext)))
    → r ≡ ok (search_accounts f s)
    → r ≡ ok l
    → All (λ a. passes f a ≡ true) l
found_passes f s l r e h =
    subst (All (λ a. passes f a ≡ true)) (ground (arith, e, h)) (search_accounts-passes f s)

searches : Searches account_storage
searches = record { search_passes = λ f s l h. found_passes f s l _ refl h }

resolves : (resolve_provider providers account_storage key "m" stock).0 ≡ ok provider
unfolding resolve_provider check_provider
resolves = refl

resolves_b :
    (resolve_accounts providers account_storage key [] ("a" ∷ []) stock).0
    ≡ ok (account_named "b" ∷ [])
unfolding resolve_accounts filter_by_tags filter_excluded search_accounts look_up
    match_search_filter get
resolves_b = refl

resolve_accounts_usable_example :
    All
      (λ a.
        (same_status a.status available ≡ true)
        × (account_key a ≡ key)
        × (contains ("a" ∷ []) a.id ≡ false)
        × (match_tags a.tags [] ≡ true))
      (account_named "b" ∷ [])
resolve_accounts_usable_example =
    resolve_accounts_usable providers account_storage searches key [] ("a" ∷ []) stock
      (account_named "b" ∷ []) refl refl resolves_b

abbrev status_only : UpdateField
status_only = record {
  credential = false;
  status = true;
  priority = false;
  tags = false;
  metadata = false;
  usage_rules = false;
}

updates : (update_account (account_named "a") status_only 9 stock).0 ≡ ok tt
unfolding update_account get
updates = refl

update_account_stale_example :
    update_account
      (account_named "a")
      status_only
      10
      (update_account (account_named "a") status_only 9 stock).1
    ≡ (
      err StorageError.version_conflict,
      (update_account (account_named "a") status_only 9 stock).1,
    )
update_account_stale_example =
    update_account_stale (account_named "a") (account_named "a") status_only status_only 9 10 stock
      refl refl updates
