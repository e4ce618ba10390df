-- ===== src/Resolver/Promise.antt =====
-- What the resolver promises of the providers and accounts that it returns.
use lumin_acpool.Prelude.{
  not, String, true, false, List, [], ◌∷◌, Map, ok, keep, All, All-mem, All-of_mem, mem-keep, arith,
  ◌≡◌, refl, subst, ◌==◌, string_key, Result-cases, inl, inr,
}
use lumin_acpool.Account.{
  Ext, Account, ProviderInfo, ProviderKey, available, same_status, is_active, supports_model,
  account_key, key_beq_iff, contains,
}
use lumin_acpool.Interfaces.{SearchFilter, ProviderStorage, AccountStorage}
use lumin_acpool.Resolver.{
  match_tags, check_provider, filter_excluded, filter_by_tags, account_filter, resolve_provider,
  resolve_accounts, has_accounts,
}
use lumin_acpool.Memory.Accounts.{passes, match_search_filter}

-- A search returns accounts that match the filter, as the interface's documentation says.
pub record Searches {x : Ext} {W : Type 0} (accounts : AccountStorage x W) : Type 0 where
  pub search_passes :
      (f : SearchFilter (Account x)) (w : W) (l : List (Account x))
      → (accounts.search_accounts f w).0 ≡ ok l
      → All (λ a. passes f a ≡ true) l

module _ {x : Ext} where
  passes_lem :
      (key : ProviderKey) (a : Account x)
      → (key.ptype == "") ≡ false
      → (key.name == "") ≡ false
      → passes (account_filter key) a ≡ true
      → (same_status a.status available ≡ true) × (account_key a ≡ key)
  unfolding match_search_filter
  passes_lem key a t n h = (ground arith, (key_beq_iff (account_key a) key).0 (ground arith))

  filter_excluded-All :
      (P : Account x → Type 0) (l : List (Account x)) (ids : List String)
      → All P l
      → All (λ a. P a × (contains ids a.id ≡ false)) (filter_excluded l ids)
  unfolding filter_excluded
  filter_excluded-All P l [] h = All-of_mem l (λ a m. (All-mem P l h m, refl))
  filter_excluded-All P l (i ∷ ids) h =
      All-of_mem (keep (λ a. not (contains (i ∷ ids) a.id)) l) (λ a m.
        let (t, n) = mem-keep (λ y. not (contains (i ∷ ids) y.id)) l m in
        (All-mem P l h n, ground (arith, t)))

  filter_by_tags-All :
      (P : Account x → Type 0) (l : List (Account x)) (tags : Map String String)
      → All P l
      → All (λ a. P a × (match_tags a.tags tags ≡ true)) (filter_by_tags l tags)
  unfolding filter_by_tags match_tags
  filter_by_tags-All P l [] h = All-of_mem l (λ a m. (All-mem P l h m, refl))
  filter_by_tags-All P l (t ∷ tags) h =
      All-of_mem (keep (λ a. match_tags a.tags (t ∷ tags)) l) (λ a m.
        let (e, n) = mem-keep (λ y. match_tags y.tags (t ∷ tags)) l m in (All-mem P l h n, e))

module _ {x : Ext} {W : Type 0} (providers : ProviderStorage x W)
    (accounts : AccountStorage x W) where
  -- A provider that is resolved exactly is active, supports the model, and has accounts, of which
  -- some are available.
  pub resolve_provider_usable :
      (key : ProviderKey) (model : String) (w : W) (p : ProviderInfo x)
      → (resolve_provider providers accounts key model w).0 ≡ ok p
      → (is_active p ≡ true) × (supports_model p model ≡ true) × (has_accounts p ≡ true)
  unfolding resolve_provider check_provider
  resolve_provider_usable key model w p h = grind arith

  -- Where a search returns only accounts that pass its filter, every account that is resolved for a
  -- key with a type and a name is available, belongs to that provider, has the tags that the
  -- request requires, and is none of the excluded ones.
  pub resolve_accounts_usable :
      (c : Searches accounts) (key : ProviderKey) (tags : Map String String) (ids : List String)
      (w : W) (l : List (Account x))
      → (key.ptype == "") ≡ false
      → (key.name == "") ≡ false
      → (resolve_accounts providers accounts key tags ids w).0 ≡ ok l
      → All
          (λ a.
            (same_status a.status available ≡ true)
            × (account_key a ≡ key)
            × (contains ids a.id ≡ false)
            × (match_tags a.tags tags ≡ true))
          l
  unfolding resolve_accounts
  resolve_accounts_usable c key tags ids w l t n h =
      elim (Result-cases (accounts.search_accounts (account_filter key) w).0) [
        | inl (found, e) ↦ All-of_mem l (λ a m.
            let ((p, x), g) =
              All-mem _ l
                (subst (All _) (ground (arith, e, h)) (
                  filter_by_tags-All _ _ tags (
                    filter_excluded-All _ found ids
                      (c.search_passes (account_filter key) w found e))))
                m in
            let (s, k) = passes_lem key a t n p in (s, k, x, g))
        | inr (er, e) ↦ absurd (ground (arith, e, h))
      ]
