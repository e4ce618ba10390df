-- ===== src/Memory/Accounts/Reached.antt =====
-- The counts of accounts in every store that the operations on accounts lead to.
use lumin_acpool.Prelude.{ℕ, String, some, [], get, ap, string_key, count, arith, ◌≡◌}
use lumin_acpool.Account.{Ext, Account, ProviderInfo, ProviderKey, key_eq}
use lumin_acpool.Interfaces.{UpdateField, SearchFilter}
use lumin_acpool.Memory.Accounts.{
  Store, add_account, update_account, remove_account, remove_accounts,
}
use lumin_acpool.Memory.Accounts.Counts.{
  Inv, Exact, members, available_members, add_account-Inv, update_account-Inv, remove_account-Inv,
}
use lumin_acpool.Memory.Accounts.Batch.{remove_accounts-Inv}

module _ {x : Ext} {U : Type 0} where
  -- The operations on accounts, whether they succeed or not.
  pub data Step : Store x U → Store x U → Type 0 where
    added : (a : Account x) (now : ℕ) (s : Store x U) → Step s (add_account a now s).1
    updated :
        (a : Account x) (fields : UpdateField) (now : ℕ) (s : Store x U)
        → Step s (update_account a fields now s).1
    removed : (id : String) (now : ℕ) (s : Store x U) → Step s (remove_account id now s).1
    removed_all :
        (f : SearchFilter (Account x)) (now : ℕ) (s : Store x U) → Step s (remove_accounts f now s)

  -- The stores that steps lead to from one without accounts, whose providers count none.
  pub data Reach : Store x U → Type 0 where
    initial :
        (s : Store x U)
        → s.accounts ≡ []
        → ((key : ProviderKey) (p : ProviderInfo x)
            → get key s.providers ≡ some p
            → (p.account_count ≡ 0) × (p.available_account_count ≡ 0))
        → Reach s
    next : (s t : Store x U) → Reach s → Step s t → Reach t

  Step-Inv : (s t : Store x U) → Step s t → Inv s → Inv t
  Step-Inv _ _ (added a now s) v = add_account-Inv a now s v
  Step-Inv _ _ (updated a fields now s) v = update_account-Inv a fields now s v
  Step-Inv _ _ (removed id now s) v = remove_account-Inv id now s v
  Step-Inv _ _ (removed_all f now s) v = remove_accounts-Inv f now s v

  pub Reach-Inv : (s : Store x U) → Reach s → Inv s
  unfolding get members available_members count
  Reach-Inv s (initial _ e z) = record {
    unique = rw e tt;
    ids = λ id a h. absurd (ground (arith, ap (get id) e, h));
    exact = λ key p h. rw e (z key p h);
  }
  Reach-Inv t (next s _ r st) = Step-Inv s t st (Reach-Inv s r)

  -- In every store that the operations on accounts lead to, from one without accounts whose providers
  -- count none, each provider's two counts are the numbers of its accounts and of those that are
  -- available.
  pub Reach-Exact :
      (s : Store x U) (key : ProviderKey) (p : ProviderInfo x)
      → Reach s
      → get key s.providers ≡ some p
      → Exact key p s.accounts
  Reach-Exact s key p r h = (Reach-Inv s r).exact key p h
