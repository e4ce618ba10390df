-- ===== src/Memory/Accounts/Batch.antt =====
-- The counts of accounts across `RemoveAccounts`.
use lumin_acpool.Prelude.{
  ℕ, String, Bool, true, false, none, some, [], ◌∷◌, Map, get, get-del, Unique, string_key, arith,
  ◌≡◌, if◌then◌else◌,
}
use lumin_acpool.Account.{Ext, Account}
use lumin_acpool.Interfaces.{SearchFilter}
use lumin_acpool.Memory.Accounts.{Store, drop_account, drop_matching, remove_accounts, passes}
use lumin_acpool.Memory.Accounts.Counts.{Inv, drop_account-Inv}

module _ {x : Ext} {U : Type 0} (f : SearchFilter (Account x)) (now : ℕ) where
  -- The entries that are left to visit stand in the store.
  abbrev Stands : Map String (Account x) → Store x U → Type 0
  Stands rest s = (id : String) (a : Account x) → get id rest ≡ some a → get id s.accounts ≡ some a

  here-Stands :
      (id : String) (a : Account x) (rest : Map String (Account x)) (s : Store x U)
      → Stands ((id, a) ∷ rest) s
      → get id s.accounts ≡ some a
  unfolding get
  here-Stands id a rest s h = h id a (ground (arith, string_key.beq_iff id id))

  rest-Stands :
      (id : String) (a : Account x) (rest : Map String (Account x)) (s : Store x U)
      → get id rest ≡ none
      → Stands ((id, a) ∷ rest) s
      → Stands rest s
  unfolding get
  rest-Stands id a rest s u h j b e = h j b (ground (arith, e, u, string_key.beq_iff id j))

  drop_account-Stands :
      (id : String) (a : Account x) (rest : Map String (Account x)) (s : Store x U)
      → get id rest ≡ none
      → Stands ((id, a) ∷ rest) s
      → Stands rest (drop_account id a now s)
  unfolding drop_account
  drop_account-Stands id a rest s u h j b e = ground (
    arith,
    e,
    u,
    string_key.beq_iff id j,
    get-del id j s.accounts,
    rest-Stands id a rest s u h j b e,
  )

  either_way :
      (Q : Store x U → Type 0) (b : Bool) (s t : Store x U) → Q s → Q t → Q (if b then s else t)
  either_way Q true s t p q = p
  either_way Q false s t p q = q

  drop_matching-Inv :
      (rest : Map String (Account x)) (s : Store x U)
      → Unique rest
      → Stands rest s
      → Inv s
      → Inv (drop_matching f rest now s)
  unfolding drop_matching
  drop_matching-Inv [] s u h v = v
  drop_matching-Inv ((id, a) ∷ rest) s u h v =
      either_way (λ t. Inv (drop_matching f rest now t)) (passes f a) (drop_account id a now s) s
        (drop_matching-Inv rest (drop_account id a now s) u.1
          (drop_account-Stands id a rest s u.0 h)
          (drop_account-Inv id a now s (here-Stands id a rest s h) v))
        (drop_matching-Inv rest s u.1 (rest-Stands id a rest s u.0 h) v)

  -- `RemoveAccounts` keeps the identifiers unique and each provider's two counts equal to the number
  -- of its accounts and of those that are available, whatever the filter.
  pub remove_accounts-Inv : (s : Store x U) → Inv s → Inv (remove_accounts f now s)
  unfolding remove_accounts
  remove_accounts-Inv s v = drop_matching-Inv s.accounts s v.unique (λ id a e. e) v
