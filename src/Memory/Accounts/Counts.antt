-- ===== src/Memory/Accounts/Counts.antt =====
-- The counts of accounts that storage/memory/account.go keeps on each provider.
use lumin_acpool.Prelude.{
  ℕ, String, Bool, true, false, ◌&&◌, not, none, some, Map, get, put, del, get-put, get-del, Unique,
  put-Unique, del-Unique, count, count-put, count-del, string_key, if◌then◌else◌, arith, ◌≡◌, refl,
  ap, Bool-cases, nat_beq, Option-cases, inl, inr,
}
use lumin_acpool.Account.{
  Ext, Account, ProviderInfo, ProviderKey, key_beq, key_beq_iff, key_eq, account_key, same_status,
}
use lumin_acpool.Interfaces.{UpdateField}
use lumin_acpool.Memory.Accounts.{
  Store, is_available, modify_provider, count_added, count_removed, count_changed, apply_fields,
  stored_account, add_account, write_account, update_account, drop_account, remove_account,
}

module _ {x : Ext} where
  abbrev belongs : ProviderKey → String → Account x → Bool
  belongs key id a = key_beq (account_key a) key

  abbrev belongs_available : ProviderKey → String → Account x → Bool
  belongs_available key id a = key_beq (account_key a) key && is_available a

  -- The accounts of a provider, and those of them that are available.
  unfoldable pub members : ProviderKey → Map String (Account x) → ℕ
  members key m = count (belongs key) m

  unfoldable pub available_members : ProviderKey → Map String (Account x) → ℕ
  available_members key m = count (belongs_available key) m

-- A provider's two counts are those of the accounts that name it.
abbrev pub Exact : {x : Ext} → ProviderKey → ProviderInfo x → Map String (Account x) → Type 0
Exact key p m =
    (p.account_count ≡ members key m) × (p.available_account_count ≡ available_members key m)

pub record Inv {x : Ext} {U : Type 0} (s : Store x U) : Type 0 where
  pub unique : Unique s.accounts
  pub ids : (id : String) (a : Account x) → get id s.accounts ≡ some a → a.id ≡ id
  pub exact :
      (key : ProviderKey) (p : ProviderInfo x)
      → get key s.providers ≡ some p
      → Exact key p s.accounts

module _ {x : Ext} where
  modify_provider-get :
      (key j : ProviderKey) (f : ProviderInfo x → ProviderInfo x)
      (m : Map ProviderKey (ProviderInfo x)) (p : ProviderInfo x)
      → get j (modify_provider key f m) ≡ some p
      → (old : ProviderInfo x) × (get j m ≡ some old) × (p ≡ (if key_beq key j then f old else old))
  unfolding modify_provider
  modify_provider-get key j f m p h = elim (Option-cases (get j m)) [
    | inr (old, e) ↦ (
      old,
      e,
      elim (Option-cases (get key m)) [
        | inl k ↦ ground (arith, h, e, k, key_beq_iff key j)
        | inr (q, k) ↦ ground (arith, h, e, k, key_beq_iff key j, get-put key j (f q) m)
      ],
    )
    | inl e ↦ absurd (elim (Option-cases (get key m)) [
      | inl k ↦ ground (arith, h, e, k)
      | inr (q, k) ↦ ground (arith, h, e, k, key_beq_iff key j, get-put key j (f q) m)
    ])
  ]

  -- Adding an account that was not there.
  put-Exact_new :
      (key : ProviderKey) (old : ProviderInfo x) (a : Account x) (now : ℕ)
      (m : Map String (Account x))
      → get a.id m ≡ none
      → Exact key old m
      → Exact key
          (if key_beq (account_key a) key then count_added a now old else old)
          (put a.id a m)
  unfolding members available_members
  put-Exact_new key old a now m e h =
      ground (arith, count-put (belongs key) a.id a m, count-put (belongs_available key) a.id a m)

  -- Writing an account over the one that was there.
  put-Exact_old :
      (key : ProviderKey) (p : ProviderInfo x) (fields : UpdateField) (old new : Account x)
      (now : ℕ) (m : Map String (Account x))
      → get new.id m ≡ some old
      → Exact key p m
      → Exact key
          (if key_beq (account_key old) key
            then count_changed old (apply_fields fields old new now) now p
            else p)
          (put new.id (apply_fields fields old new now) m)
  unfolding members available_members
  put-Exact_old key p fields old new now m e h = ground (
    arith,
    e,
    count-put (belongs key) new.id (apply_fields fields old new now) m,
    count-put (belongs_available key) new.id (apply_fields fields old new now) m,
  )

  -- Writing an account of the same status over the one that was there.
  put-Exact_same :
      (key : ProviderKey) (p : ProviderInfo x) (old new : Account x) (id : String)
      (m : Map String (Account x))
      → get id m ≡ some old
      → account_key new ≡ account_key old
      → is_available new ≡ is_available old
      → Exact key p m
      → Exact key p (put id new m)
  unfolding members available_members
  put-Exact_same key p old new id m e k v h = ground (
    arith,
    e,
    ap (λ y. key_beq y key) k,
    count-put (belongs key) id new m,
    count-put (belongs_available key) id new m,
  )

  del-Exact :
      (key : ProviderKey) (p : ProviderInfo x) (a : Account x) (id : String) (now : ℕ)
      (m : Map String (Account x))
      → Unique m
      → get id m ≡ some a
      → Exact key p m
      → Exact key (if key_beq (account_key a) key then count_removed a now p else p) (del id m)
  unfolding members available_members
  del-Exact key p a id now m u e h =
      ground (arith, e, count-del (belongs key) id m u, count-del (belongs_available key) id m u)

  put-ids :
      (id : String) (a : Account x) (m : Map String (Account x))
      → a.id ≡ id
      → ((j : String) (b : Account x) → get j m ≡ some b → b.id ≡ j)
      → (j : String) (b : Account x) → get j (put id a m) ≡ some b
      → b.id ≡ j
  put-ids id a m e h j b g = ground (arith, h j b, get-put id j a m, string_key.beq_iff id j, e)

  del-ids :
      (id : String) (m : Map String (Account x))
      → ((j : String) (b : Account x) → get j m ≡ some b → b.id ≡ j)
      → (j : String) (b : Account x) → get j (del id m) ≡ some b
      → b.id ≡ j
  del-ids id m h j b g = ground (arith, h j b, get-del id j m)

module _ {x : Ext} {U : Type 0} where
  -- `AddAccount` keeps the identifiers unique and each provider's two counts equal to the number of
  -- its accounts and of those that are available, whether it adds the account or refuses it.
  pub add_account-Inv :
      (a : Account x) (now : ℕ) (s : Store x U) → Inv s → Inv (add_account a now s).1
  unfolding add_account
  add_account-Inv a now s v = elim (Option-cases (get a.id s.accounts)) [
    | inr (b, e) ↦ rw (e, add_account) v
    | inl e ↦
        rw (e, add_account)
          (record {
            unique = put-Unique a.id (stored_account a now) s.accounts v.unique;
            ids = put-ids a.id (stored_account a now) s.accounts refl v.ids;
            exact = λ key p h.
                let (old, was, is) = modify_provider-get _ key _ s.providers p h in
                rw is (
                  put-Exact_new key old (stored_account a now) now s.accounts e
                    (v.exact key old was));
          })
  ]

  write-Exact :
      (changed : Bool) (fields : UpdateField) (old new : Account x) (now : ℕ) (s : Store x U)
      (key : ProviderKey) (p : ProviderInfo x)
      → (fields.status && not (same_status old.status (apply_fields fields old new now).status))
        ≡ changed
      → get new.id s.accounts ≡ some old
      → Inv s
      → get key (
          if changed
          then modify_provider
              (account_key old)
              (count_changed old (apply_fields fields old new now) now)
              s.providers
          else s.providers)
        ≡ some p
      → Exact key p (put new.id (apply_fields fields old new now) s.accounts)
  write-Exact true fields old new now s key p c e v h =
      let (prev, was, is) = modify_provider-get _ key _ s.providers p h in
      rw is (put-Exact_old key prev fields old new now s.accounts e (v.exact key prev was))
  write-Exact false fields old new now s key p c e v h =
      put-Exact_same key p old (apply_fields fields old new now) new.id s.accounts e refl
        (ground arith) (v.exact key p h)

  write_account-Inv :
      (fields : UpdateField) (old new : Account x) (now : ℕ) (s : Store x U)
      → get new.id s.accounts ≡ some old
      → Inv s
      → Inv (write_account fields old new now s)
  unfolding write_account
  write_account-Inv fields old new now s e v = record {
    unique = put-Unique new.id (apply_fields fields old new now) s.accounts v.unique;
    ids = put-ids new.id (apply_fields fields old new now) s.accounts (v.ids new.id old e) v.ids;
    exact = λ key p h. write-Exact _ fields old new now s key p refl e v h;
  }

  -- `UpdateAccount` keeps the identifiers unique and each provider's two counts equal to the number
  -- of its accounts and of those that are available, for every set of fields and on both errors.
  pub update_account-Inv :
      (new : Account x) (fields : UpdateField) (now : ℕ) (s : Store x U)
      → Inv s
      → Inv (update_account new fields now s).1
  unfolding update_account
  update_account-Inv new fields now s v = elim (Option-cases (get new.id s.accounts)) [
    | inl e ↦ rw (e, update_account) v
    | inr (old, e) ↦ elim (Bool-cases (nat_beq old.version new.version)) [
      | inl k ↦ rw (e, update_account) (rw k (write_account-Inv fields old new now s e v))
      | inr k ↦ rw (e, update_account) (rw k v)
    ]
  ]

  pub drop_account-Inv :
      (id : String) (a : Account x) (now : ℕ) (s : Store x U)
      → get id s.accounts ≡ some a
      → Inv s
      → Inv (drop_account id a now s)
  unfolding drop_account
  drop_account-Inv id a now s e v = record {
    unique = del-Unique id s.accounts v.unique;
    ids = del-ids id s.accounts v.ids;
    exact = λ key p h.
        let (old, was, is) = modify_provider-get _ key _ s.providers p h in
        rw is (del-Exact key old a id now s.accounts v.unique e (v.exact key old was));
  }

  -- `RemoveAccount` keeps the identifiers unique and each provider's two counts equal to the number
  -- of its accounts and of those that are available, whether it finds the account or not.
  pub remove_account-Inv :
      (id : String) (now : ℕ) (s : Store x U) → Inv s → Inv (remove_account id now s).1
  unfolding remove_account
  remove_account-Inv id now s v = elim (Option-cases (get id s.accounts)) [
    | inl e ↦ rw (e, remove_account) v
    | inr (a, e) ↦ rw (e, remove_account) (drop_account-Inv id a now s e v)
  ]
