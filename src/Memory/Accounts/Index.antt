-- ===== src/Memory/Accounts/Index.antt =====
-- The index of the accounts by provider, in the stores that the operations on accounts lead to.
use lumin_acpool.Prelude.{
  ℕ, String, Bool, true, false, ◌&&◌, ◌||◌, not, none, some, List, [], ◌∷◌, Map, get, get-put,
  get-del, Unique, string_key, keep, ◌==◌, if◌then◌else◌, nat_beq, arith, ◌≡◌, ap, subst, put,
  Bool-cases, Option-cases, List-cases, inl, inr,
}
use lumin_acpool.Account.{
  Ext, Account, ProviderKey, account_key, key_beq, key_beq_iff, key_eq, contains,
}
use lumin_acpool.Interfaces.{UpdateField, SearchFilter}
use lumin_acpool.Memory.Accounts.{
  Store, add_to_index, remove_from_index, passes, stored_account, apply_fields, add_account,
  write_account, update_account, drop_account, remove_account, drop_matching, remove_accounts,
}
use lumin_acpool.Memory.Accounts.Counts.{Inv}
use lumin_acpool.Memory.Accounts.Reached.{Step, Reach, Reach-Inv}

abbrev pub is_listed : String → ProviderKey → Map ProviderKey (List String) → Bool
is_listed id key index = elim (get key index) [ none ↦ false | some ids ↦ contains ids id ]

contains-keep :
    (id j : String) (ids : List String)
    → contains (keep (λ i. not (i == id)) ids) j ≡ (contains ids j && not (id == j))
contains-keep id j [] = ground arith
contains-keep id j (i ∷ ids) = ground (
  arith,
  contains-keep id j ids,
  string_key.beq_iff i id,
  string_key.beq_iff i j,
  string_key.beq_iff id j,
)

add_to_index_lem :
    (key k : ProviderKey) (id j : String) (index : Map ProviderKey (List String))
    → is_listed j k (add_to_index key id index)
      ≡ ((key_beq key k && id == j) || is_listed j k index)
unfolding add_to_index
add_to_index_lem key k id j index = elim (Option-cases (get key index)) [
  | inl e ↦ ground (arith, e, get-put key k (id ∷ []) index, key_beq_iff key k)
  | inr (ids, e) ↦ ground (
    arith,
    e,
    get-put key k (if contains ids id then ids else id ∷ ids) index,
    key_beq_iff key k,
    string_key.beq_iff id j,
    contains-same id j ids,
  )
]
  where
    contains-same : (id j : String) (ids : List String) → id ≡ j → contains ids id ≡ contains ids j
    contains-same id j ids e = ap (contains ids) e

remove_from_index_lem :
    (key k : ProviderKey) (id j : String) (index : Map ProviderKey (List String))
    → is_listed j k (remove_from_index key id index)
      ≡ (is_listed j k index && not (key_beq key k && id == j))
unfolding remove_from_index
remove_from_index_lem key k id j index = elim (Option-cases (get key index)) [
  | inl e ↦ ground (arith, e, key_beq_iff key k)
  | inr (ids, e) ↦ elim (List-cases (keep (λ i. not (i == id)) ids)) [
    | inl g ↦ ground (
      arith,
      e,
      g,
      get-del key k index,
      key_beq_iff key k,
      ap (λ l. contains l j) g,
      contains-keep id j ids,
    )
    | inr (i, rest, g) ↦ ground (
      arith,
      e,
      g,
      get-put key k (i ∷ rest) index,
      key_beq_iff key k,
      ap (λ l. contains l j) g,
      contains-keep id j ids,
    )
  ]
]

module _ {x : Ext} where
  -- Each account stands under its own identifier.
  abbrev Named : Map String (Account x) → Type 0
  Named m = (id : String) (a : Account x) → get id m ≡ some a → a.id ≡ id

  rest-Named :
      (id : String) (a : Account x) (rest : Map String (Account x))
      → get id rest ≡ none
      → Named ((id, a) ∷ rest)
      → Named rest
  unfolding get
  rest-Named id a rest u h j b e = h j b (ground (arith, e, u, string_key.beq_iff id j))

module _ {x : Ext} {U : Type 0} where
  -- The index lists every account under its provider.
  abbrev pub Listed : Store x U → Type 0
  Listed s =
      (id : String) (a : Account x)
      → get id s.accounts ≡ some a
      → is_listed id (account_key a) s.provider_index ≡ true

  put-Listed :
      (a : Account x) (s : Store x U)
      → Listed s
      → (j : String) (b : Account x) → get j (put a.id a s.accounts) ≡ some b
      → is_listed j (account_key b) (add_to_index (account_key a) a.id s.provider_index) ≡ true
  put-Listed a s v j b h = ground (
    arith,
    h,
    v j b,
    get-put a.id j a s.accounts,
    add_to_index_lem (account_key a) (account_key b) a.id j s.provider_index,
    string_key.beq_iff a.id j,
    key_beq_iff (account_key a) (account_key b),
  )

  add_account-Listed :
      (a : Account x) (now : ℕ) (s : Store x U) → Listed s → Listed (add_account a now s).1
  unfolding add_account
  add_account-Listed a now s v = elim (Option-cases (get a.id s.accounts)) [
    | inr (old, e) ↦ rw (e, add_account) v
    | inl e ↦ rw (e, add_account) (put-Listed (stored_account a now) s v)
  ]

  write_account-Listed :
      (fields : UpdateField) (old new : Account x) (now : ℕ) (s : Store x U)
      → get new.id s.accounts ≡ some old
      → Listed s
      → Listed (write_account fields old new now s)
  unfolding write_account
  write_account-Listed fields old new now s e v j b h = elim (Bool-cases (new.id == j)) [
    | inl k ↦
        let same : apply_fields fields old new now ≡ b =
          ground (arith, h, k, get-put new.id j (apply_fields fields old new now) s.accounts) in
        subst (λ z. is_listed j (account_key z) s.provider_index ≡ true) same
          (subst (λ i. is_listed i (account_key old) s.provider_index ≡ true)
            ((string_key.beq_iff new.id j).0 k) (v new.id old e))
    | inr k ↦
        v j b (ground (arith, h, k, get-put new.id j (apply_fields fields old new now) s.accounts))
  ]

  update_account-Listed :
      (new : Account x) (fields : UpdateField) (now : ℕ) (s : Store x U)
      → Listed s
      → Listed (update_account new fields now s).1
  unfolding update_account
  update_account-Listed new fields now s v = elim (Option-cases (get new.id s.accounts)) [
    | inl e ↦ rw (e, update_account) v
    | inr (old, e) ↦ elim (Bool-cases (nat_beq old.version new.version)) [
      | inl k ↦ rw (e, update_account) (rw k (write_account-Listed fields old new now s e v))
      | inr k ↦ rw (e, update_account) (rw k v)
    ]
  ]

  drop_account-Listed :
      (id : String) (a : Account x) (now : ℕ) (s : Store x U)
      → a.id ≡ id
      → Listed s
      → Listed (drop_account id a now s)
  unfolding drop_account
  drop_account-Listed id a now s e v j b h = ground (
    arith,
    e,
    h,
    v j b,
    get-del id j s.accounts,
    remove_from_index_lem (account_key a) (account_key b) a.id j s.provider_index,
    string_key.beq_iff id j,
    string_key.beq_iff a.id j,
  )

  remove_account-Listed :
      (id : String) (now : ℕ) (s : Store x U)
      → Named s.accounts
      → Listed s
      → Listed (remove_account id now s).1
  unfolding remove_account
  remove_account-Listed id now s n v = elim (Option-cases (get id s.accounts)) [
    | inl e ↦ rw (e, remove_account) v
    | inr (a, e) ↦ rw (e, remove_account) (drop_account-Listed id a now s (n id a e) v)
  ]

  drop_matching-Listed :
      (f : SearchFilter (Account x)) (rest : Map String (Account x)) (now : ℕ) (s : Store x U)
      → Unique rest
      → Named rest
      → Listed s
      → Listed (drop_matching f rest now s)
  unfolding drop_matching get
  drop_matching-Listed f [] now s u n v = v
  drop_matching-Listed f ((id, a) ∷ rest) now s u n v =
      let more = λ (t : Store x U) (p : Listed t).
        drop_matching-Listed f rest now t u.1 (rest-Named id a rest u.0 n) p in
      elim (Bool-cases (passes f a)) [
        | inl e ↦
            rw (e, drop_matching)
              (more (drop_account id a now s) (
                drop_account-Listed id a now s (n id a (ground (arith, string_key.beq_iff id id)))
                  v))
        | inr e ↦ rw (e, drop_matching) (more s v)
      ]

  Step-Listed : (s t : Store x U) → Step s t → Inv s → Listed s → Listed t
  unfolding remove_accounts
  Step-Listed _ _ (Step.added a now s) i v = add_account-Listed a now s v
  Step-Listed _ _ (Step.updated a fields now s) i v = update_account-Listed a fields now s v
  Step-Listed _ _ (Step.removed id now s) i v = remove_account-Listed id now s i.ids v
  Step-Listed _ _ (Step.removed_all f now s) i v =
      drop_matching-Listed f s.accounts now s i.unique i.ids v

  pub Reach-Listed : (s : Store x U) → Reach s → Listed s
  unfolding get
  Reach-Listed s (Reach.initial _ e z) = λ id a h. absurd (ground (arith, ap (get id) e, h))
  Reach-Listed t (Reach.next s _ r st) = Step-Listed s t st (Reach-Inv s r) (Reach-Listed s r)
