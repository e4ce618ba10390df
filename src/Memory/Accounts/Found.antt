-- ===== src/Memory/Accounts/Found.antt =====
-- What `SearchAccounts` finds in the stores that the operations lead to, by the scan and by the index.
use mathlib.Core.List.{Memᴰ}
use lumin_acpool.Prelude.{
  String, true, false, ◌&&◌, not, some, List, [], ◌∷◌, Map, get, string_key, ◌==◌, nat_beq, arith,
  ◌≡◌, ◌↔◌, refl, ap, sym, ◌∙◌, subst, Option-cases, Bool-cases, inl, inr, Unique, mem-if, if-mem,
  mem-none,
}
use lumin_acpool.Account.{
  Ext, Account, account_key, key_eq, build_provider_key, contains, status_code,
}
use lumin_acpool.Interfaces.{SearchFilter}
use lumin_acpool.Memory.Accounts.{
  Store, match_search_filter, passes, scan, look_up, search_accounts,
}
use lumin_acpool.Memory.Accounts.Reached.{Reach, Reach-Inv}
use lumin_acpool.Memory.Accounts.Index.{is_listed, Reach-Listed}

module _ {x : Ext} where
  -- What a filter asks of an account: each field that is not left empty is the account's, and the
  -- condition holds.
  abbrev pub Answers : SearchFilter (Account x) → Account x → Type 0
  Answers f a =
      ((f.provider_type == "") ≡ false → a.provider_type ≡ f.provider_type)
      × ((f.provider_name == "") ≡ false → a.provider_name ≡ f.provider_name)
      × (nat_beq f.status 0 ≡ false → status_code a.status ≡ f.status)
      × (f.extra a ≡ true)

  passes-Answers : (f : SearchFilter (Account x)) (a : Account x) → passes f a ≡ true → Answers f a
  unfolding match_search_filter
  passes-Answers f a h = ground (
    arith,
    h,
    string_key.beq_iff a.provider_type f.provider_type,
    string_key.beq_iff a.provider_name f.provider_name,
  )

  Answers-passes : (f : SearchFilter (Account x)) (a : Account x) → Answers f a → passes f a ≡ true
  unfolding match_search_filter
  Answers-passes f a h = ground (
    arith,
    h,
    string_key.beq_iff a.provider_type f.provider_type,
    string_key.beq_iff a.provider_name f.provider_name,
  )

  module _ (f : SearchFilter (Account x)) where
    mem-scan :
        (a : Account x) (m : Map String (Account x))
        → Unique m
        → Memᴰ a (scan f m)
        → (id : String) × (get id m ≡ some a) × (passes f a ≡ true)
    unfolding scan get
    mem-scan a [] u h = elim h [ ]
    mem-scan a ((k, q) ∷ m) u h = elim (mem-if (passes f q) q (scan f m) h) [
      | inl (e, same) ↦ (k, ground (arith, same, string_key.beq_iff k k), rw same e)
      | inr t ↦
          let (id, g, ps) = mem-scan a m u.1 t in
          (id, ground (arith, g, u.0, string_key.beq_iff k id), ps)
    ]

    scan-mem :
        (a : Account x) (id : String) (m : Map String (Account x))
        → get id m ≡ some a
        → passes f a ≡ true
        → Memᴰ a (scan f m)
    unfolding scan get
    scan-mem a id [] g h = absurd (cc g)
    scan-mem a id ((k, q) ∷ m) g h = elim (Bool-cases (k == id)) [
      | inl e ↦ let same : q ≡ a = ground (arith, g, e) in rw same (rw h (Memᴰ.head refl))
      | inr e ↦ if-mem (passes f q) q (scan f m) (scan-mem a id m (ground (arith, g, e)) h)
    ]

    mem-look_up :
        (a : Account x) (m : Map String (Account x)) (ids : List String)
        → Memᴰ a (look_up f m ids)
        → (id : String) × (get id m ≡ some a) × (passes f a ≡ true)
    unfolding look_up
    mem-look_up a m [] h = elim h [ ]
    mem-look_up a m (k ∷ ids) h = elim (Option-cases (get k m)) [
      | inl e ↦ mem-look_up a m ids (rw (e, look_up) at h)
      | inr (q, e) ↦ elim (mem-if (passes f q) q (look_up f m ids) (rw (e, look_up) at h)) [
        | inl (b, same) ↦ (k, e ∙ ap some (sym same), rw same b)
        | inr t ↦ mem-look_up a m ids t
      ]
    ]

    look_up-mem :
        (a : Account x) (id : String) (m : Map String (Account x)) (ids : List String)
        → contains ids id ≡ true
        → get id m ≡ some a
        → passes f a ≡ true
        → Memᴰ a (look_up f m ids)
    unfolding look_up
    look_up-mem a id m [] i g h = absurd (cc i)
    look_up-mem a id m (k ∷ ids) i g h = elim (Bool-cases (k == id)) [
      | inl e ↦
          rw (ap (λ j. get j m) ((string_key.beq_iff k id).0 e) ∙ g, look_up)
            (rw h (Memᴰ.head refl))
      | inr e ↦
          let rest = look_up-mem a id m ids (ground (arith, i, e)) g h in
          elim (Option-cases (get k m)) [
            | inl n ↦ rw (n, look_up) rest
            | inr (q, n) ↦ rw (n, look_up) (if-mem (passes f q) q (look_up f m ids) rest)
          ]
    ]

module _ {x : Ext} {U : Type 0} where
  pub search_accounts_finds :
      (f : SearchFilter (Account x)) (s : Store x U) (a : Account x)
      → Reach s
      → Memᴰ a (search_accounts f s) ↔ ((get a.id s.accounts ≡ some a) × Answers f a)
  unfolding search_accounts
  search_accounts_finds f s a r =
      let v = Reach-Inv s r in
      let key = build_provider_key f.provider_type f.provider_name in
      let found : (id : String)
          → get id s.accounts ≡ some a
          → passes f a ≡ true
          → (get a.id s.accounts ≡ some a) × Answers f a =
        λ id g p.
          (subst (λ i. get i s.accounts ≡ some a) (sym (v.ids id a g)) g, passes-Answers f a p) in
      elim (Bool-cases (not (f.provider_type == "") && not (f.provider_name == ""))) [
        | inr e ↦ (
          λ h.
              let (id, g, p) = mem-scan f a s.accounts v.unique (rw (e, search_accounts) at h) in
              found id g p,
          λ (g, p). rw (e, search_accounts) (scan-mem f a a.id s.accounts g (Answers-passes f a p)),
        )
        | inl e ↦ elim (Option-cases (get key s.provider_index)) [
          | inl n ↦ (
            λ h. mem-none _ a _ (rw (e, search_accounts) (rw n refl)) h,
            λ (g, p). absurd (ground (arith, n, listed g p e)),
          )
          | inr (ids, n) ↦ (
            λ h.
                let (id, g, q) =
                  mem-look_up f a s.accounts ids
                    (subst (Memᴰ a) (rw (e, search_accounts) (rw n refl)) h) in
                found id g q,
            λ (g, p). subst (Memᴰ a) (sym (rw (e, search_accounts) (rw n refl))) (
                look_up-mem f a a.id s.accounts ids (ground (arith, n, listed g p e)) g
                  (Answers-passes f a p)),
          )
        ]
      ]
    where
      listed :
          get a.id s.accounts ≡ some a
          → Answers f a
          → (not (f.provider_type == "") && not (f.provider_name == "")) ≡ true
          → is_listed a.id (build_provider_key f.provider_type f.provider_name) s.provider_index
            ≡ true
      listed g p e =
          let same : account_key a ≡ build_provider_key f.provider_type f.provider_name =
            ground (arith, p, e) in
          subst (λ k. is_listed a.id k s.provider_index ≡ true) same (Reach-Listed s r a.id a g)
