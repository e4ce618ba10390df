-- ===== src/Memory/Providers/Found.antt =====
-- What `SearchProviders` finds in the stores that the operations lead to.
use mathlib.Core.List.{Memᴰ}
use lumin_acpool.Prelude.{
  true, false, some, List, [], ◌∷◌, Map, get, string_key, ◌==◌, arith, ◌≡◌, ◌↔◌, refl, ap, sym, ◌∙◌,
  subst, Option-cases, Bool-cases, inl, inr, Unique, mem-if, if-mem, mem-none, nat_beq,
}
use lumin_acpool.Account.{
  Ext, ProviderInfo, ProviderKey, provider_key, key_beq, key_beq_iff, key_eq, supports_model,
  provider_status_code,
}
use lumin_acpool.Interfaces.{SearchFilter}
use lumin_acpool.Memory.Providers.{
  ProviderStore, has_key, match_provider, passes, scan, look_up, search_providers,
}
use lumin_acpool.Memory.Providers.Reached.{Reach, Reach-Indexed}

module _ {x : Ext} where
  -- What a filter asks of a provider: each field that is not left empty is the provider's, the model
  -- that it names is supported, and the condition holds.
  abbrev pub Answers : SearchFilter (ProviderInfo x) → ProviderInfo x → Type 0
  Answers f p =
      ((f.provider_type == "") ≡ false → p.provider_type ≡ f.provider_type)
      × ((f.provider_name == "") ≡ false → p.provider_name ≡ f.provider_name)
      × (nat_beq f.status 0 ≡ false → provider_status_code p.status ≡ f.status)
      × ((f.supported_model == "") ≡ false → supports_model p f.supported_model ≡ true)
      × (f.extra p ≡ true)

  passes-Answers :
      (f : SearchFilter (ProviderInfo x)) (p : ProviderInfo x)
      → ((passes f p ≡ true)
          × ((f.supported_model == "") ≡ false → supports_model p f.supported_model ≡ true))
        ↔ Answers f p
  unfolding match_provider
  passes-Answers f p = ground (
    arith,
    string_key.beq_iff p.provider_type f.provider_type,
    string_key.beq_iff p.provider_name f.provider_name,
  )

module _ {x : Ext} (f : SearchFilter (ProviderInfo x)) where
  mem-scan :
      (p : ProviderInfo x) (m : Map ProviderKey (ProviderInfo x))
      → Unique m
      → Memᴰ p (scan f m)
      → (key : ProviderKey) × (get key m ≡ some p) × (passes f p ≡ true)
  unfolding scan get
  mem-scan p [] u h = elim h [ ]
  mem-scan p ((k, q) ∷ m) u h = elim (mem-if (passes f q) q (scan f m) h) [
    | inl (e, same) ↦ (k, ground (arith, same, key_beq_iff k k), rw same e)
    | inr t ↦
        let (key, g, ps) = mem-scan p m u.1 t in
        (key, ground (arith, g, u.0, key_beq_iff k key), ps)
  ]

  scan-mem :
      (p : ProviderInfo x) (key : ProviderKey) (m : Map ProviderKey (ProviderInfo x))
      → get key m ≡ some p
      → passes f p ≡ true
      → Memᴰ p (scan f m)
  unfolding scan get
  scan-mem p key [] g h = absurd (cc g)
  scan-mem p key ((k, q) ∷ m) g h = elim (Bool-cases (key_beq k key)) [
    | inl e ↦ let same : q ≡ p = ground (arith, g, e) in rw same (rw h (Memᴰ.head refl))
    | inr e ↦ if-mem (passes f q) q (scan f m) (scan-mem p key m (ground (arith, g, e)) h)
  ]

  mem-look_up :
      (p : ProviderInfo x) (m : Map ProviderKey (ProviderInfo x)) (keys : List ProviderKey)
      → Memᴰ p (look_up f m keys)
      → (key : ProviderKey) × (has_key key keys ≡ true) × (get key m ≡ some p) × (passes f p ≡ true)
  unfolding look_up
  mem-look_up p m [] h = elim h [ ]
  mem-look_up p m (k ∷ keys) h = elim (Option-cases (get k m)) [
    | inl e ↦
        let (key, i, g, ps) = mem-look_up p m keys (rw (e, look_up) at h) in
        (key, ground (arith, i), g, ps)
    | inr (q, e) ↦ elim (mem-if (passes f q) q (look_up f m keys) (rw (e, look_up) at h)) [
      | inl (b, same) ↦ (k, ground (arith, key_beq_iff k k), e ∙ ap some (sym same), rw same b)
      | inr t ↦ let (key, i, g, ps) = mem-look_up p m keys t in (key, ground (arith, i), g, ps)
    ]
  ]

  look_up-mem :
      (p : ProviderInfo x) (key : ProviderKey) (m : Map ProviderKey (ProviderInfo x))
      (keys : List ProviderKey)
      → has_key key keys ≡ true
      → get key m ≡ some p
      → passes f p ≡ true
      → Memᴰ p (look_up f m keys)
  unfolding look_up
  look_up-mem p key m [] i g h = absurd (cc i)
  look_up-mem p key m (k ∷ keys) i g h = elim (Bool-cases (key_beq k key)) [
    | inl e ↦ rw (ap (λ j. get j m) ((key_beq_iff k key).0 e) ∙ g, look_up) (rw h (Memᴰ.head refl))
    | inr e ↦
        let rest = look_up-mem p key m keys (ground (arith, i, e)) g h in
        elim (Option-cases (get k m)) [
          | inl n ↦ rw (n, look_up) rest
          | inr (q, n) ↦ rw (n, look_up) (if-mem (passes f q) q (look_up f m keys) rest)
        ]
  ]

module _ {x : Ext} {U : Type 0} where
  finds :
      (f : SearchFilter (ProviderInfo x)) (s : ProviderStore x U) (p : ProviderInfo x)
      → Reach s
      → Memᴰ p (search_providers f s) ↔ (
          (get (provider_key p) s.store.providers ≡ some p)
          × (passes f p ≡ true)
          × ((f.supported_model == "") ≡ false → supports_model p f.supported_model ≡ true))
  unfolding search_providers
  finds f s p r =
      let v = Reach-Indexed s r in
      elim (Bool-cases (f.supported_model == "")) [
        | inl e ↦ (
          λ h.
              let (key, g, ps) =
                mem-scan f p s.store.providers v.unique (rw (e, search_providers) at h) in
              (rw (v.keyed key p g) g, ps, λ n. absurd (cc (e, n))),
          λ (g, ps, m).
              rw (e, search_providers) (scan-mem f p (provider_key p) s.store.providers g ps),
        )
        | inr e ↦ elim (Option-cases (get f.supported_model s.model_index)) [
          | inl n ↦ (
            λ h. mem-none _ p _ (rw (e, search_providers) (rw n refl)) h,
            λ (g, ps, m).
                absurd (ground (arith, e, g, n, m e, v.indexed (provider_key p) f.supported_model)),
          )
          | inr (keys, n) ↦ (
            λ h.
                let (key, i, g, ps) =
                  mem-look_up f p s.store.providers keys
                    (subst (Memᴰ p) (rw (e, search_providers) (rw n refl)) h) in
                (
                  rw (v.keyed key p g) g,
                  ps,
                  λ m. ground (arith, g, n, i, v.indexed key f.supported_model),
                ),
            λ (g, ps, m). subst (Memᴰ p) (sym (rw (e, search_providers) (rw n refl))) (
                look_up-mem f p (provider_key p) s.store.providers keys
                  (ground (arith, e, g, n, m e, v.indexed (provider_key p) f.supported_model)) g
                  ps),
          )
        ]
      ]

  -- In every store that the operations lead to from an empty one, `SearchProviders` finds exactly the
  -- stored providers that answer its filter, by the scan and by the index: those with the type, the
  -- name, the status and the supported model that the filter names, if it names them, of which its
  -- condition holds.
  pub search_providers_finds :
      (f : SearchFilter (ProviderInfo x)) (s : ProviderStore x U) (p : ProviderInfo x)
      → Reach s
      → Memᴰ p (search_providers f s)
        ↔ ((get (provider_key p) s.store.providers ≡ some p) × Answers f p)
  search_providers_finds f s p r =
      let (to, from) = finds f s p r in
      let (answers, does) = passes-Answers f p in
      (
        λ h. let (g, ps, m) = to h in (g, answers (ps, m)),
        λ (g, q). let (ps, m) = does q in from (g, ps, m),
      )
