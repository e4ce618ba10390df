-- ===== src/Memory/Providers/Reached.antt =====
-- What the operations keep: the providers under their keys, and the index by model.
use lumin_acpool.Prelude.{
  ℕ, String, ◌&&◌, ◌||◌, not, none, some, List, [], ◌∷◌, Map, get, put, del, get-put, get-del,
  string_key, arith, ◌≡◌, refl, ap, ◌∙◌, Option-cases, inl, inr, Unique, put-Unique, del-Unique,
}
use lumin_acpool.Account.{
  Ext, ProviderInfo, ProviderKey, provider_key, key_beq, key_beq_iff, key_eq, contains,
}
use lumin_acpool.Memory.Accounts.{Store}
use lumin_acpool.Memory.Providers.{
  ProviderStore, unindex_keys, add_provider, update_provider, remove_provider, drop_accounts,
}
use lumin_acpool.Memory.Providers.Index.{is_indexed, index_keys_lem, unindex_keys_lem}

module _ {x : Ext} where
  abbrev pub models_at : ProviderKey → Map ProviderKey (ProviderInfo x) → List String
  models_at key m = elim (get key m) [ none ↦ [] | some p ↦ p.supported_models ]

module _ {x : Ext} {U : Type 0} where
  -- The providers stand under their keys, and the index by model has the models that they support.
  pub record Indexed (s : ProviderStore x U) : Type 0 where
    pub unique : Unique s.store.providers
    pub keyed :
        (key : ProviderKey) (p : ProviderInfo x)
        → get key s.store.providers ≡ some p
        → provider_key p ≡ key
    pub indexed :
        (key : ProviderKey) (model : String)
        → is_indexed key model s.model_index ≡ contains (models_at key s.store.providers) model

  drop_accounts-providers :
      (ids : List String) (s : Store x U) → (drop_accounts ids s).providers ≡ s.providers
  unfolding drop_accounts
  drop_accounts-providers [] s = refl
  drop_accounts-providers (id ∷ ids) s = drop_accounts-providers ids _ ∙ ground arith

  -- A store with the provider `q` written, whose index had nothing under the key of `q`.
  write-Indexed :
      (q : ProviderInfo x) (s t : ProviderStore x U)
      → Indexed s
      → t.store.providers ≡ put (provider_key q) q s.store.providers
      → ((key : ProviderKey) (model : String)
          → is_indexed key model t.model_index ≡ (
              (contains q.supported_models model && key_beq (provider_key q) key)
              || (contains (models_at key s.store.providers) model
                  && not (key_beq (provider_key q) key))))
      → Indexed t
  write-Indexed q s t v e h = record {
    unique = rw e (put-Unique (provider_key q) q s.store.providers v.unique);
    keyed = λ key p g. ground (
      arith,
      ap (get key) e,
      g,
      v.keyed key p,
      get-put (provider_key q) key q s.store.providers,
      key_beq_iff (provider_key q) key,
    );
    indexed = λ key model. ground (
      arith,
      ap (get key) e,
      h key model,
      get-put (provider_key q) key q s.store.providers,
      key_beq_iff (provider_key q) key,
    );
  }

  add_provider-Indexed :
      (p : ProviderInfo x) (now : ℕ) (s : ProviderStore x U)
      → Indexed s
      → Indexed (add_provider p now s).1
  unfolding add_provider
  add_provider-Indexed p now s v = elim (Option-cases (get (provider_key p) s.store.providers)) [
    | inr (q, e) ↦ rw (e, add_provider) v
    | inl e ↦
        rw (e, add_provider)
          (write-Indexed _ s _ v refl λ key model. ground (
            arith,
            e,
            v.indexed key model,
            key_beq_iff (provider_key p) key,
            index_keys_lem (provider_key p) key p.supported_models model s.model_index,
          ))
  ]

  update_provider-Indexed :
      (p : ProviderInfo x) (now : ℕ) (s : ProviderStore x U)
      → Indexed s
      → Indexed (update_provider p now s).1
  unfolding update_provider
  update_provider-Indexed p now s v = elim (Option-cases (get (provider_key p) s.store.providers)) [
    | inl e ↦ rw (e, update_provider) v
    | inr (old, e) ↦
        rw (e, update_provider)
          (write-Indexed _ s _ v refl λ key model. ground (
            arith,
            e,
            v.indexed key model,
            v.keyed (provider_key p) old e,
            key_beq_iff (provider_key p) key,
            key_beq_iff (provider_key old) key,
            unindex_keys_lem (provider_key old) key old.supported_models model s.model_index,
            index_keys_lem (provider_key p) key p.supported_models model
                (unindex_keys (provider_key old) old.supported_models s.model_index),
          ))
  ]

  remove_provider-Indexed :
      (key : ProviderKey) (s : ProviderStore x U) → Indexed s → Indexed (remove_provider key s).1
  unfolding remove_provider
  remove_provider-Indexed key s v = elim (Option-cases (get key s.store.providers)) [
    | inl e ↦ rw (e, remove_provider) v
    | inr (old, e) ↦
        let dropped : Store x U = elim (get key s.store.provider_index) [
          | none ↦ s.store
          | some ids ↦ drop_accounts ids s.store
        ] in
        let same : dropped.providers ≡ s.store.providers =
          elim (Option-cases (get key s.store.provider_index)) [
            | inl g ↦ ground (arith, g)
            | inr (ids, g) ↦ ground (arith, g, drop_accounts-providers ids s.store)
          ] in
        rw (e, remove_provider)
          record {
            unique = rw same (del-Unique key s.store.providers v.unique);
            keyed = λ k p h.
                ground (arith, h, ap (del key) same, v.keyed k p, get-del key k s.store.providers);
            indexed = λ k model. ground (
              arith,
              e,
              ap (λ m. get k (del key m)) same,
              v.indexed k model,
              v.keyed key old e,
              get-del key k s.store.providers,
              key_beq_iff key k,
              key_beq_iff (provider_key old) k,
              unindex_keys_lem (provider_key old) k old.supported_models model s.model_index,
            );
          }
  ]

  -- The operations of the store on providers, and what the operations on accounts do to a provider:
  -- they change it under its key and leave the models that it supports.
  pub data Step : ProviderStore x U → ProviderStore x U → Type 0 where
    added : (p : ProviderInfo x) (now : ℕ) (s : ProviderStore x U) → Step s (add_provider p now s).1
    updated :
        (p : ProviderInfo x) (now : ℕ) (s : ProviderStore x U) → Step s (update_provider p now s).1
    removed : (key : ProviderKey) (s : ProviderStore x U) → Step s (remove_provider key s).1
    counted :
        (old new : ProviderInfo x) (t : Store x U) (s : ProviderStore x U)
        → get (provider_key new) s.store.providers ≡ some old
        → new.supported_models ≡ old.supported_models
        → t.providers ≡ put (provider_key new) new s.store.providers
        → Step s (record s { store = t })

  pub data Reach : ProviderStore x U → Type 0 where
    empty : (s : ProviderStore x U) → s.store.providers ≡ [] → s.model_index ≡ [] → Reach s
    next : (s t : ProviderStore x U) → Reach s → Step s t → Reach t

  Step-Indexed : (s t : ProviderStore x U) → Step s t → Indexed s → Indexed t
  Step-Indexed _ _ (added p now s) v = add_provider-Indexed p now s v
  Step-Indexed _ _ (updated p now s) v = update_provider-Indexed p now s v
  Step-Indexed _ _ (removed key s) v = remove_provider-Indexed key s v
  Step-Indexed _ _ (counted old new t s g m e) v =
      write-Indexed new s (record s { store = t }) v e
        λ key model. ground (
          arith,
          g,
          ap (λ l. contains l model) m,
          v.indexed key model,
          key_beq_iff (provider_key new) key,
        )

  pub Reach-Indexed : (s : ProviderStore x U) → Reach s → Indexed s
  unfolding get
  Reach-Indexed s (empty _ e m) = record {
    unique = rw e tt;
    keyed = λ key p h. absurd (ground (arith, h, ap (get key) e));
    indexed = λ key model. ground (arith, ap (get key) e, ap (get model) m);
  }
  Reach-Indexed t (next s _ r st) = Step-Indexed s t st (Reach-Indexed s r)
