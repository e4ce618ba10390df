-- ===== src/Memory/Providers.antt =====
-- storage/memory/provider.go: the providers with their indexes by type and by model, and the removal of
-- a provider with its accounts. Each operation holds its locks and is one step at the time `now`.
pub mod Index
pub mod Reached
pub mod Found
use lumin_acpool.Prelude.{
  ℕ, String, Bool, true, false, ◌&&◌, ◌||◌, not, Option, none, some, List, [], ◌∷◌, Map, get, put,
  del, string_key, nat_beq, Result, ok, err, keep, ◌==◌, if◌then◌else◌,
}
use lumin_acpool.Account.{
  Ext, ProviderInfo, ProviderKey, provider_key, provider_status_code, account_key, key_beq, key_eq,
}
use lumin_acpool.Interfaces.{StorageError, SearchFilter}
use lumin_acpool.Memory.Accounts.{Store, remove_from_index}

-- The part of the store that this file reads and writes.
pub record ProviderStore (x : Ext) (U : Type 0) : Type 0 where
  pub store : Store x U
  pub type_index : Map String (List ProviderKey)
  pub model_index : Map String (List ProviderKey)

abbrev pub has_key : ProviderKey → List ProviderKey → Bool
has_key key [] = false
has_key key (k ∷ ks) = key_beq k key || has_key key ks

-- A key into, and out of, the set under a name.
unfoldable pub index_key :
    ProviderKey → String → Map String (List ProviderKey) → Map String (List ProviderKey)
index_key key name index = elim (get name index) [
  | none ↦ put name (key ∷ []) index
  | some ks ↦ put name (if has_key key ks then ks else key ∷ ks) index
]

unfoldable pub unindex_key :
    ProviderKey → String → Map String (List ProviderKey) → Map String (List ProviderKey)
unindex_key key name index = elim (get name index) [
  | none ↦ index
  | some ks ↦ elim (keep (λ k. not (key_beq k key)) ks) [
    | [] ↦ del name index
    | k ∷ rest ↦ put name (k ∷ rest) index
  ]
]

unfoldable pub index_keys :
    ProviderKey → List String → Map String (List ProviderKey) → Map String (List ProviderKey)
index_keys key [] index = index
index_keys key (name ∷ names) index = index_keys key names (index_key key name index)

unfoldable pub unindex_keys :
    ProviderKey → List String → Map String (List ProviderKey) → Map String (List ProviderKey)
unindex_keys key [] index = index
unindex_keys key (name ∷ names) index = unindex_keys key names (unindex_key key name index)

module _ {x : Ext} where
  -- `matchProviderSearchFilter`, for a filter that is not nil, and then the predicate.
  unfoldable pub match_provider : SearchFilter (ProviderInfo x) → ProviderInfo x → Bool
  match_provider f p =
      (f.provider_type == "" || p.provider_type == f.provider_type)
      && (f.provider_name == "" || p.provider_name == f.provider_name)
      && (nat_beq f.status 0 || nat_beq (provider_status_code p.status) f.status)

  abbrev pub passes : SearchFilter (ProviderInfo x) → ProviderInfo x → Bool
  passes f p = match_provider f p && f.extra p

  unfoldable pub scan :
      SearchFilter (ProviderInfo x) → Map ProviderKey (ProviderInfo x) → List (ProviderInfo x)
  scan f [] = []
  scan f ((key, p) ∷ rest) = let found = scan f rest in if passes f p then p ∷ found else found

  unfoldable pub look_up :
      SearchFilter (ProviderInfo x)
      → Map ProviderKey (ProviderInfo x)
      → List ProviderKey
      → List (ProviderInfo x)
  look_up f providers [] = []
  look_up f providers (key ∷ keys) =
      let found = look_up f providers keys in
      elim (get key providers) [ none ↦ found | some p ↦ if passes f p then p ∷ found else found ]

module _ {x : Ext} {U : Type 0} where
  pub get_provider : ProviderKey → ProviderStore x U → Result StorageError (ProviderInfo x)
  get_provider key s = elim (get key s.store.providers) [
    | none ↦ err StorageError.not_found
    | some p ↦ ok p
  ]

  unfoldable pub search_providers :
      SearchFilter (ProviderInfo x) → ProviderStore x U → List (ProviderInfo x)
  search_providers f s =
      if f.supported_model == ""
      then scan f s.store.providers
      else elim (get f.supported_model s.model_index) [
        | none ↦ []
        | some keys ↦ look_up f s.store.providers keys
      ]

  -- `provAddToIndex` and `provRemoveFromIndex`, for a provider that is stored or dropped.
  abbrev pub add_to_index : ProviderInfo x → ProviderStore x U → ProviderStore x U
  add_to_index p s = record s {
    type_index = index_key (provider_key p) p.provider_type s.type_index;
    model_index = index_keys (provider_key p) p.supported_models s.model_index;
  }

  abbrev pub drop_from_index : ProviderInfo x → ProviderStore x U → ProviderStore x U
  drop_from_index p s = record s {
    type_index = unindex_key (provider_key p) p.provider_type s.type_index;
    model_index = unindex_keys (provider_key p) p.supported_models s.model_index;
  }

  abbrev pub write_provider : ProviderKey → ProviderInfo x → ProviderStore x U → ProviderStore x U
  write_provider key p s = record s {
    store = record s.store { providers = put key p s.store.providers };
  }

  unfoldable pub add_provider :
      ProviderInfo x → ℕ → ProviderStore x U → Result StorageError (Unit {0}) × ProviderStore x U
  add_provider p now s = elim (get (provider_key p) s.store.providers) [
    | some _ ↦ (err StorageError.already_exists, s)
    | none ↦
        let stored = record p {
          created_at = if nat_beq p.created_at 0 then now else p.created_at;
          updated_at = now;
        } in
        (ok tt, add_to_index stored (write_provider (provider_key p) stored s))
  ]

  unfoldable pub update_provider :
      ProviderInfo x → ℕ → ProviderStore x U → Result StorageError (Unit {0}) × ProviderStore x U
  update_provider p now s = elim (get (provider_key p) s.store.providers) [
    | none ↦ (err StorageError.not_found, s)
    | some old ↦
        let stored = record p { updated_at = now } in
        (
          ok tt,
          add_to_index stored (write_provider (provider_key p) stored (drop_from_index old s)),
        )
  ]

  -- The loop over the accounts of a provider that is removed.
  unfoldable pub drop_accounts : List String → Store x U → Store x U
  drop_accounts [] s = s
  drop_accounts (id ∷ ids) s =
      let t = record s { stats = del id s.stats; usages = del id s.usages } in
      drop_accounts ids (elim (get id s.accounts) [
        | none ↦ t
        | some a ↦ record t {
          accounts = del id s.accounts;
          provider_index = remove_from_index (account_key a) a.id s.provider_index;
        }
      ])

  unfoldable pub remove_provider :
      ProviderKey → ProviderStore x U → Result StorageError (Unit {0}) × ProviderStore x U
  remove_provider key s = elim (get key s.store.providers) [
    | none ↦ (err StorageError.not_found, s)
    | some p ↦
        let dropped : Store x U = elim (get key s.store.provider_index) [
          | none ↦ s.store
          | some ids ↦ drop_accounts ids s.store
        ] in
        (
          ok tt,
          record (drop_from_index p s) {
            store = record dropped { providers = del key dropped.providers };
          },
        )
  ]
