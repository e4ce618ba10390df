-- ===== src/Memory/Accounts.antt =====
-- storage/memory/account.go: the accounts, their index by provider, and the counts that the
-- operations keep on the provider; statistics and usages of removed accounts are dropped with them.
-- Each operation takes its locks in turn and is run here as one step. `U` is what the store keeps of
-- an account's usage.
pub mod Counts
pub mod Search
pub mod Batch
pub mod Reached
pub mod Index
pub mod Found
pub mod Conflict
use lumin_acpool.Prelude.{
  ℕ, suc, ◌+◌, ◌-◌, String, Bool, true, false, ◌&&◌, ◌||◌, not, Option, none, some, List, [], ◌∷◌,
  ◌++◌, Map, get, put, del, string_key, nat_beq, ltb, Result, ok, err, keep, ◌==◌, if◌then◌else◌,
}
use lumin_acpool.Account.{
  Ext, Account, ProviderInfo, ProviderKey, AccountStats, Status, available, same_status,
  status_code, account_key, build_provider_key, key_eq, contains,
}
use lumin_acpool.Interfaces.{
  StorageError, not_found, already_exists, version_conflict, UpdateField, SearchFilter,
}

pub record Store (x : Ext) (U : Type 0) : Type 0 where
  pub accounts : Map String (Account x)
  pub provider_index : Map ProviderKey (List String)
  pub providers : Map ProviderKey (ProviderInfo x)
  pub stats : Map String AccountStats
  pub usages : Map String U

-- `acctAddToIndex` and `acctRemoveFromIndex`; a set is a list without repetition.
unfoldable pub add_to_index :
    ProviderKey → String → Map ProviderKey (List String) → Map ProviderKey (List String)
add_to_index key id index = elim (get key index) [
  | none ↦ put key (id ∷ []) index
  | some ids ↦ put key (if contains ids id then ids else id ∷ ids) index
]

pub remove_from_index :
    ProviderKey → String → Map ProviderKey (List String) → Map ProviderKey (List String)
remove_from_index key id index = elim (get key index) [
  | none ↦ index
  | some ids ↦ elim (keep (λ j. not (j == id)) ids) [
    | [] ↦ del key index
    | j ∷ rest ↦ put key (j ∷ rest) index
  ]
]

module _ {x : Ext} where
  abbrev pub is_available : Account x → Bool
  is_available a = same_status a.status available

  -- A change to the provider of a key, if there is one.
  unfoldable pub modify_provider :
      ProviderKey
      → (ProviderInfo x → ProviderInfo x)
      → Map ProviderKey (ProviderInfo x)
      → Map ProviderKey (ProviderInfo x)
  modify_provider key f providers = elim (get key providers) [
    | none ↦ providers
    | some p ↦ put key (f p) providers
  ]

  abbrev pub count_added : Account x → ℕ → ProviderInfo x → ProviderInfo x
  count_added a now p = record p {
    account_count = p.account_count + 1;
    available_account_count =
        if is_available a then p.available_account_count + 1 else p.available_account_count;
    updated_at = now;
  }

  -- `if n > 0 { n-- }`, where subtraction stops at 0.
  abbrev pub count_removed : Account x → ℕ → ProviderInfo x → ProviderInfo x
  count_removed a now p = record p {
    account_count = p.account_count - 1;
    available_account_count =
        if is_available a then p.available_account_count - 1 else p.available_account_count;
    updated_at = now;
  }

  abbrev pub count_changed : Account x → Account x → ℕ → ProviderInfo x → ProviderInfo x
  count_changed old new now p = record p {
    available_account_count =
        if is_available old && not (is_available new)
        then p.available_account_count - 1
        else if not (is_available old) && is_available new
        then p.available_account_count + 1
        else p.available_account_count;
    updated_at = now;
  }

  -- The selected fields of `new`, on the stored account.
  abbrev pub apply_fields : UpdateField → Account x → Account x → ℕ → Account x
  apply_fields fields old new now = record old {
    credential = if fields.credential then new.credential else old.credential;
    status = if fields.status then new.status else old.status;
    priority = if fields.priority then new.priority else old.priority;
    tags = if fields.tags then new.tags else old.tags;
    metadata = if fields.metadata then new.metadata else old.metadata;
    usage_rules = if fields.usage_rules then new.usage_rules else old.usage_rules;
    cooldown_until = if fields.status then new.cooldown_until else old.cooldown_until;
    circuit_open_until = if fields.status then new.circuit_open_until else old.circuit_open_until;
    updated_at = now;
    version = old.version + 1;
  }

  -- `matchAccountSearchFilter`, for a filter that is not nil.
  unfoldable pub match_search_filter : SearchFilter (Account x) → Account x → Bool
  match_search_filter f a =
      (f.provider_type == "" || a.provider_type == f.provider_type)
      && (f.provider_name == "" || a.provider_name == f.provider_name)
      && (nat_beq f.status 0 || nat_beq (status_code a.status) f.status)

  abbrev pub passes : SearchFilter (Account x) → Account x → Bool
  passes f a = match_search_filter f a && f.extra a

  abbrev pub stored_account : Account x → ℕ → Account x
  stored_account a now = record a {
    created_at = if nat_beq a.created_at 0 then now else a.created_at;
    updated_at = now;
    version = 1;
  }

  -- The slow path of `SearchAccounts`, a scan of all accounts.
  pub scan : SearchFilter (Account x) → Map String (Account x) → List (Account x)
  scan f [] = []
  scan f ((id, a) ∷ rest) = let found = scan f rest in if passes f a then a ∷ found else found

  -- The fast path, over the identifiers that the index has for a provider.
  unfoldable pub look_up :
      SearchFilter (Account x) → Map String (Account x) → List String → List (Account x)
  look_up f accounts [] = []
  look_up f accounts (id ∷ ids) =
      let found = look_up f accounts ids in
      elim (get id accounts) [ none ↦ found | some a ↦ if passes f a then a ∷ found else found ]

  pub count_accounts : SearchFilter (Account x) → Map String (Account x) → ℕ
  count_accounts f [] = 0
  count_accounts f ((id, a) ∷ rest) =
      let n = count_accounts f rest in if passes f a then n + 1 else n

module _ {x : Ext} {U : Type 0} where
  pub get_account : String → Store x U → Result StorageError (Account x)
  get_account id s = elim (get id s.accounts) [ none ↦ err StorageError.not_found | some a ↦ ok a ]

  unfoldable pub add_account :
      Account x → ℕ → Store x U → Result StorageError (Unit {0}) × Store x U
  add_account a now s = elim (get a.id s.accounts) [
    | some _ ↦ (err StorageError.already_exists, s)
    | none ↦
        let stored = stored_account a now in
        (
          ok tt,
          record s {
            accounts = put a.id stored s.accounts;
            provider_index = add_to_index (account_key stored) a.id s.provider_index;
            providers = modify_provider (account_key stored) (count_added stored now) s.providers;
          },
        )
  ]

  -- The version and the fields have passed their tests.
  unfoldable pub write_account : UpdateField → Account x → Account x → ℕ → Store x U → Store x U
  write_account fields old new now s =
      let updated = apply_fields fields old new now in
      record s {
        accounts = put new.id updated s.accounts;
        providers =
            if fields.status && not (same_status old.status updated.status)
            then modify_provider (account_key updated) (count_changed old updated now) s.providers
            else s.providers;
      }

  unfoldable pub update_account :
      Account x → UpdateField → ℕ → Store x U → Result StorageError (Unit {0}) × Store x U
  update_account new fields now s = elim (get new.id s.accounts) [
    | none ↦ (err StorageError.not_found, s)
    | some old ↦
        if nat_beq old.version new.version
        then (ok tt, write_account fields old new now s)
        else (err StorageError.version_conflict, s)
  ]

  -- What is dropped with the account `a` under the key `id`.
  pub drop_account : String → Account x → ℕ → Store x U → Store x U
  drop_account id a now s = record {
    accounts = del id s.accounts;
    provider_index = remove_from_index (account_key a) a.id s.provider_index;
    providers = modify_provider (account_key a) (count_removed a now) s.providers;
    stats = del id s.stats;
    usages = del id s.usages;
  }

  pub remove_account : String → ℕ → Store x U → Result StorageError (Unit {0}) × Store x U
  remove_account id now s = elim (get id s.accounts) [
    | none ↦ (err StorageError.not_found, s)
    | some a ↦ (ok tt, drop_account id a now s)
  ]

  -- The loops of `RemoveAccounts`, which visit the entries that pass the filter.
  pub drop_matching : SearchFilter (Account x) → Map String (Account x) → ℕ → Store x U → Store x U
  drop_matching f [] now s = s
  drop_matching f ((id, a) ∷ rest) now s =
      drop_matching f rest now (if passes f a then drop_account id a now s else s)

  pub remove_accounts : SearchFilter (Account x) → ℕ → Store x U → Store x U
  remove_accounts f now s = drop_matching f s.accounts now s

  unfoldable pub search_accounts : SearchFilter (Account x) → Store x U → List (Account x)
  search_accounts f s =
      if not (f.provider_type == "") && not (f.provider_name == "")
      then elim (get (build_provider_key f.provider_type f.provider_name) s.provider_index) [
        | none ↦ []
        | some ids ↦ look_up f s.accounts ids
      ]
      else scan f s.accounts
