-- ===== src/Memory/Accounts/Search.antt =====
-- The searches of storage/memory/account.go, by the scan and by the index, and the count.
use lumin_acpool.Prelude.{
  String, Bool, true, false, Option, none, some, List, [], ◌∷◌, Map, get, All, Bool-cases, not,
  ◌&&◌, ◌==◌, string_key, if◌then◌else◌, inl, inr, length, arith, ◌≡◌, refl,
}
use lumin_acpool.Account.{Ext, Account, build_provider_key, key_eq}
use lumin_acpool.Interfaces.{SearchFilter}
use lumin_acpool.Memory.Accounts.{Store, passes, scan, look_up, count_accounts, search_accounts}

module _ {x : Ext} (f : SearchFilter (Account x)) where
  scan-passes : (m : Map String (Account x)) → All (λ a. passes f a ≡ true) (scan f m)
  unfolding scan
  scan-passes [] = tt
  scan-passes ((id, a) ∷ rest) = elim (Bool-cases (passes f a)) [
    | inl e ↦ rw e (e, scan-passes rest)
    | inr e ↦ rw e (scan-passes rest)
  ]

  found_passes :
      (o : Option (Account x)) (found : List (Account x))
      → All (λ a. passes f a ≡ true) found
      → All
          (λ a. passes f a ≡ true)
          (elim o [ none ↦ found | some a ↦ if passes f a then a ∷ found else found ])
  found_passes none found h = h
  found_passes (some a) found h = elim (Bool-cases (passes f a)) [
    | inl e ↦ rw e (e, h)
    | inr e ↦ rw e h
  ]

  look_up-passes :
      (m : Map String (Account x)) (ids : List String)
      → All (λ a. passes f a ≡ true) (look_up f m ids)
  unfolding look_up
  look_up-passes m [] = tt
  look_up-passes m (id ∷ ids) = found_passes (get id m) (look_up f m ids) (look_up-passes m ids)

  index_passes :
      (ids : Option (List String)) (m : Map String (Account x))
      → All (λ a. passes f a ≡ true) (elim ids [ none ↦ [] | some l ↦ look_up f m l ])
  index_passes none m = tt
  index_passes (some l) m = look_up-passes m l

  branch_passes :
      (b : Bool) (l k : List (Account x))
      → All (λ a. passes f a ≡ true) l
      → All (λ a. passes f a ≡ true) k
      → All (λ a. passes f a ≡ true) (if b then l else k)
  branch_passes true l k g h = g
  branch_passes false l k g h = h

  -- A search finds only accounts that pass the filter, whichever way it takes.
  pub search_accounts-passes :
      {U : Type 0} (s : Store x U) → All (λ a. passes f a ≡ true) (search_accounts f s)
  unfolding search_accounts
  search_accounts-passes s =
      let ids = get (build_provider_key f.provider_type f.provider_name) s.provider_index in
      branch_passes (not (f.provider_type == "") && not (f.provider_name == ""))
        (elim ids [ none ↦ [] | some l ↦ look_up f s.accounts l ]) (scan f s.accounts)
        (index_passes ids s.accounts) (scan-passes s.accounts)

  -- `CountAccounts` counts what a scan finds.
  pub count_accounts-length : (m : Map String (Account x)) → count_accounts f m ≡ length (scan f m)
  unfolding count_accounts scan
  count_accounts-length [] = refl
  count_accounts-length ((id, a) ∷ rest) = ground (arith, count_accounts-length rest)
