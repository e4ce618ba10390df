-- ===== src/Occupancy/Contract.antt =====
-- What a controller needs of its occupancy store: each operation moves the counts as its name says, an
-- increment that fails moves none, and a decrement does not fail.
use lumin_acpool.Prelude.{
  ℕ, ◌+◌, ◌-◌, String, none, some, List, Map, Bool, ok, err, get, string_key, ◌==◌, indicator, ◌≡◌,
}
use lumin_acpool.Account.{contains}
use lumin_acpool.Interfaces.{StorageError, OccupancyStore}

-- Go's `m[id]`: 0 for a missing key.
abbrev pub level : String → Map String ℕ → ℕ
level id m = elim (get id m) [ some n ↦ n | none ↦ 0 ]

pub record Counts {W : Type 0} (s : OccupancyStore W) (slots : W → String → ℕ) : Type 0 where
  pub incr_ok : (k : String) (w : W) (n : ℕ) → (s.incr_occupancy k w).0 ≡ ok n → n ≡ slots w k + 1
  pub incr_slots :
      (k : String) (w : W) (n : ℕ) (i : String)
      → (s.incr_occupancy k w).0 ≡ ok n
      → slots (s.incr_occupancy k w).1 i ≡ slots w i + indicator (k == i)
  pub incr_err :
      (k : String) (w : W) (e : StorageError) (i : String)
      → (s.incr_occupancy k w).0 ≡ err e
      → slots (s.incr_occupancy k w).1 i ≡ slots w i
  pub decr_slots :
      (k : String) (w : W) (i : String)
      → slots (s.decr_occupancy k w).1 i ≡ slots w i - indicator (k == i)
  pub get_slots :
      (ks : List String) (w : W) (i : String) → slots (s.get_occupancies ks w).1 i ≡ slots w i
  pub get_ok :
      (ks : List String) (w : W) (m : Map String ℕ) (i : String)
      → (s.get_occupancies ks w).0 ≡ ok m
      → contains ks i ≡ Bool.true
      → level i m ≡ slots w i
