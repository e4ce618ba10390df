-- ===== src/Memory/Occupancy/Laws.antt =====
-- The occupancy counters of storage/memory/occupancy.go, and the contract of an occupancy store.
use lumin_acpool.Prelude.{
  ◌+◌, ◌-◌, String, none, some, List, [], ◌∷◌, get, put, get-put, get-del, string_key, ◌==◌,
  if◌then◌else◌, indicator, arith, ◌≡◌, refl, Option-cases, inl, inr,
}
use lumin_acpool.Account.{contains}
use lumin_acpool.Occupancy.Contract.{Counts, level}
use lumin_acpool.Memory.Occupancy.{
  Counters, load_or_create_counter, incr_occupancy, decr_occupancy, get_occupancies, counters_store,
}

-- `IncrOccupancy` adds one to its own counter and returns the sum.
pub incr_occupancy-level :
    (id i : String) (m : Counters)
    → ((incr_occupancy id m).0 ≡ level id m + 1)
      × (level i (incr_occupancy id m).1 ≡ level i m + indicator (id == i))
unfolding incr_occupancy load_or_create_counter
incr_occupancy-level id i m = elim (Option-cases (get id m)) [
  | inl e ↦
      ground (arith, e, string_key.beq_iff id i, get-put id i 1 (put id 0 m), get-put id i 0 m)
  | inr (n, e) ↦ ground (arith, e, string_key.beq_iff id i, get-put id i (n + 1) m)
]

-- `DecrOccupancy` takes one from its own counter, and nothing where it is 0.
pub decr_occupancy-level :
    (id i : String) (m : Counters) → level i (decr_occupancy id m) ≡ level i m - indicator (id == i)
unfolding decr_occupancy load_or_create_counter
decr_occupancy-level id i m = elim (Option-cases (get id m)) [
  | inl e ↦ ground (arith, e, string_key.beq_iff id i, get-put id i 0 m)
  | inr (n, e) ↦
      ground
        (arith, e, string_key.beq_iff id i, get-put id i (n - 1) m, get-del id i (put id (n - 1) m))
]

-- The counter of an account whose last slot is given back is removed from the map.
pub decr_occupancy_last :
    (id : String) (m : Counters) → get id m ≡ some 1 → get id (decr_occupancy id m) ≡ none
unfolding decr_occupancy load_or_create_counter
decr_occupancy_last id m e = ground (arith, string_key.beq_iff id id, get-del id id (put id 0 m))

get_occupancies-level :
    (ids : List String) (i : String) (m : Counters)
    → level i (get_occupancies ids m) ≡ (if contains ids i then level i m else 0)
unfolding get_occupancies get
get_occupancies-level [] i m = refl
get_occupancies-level (id ∷ ids) i m = elim (Option-cases (get id m)) [
  | inl e ↦ ground (arith, e, string_key.beq_iff id i, get_occupancies-level ids i m)
  | inr (n, e) ↦ ground (
    arith,
    e,
    string_key.beq_iff id i,
    get_occupancies-level ids i m,
    get-put id i n (get_occupancies ids m),
  )
]

-- The memory store fills the contract of an occupancy store.
pub counters_store-Counts : Counts counters_store (λ m i. level i m)
unfolding counters_store
counters_store-Counts = record {
  incr_ok = λ k w n h. ground (arith, incr_occupancy-level k k w);
  incr_slots = λ k w n i h. (incr_occupancy-level k i w).1;
  incr_err = λ k w e i h. cc;
  decr_slots = λ k w i. decr_occupancy-level k i w;
  get_slots = λ ks w i. refl;
  get_ok = λ ks w m i h c. ground (arith, get_occupancies-level ks i w);
}
