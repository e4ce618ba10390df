-- ===== src/Memory/Occupancy.antt =====
-- storage/memory/occupancy.go: the occupancy counters, each operation run with no other between its
-- steps. A counter is a signed 64-bit number that never falls below 0; it would wrap at 2^63 slots
-- taken at once, and is an unbounded number here. Race has the steps apart.
pub mod Laws
pub mod Race
use lumin_acpool.Prelude.{
  ℕ, ◌+◌, ◌-◌, String, none, some, List, [], ◌∷◌, Map, get, put, del, string_key, nat_beq, leb,
  Result, ok, if◌then◌else◌,
}
use lumin_acpool.Interfaces.{StorageError, OccupancyStore}

abbrev pub Counters : Type 0
Counters = Map String ℕ

-- `loadOrCreateCounter`: the value of the counter, and the map in which it stands.
unfoldable pub load_or_create_counter : String → Counters → ℕ × Counters
load_or_create_counter id m = elim (get id m) [ some n ↦ (n, m) | none ↦ (0, put id 0 m) ]

unfoldable pub incr_occupancy : String → Counters → ℕ × Counters
incr_occupancy id m = let (n, m') = load_or_create_counter id m in (n + 1, put id (n + 1) m')

unfoldable pub decr_occupancy : String → Counters → Counters
decr_occupancy id m =
    let (cur, m') = load_or_create_counter id m in
    if leb cur 0
    then m'
    else if nat_beq (cur - 1) 0
    then del id (put id (cur - 1) m')
    else put id (cur - 1) m'

unfoldable pub get_occupancy : String → Counters → ℕ
get_occupancy id m = elim (get id m) [ some n ↦ n | none ↦ 0 ]

unfoldable pub get_occupancies : List String → Counters → Map String ℕ
get_occupancies [] m = []
get_occupancies (id ∷ ids) m =
    let rest = get_occupancies ids m in elim (get id m) [ some n ↦ put id n rest | none ↦ rest ]

-- The operations as the interface storage.OccupancyStore.
unfoldable pub counters_store : OccupancyStore Counters
counters_store = record {
  incr_occupancy = λ id m. let (n, m') = incr_occupancy id m in (ok n, m');
  decr_occupancy = λ id m. (ok tt, decr_occupancy id m);
  get_occupancies = λ ids m. (ok (get_occupancies ids m), m);
}
