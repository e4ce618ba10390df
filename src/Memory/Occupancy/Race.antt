-- ===== src/Memory/Occupancy/Race.antt =====
-- storage/memory/occupancy.go with its atomic steps apart: a sync.Map from accounts to counters, and
-- counters that a goroutine may still hold after the map has dropped them. One goroutine acquires a
-- slot of the account `id` by `IncrOccupancy`, and another gives one back by `DecrOccupancy`.
use lumin_acpool.Prelude.{
  ℕ, ◌+◌, ◌-◌, ◌<◌, String, some, none, Map, get, put, del, get-put, get-del, string_key, nat_key,
  arith, ◌≡◌, refl,
}

-- `keys` maps an account to the address of its counter, `counters` an address to its value.
pub record Heap : Type 0 where
  pub keys : Map String ℕ
  pub counters : Map ℕ ℕ

abbrev pub value : ℕ → Heap → ℕ
value p h = elim (get p h.counters) [ some n ↦ n | none ↦ 0 ]

abbrev pub store : ℕ → ℕ → Heap → Heap
store p n h = record h { counters = put p n h.counters }

-- `GetOccupancy`
pub occupancy : String → Heap → ℕ
occupancy id h = elim (get id h.keys) [ some p ↦ value p h | none ↦ 0 ]

-- Where the acquiring goroutine stands; `counted n` has been told the new value.
pub data Acquire : Type 0 where
  idle : Acquire
  loaded : ℕ → Acquire
  counted : ℕ → Acquire

-- Where the releasing goroutine stands; `swapped` has brought the counter to 0, and is about to
-- delete the key.
pub data Release : Type 0 where
  idle : Release
  loaded : ℕ → Release
  swapped : Release
  finished : Release

pub record Goroutines : Type 0 where
  pub heap : Heap
  pub acquire : Acquire
  pub release : Release

-- The atomic steps of the two operations on the account `id`.
pub data Step (id : String) : Goroutines → Goroutines → Type 0 where
  acquire_load :
      (g : Goroutines) (p : ℕ)
      → g.acquire ≡ Acquire.idle
      → get id g.heap.keys ≡ some p
      → Step id g (record g { acquire = Acquire.loaded p })
  acquire_create :
      (g : Goroutines) (p : ℕ)
      → g.acquire ≡ Acquire.idle
      → get id g.heap.keys ≡ none
      → get p g.heap.counters ≡ none
      → Step id g (record g {
        heap = record { keys = put id p g.heap.keys; counters = put p 0 g.heap.counters };
        acquire = Acquire.loaded p;
      })
  acquire_add :
      (g : Goroutines) (p : ℕ)
      → g.acquire ≡ Acquire.loaded p
      → Step id g (record g {
        heap = store p (value p g.heap + 1) g.heap;
        acquire = Acquire.counted (value p g.heap + 1);
      })
  release_load :
      (g : Goroutines) (p : ℕ)
      → g.release ≡ Release.idle
      → get id g.heap.keys ≡ some p
      → Step id g (record g { release = Release.loaded p })
  release_nothing :
      (g : Goroutines) (p : ℕ)
      → g.release ≡ Release.loaded p
      → value p g.heap ≡ 0
      → Step id g (record g { release = Release.finished })
  release_swap :
      (g : Goroutines) (p : ℕ)
      → g.release ≡ Release.loaded p
      → 1 < value p g.heap
      → Step id g
          (record g { heap = store p (value p g.heap - 1) g.heap; release = Release.finished })
  release_swap_last :
      (g : Goroutines) (p : ℕ)
      → g.release ≡ Release.loaded p
      → value p g.heap ≡ 1
      → Step id g (record g { heap = store p 0 g.heap; release = Release.swapped })
  release_delete :
      (g : Goroutines)
      → g.release ≡ Release.swapped
      → Step id g (record g {
        heap = record { keys = del id g.heap.keys; counters = g.heap.counters };
        release = Release.finished;
      })

pub data Reach (id : String) (g : Goroutines) : Goroutines → Type 0 where
  here : Reach id g g
  next : {h k : Goroutines} → Reach id g h → Step id h k → Reach id g k

abbrev pub start : Heap → Goroutines
start h = record { heap = h; acquire = Acquire.idle; release = Release.idle }

-- After both have loaded the counter: the release swaps it to 0, the acquire adds 1, and the release
-- deletes the key.
abbrev pub after_race : String → ℕ → Heap → Goroutines
after_race id p h = record {
  heap = record {
    keys = del id h.keys;
    counters = (store p (value p (store p 0 h) + 1) (store p 0 h)).counters;
  };
  acquire = Acquire.counted (value p (store p 0 h) + 1);
  release = Release.finished;
}

race-Reach :
    (id : String) (p : ℕ) (h : Heap)
    → get id h.keys ≡ some p
    → value p h ≡ 1
    → Reach id (start h) (after_race id p h)
race-Reach id p h k v =
    let s1 = next here (Step.acquire_load (start h) p refl k) in
    let s2 = next s1 (Step.release_load _ p refl k) in
    let s3 = next s2 (Step.release_swap_last _ p refl v) in
    let s4 = next s3 (Step.acquire_add _ p refl) in next s4 (Step.release_delete _ refl)

-- From every heap in which one slot of the account is taken, an acquire and the release of that slot
-- can interleave so that the acquire was told that it holds the only slot, while the store counts
-- none.
pub race_loses_slot :
    (id : String) (p : ℕ) (h : Heap)
    → get id h.keys ≡ some p
    → value p h ≡ 1
    → (g : Goroutines) × Reach id (start h) g
      × (g.acquire ≡ Acquire.counted 1)
      × (g.release ≡ Release.finished)
      × (occupancy id g.heap ≡ 0)
unfolding occupancy
race_loses_slot id p h k v = (
  after_race id p h,
  race-Reach id p h k v,
  ground (arith, get-put p p 0 h.counters),
  refl,
  ground (arith, get-del id id h.keys, string_key.beq_iff id id),
)
