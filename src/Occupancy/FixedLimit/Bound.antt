-- ===== src/Occupancy/FixedLimit/Bound.antt =====
-- The bound that `FixedLimit` keeps, and the contract that it offers to the balancer.
use lumin_acpool.Prelude.{
  ℕ, ◌+◌, String, pos, ◌≤ℤ◌, ltb_ℤ, true, false, List, [], ◌∷◌, Map, ok, keep, map, ◌==◌,
  string_key, indicator, arith, ◌≡◌, Result-cases, Bool-cases, if◌then◌else◌, inl, inr, beq_refl,
  ap, subst, mem-keep, ◌∙◌,
}
use mathlib.Core.List.{Memᴰ}
use lumin_acpool.Account.{Ext, Account, contains}
use lumin_acpool.Interfaces.{OccupancyStore}
use lumin_acpool.Occupancy.Contract.{Counts}
use lumin_acpool.Occupancy.FixedLimit.{FixedLimit, get_limit, filter_available, acquire, has_room}

module _ {x : Ext} {W : Type 0} (f : FixedLimit) (s : OccupancyStore W) (slots : W → String → ℕ)
    (c : Counts s slots) where
  -- Over a store that counts, `Acquire` succeeds only below the limit; it then takes one slot of
  -- the account, which stays within the limit, and no other slot.
  pub acquire_true :
      (a : Account x) (w : W) (i : String)
      → (acquire f s a w).0 ≡ true
      → (slots (acquire f s a w).1 i ≡ slots w i + indicator (a.id == i))
        × (pos (slots (acquire f s a w).1 a.id) ≤ℤ get_limit f a)
  unfolding acquire
  acquire_true a w i h = elim (Result-cases (s.incr_occupancy a.id w).0) [
    | inl (n, e) ↦ ground (
      arith,
      e,
      c.incr_ok a.id w n e,
      c.incr_slots a.id w n i e,
      c.incr_slots a.id w n a.id e,
      beq_refl a.id,
    )
    | inr (er, e) ↦ absurd (ground (arith, e))
  ]

  -- Over a store that counts, a failing `Acquire` leaves every count as it was.
  pub acquire_false :
      (a : Account x) (w : W) (i : String)
      → (acquire f s a w).0 ≡ false
      → slots (acquire f s a w).1 i ≡ slots w i
  unfolding acquire
  acquire_false a w i h = elim (Result-cases (s.incr_occupancy a.id w).0) [
    | inl (n, e) ↦
        ground
          (arith, e, c.incr_slots a.id w n i e, c.decr_slots a.id (s.incr_occupancy a.id w).1 i)
    | inr (er, e) ↦ ground (arith, e, c.incr_err a.id w er i e)
  ]

  -- Over a store that counts, where its increment does not fail, `Acquire` succeeds exactly when
  -- the account has fewer calls in flight than its limit.
  pub acquire_exact :
      (a : Account x) (w : W) (n : ℕ)
      → (s.incr_occupancy a.id w).0 ≡ ok n
      → (acquire f s a w).0 ≡ ltb_ℤ (pos (slots w a.id)) (get_limit f a)
  unfolding acquire
  acquire_exact a w n e = ground (arith, e, c.incr_ok a.id w n e)

  -- Over a store that counts, where its increment does not fail, `Acquire` succeeds exactly when the
  -- account has fewer calls in flight than its limit. It then takes one slot of the account, which
  -- stays within the limit, and no other slot; when it fails, it leaves every count as it was.
  pub acquire_counts :
      (a : Account x) (w : W) (n : ℕ)
      → (s.incr_occupancy a.id w).0 ≡ ok n
      → ((acquire f s a w).0 ≡ ltb_ℤ (pos (slots w a.id)) (get_limit f a))
        × ((i : String)
            → slots (acquire f s a w).1 i
              ≡ slots w i + (if (acquire f s a w).0 then indicator (a.id == i) else 0))
        × ((acquire f s a w).0 ≡ true → pos (slots (acquire f s a w).1 a.id) ≤ℤ get_limit f a)
  acquire_counts a w n e = (
    acquire_exact a w n e,
    λ i. elim (Bool-cases (acquire f s a w).0) [
      | inl h ↦
          omega
            (arith, (acquire_true a w i h).0, ap (λ b. if b then indicator (a.id == i) else 0) h)
      | inr h ↦
          omega (arith, acquire_false a w i h, ap (λ b. if b then indicator (a.id == i) else 0) h)
    ],
    λ h. (acquire_true a w a.id h).1,
  )

  ids-contain :
      (a : Account x) (l : List (Account x)) → Memᴰ a l → contains (map (λ y. y.id) l) a.id ≡ true
  ids-contain a [] m = elim m [ ]
  ids-contain a (y ∷ l) (Memᴰ.head e) = ground (arith, ap (λ z. z.id) e, beq_refl a.id)
  ids-contain a (y ∷ l) (Memᴰ.tail m) = ground (arith, ids-contain a l m)

  kept-below :
      (a : Account x) (l : List (Account x)) (w : W) (m : Map String ℕ)
      → (s.get_occupancies (map (λ y. y.id) l) w).0 ≡ ok m
      → Memᴰ a (keep (has_room f s m) l)
      → ltb_ℤ (pos (slots w a.id)) (get_limit f a) ≡ true
  kept-below a l w m e k =
      let (room, listed) = mem-keep (has_room f s m) l k in
      ground (arith, c.get_ok (map (λ y. y.id) l) w m a.id e (ids-contain a l listed))

  filter_available_ok :
      (y : Account x) (l : List (Account x)) (w : W) (m : Map String ℕ)
      → (s.get_occupancies (map (λ z. z.id) (y ∷ l)) w).0 ≡ ok m
      → (filter_available f s (y ∷ l) w).0 ≡ keep (has_room f s m) (y ∷ l)
  unfolding filter_available
  filter_available_ok y l w m e = rw (e, filter_available)

  -- An account that `FilterAvailable` lets through, by counts that it could read from a store that
  -- counts, gets a slot by `Acquire` in that state, if the store's increment does not fail.
  pub filter_available-acquire :
      (a : Account x) (l : List (Account x)) (w : W) (m : Map String ℕ) (n : ℕ)
      → (s.get_occupancies (map (λ y. y.id) l) w).0 ≡ ok m
      → (s.incr_occupancy a.id w).0 ≡ ok n
      → Memᴰ a (filter_available f s l w).0
      → (acquire f s a w).0 ≡ true
  unfolding filter_available
  filter_available-acquire a [] w m n e k h = elim h [ ]
  filter_available-acquire a (y ∷ l) w m n e k h =
      acquire_exact a w n k
      ∙ kept-below a (y ∷ l) w m e (subst (Memᴰ a) (filter_available_ok y l w m e) h)

  -- `FilterAvailable` invents no account.
  pub filter_available-mem :
      (l : List (Account x)) (w : W) (a : Account x)
      → Memᴰ a (filter_available f s l w).0
      → Memᴰ a l
  unfolding filter_available
  filter_available-mem [] w a m = m
  filter_available-mem (y ∷ l) w a m =
      elim (Result-cases (s.get_occupancies (map (λ z. z.id) (y ∷ l)) w).0) [
        | inl (o, e) ↦
            (mem-keep (has_room f s o) (y ∷ l) (subst (Memᴰ a) (filter_available_ok y l w o e) m)).1
        | inr (er, e) ↦ rw (e, filter_available) at m
      ]
