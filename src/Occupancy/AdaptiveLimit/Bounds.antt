-- ===== src/Occupancy/AdaptiveLimit/Bounds.antt =====
-- The range of the adaptive limit, and the bound that it puts on the calls in flight.
use lumin_acpool.Prelude.{
  ℕ, String, ℤ, pos, ◌≤ℤ◌, ltb_ℤ, true, false, List, [], ◌∷◌, string_key, arith, ◌≡◌, ◌⊎◌,
  Result-cases, inl, inr, beq_refl, refl, if◌then◌else◌,
}
use lumin_acpool.Account.{Ext, Account, TrackedUsage}
use lumin_acpool.Interfaces.{OccupancyStore, QuotaTracker}
use lumin_acpool.Occupancy.Contract.{Counts}
use lumin_acpool.Guard.Window.{max_int64}
use lumin_acpool.Tracker.{min_ratio_from}
use lumin_acpool.Occupancy.AdaptiveLimit.{
  AdaptiveLimit, Tightest, used_up, least, get_min_limit, get_max_limit, get_fallback_limit,
  get_factor, tightest, compress, clamp, limit_of, calculate_limit, acquire,
}

clamp_bounds :
    (lo hi v : ℤ)
    → (ltb_ℤ (pos 0) hi ≡ false) ⊎ (lo ≤ℤ hi)
    → (lo ≤ℤ clamp lo hi v) × (ltb_ℤ (pos 0) hi ≡ true → clamp lo hi v ≤ℤ hi)
unfolding clamp
clamp_bounds lo hi v (inl h) = (ground (arith, h), λ k. ground (arith, h, k))
clamp_bounds lo hi v (inr h) = (ground (arith, h), λ k. ground (arith, h, k))

module _ {x : Ext} (ad : AdaptiveLimit x) where
  -- The bounds of an account, where they do not cross.
  abbrev pub InBounds : Account x → ℤ → Type 0
  InBounds a limit =
      (get_min_limit ad a ≤ℤ limit)
      × (ltb_ℤ (pos 0) (get_max_limit ad a) ≡ true → limit ≤ℤ get_max_limit ad a)

  min-InBounds :
      (a : Account x)
      → (ltb_ℤ (pos 0) (get_max_limit ad a) ≡ false) ⊎ (get_min_limit ad a ≤ℤ get_max_limit ad a)
      → InBounds a (get_min_limit ad a)
  min-InBounds a (inl h) = (omega arith, λ k. ground (arith, h, k))
  min-InBounds a (inr h) = (omega arith, λ k. h)

  -- Where the account's maximum is not positive, which means none, or not below its minimum, the
  -- limit from its tracked usages is the fallback limit, or it is at least the minimum and, if the
  -- maximum is positive, at most the maximum.
  pub limit_of_bounds :
      (a : Account x) (usages : List (TrackedUsage x)) (now : ℕ)
      → (ltb_ℤ (pos 0) (get_max_limit ad a) ≡ false) ⊎ (get_min_limit ad a ≤ℤ get_max_limit ad a)
      → (limit_of ad a usages now ≡ get_fallback_limit ad a) ⊎ InBounds a (limit_of ad a usages now)
  unfolding limit_of
  limit_of_bounds a [] now h = inl refl
  limit_of_bounds a (u ∷ us) now h =
      by_scan (tightest (get_factor ad a) now (pos max_int64) false (u ∷ us))
    where
      by_scan :
          (t : Tightest)
          → let l : ℤ = elim t [
            | used_up ↦ get_min_limit ad a
            | least best found ↦
                if found
                then clamp
                    (get_min_limit ad a)
                    (get_max_limit ad a)
                    (compress x (min_ratio_from (x.decimal 1 0) (u ∷ us)) best)
                else get_fallback_limit ad a
          ] in
            (l ≡ get_fallback_limit ad a) ⊎ InBounds a l
      by_scan used_up = inr (min-InBounds a h)
      by_scan (least best true) = inr (clamp_bounds _ _ _ h)
      by_scan (least best false) = inl refl

module _ {x : Ext} {W : Type 0} (ad : AdaptiveLimit x) (s : OccupancyStore W)
    (tracker : QuotaTracker x W) (now : W → ℕ) (slots : W → String → ℕ) (c : Counts s slots) where
  -- Over a store that counts, an `Acquire` that succeeds leaves no more calls of the account in flight
  -- than the limit that it calculated.
  pub acquire_bound :
      (a : Account x) (w : W)
      → (acquire ad s tracker now a w).0 ≡ true
      → pos (slots (acquire ad s tracker now a w).1 a.id)
        ≤ℤ (calculate_limit ad s tracker now a w).0
  unfolding acquire
  acquire_bound a w h =
      let w1 = (calculate_limit ad s tracker now a w).1 in
      elim (Result-cases (s.incr_occupancy a.id w1).0) [
        | inl (n, e) ↦
            ground
              (arith, e, h, c.incr_ok a.id w1 n e, c.incr_slots a.id w1 n a.id e, beq_refl a.id)
        | inr (er, e) ↦ absurd (ground (arith, e, h))
      ]
