-- ===== src/Selector/Weighted/Share.antt =====
-- The share of the draws that each candidate of weighted.go has.
use lumin_acpool.Prelude.{ℕ, ◌+◌, ◌<◌, ℤ, List, [], ◌∷◌, ◌++◌, ok, arith, ◌≡◌, refl, ap}
use lumin_acpool.Selector.Weighted.{weight, total_weight, draw, weighted}

module _ {A : Type 0} (raw : A → ℤ) where
  draw-share :
      (last : A) (before : List A) (a : A) (after : List A) (cumulative k r : ℕ)
      → k < weight (raw a)
      → r ≡ cumulative + total_weight raw before + k
      → draw raw last (before ++ a ∷ after) cumulative r ≡ a
  unfolding draw total_weight
  draw-share last [] a after cumulative k r h e = ground arith
  draw-share last (b ∷ before) a after cumulative k r h e =
      ground (arith, draw-share b before a after (cumulative + weight (raw b)) k r h)

  -- Of the draws below the total weight, each candidate has its own stretch, as long as its weight,
  -- after those of the candidates before it: the choice is in proportion to the weights.
  pub weighted_share :
      (before : List A) (a : A) (after : List A) (k : ℕ)
      → k < weight (raw a)
      → weighted raw (before ++ a ∷ after) (total_weight raw before + k) ≡ ok a
  unfolding weighted
  weighted_share [] a [] k h = refl
  weighted_share [] a (c ∷ after) k h = ap ok (draw-share a [] a (c ∷ after) 0 k _ h (omega arith))
  weighted_share (b ∷ []) a after k h = ap ok (draw-share b (b ∷ []) a after 0 k _ h (omega arith))
  weighted_share (b ∷ c ∷ before) a after k h =
      ap ok (draw-share b (b ∷ c ∷ before) a after 0 k _ h (omega arith))
