-- ===== src/Selector/Rotation/Turns.antt =====
-- The turns of round_robin.go over successive calls.
use native.Mathlib.Nat.{
  mod-lt, mod-eq_of_lt, add-mod-mod, add-mod_left, mul-add-mod_self_left, div-add-mod,
}
use lumin_acpool.Prelude.{
  ℕ, zero, suc, ◌+◌, ◌-◌, ◌/◌, ◌%◌, ◌<◌, some, List, [], ◌∷◌, ok, length, get_elem?, arith, ◌≡◌,
  refl, ap, ◌∙◌, sym, subst,
}
use lumin_acpool.Selector.Rotation.{rotate, word}

-- The call that serves the candidate at `i`.
turn_of : (n counter i : ℕ) → i < n → (counter + (n - counter % n + i) % n) % n ≡ i
turn_of n counter i h =
    add-mod-mod counter (n - counter % n + i) n
    ∙ ap (λ z. z % n) (omega (arith, div-add-mod counter n, mod-lt counter {m = n} (omega arith)))
    ∙ mul-add-mod_self_left n (counter / n) (n + i)
    ∙ add-mod_left n i
    ∙ mod-eq_of_lt h

module _ {A : Type 0} where
  -- The counter after so many calls on the same candidates.
  pub calls : List A → ℕ → ℕ → ℕ
  calls l zero counter = counter
  calls l (suc k) counter = (rotate l (calls l k counter)).1

  calls_counter :
      (c : A) (cs : List A) (k counter : ℕ)
      → counter + k < word
      → calls (c ∷ cs) k counter ≡ counter + k
  unfolding calls rotate
  calls_counter c cs zero counter h = omega arith
  calls_counter c cs (suc k) counter h =
      ap (λ z. (z + 1) % word) (calls_counter c cs k counter (omega arith))
      ∙ mod-eq_of_lt (omega arith)
      ∙ omega arith

  rotate_at :
      (c : A) (cs : List A) (counter : ℕ) (a : A)
      → get_elem? (c ∷ cs) (counter % length (c ∷ cs)) ≡ some a
      → (rotate (c ∷ cs) counter).0 ≡ ok a
  unfolding rotate
  rotate_at c cs counter a h = rw (h, rotate) refl

  -- Among as many successive calls on the same candidates as there are candidates, from a counter
  -- that does not wrap on the way, there is one that returns any given candidate.
  pub rotate_fair :
      (l : List A) (counter i : ℕ) (a : A)
      → counter + length l < word
      → i < length l
      → get_elem? l i ≡ some a
      → (k : ℕ) × (k < length l) × ((rotate l (calls l k counter)).0 ≡ ok a)
  rotate_fair [] counter i a w h e = absurd (omega arith)
  rotate_fair (c ∷ cs) counter i a w h e =
      let n = length (c ∷ cs) in
      let k = (n - counter % n + i) % n in
      (
        k,
        mod-lt (n - counter % n + i) (omega arith),
        rotate_at c cs (calls (c ∷ cs) k counter) a (
            subst (λ z. get_elem? (c ∷ cs) (z % n) ≡ some a)
              (sym (
                calls_counter c cs k counter
                  (omega (arith, mod-lt (n - counter % n + i) {m = n} (omega arith)))))
              (subst (λ z. get_elem? (c ∷ cs) z ≡ some a) (sym (turn_of n counter i h)) e)),
      )
