-- ===== src/Health/Sort/Permute.antt =====
-- Lists of names compared by how often a name occurs in each.
use lumin_acpool.Prelude.{
  ltb, ◌+◌, ◌-◌, ◌≤◌, String, List, [], ◌∷◌, ◌==◌, string_key, if◌then◌else◌, indicator, length,
  arith, ◌≡◌, beq_refl, Bool-cases, inl, inr,
}
use lumin_acpool.Health.Sort.Degrees.{occurs}

erase : String → List String → List String
erase x [] = []
erase x (y ∷ ys) = if y == x then ys else y ∷ erase x ys

occurs-erase :
    (x v : String) (ys : List String) → occurs v (erase x ys) ≡ occurs v ys - indicator (x == v)
unfolding erase
occurs-erase x v [] = ground arith
occurs-erase x v (y ∷ ys) = ground (
  arith,
  occurs-erase x v ys,
  string_key.beq_iff y x,
  string_key.beq_iff x v,
  string_key.beq_iff y v,
)

length-erase :
    (x : String) (ys : List String) → 1 ≤ occurs x ys → length (erase x ys) + 1 ≡ length ys
unfolding erase
length-erase x [] h = absurd (omega (arith, h))
length-erase x (y ∷ ys) h = ground (arith, length-erase x ys)

pub length-le :
    (xs ys : List String) → ((v : String) → occurs v xs ≤ occurs v ys) → length xs ≤ length ys
length-le [] ys h = omega arith
length-le (x ∷ xs) ys h = ground (
  arith,
  h x,
  beq_refl x,
  length-erase x ys,
  length-le xs (erase x ys) (λ v. ground (arith, h v, occurs-erase x v ys)),
)

-- With no fewer names, nothing of the other list is left out.
pub occurs-le :
    (xs ys : List String)
    → ((v : String) → occurs v xs ≤ occurs v ys)
    → length ys ≤ length xs
    → (v : String) → occurs v ys ≤ occurs v xs
occurs-le xs ys h l v = elim (Bool-cases (ltb (occurs v xs) (occurs v ys))) [
  | inl p ↦ absurd (
      omega (
        arith,
        l,
        length-le (v ∷ xs) ys (λ u. ground (arith, h u, h v, p, string_key.beq_iff v u)),
      ))
  | inr p ↦ ground (arith, p)
]
