-- ===== src/Prelude/Lists.antt =====
-- Lists measured by the native numbers, Boolean filters, and membership as a recursive predicate.
use Prim.Native.Nat.{ℕ, zero, suc, ◌+◌, ◌≤◌, ◌<◌}
use mathlib.Core.Path.{◌≡◌, refl, sym, subst, ap}
use mathlib.Core.Logic.{◌⊎◌, inl, inr}
use mathlib.Core.List.{List, [], ◌∷◌, ◌++◌, Memᴰ}
use mathlib.Core.Option.{Option, none, some}
use mathlib.Core.Bool.{Bool, true, false}
use native.Mathlib.Omega.{arith}
use lumin_acpool.Prelude.Tests.{if◌then◌else◌, indicator, Bool-cases}

module _ {ℓ} {A : Type ℓ} where
  abbrev pub length : List A → ℕ
  length [] = 0
  length (x ∷ xs) = suc (length xs)

  abbrev pub get_elem? : List A → ℕ → Option A
  get_elem? [] i = none
  get_elem? (x ∷ xs) zero = some x
  get_elem? (x ∷ xs) (suc i) = get_elem? xs i

  -- A write out of bounds changes nothing.
  abbrev pub set : List A → ℕ → A → List A
  set [] i v = []
  set (x ∷ xs) zero v = v ∷ xs
  set (x ∷ xs) (suc i) v = x ∷ set xs i v

  pub length-append : (xs ys : List A) → length (xs ++ ys) ≡ length xs + length ys
  length-append [] ys = omega arith
  length-append (x ∷ xs) ys = omega (arith, length-append xs ys)

  -- The elements that pass a test, in order.
  abbrev pub keep : (A → Bool) → List A → List A
  keep p [] = []
  keep p (x ∷ xs) = let rest = keep p xs in if p x then x ∷ rest else rest

  abbrev pub count_if : (A → Bool) → List A → ℕ
  count_if p [] = 0
  count_if p (x ∷ xs) = indicator (p x) + count_if p xs

  pub length-keep-le : (p : A → Bool) (xs : List A) → length (keep p xs) ≤ length xs
  length-keep-le p [] = omega arith
  length-keep-le p (x ∷ xs) = ground (arith, length-keep-le p xs)

module _ {ℓ κ} {A : Type ℓ} where
  -- Every element satisfies the predicate.
  abbrev pub All : (A → Type κ) → List A → Type κ
  All P [] = Unit
  All P (x ∷ xs) = P x × All P xs

  pub All-mem : (P : A → Type κ) {a : A} (xs : List A) → All P xs → Memᴰ a xs → P a
  All-mem P [] h m = elim m [ ]
  All-mem P (x ∷ xs) h (Memᴰ.head e) = subst P (sym e) h.0
  All-mem P (x ∷ xs) h (Memᴰ.tail m) = All-mem P xs h.1 m

  pub All-of_mem : {P : A → Type κ} (xs : List A) → ((a : A) → Memᴰ a xs → P a) → All P xs
  All-of_mem [] h = tt
  All-of_mem (x ∷ xs) h = (h x (Memᴰ.head refl), All-of_mem xs (λ a m. h a (Memᴰ.tail m)))

  pub All-keep : (P : A → Type κ) (p : A → Bool) (xs : List A) → All P xs → All P (keep p xs)
  All-keep P p [] h = tt
  All-keep P p (x ∷ xs) h = elim (Bool-cases (p x)) [
    | inl e ↦ rw e (h.0, All-keep P p xs h.1)
    | inr e ↦ rw e (All-keep P p xs h.1)
  ]

module _ {ℓ} {A : Type ℓ} where
  mem-keep_if :
      (b : Bool) {a : A} (p : A → Bool) (x : A) (xs : List A)
      → p x ≡ b
      → (Memᴰ a (keep p xs) → (p a ≡ true) × Memᴰ a xs)
      → Memᴰ a (if b then x ∷ keep p xs else keep p xs)
      → (p a ≡ true) × Memᴰ a (x ∷ xs)
  mem-keep_if true p x xs e f (Memᴰ.head q) = (subst (λ y. p y ≡ true) (sym q) e, Memᴰ.head q)
  mem-keep_if true p x xs e f (Memᴰ.tail m) = ((f m).0, Memᴰ.tail (f m).1)
  mem-keep_if false p x xs e f m = ((f m).0, Memᴰ.tail (f m).1)

  pub mem-keep :
      {a : A} (p : A → Bool) (xs : List A) → Memᴰ a (keep p xs) → (p a ≡ true) × Memᴰ a xs
  mem-keep p [] m = elim m [ ]
  mem-keep p (x ∷ xs) m = mem-keep_if (p x) p x xs refl (mem-keep p xs) m

  -- A stricter test passes fewer elements.
  pub count_if_mono :
      (q p : A → Bool) (xs : List A)
      → ((y : A) → q y ≡ true → p y ≡ true)
      → count_if q xs ≤ count_if p xs
  count_if_mono q p [] h = omega arith
  count_if_mono q p (x ∷ xs) h = ground (arith, h x, count_if_mono q p xs h)

  pub count_if-lt :
      (q p : A → Bool) {a : A} (xs : List A)
      → ((y : A) → q y ≡ true → p y ≡ true)
      → p a ≡ true
      → q a ≡ false
      → Memᴰ a xs
      → count_if q xs < count_if p xs
  count_if-lt q p [] h pa qa m = elim m [ ]
  count_if-lt q p (x ∷ xs) h pa qa (Memᴰ.head e) =
      ground
        (arith, subst (λ y. p y ≡ true) e pa, subst (λ y. q y ≡ false) e qa, count_if_mono q p xs h)
  count_if-lt q p (x ∷ xs) h pa qa (Memᴰ.tail m) = ground (arith, h x, count_if-lt q p xs h pa qa m)

  pub keep-true : (xs : List A) → keep (λ _. true) xs ≡ xs
  keep-true [] = refl
  keep-true (x ∷ xs) = ap (◌∷◌ x) (keep-true xs)

  pub List-cases : (l : List A) → (l ≡ []) ⊎ ((a : A) × (r : List A) × (l ≡ a ∷ r))
  List-cases [] = inl refl
  List-cases (a ∷ r) = inr (a, r, refl)

module _ {ℓ} {A : Type ℓ} where
  -- An entry that is put in front of a list if a test holds.
  pub mem-if :
      (b : Bool) {a : A} (q : A) (l : List A)
      → Memᴰ a (if b then q ∷ l else l)
      → ((b ≡ true) × (a ≡ q)) ⊎ Memᴰ a l
  mem-if true q l (Memᴰ.head e) = inl (refl, e)
  mem-if true q l (Memᴰ.tail m) = inr m
  mem-if false q l m = inr m

  pub if-mem : (b : Bool) {a : A} (q : A) (l : List A) → Memᴰ a l → Memᴰ a (if b then q ∷ l else l)
  if-mem true q l m = Memᴰ.tail m
  if-mem false q l m = m

  pub mem-none : (l : List A) (a : A) (B : Type 0) → l ≡ [] → Memᴰ a l → B
  mem-none l a B e h = elim (subst (Memᴰ a) e h) [ ]
