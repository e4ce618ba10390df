-- ===== src/Prelude/Maps.antt =====
-- Go's maps, as association lists: `get` is `m[k]`, `put` is `m[k] = v`, `del` is `delete(m, k)`.
-- A range over a map visits the entries in the order of the list. `Unique` says that no key stands
-- twice, which `put` and `del` keep.
use Prim.Native.Nat.{ℕ, ◌+◌, ◌≤◌}
use mathlib.Core.Path.{◌≡◌, refl}
use mathlib.Core.Bool.{Bool, false}
use mathlib.Core.Option.{Option, none, some}
use mathlib.Core.List.{List, [], ◌∷◌}
use native.Mathlib.Omega.{arith}
use lumin_acpool.Prelude.Lists.{length}
use lumin_acpool.Prelude.Tests.{Key, ◌==◌, if◌then◌else◌, indicator}

abbrev pub Map : Type 0 → Type 0 → Type 0
Map K V = List (K × V)

module _ {K V : Type 0} ⦃e : Key K⦄ where
  unfoldable pub get : K → Map K V → Option V
  get k [] = none
  get k ((j, v) ∷ m) = if j == k then some v else get k m

  unfoldable pub put : K → V → Map K V → Map K V
  put k v [] = (k, v) ∷ []
  put k v ((j, w) ∷ m) = if j == k then (k, v) ∷ m else (j, w) ∷ put k v m

  unfoldable pub del : K → Map K V → Map K V
  del k [] = []
  del k ((j, w) ∷ m) = let rest = del k m in if j == k then rest else (j, w) ∷ rest

  abbrev pub Unique : Map K V → Type 0
  Unique [] = Unit {0}
  Unique ((j, w) ∷ m) = (get j m ≡ none) × Unique m

  unfoldable pub count : (K → V → Bool) → Map K V → ℕ
  count p [] = 0
  count p ((j, w) ∷ m) = indicator (p j w) + count p m

  pub get-put :
      (k j : K) (v : V) (m : Map K V) → get j (put k v m) ≡ (if k == j then some v else get j m)
  unfolding get put
  get-put k j v [] = refl
  get-put k j v ((i, w) ∷ m) =
      ground (arith, e.beq_iff k j, e.beq_iff i k, e.beq_iff i j, get-put k j v m)

  pub get-del : (k j : K) (m : Map K V) → get j (del k m) ≡ (if k == j then none else get j m)
  unfolding get del
  get-del k j [] = ground arith
  get-del k j ((i, w) ∷ m) =
      ground (arith, e.beq_iff k j, e.beq_iff i k, e.beq_iff i j, get-del k j m)

  pub put-Unique : (k : K) (v : V) (m : Map K V) → Unique m → Unique (put k v m)
  unfolding get put
  put-Unique k v [] u = (refl, tt)
  put-Unique k v ((i, w) ∷ m) u =
      ground (arith, e.beq_iff i k, e.beq_iff k i, get-put k i v m, put-Unique k v m u.1)

  pub del-Unique : (k : K) (m : Map K V) → Unique m → Unique (del k m)
  unfolding get del
  del-Unique k [] u = tt
  del-Unique k ((i, w) ∷ m) u = ground (arith, get-del k i m, del-Unique k m u.1)

  -- What a write and a deletion do to the number of entries that pass a test.
  pub count-put :
      (p : K → V → Bool) (k : K) (v : V) (m : Map K V)
      → count p (put k v m) + elim (get k m) [ none ↦ 0 | some old ↦ indicator (p k old) ]
        ≡ count p m + indicator (p k v)
  unfolding get put count
  count-put p k v [] = ground arith
  count-put p k v ((i, w) ∷ m) = ground (arith, e.beq_iff i k, count-put p k v m)

  pub del_absent : (k : K) (m : Map K V) → get k m ≡ none → del k m ≡ m
  unfolding get del
  del_absent k [] h = refl
  del_absent k ((i, w) ∷ m) h = ground (arith, del_absent k m)

  pub count-del :
      (p : K → V → Bool) (k : K) (m : Map K V)
      → Unique m
      → count p (del k m) + elim (get k m) [ none ↦ 0 | some old ↦ indicator (p k old) ] ≡ count p m
  unfolding get del count
  count-del p k [] u = ground arith
  count-del p k ((i, w) ∷ m) u = ground (arith, e.beq_iff i k, del_absent k m, count-del p k m u.1)

  pub get-put_self : (k : K) (v : V) (m : Map K V) → get k (put k v m) ≡ some v
  get-put_self k v m = ground (arith, get-put k k v m, e.beq_iff k k)

  pub get-put_ne : (k j : K) (v : V) (m : Map K V) → (k == j) ≡ false → get j (put k v m) ≡ get j m
  get-put_ne k j v m h = ground (arith, get-put k j v m)

  pub length-put : (k : K) (v : V) (m : Map K V) → length (put k v m) ≤ length m + 1
  unfolding put
  length-put k v [] = omega arith
  length-put k v ((i, w) ∷ m) = ground (arith, length-put k v m)
