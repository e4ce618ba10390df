-- ===== src/Selector/Affinity/Sticky.antt =====
-- Successive choices of affinity.go for one user, and the bound of the bindings.
use lumin_acpool.Prelude.{
  ◌≤◌, ◌<◌, length, length-put, String, false, some, List, [], ◌∷◌, get-put_self, string_key,
  Result, ok, ◌==◌, arith, ◌≡◌, refl, Bool-cases, ap, inl, inr,
}
use mathlib.Core.List.{Memᴰ}
use lumin_acpool.Interfaces.{SelectorError, SelectRequest}
use lumin_acpool.Selector.Affinity.{
  Bindings, get_affinity, set_affinity, build_affinity_key, find_bound, choose_and_bind,
  select_bound,
}

get_affinity-set_affinity :
    (key target : String) (b : Bindings)
    → get_affinity key (set_affinity key target b) ≡ some target
unfolding get_affinity set_affinity
get_affinity-set_affinity key target b = get-put_self key target _

module _ {A : Type 0} (name : A → String) where
  find_bound-name :
      (target : String) (l : List A) (a : A) → find_bound name target l ≡ some a → name a ≡ target
  unfolding find_bound
  find_bound-name target [] a h = absurd (ground arith)
  find_bound-name target (c ∷ l) a h =
      ground (arith, string_key.beq_iff (name c) target, find_bound-name target l a)

  find_bound_mem :
      (target : String) (l : List A) (c : A)
      → Memᴰ c l
      → name c ≡ target
      → (b : A) × (find_bound name target l ≡ some b)
  unfolding find_bound
  find_bound_mem target [] c m h = elim m [ ]
  find_bound_mem target (d ∷ l) c (Memᴰ.head e) n =
      (d, ground (arith, string_key.beq_iff (name d) target, ap name e))
  find_bound_mem target (d ∷ l) c (Memᴰ.tail m) n = elim (Bool-cases (name d == target)) [
    | inl e ↦ (d, rw e refl)
    | inr e ↦ let (b, q) = find_bound_mem target l c m n in (b, rw e q)
  ]

module _ {A F : Type 0} (name : A → String)
    (fallback : List A → SelectRequest → F → Result SelectorError A × F) where
  choose_and_bind-get_affinity :
      (l : List A) (req : SelectRequest) (s : Bindings × F) (a : A)
      → (choose_and_bind name fallback l req s).0 ≡ ok a
      → get_affinity
          (build_affinity_key req.user_id req.model)
          (choose_and_bind name fallback l req s).1.0
        ≡ some (name a)
  unfolding choose_and_bind
  choose_and_bind-get_affinity l req (b, f) a h = grind (arith, get_affinity-set_affinity)

  select_bound-get_affinity :
      (l : List A) (req : SelectRequest) (s : Bindings × F) (a : A)
      → (req.user_id == "") ≡ false
      → (select_bound name fallback l req s).0 ≡ ok a
      → get_affinity
          (build_affinity_key req.user_id req.model)
          (select_bound name fallback l req s).1.0
        ≡ some (name a)
  unfolding select_bound
  select_bound-get_affinity [] req s a u h = absurd (ground arith)
  select_bound-get_affinity (c ∷ cs) req (b, f) a u h =
      grind (arith, choose_and_bind-get_affinity, find_bound-name name)

  select_bound_hit :
      (d : A) (ds : List A) (req : SelectRequest) (s : Bindings × F) (target : String) (b : A)
      → (req.user_id == "") ≡ false
      → get_affinity (build_affinity_key req.user_id req.model) s.0 ≡ some target
      → find_bound name target (d ∷ ds) ≡ some b
      → (select_bound name fallback (d ∷ ds) req s).0 ≡ ok b
  unfolding select_bound
  select_bound_hit d ds req (t, f) target b u g q = grind arith

  -- After a choice for a user that is named and a model, the next choice for the same user and
  -- model, if it has a candidate of the name that was chosen, is a candidate of that name, whatever
  -- the fallback would choose.
  pub select_bound_sticky :
      (l l' : List A) (req req' : SelectRequest) (s : Bindings × F) (a c : A)
      → (req.user_id == "") ≡ false
      → req'.user_id ≡ req.user_id
      → req'.model ≡ req.model
      → (select_bound name fallback l req s).0 ≡ ok a
      → Memᴰ c l'
      → name c ≡ name a
      → (b : A) × ((select_bound name fallback l' req' (select_bound name fallback l req s).1).0
          ≡ ok b)
        × (name b ≡ name a)
  select_bound_sticky l [] req req' s a c u su sm h m n = elim m [ ]
  select_bound_sticky l (d ∷ ds) req req' s a c u su sm h m n =
      let (b, q) = find_bound_mem name (name a) (d ∷ ds) c m n in
      (
        b,
        select_bound_hit d ds req' _ (name a) b (rw su u)
            (rw (su, sm) (select_bound-get_affinity l req s a u h)) q,
        find_bound-name name (name a) (d ∷ ds) b q,
      )

-- With a positive bound, bindings within it stay within it by a write, and the binding just written
-- is there.
pub set_affinity_bound :
    (key target : String) (b : Bindings)
    → 0 < b.max_entries
    → length b.bindings ≤ b.max_entries
    → (length (set_affinity key target b).bindings ≤ b.max_entries)
      × (get_affinity key (set_affinity key target b) ≡ some target)
unfolding set_affinity
set_affinity_bound key target b h i = (
  ground (arith, length-put key target [], length-put key target b.bindings),
  get_affinity-set_affinity key target b,
)
