-- ===== src/Health/Sort/Order.antt =====
-- The order that `topologicalSort` finds, and when it finds one.
use mathlib.Core.List.{Memᴰ}
use lumin_acpool.Prelude.{
  ℕ, zero, suc, ◌≤◌, ◌<◌, String, Bool, true, false, some, List, [], ◌∷◌, get, string_key, nat_beq,
  if◌then◌else◌, arith, ◌≡◌, ◌≢◌, inl, inr, refl, length, ap, count_if, map, All, ok, err, sym, ◌∙◌,
  beq_refl, Option-cases, Bool-cases, subst,
}
use lumin_acpool.Account.{Ext}
use lumin_acpool.Health.Types.{HealthCheck}
use lumin_acpool.Health.Sort.{
  check_map, checks_of, sort_names, topological_sort, circular_dependency, out_of_fuel,
}
use lumin_acpool.Health.Sort.Degrees.{
  occurs, named, entries-none, named-occurs, get-check_map, has-named,
}
use lumin_acpool.Health.Sort.Rounds.{is_open, remaining}
use lumin_acpool.Health.Sort.Drain.{Ordered, Drained, sort_names_total, sort_names-Drained}
use lumin_acpool.Health.Sort.Permute.{length-le, occurs-le}

count_if-none :
    (p : String → Bool) (ds : List String)
    → ((d : String) → Memᴰ d ds → p d ≡ false)
    → count_if p ds ≡ 0
count_if-none p [] h = refl
count_if-none p (d ∷ ds) h =
    ground (arith, h d (Memᴰ.head refl), count_if-none p ds (λ b m. h b (Memᴰ.tail m)))

module _ {x : Ext} {T W : Type 0} where
  -- The names of a list of checks.
  abbrev pub names : List (HealthCheck x T W) → List String
  names l = map (λ c. c.name) l

  length-names : (l : List (HealthCheck x T W)) → length (names l) ≡ length l
  length-names [] = refl
  length-names (c ∷ l) = omega (arith, length-names l)

  pub occurs-named :
      (v : String) (l : List (HealthCheck x T W)) → 1 ≤ occurs v (names l) → named v l ≡ true
  occurs-named v [] h = absurd (omega (arith, h))
  occurs-named v (c ∷ l) h = ground (arith, h, occurs-named v l)

module _ {x : Ext} {T W : Type 0} (cs : List (HealthCheck x T W)) where
  -- `rank` puts each registered dependency of a check below the check.
  abbrev pub Ranked : (String → ℕ) → Type 0
  Ranked rank =
      (c : HealthCheck x T W)
      → Memᴰ c cs
      → (d : String) → Memᴰ d c.depends_on
      → named d cs ≡ true
      → rank d < rank c.name

  module _ (r : List String) (d : Drained cs [] r) where
    ranked_settles :
        (rank : String → ℕ) (ranked : Ranked rank) (k : ℕ) (v : String)
        → rank v < k
        → remaining cs r v ≡ 0
    ranked_settles rank ranked zero v h = absurd (omega arith)
    ranked_settles rank ranked (suc k) v h = entries-none (is_open cs r) v cs λ c m n.
        count_if-none (is_open cs r) c.depends_on λ b dep. elim (Bool-cases (named b cs)) [
          | inr e ↦ ground (arith, e)
          | inl e ↦ ground (
            arith,
            e,
            d.emptied b,
            ranked_settles rank ranked k b (omega (arith, ranked c m b dep e, ap rank n)),
          )
        ]

    drained_le : (v : String) → occurs v r ≤ occurs v (names cs)
    drained_le v = ground (arith, d.emptied v, named-occurs v cs)

    known_name :
        (v : String)
        → 1 ≤ occurs v r
        → (c : HealthCheck x T W) × (get v (check_map cs []) ≡ some c) × Memᴰ c cs × (c.name ≡ v)
    unfolding get
    known_name v h = elim (Option-cases (get v (check_map cs []))) [
      | inl e ↦ absurd (ground (arith, e, has-named v cs, d.emptied v, h))
      | inr (c, e) ↦ elim (get-check_map v cs [] c e) [
        | inl k ↦ (c, e, k.0, k.1)
        | inr k ↦ absurd (cc k)
      ]
    ]

    checks_of-names :
        (l : List String)
        → ((v : String) → 1 ≤ occurs v l → 1 ≤ occurs v r)
        → names (checks_of (check_map cs []) l) ≡ l
    unfolding checks_of
    checks_of-names [] h = refl
    checks_of-names (v ∷ l) h =
        let (c, e, m, n) = known_name v (h v (ground (arith, beq_refl v))) in
        let rest = checks_of-names l (λ u k. h u (ground (arith, k))) in
        rw (e, checks_of) (ground (arith, n, rest))

    checks_of-mem :
        (l : List String)
        → ((v : String) → 1 ≤ occurs v l → 1 ≤ occurs v r)
        → All (λ c. Memᴰ c cs) (checks_of (check_map cs []) l)
    unfolding checks_of
    checks_of-mem [] h = tt
    checks_of-mem (v ∷ l) h =
        let (c, e, m, n) = known_name v (h v (ground (arith, beq_refl v))) in
        rw (e, checks_of, All) (m, checks_of-mem l (λ u k. h u (ground (arith, k))))

  sorted_lem :
      (r : List String)
      → sort_names cs ≡ some r
      → topological_sort cs ≡ (
          if nat_beq (length r) (length cs)
          then ok (checks_of (check_map cs []) r)
          else err circular_dependency)
  unfolding topological_sort
  sorted_lem r e = rw (e, topological_sort) refl

  -- The loop of `topologicalSort` ends within the rounds that it is given, one more than the checks.
  pub topological_sort_ends : topological_sort cs ≢ err out_of_fuel
  unfolding topological_sort
  topological_sort_ends h = let (r, e) = sort_names_total cs in ground (arith, h, e)

  -- Where `topologicalSort` returns a list of checks, each check of the list was among those given,
  -- each name occurs in it as often as among those given, and each check stands behind all of its
  -- dependencies that were given.
  pub topological_sort_order :
      (l : List (HealthCheck x T W))
      → topological_sort cs ≡ ok l
      → All (λ c. Memᴰ c cs) l
        × ((v : String) → occurs v (names l) ≡ occurs v (names cs))
        × Ordered cs [] (names l)
  topological_sort_order l h =
      let (r, e) = sort_names_total cs in
      let d = sort_names-Drained cs r e in
      let same : checks_of (check_map cs []) r ≡ l = ground (arith, h, sorted_lem r e) in
      let full : length r ≡ length cs = ground (arith, h, sorted_lem r e) in
      let as_names' : r ≡ names l = sym (checks_of-names r d r (λ v k. k)) ∙ ap names same in
      let all = occurs-le r (names cs) (drained_le r d) (omega (arith, full, length-names cs)) in
      (
        subst (All (λ c. Memᴰ c cs)) same (checks_of-mem r d r (λ v k. k)),
        λ v.
            subst (λ y. occurs v y ≡ occurs v (names cs)) as_names'
              (omega (arith, drained_le r d v, all v)),
        subst (Ordered cs []) as_names' (subst (Ordered cs []) (sym d.joined) d.ordered),
      )

  -- Of checks with different names whose dependencies have no cycle, as a rank that falls along each
  -- dependency shows, `topologicalSort` returns a list.
  pub topological_sort_total :
      (rank : String → ℕ)
      → ((v : String) → occurs v (names cs) ≤ 1)
      → Ranked rank
      → (l : List (HealthCheck x T W)) × (topological_sort cs ≡ ok l)
  topological_sort_total rank distinct ranked =
      let (r, e) = sort_names_total cs in
      let d = sort_names-Drained cs r e in
      (
        checks_of (check_map cs []) r,
        ground (
          arith,
          sorted_lem r e,
          length-names cs,
          length-le r (names cs) (drained_le r d),
          length-le (names cs) r (λ v. ground (
            arith,
            distinct v,
            occurs-named v cs,
            d.emptied v,
            ranked_settles r d rank ranked (suc (rank v)) v (omega arith),
          )),
        ),
      )
