-- ===== src/Health/Sort/Degrees.antt =====
-- What `topologicalSort` counts, said without its maps: the dependencies of a check that pass a test.
use mathlib.Core.List.{Memᴰ}
use lumin_acpool.Prelude.{
  beq_refl, ◌⊎◌, inl, inr, Bool-cases, map, ◌∙◌, ℕ, ◌+◌, ◌≤◌, String, Bool, true, false, ◌&&◌, some,
  List, [], ◌∷◌, ◌++◌, Map, get, put, get-put, string_key, if◌then◌else◌, count_if, indicator, ◌==◌,
  arith, ◌≡◌, refl, ap, Unique, put-Unique,
}
use lumin_acpool.Account.{Ext}
use lumin_acpool.Health.Types.{HealthCheck}
use lumin_acpool.Health.Sort.{
  has, degree, followers, Graph, check_map, count_dependencies, enter, build,
}

abbrev pub occurs : String → List String → ℕ
occurs v xs = count_if (λ y. y == v) xs

pub occurs-append :
    (v : String) (xs ys : List String) → occurs v (xs ++ ys) ≡ occurs v xs + occurs v ys
occurs-append v [] ys = omega arith
occurs-append v (x ∷ xs) ys = omega (arith, occurs-append v xs ys)

enter-degree :
    (name v : String) (g : Graph) → degree v (enter name g).in_degree ≡ degree v g.in_degree
enter-degree name v g = ground (arith, get-put name v 0 g.in_degree, string_key.beq_iff name v)

enter-has :
    (name v : String) (g : Graph)
    → has v (enter name g).in_degree ≡ (if name == v then true else has v g.in_degree)
enter-has name v g = ground (arith, get-put name v 0 g.in_degree, string_key.beq_iff name v)

count_if-sum :
    (p q r : String → Bool) (ds : List String)
    → ((d : String) → indicator (p d) ≡ indicator (q d) + indicator (r d))
    → count_if p ds ≡ count_if q ds + count_if r ds
count_if-sum p q r [] h = omega arith
count_if-sum p q r (d ∷ ds) h = omega (arith, h d, count_if-sum p q r ds h)

module _ {x : Ext} {T W : Type 0} where
  abbrev pub named : String → List (HealthCheck x T W) → Bool
  named v [] = false
  named v (c ∷ cs) = if c.name == v then true else named v cs

  -- How many dependencies of the checks of a name pass the test.
  pub entries : (String → Bool) → String → List (HealthCheck x T W) → ℕ
  entries p v [] = 0
  entries p v (c ∷ cs) = (if c.name == v then count_if p c.depends_on else 0) + entries p v cs

  pub has-check_map :
      (v : String) (cs : List (HealthCheck x T W)) (m : Map String (HealthCheck x T W))
      → has v (check_map cs m) ≡ (if named v cs then true else has v m)
  unfolding check_map
  has-check_map v [] m = ground arith
  has-check_map v (c ∷ cs) m =
      ground (arith, has-check_map v cs (put c.name c m), get-put c.name v c m)

  count_dependencies-degree :
      (known : Map String (HealthCheck x T W)) (name v : String) (deps : List String) (g : Graph)
      → degree v (count_dependencies known name deps g).in_degree
        ≡ degree v g.in_degree + (if name == v then count_if (λ d. has d known) deps else 0)
  unfolding count_dependencies
  count_dependencies-degree known name v [] g = ground arith
  count_dependencies-degree known name v (d ∷ deps) g = ground (
    arith,
    count_dependencies-degree known name v deps g,
    count_dependencies-degree known name v deps (record {
      in_degree = put name (degree name g.in_degree + 1) g.in_degree;
      dependents = put d (followers d g.dependents ++ name ∷ []) g.dependents;
    }),
    get-put name v (degree name g.in_degree + 1) g.in_degree,
    string_key.beq_iff name v,
  )

  count_dependencies-followers :
      (known : Map String (HealthCheck x T W)) (name u v : String) (deps : List String) (g : Graph)
      → occurs v (followers u (count_dependencies known name deps g).dependents)
        ≡ occurs v (followers u g.dependents)
          + (if name == v then count_if (λ d. has d known && d == u) deps else 0)
  unfolding count_dependencies
  count_dependencies-followers known name u v [] g = ground arith
  count_dependencies-followers known name u v (d ∷ deps) g = ground (
    arith,
    count_dependencies-followers known name u v deps g,
    count_dependencies-followers known name u v deps (record {
      in_degree = put name (degree name g.in_degree + 1) g.in_degree;
      dependents = put d (followers d g.dependents ++ name ∷ []) g.dependents;
    }),
    get-put d u (followers d g.dependents ++ name ∷ []) g.dependents,
    occurs-append v (followers d g.dependents) (name ∷ []),
    string_key.beq_iff d u,
  )

  count_dependencies-has :
      (known : Map String (HealthCheck x T W)) (name v : String) (deps : List String) (g : Graph)
      → has name g.in_degree ≡ true
      → has v (count_dependencies known name deps g).in_degree ≡ has v g.in_degree
  unfolding count_dependencies
  count_dependencies-has known name v [] g h = refl
  count_dependencies-has known name v (d ∷ deps) g h = ground (
    arith,
    count_dependencies-has known name v deps g,
    count_dependencies-has known name v deps (record {
      in_degree = put name (degree name g.in_degree + 1) g.in_degree;
      dependents = put d (followers d g.dependents ++ name ∷ []) g.dependents;
    }),
    get-put name v (degree name g.in_degree + 1) g.in_degree,
    get-put name name (degree name g.in_degree + 1) g.in_degree,
    string_key.beq_iff name v,
    string_key.beq_iff name name,
  )

  count_dependencies-Unique :
      (known : Map String (HealthCheck x T W)) (name : String) (deps : List String) (g : Graph)
      → Unique g.in_degree
      → Unique (count_dependencies known name deps g).in_degree
  unfolding count_dependencies
  count_dependencies-Unique known name [] g u = u
  count_dependencies-Unique known name (d ∷ deps) g u = ground (
    arith,
    count_dependencies-Unique known name deps g,
    count_dependencies-Unique known name deps (record {
      in_degree = put name (degree name g.in_degree + 1) g.in_degree;
      dependents = put d (followers d g.dependents ++ name ∷ []) g.dependents;
    }),
    put-Unique name (degree name g.in_degree + 1) g.in_degree u,
  )

  -- One check's share of the graph.
  abbrev add_check : Map String (HealthCheck x T W) → HealthCheck x T W → Graph → Graph
  add_check known c g = count_dependencies known c.name c.depends_on (enter c.name g)

  pub build-degree :
      (known : Map String (HealthCheck x T W)) (v : String) (cs : List (HealthCheck x T W))
      (g : Graph)
      → degree v (build known cs g).in_degree
        ≡ degree v g.in_degree + entries (λ d. has d known) v cs
  unfolding build entries
  build-degree known v [] g = omega arith
  build-degree known v (c ∷ cs) g = ground (
    arith,
    build-degree known v cs (add_check known c g),
    count_dependencies-degree known c.name v c.depends_on (enter c.name g),
    enter-degree c.name v g,
  )

  pub build-followers :
      (known : Map String (HealthCheck x T W)) (u v : String) (cs : List (HealthCheck x T W))
      (g : Graph)
      → occurs v (followers u (build known cs g).dependents)
        ≡ occurs v (followers u g.dependents) + entries (λ d. has d known && d == u) v cs
  unfolding build entries
  build-followers known u v [] g = omega arith
  build-followers known u v (c ∷ cs) g = ground (
    arith,
    build-followers known u v cs (add_check known c g),
    count_dependencies-followers known c.name u v c.depends_on (enter c.name g),
  )

  pub build-has :
      (known : Map String (HealthCheck x T W)) (v : String) (cs : List (HealthCheck x T W))
      (g : Graph)
      → has v (build known cs g).in_degree ≡ (if named v cs then true else has v g.in_degree)
  unfolding build
  build-has known v [] g = ground arith
  build-has known v (c ∷ cs) g = ground (
    arith,
    build-has known v cs (add_check known c g),
    count_dependencies-has known c.name v c.depends_on (enter c.name g),
    enter-has c.name v g,
    enter-has c.name c.name g,
    string_key.beq_iff c.name c.name,
  )

  pub build-Unique :
      (known : Map String (HealthCheck x T W)) (cs : List (HealthCheck x T W)) (g : Graph)
      → Unique g.in_degree
      → Unique (build known cs g).in_degree
  unfolding build
  build-Unique known [] g u = u
  build-Unique known (c ∷ cs) g u = ground (
    arith,
    build-Unique known cs (add_check known c g),
    count_dependencies-Unique known c.name c.depends_on (enter c.name g),
    put-Unique c.name 0 g.in_degree u,
  )

  pub has-named :
      (v : String) (cs : List (HealthCheck x T W)) → has v (check_map cs []) ≡ named v cs
  unfolding get
  has-named v cs = ground (arith, has-check_map v cs [])

  pub entries-named :
      (p : String → Bool) (v : String) (l : List (HealthCheck x T W))
      → named v l ≡ false
      → entries p v l ≡ 0
  unfolding entries
  entries-named p v [] h = refl
  entries-named p v (c ∷ l) h = ground (arith, entries-named p v l)

  pub entries-ext :
      (p q : String → Bool) (v : String) (l : List (HealthCheck x T W))
      → ((d : String) → p d ≡ q d)
      → entries p v l ≡ entries q v l
  entries-ext p q v l h = ap (λ (r : String → Bool). entries r v l) (λ i d. h d i)

  pub entries-sum :
      (p q r : String → Bool) (v : String) (l : List (HealthCheck x T W))
      → ((d : String) → indicator (p d) ≡ indicator (q d) + indicator (r d))
      → entries p v l ≡ entries q v l + entries r v l
  unfolding entries
  entries-sum p q r v [] h = omega arith
  entries-sum p q r v (b ∷ l) h =
      ground (arith, entries-sum p q r v l h, count_if-sum p q r b.depends_on h)

  pub entries-none :
      (p : String → Bool) (v : String) (l : List (HealthCheck x T W))
      → ((c : HealthCheck x T W) → Memᴰ c l → c.name ≡ v → count_if p c.depends_on ≡ 0)
      → entries p v l ≡ 0
  unfolding entries
  entries-none p v [] h = refl
  entries-none p v (b ∷ l) h = ground (
    arith,
    h b (Memᴰ.head refl),
    string_key.beq_iff b.name v,
    entries-none p v l (λ c m. h c (Memᴰ.tail m)),
  )

  -- A registered name is that of a check.
  pub named-mem :
      (v : String) (l : List (HealthCheck x T W))
      → named v l ≡ true
      → (c : HealthCheck x T W) × Memᴰ c l × (c.name ≡ v)
  named-mem v [] h = absurd (cc h)
  named-mem v (b ∷ l) h = elim (Bool-cases (b.name == v)) [
    | inl e ↦ (b, Memᴰ.head refl, (string_key.beq_iff b.name v).0 e)
    | inr e ↦ let (c, m, n) = named-mem v l (ground (arith, h, e)) in (c, Memᴰ.tail m, n)
  ]

  pub named-occurs :
      (v : String) (l : List (HealthCheck x T W))
      → indicator (named v l) ≤ occurs v (map (λ c. c.name) l)
  named-occurs v [] = omega arith
  named-occurs v (b ∷ l) = ground (arith, named-occurs v l)

  pub get-check_map :
      (v : String) (l : List (HealthCheck x T W)) (m : Map String (HealthCheck x T W))
      (c : HealthCheck x T W)
      → get v (check_map l m) ≡ some c
      → (Memᴰ c l × (c.name ≡ v)) ⊎ (get v m ≡ some c)
  unfolding check_map
  get-check_map v [] m c h = inr h
  get-check_map v (b ∷ l) m c h = elim (get-check_map v l (put b.name b m) c h) [
    | inl k ↦ inl (Memᴰ.tail k.0, k.1)
    | inr k ↦ elim (Bool-cases (b.name == v)) [
      | inl e ↦
          let same : c ≡ b = ground (arith, k, e, get-put b.name v b m) in
          inl (Memᴰ.head same, ap (λ y. y.name) same ∙ (string_key.beq_iff b.name v).0 e)
      | inr e ↦ inr (ground (arith, k, e, get-put b.name v b m))
    ]
  ]

  pub entries-zero :
      (p : String → Bool) (c : HealthCheck x T W) (l : List (HealthCheck x T W))
      → Memᴰ c l
      → entries p c.name l ≡ 0
      → count_if p c.depends_on ≡ 0
  unfolding entries
  entries-zero p c [] m h = elim m [ ]
  entries-zero p c (b ∷ l) (Memᴰ.head e) h =
      ground (arith, h, ap (λ y. y.name) e, ap (λ y. count_if p y.depends_on) e, beq_refl c.name)
  entries-zero p c (b ∷ l) (Memᴰ.tail m) h = entries-zero p c l m (omega (arith, h))
