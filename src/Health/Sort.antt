-- ===== src/Health/Sort.antt =====
-- health/default_checker.go, topologicalSort: Kahn's algorithm over the names of the checks.
pub mod Degrees
pub mod Settle
pub mod Rounds
pub mod Permute
pub mod Drain
pub mod Order
use lumin_acpool.Prelude.{
  ℕ, zero, suc, ◌+◌, ◌-◌, String, Bool, true, false, Option, none, some, List, [], ◌∷◌, ◌++◌, Map,
  get, put, string_key, nat_beq, Result, ok, err, if◌then◌else◌, length,
}
use lumin_acpool.Account.{Ext}
use lumin_acpool.Health.Types.{HealthCheck}

abbrev pub has : {V : Type 0} → String → Map String V → Bool
has k m = elim (get k m) [ none ↦ false | some _ ↦ true ]

-- `inDegree[name]` and `dependents[dep]`, where a missing key reads as 0 and as nil.
abbrev pub degree : String → Map String ℕ → ℕ
degree k m = elim (get k m) [ none ↦ 0 | some n ↦ n ]

abbrev pub followers : String → Map String (List String) → List String
followers k m = elim (get k m) [ none ↦ [] | some l ↦ l ]

pub record Graph : Type 0 where
  pub in_degree : Map String ℕ
  pub dependents : Map String (List String)

pub data SortError : Type 0 where
  circular_dependency out_of_fuel : SortError

-- The names in `inDegree` whose degree is 0.
unfoldable pub sources : Map String ℕ → List String
sources [] = []
sources ((name, n) ∷ m) = let rest = sources m in if nat_beq n 0 then name ∷ rest else rest

pub record Frontier : Type 0 where
  pub in_degree : Map String ℕ
  pub queue : List String

-- The inner loop over `dependents[current]`. A degree that is 0 stays 0, where Go's goes below it;
-- it does not become 0 in either.
unfoldable pub settle : List String → Frontier → Frontier
settle [] f = f
settle (next ∷ rest) f =
    let n = degree next f.in_degree in
    settle rest (record {
      in_degree = put next (n - 1) f.in_degree;
      queue = if nat_beq n 1 then f.queue ++ next ∷ [] else f.queue;
    })

-- `for len(queue) > 0`; the result is the names in the order of `sorted`.
unfoldable pub drain : ℕ → Map String (List String) → Frontier → List String → Option (List String)
drain zero deps f sorted = none
drain (suc fuel) deps f sorted = elim f.queue [
  | [] ↦ some sorted
  | current ∷ rest ↦
      drain fuel deps (settle (followers current deps) (record f { queue = rest }))
        (sorted ++ current ∷ [])
]

abbrev pub enter : String → Graph → Graph
enter name g = if has name g.in_degree then g else record g { in_degree = put name 0 g.in_degree }

module _ {x : Ext} {T W : Type 0} where
  unfoldable pub check_map :
      List (HealthCheck x T W) → Map String (HealthCheck x T W) → Map String (HealthCheck x T W)
  check_map [] m = m
  check_map (c ∷ cs) m = check_map cs (put c.name c m)

  -- The loop over `DependsOn`, which counts the dependencies that are registered.
  unfoldable pub count_dependencies :
      Map String (HealthCheck x T W) → String → List String → Graph → Graph
  count_dependencies known name [] g = g
  count_dependencies known name (dep ∷ deps) g = count_dependencies known name deps (
      if has dep known
      then record {
        in_degree = put name (degree name g.in_degree + 1) g.in_degree;
        dependents = put dep (followers dep g.dependents ++ name ∷ []) g.dependents;
      }
      else g)

  unfoldable pub build : Map String (HealthCheck x T W) → List (HealthCheck x T W) → Graph → Graph
  build known [] g = g
  build known (c ∷ cs) g =
      build known cs (count_dependencies known c.name c.depends_on (enter c.name g))

  -- `checkMap[current]` for each name of the order.
  unfoldable pub checks_of : Map String (HealthCheck x T W) → List String → List (HealthCheck x T W)
  checks_of known [] = []
  checks_of known (name ∷ names) =
      let rest = checks_of known names in elim (get name known) [ none ↦ rest | some c ↦ c ∷ rest ]

  abbrev pub sort_names : List (HealthCheck x T W) → Option (List String)
  sort_names checks =
      let g = build (check_map checks []) checks (record { in_degree = []; dependents = [] }) in
      drain (suc (length checks)) g.dependents
        (record { in_degree = g.in_degree; queue = sources g.in_degree }) []

  unfoldable pub topological_sort :
      List (HealthCheck x T W) → Result SortError (List (HealthCheck x T W))
  topological_sort checks = elim (sort_names checks) [
    | none ↦ err out_of_fuel
    | some sorted ↦
        if nat_beq (length sorted) (length checks)
        then ok (checks_of (check_map checks []) sorted)
        else err circular_dependency
  ]
