-- ===== src/Health/Checker/Registry.antt =====
-- What registration keeps: the schedules stand under the names of their checks, and the cached order
-- is that of the enabled checks.
use mathlib.Core.List.{Memᴰ}
use lumin_acpool.Prelude.{
  ℕ, ◌+◌, ◌≤◌, String, Bool, false, none, some, List, [], ◌∷◌, ◌++◌, Map, get, put, del, get-put,
  get-del, put-Unique, del-Unique, Unique, string_key, ok, arith, ◌≡◌, refl, ap, inl, inr,
  Option-cases, Result-cases, List-cases, beq_refl, subst, All, count_if,
}
use lumin_acpool.Account.{Ext, Account}
use lumin_acpool.Health.Types.{HealthCheck, HealthReport}
use lumin_acpool.Health.Sort.{topological_sort, sources, drain, build, checks_of}
use lumin_acpool.Health.Sort.Degrees.{occurs, occurs-append, entries-zero}
use lumin_acpool.Health.Sort.Rounds.{is_open}
use lumin_acpool.Health.Sort.Drain.{Ordered}
use lumin_acpool.Health.Sort.Order.{names, topological_sort_order, occurs-named}
use lumin_acpool.Health.Checker.{
  Checker, CheckSchedule, run_checks, run_all, enabled_checks, rebuild, register, unregister, start,
  stop,
}
use lumin_acpool.Health.Checker.Skips.{Forward, Explained, record_statuses, run_checks-Explained}

count_if-zero :
    (p : String → Bool) (d : String) (ds : List String)
    → Memᴰ d ds
    → count_if p ds ≡ 0
    → p d ≡ false
count_if-zero p d [] m h = elim m [ ]
count_if-zero p d (b ∷ ds) (Memᴰ.head e) h = ground (arith, h, ap p e)
count_if-zero p d (b ∷ ds) (Memᴰ.tail m) h = count_if-zero p d ds m (omega (arith, h))

module _ {x : Ext} {T W : Type 0} where
  Ordered-Forward :
      (cs : List (HealthCheck x T W)) (done : List String) (l : List (HealthCheck x T W))
      → ((v : String) → occurs v (names cs) ≤ 1)
      → ((v : String) → occurs v done + occurs v (names l) ≡ occurs v (names cs))
      → All (λ c. Memᴰ c cs) l
      → Ordered cs done (names l)
      → Forward l
  Ordered-Forward cs done [] distinct same m o = tt
  Ordered-Forward cs done (c ∷ l) distinct same m o = (
    λ d dep. ground (
      arith,
      distinct d,
      same d,
      occurs-named d cs,
      count_if-zero (is_open cs done) d c.depends_on dep
          (entries-zero (is_open cs done) c cs m.0 o.0),
    ),
    Ordered-Forward cs (done ++ c.name ∷ []) l distinct
        (λ v. omega (arith, same v, occurs-append v done (c.name ∷ []))) m.1 o.1,
  )

  -- The checkers that registrations, in any order, and starts and stops lead to.
  pub data Built : Checker x T W → Type 0 where
    fresh :
        (c : Checker x T W) → c.schedules ≡ [] → c.sorted_checks ≡ [] → c.sort_err ≡ none → Built c
    registered : (s : CheckSchedule x T W) (c : Checker x T W) → Built c → Built (register s c)
    unregistered : (name : String) (c : Checker x T W) → Built c → Built (unregister name c)
    started : (c d : Checker x T W) → Built c → start c ≡ ok d → Built d
    stopped : (c : Checker x T W) → Built c → Built (stop c)

  pub record Registry (c : Checker x T W) : Type 0 where
    pub unique : Unique c.schedules
    pub keyed :
        (name : String) (s : CheckSchedule x T W)
        → get name c.schedules ≡ some s
        → s.check.name ≡ name
    pub sorted :
        c.sort_err ≡ none → topological_sort (enabled_checks c.schedules) ≡ ok c.sorted_checks

  sort_nothing : topological_sort {x = x} {T = T} {W = W} [] ≡ ok []
  unfolding topological_sort sources drain build checks_of
  sort_nothing = refl

  rebuild-sorted :
      (c : Checker x T W)
      → (rebuild c).sort_err ≡ none
      → topological_sort (enabled_checks (rebuild c).schedules) ≡ ok (rebuild c).sorted_checks
  unfolding rebuild
  rebuild-sorted c h = elim (List-cases (enabled_checks c.schedules)) [
    | inl e ↦ ground (arith, e, sort_nothing)
    | inr (a, r, e) ↦ elim (Result-cases (topological_sort (a ∷ r))) [
      | inl (l, k) ↦ ground (arith, e, k)
      | inr (er, k) ↦ absurd (ground (arith, e, k, h))
    ]
  ]

  rebuild-schedules : (c : Checker x T W) → (rebuild c).schedules ≡ c.schedules
  unfolding rebuild
  rebuild-schedules c = elim (List-cases (enabled_checks c.schedules)) [
    | inl e ↦ ground (arith, e)
    | inr (a, r, e) ↦ elim (Result-cases (topological_sort (a ∷ r))) [
      | inl (l, k) ↦ ground (arith, e, k)
      | inr (er, k) ↦ ground (arith, e, k)
    ]
  ]

  rebuild-Registry :
      (c : Checker x T W)
      → Unique c.schedules
      → ((name : String) (s : CheckSchedule x T W)
          → get name c.schedules ≡ some s
          → s.check.name ≡ name)
      → Registry (rebuild c)
  rebuild-Registry c u k = record {
    unique = rw (rebuild-schedules c) u;
    keyed = λ name s h. k name s (rw (rebuild-schedules c) at h);
    sorted = rebuild-sorted c;
  }

  start-same :
      (c d : Checker x T W)
      → start c ≡ ok d
      → (d.schedules ≡ c.schedules)
        × (d.sorted_checks ≡ c.sorted_checks)
        × (d.sort_err ≡ c.sort_err)
  unfolding start
  start-same c d h = elim (Option-cases c.target_provider) [
    | inl e ↦ absurd (ground (arith, h, e))
    | inr (p, e) ↦ ground (arith, h, e)
  ]

  pub Built-Registry : (c : Checker x T W) → Built c → Registry c
  unfolding register unregister stop get enabled_checks
  Built-Registry c (fresh _ empty none_sorted no_error) = record {
    unique = rw empty tt;
    keyed = λ name s h. absurd (ground (arith, h, ap (get name) empty));
    sorted = λ h. rw (empty, none_sorted, enabled_checks) sort_nothing;
  }
  Built-Registry c (registered s d b) =
      let r = Built-Registry d b in
      rebuild-Registry (record d { schedules = put s.check.name s d.schedules })
        (put-Unique s.check.name s d.schedules r.unique)
        (λ name t h. ground (
          arith,
          h,
          r.keyed name t,
          get-put s.check.name name s d.schedules,
          string_key.beq_iff s.check.name name,
        ))
  Built-Registry c (unregistered id d b) =
      let r = Built-Registry d b in
      rebuild-Registry (record d { schedules = del id d.schedules })
        (del-Unique id d.schedules r.unique)
        (λ name t h. ground (arith, h, r.keyed name t, get-del id name d.schedules))
  Built-Registry c (started d _ b e) =
      let r = Built-Registry d b in
      let same = start-same d c e in
      record {
        unique = rw same.0 r.unique;
        keyed = λ name s h. r.keyed name s (rw same.0 at h);
        sorted = λ h. rw (same.0, same.1) (r.sorted (rw same.2 at h));
      }
  Built-Registry c (stopped d b) =
      let r = Built-Registry d b in record { unique = r.unique; keyed = r.keyed; sorted = r.sorted }

  enabled-distinct :
      (v : String) (m : Map String (CheckSchedule x T W))
      → Unique m
      → ((name : String) (s : CheckSchedule x T W) → get name m ≡ some s → s.check.name ≡ name)
      → occurs v (names (enabled_checks m)) ≤ elim (get v m) [ none ↦ 0 | some _ ↦ 1 ]
  unfolding enabled_checks get
  enabled-distinct v [] u k = omega arith
  enabled-distinct v ((j, s) ∷ m) u k = ground (
    arith,
    u.0,
    k j s (ground (arith, beq_refl j)),
    string_key.beq_iff j v,
    enabled-distinct v m u.1
        (λ name t h. k name t (ground (arith, h, u.0, string_key.beq_iff j name))),
  )

module _ {x : Ext} {T W : Type 0} (account_of : T → Account x) (now : W → ℕ) where
  -- A run of all checks that returns a report, on a checker that was made by registrations and their
  -- removals, in any order, and by starts and stops, has a result for each enabled check: a check with a prerequisite whose result of this run
  -- is failed, error or skipped is skipped, and the result of any other check is that of running it,
  -- in the state that the results before it left.
  pub run_all_explained :
      (c : Checker x T W) (target : T) (w : W) (report : HealthReport x)
      → Built c
      → (run_all account_of now c target w).0 ≡ ok report
      → Explained account_of now target
          (record_statuses c.sorted_checks report.results [])
          c.sorted_checks
          report.results
          w
        × ((v : String)
            → occurs v (names c.sorted_checks) ≡ occurs v (names (enabled_checks c.schedules)))
  unfolding run_all
  run_all_explained c target w report b h = elim (Option-cases c.sort_err) [
    | inr (er, e) ↦ absurd (ground (arith, h, e))
    | inl e ↦
        let r = Built-Registry c b in
        let (mem, same, order) =
          topological_sort_order (enabled_checks c.schedules) c.sorted_checks (r.sorted e) in
        let distinct = λ (v : String). enabled-distinct v c.schedules r.unique r.keyed in
        let rs : (run_checks account_of now target c.sorted_checks [] w).0 ≡ report.results =
          ground (arith, h, e) in
        (
          subst
              (λ l.
                Explained account_of now target (record_statuses c.sorted_checks l [])
                  c.sorted_checks l w)
              rs
              (run_checks-Explained account_of now target c.sorted_checks [] w (
                Ordered-Forward (enabled_checks c.schedules) [] c.sorted_checks
                  (λ v. ground (arith, distinct v)) (λ v. omega (arith, same v)) mem order)),
          same,
        )
  ]
