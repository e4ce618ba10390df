-- ===== src/Health/Sort/Rounds.antt =====
-- After each round of the loop of `topologicalSort`, the degree of a name is the number of its
-- dependencies that are still to come, and the queue holds the names for which that is 0.
use lumin_acpool.Prelude.{
  ℕ, ◌+◌, String, Bool, ◌&&◌, List, [], ◌∷◌, ◌++◌, get, string_key, nat_beq, indicator, ◌==◌, arith,
  ◌≡◌, ap, beq_refl,
}
use lumin_acpool.Account.{Ext}
use lumin_acpool.Health.Types.{HealthCheck}
use lumin_acpool.Health.Sort.{
  has, degree, followers, Frontier, settle, sources, check_map, build, Graph,
}
use lumin_acpool.Health.Sort.Degrees.{
  occurs, occurs-append, named, entries, has-named, entries-named, entries-ext, entries-sum,
  build-degree, build-followers, build-has, build-Unique,
}
use lumin_acpool.Health.Sort.Settle.{settle-degree, settle-queue, occurs-sources}

module _ {x : Ext} {T W : Type 0} (cs : List (HealthCheck x T W)) where
  -- A registered name that is not among `done`.
  abbrev pub is_open : List String → String → Bool
  is_open done d = named d cs && nat_beq (occurs d done) 0

  -- The dependencies of a name that are registered and not among `done`.
  abbrev pub remaining : List String → String → ℕ
  remaining done v = entries (is_open done) v cs

  abbrev is_dep : String → String → Bool
  is_dep u d = has d (check_map cs []) && d == u

  remaining-split :
      (done : List String) (c v : String)
      → occurs c done ≡ 0
      → remaining done v ≡ remaining (done ++ c ∷ []) v + entries (is_dep c) v cs
  remaining-split done c v h =
      entries-sum (is_open done) (is_open (done ++ c ∷ [])) (is_dep c) v cs λ d. ground (
        arith,
        has-named d cs,
        h,
        occurs-append d done (c ∷ []),
        string_key.beq_iff d c,
        string_key.beq_iff c d,
      )

  abbrev pub graph : Graph
  graph = build (check_map cs []) cs (record { in_degree = []; dependents = [] })

  pub record Inv (f : Frontier) (done : List String) : Type 0 where
    pub degrees : (v : String) → degree v f.in_degree ≡ remaining done v
    pub queued :
        (v : String)
        → occurs v done + occurs v f.queue ≡ indicator (named v cs && nat_beq (remaining done v) 0)

  pub start-Inv : Inv (record { in_degree = graph.in_degree; queue = sources graph.in_degree }) []
  unfolding get
  start-Inv =
      let g0 : Graph = record { in_degree = []; dependents = [] } in
      let registered = entries-ext (λ d. has d (check_map cs [])) (is_open []) in
      let deg = λ (v : String). build-degree (check_map cs []) v cs g0 in
      let all = λ (v : String). registered v cs (λ d. ground (arith, has-named d cs)) in
      record {
        degrees = λ v. omega (arith, deg v, all v);
        queued = λ v. ground (
          arith,
          deg v,
          all v,
          build-has (check_map cs []) v cs g0,
          occurs-sources v graph.in_degree (build-Unique (check_map cs []) cs g0 tt),
        );
      }

  pub step-Inv :
      (c : String) (rest : List String) (f : Frontier) (done : List String)
      → f.queue ≡ c ∷ rest
      → Inv f done
      → Inv (settle (followers c graph.dependents) (record f { queue = rest })) (done ++ c ∷ [])
  unfolding get
  step-Inv c rest f done e i =
      let fresh : occurs c done ≡ 0 = ground (arith, i.queued c, ap (occurs c) e, beq_refl c) in
      let g0 : Graph = record { in_degree = []; dependents = [] } in
      let fall = λ (v : String). build-followers (check_map cs []) c v cs g0 in
      let deg = λ (v : String).
        settle-degree v (followers c graph.dependents) (record f { queue = rest }) in
      record {
        degrees = λ v. omega (arith, deg v, fall v, i.degrees v, remaining-split done c v fresh);
        queued = λ v. ground (
          arith,
          fall v,
          i.degrees v,
          i.queued v,
          ap (occurs v) e,
          remaining-split done c v fresh,
          settle-queue v (followers c graph.dependents) (record f { queue = rest }),
          occurs-append v done (c ∷ []),
          entries-named (is_open done) v cs,
        );
      }
