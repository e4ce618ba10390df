-- ===== src/Health/Sort/Drain.antt =====
-- The loop of `topologicalSort`: it ends, and what holds of the names that it then has.
use mathlib.Core.List.{append-nil, append_assoc}
use lumin_acpool.Prelude.{
  ℕ, zero, suc, ◌≤◌, ◌<◌, String, Bool, ◌&&◌, some, List, [], ◌∷◌, ◌++◌, string_key, nat_beq,
  indicator, arith, ◌≡◌, inl, inr, length, ap, count_if, count_if-lt, sym, ◌∙◌, beq_refl,
  List-cases, subst,
}
use lumin_acpool.Account.{Ext}
use lumin_acpool.Health.Types.{HealthCheck}
use lumin_acpool.Health.Sort.{followers, Frontier, settle, drain, sort_names}
use lumin_acpool.Health.Sort.Degrees.{occurs, occurs-append, named, named-mem}
use lumin_acpool.Health.Sort.Rounds.{remaining, graph, Inv, start-Inv, step-Inv}

module _ {x : Ext} {T W : Type 0} (cs : List (HealthCheck x T W)) where
  -- Each name of the list has its registered dependencies before it, in the list or among `done`.
  abbrev pub Ordered : List String → List String → Type 0
  Ordered done [] = Unit {0}
  Ordered done (v ∷ vs) = (remaining cs done v ≡ 0) × Ordered (done ++ v ∷ []) vs

  pub record Drained (done r : List String) : Type 0 where
    pub tail : List String
    pub joined : r ≡ done ++ tail
    pub ordered : Ordered done tail
    pub emptied : (v : String) → occurs v r ≡ indicator (named v cs && nat_beq (remaining cs r v) 0)

  drain-Drained :
      (fuel : ℕ) (f : Frontier) (done r : List String)
      → Inv cs f done
      → drain fuel (graph cs).dependents f done ≡ some r
      → Drained done r
  unfolding drain
  drain-Drained zero f done r i h = cc
  drain-Drained (suc fuel) f done r i h = elim (List-cases f.queue) [
    | inl e ↦
        let same : done ≡ r = ground (arith, h, e) in
        record {
          tail = [];
          joined = sym same ∙ sym (append-nil done);
          ordered = tt;
          emptied = λ v.
              subst (λ y. occurs v y ≡ indicator (named v cs && nat_beq (remaining cs y v) 0)) same
                (omega (arith, i.queued v, ap (occurs v) e));
        }
    | inr (c, rest, e) ↦
        let d =
          drain-Drained fuel
            (settle (followers c (graph cs).dependents) (record f { queue = rest }))
            (done ++ c ∷ []) r (step-Inv cs c rest f done e i) (rw e at h) in
        record {
          tail = c ∷ d.tail;
          joined = d.joined ∙ append_assoc done (c ∷ []) d.tail;
          ordered = (ground (arith, i.queued c, ap (occurs c) e, beq_refl c), d.ordered);
          emptied = d.emptied;
        }
  ]

  -- A check whose name is still to come.
  abbrev awaits : List String → HealthCheck x T W → Bool
  awaits done c = nat_beq (occurs c.name done) 0

  awaits-lt :
      (c : String) (rest : List String) (f : Frontier) (done : List String)
      → f.queue ≡ c ∷ rest
      → Inv cs f done
      → count_if (awaits (done ++ c ∷ [])) cs < count_if (awaits done) cs
  awaits-lt c rest f done e i =
      let (b, m, n) = named-mem c cs (ground (arith, i.queued c, ap (occurs c) e, beq_refl c)) in
      count_if-lt (awaits (done ++ c ∷ [])) (awaits done) cs
        (λ y h. ground (arith, h, occurs-append y.name done (c ∷ [])))
        (rw n (ground (arith, i.queued c, ap (occurs c) e, beq_refl c)))
        (rw n (ground (arith, occurs-append c done (c ∷ []), beq_refl c))) m

  drain_total :
      (fuel : ℕ) (f : Frontier) (done : List String)
      → Inv cs f done
      → count_if (awaits done) cs < fuel
      → (r : List String) × (drain fuel (graph cs).dependents f done ≡ some r)
  unfolding drain
  drain_total zero f done i h = absurd (omega arith)
  drain_total (suc fuel) f done i h = elim (List-cases f.queue) [
    | inl e ↦ (done, ground (arith, e))
    | inr (c, rest, e) ↦ rw e (
        drain_total fuel (settle (followers c (graph cs).dependents) (record f { queue = rest }))
          (done ++ c ∷ []) (step-Inv cs c rest f done e i)
          (omega (arith, awaits-lt c rest f done e i)))
  ]

  count_if-le-length :
      (p : HealthCheck x T W → Bool) (l : List (HealthCheck x T W)) → count_if p l ≤ length l
  count_if-le-length p [] = omega arith
  count_if-le-length p (c ∷ l) = ground (arith, count_if-le-length p l)

  pub sort_names_total : (r : List String) × (sort_names cs ≡ some r)
  sort_names_total =
      drain_total (suc (length cs)) _ [] (start-Inv cs)
        (omega (arith, count_if-le-length (awaits []) cs))

  pub sort_names-Drained : (r : List String) → sort_names cs ≡ some r → Drained [] r
  sort_names-Drained r h = drain-Drained (suc (length cs)) _ [] r (start-Inv cs) h
