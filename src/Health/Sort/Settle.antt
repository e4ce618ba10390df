-- ===== src/Health/Sort/Settle.antt =====
-- The inner loop of `topologicalSort`, and the names from which it starts.
use lumin_acpool.Prelude.{
  ℕ, ◌+◌, ◌-◌, String, ◌&&◌, none, List, [], ◌∷◌, ◌++◌, Map, get, put, get-put, string_key, nat_beq,
  leb, if◌then◌else◌, indicator, arith, ◌≡◌, refl, Unique,
}
use lumin_acpool.Health.Sort.{has, degree, Frontier, settle, sources}
use lumin_acpool.Health.Sort.Degrees.{occurs, occurs-append}

pub settle-degree :
    (v : String) (nexts : List String) (f : Frontier)
    → degree v (settle nexts f).in_degree ≡ degree v f.in_degree - occurs v nexts
unfolding settle
settle-degree v [] f = omega arith
settle-degree v (next ∷ nexts) f = ground (
  arith,
  settle-degree v nexts (record {
    in_degree = put next (degree next f.in_degree - 1) f.in_degree;
    queue = if nat_beq (degree next f.in_degree) 1 then f.queue ++ next ∷ [] else f.queue;
  }),
  get-put next v (degree next f.in_degree - 1) f.in_degree,
  string_key.beq_iff next v,
)

-- A name is queued once if its degree falls from above 0 to 0.
pub settle-queue :
    (v : String) (nexts : List String) (f : Frontier)
    → occurs v (settle nexts f).queue
      ≡ occurs v f.queue
        + indicator (leb 1 (degree v f.in_degree) && leb (degree v f.in_degree) (occurs v nexts))
unfolding settle
settle-queue v [] f = ground arith
settle-queue v (next ∷ nexts) f = ground (
  arith,
  settle-queue v nexts (record {
    in_degree = put next (degree next f.in_degree - 1) f.in_degree;
    queue = if nat_beq (degree next f.in_degree) 1 then f.queue ++ next ∷ [] else f.queue;
  }),
  get-put next v (degree next f.in_degree - 1) f.in_degree,
  occurs-append v f.queue (next ∷ []),
  string_key.beq_iff next v,
)

absent-sources : (v : String) (m : Map String ℕ) → get v m ≡ none → occurs v (sources m) ≡ 0
unfolding sources get
absent-sources v [] h = refl
absent-sources v ((name, n) ∷ m) h = ground (arith, absent-sources v m)

pub occurs-sources :
    (v : String) (m : Map String ℕ)
    → Unique m
    → occurs v (sources m) ≡ indicator (has v m && nat_beq (degree v m) 0)
unfolding sources get
occurs-sources v [] u = ground arith
occurs-sources v ((name, n) ∷ m) u =
    ground (arith, occurs-sources v m u.1, absent-sources v m, string_key.beq_iff name v)
