-- ===== src/Memory/Stats/History.antt =====
-- The statistics of storage/memory/stats.go after a history of calls on any accounts.
use lumin_acpool.Prelude.{
  ℕ, suc, ◌+◌, String, none, some, List, [], ◌∷◌, get, put, del, get-put, get-del, string_key, ◌==◌,
  if◌then◌else◌, indicator, arith, ◌≡◌, Option-cases, inl, inr,
}
use lumin_acpool.Account.{AccountStats}
use lumin_acpool.Memory.Stats.{
  Stats, fresh, get_or_create, modify, get_stats, succeed, fail, incr_success, incr_failure,
  update_last_used, reset_consecutive_failures, remove_stats,
}

-- The calls of the store.
pub data Event : Type 0 where
  success : String → ℕ → Event
  failure : String → String → ℕ → Event
  used : String → ℕ → Event
  read : String → Event
  reset : String → Event
  remove : String → Event

unfoldable pub apply : Event → Stats → Stats
apply (success id now) m = incr_success id now m
apply (failure id msg now) m = (incr_failure id msg now m).1
apply (used id t) m = update_last_used id t m
apply (read id) m = (get_stats id m).1
apply (reset id) m = reset_consecutive_failures id m
apply (remove id) m = remove_stats id m

-- The newest event stands first.
pub replay : List Event → Stats
replay [] = []
replay (e ∷ es) = apply e (replay es)

-- The record of an account that has had no calls is the fresh one.
unfoldable pub stats_of : String → Stats → AccountStats
stats_of id m = elim (get id m) [ some st ↦ st | none ↦ fresh id ]

-- What one event does to one account's record.
unfoldable pub effect : String → Event → AccountStats → AccountStats
effect id (success j now) st = if j == id then succeed now st else st
effect id (failure j msg now) st = if j == id then fail now msg st else st
effect id (used j t) st = if j == id then record st { last_used_at = some t } else st
effect id (read j) st = st
effect id (reset j) st = if j == id then record st { consecutive_failures = 0 } else st
effect id (remove j) st = if j == id then fresh id else st

stats_of-modify :
    (id j : String) (f : AccountStats → AccountStats) (m : Stats)
    → stats_of id (modify j f m) ≡ (if j == id then f (stats_of id m) else stats_of id m)
unfolding stats_of modify get_or_create
stats_of-modify id j f m = elim (Option-cases (get j m)) [
  | inl e ↦ ground (
    arith,
    e,
    string_key.beq_iff j id,
    get-put j id (fresh j) m,
    get-put j id (f (fresh j)) (put j (fresh j) m),
  )
  | inr (st, e) ↦ ground (arith, e, string_key.beq_iff j id, get-put j id (f st) m)
]

stats_of-get_or_create :
    (id j : String) (m : Stats) → stats_of id (get_or_create j m).1 ≡ stats_of id m
unfolding stats_of get_or_create
stats_of-get_or_create id j m = elim (Option-cases (get j m)) [
  | inl e ↦ ground (arith, e, string_key.beq_iff j id, get-put j id (fresh j) m)
  | inr (st, e) ↦ ground (arith, e)
]

stats_of-remove :
    (id j : String) (m : Stats)
    → stats_of id (del j m) ≡ (if j == id then fresh id else stats_of id m)
unfolding stats_of
stats_of-remove id j m = ground (arith, get-del j id m)

-- Each call changes the record of its own account only, and as `effect` says.
pub apply-effect :
    (id : String) (e : Event) (m : Stats) → stats_of id (apply e m) ≡ effect id e (stats_of id m)
unfolding apply effect incr_success incr_failure update_last_used reset_consecutive_failures
    remove_stats get_stats
apply-effect id (success j now) m = stats_of-modify id j (succeed now) m
apply-effect id (failure j msg now) m = stats_of-modify id j (fail now msg) m
apply-effect id (used j t) m = stats_of-modify id j (λ st. record st { last_used_at = some t }) m
apply-effect id (read j) m = stats_of-get_or_create id j m
apply-effect id (reset j) m = stats_of-modify id j (λ st. record st { consecutive_failures = 0 }) m
apply-effect id (remove j) m = stats_of-remove id j m

-- The successes and failures of an account since its statistics were last removed, and the failures
-- since its last success, reset or removal. The newest event stands first.
pub successes : String → List Event → ℕ
successes id [] = 0
successes id (success j now ∷ es) = indicator (j == id) + successes id es
successes id (remove j ∷ es) = let rest = successes id es in if j == id then 0 else rest
successes id (e ∷ es) = successes id es

pub failures : String → List Event → ℕ
failures id [] = 0
failures id (failure j msg now ∷ es) = indicator (j == id) + failures id es
failures id (remove j ∷ es) = let rest = failures id es in if j == id then 0 else rest
failures id (e ∷ es) = failures id es

pub trailing_failures : String → List Event → ℕ
trailing_failures id [] = 0
trailing_failures id (success j now ∷ es) =
    let rest = trailing_failures id es in if j == id then 0 else rest
trailing_failures id (failure j msg now ∷ es) = indicator (j == id) + trailing_failures id es
trailing_failures id (reset j ∷ es) =
    let rest = trailing_failures id es in if j == id then 0 else rest
trailing_failures id (remove j ∷ es) =
    let rest = trailing_failures id es in if j == id then 0 else rest
trailing_failures id (e ∷ es) = trailing_failures id es

pub record Agrees (id : String) (es : List Event) (st : AccountStats) : Type 0 where
  pub owner : st.account_id ≡ id
  pub success_calls : st.success_calls ≡ successes id es
  pub failed_calls : st.failed_calls ≡ failures id es
  pub total_calls : st.total_calls ≡ successes id es + failures id es
  pub consecutive_failures : st.consecutive_failures ≡ trailing_failures id es

effect-Agrees :
    (id : String) (e : Event) (es : List Event) (st : AccountStats)
    → Agrees id es st
    → Agrees id (e ∷ es) (effect id e st)
unfolding effect successes failures trailing_failures
effect-Agrees id (success j now) es st a = ground (arith, a)
effect-Agrees id (remove j) es st a = ground (arith, a)
effect-Agrees id e es st a = ground (arith, a)

-- After any history of calls, on any accounts, the record of an account counts the successes and the
-- failures since its last removal, and their sum, and its consecutive failures are those since its
-- last success, reset or removal.
pub replay-Agrees : (id : String) (es : List Event) → Agrees id es (stats_of id (replay es))
unfolding replay stats_of get successes failures trailing_failures
replay-Agrees id [] = ground arith
replay-Agrees id (e ∷ es) =
    rw (apply-effect id e (replay es)) (effect-Agrees id e es _ (replay-Agrees id es))

pub read-stats_of : (id : String) (m : Stats) → (get_or_create id m).0 ≡ stats_of id m
unfolding stats_of get_or_create
read-stats_of id m = ground arith

-- The number that `IncrFailure` returns, on which the breaker trips, is the number of failures in a
-- row up to this one, after any history of calls.
pub incr_failure_returns :
    (id msg : String) (now : ℕ) (es : List Event)
    → (incr_failure id msg now (replay es)).0 ≡ suc (trailing_failures id es)
unfolding incr_failure
incr_failure_returns id msg now es = ground (
  arith,
  read-stats_of id (modify id (fail now msg) (replay es)),
  stats_of-modify id id (fail now msg) (replay es),
  string_key.beq_iff id id,
  replay-Agrees id es,
)
