-- ===== src/Memory/Stats.antt =====
-- storage/memory/stats.go: the runtime statistics of the accounts.
pub mod History
use lumin_acpool.Prelude.{ℕ, suc, ◌+◌, String, none, some, Map, get, put, del, string_key}
use lumin_acpool.Account.{AccountStats}

abbrev pub fresh : String → AccountStats
fresh id = record {
  account_id = id;
  total_calls = 0;
  success_calls = 0;
  failed_calls = 0;
  consecutive_failures = 0;
  last_used_at = none;
  last_error_at = none;
  last_error_msg = "";
}

abbrev pub Stats : Type 0
Stats = Map String AccountStats

-- `statsGetOrCreate`: the record, and the map in which it stands.
unfoldable pub get_or_create : String → Stats → AccountStats × Stats
get_or_create id m = elim (get id m) [ some st ↦ (st, m) | none ↦ (fresh id, put id (fresh id) m) ]

-- A write through the pointer that `statsGetOrCreate` returns.
pub modify : String → (AccountStats → AccountStats) → Stats → Stats
modify id f m = let (st, m') = get_or_create id m in put id (f st) m'

unfoldable pub get_stats : String → Stats → AccountStats × Stats
get_stats id m = get_or_create id m

abbrev pub succeed : ℕ → AccountStats → AccountStats
succeed now st = record st {
  total_calls = st.total_calls + 1;
  success_calls = st.success_calls + 1;
  consecutive_failures = 0;
  last_used_at = some now;
}

abbrev pub fail : ℕ → String → AccountStats → AccountStats
fail now msg st = record st {
  total_calls = st.total_calls + 1;
  failed_calls = st.failed_calls + 1;
  consecutive_failures = st.consecutive_failures + 1;
  last_error_at = some now;
  last_error_msg = msg;
}

unfoldable pub incr_success : String → ℕ → Stats → Stats
incr_success id now m = modify id (succeed now) m

unfoldable pub incr_failure : String → String → ℕ → Stats → ℕ × Stats
incr_failure id msg now m =
    let m' = modify id (fail now msg) m in ((get_or_create id m').0.consecutive_failures, m')

unfoldable pub update_last_used : String → ℕ → Stats → Stats
update_last_used id t m = modify id (λ st. record st { last_used_at = some t }) m

unfoldable pub get_consecutive_failures : String → Stats → ℕ × Stats
get_consecutive_failures id m = let (st, m') = get_or_create id m in (st.consecutive_failures, m')

unfoldable pub reset_consecutive_failures : String → Stats → Stats
reset_consecutive_failures id m = modify id (λ st. record st { consecutive_failures = 0 }) m

unfoldable pub remove_stats : String → Stats → Stats
remove_stats id m = del id m
