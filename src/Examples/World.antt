-- ===== src/Examples/World.antt =====
-- A system with one provider, two accounts and a limit of one call for each, over the memory
-- stores of occupancy and statistics. The parameters from outside the repository are small.
use lumin_acpool.Prelude.{
  ℕ, ◌+◌, ◌-◌, ◌*◌, ◌/◌, String, pos, pos_part, true, false, none, some, List, [], ◌∷◌, Result, ok,
  err, keep, ltb, leb, nat_key, string_key, ◌==◌, if◌then◌else◌,
}
use lumin_acpool.Account.{
  Ext, Account, ProviderInfo, ProviderStatus, available, account_key, provider_key, key_beq, key_eq,
}
use lumin_acpool.Interfaces.{
  StorageError, ResolverError, SelectorError, OccupancyStore, StatsStore, Resolver,
}
use lumin_acpool.Balancer.Types.{Options, PickRequest}
use lumin_acpool.Occupancy.FixedLimit.{FixedLimit, fixed_limit}
use lumin_acpool.Memory.Occupancy.{Counters, counters_store}
use lumin_acpool.Memory.Stats.{
  Stats, get_stats, incr_success, incr_failure, update_last_used, reset_consecutive_failures,
}

abbrev pub ext : Ext
ext = record {
  Float = ℕ;
  decimal = λ m k. m;
  of_int = pos_part;
  to_int = pos;
  floor = λ f. f;
  ceil = λ f. f;
  max_float = 1000000;
  add = λ a b. a + b;
  sub = λ a b. a - b;
  mul = λ a b. a * b;
  div = λ a b. a / b;
  lt = ltb;
  le = leb;
  seconds = λ n. n / 1000000000;
  Credential = String;
  Other = String;
  SourceType = ℕ;
  source_type_eq = nat_key;
  source_type_request = 1;
  Granularity = ℕ;
  granularity_eq = nat_key;
  Rule = ℕ;
  source_type = λ r. 1;
  time_granularity = λ r. 1;
  window_size = λ r. pos 1;
  total = λ r. r;
  is_valid = λ r. true;
  calculate_window_time = λ r t. (some t, some (t + 10));
}

pub record World : Type 0 where
  pub counters : Counters
  pub stats : Stats

abbrev pub account_named : String → Account ext
account_named id = record {
  id = id;
  provider_type = "kiro";
  provider_name = "team";
  credential = "key";
  status = available;
  priority = pos 1;
  tags = [];
  metadata = [];
  usage_rules = [];
  cooldown_until = none;
  circuit_open_until = none;
  created_at = 1;
  updated_at = 1;
  version = 1;
}

abbrev pub accounts : List (Account ext)
accounts = account_named "a" ∷ account_named "b" ∷ []

abbrev pub provider : ProviderInfo ext
provider = record {
  provider_type = "kiro";
  provider_name = "team";
  status = ProviderStatus.active;
  priority = pos 1;
  weight = pos 1;
  tags = [];
  supported_models = "m" ∷ [];
  usage_rules = [];
  metadata = [];
  account_count = 2;
  available_account_count = 2;
  created_at = 1;
  updated_at = 1;
}

abbrev pub occupancy_store : OccupancyStore World
occupancy_store = record {
  incr_occupancy = λ k w.
      let (r, c) = counters_store.incr_occupancy k w.counters in (r, record w { counters = c });
  decr_occupancy = λ k w.
      let (r, c) = counters_store.decr_occupancy k w.counters in (r, record w { counters = c });
  get_occupancies = λ ks w. ((counters_store.get_occupancies ks w.counters).0, w);
}

abbrev pub now : ℕ
now = 100

abbrev pub stats_store : StatsStore World
stats_store = record {
  get_stats = λ k w. let (st, m) = get_stats k w.stats in (ok st, record w { stats = m });
  incr_success = λ k w. (ok tt, record w { stats = incr_success k now w.stats });
  incr_failure =
      λ k msg w. let (n, m) = incr_failure k msg now w.stats in (ok n, record w { stats = m });
  update_last_used = λ k t w. (ok tt, record w { stats = update_last_used k t w.stats });
  reset_consecutive_failures =
      λ k w. (ok tt, record w { stats = reset_consecutive_failures k w.stats });
}

abbrev pub first_account : List (Account ext) → Result SelectorError (Account ext)
first_account [] = err SelectorError.empty_candidates
first_account (a ∷ l) = ok a

abbrev pub first_provider : List (ProviderInfo ext) → Result SelectorError (ProviderInfo ext)
first_provider [] = err SelectorError.empty_candidates
first_provider (p ∷ l) = ok p

abbrev pub resolver : Resolver ext World
resolver = record {
  resolve_provider = λ key m w. (
    if key_beq (provider_key provider) key
        then ok provider
        else err ResolverError.provider_not_found,
    w,
  );
  resolve_providers = λ m t w. (ok (provider ∷ []), w);
  resolve_accounts = λ key tags w. (ok (keep (λ a. key_beq (account_key a) key) accounts), w);
}

abbrev pub limits : FixedLimit
limits = record {
  default_limit = pos 1;
  provider_type_limits = [];
  provider_key_limits = [];
  account_limits = [];
}

abbrev pub options : Options ext World
options = record {
  runtime = record {
    now = λ w. now;
    cancelled = λ w. false;
    shuffle_providers = λ ps w. (ps, w);
    shuffle_accounts = λ l w. (l, w);
  };
  account_storage = record {
    get_account =
        λ k w. (if k == "a" then ok (account_named "a") else err StorageError.not_found, w);
    search_accounts = λ f w. (ok accounts, w);
    update_account = λ a f w. (ok tt, w);
  };
  resolver = resolver;
  selector = record { select = λ l r w. (first_account l, w) };
  group_selector = record { select = λ ps r w. (first_provider ps, w) };
  circuit_breaker = some (record {
    record_success = λ a w. (ok a, w);
    record_failure = λ a n w. (ok (leb 3 n, a), w);
  });
  cooldown_manager =
      some
        (record { start_cooldown = λ a t w. (record a { cooldown_until = some (now + 30) }, w) });
  stats_store = some stats_store;
  usage_tracker =
      some
        (record { record_usage = λ k w. (ok tt, w); calibrate_from_response = λ k w. (ok tt, w) });
  occupancy_controller = fixed_limit limits occupancy_store;
  default_max_retries = pos 2;
  default_enable_failover = true;
}

-- Account `a` is at its limit.
abbrev pub start : World
start = record { counters = ("a", 1) ∷ []; stats = [] }

abbrev pub request : PickRequest
request = record {
  model = "m";
  user_id = "u";
  provider_key = none;
  tags = [];
  max_retries = pos 0;
  enable_failover = false;
}

-- A request for a provider that does not exist.
abbrev pub request_unknown : PickRequest
request_unknown = record request { provider_key = some (record { ptype = "kiro"; name = "other" }) }
