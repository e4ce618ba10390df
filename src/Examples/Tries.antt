-- ===== src/Examples/Tries.antt =====
-- A system whose state counts the calls of `Acquire`: the first is refused, the others succeed.
use lumin_acpool.Prelude.{
  ℕ, suc, ◌≤◌, ◌<◌, pos, false, none, [], ◌∷◌, ok, err, leb, ◌≡◌, refl, get, put,
}
use lumin_acpool.Account.{provider_key}
use lumin_acpool.Interfaces.{StorageError}
use lumin_acpool.Balancer.Types.{Options, PickResult}
use lumin_acpool.Balancer.Pick.{
  pick, dispatch, pick_auto, failover_loop, failover_round, filter_providers,
  select_account_from_provider_cached, cached_accounts, select_from_accounts, acquire_from_accounts,
  attempt, record_use, exclude_accounts, rounds, effective_retries, effective_failover,
}
use lumin_acpool.Balancer.Pick.Tries.{Tries, pick_attempts}
use lumin_acpool.Examples.World.{
  ext, accounts, account_named, provider, request, first_account, first_provider,
}

abbrev refusing : Options ext ℕ
refusing = record {
  runtime = record {
    now = λ n. 7;
    cancelled = λ n. false;
    shuffle_providers = λ ps n. (ps, n);
    shuffle_accounts = λ l n. (l, n);
  };
  account_storage = record {
    get_account = λ k n. (err StorageError.not_found, n);
    search_accounts = λ f n. (ok accounts, n);
    update_account = λ a f n. (ok tt, n);
  };
  resolver = record {
    resolve_provider = λ k m n. (ok provider, n);
    resolve_providers = λ m t n. (ok (provider ∷ []), n);
    resolve_accounts = λ k t n. (ok accounts, n);
  };
  selector = record { select = λ l r n. (first_account l, n) };
  group_selector = record { select = λ ps r n. (first_provider ps, n) };
  circuit_breaker = none;
  cooldown_manager = none;
  stats_store = none;
  usage_tracker = none;
  occupancy_controller = record {
    filter_available = λ l n. (l, n);
    acquire = λ a n. (leb 1 n, suc n);
    release = λ k n. n;
  };
  default_max_retries = pos 2;
  default_enable_failover = false;
}

counted : Tries refusing (λ n. n)
counted = record {
  acquire_counts = λ a n. refl;
  release_keeps = λ k n. refl;
  filter_keeps = λ l n. refl;
  update_last_used_keeps = λ s k t n h. absurd (cc h);
  select_keeps = λ l r n. refl;
  group_select_keeps = λ ps r n. refl;
  resolve_provider_keeps = λ k m n. refl;
  resolve_providers_keeps = λ m t n. refl;
  resolve_accounts_keeps = λ k t n. refl;
  shuffle_providers_keeps = λ ps n. refl;
  shuffle_accounts_keeps = λ l n. refl;
}

abbrev picked_second : PickResult ext
picked_second = record {
  account = account_named "b";
  provider_key = provider_key provider;
  attempts = 1;
  fallback = false;
}

picks_second : (pick refusing request 0).0 ≡ ok picked_second
unfolding pick dispatch pick_auto failover_loop failover_round filter_providers
    select_account_from_provider_cached cached_accounts select_from_accounts acquire_from_accounts
    attempt record_use exclude_accounts get put
picks_second = refl

pick_attempts_example :
    (1 < rounds (effective_retries refusing request))
    × (2 ≤ (pick refusing request 0).1)
    × (effective_failover refusing request ≡ false → (pick refusing request 0).1 ≡ 2)
pick_attempts_example = pick_attempts refusing (λ n. n) counted request 0 picked_second picks_second
