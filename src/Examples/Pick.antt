-- ===== src/Examples/Pick.antt =====
-- `Pick` on the system of World, in which account `a` is full and `b` is free.
use lumin_acpool.Prelude.{◌+◌, pos, ◌≤ℤ◌, true, false, ok, ◌≡◌, refl, get, put}
use lumin_acpool.Account.{account_key, provider_key}
use lumin_acpool.Balancer.Types.{PickResult}
use lumin_acpool.Balancer.Pick.{
  pick, dispatch, pick_auto, pick_exact, pick_exact_or_fallback, failover_loop, failover_round,
  filter_providers, select_account_from_provider_cached, cached_accounts, select_from_accounts,
  acquire_from_accounts, attempt, record_use, exclude_accounts, effective_retries,
  effective_failover, select_request,
}
use lumin_acpool.Balancer.Pick.Slots.{pick-slots, held}
use lumin_acpool.Balancer.Pick.Limit.{pick_within}
use lumin_acpool.Balancer.Pick.Rounds.{pick-settles, is_out_of_fuel}
use lumin_acpool.Balancer.Pick.Source.{pick_source}
use lumin_acpool.Balancer.Pick.Fallback.{pick_fallback, FellBack}
use lumin_acpool.Occupancy.FixedLimit.{
  fixed_limit, filter_available, acquire, get_limit, metadata_int64,
}
use lumin_acpool.Memory.Occupancy.{
  counters_store, get_occupancies, incr_occupancy, load_or_create_counter,
}
use lumin_acpool.Examples.World.{
  ext, limits, options, start, request, request_unknown, account_named, provider,
}
use lumin_acpool.Examples.Contracts.{slots, within, accounting, chooses, sourced}

abbrev pub picked : PickResult ext
picked = record {
  account = account_named "b";
  provider_key = provider_key provider;
  attempts = 0;
  fallback = false;
}

pub picks_b : (pick options request start).0 ≡ ok picked
unfolding pick dispatch pick_auto failover_loop failover_round filter_providers
    select_account_from_provider_cached cached_accounts select_from_accounts acquire_from_accounts
    attempt record_use exclude_accounts fixed_limit filter_available acquire get_limit
    metadata_int64 counters_store get_occupancies incr_occupancy load_or_create_counter get put
picks_b = refl

pick-slots_example :
    slots (pick options request start).1 "b"
    ≡ slots start "b" + held (pick options request start).0 "b"
pick-slots_example = pick-slots options slots accounting request start "b"

pick-settles_example : is_out_of_fuel (pick options request start).0 ≡ false
pick-settles_example = pick-settles options chooses request start

pick_source_example : account_key (account_named "b") ≡ provider_key provider
pick_source_example =
    pick_source options (λ key a. account_key a ≡ key) sourced request start picked picks_b

abbrev pub picked_instead : PickResult ext
picked_instead = record picked { fallback = true }

picks_b_instead : (pick options request_unknown start).0 ≡ ok picked_instead
unfolding pick dispatch pick_auto pick_exact pick_exact_or_fallback failover_loop failover_round
    filter_providers select_account_from_provider_cached cached_accounts select_from_accounts
    acquire_from_accounts attempt record_use exclude_accounts fixed_limit filter_available acquire
    get_limit metadata_int64 counters_store get_occupancies incr_occupancy load_or_create_counter
    get put
picks_b_instead = refl

pick_fallback_example :
    FellBack options
      (select_request request_unknown)
      (effective_retries options request_unknown)
      (effective_failover options request_unknown)
      start
pick_fallback_example =
    pick_fallback options request_unknown start picked_instead picks_b_instead refl

pick_within_example :
    pos (slots (pick options request start).1 "b") ≤ℤ get_limit limits (account_named "b")
pick_within_example =
    pick_within options slots (get_limit limits) within request start picked picks_b
