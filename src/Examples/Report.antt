-- ===== src/Examples/Report.antt =====
-- The reports on the system of World, and the bound of its controller.
use lumin_acpool.Prelude.{
  ◌+◌, String, true, false, none, some, [], ◌∷◌, ok, err, ◌≡◌, refl, pos, get, put, ltb_ℤ, ◌≤ℤ◌,
  ◌==◌, string_key, indicator, map, if◌then◌else◌,
}
use mathlib.Core.List.{Memᴰ}
use lumin_acpool.Interfaces.{AccountStorage, StorageError}
use lumin_acpool.Balancer.Pick.{pick}
use lumin_acpool.Balancer.Report.{CallError, report_success, report_failure}
use lumin_acpool.Balancer.Report.Release.{pick-report}
use lumin_acpool.Balancer.Report.Recovery.{report_success_ignores_accounts}
use lumin_acpool.Occupancy.FixedLimit.{acquire, filter_available, get_limit, metadata_int64}
use lumin_acpool.Occupancy.FixedLimit.Bound.{acquire_counts, filter_available-acquire}
use lumin_acpool.Memory.Occupancy.{
  counters_store, get_occupancies, incr_occupancy, load_or_create_counter,
}
use lumin_acpool.Examples.World.{
  ext, World, options, start, request, account_named, accounts, limits, occupancy_store,
}
use lumin_acpool.Examples.Contracts.{slots, accounting, quiet, resetting, occupancy_store-Counts}
use lumin_acpool.Examples.Pick.{picked, picks_b}

abbrev too_many_requests : CallError
too_many_requests = record {
  message = "slow down";
  rate_limit = none;
  status_code = some 429;
  retry_after = some (some 200);
}

abbrev id_a : String
id_a = "a"

pick-report_example :
    (slots (report_success options "b" (pick options request start).1).1 "b" ≡ slots start "b")
    × (slots
          (report_failure options "b" (some too_many_requests) (pick options request start).1).1
          "b"
        ≡ slots start "b")
pick-report_example =
    pick-report options slots accounting quiet request (some too_many_requests) start picked picks_b
      "b"

abbrev broken : AccountStorage ext World
broken = record {
  get_account = λ k w. (err StorageError.not_found, w);
  search_accounts = λ f w. (err StorageError.not_found, w);
  update_account = λ a f w. (err StorageError.not_found, w);
}

report_success_ignores_accounts_example :
    report_success (record options { account_storage = broken }) "a" start
    ≡ report_success options "a" start
report_success_ignores_accounts_example =
    report_success_ignores_accounts options resetting broken "a" start

acquires_b : (acquire limits occupancy_store (account_named "b") start).0 ≡ true
unfolding acquire get_limit metadata_int64 counters_store incr_occupancy load_or_create_counter get
    put
acquires_b = refl

full_a : (acquire limits occupancy_store (account_named "a") start).0 ≡ false
unfolding acquire get_limit metadata_int64 counters_store incr_occupancy load_or_create_counter get
    put
full_a = refl

incr_a : (occupancy_store.incr_occupancy "a" start).0 ≡ ok 2
unfolding counters_store incr_occupancy load_or_create_counter get put
incr_a = refl

incr_b : (occupancy_store.incr_occupancy "b" start).0 ≡ ok 1
unfolding counters_store incr_occupancy load_or_create_counter get put
incr_b = refl

reads : (occupancy_store.get_occupancies (map (λ y. y.id) accounts) start).0 ≡ ok (("a", 1) ∷ [])
unfolding counters_store get_occupancies get put
reads = refl

lets_b_through : Memᴰ (account_named "b") (filter_available limits occupancy_store accounts start).0
unfolding filter_available get_limit metadata_int64 counters_store get_occupancies get put
lets_b_through = Memᴰ.head refl

filter_available-acquire_example :
    (acquire limits occupancy_store (account_named "b") start).0 ≡ true
filter_available-acquire_example =
    filter_available-acquire limits occupancy_store slots occupancy_store-Counts (account_named "b")
      accounts start (("a", 1) ∷ []) 1 reads incr_b lets_b_through

acquire_counts_example :
    ((acquire limits occupancy_store (account_named "a") start).0
      ≡ ltb_ℤ (pos (slots start "a")) (get_limit limits (account_named "a")))
    × ((i : String)
        → slots (acquire limits occupancy_store (account_named "a") start).1 i
          ≡ slots start i
            + (if (acquire limits occupancy_store (account_named "a") start).0
                then indicator (id_a == i)
                else 0))
    × ((acquire limits occupancy_store (account_named "a") start).0 ≡ true
        → pos (slots (acquire limits occupancy_store (account_named "a") start).1 "a")
          ≤ℤ get_limit limits (account_named "a"))
acquire_counts_example =
    acquire_counts limits occupancy_store slots occupancy_store-Counts (account_named "a") start 2
      incr_a
