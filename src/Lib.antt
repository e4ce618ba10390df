-- ===== src/Lib.antt =====
-- lumin-acpool chooses, for each request to a model, one account of one provider out of a pool, and
-- takes back a report of how the call went. This library models its core over the sources of the
-- repository.
--
-- A caller calls `Pick` of the balancer. It asks the resolver for providers and accounts, lets the
-- occupancy controller drop accounts that are busy, a selector choose, and the controller acquire a
-- slot; it retries with other accounts and fails over to other providers. `ReportSuccess` and
-- `ReportFailure` release the slot, update the statistics, and tell the circuit breaker, the usage
-- tracker and the cooldown manager, which change the account's status in the storage.
--
-- * Account models account/*.go: accounts, providers, statuses and statistics. Account/Outside is
--   the record of what comes from outside the repository: float64, credentials, usage rules.
-- * Interfaces models the Go interfaces through which the balancer reaches the other parts, as
--   records of functions over a state `W`; each function returns its result and the next state.
-- * Balancer/Types models balancer/balancer.go, errors.go and option.go; Balancer/Pick models `Pick`
--   of balancer/default_balancer.go with one function for each Go function and for each loop body;
--   Balancer/Report models the two reports. The modules under them hold the proofs.
-- * Occupancy/FixedLimit models balancer/occupancy/fixed_limit.go and metadata.go over any store of
--   counters, Occupancy/AdaptiveLimit adaptive_limit.go and unlimited.go, whose limit follows the
--   tracked usages; Occupancy/Contract says what such a store must do.
-- * Memory/Occupancy, Memory/Stats, Memory/Accounts, Memory/Providers and Memory/Usage model
--   storage/memory/occupancy.go, stats.go, account.go, provider.go and usage.go; Memory/Occupancy/Race
--   takes the first apart into atomic steps, and the two modules Reached hold the stores that the
--   operations lead to.
-- * Filter models storage/filtercond/filter_cond.go and storage/memory/internal/utils/compare.go,
--   Filter/Build storage/filtercond/builder.go, and Filter/Convert account_converter.go and provider_converter.go of storage/memory.
-- * Tracker models usagetracker/default_tracker.go and account/tracked_usage.go over any usage store.
-- * Health/Types models health/check.go; Health/Sort and Health/Checker model
--   health/default_checker.go, the order of the checks and their runs; Health/Checks models the
--   check items of health/checks; Health/Report models health/report_handler.go, which takes over
--   what the checks suggest.
-- * Guard/CircuitBreaker and Guard/Cooldown model circuitbreaker/default_circuitbreaker.go and
--   cooldown/default_cooldown.go, Guard/Window the loop over usage rules that the two share.
-- * Resolver models resolver/storage_resolver.go over the interfaces of the storages.
-- * Selector models selector/strategies/account and selector/strategies/group: Rotation round_robin,
--   Ranking priority, least_used and most_available, Weighted weighted, and Affinity affinity with
--   the bindings of storage/memory/affinity.go.
-- * Prelude holds signed integers, lists, finite maps and Boolean tests; Examples applies the
--   theorems to a small system.
--
-- Go's `int` and times are unbounded here, and a Go map is an association list whose order stands
-- for the order of a range. `Pick` works on a snapshot: the shuffle of the accounts in place, which
-- a cached slice can share, is not seen by the cache. The failover loop runs on fuel, one round more
-- than there are candidates: a round that goes on excludes a candidate that was not excluded before.
-- The sort of the checks runs on fuel, one round more than there are checks: each round takes a check
-- out of the queue, and none enters it twice. The retry loop runs its rounds by recursion on their
-- number. An operation of a store is one step, except in Race. The world that a check reads and
-- changes, with the clock, is a type of its own, and messages and durations are left out.
--
-- Not modelled: the SQL and Redis storages, which are programs for databases; the command line; the
-- health checker's goroutine, beside the ticks that it runs. The stores take the predicate that a
-- condition tree converts to, and an error of its conversion ends a search before it starts.
pub mod Prelude
pub mod Account
pub mod Interfaces
pub mod Balancer
pub mod Occupancy
pub mod Memory
pub mod Filter
pub mod Guard
pub mod Health
pub mod Tracker
pub mod Resolver
pub mod Selector
pub mod Examples
