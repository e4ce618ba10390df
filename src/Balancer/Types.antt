-- ===== src/Balancer/Types.antt =====
-- balancer/balancer.go, errors.go and option.go: requests, results, errors and the configuration.
use lumin_acpool.Prelude.{String, ℕ, ℤ, Bool, Option, Map}
use lumin_acpool.Account.{Ext, Account, ProviderKey}
use lumin_acpool.Interfaces.{
  StorageError, ResolverError, SelectorError, Resolver, Selector, GroupSelector, Controller,
  StatsStore, AccountStorage, UsageTracker, CircuitBreaker, CooldownManager, Runtime,
}

-- The sentinel errors, then the errors that are wrapped by `fmt.Errorf`, one constructor for each
-- call that can fail. `out_of_fuel` belongs to the model alone.
pub data Error : Type 0 where
  model_required no_available_provider no_available_account model_not_supported : Error
  provider_not_found max_retries_exceeded account_not_found occupancy_full : Error
  context_done : Error
  resolve_provider resolve_providers resolve_accounts : ResolverError → Error
  group_select select_account : SelectorError → Error
  incr_success incr_failure record_usage get_account update_account : StorageError → Error
  breaker_success breaker_failure : StorageError → Error
  out_of_fuel : Error

pub record PickRequest : Type 0 where
  pub model : String
  pub user_id : String
  pub provider_key : Option ProviderKey
  pub tags : Map String String
  pub max_retries : ℤ
  pub enable_failover : Bool

pub record PickResult (x : Ext) : Type 0 where
  pub account : Account x
  pub provider_key : ProviderKey
  pub attempts : ℕ
  pub fallback : Bool

pub record Options (x : Ext) (W : Type 0) : Type 0 where
  pub runtime : Runtime x W
  pub account_storage : AccountStorage x W
  pub resolver : Resolver x W
  pub selector : Selector x W
  pub group_selector : GroupSelector x W
  pub circuit_breaker : Option (CircuitBreaker x W)
  pub cooldown_manager : Option (CooldownManager x W)
  pub stats_store : Option (StatsStore W)
  pub usage_tracker : Option (UsageTracker W)
  pub occupancy_controller : Controller x W
  pub default_max_retries : ℤ
  pub default_enable_failover : Bool
