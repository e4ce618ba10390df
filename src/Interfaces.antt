-- ===== src/Interfaces.antt =====
-- The interfaces through which the balancer reaches the other components: storage/interface.go,
-- resolver/resolver.go, selector/selector.go, balancer/occupancy/controller.go,
-- usagetracker/tracker.go, circuitbreaker/circuitbreaker.go and cooldown/cooldown.go. A Go interface
-- is a record of functions over the state `W` of everything that lies behind the interfaces; an
-- operation returns its result and the state after it. Errors are the sentinel values that the
-- callers test for, and `failed`, any other error.
use lumin_acpool.Prelude.{
  ℕ, String, Bool, ◌&&◌, not, Option, none, some, List, Map, Result, ◌==◌, string_key,
}
use lumin_acpool.Account.{
  Ext, ProviderKey, Account, ProviderInfo, AccountStats, UsageStats, TrackedUsage,
}

pub data StorageError : Type 0 where
  not_found already_exists version_conflict : StorageError
  failed : String → StorageError

pub data ResolverError : Type 0 where
  provider_not_found provider_inactive model_not_supported no_account : ResolverError
  failed : String → ResolverError

pub data SelectorError : Type 0 where
  empty_candidates no_available_account no_available_provider : SelectorError
  failed : String → SelectorError

-- storage.UpdateField: the bits that the callers set.
pub record UpdateField : Type 0 where
  pub credential : Bool
  pub status : Bool
  pub priority : Bool
  pub tags : Bool
  pub metadata : Bool
  pub usage_rules : Bool

-- storage.SearchFilter over what is searched for, with the predicate that its ExtraCond, if it has
-- one, was converted to.
pub record SearchFilter (A : Type 0) : Type 0 where
  pub provider_type : String
  pub provider_name : String
  pub status : ℕ
  pub supported_model : String
  pub extra : A → Bool

pub record SelectRequest : Type 0 where
  pub user_id : String
  pub model : String
  pub provider_key : Option ProviderKey
  pub tags : Map String String
  pub exclude_account_ids : List String

abbrev pub is_exact_provider : SelectRequest → Bool
is_exact_provider r = elim r.provider_key [
  | none ↦ Bool.false
  | some k ↦ not (k.ptype == "") && not (k.name == "")
]

abbrev pub is_provider_type_only : SelectRequest → Bool
is_provider_type_only r = elim r.provider_key [
  | none ↦ Bool.false
  | some k ↦ not (k.ptype == "") && k.name == ""
]

pub record Resolver (x : Ext) (W : Type 0) : Type 0 where
  pub resolve_provider : ProviderKey → String → W → Result ResolverError (ProviderInfo x) × W
  pub resolve_providers : String → String → W → Result ResolverError (List (ProviderInfo x)) × W
  pub resolve_accounts :
      ProviderKey → Map String String → W → Result ResolverError (List (Account x)) × W

pub record Selector (x : Ext) (W : Type 0) : Type 0 where
  pub select : List (Account x) → SelectRequest → W → Result SelectorError (Account x) × W

pub record GroupSelector (x : Ext) (W : Type 0) : Type 0 where
  pub select : List (ProviderInfo x) → SelectRequest → W → Result SelectorError (ProviderInfo x) × W

pub record Controller (x : Ext) (W : Type 0) : Type 0 where
  pub filter_available : List (Account x) → W → List (Account x) × W
  pub acquire : Account x → W → Bool × W
  pub release : String → W → W

pub record StatsStore (W : Type 0) : Type 0 where
  pub get_stats : String → W → Result StorageError AccountStats × W
  pub incr_success : String → W → Result StorageError (Unit {0}) × W
  pub incr_failure : String → String → W → Result StorageError ℕ × W
  pub update_last_used : String → ℕ → W → Result StorageError (Unit {0}) × W
  pub reset_consecutive_failures : String → W → Result StorageError (Unit {0}) × W

pub record AccountStorage (x : Ext) (W : Type 0) : Type 0 where
  pub get_account : String → W → Result StorageError (Account x) × W
  pub search_accounts : SearchFilter (Account x) → W → Result StorageError (List (Account x)) × W
  pub update_account : Account x → UpdateField → W → Result StorageError (Unit {0}) × W

pub record ProviderStorage (x : Ext) (W : Type 0) : Type 0 where
  pub get_provider : ProviderKey → W → Result StorageError (ProviderInfo x) × W
  pub search_providers :
      SearchFilter (ProviderInfo x) → W → Result StorageError (List (ProviderInfo x)) × W
  pub update_provider : ProviderInfo x → W → Result StorageError (Unit {0}) × W

-- storage.OccupancyStore; a map of counts has no entry for an account that it does not know.
pub record OccupancyStore (W : Type 0) : Type 0 where
  pub incr_occupancy : String → W → Result StorageError ℕ × W
  pub decr_occupancy : String → W → Result StorageError (Unit {0}) × W
  pub get_occupancies : List String → W → Result StorageError (Map String ℕ) × W

-- The operations that the balancer calls, each with usagerule.SourceTypeRequest.
pub record UsageTracker (W : Type 0) : Type 0 where
  pub record_usage : String → W → Result StorageError (Unit {0}) × W
  pub calibrate_from_response : String → W → Result StorageError (Unit {0}) × W

-- The operations that the health checks and the adaptive limit call.
pub record QuotaTracker (x : Ext) (W : Type 0) : Type 0 where
  pub calibrate : String → List (Option (UsageStats x)) → W → Result StorageError (Unit {0}) × W
  pub init_rules : String → List (Option x.Rule) → W → Result StorageError (Unit {0}) × W
  pub get_tracked_usages : String → W → Result StorageError (List (TrackedUsage x)) × W

-- A method that writes to the account returns it.
pub record CircuitBreaker (x : Ext) (W : Type 0) : Type 0 where
  pub record_success : Account x → W → Result StorageError (Account x) × W
  pub record_failure : Account x → ℕ → W → Result StorageError (Bool × Account x) × W

pub record CooldownManager (x : Ext) (W : Type 0) : Type 0 where
  pub start_cooldown : Account x → Option ℕ → W → Account x × W

-- What the Go runtime supplies: the clock, math/rand's shuffle, and the request's context.
pub record Runtime (x : Ext) (W : Type 0) : Type 0 where
  pub now : W → ℕ
  pub cancelled : W → Bool
  pub shuffle_providers : List (ProviderInfo x) → W → List (ProviderInfo x) × W
  pub shuffle_accounts : List (Account x) → W → List (Account x) × W
