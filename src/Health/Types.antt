-- ===== src/Health/Types.antt =====
-- health/check.go: severities, the results of checks, reports, and the interface of a check item.
use lumin_acpool.Prelude.{ℕ, String, Bool, ◌&&◌, ◌||◌, Option, List, [], ◌∷◌, Map, keep}
use lumin_acpool.Account.{Ext, ProviderKey, Status, UsageStats}

pub data CheckSeverity : Type 0 where
  info warning critical : CheckSeverity

pub data CheckStatus : Type 0 where
  passed warning failed skipped error : CheckStatus

abbrev pub is_failed : CheckStatus → Bool
is_failed CheckStatus.failed = Bool.true
is_failed _ = Bool.false

abbrev pub is_warning : CheckStatus → Bool
is_warning CheckStatus.warning = Bool.true
is_warning _ = Bool.false

abbrev pub is_passed : CheckStatus → Bool
is_passed CheckStatus.passed = Bool.true
is_passed _ = Bool.false

abbrev pub is_critical : CheckSeverity → Bool
is_critical CheckSeverity.critical = Bool.true
is_critical _ = Bool.false

-- The statuses of a prerequisite that keep a check from running.
abbrev pub blocks : CheckStatus → Bool
blocks CheckStatus.failed = Bool.true
blocks CheckStatus.error = Bool.true
blocks CheckStatus.skipped = Bool.true
blocks _ = Bool.false

abbrev pub severity_text : CheckSeverity → String
severity_text CheckSeverity.info = "info"
severity_text CheckSeverity.warning = "warning"
severity_text CheckSeverity.critical = "critical"

abbrev pub check_status_text : CheckStatus → String
check_status_text CheckStatus.passed = "passed"
check_status_text CheckStatus.warning = "warning"
check_status_text CheckStatus.failed = "failed"
check_status_text CheckStatus.skipped = "skipped"
check_status_text CheckStatus.error = "error"

module _ (x : Ext) where
  open x use {Other, Rule}

  -- The values of the map in `Data`, as far as the type assertions tell them apart.
  pub data Value : Type 0 where
    usage_stats : List (Option (UsageStats x)) → Value
    time : Option ℕ → Value
    models : List String → Value
    rules : List (Option Rule) → Value
    flag : Bool → Value
    other : Other → Value

  -- `fields` is `Data`: `none` where it is nil or no map. Messages and durations
  -- are left out.
  pub record CheckResult : Type 0 where
    pub check_name : String
    pub status : CheckStatus
    pub severity : CheckSeverity
    pub suggested_status : Option Status
    pub fields : Option (Map String Value)
    pub timestamp : ℕ

  pub record HealthReport : Type 0 where
    pub account_id : String
    pub provider_key : ProviderKey
    pub results : List CheckResult
    pub timestamp : ℕ

-- A check item over the targets `T`; a run of it reads and changes the state `W` of the world.
pub record HealthCheck (x : Ext) (T W : Type 0) : Type 0 where
  pub name : String
  pub severity : CheckSeverity
  pub depends_on : List String
  pub check : T → W → CheckResult x × W

module _ {x : Ext} where
  unfoldable has_critical_failure : List (CheckResult x) → Bool
  has_critical_failure [] = Bool.false
  has_critical_failure (r ∷ rs) =
      (is_failed r.status && is_critical r.severity) || has_critical_failure rs

  unfoldable failed_checks : List (CheckResult x) → List (CheckResult x)
  failed_checks rs = keep (λ r. is_failed r.status) rs

  unfoldable warning_checks : List (CheckResult x) → List (CheckResult x)
  warning_checks rs = keep (λ r. is_warning r.status) rs

  unfoldable passed_checks : List (CheckResult x) → List (CheckResult x)
  passed_checks rs = keep (λ r. is_passed r.status) rs
