-- ===== src/Health/Report.antt =====
-- health/report_handler.go: the callback that writes what the checks of a report found to the
-- account, the provider and the usage tracker. An account is passed on with each change to it.
pub mod Outcome
pub mod Saved
use lumin_acpool.Prelude.{
  ℕ, String, Bool, true, false, ◌&&◌, ◌||◌, not, Option, none, some, List, [], ◌∷◌, Map, get,
  string_key, Result, ok, err, if◌then◌else◌,
}
use lumin_acpool.Account.{
  Ext, Account, ProviderInfo, ProviderKey, Status, available, cooling_down, circuit_open,
  same_status, UsageStats,
}
use lumin_acpool.Interfaces.{
  StorageError, UpdateField, AccountStorage, ProviderStorage, QuotaTracker, CooldownManager,
}
use lumin_acpool.Health.Types.{Value, CheckResult, HealthReport}

pub record ReportHandlerDeps (x : Ext) (W : Type 0) : Type 0 where
  pub account_storage : AccountStorage x W
  pub provider_storage : Option (ProviderStorage x W)
  pub usage_tracker : Option (QuotaTracker x W)
  pub cooldown_manager : Option (CooldownManager x W)

abbrev pub usage_stats_key : String
usage_stats_key = "usage_stats"

abbrev pub cooldown_until_key : String
cooldown_until_key = "cooldown_until"

abbrev pub supported_models_key : String
supported_models_key = "supported_models"

abbrev pub usage_rules_key : String
usage_rules_key = "usage_rules"

abbrev pub credential_refreshed_key : String
credential_refreshed_key = "credential_refreshed"

module _ {x : Ext} where
  -- The value of `Data` under a key; the type assertions follow.
  abbrev pub field : String → CheckResult x → Option (Value x)
  field key r = elim r.fields [ none ↦ none | some m ↦ get key m ]

  abbrev pub as_stats : Option (Value x) → Option (List (Option (UsageStats x)))
  as_stats (some (Value.usage_stats l)) = some l
  as_stats _ = none

  abbrev pub as_models : Option (Value x) → List String
  as_models (some (Value.models l)) = l
  as_models _ = []

  abbrev pub as_rules : Option (Value x) → List (Option x.Rule)
  as_rules (some (Value.rules l)) = l
  as_rules _ = []

  abbrev pub as_flag : Option (Value x) → Bool
  as_flag (some (Value.flag b)) = b
  as_flag _ = false

  abbrev pub as_time : Option (Value x) → Option ℕ
  as_time (some (Value.time t)) = t
  as_time _ = none

-- What the loop over the results carries.
pub record Pass (x : Ext) : Type 0 where
  pub account : Account x
  pub need_update : Bool
  pub credential_changed : Bool

module _ {x : Ext} {W : Type 0} (deps : ReportHandlerDeps x W) (now : W → ℕ) where
  unfoldable pub handle_usage_stats : String → CheckResult x → W → W
  handle_usage_stats id r w = elim deps.usage_tracker [
    | none ↦ w
    | some tracker ↦ elim (as_stats (field usage_stats_key r)) [
      | none ↦ w
      | some stats ↦ (tracker.calibrate id stats w).1
    ]
  ]

  unfoldable pub handle_supported_models : ProviderKey → CheckResult x → W → W
  handle_supported_models key r w = elim deps.provider_storage [
    | none ↦ w
    | some storage ↦ elim (as_models (field supported_models_key r)) [
      | [] ↦ w
      | model ∷ models ↦
          let (p, w1) = storage.get_provider key w in
          elim p [
            | err _ ↦ w1
            | ok info ↦
                (storage.update_provider
                  (record info { supported_models = model ∷ models; updated_at = now w1 }) w1).1
          ]
    ]
  ]

  unfoldable pub handle_usage_rules_refresh : Account x → CheckResult x → W → Bool × Account x × W
  handle_usage_rules_refresh a r w = elim (as_rules (field usage_rules_key r)) [
    | [] ↦ (false, a, w)
    | rule ∷ rules ↦ (
      true,
      record a { usage_rules = rule ∷ rules },
      elim deps.usage_tracker [
        | none ↦ w
        | some tracker ↦ (tracker.init_rules a.id (rule ∷ rules) w).1
      ],
    )
  ]

  -- With the manager where there is one; else the time of the result, if it has one.
  unfoldable pub start_cooldown : Account x → Option ℕ → W → Account x × W
  start_cooldown a until w = elim deps.cooldown_manager [
    | some manager ↦ manager.start_cooldown a until w
    | none ↦ elim until [ none ↦ (a, w) | some t ↦ (record a { cooldown_until = some t }, w) ]
  ]

  unfoldable pub handle_cooldown : Account x → CheckResult x → W → Bool × Account x × W
  handle_cooldown a r w =
      let (b, w1) = start_cooldown a (as_time (field cooldown_until_key r)) w in
      if same_status a.status available || same_status a.status circuit_open
      then (true, record b { status = cooling_down }, w1)
      else (false, a, w)

  unfoldable pub handle_suggested_status :
      Status → Account x → CheckResult x → W → Bool × Account x × W
  handle_suggested_status suggested a r w =
      if same_status a.status suggested
      then (false, a, w)
      else if same_status suggested cooling_down
      then handle_cooldown a r w
      else if same_status suggested available
      then (
        true,
        record a { status = suggested; cooldown_until = none; circuit_open_until = none },
        w,
      )
      else (true, record a { status = suggested }, w)

  -- One round of the loop over the results.
  unfoldable pub handle_result : String → ProviderKey → CheckResult x → Pass x → W → Pass x × W
  handle_result id key r p w =
      let w1 = handle_usage_stats id r w in
      let w2 = handle_supported_models key r w1 in
      let (rules_changed, a, w3) = handle_usage_rules_refresh p.account r w2 in
      let refreshed = as_flag (field credential_refreshed_key r) in
      let (status_changed, b, w4) : Bool × Account x × W = elim r.suggested_status [
        | none ↦ (false, a, w3)
        | some suggested ↦ handle_suggested_status suggested a r w3
      ] in
      (
        record {
          account = b;
          need_update = status_changed || (rules_changed || p.need_update);
          credential_changed = refreshed || p.credential_changed;
        },
        w4,
      )

  unfoldable pub handle_results :
      String → ProviderKey → List (CheckResult x) → Pass x → W → Pass x × W
  handle_results id key [] p w = (p, w)
  handle_results id key (r ∷ rs) p w =
      let (q, w1) = handle_result id key r p w in handle_results id key rs q w1

  abbrev pub changed_fields : Pass x → UpdateField
  changed_fields p = record {
    credential = p.credential_changed;
    status = p.need_update;
    priority = false;
    tags = false;
    metadata = false;
    usage_rules = p.need_update;
  }

  unfoldable pub report_callback : HealthReport x → W → W
  report_callback report w = elim report.results [
    | [] ↦ w
    | first ∷ rest ↦
        let (r, w1) = deps.account_storage.get_account report.account_id w in
        elim r [
          | err _ ↦ w1
          | ok a ↦
              let start : Pass x = record {
                account = a;
                need_update = false;
                credential_changed = false;
              } in
              let (p, w2) =
                handle_results report.account_id report.provider_key (first ∷ rest) start w1 in
              if p.need_update || p.credential_changed
              then (deps.account_storage.update_account (record p.account { updated_at = now w2 })
                  (changed_fields p) w2).1
              else w2
        ]
  ]
