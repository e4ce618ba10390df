-- ===== src/Health/Checks.antt =====
-- health/checks/*.go: the built-in check items. The credential's methods and the provider's client
-- come from outside the repository; `now` is the clock, read once for each check.
pub mod Recovery
pub mod Refresh
use lumin_acpool.Prelude.{
  ℕ, ◌+◌, String, Bool, true, false, ◌&&◌, not, Option, none, some, List, [], ◌∷◌, Map, put,
  string_key, Result, ok, err, if◌then◌else◌, ltb, ◌==◌,
}
use lumin_acpool.Account.{
  Ext, Account, Status, available, cooling_down, circuit_open, expired, invalidated, banned,
  is_cooldown_expired, is_circuit_open_expired, UsageStats,
}
use lumin_acpool.Health.Types.{
  CheckSeverity, info, critical, CheckStatus, Value, CheckResult, HealthCheck,
}
use lumin_acpool.Health.Report.{
  usage_stats_key, cooldown_until_key, supported_models_key, usage_rules_key,
  credential_refreshed_key,
}

pub data ErrorType : Type 0 where
  forbidden rate_limit unauthorized bad_request unknown : ErrorType

-- What `errors.As` finds as a providers.HTTPError.
pub record HttpError : Type 0 where
  pub error_type : ErrorType
  pub cooldown_until : Option ℕ

-- An error of the client: whether it is ErrInvalidGrant, and the HTTPError in it.
pub record ClientError : Type 0 where
  pub invalid_grant : Bool
  pub http : Option HttpError

-- credentials.Credential and providers.Provider. `Refresh` writes to the credential in place, which
-- the state holds.
pub record Client (x : Ext) (W : Type 0) : Type 0 where
  pub validate : x.Credential → Bool
  pub is_expired : x.Credential → ℕ → Bool
  pub get_expires_at : x.Credential → Option ℕ
  pub refresh : x.Credential → W → Option ClientError × W
  pub get_usage_stats : x.Credential → W → Result ClientError (List (Option (UsageStats x))) × W
  pub is_triggered : UsageStats x → Bool
  pub get_usage_rules : x.Credential → W → Result ClientError (List (Option x.Rule)) × W
  pub list_models : x.Credential → W → Result ClientError (List String) × W
  pub generate_content : x.Credential → W → Option ClientError × W

module _ {x : Ext} where
  -- A result without a suggestion and without data.
  abbrev pub plain : String → CheckSeverity → CheckStatus → ℕ → CheckResult x
  plain name severity status at = record {
    check_name = name;
    status = status;
    severity = severity;
    suggested_status = none;
    fields = none;
    timestamp = at;
  }

  abbrev pub suggest : Status → CheckResult x → CheckResult x
  suggest s r = record r { suggested_status = some s }

  abbrev pub with_field : String → Value x → CheckResult x → CheckResult x
  with_field key v r = record r { fields = some ((key, v) ∷ []) }

  -- The result of CredentialRefreshCheck after a refresh.
  abbrev pub refreshed_result : ℕ → CheckResult x
  refreshed_result at =
      with_field credential_refreshed_key (Value.flag true)
        (suggest available (plain "credential_refresh" critical CheckStatus.passed at))

  unfoldable pub recovery_result : Bool → ℕ → CheckResult x
  recovery_result elapsed at =
      if elapsed
      then suggest available (plain "recovery" critical CheckStatus.passed at)
      else plain "recovery" critical CheckStatus.warning at

  -- RecoveryCheck
  unfoldable pub recovery : Account x → ℕ → CheckResult x
  recovery a at = elim a.status [
    | cooling_down ↦ recovery_result (is_cooldown_expired a at) at
    | circuit_open ↦ recovery_result (is_circuit_open_expired a at) at
    | _ ↦ plain "recovery" critical CheckStatus.passed at
  ]

module _ {x : Ext} {W : Type 0} (client : Client x W) (now : W → ℕ) where
  -- CredentialValidityCheck
  unfoldable pub credential_validity : Account x → W → CheckResult x
  credential_validity a w =
      if client.validate a.credential
      then plain "credential_validity" critical CheckStatus.passed (now w)
      else suggest invalidated (plain "credential_validity" critical CheckStatus.failed (now w))

  -- The branches of CredentialRefreshCheck on the error of `Refresh`.
  unfoldable pub refresh_failed : Account x → ClientError → ℕ → CheckResult x
  refresh_failed a e at =
      let failed = plain "credential_refresh" critical CheckStatus.failed at in
      let other = plain "credential_refresh" critical CheckStatus.error at in
      let fallback = if client.is_expired a.credential at then suggest expired other else other in
      if e.invalid_grant then suggest invalidated failed else elim e.http [
        | none ↦ fallback
        | some h ↦ elim h.error_type [
          | forbidden ↦ suggest banned failed
          | rate_limit ↦
              with_field cooldown_until_key (Value.time h.cooldown_until)
                (suggest cooling_down failed)
          | _ ↦ fallback
        ]
      ]

  unfoldable pub refresh_now : Account x → W → CheckResult x × W
  refresh_now a w =
      let (r, w1) = client.refresh a.credential w in
      elim r [ none ↦ (refreshed_result (now w), w1) | some e ↦ (refresh_failed a e (now w), w1) ]

  -- CredentialRefreshCheck with its threshold; `none` is the panic on a credential that has not
  -- expired and has no time of expiry.
  unfoldable pub credential_refresh : ℕ → Account x → W → Option (CheckResult x × W)
  credential_refresh threshold a w =
      if client.is_expired a.credential (now w)
      then some (refresh_now a w)
      else elim (client.get_expires_at a.credential) [
        | none ↦ none
        | some until ↦
            if ltb (now w) (until + threshold)
            then some (plain "credential_refresh" critical CheckStatus.passed (now w), w)
            else some (refresh_now a w)
      ]

  -- ModelDiscoveryCheck
  unfoldable pub model_discovery : Account x → W → CheckResult x × W
  model_discovery a w =
      let (r, w1) = client.list_models a.credential w in
      elim r [
        | err _ ↦ (plain "model_discovery" info CheckStatus.error (now w), w1)
        | ok [] ↦ (plain "model_discovery" info CheckStatus.warning (now w), w1)
        | ok (m ∷ ms) ↦ (
          with_field supported_models_key (Value.models (m ∷ ms))
              (plain "model_discovery" info CheckStatus.passed (now w)),
          w1,
        )
      ]

  -- UsageRulesRefreshCheck
  unfoldable pub usage_rules_refresh : Account x → W → CheckResult x × W
  usage_rules_refresh a w =
      let (r, w1) = client.get_usage_rules a.credential w in
      elim r [
        | err _ ↦ (plain "usage_rules_refresh" info CheckStatus.error (now w), w1)
        | ok [] ↦ (plain "usage_rules_refresh" info CheckStatus.passed (now w), w1)
        | ok (m ∷ ms) ↦ (
          with_field usage_rules_key (Value.rules (m ∷ ms))
              (plain "usage_rules_refresh" info CheckStatus.passed (now w)),
          w1,
        )
      ]

  -- ProbeCheck, after its request has been built; the result by the error of `GenerateContent`.
  unfoldable pub probe_result : Option ClientError → ℕ → CheckResult x
  probe_result none at = plain "probe" CheckSeverity.warning CheckStatus.passed at
  probe_result (some e) at =
      let failed = plain "probe" CheckSeverity.warning CheckStatus.failed at in
      let other = plain "probe" CheckSeverity.warning CheckStatus.error at in
      elim e.http [
        | none ↦ other
        | some h ↦ elim h.error_type [
          | forbidden ↦ suggest banned failed
          | rate_limit ↦
              with_field cooldown_until_key (Value.time h.cooldown_until)
                (suggest cooling_down failed)
          | unauthorized ↦ suggest expired failed
          | bad_request ↦ plain "probe" CheckSeverity.warning CheckStatus.passed at
          | unknown ↦ other
        ]
      ]

  unfoldable pub probe : Account x → W → CheckResult x × W
  probe a w = let (r, w1) = client.generate_content a.credential w in (probe_result r (now w), w1)

-- What the loop of UsageQuotaCheck finds: the first rule that is exhausted, with the end of its
-- window, or else the least remaining ratio.
pub data Quota (x : Ext) : Type 0 where
  exhausted : Option ℕ → Quota x
  least : x.Float → Quota x

module _ {x : Ext} {W : Type 0} (client : Client x W) (now : W → ℕ) where
  unfoldable pub lower_ratio : UsageStats x → x.Float → x.Float
  lower_ratio s best = elim s.rule [
    | none ↦ best
    | some rule ↦
        let ratio = x.div s.remain (x.total rule) in
        if x.lt (x.decimal 0 0) (x.total rule) && x.lt ratio best then ratio else best
  ]

  unfoldable pub scan_quota : List (Option (UsageStats x)) → x.Float → Quota x
  scan_quota [] best = least best
  scan_quota (none ∷ stats) best = scan_quota stats best
  scan_quota (some s ∷ stats) best =
      let rest = scan_quota stats (lower_ratio s best) in
      if client.is_triggered s then exhausted s.end_time else rest

  abbrev pub stats_fields : List (Option (UsageStats x)) → Map String (Value x)
  stats_fields stats = (usage_stats_key, Value.usage_stats stats) ∷ []

  -- UsageQuotaCheck with its threshold, on the usage that the client reports.
  unfoldable pub quota_result : x.Float → List (Option (UsageStats x)) → ℕ → CheckResult x
  quota_result threshold stats at = elim (scan_quota stats (x.decimal 1 0)) [
    | exhausted end ↦
        record (suggest cooling_down (plain "usage_quota" critical CheckStatus.failed at)) {
          fields = some (elim end [
            | none ↦ stats_fields stats
            | some t ↦ put cooldown_until_key (Value.time (some t)) (stats_fields stats)
          ]);
        }
    | least ratio ↦
        let bound = if x.le threshold (x.decimal 0 0) then x.decimal 1 2 else threshold in
        let status = if x.lt ratio bound then CheckStatus.warning else CheckStatus.passed in
        record (plain "usage_quota" critical status at) { fields = some (stats_fields stats) }
  ]

  unfoldable pub usage_quota : x.Float → Account x → W → CheckResult x × W
  usage_quota threshold a w =
      let (r, w1) = client.get_usage_stats a.credential w in
      elim r [
        | err _ ↦ (plain "usage_quota" critical CheckStatus.error (now w), w1)
        | ok stats ↦ (quota_result threshold stats (now w), w1)
      ]
