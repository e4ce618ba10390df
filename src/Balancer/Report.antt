-- ===== src/Balancer/Report.antt =====
-- balancer/default_balancer.go: `ReportSuccess`, `ReportFailure`, and the cooldown callback of
-- `newUsageTrackerWithCooldown`. The error of the call is what the code reads of it: its text, the
-- answers of the interfaces that `errors.As` finds in it, and the time after which to retry.
pub mod Release
pub mod Recovery
use lumin_acpool.Prelude.{
  ℕ, String, Bool, true, false, Option, none, some, Result, ok, err, if◌then◌else◌, ltb, nat_beq,
  ◌||◌,
}
use lumin_acpool.Account.{
  Ext, Account, Status, available, cooling_down, circuit_open, banned, invalidated, disabled,
  same_status,
}
use lumin_acpool.Interfaces.{StorageError, UpdateField, CooldownManager, AccountStorage, Runtime}
use lumin_acpool.Balancer.Types.{Error, Options}

-- A non-nil `callErr`.
pub record CallError : Type 0 where
  pub message : String
  -- rateLimitError, httpStatusError, retryAfterError
  pub rate_limit : Option Bool
  pub status_code : Option ℕ
  pub retry_after : Option (Option ℕ)

pub is_rate_limit_error : Option CallError → Bool
is_rate_limit_error none = false
is_rate_limit_error (some e) = elim e.rate_limit [
  | some answer ↦ answer
  | none ↦ elim e.status_code [ some code ↦ nat_beq code 429 | none ↦ false ]
]

pub extract_retry_after : Option CallError → Option ℕ
extract_retry_after none = none
extract_retry_after (some e) = elim e.retry_after [ some until ↦ until | none ↦ none ]

abbrev pub error_message : Option CallError → String
error_message none = ""
error_message (some e) = e.message

-- storage.UpdateFieldStatus
abbrev pub status_field : UpdateField
status_field = record {
  credential = false;
  status = true;
  priority = false;
  tags = false;
  metadata = false;
  usage_rules = false;
}

abbrev pub get_account_error : StorageError → Error
get_account_error StorageError.not_found = Error.account_not_found
get_account_error e = Error.get_account e

-- The statuses that a retry after a version conflict leaves alone.
abbrev pub is_settled : Status → Bool
is_settled s =
    same_status s banned
    || same_status s invalidated
    || same_status s disabled
    || same_status s circuit_open

-- `nil`, or the error that is returned.
abbrev pub Done : Type 0
Done = Option Error

module _ {x : Ext} {W : Type 0} (b : Options x W) where
  abbrev pub release : String → W → W
  release id w = b.occupancy_controller.release id w

  -- `StatsStore.ResetConsecutiveFailures`, its error dropped.
  pub reset_failures : String → W → W
  reset_failures id w = elim b.stats_store [
    | none ↦ w
    | some stats ↦ (stats.reset_consecutive_failures id w).1
  ]

  -- The consecutive failures that `ReportSuccess` reads; 0 without a store, or when it fails.
  pub known_failures : String → W → ℕ × W
  known_failures id w = elim b.stats_store [
    | none ↦ (0, w)
    | some stats ↦
        let (r, w') = stats.get_stats id w in
        elim r [ ok s ↦ (s.consecutive_failures, w') | err _ ↦ (0, w') ]
  ]

  -- `CircuitOpen → Available`, after the breaker has been told. The last component says whether
  -- the report returns here.
  pub recover : Account x → W → Done × Bool × W
  recover acct w =
      if same_status acct.status circuit_open
      then (let now = b.runtime.now w in
          let acct' : Account x = record acct {
            status = available;
            circuit_open_until = none;
            updated_at = now;
          } in
          let (r, w') = b.account_storage.update_account acct' status_field w in
          elim r [
            | ok _ ↦ (none, false, w')
            | err StorageError.version_conflict ↦ (none, true, w')
            | err e ↦ (some (Error.update_account e), true, w')
          ])
      else (none, false, w)

  pub check_recovery : String → W → Done × Bool × W
  check_recovery id w =
      let (r, w1) = b.account_storage.get_account id w in
      elim r [
        | err e ↦ (some (get_account_error e), true, w1)
        | ok acct ↦ elim b.circuit_breaker [
          | none ↦ (none, false, w1)
          | some breaker ↦
              let (told, w2) = breaker.record_success acct w1 in
              elim told [
                | err e ↦ (some (Error.breaker_success e), true, w2)
                | ok acct' ↦ recover acct' w2
              ]
        ]
      ]

  -- Step 3 of `ReportSuccess`.
  pub notify_success : String → W → Done × W
  notify_success id w = elim b.circuit_breaker [
    | none ↦ (none, w)
    | some _ ↦
        let (failures, w1) = known_failures id w in
        let (done, stop, w2) = check_recovery id w1 in
        if ltb 0 failures
        then if stop then (done, w2) else (none, reset_failures id w2)
        else (none, reset_failures id w1)
  ]

  pub count_success : String → W → Result StorageError (Unit {0}) × W
  count_success id w = elim b.stats_store [
    | none ↦ (ok tt, w)
    | some stats ↦ stats.incr_success id w
  ]

  pub track_usage : String → W → Result StorageError (Unit {0}) × W
  track_usage id w = elim b.usage_tracker [
    | none ↦ (ok tt, w)
    | some tracker ↦ tracker.record_usage id w
  ]

  pub report_success : String → W → Done × W
  report_success id w =
      let (counted, w1) = count_success id (release id w) in
      elim counted [
        | err e ↦ (some (Error.incr_success e), w1)
        | ok _ ↦
            let (tracked, w2) = track_usage id w1 in
            elim tracked [ err e ↦ (some (Error.record_usage e), w2) | ok _ ↦ notify_success id w2 ]
      ]

  pub count_failure : String → String → W → Result StorageError ℕ × W
  count_failure id message w = elim b.stats_store [
    | none ↦ (ok 0, w)
    | some stats ↦ stats.incr_failure id message w
  ]

  -- The second try after a version conflict.
  pub retry_update : String → Account x → W → W
  retry_update id acct w =
      let (r, w1) = b.account_storage.get_account id w in
      elim r [
        | err _ ↦ w1
        | ok latest ↦
            let latest' : Account x = record latest {
              status = acct.status;
              circuit_open_until = acct.circuit_open_until;
              cooldown_until = acct.cooldown_until;
              updated_at = b.runtime.now w1;
            } in
            if is_settled latest.status
            then w1
            else (b.account_storage.update_account latest' status_field w1).1
      ]

  -- Step 5 of `ReportFailure`.
  pub save_status : String → Account x → W → Done × W
  save_status id acct w =
      let acct' : Account x = record acct { updated_at = b.runtime.now w } in
      let (r, w1) = b.account_storage.update_account acct' status_field w in
      elim r [
        | ok _ ↦ (none, w1)
        | err StorageError.version_conflict ↦ (none, retry_update id acct' w1)
        | err e ↦ (some (Error.update_account e), w1)
      ]

  pub calibrate : String → W → W
  calibrate id w = elim b.usage_tracker [
    | none ↦ w
    | some tracker ↦ (tracker.calibrate_from_response id w).1
  ]

  -- Step 4 of `ReportFailure`, on a rate limit error.
  pub on_rate_limit : String → Account x → Option CallError → W → Done × W
  on_rate_limit id acct call_err w =
      let w1 = calibrate id w in
      elim b.cooldown_manager [
        | none ↦ (none, w1)
        | some manager ↦
            let (acct', w2) = manager.start_cooldown acct (extract_retry_after call_err) w1 in
            save_status id (record acct' { status = cooling_down }) w2
      ]

  -- Step 4 of `ReportFailure`, on any other error.
  pub on_other_error : String → Account x → ℕ → W → Done × W
  on_other_error id acct failures w = elim b.circuit_breaker [
    | none ↦ (none, w)
    | some breaker ↦
        let (told, w1) = breaker.record_failure acct failures w in
        elim told [
          | err e ↦ (some (Error.breaker_failure e), w1)
          | ok (tripped, acct') ↦
              if tripped
              then save_status id (record acct' { status = circuit_open }) w1
              else (none, w1)
        ]
  ]

  pub report_failure : String → Option CallError → W → Done × W
  report_failure id call_err w =
      let (counted, w1) = count_failure id (error_message call_err) (release id w) in
      elim counted [
        | err e ↦ (some (Error.incr_failure e), w1)
        | ok failures ↦
            let w2 = (track_usage id w1).1 in
            let (r, w3) = b.account_storage.get_account id w2 in
            elim r [
              | err e ↦ (some (get_account_error e), w3)
              | ok acct ↦
                  if is_rate_limit_error call_err
                  then on_rate_limit id acct call_err w3
                  else on_other_error id acct failures w3
            ]
      ]

-- The callback that `newUsageTrackerWithCooldown` registers: it cools an available account down.
pub cooldown_callback :
    {x : Ext} {W : Type 0} → Runtime x W → AccountStorage x W → CooldownManager x W → String → W → W
cooldown_callback runtime accounts manager id w =
    let (r, w1) = accounts.get_account id w in
    elim r [
      | err _ ↦ w1
      | ok acct ↦
          let (acct', w2) = manager.start_cooldown acct none w1 in
          if same_status acct.status available
          then (accounts.update_account
              (record acct' { status = cooling_down; updated_at = runtime.now w2 }) status_field
              w2).1
          else w1
    ]
