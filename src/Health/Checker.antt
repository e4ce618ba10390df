-- ===== src/Health/Checker.antt =====
-- health/default_checker.go: registration with the cached order, the run of all checks on a target,
-- and the background ticks. `T` is the type of the targets and `account_of` their Account method;
-- the lock is held for each step.
pub mod Skips
pub mod Registry
pub mod Due
use lumin_acpool.Prelude.{
  ℕ, zero, suc, ◌+◌, String, ℤ, pos, pos_part, ltb_ℤ, beq_ℤ, Bool, true, false, ◌&&◌, ◌||◌, not,
  Option, none, some, List, [], ◌∷◌, ◌++◌, map, Map, get, put, del, string_key, leb, Result, ok,
  err, if◌then◌else◌,
}
use lumin_acpool.Account.{Ext, Account, account_key}
use lumin_acpool.Health.Types.{HealthCheck, CheckResult, CheckStatus, HealthReport, blocks}
use lumin_acpool.Health.Sort.{SortError, topological_sort}

pub record CheckSchedule (x : Ext) (T W : Type 0) : Type 0 where
  pub check : HealthCheck x T W
  pub interval : ℤ
  pub enabled : Bool

-- `running` says that `cancel` is set.
pub record Checker (x : Ext) (T W : Type 0) : Type 0 where
  pub schedules : Map String (CheckSchedule x T W)
  pub sorted_checks : List (HealthCheck x T W)
  pub sort_err : Option SortError
  pub target_provider : Option (W → List T × W)
  pub on_reports : List (HealthReport x → W → W)
  pub leader_elector : Option (W → Bool)
  pub running : Bool

pub data CheckerError : Type 0 where
  topological_sort_failed : SortError → CheckerError
  not_registered target_provider_not_set already_running : CheckerError

unfoldable pub should_skip : List String → Map String CheckStatus → Bool
should_skip [] statuses = false
should_skip (dep ∷ deps) statuses =
    elim (get dep statuses) [ none ↦ false | some st ↦ blocks st ] || should_skip deps statuses

module _ {x : Ext} {W : Type 0} where
  unfoldable pub run_callbacks : List (HealthReport x → W → W) → HealthReport x → W → W
  run_callbacks [] report w = w
  run_callbacks (cb ∷ cbs) report w = run_callbacks cbs report (cb report w)

module _ {x : Ext} {T W : Type 0} where
  unfoldable pub enabled_checks : Map String (CheckSchedule x T W) → List (HealthCheck x T W)
  enabled_checks [] = []
  enabled_checks ((name, s) ∷ m) =
      let rest = enabled_checks m in if s.enabled then s.check ∷ rest else rest

  -- `rebuildSortedChecksLocked`
  unfoldable pub rebuild : Checker x T W → Checker x T W
  rebuild c = elim (enabled_checks c.schedules) [
    | [] ↦ record c { sorted_checks = []; sort_err = none }
    | first ∷ rest ↦ elim (topological_sort (first ∷ rest)) [
      | ok sorted ↦ record c { sorted_checks = sorted; sort_err = none }
      | err e ↦ record c { sorted_checks = []; sort_err = some e }
    ]
  ]

  unfoldable pub new_checker : Checker x T W
  new_checker = record {
    schedules = [];
    sorted_checks = [];
    sort_err = none;
    target_provider = none;
    on_reports = [];
    leader_elector = none;
    running = false;
  }

  unfoldable pub register : CheckSchedule x T W → Checker x T W → Checker x T W
  register s c = rebuild (record c { schedules = put s.check.name s c.schedules })

  unfoldable pub unregister : String → Checker x T W → Checker x T W
  unregister name c = rebuild (record c { schedules = del name c.schedules })

  unfoldable list_checks : Checker x T W → List (CheckSchedule x T W)
  list_checks c = map (λ e. e.1) c.schedules

  unfoldable pub start : Checker x T W → Result CheckerError (Checker x T W)
  start c = elim c.target_provider [
    | none ↦ err target_provider_not_set
    | some _ ↦ if c.running then err already_running else ok (record c { running = true })
  ]

  unfoldable pub stop : Checker x T W → Checker x T W
  stop c = record c { running = false }

  -- The body of the loop of `getMinInterval`, and the loop from the minimum so far.
  unfoldable pub tighten : ℤ → CheckSchedule x T W → ℤ
  tighten best s =
      if s.enabled && ltb_ℤ (pos 0) s.interval
      then if beq_ℤ best (pos 0) || ltb_ℤ s.interval best then s.interval else best
      else best

  unfoldable pub min_interval_from : ℤ → Map String (CheckSchedule x T W) → ℤ
  min_interval_from best [] = best
  min_interval_from best ((name, s) ∷ m) = min_interval_from (tighten best s) m

  unfoldable pub get_min_interval : Checker x T W → ℤ
  get_min_interval c = min_interval_from (pos 0) c.schedules

  unfoldable pub is_leader : Checker x T W → W → Bool
  is_leader c w = elim c.leader_elector [ none ↦ true | some elected ↦ elected w ]

  -- Whether a tick at `now` runs the check; `last_run` holds the times of the last runs.
  abbrev pub is_due : Map String ℕ → ℕ → CheckSchedule x T W → Bool
  is_due last_run now s =
      s.enabled && ltb_ℤ (pos 0) s.interval && elim (get s.check.name last_run) [
        | none ↦ true
        | some last ↦ leb (last + pos_part s.interval) now
      ]

  unfoldable pub due_checks :
      Map String ℕ → ℕ → Map String (CheckSchedule x T W) → List (HealthCheck x T W)
  due_checks last_run now [] = []
  due_checks last_run now ((name, s) ∷ m) =
      let rest = due_checks last_run now m in if is_due last_run now s then s.check ∷ rest else rest

  unfoldable pub mark_run : List (HealthCheck x T W) → ℕ → Map String ℕ → Map String ℕ
  mark_run [] now last_run = last_run
  mark_run (c ∷ cs) now last_run = mark_run cs now (put c.name now last_run)

module _ {x : Ext} {T W : Type 0} (account_of : T → Account x) (now : W → ℕ) where
  abbrev pub skipped_result : HealthCheck x T W → W → CheckResult x
  skipped_result c w = record {
    check_name = c.name;
    status = CheckStatus.skipped;
    severity = c.severity;
    suggested_status = none;
    fields = none;
    timestamp = now w;
  }

  abbrev pub run_check : T → Map String CheckStatus → HealthCheck x T W → W → CheckResult x × W
  run_check target statuses c w =
      if should_skip c.depends_on statuses then (skipped_result c w, w) else c.check target w

  -- The loop of `RunAll`.
  unfoldable pub run_checks :
      T → List (HealthCheck x T W) → Map String CheckStatus → W → List (CheckResult x) × W
  run_checks target [] statuses w = ([], w)
  run_checks target (c ∷ cs) statuses w =
      let (result, w1) = run_check target statuses c w in
      let (results, w2) = run_checks target cs (put c.name result.status statuses) w1 in
      (result ∷ results, w2)

  abbrev pub report_of : T → List (CheckResult x) → W → HealthReport x
  report_of target results w = record {
    account_id = (account_of target).id;
    provider_key = account_key (account_of target);
    results = results;
    timestamp = now w;
  }

  unfoldable pub run_all : Checker x T W → T → W → Result CheckerError (HealthReport x) × W
  run_all c target w = elim c.sort_err [
    | some e ↦ (err (topological_sort_failed e), w)
    | none ↦
        let (results, w') = run_checks target c.sorted_checks [] w in
        (ok (report_of target results w'), w')
  ]

  unfoldable pub run_one : Checker x T W → T → String → W → Result CheckerError (CheckResult x) × W
  run_one c target name w = elim (get name c.schedules) [
    | none ↦ (err not_registered, w)
    | some s ↦ let (result, w') = s.check.check target w in (ok result, w')
  ]

module _ {x : Ext} {T W : Type 0} (account_of : T → Account x) (now : W → ℕ)
    (cancelled : W → Bool) where
  -- `runFullScan`, after the targets have been provided.
  unfoldable pub scan_targets : Checker x T W → List T → W → W
  scan_targets c [] w = w
  scan_targets c (target ∷ targets) w =
      let (r, w1) = run_all account_of now c target w in
      let w2 : W = elim r [ err _ ↦ w1 | ok report ↦ run_callbacks c.on_reports report w1 ] in
      let rest = scan_targets c targets w2 in if cancelled w then w else rest

  unfoldable pub run_full_scan : Checker x T W → (W → List T × W) → W → W
  run_full_scan c provide w = let (targets, w') = provide w in scan_targets c targets w'

  -- The due checks on one target; `none` in place of the results where the context ended.
  unfoldable pub run_due : T → List (HealthCheck x T W) → W → Option (List (CheckResult x)) × W
  run_due target [] w = (some [], w)
  run_due target (c ∷ cs) w =
      let (result, w1) = c.check target w in
      let (rest, w2) = run_due target cs w1 in
      if cancelled w
      then (none, w)
      else (elim rest [ none ↦ none | some results ↦ some (result ∷ results) ], w2)

  -- Whether all targets were checked.
  unfoldable pub tick_targets : Checker x T W → List (HealthCheck x T W) → List T → W → Bool × W
  tick_targets c due [] w = (true, w)
  tick_targets c due (target ∷ targets) w =
      let (r, w1) = run_due target due w in
      let w2 : W = elim r [
        | none ↦ w1
        | some [] ↦ w1
        | some (first ∷ results) ↦
            run_callbacks c.on_reports (report_of account_of now target (first ∷ results) w1) w1
      ] in
      let rest = tick_targets c due targets w2 in elim r [ none ↦ (false, w1) | some _ ↦ rest ]

  unfoldable pub tick_run :
      Checker x T W → (W → List T × W) → ℕ → Map String ℕ → W → Map String ℕ × W
  tick_run c provide at last_run w =
      if is_leader c w
      then elim (due_checks last_run at c.schedules) [
        | [] ↦ (last_run, w)
        | first ∷ rest ↦
            let (targets, w1) = provide w in
            let (complete, w2) = tick_targets c (first ∷ rest) targets w1 in
            (if complete then mark_run (first ∷ rest) at last_run else last_run, w2)
      ]
      else (last_run, w)

  -- The ticks that come before the context ends, by their times.
  unfoldable pub background_ticks : Checker x T W → (W → List T × W) → List ℕ → Map String ℕ → W → W
  background_ticks c provide [] last_run w = w
  background_ticks c provide (at ∷ ticks) last_run w =
      let (last_run', w') = tick_run c provide at last_run w in
      background_ticks c provide ticks last_run' w'

  -- `backgroundLoop`, on schedules that do not change while it runs.
  unfoldable pub background_loop : Checker x T W → (W → List T × W) → List ℕ → W → W
  background_loop c provide ticks w =
      let scanned : W = if is_leader c w then run_full_scan c provide w else w in
      if ltb_ℤ (pos 0) (get_min_interval c)
      then background_ticks c provide ticks [] scanned
      else scanned
