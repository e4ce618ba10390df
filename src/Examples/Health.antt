-- ===== src/Examples/Health.antt =====
-- Three checks on a small world: the credential, its refresh, and a probe that depends on the refresh;
-- and the handling of reports on a storage of one account.
use mathlib.Core.List.{Memᴰ}
use lumin_acpool.Prelude.{
  ℕ, ◌+◌, ◌≤◌, ◌<◌, String, pos, true, false, Option, none, some, List, [], ◌∷◌, Map, get, put, ok,
  err, string_key, ◌==◌, arith, ◌≡◌, refl, leb, All, if◌then◌else◌, subst, sym,
}
use lumin_acpool.Account.{Account, cooling_down, disabled, key_eq, account_key}
use lumin_acpool.Health.Types.{HealthCheck, CheckResult, CheckStatus, CheckSeverity, HealthReport}
use lumin_acpool.Health.Checks.{plain, recovery}
use lumin_acpool.Health.Sort.{
  topological_sort, check_map, build, sources, drain, settle, count_dependencies, checks_of,
}
use lumin_acpool.Health.Sort.Degrees.{occurs}
use lumin_acpool.Health.Sort.Drain.{Ordered}
use lumin_acpool.Health.Sort.Order.{names, Ranked, topological_sort_order, topological_sort_total}
use lumin_acpool.Health.Checker.{
  Checker, CheckSchedule, run_all, run_checks, register, rebuild, enabled_checks, is_due, tick_run,
  is_leader, should_skip,
}
use lumin_acpool.Health.Checker.Skips.{Explained, record_statuses}
use lumin_acpool.Health.Checker.Registry.{Built, run_all_explained}
use lumin_acpool.Health.Checker.Due.{tick_run_spaces}
use lumin_acpool.Interfaces.{StorageError}
use lumin_acpool.Health.Report.{ReportHandlerDeps, report_callback, handle_result}
use lumin_acpool.Health.Report.Saved.{Cools, Credentials, report_callback-credential_of}
use lumin_acpool.Health.Report.Outcome.{revived}
use lumin_acpool.Health.Checks.{Client, credential_refresh, recovery}
use lumin_acpool.Health.Checks.Recovery.{pass_of, handle_result-recovery}
use lumin_acpool.Health.Checks.Refresh.{credential_refresh_threshold, credential_refresh_revives}
use lumin_acpool.Examples.World.{ext, account_named}

-- The world is a clock; a check that fails takes one tick, any other none.
abbrev check_named : String → List String → CheckStatus → HealthCheck ext (Account ext) ℕ
check_named name deps st = record {
  name = name;
  severity = CheckSeverity.critical;
  depends_on = deps;
  check = λ a w. (plain name CheckSeverity.critical st w, w + 1);
}

abbrev validity : HealthCheck ext (Account ext) ℕ
validity = check_named "credential_validity" [] CheckStatus.failed

abbrev refresh : HealthCheck ext (Account ext) ℕ
refresh = check_named "credential_refresh" ("credential_validity" ∷ []) CheckStatus.passed

abbrev probe : HealthCheck ext (Account ext) ℕ
probe = check_named "probe" ("credential_refresh" ∷ "usage" ∷ []) CheckStatus.passed

abbrev checks : List (HealthCheck ext (Account ext) ℕ)
checks = probe ∷ refresh ∷ validity ∷ []

sorts : topological_sort checks ≡ ok (validity ∷ refresh ∷ probe ∷ [])
unfolding topological_sort check_map build count_dependencies sources drain settle checks_of get put
sorts = refl

topological_sort_order_example :
    All (λ c. Memᴰ c checks) (validity ∷ refresh ∷ probe ∷ [])
    × ((v : String) → occurs v (names (validity ∷ refresh ∷ probe ∷ [])) ≡ occurs v (names checks))
    × Ordered checks [] (names (validity ∷ refresh ∷ probe ∷ []))
topological_sort_order_example =
    topological_sort_order checks (validity ∷ refresh ∷ probe ∷ []) sorts

distinct : (k l v : String) → (k == l) ≡ false → occurs v (k ∷ l ∷ []) ≤ 1
distinct k l v h =
    ground (arith, h, string_key.beq_iff k l, string_key.beq_iff k v, string_key.beq_iff l v)

abbrev rank : String → ℕ
rank name = if name == "credential_validity" then 0 else 1

abbrev two_checks : List (HealthCheck ext (Account ext) ℕ)
two_checks = refresh ∷ validity ∷ []

rank_first : (d : String) → Memᴰ d ("credential_validity" ∷ []) → rank d < 1
rank_first d (Memᴰ.head e) = subst (λ z. rank z < 1) (sym e) (omega arith)
rank_first d (Memᴰ.tail m) = elim m [ ]

ranked : Ranked two_checks rank
ranked c (Memᴰ.head e) d dep n =
    subst (λ z. Memᴰ d z.depends_on → rank d < rank z.name) (sym e) (rank_first d) dep
ranked c (Memᴰ.tail (Memᴰ.head e)) d dep n =
    subst (λ z. Memᴰ d z.depends_on → rank d < rank z.name) (sym e) (λ m. elim m [ ]) dep
ranked c (Memᴰ.tail (Memᴰ.tail m)) d dep n = elim m [ ]

topological_sort_total_example :
    (l : List (HealthCheck ext (Account ext) ℕ)) × (topological_sort two_checks ≡ ok l)
topological_sort_total_example =
    topological_sort_total two_checks rank
      (λ v. distinct "credential_refresh" "credential_validity" v refl) ranked

abbrev schedule : HealthCheck ext (Account ext) ℕ → CheckSchedule ext (Account ext) ℕ
schedule c = record { check = c; interval = pos 5; enabled = true }

abbrev empty_checker : Checker ext (Account ext) ℕ
empty_checker = record {
  schedules = [];
  sorted_checks = [];
  sort_err = none;
  target_provider = none;
  on_reports = [];
  leader_elector = none;
  running = false;
}

abbrev checker : Checker ext (Account ext) ℕ
checker = register (schedule validity) (register (schedule refresh) empty_checker)

checker-Built : Built checker
checker-Built =
    Built.registered (schedule validity) _
      (Built.registered (schedule refresh) empty_checker (Built.fresh empty_checker refl refl refl))

-- The validity check fails, so the refresh is skipped.
abbrev results : List (CheckResult ext)
results =
    plain "credential_validity" CheckSeverity.critical CheckStatus.failed 0
    ∷ plain "credential_refresh" CheckSeverity.critical CheckStatus.skipped 1
    ∷ []

abbrev report : HealthReport ext
report = record {
  account_id = "a";
  provider_key = record { ptype = "kiro"; name = "team" };
  results = results;
  timestamp = 1;
}

reports : (run_all (λ a. a) (λ w. w) checker (account_named "a") 0).0 ≡ ok report
unfolding run_all run_checks register rebuild enabled_checks topological_sort check_map build
    count_dependencies sources drain settle checks_of get put should_skip
reports = refl

run_all_explained_example :
    Explained
      (λ a. a)
      (λ w. w)
      (account_named "a")
      (record_statuses checker.sorted_checks results [])
      checker.sorted_checks
      results
      0
    × ((v : String)
        → occurs v (names checker.sorted_checks)
          ≡ occurs v (names (enabled_checks checker.schedules)))
run_all_explained_example =
    run_all_explained (λ a. a) (λ w. w) checker (account_named "a") 0 report checker-Built reports

registered : get "credential_validity" checker.schedules ≡ some (schedule validity)
unfolding register rebuild enabled_checks topological_sort check_map build count_dependencies
    sources drain settle checks_of get put
registered = refl

leads : is_leader checker 0 ≡ true
unfolding is_leader register rebuild enabled_checks topological_sort check_map build
    count_dependencies sources drain settle checks_of get put
leads = refl

abbrev provide : ℕ → List (Account ext) × ℕ
provide w = (account_named "a" ∷ [], w)

abbrev runs : Map String ℕ
runs = (tick_run (λ a. a) (λ w. w) (λ w. false) checker provide 7 [] 0).0

tick_run_spaces_example :
    (is_due [] 7 (schedule validity) ≡ true → is_due runs 9 (schedule validity) ≡ leb 12 9)
    × (is_due [] 7 (schedule validity) ≡ false
        → is_due runs 9 (schedule validity) ≡ is_due [] 9 (schedule validity))
tick_run_spaces_example =
    tick_run_spaces (λ a. a) (λ w. w) (λ w. false) checker provide 7 9 [] 0 "credential_validity"
      (schedule validity) checker-Built registered leads (λ v. refl)

-- A storage of one account.
abbrev credential_of : Account ext → String → Option String
credential_of w i = if i == w.id then some w.credential else none

abbrev deps : ReportHandlerDeps ext (Account ext)
deps = record {
  account_storage = record {
    get_account = λ k w. (if k == w.id then ok w else err StorageError.not_found, w);
    search_accounts = λ f w. (ok (w ∷ []), w);
    update_account =
        λ b fields w. if b.id == w.id then (ok tt, b) else (err StorageError.not_found, w);
  };
  provider_storage = none;
  usage_tracker = none;
  cooldown_manager = none;
}

cools : Cools ext (Account ext) deps
cools = record { sets_until = λ m h. absurd (cc h) }

credentials : Credentials deps credential_of
credentials = record {
  get_ok = λ k w a h. ground (arith, h, string_key.beq_iff k w.id);
  get_same = λ k w i. refl;
  update_same =
      λ b fields w i h. ground (arith, h, string_key.beq_iff b.id w.id, string_key.beq_iff i w.id);
  provider_read = λ s k w i h. absurd (cc h);
  provider_written = λ s p w i h. absurd (cc h);
  tracker_same = λ t k stats rules w i h. absurd (cc h);
  cooldown_same = λ m a until w i h. absurd (cc h);
}

abbrev disabled_account : Account ext
disabled_account = record (account_named "a") { status = disabled }

report_callback-credential_of_example :
    credential_of (report_callback deps (λ w. 9) report disabled_account) "a" ≡ some "key"
report_callback-credential_of_example =
    report_callback-credential_of deps (λ w. 9) cools credential_of credentials report
      disabled_account "a"

abbrev cooled : Account ext
cooled = record (account_named "a") { status = cooling_down; cooldown_until = some 3 }

handle_result-recovery_example :
    handle_result deps (λ w. 9) "a" (account_key cooled) (recovery cooled 5) (pass_of cooled) cooled
    ≡ (record (pass_of (revived cooled)) { need_update = true }, cooled)
handle_result-recovery_example =
    handle_result-recovery deps (λ w. 9) "a" (account_key cooled) cooled 5 cooled

-- A credential that expires at 10, over a clock.
abbrev client : Client ext (Account ext)
client = record {
  validate = λ c. true;
  is_expired = λ c t. leb 10 t;
  get_expires_at = λ c. some 10;
  refresh = λ c w. (none, w);
  get_usage_stats = λ c w. (ok [], w);
  is_triggered = λ s. false;
  get_usage_rules = λ c w. (ok [], w);
  list_models = λ c w. (ok [], w);
  generate_content = λ c w. (none, w);
}

credential_refresh_threshold_example :
    credential_refresh client (λ w. 8) 5 (account_named "a") disabled_account
    ≡ credential_refresh client (λ w. 8) 0 (account_named "a") disabled_account
credential_refresh_threshold_example =
    credential_refresh_threshold client (λ w. 8) 5 (account_named "a") disabled_account (λ t. refl)

credential_refresh_revives_example :
    (r : CheckResult ext × Account ext) × (credential_refresh client
        (λ w. 12)
        0
        disabled_account
        disabled_account
      ≡ some r)
    × ((handle_result deps
          (λ w. 12)
          "a"
          (account_key disabled_account)
          r.0
          (pass_of disabled_account)
          r.1).0.account
        ≡ revived disabled_account)
    × ((handle_result deps
          (λ w. 12)
          "a"
          (account_key disabled_account)
          r.0
          (pass_of disabled_account)
          r.1).0.need_update
        ≡ true)
credential_refresh_revives_example =
    credential_refresh_revives client (λ w. 12) deps (λ w. 12) "a" (account_key disabled_account) 0
      (pass_of disabled_account) disabled_account refl refl refl
