-- ===== src/Health/Report/Saved.antt =====
-- Which parts of an account the handler of a report can change.
use lumin_acpool.Prelude.{
  ℕ, String, Bool, false, ◌||◌, Option, none, some, List, [], ◌∷◌, arith, ◌≡◌, refl, ap, sym, ◌∙◌,
  Option-cases, Bool-cases, List-cases, Result-cases, inl, inr, ok,
}
use lumin_acpool.Account.{Ext, Account, ProviderInfo, ProviderKey, Status, UsageStats}
use lumin_acpool.Interfaces.{CooldownManager, UpdateField, ProviderStorage, QuotaTracker}
use lumin_acpool.Health.Types.{CheckResult, HealthReport}
use lumin_acpool.Health.Report.{
  as_stats, as_models, as_rules, usage_stats_key, supported_models_key, usage_rules_key,
  cooldown_until_key, as_time, field, ReportHandlerDeps, Pass, handle_result, handle_results,
  handle_usage_stats, handle_supported_models, handle_usage_rules_refresh, handle_suggested_status,
  handle_cooldown, start_cooldown, report_callback, changed_fields,
}

-- What a cooldown manager may change of an account.
pub record Cools (x : Ext) (W : Type 0) (deps : ReportHandlerDeps x W) : Type 0 where
  pub sets_until :
      (m : CooldownManager x W)
      → deps.cooldown_manager ≡ some m
      → (a : Account x) (until : Option ℕ) (w : W)
      → (t : Option ℕ) × ((m.start_cooldown a until w).0 ≡ record a { cooldown_until = t })

-- Two accounts that differ at most in what the handler changes: the status, the usage rules and the
-- two times.
abbrev pub Keeps : {x : Ext} → Account x → Account x → Type 0
Keeps a b = b ≡ record a {
  status = b.status;
  usage_rules = b.usage_rules;
  cooldown_until = b.cooldown_until;
  circuit_open_until = b.circuit_open_until;
}

module _ {x : Ext} {W : Type 0} (deps : ReportHandlerDeps x W) (now : W → ℕ)
    (cools : Cools x W deps) where
  start_cooldown-Keeps :
      (a : Account x) (until : Option ℕ) (w : W) → Keeps a (start_cooldown deps now a until w).0
  unfolding start_cooldown
  start_cooldown-Keeps a until w = elim (Option-cases deps.cooldown_manager) [
    | inl e ↦ ground (arith, e)
    | inr (m, e) ↦ let (t, k) = cools.sets_until m e a until w in ground (arith, e, k)
  ]

  handle_suggested_status-Keeps :
      (s : Status) (a : Account x) (r : CheckResult x) (w : W)
      → Keeps a (handle_suggested_status deps now s a r w).1
  unfolding handle_suggested_status handle_cooldown
  handle_suggested_status-Keeps s a r w =
      ground (arith, start_cooldown-Keeps a (as_time (field cooldown_until_key r)) w)

  handle_usage_rules_refresh-Keeps :
      (a : Account x) (r : CheckResult x) (w : W)
      → Keeps a (handle_usage_rules_refresh deps now a r w).1
  unfolding handle_usage_rules_refresh
  handle_usage_rules_refresh-Keeps a r w = ground arith

  Keeps-trans : (a b c : Account x) → Keeps a b → Keeps b c → Keeps a c
  Keeps-trans a b c h k = ground (arith, h, k)

  abbrev suggestion : Option Status → Account x → CheckResult x → W → Bool × Account x × W
  suggestion o a r w = elim o [
    | none ↦ (false, a, w)
    | some suggested ↦ handle_suggested_status deps now suggested a r w
  ]

  suggestion-Keeps :
      (o : Option Status) (a : Account x) (r : CheckResult x) (w : W)
      → Keeps a (suggestion o a r w).1
  suggestion-Keeps none a r w = refl
  suggestion-Keeps (some s) a r w = handle_suggested_status-Keeps s a r w

  handle_result-Keeps :
      (id : String) (key : ProviderKey) (r : CheckResult x) (p : Pass x) (w : W)
      → Keeps p.account (handle_result deps now id key r p w).0.account
  unfolding handle_result
  handle_result-Keeps id key r p w =
      let t =
        handle_usage_rules_refresh deps now p.account r
          (handle_supported_models deps now key r (handle_usage_stats deps now id r w)) in
      Keeps-trans p.account t.1 _ (handle_usage_rules_refresh-Keeps p.account r _)
        (suggestion-Keeps r.suggested_status t.1 r t.2)

  handle_results-Keeps :
      (id : String) (key : ProviderKey) (rs : List (CheckResult x)) (p : Pass x) (w : W)
      → Keeps p.account (handle_results deps now id key rs p w).0.account
  unfolding handle_results
  handle_results-Keeps id key [] p w = refl
  handle_results-Keeps id key (r ∷ rs) p w =
      let q = handle_result deps now id key r p w in
      Keeps-trans p.account q.0.account _ (handle_result-Keeps id key r p w)
        (handle_results-Keeps id key rs q.0 q.1)

-- What the handler relies on of the parts that it calls: the storage returns the account with the
-- credential that it holds, an update with that credential leaves the credentials as they are, and no
-- other part writes to a credential of the storage.
pub record Credentials {x : Ext} {W : Type 0} (deps : ReportHandlerDeps x W)
    (credential_of : W → String → Option x.Credential) : Type 0 where
  pub get_ok :
      (k : String) (w : W) (a : Account x)
      → (deps.account_storage.get_account k w).0 ≡ ok a
      → (a.id ≡ k) × (credential_of w k ≡ some a.credential)
  pub get_same :
      (k : String) (w : W) (i : String)
      → credential_of (deps.account_storage.get_account k w).1 i ≡ credential_of w i
  pub update_same :
      (b : Account x) (fields : UpdateField) (w : W) (i : String)
      → credential_of w b.id ≡ some b.credential
      → credential_of (deps.account_storage.update_account b fields w).1 i ≡ credential_of w i
  pub provider_read :
      (s : ProviderStorage x W) (k : ProviderKey) (w : W) (i : String)
      → deps.provider_storage ≡ some s
      → credential_of (s.get_provider k w).1 i ≡ credential_of w i
  pub provider_written :
      (s : ProviderStorage x W) (p : ProviderInfo x) (w : W) (i : String)
      → deps.provider_storage ≡ some s
      → credential_of (s.update_provider p w).1 i ≡ credential_of w i
  pub tracker_same :
      (t : QuotaTracker x W) (k : String) (stats : List (Option (UsageStats x)))
      (rules : List (Option x.Rule)) (w : W) (i : String)
      → deps.usage_tracker ≡ some t
      → (credential_of (t.calibrate k stats w).1 i ≡ credential_of w i)
        × (credential_of (t.init_rules k rules w).1 i ≡ credential_of w i)
  pub cooldown_same :
      (m : CooldownManager x W) (a : Account x) (until : Option ℕ) (w : W) (i : String)
      → deps.cooldown_manager ≡ some m
      → credential_of (m.start_cooldown a until w).1 i ≡ credential_of w i

module _ {x : Ext} {W : Type 0} (deps : ReportHandlerDeps x W) (now : W → ℕ)
    (cools : Cools x W deps) (credential_of : W → String → Option x.Credential)
    (c : Credentials deps credential_of) where
  usage_stats_same :
      (id : String) (r : CheckResult x) (w : W) (i : String)
      → credential_of (handle_usage_stats deps now id r w) i ≡ credential_of w i
  unfolding handle_usage_stats
  usage_stats_same id r w i = elim (Option-cases deps.usage_tracker) [
    | inl e ↦ ground (arith, e)
    | inr (t, e) ↦ elim (Option-cases (as_stats (field usage_stats_key r))) [
      | inl k ↦ ground (arith, e, k)
      | inr (l, k) ↦ ground (arith, e, k, (c.tracker_same t id l [] w i e).0)
    ]
  ]

  supported_models_same :
      (key : ProviderKey) (r : CheckResult x) (w : W) (i : String)
      → credential_of (handle_supported_models deps now key r w) i ≡ credential_of w i
  unfolding handle_supported_models
  supported_models_same key r w i = elim (Option-cases deps.provider_storage) [
    | inl e ↦ ground (arith, e)
    | inr (t, e) ↦ elim (List-cases (as_models (field supported_models_key r))) [
      | inl k ↦ ground (arith, e, k)
      | inr (m, ms, k) ↦ elim (Result-cases (t.get_provider key w).0) [
        | inl (q, g) ↦
            let w1 = (t.get_provider key w).1 in
            let q' = record q { supported_models = m ∷ ms; updated_at = now w1 } in
            ground (arith, e, k, g, c.provider_read t key w i e, c.provider_written t q' w1 i e)
        | inr (er, g) ↦ ground (arith, e, k, g, c.provider_read t key w i e)
      ]
    ]
  ]

  usage_rules_same :
      (a : Account x) (r : CheckResult x) (w : W) (i : String)
      → credential_of (handle_usage_rules_refresh deps now a r w).2 i ≡ credential_of w i
  unfolding handle_usage_rules_refresh
  usage_rules_same a r w i = elim (List-cases (as_rules (field usage_rules_key r))) [
    | inl k ↦ ground (arith, k)
    | inr (m, ms, k) ↦ elim (Option-cases deps.usage_tracker) [
      | inl e ↦ ground (arith, e, k)
      | inr (t, e) ↦ ground (arith, e, k, (c.tracker_same t a.id [] (m ∷ ms) w i e).1)
    ]
  ]

  start_cooldown_same :
      (a : Account x) (until : Option ℕ) (w : W) (i : String)
      → credential_of (start_cooldown deps now a until w).1 i ≡ credential_of w i
  unfolding start_cooldown
  start_cooldown_same a until w i = elim (Option-cases deps.cooldown_manager) [
    | inl e ↦ ground (arith, e)
    | inr (m, e) ↦ ground (arith, e, c.cooldown_same m a until w i e)
  ]

  suggested_status_same :
      (s : Status) (a : Account x) (r : CheckResult x) (w : W) (i : String)
      → credential_of (handle_suggested_status deps now s a r w).2 i ≡ credential_of w i
  unfolding handle_suggested_status handle_cooldown
  suggested_status_same s a r w i =
      ground (arith, start_cooldown_same a (as_time (field cooldown_until_key r)) w i)

  suggestion_same :
      (o : Option Status) (a : Account x) (r : CheckResult x) (w : W) (i : String)
      → credential_of (suggestion deps now cools o a r w).2 i ≡ credential_of w i
  suggestion_same none a r w i = refl
  suggestion_same (some s) a r w i = suggested_status_same s a r w i

  handle_result_same :
      (id : String) (key : ProviderKey) (r : CheckResult x) (p : Pass x) (w : W) (i : String)
      → credential_of (handle_result deps now id key r p w).1 i ≡ credential_of w i
  unfolding handle_result
  handle_result_same id key r p w i =
      let w1 = handle_usage_stats deps now id r w in
      let w2 = handle_supported_models deps now key r w1 in
      let t = handle_usage_rules_refresh deps now p.account r w2 in
      suggestion_same r.suggested_status t.1 r t.2 i
      ∙ usage_rules_same p.account r w2 i
      ∙ supported_models_same key r w1 i
      ∙ usage_stats_same id r w i

  handle_results_same :
      (id : String) (key : ProviderKey) (rs : List (CheckResult x)) (p : Pass x) (w : W)
      (i : String)
      → credential_of (handle_results deps now id key rs p w).1 i ≡ credential_of w i
  unfolding handle_results
  handle_results_same id key [] p w i = refl
  handle_results_same id key (r ∷ rs) p w i =
      let q = handle_result deps now id key r p w in
      handle_results_same id key rs q.0 q.1 i ∙ handle_result_same id key r p w i

  -- Where the storage returns accounts with the credentials that it holds, an update with an account's
  -- credential leaves the credentials as they are, no other part writes to one, and the cooldown
  -- manager changes only an account's time: the handling of a report, also of one that says that the
  -- credential was refreshed, leaves every credential of the storage as it was.
  pub report_callback-credential_of :
      (report : HealthReport x) (w : W) (i : String)
      → credential_of (report_callback deps now report w) i ≡ credential_of w i
  unfolding report_callback
  report_callback-credential_of report w i = elim (List-cases report.results) [
    | inl e ↦ ground (arith, e)
    | inr (r, rs, e) ↦
        elim (Result-cases (deps.account_storage.get_account report.account_id w).0) [
          | inr (er, k) ↦ ground (arith, e, k, c.get_same report.account_id w i)
          | inl (a, k) ↦
              let w1 = (deps.account_storage.get_account report.account_id w).1 in
              let start : Pass x = record {
                account = a;
                need_update = false;
                credential_changed = false;
              } in
              let q =
                handle_results deps now report.account_id report.provider_key (r ∷ rs) start w1 in
              let kept =
                handle_results-Keeps deps now cools report.account_id report.provider_key (r ∷ rs)
                  start w1 in
              let same = λ (j : String).
                handle_results_same report.account_id report.provider_key (r ∷ rs) start w1 j
                ∙ c.get_same report.account_id w j in
              let (id_same, held) = c.get_ok report.account_id w a k in
              let here : credential_of q.1 q.0.account.id ≡ some q.0.account.credential =
                ap (credential_of q.1) (ap (λ y. y.id) kept ∙ id_same)
                ∙ same report.account_id
                ∙ held
                ∙ ap (λ y. some y.credential) (sym kept) in
              let b = record q.0.account { updated_at = now q.1 } in
              elim (Bool-cases (q.0.need_update || q.0.credential_changed)) [
                | inl y ↦
                    rw (e, report_callback)
                      (rw (k, report_callback)
                        (rw y (c.update_same b (changed_fields deps now q.0) q.1 i here ∙ same i)))
                | inr n ↦ rw (e, report_callback) (rw (k, report_callback) (rw n (same i)))
              ]
        ]
  ]
