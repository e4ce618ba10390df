-- ===== src/Health/Report/Outcome.antt =====
-- What the handler of a report does with one result.
use lumin_acpool.Prelude.{
  ℕ, String, Bool, true, false, ◌||◌, none, some, [], arith, ◌≡◌, ap, ◌∙◌, Option-cases, inl, inr,
  if◌then◌else◌,
}
use lumin_acpool.Account.{Ext, Account, ProviderKey, available, same_status}
use lumin_acpool.Health.Types.{CheckResult}
use lumin_acpool.Health.Report.{
  ReportHandlerDeps, Pass, handle_result, handle_usage_stats, handle_supported_models,
  handle_usage_rules_refresh, handle_suggested_status, field, as_stats, as_models, as_rules,
  as_flag, usage_stats_key, supported_models_key, usage_rules_key, credential_refreshed_key,
}

module _ {x : Ext} where
  -- The account after a suggestion of `available`.
  abbrev pub revived : Account x → Account x
  revived a = record a { status = available; cooldown_until = none; circuit_open_until = none }

module _ {x : Ext} {W : Type 0} where
  abbrev pub status_pass : CheckResult x → Pass x → Bool × Account x × W → Pass x × W
  status_pass r p (changed, a, w) = (
    record {
      account = a;
      need_update = changed || p.need_update;
      credential_changed = as_flag (field credential_refreshed_key r) || p.credential_changed;
    },
    w,
  )

  abbrev rules_pass :
      CheckResult x → Pass x → Bool × Account x × W → Bool × Account x × W → Pass x × W
  rules_pass r p t s = (
    record {
      account = s.1;
      need_update = s.0 || (t.0 || p.need_update);
      credential_changed = as_flag (field credential_refreshed_key r) || p.credential_changed;
    },
    s.2,
  )

module _ {x : Ext} {W : Type 0} (deps : ReportHandlerDeps x W) (now : W → ℕ) where
  usage_stats_none :
      (id : String) (r : CheckResult x) (w : W)
      → as_stats (field usage_stats_key r) ≡ none
      → handle_usage_stats deps now id r w ≡ w
  unfolding handle_usage_stats
  usage_stats_none id r w h = elim (Option-cases deps.usage_tracker) [
    | inl e ↦ ground (arith, e)
    | inr (t, e) ↦ ground (arith, e, h)
  ]

  models_none :
      (key : ProviderKey) (r : CheckResult x) (w : W)
      → as_models (field supported_models_key r) ≡ []
      → handle_supported_models deps now key r w ≡ w
  unfolding handle_supported_models
  models_none key r w h = elim (Option-cases deps.provider_storage) [
    | inl e ↦ ground (arith, e)
    | inr (t, e) ↦ ground (arith, e, h)
  ]

  rules_none :
      (a : Account x) (r : CheckResult x) (w : W)
      → as_rules (field usage_rules_key r) ≡ []
      → handle_usage_rules_refresh deps now a r w ≡ (false, a, w)
  unfolding handle_usage_rules_refresh
  rules_none a r w h = ground (arith, h)

  -- A result without usage, models and rules.
  pub handle_result-status :
      (id : String) (key : ProviderKey) (r : CheckResult x) (p : Pass x) (w : W)
      → as_stats (field usage_stats_key r) ≡ none
      → as_models (field supported_models_key r) ≡ []
      → as_rules (field usage_rules_key r) ≡ []
      → handle_result deps now id key r p w
        ≡ status_pass r p (elim r.suggested_status [
          | none ↦ (false, p.account, w)
          | some s ↦ handle_suggested_status deps now s p.account r w
        ])
  unfolding handle_result
  handle_result-status id key r p w h k l =
      let e1 = usage_stats_none id r w h in
      let e2 = models_none key r w k in
      let e : handle_usage_rules_refresh deps now p.account r
            (handle_supported_models deps now key r (handle_usage_stats deps now id r w))
          ≡ (false, p.account, w) =
        ap
          (λ (v : W).
            handle_usage_rules_refresh deps now p.account r
              (handle_supported_models deps now key r v))
          e1
        ∙ ap (handle_usage_rules_refresh deps now p.account r) e2
        ∙ rules_none p.account r w l in
      ap
        (λ (t : Bool × Account x × W).
          let s : Bool × Account x × W = elim r.suggested_status [
            | none ↦ (false, t.1, t.2)
            | some suggested ↦ handle_suggested_status deps now suggested t.1 r t.2
          ] in
          rules_pass r p t s)
        e

  pub suggested_available :
      (a : Account x) (r : CheckResult x) (w : W)
      → handle_suggested_status deps now available a r w
        ≡ (if same_status a.status available then (false, a, w) else (true, revived a, w))
  unfolding handle_suggested_status
  suggested_available a r w = ground arith
