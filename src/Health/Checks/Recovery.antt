-- ===== src/Health/Checks/Recovery.antt =====
-- The recovery check together with the handler of its report.
use lumin_acpool.Prelude.{
  ℕ, String, Bool, true, false, ◌&&◌, ◌||◌, arith, ◌≡◌, refl, ap, ◌∙◌, if◌then◌else◌,
}
use lumin_acpool.Account.{
  Ext, Account, ProviderKey, available, cooling_down, circuit_open, same_status,
  is_cooldown_expired, is_circuit_open_expired,
}
use lumin_acpool.Health.Types.{CheckStatus, CheckSeverity, critical}
use lumin_acpool.Health.Report.{ReportHandlerDeps, Pass, handle_result}
use lumin_acpool.Health.Report.Outcome.{
  status_pass, revived, handle_result-status, suggested_available,
}
use lumin_acpool.Health.Checks.{recovery, recovery_result, plain, suggest}

module _ {x : Ext} where
  -- The account cools down or has its circuit open, and the time of that is over.
  abbrev pub recovers : Account x → ℕ → Bool
  recovers a at =
      (same_status a.status cooling_down && is_cooldown_expired a at)
      || (same_status a.status circuit_open && is_circuit_open_expired a at)

  abbrev pub pass_of : Account x → Pass x
  pass_of a = record { account = a; need_update = false; credential_changed = false }

module _ {x : Ext} {W : Type 0} (deps : ReportHandlerDeps x W) (now : W → ℕ) where
  -- A plain result, with or without the suggestion to make the account available.
  handle_result-plain :
      (id : String) (key : ProviderKey) (name : String) (sev : CheckSeverity) (st : CheckStatus)
      (at : ℕ) (a : Account x) (w : W)
      → handle_result deps now id key (plain name sev st at) (pass_of a) w ≡ (pass_of a, w)
  handle_result-plain id key name sev st at a w =
      handle_result-status deps now id key (plain name sev st at) (pass_of a) w refl refl refl

  handle_result-available :
      (id : String) (key : ProviderKey) (name : String) (sev : CheckSeverity) (st : CheckStatus)
      (at : ℕ) (a : Account x) (w : W)
      → same_status a.status available ≡ false
      → handle_result deps now id key (suggest available (plain name sev st at)) (pass_of a) w
        ≡ (record (pass_of (revived a)) { need_update = true }, w)
  handle_result-available id key name sev st at a w h =
      let r = suggest available (plain name sev st at) in
      handle_result-status deps now id key r (pass_of a) w refl refl refl
      ∙ ap (status_pass r (pass_of a)) (suggested_available deps now a r w)
      ∙ rw h refl

  -- Handling the result of the recovery check on an account makes the account available and clears
  -- both of its times, to be saved, if it cools down or has its circuit open and the time of that is
  -- over; else it changes nothing and asks for no save. It changes nothing outside the account.
  pub handle_result-recovery :
      (id : String) (key : ProviderKey) (a : Account x) (at : ℕ) (w : W)
      → handle_result deps now id key (recovery a at) (pass_of a) w ≡ (
          if recovers a at
          then (record (pass_of (revived a)) { need_update = true }, w)
          else (pass_of a, w))
  unfolding recovery recovery_result
  handle_result-recovery id key a at w = ground (
    arith,
    handle_result-plain id key "recovery" critical CheckStatus.warning at a w,
    handle_result-plain id key "recovery" critical CheckStatus.passed at a w,
    handle_result-available id key "recovery" critical CheckStatus.passed at a w,
  )
