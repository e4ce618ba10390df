-- ===== src/Health/Checks/Refresh.antt =====
-- The check that refreshes credentials, by itself and together with the handler of its report.
use lumin_acpool.Prelude.{
  ℕ, String, true, false, none, some, arith, ◌≡◌, refl, ap, ◌∙◌, Option-cases, inl, inr, leb, get,
}
use lumin_acpool.Account.{Ext, Account, ProviderKey, available, same_status}
use lumin_acpool.Health.Types.{CheckResult}
use lumin_acpool.Health.Report.{ReportHandlerDeps, Pass, handle_result}
use lumin_acpool.Health.Report.Outcome.{
  status_pass, revived, handle_result-status, suggested_available,
}
use lumin_acpool.Health.Checks.{Client, credential_refresh, refresh_now, refreshed_result}

module _ {x : Ext} {W : Type 0} (client : Client x W) (now : W → ℕ) where
  -- Where a credential has expired exactly when it has a time of expiry that is past, the threshold of
  -- the check changes nothing: with any threshold, the check does what it does with the threshold 0.
  pub credential_refresh_threshold :
      (threshold : ℕ) (a : Account x) (w : W)
      → ((t : ℕ)
          → client.is_expired a.credential t
            ≡ elim (client.get_expires_at a.credential) [ none ↦ false | some until ↦ leb until t ])
      → credential_refresh client now threshold a w ≡ credential_refresh client now 0 a w
  unfolding credential_refresh
  credential_refresh_threshold threshold a w h =
      elim (Option-cases (client.get_expires_at a.credential)) [
        | inl e ↦ ground (arith, e, h (now w))
        | inr (until, e) ↦ ground (arith, e, h (now w))
      ]

  -- After a refresh that succeeded, on an expired credential, the handler makes an account that is not
  -- available so, clears its two times and asks for a save, whatever its status was: also of an account
  -- that is disabled or banned or whose cooldown runs.
  pub credential_refresh_revives :
      (deps : ReportHandlerDeps x W) (clock : W → ℕ) (id : String) (key : ProviderKey)
      (threshold : ℕ) (p : Pass x) (w : W)
      → client.is_expired p.account.credential (now w) ≡ true
      → (client.refresh p.account.credential w).0 ≡ none
      → same_status p.account.status available ≡ false
      → (r : CheckResult x × W) × (credential_refresh client now threshold p.account w ≡ some r)
        × ((handle_result deps clock id key r.0 p r.1).0.account ≡ revived p.account)
        × ((handle_result deps clock id key r.0 p r.1).0.need_update ≡ true)
  unfolding credential_refresh refresh_now get
  credential_refresh_revives deps clock id key threshold p w e k s =
      let w1 = (client.refresh p.account.credential w).1 in
      let r = refreshed_result (now w) in
      let h : handle_result deps clock id key r p w1
          ≡ status_pass r p (true, revived p.account, w1) =
        handle_result-status deps clock id key r p w1 refl refl refl
        ∙ ap (status_pass r p) (suggested_available deps clock p.account r w1)
        ∙ rw s refl in
      ((r, w1), ground (arith, e, k), ap (λ y. y.0.account) h, ap (λ y. y.0.need_update) h)
