-- ===== src/Health/Checker/Skips.antt =====
-- Which checks a run skips: the decision that `RunAll` takes with the statuses so far is the one that
-- the statuses of the whole run give.
use mathlib.Core.List.{Memᴰ}
use lumin_acpool.Prelude.{
  ℕ, String, Bool, true, false, List, [], ◌∷◌, Map, get, put, get-put, string_key, if◌then◌else◌,
  arith, ◌≡◌, refl, subst,
}
use lumin_acpool.Account.{Ext, Account}
use lumin_acpool.Health.Types.{HealthCheck, CheckResult, CheckStatus}
use lumin_acpool.Health.Sort.Degrees.{occurs}
use lumin_acpool.Health.Sort.Order.{names}
use lumin_acpool.Health.Checker.{should_skip, run_checks, run_check, skipped_result}

should_skip-ext :
    (deps : List String) (m n : Map String CheckStatus)
    → ((d : String) → Memᴰ d deps → get d m ≡ get d n)
    → should_skip deps m ≡ should_skip deps n
unfolding should_skip
should_skip-ext [] m n h = refl
should_skip-ext (d ∷ deps) m n h =
    ground (arith, h d (Memᴰ.head refl), should_skip-ext deps m n (λ b k. h b (Memᴰ.tail k)))

module _ {x : Ext} {T W : Type 0} where
  -- The statuses that the results of the checks leave behind, under the names of the checks.
  pub record_statuses :
      List (HealthCheck x T W)
      → List (CheckResult x)
      → Map String CheckStatus
      → Map String CheckStatus
  record_statuses [] rs m = m
  record_statuses (c ∷ cs) [] m = m
  record_statuses (c ∷ cs) (r ∷ rs) m = record_statuses cs rs (put c.name r.status m)

  get-record_statuses :
      (d : String) (cs : List (HealthCheck x T W)) (rs : List (CheckResult x))
      (m : Map String CheckStatus)
      → occurs d (names cs) ≡ 0
      → get d (record_statuses cs rs m) ≡ get d m
  unfolding record_statuses
  get-record_statuses d [] rs m h = refl
  get-record_statuses d (c ∷ cs) [] m h = refl
  get-record_statuses d (c ∷ cs) (r ∷ rs) m h = ground (
    arith,
    h,
    get-record_statuses d cs rs (put c.name r.status m),
    get-put c.name d r.status m,
    string_key.beq_iff c.name d,
  )

  -- No check depends on itself or on a check behind it.
  abbrev pub Forward : List (HealthCheck x T W) → Type 0
  Forward [] = Unit {0}
  Forward (c ∷ cs) =
      ((d : String) → Memᴰ d c.depends_on → occurs d (names (c ∷ cs)) ≡ 0) × Forward cs

module _ {x : Ext} {T W : Type 0} (account_of : T → Account x) (now : W → ℕ) (target : T) where
  -- What the results of a run are, given the statuses of all of them: a check with a prerequisite
  -- that failed, ended in an error or was skipped is skipped; any other is run.
  pub data Explained (statuses : Map String CheckStatus)
      : List (HealthCheck x T W) → List (CheckResult x) → W → Type 0 where
    finished : (w : W) → Explained statuses [] [] w
    skips :
        (c : HealthCheck x T W) (cs : List (HealthCheck x T W)) (rs : List (CheckResult x)) (w : W)
        → should_skip c.depends_on statuses ≡ true
        → Explained statuses cs rs w
        → Explained statuses (c ∷ cs) (skipped_result account_of now c w ∷ rs) w
    runs :
        (c : HealthCheck x T W) (cs : List (HealthCheck x T W)) (rs : List (CheckResult x)) (w : W)
        → should_skip c.depends_on statuses ≡ false
        → Explained statuses cs rs (c.check target w).1
        → Explained statuses (c ∷ cs) ((c.check target w).0 ∷ rs) w

  explain :
      (statuses : Map String CheckStatus) (c : HealthCheck x T W) (cs : List (HealthCheck x T W))
      (w : W) (rs : List (CheckResult x)) (b : Bool) (r : CheckResult x × W)
      → should_skip c.depends_on statuses ≡ b
      → (if b then (skipped_result account_of now c w, w) else c.check target w) ≡ r
      → Explained statuses cs rs r.1
      → Explained statuses (c ∷ cs) (r.0 ∷ rs) w
  explain statuses c cs w rs true r e p =
      subst
        (λ (q : CheckResult x × W).
          Explained statuses cs rs q.1 → Explained statuses (c ∷ cs) (q.0 ∷ rs) w)
        p (skips c cs rs w e)
  explain statuses c cs w rs false r e p =
      subst
        (λ (q : CheckResult x × W).
          Explained statuses cs rs q.1 → Explained statuses (c ∷ cs) (q.0 ∷ rs) w)
        p (runs c cs rs w e)

  pub run_checks-Explained :
      (cs : List (HealthCheck x T W)) (m : Map String CheckStatus) (w : W)
      → Forward cs
      → Explained
          (record_statuses cs (run_checks account_of now target cs m w).0 m)
          cs
          (run_checks account_of now target cs m w).0
          w
  unfolding run_checks record_statuses
  run_checks-Explained [] m w f = finished w
  run_checks-Explained (c ∷ cs) m w f =
      let r = run_check account_of now target m c w in
      let m' = put c.name r.0.status m in
      let rs = (run_checks account_of now target cs m' r.1).0 in
      explain (record_statuses cs rs m') c cs w rs (should_skip c.depends_on m) r
        (should_skip-ext c.depends_on (record_statuses cs rs m') m λ d k. ground (
          arith,
          f.0 d k,
          get-record_statuses d cs rs m',
          get-put c.name d r.0.status m,
          string_key.beq_iff c.name d,
        ))
        refl (run_checks-Explained cs m' r.1 f.1)
