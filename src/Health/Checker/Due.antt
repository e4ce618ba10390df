-- ===== src/Health/Checker/Due.antt =====
-- When the background ticks run a check.
use lumin_acpool.Prelude.{
  ℕ, ◌+◌, String, ℤ, pos, pos_part, ltb_ℤ, leb_ℤ, ◌≤ℤ◌, leb, Bool, true, false, ◌&&◌, none, some,
  List, [], ◌∷◌, Map, get, put, get-put, Unique, indicator, string_key, if◌then◌else◌, arith, ◌≡◌,
  refl, ap, ◌==◌, Bool-cases, inl, inr, List-cases, beq_refl, sym, ◌∙◌, subst,
}
use lumin_acpool.Account.{Ext, Account}
use lumin_acpool.Health.Types.{HealthCheck, CheckResult}
use lumin_acpool.Health.Sort.Degrees.{occurs}
use lumin_acpool.Health.Sort.Order.{names}
use lumin_acpool.Health.Checker.{
  tighten, Checker, CheckSchedule, is_due, due_checks, mark_run, run_due, tick_targets, tick_run,
  is_leader, min_interval_from, get_min_interval,
}
use lumin_acpool.Health.Checker.Registry.{Built, Built-Registry}

positive_test : (n : ℕ) (b : Bool) → n ≡ indicator b → leb 1 n ≡ b
positive_test n true h = ground (arith, h)
positive_test n false h = ground (arith, h)

only_head : (b c : Bool) (n : ℕ) → c ≡ true → n ≡ 0 → indicator (b && c) + n ≡ indicator b
only_head true c n h k = ground (arith, h, k)
only_head false c n h k = ground (arith, k)

no_head : (b c : Bool) (n : ℕ) → c ≡ false → indicator (b && c) + n ≡ n
no_head true c n h = ground (arith, h)
no_head false c n h = omega arith

module _ {x : Ext} {T W : Type 0} where
  get-mark_run :
      (v : String) (cs : List (HealthCheck x T W)) (at : ℕ) (m : Map String ℕ)
      → get v (mark_run cs at m) ≡ (if leb 1 (occurs v (names cs)) then some at else get v m)
  unfolding mark_run
  get-mark_run v [] at m = ground arith
  get-mark_run v (c ∷ cs) at m =
      ground (arith, get-mark_run v cs at (put c.name at m), get-put c.name v at m)

  due-absent :
      (v : String) (last_run : Map String ℕ) (at : ℕ) (m : Map String (CheckSchedule x T W))
      → ((name : String) (s : CheckSchedule x T W) → get name m ≡ some s → s.check.name ≡ name)
      → Unique m
      → get v m ≡ none
      → occurs v (names (due_checks last_run at m)) ≡ 0
  unfolding due_checks get
  due-absent v last_run at [] k u h = refl
  due-absent v last_run at ((j, s) ∷ m) k u h = ground (
    arith,
    h,
    k j s (ground (arith, beq_refl j)),
    string_key.beq_iff j v,
    due-absent v last_run at m
        (λ name t g. k name t (ground (arith, g, u.0, string_key.beq_iff j name))) u.1,
  )

  occurs-if :
      (v : String) (b : Bool) (c : HealthCheck x T W) (l : List (HealthCheck x T W))
      → occurs v (names (if b then c ∷ l else l))
        ≡ indicator (b && c.name == v) + occurs v (names l)
  occurs-if v true c l = refl
  occurs-if v false c l = omega arith

  due-named :
      (v : String) (last_run : Map String ℕ) (at : ℕ) (m : Map String (CheckSchedule x T W))
      (s : CheckSchedule x T W)
      → ((name : String) (s : CheckSchedule x T W) → get name m ≡ some s → s.check.name ≡ name)
      → Unique m
      → get v m ≡ some s
      → leb 1 (occurs v (names (due_checks last_run at m))) ≡ is_due last_run at s
  unfolding due_checks get
  due-named v last_run at [] s k u h = absurd (cc h)
  due-named v last_run at ((j, t) ∷ m) s k u h =
      let keyed = λ (name : String) (r : CheckSchedule x T W) (g : get name m ≡ some r).
        k name r (ground (arith, g, u.0, string_key.beq_iff j name)) in
      elim (Bool-cases (j == v)) [
        | inl e ↦
            let same : t ≡ s = ground (arith, h, e) in
            let absent =
              due-absent v last_run at m keyed u.1
                (ground (arith, u.0, string_key.beq_iff j v, e)) in
            positive_test _ (is_due last_run at s) (
              occurs-if v (is_due last_run at t) t.check (due_checks last_run at m)
              ∙ subst
                  (λ (q : CheckSchedule x T W).
                    indicator (is_due last_run at q && q.check.name == v)
                      + occurs v (names (due_checks last_run at m))
                    ≡ indicator (is_due last_run at s))
                  (sym same)
                  (only_head _ _ _ (ground (arith, k v s h, string_key.beq_iff s.check.name v))
                    absent))
        | inr e ↦
            let after = due-named v last_run at m s keyed u.1 (ground (arith, h, e)) in
            let here : (t.check.name == v) ≡ false =
              ground
                (arith, e, k j t (ground (arith, beq_refl j)), string_key.beq_iff t.check.name v) in
            ap (leb 1) (
              occurs-if v (is_due last_run at t) t.check (due_checks last_run at m)
              ∙ no_head _ _ _ here)
            ∙ after
      ]

  is_due_after :
      (old last_run : Map String ℕ) (at later : ℕ) (s : CheckSchedule x T W)
      → is_due old at s ≡ true
      → get s.check.name last_run ≡ some at
      → is_due last_run later s ≡ leb (at + pos_part s.interval) later
  is_due_after old last_run at later s d g = ground (arith, d, g)

  is_due_same :
      (old last_run : Map String ℕ) (later : ℕ) (s : CheckSchedule x T W)
      → get s.check.name last_run ≡ get s.check.name old
      → is_due last_run later s ≡ is_due old later s
  is_due_same old last_run later s g = ground (arith, g)

  tighten_pos :
      (best : ℤ) (s : CheckSchedule x T W)
      → ltb_ℤ (pos 0) best ≡ true
      → (ltb_ℤ (pos 0) (tighten best s) ≡ true) × (tighten best s ≤ℤ best)
  unfolding tighten
  tighten_pos best s h = ground (arith, h)

  tighten_le :
      (best : ℤ) (s : CheckSchedule x T W)
      → leb_ℤ (pos 0) best ≡ true
      → s.enabled ≡ true
      → ltb_ℤ (pos 0) s.interval ≡ true
      → (ltb_ℤ (pos 0) (tighten best s) ≡ true) × (tighten best s ≤ℤ s.interval)
  unfolding tighten
  tighten_le best s b e h = ground (arith, b, e, h)

  tighten_nonneg :
      (best : ℤ) (s : CheckSchedule x T W)
      → leb_ℤ (pos 0) best ≡ true
      → leb_ℤ (pos 0) (tighten best s) ≡ true
  unfolding tighten
  tighten_nonneg best s h = ground (arith, h)

  min_interval_from_pos :
      (best : ℤ) (m : Map String (CheckSchedule x T W))
      → ltb_ℤ (pos 0) best ≡ true
      → (ltb_ℤ (pos 0) (min_interval_from best m) ≡ true) × (min_interval_from best m ≤ℤ best)
  unfolding min_interval_from
  min_interval_from_pos best [] h = (h, omega arith)
  min_interval_from_pos best ((j, s) ∷ m) h =
      let (p, l) = tighten_pos best s h in
      let (q, k) = min_interval_from_pos (tighten best s) m p in (q, omega (arith, l, k))

  min_interval_from_least :
      (best : ℤ) (m : Map String (CheckSchedule x T W)) (v : String) (s : CheckSchedule x T W)
      → leb_ℤ (pos 0) best ≡ true
      → get v m ≡ some s
      → s.enabled ≡ true
      → ltb_ℤ (pos 0) s.interval ≡ true
      → (ltb_ℤ (pos 0) (min_interval_from best m) ≡ true) × (min_interval_from best m ≤ℤ s.interval)
  unfolding min_interval_from get
  min_interval_from_least best [] v s b g e h = absurd (cc g)
  min_interval_from_least best ((j, t) ∷ m) v s b g e h = elim (Bool-cases (j == v)) [
    | inl k ↦
        let same : t ≡ s = ground (arith, g, k) in
        let (p, l) = tighten_le best s b e h in
        let (q, r) = min_interval_from_pos (tighten best s) m p in rw same (q, omega (arith, l, r))
    | inr k ↦
        min_interval_from_least (tighten best t) m v s (tighten_nonneg best t b)
          (ground (arith, g, k)) e h
  ]

  -- The interval of the background ticks is positive and no longer than the interval of any enabled
  -- check that has a positive one.
  pub get_min_interval_least :
      (c : Checker x T W) (name : String) (s : CheckSchedule x T W)
      → get name c.schedules ≡ some s
      → s.enabled ≡ true
      → ltb_ℤ (pos 0) s.interval ≡ true
      → (ltb_ℤ (pos 0) (get_min_interval c) ≡ true) × (get_min_interval c ≤ℤ s.interval)
  unfolding get_min_interval
  get_min_interval_least c name s g e h =
      min_interval_from_least (pos 0) c.schedules name s refl g e h

  module _ (account_of : T → Account x) (now : W → ℕ) (cancelled : W → Bool) where
    run_due-some :
        (target : T) (cs : List (HealthCheck x T W)) (w : W)
        → ((v : W) → cancelled v ≡ false)
        → (rs : List (CheckResult x)) × ((run_due account_of now cancelled target cs w).0 ≡ some rs)
    unfolding run_due
    run_due-some target [] w h = ([], refl)
    run_due-some target (c ∷ cs) w h =
        let (rs, e) = run_due-some target cs (c.check target w).1 h in
        ((c.check target w).0 ∷ rs, ground (arith, h w, e))

    tick_targets_complete :
        (c : Checker x T W) (due : List (HealthCheck x T W)) (targets : List T) (w : W)
        → ((v : W) → cancelled v ≡ false)
        → (tick_targets account_of now cancelled c due targets w).0 ≡ true
    unfolding tick_targets
    tick_targets_complete c due [] w h = refl
    tick_targets_complete c due (target ∷ targets) w h =
        let (rs, e) = run_due-some target due w h in
        rw (e, tick_targets) (tick_targets_complete c due targets _ h)

    tick_run-last :
        (c : Checker x T W) (provide : W → List T × W) (at : ℕ) (last_run : Map String ℕ) (w : W)
        → is_leader c w ≡ true
        → ((v : W) → cancelled v ≡ false)
        → (tick_run account_of now cancelled c provide at last_run w).0
          ≡ mark_run (due_checks last_run at c.schedules) at last_run
    unfolding tick_run mark_run
    tick_run-last c provide at last_run w l h =
        elim (List-cases (due_checks last_run at c.schedules)) [
          | inl e ↦ ground (arith, l, e)
          | inr (a, r, e) ↦
              ground (arith, l, e, tick_targets_complete c (a ∷ r) (provide w).0 (provide w).1 h)
        ]

    -- A tick of the leader that no cancellation interrupts, on a checker that was made by
    -- registrations and their removals, starts and stops: a registered check that was due is due again
    -- exactly from its interval after the tick on, and a check that was not due becomes due when it
    -- would have without the tick.
    pub tick_run_spaces :
        (c : Checker x T W) (provide : W → List T × W) (at later : ℕ) (last_run : Map String ℕ)
        (w : W) (name : String) (s : CheckSchedule x T W)
        → Built c
        → get name c.schedules ≡ some s
        → is_leader c w ≡ true
        → ((v : W) → cancelled v ≡ false)
        → (is_due last_run at s ≡ true
            → is_due (tick_run account_of now cancelled c provide at last_run w).0 later s
              ≡ leb (at + pos_part s.interval) later)
          × (is_due last_run at s ≡ false
              → is_due (tick_run account_of now cancelled c provide at last_run w).0 later s
                ≡ is_due last_run later s)
    tick_run_spaces c provide at later last_run w name s b g l h =
        let r = Built-Registry c b in
        let due = due-named name last_run at c.schedules s r.keyed r.unique g in
        let ran = get-mark_run s.check.name (due_checks last_run at c.schedules) at last_run in
        let last = tick_run-last c provide at last_run w l h in
        let same = r.keyed name s g in
        rw last (
          λ d. is_due_after last_run _ at later s d (ground (arith, ran, rw (← same) at due, d)),
          λ d. is_due_same last_run _ later s (ground (arith, ran, rw (← same) at due, d)),
        )
