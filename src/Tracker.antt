-- ===== src/Tracker.antt =====
-- usagetracker/default_tracker.go and option.go, and account/tracked_usage.go: local use on top of
-- the remote quota, over any usage store; storage.UsageStore is a record of operations here.
pub mod Charge
use lumin_acpool.Prelude.{
  ℕ, zero, suc, ◌+◌, String, Bool, true, false, ◌&&◌, ◌||◌, not, Option, none, some, List, [], ◌∷◌,
  ◌++◌, Result, ok, err, if◌then◌else◌, set, Key, ◌==◌, beq_ℤ, map,
}
use lumin_acpool.Account.{Ext, TrackedUsage, UsageStats}
use lumin_acpool.Interfaces.{StorageError, UsageTracker, QuotaTracker}

module _ {x : Ext} where
  unfoldable pub estimated_remain : TrackedUsage x → x.Float
  estimated_remain u = x.sub u.remote_remain u.local_used

  unfoldable pub estimated_used : TrackedUsage x → x.Float
  estimated_used u = x.add u.remote_used u.local_used

  unfoldable pub is_exhausted : TrackedUsage x → Bool
  is_exhausted u = x.le (estimated_remain u) (x.decimal 0 0)

  -- The total of a rule that is not nil and limits something.
  abbrev pub limited : TrackedUsage x → Option x.Float
  limited u = elim u.rule [
    | none ↦ none
    | some rule ↦ if x.le (x.total rule) (x.decimal 0 0) then none else some (x.total rule)
  ]

  unfoldable pub remain_ratio : TrackedUsage x → x.Float
  remain_ratio u = elim (limited u) [
    | none ↦ x.decimal 1 0
    | some total ↦
        let ratio = x.div (estimated_remain u) total in
        if x.lt ratio (x.decimal 0 0) then x.decimal 0 0 else ratio
  ]

pub record UsageStore (x : Ext) (W : Type 0) : Type 0 where
  pub get_current_usages : String → W → Result StorageError (List (TrackedUsage x)) × W
  pub save_usages : String → List (TrackedUsage x) → W → Result StorageError (Unit {0}) × W
  pub incr_local_used : String → ℕ → x.Float → W → Result StorageError (Unit {0}) × W
  pub calibrate_rule : String → ℕ → TrackedUsage x → W → Result StorageError (Unit {0}) × W
  pub remove_usages : String → W → Result StorageError (Unit {0}) × W

pub record Options (x : Ext) (W : Type 0) : Type 0 where
  pub safety_ratio : x.Float
  pub on_quota_exhausted : List (String → x.Rule → W → W)

abbrev pub same_window : (x : Ext) → x.Rule → x.Rule → Bool
same_window x a b =
    x.source_type_eq.beq (x.source_type a) (x.source_type b)
    && x.granularity_eq.beq (x.time_granularity a) (x.time_granularity b)
    && beq_ℤ (x.window_size a) (x.window_size b)

module _ {x : Ext} where
  -- `u.Rule != nil && u.Rule.SourceType == sourceType`
  abbrev pub counts : x.SourceType → TrackedUsage x → Bool
  counts source u = elim u.rule [
    | none ↦ false
    | some rule ↦ x.source_type_eq.beq (x.source_type rule) source
  ]

  -- Whether the estimated use has reached the safety ratio.
  abbrev pub over : x.Float → TrackedUsage x → Bool
  over ratio u = elim (limited u) [
    | none ↦ false
    | some total ↦ x.le ratio (x.div (estimated_used u) total)
  ]

  abbrev pub tracked : Option x.Rule → UsageStats x → ℕ → TrackedUsage x
  tracked rule s at = record {
    rule = rule;
    local_used = x.decimal 0 0;
    remote_used = s.used;
    remote_remain = s.remain;
    window_start = s.start_time;
    window_end = s.end_time;
    last_sync_at = at;
  }

  -- The first usage for the same window, and where it stands.
  unfoldable pub find_usage : x.Rule → ℕ → List (TrackedUsage x) → Option (ℕ × TrackedUsage x)
  find_usage rule i [] = none
  find_usage rule i (u ∷ us) =
      let rest = find_usage rule (i + 1) us in
      elim u.rule [ none ↦ rest | some r ↦ if same_window x r rule then some (i, u) else rest ]

  unfoldable pub initial_usages : List (Option (UsageStats x)) → ℕ → List (TrackedUsage x)
  initial_usages [] at = []
  initial_usages (none ∷ stats) at = initial_usages stats at
  initial_usages (some s ∷ stats) at = tracked s.rule s at ∷ initial_usages stats at

  unfoldable pub rule_usages : List (Option x.Rule) → ℕ → List (TrackedUsage x)
  rule_usages [] at = []
  rule_usages (none ∷ rules) at = rule_usages rules at
  rule_usages (some rule ∷ rules) at =
      let rest = rule_usages rules at in
      let (start, end) = x.calculate_window_time rule at in
      if x.is_valid rule
      then record {
        rule = some rule;
        local_used = x.decimal 0 0;
        remote_used = x.decimal 0 0;
        remote_remain = x.total rule;
        window_start = start;
        window_end = end;
        last_sync_at = at;
      }
        ∷ rest
      else rest

  unfoldable pub any_over : x.Float → List (TrackedUsage x) → Bool
  any_over ratio [] = false
  any_over ratio (u ∷ us) = over ratio u || any_over ratio us

  -- The loop of `MinRemainRatio`, from the minimum so far.
  unfoldable pub min_ratio_from : x.Float → List (TrackedUsage x) → x.Float
  min_ratio_from least [] = least
  min_ratio_from least (u ∷ us) =
      min_ratio_from (if x.lt (remain_ratio u) least then remain_ratio u else least) us

module _ {x : Ext} {W : Type 0} (store : UsageStore x W) (opts : Options x W) (now : W → ℕ) where
  -- The first loop of `RecordUsage`, from the index `i` on.
  unfoldable pub incr_matching :
      String
      → x.SourceType
      → x.Float
      → ℕ
      → List (TrackedUsage x)
      → W
      → Result StorageError (Unit {0}) × W
  incr_matching id source amount i [] w = (ok tt, w)
  incr_matching id source amount i (u ∷ us) w =
      let (r, w1) = store.incr_local_used id i amount w in
      let rest = incr_matching id source amount (i + 1) us w1 in
      let other = incr_matching id source amount (i + 1) us w in
      if counts source u then elim r [ err e ↦ (err e, w1) | ok _ ↦ rest ] else other

  unfoldable pub notify : String → x.Rule → List (String → x.Rule → W → W) → W → W
  notify id rule [] w = w
  notify id rule (cb ∷ cbs) w = notify id rule cbs (cb id rule w)

  -- The callbacks on the first rule of the source that has reached the safety ratio.
  unfoldable pub notify_first : String → x.SourceType → List (TrackedUsage x) → W → W
  notify_first id source [] w = w
  notify_first id source (u ∷ us) w =
      let rest = notify_first id source us w in
      if counts source u && over opts.safety_ratio u
      then elim u.rule [ none ↦ w | some rule ↦ notify id rule opts.on_quota_exhausted w ]
      else rest

  unfoldable pub check_exhausted : String → x.SourceType → W → W
  check_exhausted id source w = elim opts.on_quota_exhausted [
    | [] ↦ w
    | _ ∷ _ ↦
        let (r, w1) = store.get_current_usages id w in
        elim r [ err _ ↦ w1 | ok usages ↦ notify_first id source usages w1 ]
  ]

  unfoldable pub record_usage :
      String → x.SourceType → x.Float → W → Result StorageError (Unit {0}) × W
  record_usage id source amount w =
      let (r, w1) = store.get_current_usages id w in
      elim r [
        | err e ↦ (err e, w1)
        | ok [] ↦ (ok tt, w1)
        | ok (u ∷ us) ↦
            let (done, w2) = incr_matching id source amount 0 (u ∷ us) w1 in
            elim done [ err e ↦ (err e, w2) | ok _ ↦ (ok tt, check_exhausted id source w2) ]
      ]

  unfoldable pub is_quota_available : String → W → Result StorageError Bool × W
  is_quota_available id w =
      let (r, w1) = store.get_current_usages id w in
      elim r [
        | err e ↦ (err e, w1)
        | ok usages ↦ (ok (not (any_over opts.safety_ratio usages)), w1)
      ]

  -- The loop of `Calibrate` over the remote statistics; it returns the usages, and whether rules
  -- were added.
  unfoldable pub calibrate_loop :
      String
      → List (Option (UsageStats x))
      → List (TrackedUsage x)
      → Bool
      → W
      → Result StorageError (List (TrackedUsage x) × Bool) × W
  calibrate_loop id [] usages added w = (ok (usages, added), w)
  calibrate_loop id (none ∷ stats) usages added w = calibrate_loop id stats usages added w
  calibrate_loop id (some s ∷ stats) usages added w =
      let skip = calibrate_loop id stats usages added w in
      elim s.rule [
        | none ↦ skip
        | some rule ↦
            let append =
              calibrate_loop id stats (usages ++ tracked (some rule) s (now w) ∷ []) true w in
            elim (find_usage rule 0 usages) [
              | none ↦ append
              | some (i, u) ↦
                  let (r, w1) = store.calibrate_rule id i (tracked none s 0) w in
                  let next =
                    calibrate_loop id stats (set usages i (tracked u.rule s (now w1))) added w1 in
                  elim r [ err e ↦ (err e, w1) | ok _ ↦ next ]
            ]
      ]

  unfoldable pub calibrate :
      String → List (Option (UsageStats x)) → W → Result StorageError (Unit {0}) × W
  calibrate id stats w =
      let (r, w1) = store.get_current_usages id w in
      elim r [
        | err e ↦ (err e, w1)
        | ok [] ↦ store.save_usages id (initial_usages stats (now w1)) w1
        | ok (u ∷ us) ↦
            let (done, w2) = calibrate_loop id stats (u ∷ us) false w1 in
            elim done [
              | err e ↦ (err e, w2)
              | ok (usages, added) ↦ if added then store.save_usages id usages w2 else (ok tt, w2)
            ]
      ]

  abbrev pub used_up : TrackedUsage x → TrackedUsage x
  used_up u = record {
    rule = none;
    local_used = x.decimal 0 0;
    remote_used = x.add u.remote_used u.local_used;
    remote_remain = x.decimal 0 0;
    window_start = u.window_start;
    window_end = u.window_end;
    last_sync_at = 0;
  }

  unfoldable pub use_up_matching :
      String → x.SourceType → ℕ → List (TrackedUsage x) → W → Result StorageError (Unit {0}) × W
  use_up_matching id source i [] w = (ok tt, w)
  use_up_matching id source i (u ∷ us) w =
      let (r, w1) = store.calibrate_rule id i (used_up u) w in
      let rest = use_up_matching id source (i + 1) us w1 in
      let other = use_up_matching id source (i + 1) us w in
      if counts source u then elim r [ err e ↦ (err e, w1) | ok _ ↦ rest ] else other

  unfoldable pub calibrate_from_response :
      String → x.SourceType → W → Result StorageError (Unit {0}) × W
  calibrate_from_response id source w =
      let (r, w1) = store.get_current_usages id w in
      elim r [ err e ↦ (err e, w1) | ok usages ↦ use_up_matching id source 0 usages w1 ]

  unfoldable pub min_remain_ratio : String → W → Result StorageError x.Float × W
  min_remain_ratio id w =
      let (r, w1) = store.get_current_usages id w in
      elim r [ err e ↦ (err e, w1) | ok usages ↦ (ok (min_ratio_from (x.decimal 1 0) usages), w1) ]

  unfoldable pub init_rules : String → List (Option x.Rule) → W → Result StorageError (Unit {0}) × W
  init_rules id rules w = store.save_usages id (rule_usages rules (now w)) w

  unfoldable remove : String → W → Result StorageError (Unit {0}) × W
  remove id w = store.remove_usages id w

  -- As the interfaces that the balancer, and the health checks and the adaptive limit hold.
  unfoldable pub usage_tracker : UsageTracker W
  usage_tracker = record {
    record_usage = λ id w. record_usage id x.source_type_request (x.decimal 1 0) w;
    calibrate_from_response = λ id w. calibrate_from_response id x.source_type_request w;
  }

  unfoldable pub quota_tracker : QuotaTracker x W
  quota_tracker = record {
    calibrate = calibrate;
    init_rules = init_rules;
    get_tracked_usages = store.get_current_usages;
  }
