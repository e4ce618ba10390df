-- ===== src/Memory/Usage.antt =====
-- storage/memory/usage.go: the tracked usages of the accounts. Each operation holds the lock and is one
-- step, at the time `now`; the rule index comes from a range over a slice.
use lumin_acpool.Prelude.{
  ℕ, String, Bool, none, some, List, [], Map, get, put, del, string_key, Result, ok, err, keep, not,
  set, get_elem?, ltb,
}
use lumin_acpool.Account.{Ext, TrackedUsage}
use lumin_acpool.Interfaces.{StorageError}
use lumin_acpool.Tracker.{UsageStore}

abbrev pub Usages : Ext → Type 0
Usages x = Map String (List (TrackedUsage x))

module _ {x : Ext} where
  -- `u.WindowEnd != nil && now.After(*u.WindowEnd)`
  abbrev pub is_past : ℕ → TrackedUsage x → Bool
  is_past now u = elim u.window_end [ none ↦ Bool.false | some end ↦ ltb end now ]

  unfoldable pub get_current_usages : String → ℕ → Usages x → List (TrackedUsage x)
  get_current_usages id now m = elim (get id m) [
    | none ↦ []
    | some usages ↦ keep (λ u. not (is_past now u)) usages
  ]

  -- A write to the usage at an index of the stored slice.
  unfoldable pub write_at :
      String
      → ℕ
      → (TrackedUsage x → TrackedUsage x)
      → Usages x
      → Result StorageError (Unit {0}) × Usages x
  write_at id i f m = elim (get id m) [
    | none ↦ (ok tt, m)
    | some usages ↦ elim (get_elem? usages i) [
      | none ↦ (err (StorageError.failed "memory store: rule index out of range"), m)
      | some u ↦ (ok tt, put id (set usages i (f u)) m)
    ]
  ]

  abbrev pub add_local : x.Float → TrackedUsage x → TrackedUsage x
  add_local amount u = record u { local_used = x.add u.local_used amount }

  abbrev pub recalibrate : TrackedUsage x → ℕ → TrackedUsage x → TrackedUsage x
  recalibrate usage now u = record {
    rule = u.rule;
    local_used = x.decimal 0 0;
    remote_used = usage.remote_used;
    remote_remain = usage.remote_remain;
    window_start = usage.window_start;
    window_end = usage.window_end;
    last_sync_at = now;
  }

  unfoldable pub memory_usage_store : ℕ → UsageStore x (Usages x)
  memory_usage_store now = record {
    get_current_usages = λ id m. (ok (get_current_usages id now m), m);
    save_usages = λ id usages m. (ok tt, put id usages m);
    incr_local_used = λ id i amount m. write_at id i (add_local amount) m;
    calibrate_rule = λ id i usage m. write_at id i (recalibrate usage now) m;
    remove_usages = λ id m. (ok tt, del id m);
  }
