-- ===== src/Guard/Cooldown.antt =====
-- cooldown/default_cooldown.go: until when an account cools down.
pub mod Until
use lumin_acpool.Prelude.{
  ℕ, ◌+◌, ltb, nat_beq, Bool, Option, none, some, List, [], ◌∷◌, if◌then◌else◌,
}
use lumin_acpool.Account.{Ext, Account}
use lumin_acpool.Interfaces.{CooldownManager}
use lumin_acpool.Guard.Window.{min_remain, max_int64}

module _ (x : Ext) where
  -- The body of `estimateCooldownDuration`, on the account's rules; 0 if no window counts.
  unfoldable pub estimate : List (Option x.Rule) → ℕ → ℕ
  estimate [] now = 0
  estimate (r ∷ rs) now =
      let remain = min_remain x (r ∷ rs) now max_int64 in
      if nat_beq remain max_int64 then 0 else remain

module _ {x : Ext} where
  unfoldable pub estimate_cooldown_duration : Account x → ℕ → ℕ
  estimate_cooldown_duration a now = estimate x a.usage_rules now

  -- With the default duration of the options.
  pub start_cooldown : ℕ → Account x → Option ℕ → ℕ → Account x
  start_cooldown default a (some until) now = record a { cooldown_until = some until }
  start_cooldown default a none now =
      let d = estimate_cooldown_duration a now in
      record a { cooldown_until = some (if ltb 0 d then now + d else now + default) }

  -- As the interface that the balancer holds, with the clock of the runtime.
  pub cooldown_manager : {W : Type 0} → ℕ → (W → ℕ) → CooldownManager x W
  cooldown_manager default clock = record {
    start_cooldown = λ a until w. (start_cooldown default a until (clock w), w);
  }
