-- ===== src/Guard/Cooldown/Until.antt =====
-- A cooldown whose end the response does not name.
use lumin_acpool.Prelude.{
  ℕ, ◌<◌, nat_beq, Bool, true, false, Option, none, List, [], ◌∷◌, arith, ◌≡◌, All, if◌then◌else◌,
}
use lumin_acpool.Account.{Ext, Account, is_cooldown_expired}
use lumin_acpool.Guard.Window.{min_remain, max_int64, Within, min_remain-Within}
use lumin_acpool.Guard.Cooldown.{estimate, estimate_cooldown_duration, start_cooldown}

module _ (x : Ext) where
  if-Within :
      (b : Bool) (now m : ℕ) (rs : List (Option x.Rule))
      → All (Within x now m) rs
      → 0 < (if b then 0 else m)
      → All (Within x now (if b then 0 else m)) rs
  if-Within true now m rs w h = absurd (omega arith)
  if-Within false now m rs w h = w

  estimate-Within :
      (rs : List (Option x.Rule)) (now : ℕ)
      → 0 < estimate x rs now
      → All (Within x now (estimate x rs now)) rs
  unfolding estimate
  estimate-Within [] now h = tt
  estimate-Within (r ∷ rs) now h =
      if-Within (nat_beq (min_remain x (r ∷ rs) now max_int64) max_int64) now _ (r ∷ rs)
        (min_remain-Within x (r ∷ rs) now max_int64) h

module _ {x : Ext} where
  -- With a positive default duration, a cooldown that starts without a time from the response has
  -- not expired at the moment it starts.
  pub start_cooldown-is_cooldown_expired :
      (default : ℕ) (a : Account x) (now : ℕ)
      → 0 < default
      → is_cooldown_expired (start_cooldown default a none now) now ≡ false
  unfolding start_cooldown
  start_cooldown-is_cooldown_expired default a now h = ground arith

  -- An estimate that is not 0 reaches no further than the end of any valid rule's window that ends
  -- after now: the account is back, at the latest, when the first of these windows ends.
  pub estimate_cooldown_duration-Within :
      (a : Account x) (now : ℕ)
      → 0 < estimate_cooldown_duration a now
      → All (Within x now (estimate_cooldown_duration a now)) a.usage_rules
  unfolding estimate_cooldown_duration
  estimate_cooldown_duration-Within a now h = estimate-Within x a.usage_rules now h
