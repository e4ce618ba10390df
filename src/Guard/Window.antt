-- ===== src/Guard/Window.antt =====
-- The loop that circuitbreaker/default_circuitbreaker.go and cooldown/default_cooldown.go share: the
-- shortest time to the end of a usage rule's window. Durations are nanoseconds and not negative.
use lumin_acpool.Prelude.{
  ℕ, ◌+◌, ◌-◌, ◌^◌, ◌≤◌, ◌<◌, ltb, true, ◌&&◌, Option, none, some, List, [], ◌∷◌, if◌then◌else◌,
  arith, ◌≡◌, All,
}
use lumin_acpool.Account.{Ext}

abbrev pub max_int64 : ℕ
max_int64 = 2 ^ 63 - 1

-- `if end != nil && end.After(now)`, and the comparison with the shortest so far.
abbrev pub shorter : Option ℕ → ℕ → ℕ → ℕ
shorter none now shortest = shortest
shorter (some end) now shortest =
    if ltb now end && ltb (end - now) shortest then end - now else shortest

module _ (x : Ext) where
  abbrev pub window_end : x.Rule → ℕ → Option ℕ
  window_end r now = (x.calculate_window_time r now).1

  unfoldable pub min_remain : List (Option x.Rule) → ℕ → ℕ → ℕ
  min_remain [] now shortest = shortest
  min_remain (none ∷ rs) now shortest = min_remain rs now shortest
  min_remain (some r ∷ rs) now shortest =
      min_remain rs now (if x.is_valid r then shorter (window_end r now) now shortest else shortest)

  -- The duration reaches no further than the end of the rule's window, where the rule counts.
  abbrev pub Within : ℕ → ℕ → Option x.Rule → Type 0
  Within now d none = Unit {0}
  Within now d (some r) =
      (end : ℕ) → x.is_valid r ≡ true → window_end r now ≡ some end → now < end → now + d ≤ end

  pub min_remain-le :
      (rs : List (Option x.Rule)) (now shortest : ℕ) → min_remain rs now shortest ≤ shortest
  unfolding min_remain
  min_remain-le [] now shortest = omega arith
  min_remain-le (none ∷ rs) now shortest = min_remain-le rs now shortest
  min_remain-le (some r ∷ rs) now shortest = grind (arith, min_remain-le rs now)

  pub min_remain-pos :
      (rs : List (Option x.Rule)) (now shortest : ℕ) → 0 < shortest → 0 < min_remain rs now shortest
  unfolding min_remain
  min_remain-pos [] now shortest h = h
  min_remain-pos (none ∷ rs) now shortest h = min_remain-pos rs now shortest h
  min_remain-pos (some r ∷ rs) now shortest h = grind (arith, min_remain-pos rs now)

  pub min_remain-Within :
      (rs : List (Option x.Rule)) (now shortest : ℕ)
      → All (Within now (min_remain rs now shortest)) rs
  unfolding min_remain
  min_remain-Within [] now shortest = tt
  min_remain-Within (none ∷ rs) now shortest = (tt, min_remain-Within rs now shortest)
  min_remain-Within (some r ∷ rs) now shortest =
      (λ end v e h. grind (arith, min_remain-le rs now), min_remain-Within rs now _)
