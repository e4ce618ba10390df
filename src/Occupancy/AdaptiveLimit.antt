-- ===== src/Occupancy/AdaptiveLimit.antt =====
-- balancer/occupancy/adaptive_limit.go and unlimited.go: a bound for each account that follows its
-- remaining quota, over any occupancy store and usage tracker; and the controller without a bound.
pub mod Bounds
use lumin_acpool.Prelude.{
  ℕ, ◌-◌, String, ℤ, pos, ltb_ℤ, leb_ℤ, ltb, Bool, true, false, Option, none, some, List, [], ◌∷◌,
  Map, get, string_key, Result, ok, err, map, if◌then◌else◌,
}
use lumin_acpool.Account.{Ext, Account, Any, int64, int, float64, other, TrackedUsage}
use lumin_acpool.Interfaces.{OccupancyStore, QuotaTracker, Controller}
use lumin_acpool.Occupancy.Contract.{level}
use lumin_acpool.Occupancy.FixedLimit.{metadata_int64, or_else, positive}
use lumin_acpool.Guard.Window.{max_int64}
use lumin_acpool.Tracker.{estimated_remain, min_ratio_from}

pub record AdaptiveLimit (x : Ext) : Type 0 where
  pub factor : x.Float
  pub min_limit : ℤ
  pub max_limit : ℤ
  pub fallback_limit : ℤ

-- What the loop over the usages finds: a rule that is used up, or the least limit so far and whether
-- a rule gave it.
pub data Tightest : Type 0 where
  used_up : Tightest
  least : ℤ → Bool → Tightest

module _ {x : Ext} where
  abbrev pub any_float64 : Any x → Option x.Float
  any_float64 (float64 f) = some f
  any_float64 (int64 v) = some (x.of_int v)
  any_float64 (int v) = some (x.of_int v)
  any_float64 (other o) = none

  unfoldable pub metadata_float64 : Account x → String → Option x.Float
  metadata_float64 a key = elim (get key a.metadata) [ none ↦ none | some v ↦ any_float64 v ]

unfoldable pub clamp : ℤ → ℤ → ℤ → ℤ
clamp lo hi v =
    let raised = if ltb_ℤ v lo then lo else v in
    if ltb_ℤ (pos 0) hi then if ltb_ℤ hi raised then hi else raised else raised

-- The compression close to exhaustion.
unfoldable pub compress : (x : Ext) → x.Float → ℤ → ℤ
compress x ratio best =
    if x.lt ratio (x.decimal 1 1)
    then x.to_int (x.ceil (x.mul (x.mul (x.of_int best) ratio) (x.decimal 10 0)))
    else best

module _ {x : Ext} where
  -- The seconds until the window ends, 60 where that is not known, and at least something.
  unfoldable pub remain_seconds : TrackedUsage x → ℕ → x.Float
  remain_seconds u now =
      let s : x.Float = elim u.window_end [
        | none ↦ x.decimal 60 0
        | some end ↦ if ltb now end then x.seconds (end - now) else x.decimal 60 0
      ] in
      if x.le s (x.decimal 0 0) then x.decimal 1 0 else s

  unfoldable pub rule_limit : x.Float → TrackedUsage x → ℕ → ℤ
  rule_limit factor u now =
      x.to_int (x.floor (x.mul (x.div (estimated_remain u) (remain_seconds u now)) factor))

  abbrev pub is_limited : TrackedUsage x → Bool
  is_limited u = elim u.rule [
    | none ↦ false
    | some rule ↦ if x.le (x.total rule) (x.decimal 0 0) then false else true
  ]

  unfoldable pub tightest : x.Float → ℕ → ℤ → Bool → List (TrackedUsage x) → Tightest
  tightest factor now best found [] = least best found
  tightest factor now best found (u ∷ us) =
      let skip = tightest factor now best found us in
      let limit = rule_limit factor u now in
      let next =
        if ltb_ℤ limit best
        then tightest factor now limit true us
        else tightest factor now best found us in
      if is_limited u
      then if x.le (estimated_remain u) (x.decimal 0 0) then used_up else next
      else skip

module _ {x : Ext} (ad : AdaptiveLimit x) where
  unfoldable pub get_factor : Account x → x.Float
  get_factor a = elim (metadata_float64 a "occupancy_factor") [
    | none ↦ ad.factor
    | some v ↦ if x.lt (x.decimal 0 0) v then v else ad.factor
  ]

  unfoldable pub get_min_limit : Account x → ℤ
  get_min_limit a = or_else (positive (metadata_int64 a "occupancy_min_limit")) ad.min_limit

  unfoldable pub get_max_limit : Account x → ℤ
  get_max_limit a = elim (metadata_int64 a "occupancy_max_limit") [
    | none ↦ ad.max_limit
    | some v ↦ if leb_ℤ (pos 0) v then v else ad.max_limit
  ]

  unfoldable pub get_fallback_limit : Account x → ℤ
  get_fallback_limit a =
      or_else (positive (metadata_int64 a "occupancy_fallback_limit")) ad.fallback_limit

  -- The limit from the tracked usages.
  unfoldable pub limit_of : Account x → List (TrackedUsage x) → ℕ → ℤ
  limit_of a usages now = elim usages [
    | [] ↦ get_fallback_limit a
    | u ∷ us ↦ elim (tightest (get_factor a) now (pos max_int64) false (u ∷ us)) [
      | used_up ↦ get_min_limit a
      | least best found ↦
          if found
          then clamp (get_min_limit a) (get_max_limit a)
              (compress x (min_ratio_from (x.decimal 1 0) (u ∷ us)) best)
          else get_fallback_limit a
    ]
  ]

module _ {x : Ext} {W : Type 0} (ad : AdaptiveLimit x) (s : OccupancyStore W)
    (tracker : QuotaTracker x W) (now : W → ℕ) where
  unfoldable pub calculate_limit : Account x → W → ℤ × W
  calculate_limit a w =
      let (r, w1) = tracker.get_tracked_usages a.id w in
      elim r [
        | err _ ↦ (get_fallback_limit ad a, w1)
        | ok usages ↦ (limit_of ad a usages (now w1), w1)
      ]

  unfoldable pub keep_available : Map String ℕ → List (Account x) → W → List (Account x) × W
  keep_available occupancies [] w = ([], w)
  keep_available occupancies (a ∷ accounts) w =
      let (limit, w1) = calculate_limit a w in
      let (rest, w2) = keep_available occupancies accounts w1 in
      (if ltb_ℤ (pos (level a.id occupancies)) limit then a ∷ rest else rest, w2)

  unfoldable pub filter_available : List (Account x) → W → List (Account x) × W
  filter_available [] w = ([], w)
  filter_available (a ∷ rest) w =
      let (r, w1) = s.get_occupancies (map (λ y. y.id) (a ∷ rest)) w in
      elim r [ err _ ↦ (a ∷ rest, w1) | ok occupancies ↦ keep_available occupancies (a ∷ rest) w1 ]

  unfoldable pub acquire : Account x → W → Bool × W
  acquire a w =
      let (limit, w1) = calculate_limit a w in
      let (r, w2) = s.incr_occupancy a.id w1 in
      elim r [
        | err _ ↦ (false, w2)
        | ok n ↦ if ltb_ℤ limit (pos n) then (false, (s.decr_occupancy a.id w2).1) else (true, w2)
      ]

  unfoldable pub adaptive_limit : Controller x W
  adaptive_limit = record {
    filter_available = filter_available;
    acquire = acquire;
    release = λ id w. (s.decr_occupancy id w).1;
  }

-- Unlimited
unfoldable pub unlimited : {x : Ext} {W : Type 0} → Controller x W
unlimited = record {
  filter_available = λ accounts w. (accounts, w);
  acquire = λ a w. (true, w);
  release = λ id w. w;
}
