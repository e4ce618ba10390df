-- ===== src/Occupancy/FixedLimit.antt =====
-- balancer/occupancy/fixed_limit.go and metadata.go: a fixed bound for each account, looked up at
-- five levels, over any occupancy store.
pub mod Bound
use lumin_acpool.Prelude.{
  ℕ, suc, String, ℤ, pos, negsuc, ltb_ℤ, Bool, true, false, ◌&&◌, Option, none, some, List, [], ◌∷◌,
  Map, get, string_key, Result, ok, err, keep, map, if◌then◌else◌,
}
use lumin_acpool.Account.{
  Ext, Account, Any, int64, int, float64, other, ProviderKey, key_eq, account_key,
}
use lumin_acpool.Interfaces.{OccupancyStore, Controller}
use lumin_acpool.Occupancy.Contract.{level}

module _ {x : Ext} where
  -- The type switch of `metadataInt64`.
  abbrev pub any_int64 : Any x → Option ℤ
  any_int64 (int64 v) = some v
  any_int64 (int v) = some v
  any_int64 (float64 f) = some (x.to_int f)
  any_int64 (other o) = none

  unfoldable pub metadata_int64 : Account x → String → Option ℤ
  metadata_int64 a key = elim (get key a.metadata) [ none ↦ none | some v ↦ any_int64 v ]

abbrev pub meta_key_occupancy_limit : String
meta_key_occupancy_limit = "occupancy_limit"

pub record FixedLimit : Type 0 where
  pub default_limit : ℤ
  pub provider_type_limits : Map String ℤ
  pub provider_key_limits : Map ProviderKey ℤ
  pub account_limits : Map String ℤ

abbrev pub or_else {ℓ} : {A : Type ℓ} → Option A → A → A
or_else (some a) d = a
or_else none d = d

-- A limit in the metadata counts only if it is positive.
abbrev pub positive : Option ℤ → Option ℤ
positive (some v) = if ltb_ℤ (pos 0) v then some v else none
positive none = none

module _ {x : Ext} (f : FixedLimit) where
  -- Metadata, then the account, then the provider key, then the provider type, then the default.
  unfoldable pub get_limit : Account x → ℤ
  get_limit a = or_else (positive (metadata_int64 a meta_key_occupancy_limit)) (
      or_else (get a.id f.account_limits) (
        or_else (get (account_key a) f.provider_key_limits)
          (or_else (get a.provider_type f.provider_type_limits) f.default_limit)))

unfoldable pub release : {W : Type 0} → OccupancyStore W → String → W → W
release s id w = (s.decr_occupancy id w).1

module _ {x : Ext} {W : Type 0} (f : FixedLimit) (s : OccupancyStore W) where
  abbrev pub has_room : Map String ℕ → Account x → Bool
  has_room occupancies a = ltb_ℤ (pos (level a.id occupancies)) (get_limit f a)

  unfoldable pub filter_available : List (Account x) → W → List (Account x) × W
  filter_available accounts w = elim accounts [
    | [] ↦ ([], w)
    | a ∷ rest ↦
        let (r, w') = s.get_occupancies (map (λ y. y.id) (a ∷ rest)) w in
        elim r [
          | err _ ↦ (a ∷ rest, w')
          | ok occupancies ↦ (keep (has_room occupancies) (a ∷ rest), w')
        ]
  ]

  unfoldable pub acquire : Account x → W → Bool × W
  acquire a w =
      let (r, w') = s.incr_occupancy a.id w in
      elim r [
        | err _ ↦ (false, w')
        | ok n ↦
            if ltb_ℤ (get_limit f a) (pos n)
            then (false, (s.decr_occupancy a.id w').1)
            else (true, w')
      ]

  unfoldable pub fixed_limit : Controller x W
  fixed_limit = record {
    filter_available = filter_available;
    acquire = acquire;
    release = release s;
  }
