-- ===== src/Account.antt =====
-- account/: the aggregate root `Account`, its status, the provider that owns it, and the runtime
-- statistics. Go's pointers to a time are options, and times are nanoseconds since the zero time, so
-- that `IsZero` is a comparison with 0. Values are immutable here, so a Clone is the value itself.
mod Outside
pub use Outside.{Ext}
use lumin_acpool.Prelude.{
  ℕ, String, ℤ, Bool, true, false, ◌||◌, ◌&&◌, Option, none, some, List, [], ◌∷◌, Map, Key, ◌==◌,
  ltb, nat_beq, arith, ◌≡◌, ◌↔◌, string_key,
}

pub data Status : Type 0 where
  available cooling_down circuit_open expired invalidated banned disabled : Status

-- The numbers of the constants; `int(s)`.
abbrev pub status_code : Status → ℕ
status_code available = 1
status_code cooling_down = 2
status_code circuit_open = 3
status_code expired = 4
status_code invalidated = 5
status_code banned = 6
status_code disabled = 7

abbrev pub same_status : Status → Status → Bool
same_status a b = nat_beq (status_code a) (status_code b)

abbrev pub is_selectable : Status → Bool
is_selectable s = same_status s available

abbrev pub is_recoverable : Status → Bool
is_recoverable cooling_down = true
is_recoverable circuit_open = true
is_recoverable expired = true
is_recoverable _ = false

pub record ProviderKey : Type 0 where
  pub ptype : String
  pub name : String

abbrev pub build_provider_key : String → String → ProviderKey
build_provider_key t n = record { ptype = t; name = n }

abbrev pub key_beq : ProviderKey → ProviderKey → Bool
key_beq a b = a.ptype == b.ptype && a.name == b.name

pub key_beq_iff : (a b : ProviderKey) → (key_beq a b ≡ true) ↔ (a ≡ b)
key_beq_iff a b =
    ground (arith, string_key.beq_iff a.ptype b.ptype, string_key.beq_iff a.name b.name)

instance abbrev pub key_eq : Key ProviderKey
key_eq = record { beq = key_beq; beq_iff = key_beq_iff }

pub data ProviderStatus : Type 0 where
  active degraded provider_disabled : ProviderStatus

abbrev pub provider_status_code : ProviderStatus → ℕ
provider_status_code active = 1
provider_status_code provider_disabled = 2
provider_status_code degraded = 3

pub record AccountStats : Type 0 where
  pub account_id : String
  pub total_calls : ℕ
  pub success_calls : ℕ
  pub failed_calls : ℕ
  pub consecutive_failures : ℕ
  pub last_used_at : Option ℕ
  pub last_error_at : Option ℕ
  pub last_error_msg : String

module _ (x : Ext) where
  open x use {Float, Credential, Other, Rule}

  -- A value of type `any`, as far as the type switches of the code tell them apart.
  pub data Any : Type 0 where
    int64 : ℤ → Any
    int : ℤ → Any
    float64 : Float → Any
    other : Other → Any

  pub record Account : Type 0 where
    pub id : String
    pub provider_type : String
    pub provider_name : String
    pub credential : Credential
    pub status : Status
    pub priority : ℤ
    pub tags : Map String String
    pub metadata : Map String Any
    pub usage_rules : List (Option Rule)
    pub cooldown_until : Option ℕ
    pub circuit_open_until : Option ℕ
    pub created_at : ℕ
    pub updated_at : ℕ
    pub version : ℕ

  pub record ProviderInfo : Type 0 where
    pub provider_type : String
    pub provider_name : String
    pub status : ProviderStatus
    pub priority : ℤ
    pub weight : ℤ
    pub tags : Map String String
    pub supported_models : List String
    pub usage_rules : List (Option Rule)
    pub metadata : Map String Any
    pub account_count : ℕ
    pub available_account_count : ℕ
    pub created_at : ℕ
    pub updated_at : ℕ

module _ (x : Ext) where
  open x use {Float, Rule}

  -- account/tracked_usage.go
  pub record TrackedUsage : Type 0 where
    pub rule : Option Rule
    pub local_used : Float
    pub remote_used : Float
    pub remote_remain : Float
    pub window_start : Option ℕ
    pub window_end : Option ℕ
    pub last_sync_at : ℕ

  -- usagerule.UsageStats, the usage of one rule as the provider reports it.
  pub record UsageStats : Type 0 where
    pub rule : Option Rule
    pub used : Float
    pub remain : Float
    pub start_time : Option ℕ
    pub end_time : Option ℕ

-- `!until.After(now)` fails on a nil pointer: a missing time has expired.
abbrev pub expired_at : Option ℕ → ℕ → Bool
expired_at none now = true
expired_at (some until) now = ltb until now

-- `slices.Contains`
abbrev pub contains : List String → String → Bool
contains [] m = false
contains (y ∷ ys) m = y == m || contains ys m

module _ {x : Ext} where
  abbrev pub is_cooldown_expired : Account x → ℕ → Bool
  is_cooldown_expired a now = expired_at a.cooldown_until now

  abbrev pub is_circuit_open_expired : Account x → ℕ → Bool
  is_circuit_open_expired a now = expired_at a.circuit_open_until now

  abbrev pub account_key : Account x → ProviderKey
  account_key a = build_provider_key a.provider_type a.provider_name

  abbrev pub provider_key : ProviderInfo x → ProviderKey
  provider_key p = build_provider_key p.provider_type p.provider_name

  abbrev pub supports_model : ProviderInfo x → String → Bool
  supports_model p m = contains p.supported_models m

  abbrev pub is_active : ProviderInfo x → Bool
  is_active p =
      nat_beq (provider_status_code p.status) 1 || nat_beq (provider_status_code p.status) 3
