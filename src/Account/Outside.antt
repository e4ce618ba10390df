-- ===== src/Account/Outside.antt =====
-- What the code takes from outside the repository, as one parameter of the model: Go's float64 with
-- the operations used, credentials, dynamic values, and the usage rules of lumin-client's package
-- usagerule, a struct read through its fields and two methods. No law of any of these is assumed.
use lumin_acpool.Prelude.{ℕ, ℤ, Bool, Option, Key}

pub record Ext : Type 1 where
  -- float64; `decimal m k` is the literal m / 10^k.
  pub Float : Type 0
  pub decimal : ℕ → ℕ → Float
  pub of_int : ℤ → Float
  pub to_int : Float → ℤ
  pub floor : Float → Float
  pub ceil : Float → Float
  pub max_float : Float
  pub add : Float → Float → Float
  pub sub : Float → Float → Float
  pub mul : Float → Float → Float
  pub div : Float → Float → Float
  pub lt : Float → Float → Bool
  pub le : Float → Float → Bool
  -- nanoseconds to seconds
  pub seconds : ℕ → Float
  -- credentials.Credential, and the values of `any` other than numbers
  pub Credential : Type 0
  pub Other : Type 0
  -- usagerule
  pub SourceType : Type 0
  pub source_type_eq : Key SourceType
  pub source_type_request : SourceType
  pub Granularity : Type 0
  pub granularity_eq : Key Granularity
  pub Rule : Type 0
  pub source_type : Rule → SourceType
  pub time_granularity : Rule → Granularity
  pub window_size : Rule → ℤ
  pub total : Rule → Float
  pub is_valid : Rule → Bool
  -- the window that holds the given time
  pub calculate_window_time : Rule → ℕ → Option ℕ × Option ℕ
