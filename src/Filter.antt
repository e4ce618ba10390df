-- ===== src/Filter.antt =====
-- storage/filtercond/filter_cond.go and storage/memory/internal/utils/compare.go: condition trees, and
-- how a stored value compares with the value of a condition.
pub mod Build
pub mod Convert
use lumin_acpool.Prelude.{
  ℕ, String, ℤ, beq_ℤ, Bool, true, false, ◌&&◌, ◌||◌, not, Option, none, some, List, [], ◌∷◌, map,
  string_key, nat_beq, ltb, leb, ◌==◌, string_lt,
}
use lumin_acpool.Account.{Ext}

-- The operators by name; any other string is no operator.
pub data Operator : Type 0 where
  and or : Operator
  equal not_equal greater_than greater_than_or_equal less_than less_than_or_equal : Operator
  is_in not_in like not_like between json_contains json_not_contains : Operator
  no_operator : String → Operator

pub data ValueType : Type 0 where
  string number bool time unknown : ValueType

module _ (x : Ext) where
  open x use {Float, Other}

  -- A value of `any` that is no slice: `sized` is an integer of one of the types other than int, by a
  -- number for the type, and the two named ones have a type that is declared as string or number.
  pub data Scalar : Type 0 where
    text : String → Scalar
    int : ℤ → Scalar
    sized : ℕ → ℤ → Scalar
    float64 float32 : Float → Scalar
    flag : Bool → Scalar
    instant : ℕ → Scalar
    instant_ptr : Option ℕ → Scalar
    named_text : String → Scalar
    named_number : ℤ → Scalar
    pointer : Scalar
    other : Other → Scalar

  -- The value of a condition that is no []*Filter: `anys` is []any, and `slice` another slice.
  pub data Operand : Type 0 where
    scalar : Scalar → Operand
    anys slice : List Scalar → Operand
    strings : List String → Operand

  mutual
    pub data Filter : Type 0 where
      condition : String → Operator → Operand → Filter
      group : String → Operator → Filters → Filter

    pub data Filters : Type 0 where
      end : Filters
      null : Filters → Filters
      also : Filter → Filters → Filters

abbrev pub same_flag : Bool → Bool → Bool
same_flag true b = b
same_flag false b = not b

abbrev pub compare_instants : ℕ → ℕ → Operator → Bool
compare_instants a b equal = nat_beq a b
compare_instants a b not_equal = not (nat_beq a b)
compare_instants a b greater_than = ltb b a
compare_instants a b greater_than_or_equal = ltb b a || nat_beq a b
compare_instants a b less_than = ltb a b
compare_instants a b less_than_or_equal = ltb a b || nat_beq a b
compare_instants a b _ = false

-- `a == b` on float64.
abbrev pub same_float : (x : Ext) → x.Float → x.Float → Bool
same_float x a b = x.le a b && x.le b a

abbrev pub compare_floats : (x : Ext) → x.Float → x.Float → Operator → Bool
compare_floats x a b equal = same_float x a b
compare_floats x a b not_equal = not (same_float x a b)
compare_floats x a b greater_than = x.lt b a
compare_floats x a b greater_than_or_equal = x.le b a
compare_floats x a b less_than = x.lt a b
compare_floats x a b less_than_or_equal = x.le a b
compare_floats x a b _ = false

module _ {x : Ext} where
  unfoldable pub value_type : Scalar x → ValueType
  value_type (text s) = string
  value_type (named_text s) = string
  value_type (int n) = number
  value_type (sized k n) = number
  value_type (float64 f) = number
  value_type (float32 f) = number
  value_type (named_number n) = number
  value_type (flag b) = bool
  value_type (instant t) = time
  value_type (instant_ptr t) = unknown
  value_type pointer = unknown
  value_type (other o) = unknown

  unfoldable pub to_float64 : Scalar x → Option x.Float
  to_float64 (int n) = some (x.of_int n)
  to_float64 (sized k n) = some (x.of_int n)
  to_float64 (float64 f) = some f
  to_float64 (float32 f) = some f
  to_float64 _ = none

  -- The zero time is 0.
  unfoldable pub to_time : Scalar x → Option ℕ
  to_time (instant t) = some t
  to_time (instant_ptr none) = some 0
  to_time (instant_ptr (some t)) = some t
  to_time _ = none

  unfoldable pub compare_string : Scalar x → Scalar x → Operator → Bool
  compare_string (text a) (text b) equal = a == b
  compare_string (text a) (text b) not_equal = not (a == b)
  compare_string (text a) (text b) greater_than = string_lt b a
  compare_string (text a) (text b) greater_than_or_equal = not (string_lt a b)
  compare_string (text a) (text b) less_than = string_lt a b
  compare_string (text a) (text b) less_than_or_equal = not (string_lt b a)
  compare_string _ _ _ = false

  unfoldable pub compare_bool : Scalar x → Scalar x → Operator → Bool
  compare_bool (flag a) (flag b) equal = same_flag a b
  compare_bool (flag a) (flag b) not_equal = not (same_flag a b)
  compare_bool _ _ _ = false

  unfoldable pub compare_time : Scalar x → Scalar x → Operator → Bool
  compare_time doc cond op = elim (to_time doc) [
    | none ↦ false
    | some a ↦ elim (to_time cond) [ none ↦ false | some b ↦ compare_instants a b op ]
  ]

  unfoldable pub compare_number : Scalar x → Scalar x → Operator → Bool
  compare_number doc cond op = elim (to_float64 doc) [
    | none ↦ false
    | some a ↦ elim (to_float64 cond) [ none ↦ false | some b ↦ compare_floats x a b op ]
  ]

  -- The switch of `buildComparisonCondition`, on the type of the condition's value.
  unfoldable pub compare_scalar : Scalar x → Scalar x → Operator → Bool
  compare_scalar doc cond op = elim (value_type cond) [
    | string ↦ compare_string doc cond op
    | number ↦ compare_number doc cond op
    | time ↦ compare_time doc cond op
    | bool ↦ compare_bool doc cond op
    | unknown ↦ false
  ]

  -- reflect.DeepEqual of a stored value, which is a string, an int or a time, and another value; a
  -- time has no location here.
  unfoldable pub deep_equal : Scalar x → Scalar x → Bool
  deep_equal (text a) (text b) = a == b
  deep_equal (int a) (int b) = beq_ℤ a b
  deep_equal (instant a) (instant b) = nat_beq a b
  deep_equal _ _ = false

  -- The elements of a slice.
  unfoldable pub elements : Operand x → Option (List (Scalar x))
  elements (scalar s) = none
  elements (anys l) = some l
  elements (slice l) = some l
  elements (strings l) = some (map text l)

  unfoldable pub texts : List (Scalar x) → Option (List String)
  texts [] = some []
  texts (text s ∷ l) = elim (texts l) [ none ↦ none | some ss ↦ some (s ∷ ss) ]
  texts (_ ∷ l) = none

  unfoldable pub to_string_slice : Operand x → Option (List String)
  to_string_slice (strings l) = some l
  to_string_slice (anys l) = texts l
  to_string_slice _ = none

  -- A []*Filter where another slice is expected.
  unfoldable pub pointers : Filters x → List (Scalar x)
  pointers end = []
  pointers (null fs) = pointer ∷ pointers fs
  pointers (also f fs) = pointer ∷ pointers fs
