-- ===== src/Filter/Convert.antt =====
-- storage/memory/account_converter.go and provider_converter.go: a condition tree as a predicate.
pub mod Valid
use lumin_acpool.Prelude.{
  ℕ, String, pos, Bool, true, false, ◌&&◌, ◌||◌, not, Option, none, some, List, [], ◌∷◌, Result, ok,
  err, if◌then◌else◌, string_key, ◌==◌, has_substring,
}
use lumin_acpool.Account.{
  Ext, Account, ProviderInfo, status_code, provider_status_code, supports_model,
}
use lumin_acpool.Filter.{
  Operator, Scalar, Operand, Filter, Filters, compare_scalar, deep_equal, elements, to_string_slice,
  pointers,
}

pub data FilterError : Type 0 where
  nil_condition unsupported_operator no_filters no_conditions unsupported_field : FilterError
  not_a_slice not_two not_a_string : FilterError

-- What becomes of a comparison, an `in` and a `like`, with or without its negation, on a field.
pub record Builder (x : Ext) (A : Type 0) : Type 0 where
  pub comparison : String → Operator → Operand x → Result FilterError (A → Bool)
  pub membership : String → Operator → Operand x → Result FilterError (A → Bool)
  pub likeness : String → Operator → Operand x → Result FilterError (A → Bool)

abbrev pub is_in_operator : Operator → Bool
is_in_operator Operator.is_in = true
is_in_operator _ = false

abbrev pub is_like_operator : Operator → Bool
is_like_operator Operator.like = true
is_like_operator _ = false

module _ {x : Ext} where
  unfoldable pub compare_value : Scalar x → Operand x → Operator → Bool
  compare_value doc (Operand.scalar s) op = compare_scalar doc s op
  compare_value doc _ op = false

  unfoldable pub found_in : Scalar x → List (Scalar x) → Bool
  found_in doc [] = false
  found_in doc (s ∷ l) = deep_equal doc s || found_in doc l

  unfoldable pub like_value : Scalar x → String → Operator → Bool
  like_value (Scalar.text s) pattern op =
      if is_like_operator op then has_substring s pattern else not (has_substring s pattern)
  like_value _ pattern op = false

  unfoldable pub two_of : Operand x → Option (Scalar x × Scalar x)
  two_of v = elim (elements v) [ some (lo ∷ hi ∷ []) ↦ some (lo, hi) | _ ↦ none ]

module _ {x : Ext} {A : Type 0} (extractor : String → Option (A → Scalar x)) where
  unfoldable pub build_comparison_condition :
      String → Operator → Operand x → Result FilterError (A → Bool)
  build_comparison_condition field op v = elim (extractor field) [
    | none ↦ err FilterError.unsupported_field
    | some value ↦ ok (λ a. compare_value (value a) v op)
  ]

  unfoldable pub build_in_condition : String → Operator → Operand x → Result FilterError (A → Bool)
  build_in_condition field op v = elim (extractor field) [
    | none ↦ err FilterError.unsupported_field
    | some value ↦ elim (elements v) [
      | none ↦ err FilterError.not_a_slice
      | some [] ↦ err FilterError.not_a_slice
      | some (s ∷ l) ↦ ok λ a.
          let found = found_in (value a) (s ∷ l) in if is_in_operator op then found else not found
    ]
  ]

  unfoldable pub build_like_condition :
      String → Operator → Operand x → Result FilterError (A → Bool)
  build_like_condition field op v = elim (extractor field) [
    | none ↦ err FilterError.unsupported_field
    | some value ↦ elim v [
      | Operand.scalar (Scalar.text pattern) ↦ ok (λ a. like_value (value a) pattern op)
      | _ ↦ err FilterError.not_a_string
    ]
  ]

module _ {x : Ext} {A : Type 0} (b : Builder x A) where
  unfoldable pub build_between_condition : String → Operand x → Result FilterError (A → Bool)
  build_between_condition field v = elim (two_of v) [
    | none ↦ err FilterError.not_two
    | some (lo, hi) ↦ elim (b.comparison field Operator.greater_than_or_equal (Operand.scalar lo)) [
      | err e ↦ err e
      | ok above ↦ elim (b.comparison field Operator.less_than_or_equal (Operand.scalar hi)) [
        | err e ↦ err e
        | ok below ↦ ok (λ a. above a && below a)
      ]
    ]
  ]

  -- A condition whose value is no []*Filter, and one whose value is, under an operator other than
  -- `and` and `or`.
  unfoldable pub convert_leaf : String → Operator → Operand x → Result FilterError (A → Bool)
  convert_leaf field Operator.and v = err FilterError.no_filters
  convert_leaf field Operator.or v = err FilterError.no_filters
  convert_leaf field Operator.equal v = b.comparison field Operator.equal v
  convert_leaf field Operator.not_equal v = b.comparison field Operator.not_equal v
  convert_leaf field Operator.greater_than v = b.comparison field Operator.greater_than v
  convert_leaf field Operator.greater_than_or_equal v =
      b.comparison field Operator.greater_than_or_equal v
  convert_leaf field Operator.less_than v = b.comparison field Operator.less_than v
  convert_leaf field Operator.less_than_or_equal v =
      b.comparison field Operator.less_than_or_equal v
  convert_leaf field Operator.is_in v = b.membership field Operator.is_in v
  convert_leaf field Operator.not_in v = b.membership field Operator.not_in v
  convert_leaf field Operator.between v = build_between_condition field v
  convert_leaf field Operator.like v = b.likeness field Operator.like v
  convert_leaf field Operator.not_like v = b.likeness field Operator.not_like v
  convert_leaf field Operator.json_contains v = err FilterError.unsupported_operator
  convert_leaf field Operator.json_not_contains v = err FilterError.unsupported_operator
  convert_leaf field (Operator.no_operator name) v = err FilterError.unsupported_operator

  unfoldable pub all_hold : List (A → Bool) → A → Bool
  all_hold [] a = true
  all_hold (p ∷ ps) a = p a && all_hold ps a

  unfoldable pub any_holds : List (A → Bool) → A → Bool
  any_holds [] a = false
  any_holds (p ∷ ps) a = p a || any_holds ps a

  -- `buildLogicalCondition`, after its loop over the conditions.
  unfoldable pub combine :
      Bool → Result FilterError (List (A → Bool)) → Result FilterError (A → Bool)
  combine is_and (err e) = err e
  combine is_and (ok []) = err FilterError.no_conditions
  combine is_and (ok (p ∷ ps)) =
      ok (λ a. if is_and then all_hold (p ∷ ps) a else any_holds (p ∷ ps) a)

  unfoldable mutual
    pub convert_condition : Filter x → Result FilterError (A → Bool)
    convert_condition (Filter.condition field op v) = convert_leaf field op v
    convert_condition (Filter.group field Operator.and fs) = combine true (convert_all fs)
    convert_condition (Filter.group field Operator.or fs) = combine false (convert_all fs)
    convert_condition (Filter.group field op fs) =
        convert_leaf field op (Operand.slice (pointers fs))

    pub convert_all : Filters x → Result FilterError (List (A → Bool))
    convert_all Filters.end = ok []
    convert_all (Filters.null fs) = err FilterError.nil_condition
    convert_all (Filters.also f fs) = elim (convert_condition f) [
      | err e ↦ err e
      | ok p ↦ elim (convert_all fs) [ err e ↦ err e | ok ps ↦ ok (p ∷ ps) ]
    ]

  unfoldable pub convert : Option (Filter x) → Result FilterError (A → Bool)
  convert none = ok (λ a. true)
  convert (some f) = convert_condition f

-- A time that is not set is the zero time.
abbrev pub time_or_zero : Option ℕ → ℕ
time_or_zero none = 0
time_or_zero (some t) = t

module _ {x : Ext} where
  unfoldable pub account_field_extractor : String → Option (Account x → Scalar x)
  account_field_extractor field =
      if field == "id"
      then some (λ a. Scalar.text a.id)
      else if field == "provider_type"
      then some (λ a. Scalar.text a.provider_type)
      else if field == "provider_name"
      then some (λ a. Scalar.text a.provider_name)
      else if field == "status"
      then some (λ a. Scalar.int (pos (status_code a.status)))
      else if field == "priority"
      then some (λ a. Scalar.int a.priority)
      else if field == "cooldown_until"
      then some (λ a. Scalar.instant (time_or_zero a.cooldown_until))
      else if field == "circuit_open_until"
      then some (λ a. Scalar.instant (time_or_zero a.circuit_open_until))
      else if field == "created_at"
      then some (λ a. Scalar.instant a.created_at)
      else if field == "updated_at"
      then some (λ a. Scalar.instant a.updated_at)
      else none

  unfoldable pub provider_field_extractor : String → Option (ProviderInfo x → Scalar x)
  provider_field_extractor field =
      if field == "provider_type"
      then some (λ p. Scalar.text p.provider_type)
      else if field == "provider_name"
      then some (λ p. Scalar.text p.provider_name)
      else if field == "provider_status"
      then some (λ p. Scalar.int (pos (provider_status_code p.status)))
      else if field == "priority"
      then some (λ p. Scalar.int p.priority)
      else if field == "weight"
      then some (λ p. Scalar.int p.weight)
      else if field == "account_count"
      then some (λ p. Scalar.int (pos p.account_count))
      else if field == "available_account_count"
      then some (λ p. Scalar.int (pos p.available_account_count))
      else if field == "created_at"
      then some (λ p. Scalar.instant p.created_at)
      else if field == "updated_at"
      then some (λ p. Scalar.instant p.updated_at)
      else none

  unfoldable pub supports_any : ProviderInfo x → List String → Bool
  supports_any p [] = false
  supports_any p (m ∷ ms) = supports_model p m || supports_any p ms

  unfoldable pub build_model_filter :
      Operator → Operand x → Result FilterError (ProviderInfo x → Bool)
  build_model_filter Operator.equal (Operand.scalar (Scalar.text m)) = ok (λ p. supports_model p m)
  build_model_filter Operator.equal _ = err FilterError.not_a_string
  build_model_filter Operator.is_in v = elim (to_string_slice v) [
    | none ↦ err FilterError.not_a_string
    | some ms ↦ ok (λ p. supports_any p ms)
  ]
  build_model_filter _ _ = err FilterError.unsupported_operator

  unfoldable pub account_converter : Builder x (Account x)
  account_converter = record {
    comparison = build_comparison_condition account_field_extractor;
    membership = build_in_condition account_field_extractor;
    likeness = build_like_condition account_field_extractor;
  }

  unfoldable pub provider_converter : Builder x (ProviderInfo x)
  provider_converter = record {
    comparison = λ field op v.
        if field == "supported_model"
        then build_model_filter op v
        else build_comparison_condition provider_field_extractor field op v;
    membership = λ field op v.
        if field == "supported_model"
        then build_model_filter op v
        else build_in_condition provider_field_extractor field op v;
    likeness = build_like_condition provider_field_extractor;
  }
