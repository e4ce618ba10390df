-- ===== src/Filter/Build.antt =====
-- storage/filtercond/builder.go: the functions that assemble conditions. One that takes values of `any`
-- takes them without slices here, and the two for JSON arrays take any value.
use lumin_acpool.Prelude.{String, List, [], ◌∷◌}
use lumin_acpool.Account.{Ext}
use lumin_acpool.Filter.{Operator, Scalar, Operand, Filter, Filters}

module _ {x : Ext} where
  unfoldable equal_to : String → Operand x → Filter x
  equal_to field value = Filter.condition field Operator.equal value

  unfoldable not_equal_to : String → Operand x → Filter x
  not_equal_to field value = Filter.condition field Operator.not_equal value

  unfoldable greater : String → Operand x → Filter x
  greater field value = Filter.condition field Operator.greater_than value

  unfoldable pub greater_or_equal : String → Operand x → Filter x
  greater_or_equal field value = Filter.condition field Operator.greater_than_or_equal value

  unfoldable less : String → Operand x → Filter x
  less field value = Filter.condition field Operator.less_than value

  unfoldable pub less_or_equal : String → Operand x → Filter x
  less_or_equal field value = Filter.condition field Operator.less_than_or_equal value

  unfoldable in_values : String → List (Scalar x) → Filter x
  in_values field values = Filter.condition field Operator.is_in (Operand.anys values)

  unfoldable not_in_values : String → List (Scalar x) → Filter x
  not_in_values field values = Filter.condition field Operator.not_in (Operand.anys values)

  unfoldable like_pattern : String → String → Filter x
  like_pattern field pattern =
      Filter.condition field Operator.like (Operand.scalar (Scalar.text pattern))

  unfoldable not_like_pattern : String → String → Filter x
  not_like_pattern field pattern =
      Filter.condition field Operator.not_like (Operand.scalar (Scalar.text pattern))

  unfoldable pub between_bounds : String → Scalar x → Scalar x → Filter x
  between_bounds field lo hi = Filter.condition field Operator.between (Operand.anys (lo ∷ hi ∷ []))

  unfoldable contains_json : String → Operand x → Filter x
  contains_json field value = Filter.condition field Operator.json_contains value

  unfoldable not_contains_json : String → Operand x → Filter x
  not_contains_json field value = Filter.condition field Operator.json_not_contains value

  unfoldable pub and_all : Filters x → Filter x
  and_all conditions = Filter.group "" Operator.and conditions

  unfoldable or_any : Filters x → Filter x
  or_any conditions = Filter.group "" Operator.or conditions
