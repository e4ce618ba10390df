-- ===== src/Examples/Filters.antt =====
-- Condition trees on the accounts of the small system.
use lumin_acpool.Prelude.{pos, some, [], ◌∷◌, ◌≡◌}
use lumin_acpool.Filter.{Operator, Scalar, Operand, Filter, Filters}
use lumin_acpool.Filter.Build.{between_bounds}
use lumin_acpool.Filter.Convert.{convert, convert_condition, account_converter}
use lumin_acpool.Filter.Convert.Valid.{
  is_ok, is_valid, answer, both_bounds, convert-is_valid, between-both_bounds,
}
use lumin_acpool.Examples.World.{ext, account_named}

-- An account of one of two providers, with a priority in a range.
abbrev tree : Filter ext
tree = Filter.group "" Operator.and (
    Filters.also
      (Filter.condition "provider_name" Operator.is_in (Operand.strings ("team" ∷ "home" ∷ [])))
      (Filters.also (between_bounds "priority" (Scalar.int (pos 0)) (Scalar.int (pos 5)))
        Filters.end))

convert-is_valid_example : is_ok (convert account_converter (some tree)) ≡ is_valid tree
convert-is_valid_example = convert-is_valid (some tree)

between-both_bounds_example :
    answer (account_named "a") (
      convert_condition account_converter
        (between_bounds "priority" (Scalar.int (pos 0)) (Scalar.int (pos 5))))
    ≡ answer (account_named "a") (
        convert_condition account_converter
          (both_bounds "priority" (Scalar.int (pos 0)) (Scalar.int (pos 5))))
between-both_bounds_example =
    between-both_bounds account_converter "priority" (Scalar.int (pos 0)) (Scalar.int (pos 5))
      (account_named "a")
