-- ===== src/Filter/Convert/Valid.antt =====
-- Which condition trees convert, and a range as two comparisons.
use lumin_acpool.Prelude.{
  String, Bool, true, false, ◌&&◌, Option, none, some, List, [], ◌∷◌, Result, ok, err, arith, ◌≡◌,
  refl, ◌||◌, ◌==◌, string_key, Result-cases, inl, inr,
}
use lumin_acpool.Account.{Ext, Account}
use lumin_acpool.Filter.{Operator, Scalar, Operand, Filter, Filters, elements, pointers}
use lumin_acpool.Filter.Build.{between_bounds, and_all, greater_or_equal, less_or_equal}
use lumin_acpool.Filter.Convert.{
  FilterError, Builder, two_of, account_field_extractor, build_comparison_condition,
  build_in_condition, build_like_condition, build_between_condition, convert_leaf, combine,
  convert_condition, convert_all, convert, account_converter, all_hold,
}

abbrev pub is_ok : {A : Type 0} → Result FilterError A → Bool
is_ok (ok a) = true
is_ok (err e) = false

-- The fields of an account that a condition can name.
abbrev pub account_fields : List String
account_fields =
    "id" ∷ "provider_type" ∷ "provider_name" ∷ "status" ∷ "priority" ∷ "cooldown_until"
    ∷ "circuit_open_until" ∷ "created_at" ∷ "updated_at" ∷ []

abbrev pub is_listed : String → List String → Bool
is_listed field [] = false
is_listed field (f ∷ fs) = field == f || is_listed field fs

abbrev pub is_known : String → Bool
is_known field = is_listed field account_fields

-- What a conversion says of a value, if it is one.
abbrev pub answer : {A : Type 0} → A → Result FilterError (A → Bool) → Option Bool
answer a (err e) = none
answer a (ok p) = some (p a)

known :
    (x : Ext) (field : String)
    → elim (account_field_extractor {x = x} field) [ none ↦ false | some _ ↦ true ] ≡ is_known field
unfolding account_field_extractor
known x field = ground arith

module _ {x : Ext} where
  abbrev pub has_elements : Operand x → Bool
  has_elements v = elim (elements v) [ none ↦ false | some [] ↦ false | some (_ ∷ _) ↦ true ]

  abbrev pub has_two : Operand x → Bool
  has_two v = elim (two_of v) [ none ↦ false | some _ ↦ true ]

  abbrev pub is_text : Operand x → Bool
  is_text (Operand.scalar (Scalar.text s)) = true
  is_text _ = false

  -- The field is one of an account's, and the value has the shape that the operator asks for.
  abbrev pub is_valid_leaf : String → Operator → Operand x → Bool
  is_valid_leaf field Operator.and v = false
  is_valid_leaf field Operator.or v = false
  is_valid_leaf field Operator.is_in v = is_known field && has_elements v
  is_valid_leaf field Operator.not_in v = is_known field && has_elements v
  is_valid_leaf field Operator.between v = is_known field && has_two v
  is_valid_leaf field Operator.like v = is_known field && is_text v
  is_valid_leaf field Operator.not_like v = is_known field && is_text v
  is_valid_leaf field Operator.json_contains v = false
  is_valid_leaf field Operator.json_not_contains v = false
  is_valid_leaf field (Operator.no_operator name) v = false
  is_valid_leaf field op v = is_known field

  abbrev pub some_filter : Filters x → Bool
  some_filter Filters.end = false
  some_filter _ = true

  unfoldable mutual
    pub is_valid : Filter x → Bool
    is_valid (Filter.condition field op v) = is_valid_leaf field op v
    is_valid (Filter.group field Operator.and fs) = some_filter fs && are_valid fs
    is_valid (Filter.group field Operator.or fs) = some_filter fs && are_valid fs
    is_valid (Filter.group field op fs) = is_valid_leaf field op (Operand.slice (pointers fs))

    pub are_valid : Filters x → Bool
    are_valid Filters.end = true
    are_valid (Filters.null fs) = false
    are_valid (Filters.also f fs) = is_valid f && are_valid fs

  comparison-ok :
      (field : String) (op : Operator) (v : Operand x)
      → is_ok (build_comparison_condition account_field_extractor field op v) ≡ is_known field
  unfolding build_comparison_condition
  comparison-ok field op v = ground (arith, known x field)

  membership-ok :
      (field : String) (op : Operator) (v : Operand x)
      → is_ok (build_in_condition account_field_extractor field op v)
        ≡ (is_known field && has_elements v)
  unfolding build_in_condition
  membership-ok field op v = ground (arith, known x field)

  likeness-ok :
      (field : String) (op : Operator) (v : Operand x)
      → is_ok (build_like_condition account_field_extractor field op v)
        ≡ (is_known field && is_text v)
  unfolding build_like_condition
  likeness-ok field op v = ground (arith, known x field)

  between-ok :
      (field : String) (v : Operand x)
      → is_ok (build_between_condition account_converter field v) ≡ (is_known field && has_two v)
  unfolding build_between_condition account_converter build_comparison_condition
  between-ok field v = ground (arith, known x field)

  leaf-ok :
      (field : String) (op : Operator) (v : Operand x)
      → is_ok (convert_leaf account_converter field op v) ≡ is_valid_leaf field op v
  unfolding convert_leaf account_converter
  leaf-ok field Operator.equal v = comparison-ok field _ v
  leaf-ok field Operator.not_equal v = comparison-ok field _ v
  leaf-ok field Operator.greater_than v = comparison-ok field _ v
  leaf-ok field Operator.greater_than_or_equal v = comparison-ok field _ v
  leaf-ok field Operator.less_than v = comparison-ok field _ v
  leaf-ok field Operator.less_than_or_equal v = comparison-ok field _ v
  leaf-ok field Operator.is_in v = membership-ok field _ v
  leaf-ok field Operator.not_in v = membership-ok field _ v
  leaf-ok field Operator.like v = likeness-ok field _ v
  leaf-ok field Operator.not_like v = likeness-ok field _ v
  leaf-ok field Operator.between v = between-ok field v
  leaf-ok field Operator.and v = refl
  leaf-ok field Operator.or v = refl
  leaf-ok field Operator.json_contains v = refl
  leaf-ok field Operator.json_not_contains v = refl
  leaf-ok field (Operator.no_operator name) v = refl

  combine-ok :
      (b : Bool) (r : Result FilterError (List (Account x → Bool)))
      → is_ok (combine account_converter b r)
        ≡ elim r [ err e ↦ false | ok [] ↦ false | ok (_ ∷ _) ↦ true ]
  unfolding combine
  combine-ok b (err e) = refl
  combine-ok b (ok []) = refl
  combine-ok b (ok (p ∷ ps)) = refl

  all-some :
      (fs : Filters x) (ps : List (Account x → Bool))
      → convert_all account_converter fs ≡ ok ps
      → elim ps [ [] ↦ false | _ ∷ _ ↦ true ] ≡ some_filter fs
  unfolding convert_condition
  all-some Filters.end ps h = ground (arith, h)
  all-some (Filters.null fs) ps h = absurd (cc h)
  all-some (Filters.also f fs) ps h = ground (arith, h)

  logical-ok :
      (b : Bool) (fs : Filters x)
      → is_ok (convert_all account_converter fs) ≡ are_valid fs
      → is_ok (combine account_converter b (convert_all account_converter fs))
        ≡ (some_filter fs && are_valid fs)
  logical-ok b fs h = elim (Result-cases (convert_all account_converter fs)) [
    | inl (ps, e) ↦
        ground (arith, combine-ok b (convert_all account_converter fs), e, h, all-some fs ps e)
    | inr (er, e) ↦ ground (arith, combine-ok b (convert_all account_converter fs), e, h)
  ]

  mutual
    unfolding convert_condition is_valid

    convert_condition-is_valid :
        (f : Filter x) → is_ok (convert_condition account_converter f) ≡ is_valid f
    convert_condition-is_valid (Filter.condition field op v) = leaf-ok field op v
    convert_condition-is_valid (Filter.group field Operator.and fs) =
        logical-ok true fs (convert_all-are_valid fs)
    convert_condition-is_valid (Filter.group field Operator.or fs) =
        logical-ok false fs (convert_all-are_valid fs)
    convert_condition-is_valid (Filter.group field op fs) =
        leaf-ok field op (Operand.slice (pointers fs))

    convert_all-are_valid :
        (fs : Filters x) → is_ok (convert_all account_converter fs) ≡ are_valid fs
    convert_all-are_valid Filters.end = refl
    convert_all-are_valid (Filters.null fs) = refl
    convert_all-are_valid (Filters.also f fs) =
        ground (arith, convert_condition-is_valid f, convert_all-are_valid fs)

  -- A condition on accounts converts exactly if it is nil, or its tree is valid: no condition in it is
  -- nil, each `and` and `or` has a list of conditions that is not empty, and each other operator is a
  -- comparison, `in`, `not in`, `between`, `like` or `not like`, on a field of an account, with a value
  -- of the shape that the operator asks for.
  pub convert-is_valid :
      (f : Option (Filter x))
      → is_ok (convert account_converter f) ≡ elim f [ none ↦ true | some g ↦ is_valid g ]
  unfolding convert
  convert-is_valid none = refl
  convert-is_valid (some g) = convert_condition-is_valid g

  -- The two bounds of a range, under `and`.
  abbrev pub both_bounds : String → Scalar x → Scalar x → Filter x
  both_bounds field lo hi = and_all (
      Filters.also (greater_or_equal field (Operand.scalar lo))
        (Filters.also (less_or_equal field (Operand.scalar hi)) Filters.end))

  -- With any builder, a range converts as its two bounds under `and` do: both are refused, or both
  -- answer the same of every value.
  pub between-both_bounds :
      {A : Type 0} (b : Builder x A) (field : String) (lo hi : Scalar x) (a : A)
      → answer a (convert_condition b (between_bounds field lo hi))
        ≡ answer a (convert_condition b (both_bounds field lo hi))
  unfolding between_bounds and_all greater_or_equal less_or_equal convert_condition convert_leaf
      build_between_condition two_of elements combine all_hold
  between-both_bounds b field lo hi a =
      elim (Result-cases (b.comparison field Operator.greater_than_or_equal (Operand.scalar lo))) [
        | inr (e, h) ↦ ground (arith, h)
        | inl (p, h) ↦
            elim (Result-cases
              (b.comparison field Operator.less_than_or_equal (Operand.scalar hi))) [
                | inr (e, k) ↦ ground (arith, h, k)
                | inl (q, k) ↦ ground (arith, h, k)
              ]
      ]
