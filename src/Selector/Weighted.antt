-- ===== src/Selector/Weighted.antt =====
-- weighted.go, for accounts and for providers: a random choice in proportion to weights. The number
-- that rand.IntN draws, below the total weight, is an argument.
pub mod Share
use lumin_acpool.Prelude.{
  ℕ, ◌+◌, ℤ, pos, negsuc, pos_part, ltb, leb_ℤ, Bool, List, [], ◌∷◌, Result, ok, err, if◌then◌else◌,
}
use lumin_acpool.Account.{Ext, Account, ProviderInfo}
use lumin_acpool.Interfaces.{SelectorError, empty_candidates}

-- A weight that is not positive counts as 1.
abbrev pub weight : ℤ → ℕ
weight p = if leb_ℤ p (pos 0) then 1 else pos_part p

module _ {A : Type 0} (raw : A → ℤ) where
  pub total_weight : List A → ℕ
  total_weight [] = 0
  total_weight (a ∷ l) = weight (raw a) + total_weight l

  -- The second loop, with the cumulative weight before it; `last` is the fallback after the loop.
  pub draw : A → List A → ℕ → ℕ → A
  draw last [] cumulative r = last
  draw last (a ∷ l) cumulative r =
      let later = draw a l (cumulative + weight (raw a)) r in
      if ltb r (cumulative + weight (raw a)) then a else later

  pub weighted : List A → ℕ → Result SelectorError A
  weighted [] r = err SelectorError.empty_candidates
  weighted (a ∷ []) r = ok a
  weighted (a ∷ b ∷ l) r = ok (draw a (a ∷ b ∷ l) 0 r)

module _ {x : Ext} where
  pub weighted_select : List (Account x) → ℕ → Result SelectorError (Account x)
  weighted_select l r = weighted (λ a. a.priority) l r

  pub group_weighted_select : List (ProviderInfo x) → ℕ → Result SelectorError (ProviderInfo x)
  group_weighted_select l r = weighted (λ p. p.weight) l r
