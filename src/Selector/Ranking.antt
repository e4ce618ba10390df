-- ===== src/Selector/Ranking.antt =====
-- priority.go, least_used.go and most_available.go: the candidate that ranks highest. `sort_stable`
-- is Go's sort.SliceStable, by insertion; the loops keep the best candidate so far.
pub mod Best
use lumin_acpool.Prelude.{
  ℕ, ℤ, Bool, true, false, ◌&&◌, ◌||◌, not, List, [], ◌∷◌, Result, ok, err, String, Option, none,
  some, ltb, nat_beq, ltb_ℤ, beq_ℤ, if◌then◌else◌,
}
use lumin_acpool.Account.{Ext, Account, ProviderInfo}
use lumin_acpool.Interfaces.{SelectorError, empty_candidates}

module _ {ℓ} {A : Type ℓ} (before : A → A → Bool) where
  -- After the elements that it does not stand before strictly.
  pub insert_stable : A → List A → List A
  insert_stable a [] = a ∷ []
  insert_stable a (y ∷ ys) =
      let later = y ∷ insert_stable a ys in if before y a then later else a ∷ y ∷ ys

  pub sort_stable : List A → List A
  sort_stable [] = []
  sort_stable (a ∷ l) = insert_stable a (sort_stable l)

  -- `for _, c := range candidates[1:] { if better { best = c } }`
  unfoldable pub best_from : A → List A → A
  best_from best [] = best
  best_from best (c ∷ cs) = best_from (if before c best then c else best) cs

  abbrev pub head_of : List A → Result SelectorError A
  head_of [] = err SelectorError.empty_candidates
  head_of (a ∷ l) = ok a

  pub select_sorted : List A → Result SelectorError A
  select_sorted l = head_of (sort_stable l)

  unfoldable pub select_best : List A → Result SelectorError A
  select_best [] = err SelectorError.empty_candidates
  select_best (a ∷ l) = ok (best_from a l)

module _ {x : Ext} where
  abbrev pub by_priority : Account x → Account x → Bool
  by_priority a b = ltb_ℤ b.priority a.priority

  -- Priority.Select; the case of one candidate is returned as it is.
  pub priority_select : List (Account x) → Result SelectorError (Account x)
  priority_select [] = err SelectorError.empty_candidates
  priority_select (a ∷ []) = ok a
  priority_select (a ∷ b ∷ l) = select_sorted by_priority (a ∷ b ∷ l)

  -- LeastUsed.Select: `calls` is getTotalCalls, if there is a store of statistics.
  abbrev pub by_calls : (String → ℕ) → Account x → Account x → Bool
  by_calls calls a b =
      ltb (calls a.id) (calls b.id)
      || nat_beq (calls a.id) (calls b.id) && ltb_ℤ b.priority a.priority

  pub least_used_select : Option (String → ℕ) → List (Account x) → Result SelectorError (Account x)
  least_used_select none l = select_best by_priority l
  least_used_select (some calls) l = select_best (by_calls calls) l

  abbrev pub by_group_priority : ProviderInfo x → ProviderInfo x → Bool
  by_group_priority p q =
      if not (beq_ℤ p.priority q.priority)
      then ltb_ℤ q.priority p.priority
      else ltb q.available_account_count p.available_account_count

  pub group_priority_select : List (ProviderInfo x) → Result SelectorError (ProviderInfo x)
  group_priority_select l = select_sorted by_group_priority l

  abbrev pub by_available : ProviderInfo x → ProviderInfo x → Bool
  by_available p q =
      ltb q.available_account_count p.available_account_count
      || nat_beq p.available_account_count q.available_account_count && ltb_ℤ q.priority p.priority

  pub most_available_select : List (ProviderInfo x) → Result SelectorError (ProviderInfo x)
  most_available_select l = select_best by_available l
