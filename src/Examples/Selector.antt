-- ===== src/Examples/Selector.antt =====
-- The strategies on a few candidates.
use lumin_acpool.Prelude.{
  ℕ, ◌+◌, ◌<◌, false, none, List, [], ◌∷◌, Result, ok, pos, arith, ◌≡◌, refl, All, get, put,
}
use mathlib.Core.List.{Memᴰ}
use lumin_acpool.Account.{Account, ProviderInfo}
use lumin_acpool.Interfaces.{SelectRequest, SelectorError}
use lumin_acpool.Selector.Ranking.{
  by_priority, select_best, best_from, least_used_select, priority_select, group_priority_select,
  most_available_select,
}
use lumin_acpool.Selector.Ranking.Best.{
  by_priority-Ranks, select_best_top, NotOutranked, NotOutnumbered, group_select_top,
  least_used_select-priority_select,
}
use lumin_acpool.Selector.Weighted.{total_weight, weighted}
use lumin_acpool.Selector.Weighted.Share.{weighted_share}
use lumin_acpool.Selector.Affinity.{
  Bindings, select_bound, choose_and_bind, get_affinity, set_affinity, build_affinity_key,
  find_bound,
}
use lumin_acpool.Selector.Affinity.Sticky.{select_bound_sticky}
use lumin_acpool.Selector.Rotation.{rotate}
use lumin_acpool.Selector.Rotation.Turns.{calls, rotate_fair}
use lumin_acpool.Examples.World.{ext, account_named, accounts, first_account, provider}

abbrev preferred : Account ext
preferred = record (account_named "c") { priority = pos 7 }

abbrev three : List (Account ext)
three = account_named "a" ∷ preferred ∷ account_named "b" ∷ []

best : select_best by_priority three ≡ ok preferred
unfolding select_best best_from
best = refl

select_best_top_example : Memᴰ preferred three × All (λ c. by_priority c preferred ≡ false) three
select_best_top_example = select_best_top by_priority by_priority-Ranks three preferred best

abbrev crowded : ProviderInfo ext
crowded = record provider { provider_name = "large"; available_account_count = 9 }

group_select_top_example :
    ((p : ProviderInfo ext) × (group_priority_select (provider ∷ crowded ∷ []) ≡ ok p)
      × Memᴰ p (provider ∷ crowded ∷ [])
      × All (NotOutranked p) (provider ∷ crowded ∷ []))
    × ((q : ProviderInfo ext) × (most_available_select (provider ∷ crowded ∷ []) ≡ ok q)
        × Memᴰ q (provider ∷ crowded ∷ [])
        × All (NotOutnumbered q) (provider ∷ crowded ∷ []))
group_select_top_example = group_select_top provider (crowded ∷ [])

least_used_select-priority_select_example : least_used_select none three ≡ priority_select three
least_used_select-priority_select_example = least_used_select-priority_select three

weighted_share_example :
    weighted
      (λ (a : Account ext). a.priority)
      three
      (total_weight (λ (a : Account ext). a.priority) (account_named "a" ∷ []) + 4)
    ≡ ok preferred
weighted_share_example =
    weighted_share (λ (a : Account ext). a.priority) (account_named "a" ∷ []) preferred
      (account_named "b" ∷ []) 4 (omega arith)

rotate_fair_example : (k : ℕ) × (k < 3) × ((rotate three (calls three k 5)).0 ≡ ok preferred)
rotate_fair_example = rotate_fair three 5 1 preferred (omega arith) (omega arith) refl

abbrev request : SelectRequest
request = record {
  user_id = "u";
  model = "m";
  provider_key = none;
  tags = [];
  exclude_account_ids = [];
}

abbrev bindings : Bindings
bindings = record { bindings = []; max_entries = 2 }

abbrev first : List (Account ext) → SelectRequest → ℕ → Result SelectorError (Account ext) × ℕ
first l r n = (first_account l, n)

chooses_a :
    (select_bound (λ a. a.id) first accounts request (bindings, 0)).0 ≡ ok (account_named "a")
unfolding select_bound choose_and_bind get_affinity set_affinity build_affinity_key find_bound get
    put
chooses_a = refl

select_bound_sticky_example :
    (b : Account ext) × ((select_bound
        (λ a. a.id)
        first
        (account_named "b" ∷ account_named "a" ∷ [])
        request
        (select_bound (λ a. a.id) first accounts request (bindings, 0)).1).0
      ≡ ok b)
    × (b.id ≡ "a")
select_bound_sticky_example =
    select_bound_sticky (λ a. a.id) first accounts (account_named "b" ∷ account_named "a" ∷ [])
      request request (bindings, 0) (account_named "a") (account_named "a") refl refl refl chooses_a
      (Memᴰ.tail (Memᴰ.head refl)) refl
