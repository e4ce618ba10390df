-- ===== src/Selector/Ranking/Best.antt =====
-- What the loops and the sorts of the ranking strategies choose, for a test `before` that orders the
-- candidates up to ties.
use lumin_acpool.Prelude.{
  Bool, true, false, List, [], ◌∷◌, ok, if◌then◌else◌, arith, ◌≡◌, refl, ap, ◌∙◌, sym, subst, All,
  Bool-cases, inl, inr, none, ◌≤◌, ◌≤ℤ◌, pos_part, neg_part,
}
use mathlib.Core.List.{Memᴰ}
use lumin_acpool.Account.{Ext, Account, ProviderInfo}
use lumin_acpool.Selector.Ranking.{
  insert_stable, sort_stable, best_from, head_of, select_sorted, select_best, by_priority,
  priority_select, least_used_select, by_group_priority, group_priority_select, by_available,
  most_available_select,
}

second : {A : Type 0} {a b c : A} {l : List A} → Memᴰ a (b ∷ l) → Memᴰ a (b ∷ c ∷ l)
second (Memᴰ.head e) = Memᴰ.head e
second (Memᴰ.tail m) = Memᴰ.tail (Memᴰ.tail m)

-- A strict order whose ties are transitive.
pub record Ranks {ℓ} {A : Type ℓ} (before : A → A → Bool) : Type ℓ where
  pub asym : (a b : A) → before a b ≡ true → before b a ≡ false
  pub trans : (a b c : A) → before a b ≡ false → before b c ≡ false → before a c ≡ false

module _ {A : Type 0} (before : A → A → Bool) (k : Ranks before) where
  irrefl : (a : A) → before a a ≡ false
  irrefl a = elim (Bool-cases (before a a)) [ inl e ↦ k.asym a a e | inr e ↦ e ]

  best_from_empty : (best : A) → best_from before best [] ≡ best
  unfolding best_from
  best_from_empty best = refl

  best_from_taken :
      (best c : A) (cs : List A)
      → before c best ≡ true
      → best_from before best (c ∷ cs) ≡ best_from before c cs
  unfolding best_from
  best_from_taken best c cs e = rw e refl

  best_from_left :
      (best c : A) (cs : List A)
      → before c best ≡ false
      → best_from before best (c ∷ cs) ≡ best_from before best cs
  unfolding best_from
  best_from_left best c cs e = rw e refl

  abbrev Tops : A → List A → A → Type 0
  Tops best l r = (before best r ≡ false) × All (λ c. before c r ≡ false) l

  best_from_keeps : (best : A) (l : List A) → Tops best l (best_from before best l)
  best_from_keeps best [] = (rw (best_from_empty best) (irrefl best), tt)
  best_from_keeps best (c ∷ cs) = elim (Bool-cases (before c best)) [
    | inl e ↦
        let (top, rest) = best_from_keeps c cs in
        subst (Tops best (c ∷ cs)) (sym (best_from_taken best c cs e))
          (k.trans best c _ (k.asym c best e) top, (top, rest))
    | inr e ↦
        let (top, rest) = best_from_keeps best cs in
        subst (Tops best (c ∷ cs)) (sym (best_from_left best c cs e))
          (top, (k.trans c best _ e top, rest))
  ]

  best_from_mem : (best : A) (l : List A) → Memᴰ (best_from before best l) (best ∷ l)
  best_from_mem best [] = Memᴰ.head (best_from_empty best)
  best_from_mem best (c ∷ cs) = elim (Bool-cases (before c best)) [
    | inl e ↦ rw (best_from_taken best c cs e) (Memᴰ.tail (best_from_mem c cs))
    | inr e ↦ rw (best_from_left best c cs e) (second (best_from_mem best cs))
  ]

  -- The loop over the candidates, for a strict order with transitive ties, chooses one of them
  -- before which no candidate stands.
  pub select_best_top :
      (l : List A) (a : A)
      → select_best before l ≡ ok a
      → Memᴰ a l × All (λ c. before c a ≡ false) l
  unfolding select_best
  select_best_top [] a h = absurd (ground arith)
  select_best_top (b ∷ l) a h =
      subst (λ z. Memᴰ z (b ∷ l) × All (λ c. before c z ≡ false) (b ∷ l)) (ground (arith, h))
        (best_from_mem b l, best_from_keeps b l)

  best_from-cons :
      (a c : A) (cs : List A)
      → best_from before a (c ∷ cs)
        ≡ (if before (best_from before c cs) a then best_from before c cs else a)
  best_from-cons a c [] =
      ground
        (arith, best_from_taken a c [], best_from_left a c [], best_from_empty a, best_from_empty c)
  best_from-cons a c (d ∷ ds) = ground (
    arith,
    best_from_taken a c (d ∷ ds),
    best_from_left a c (d ∷ ds),
    best_from-cons a d ds,
    best_from-cons c d ds,
    (best_from_keeps c (d ∷ ds)).0,
    k.trans c (best_from before c (d ∷ ds)) a,
    k.trans (best_from before d ds) c a,
  )

  insert_head :
      (a m : A) (rest : List A)
      → (r : List A) × (insert_stable before a (m ∷ rest) ≡ (if before m a then m else a) ∷ r)
  unfolding insert_stable
  insert_head a m rest = elim (Bool-cases (before m a)) [
    | inl e ↦ (insert_stable before a rest, rw e refl)
    | inr e ↦ (m ∷ rest, rw e refl)
  ]

  sort_head :
      (a : A) (l : List A) → (r : List A) × (sort_stable before (a ∷ l) ≡ best_from before a l ∷ r)
  unfolding sort_stable insert_stable
  sort_head a [] = ([], ap (λ z. z ∷ []) (sym (best_from_empty a)))
  sort_head a (c ∷ cs) =
      let (r, e) = sort_head c cs in
      let (q, i) = insert_head a (best_from before c cs) r in
      (q, ap (insert_stable before a) e ∙ i ∙ ap (λ z. z ∷ q) (sym (best_from-cons a c cs)))

  -- For a strict order with transitive ties, the stable sort, then its first element, and the one
  -- loop over the candidates choose the same candidate, ties included.
  pub select_sorted-select_best : (l : List A) → select_sorted before l ≡ select_best before l
  unfolding select_sorted select_best sort_stable
  select_sorted-select_best [] = refl
  select_sorted-select_best (a ∷ l) = ap (head_of before) (sort_head a l).1

pub by_priority-Ranks : {x : Ext} → Ranks (by_priority {x = x})
by_priority-Ranks = record { asym = λ a b h. ground arith; trans = λ a b c h k. ground arith }

-- Without statistics, least_used chooses as priority does: the loop of the one and the sort of the
-- other agree on every list of candidates.
pub least_used_select-priority_select :
    {x : Ext} (l : List (Account x)) → least_used_select none l ≡ priority_select l
unfolding least_used_select priority_select select_best best_from
least_used_select-priority_select [] = refl
least_used_select-priority_select (a ∷ []) = refl
least_used_select-priority_select (a ∷ b ∷ l) =
    sym (select_sorted-select_best by_priority by_priority-Ranks (a ∷ b ∷ l))

-- A predicate that follows from one that holds of every element.
map-All : {A : Type 0} {P Q : A → Type 0} (l : List A) → ((c : A) → P c → Q c) → All P l → All Q l
map-All [] f h = tt
map-All (c ∷ l) f h = (f c h.0, map-All l f h.1)

by_group_priority-Ranks : {x : Ext} → Ranks (by_group_priority {x = x})
by_group_priority-Ranks = record {
  asym = λ a b h. ground (arith, h);
  trans = λ a b c h k. ground (arith, h, k);
}

by_available-Ranks : {x : Ext} → Ranks (by_available {x = x})
by_available-Ranks = record {
  asym = λ a b h. ground (arith, h);
  trans = λ a b c h k. ground (arith, h, k);
}

module _ {x : Ext} where
  -- No candidate has a higher priority, and none of the same priority has more accounts available.
  abbrev pub NotOutranked : ProviderInfo x → ProviderInfo x → Type 0
  NotOutranked p q =
      (q.priority ≤ℤ p.priority)
      × (q.priority ≡ p.priority → q.available_account_count ≤ p.available_account_count)

  -- No candidate has more accounts available, and none with as many has a higher priority.
  abbrev pub NotOutnumbered : ProviderInfo x → ProviderInfo x → Type 0
  NotOutnumbered p q =
      (q.available_account_count ≤ p.available_account_count)
      × (q.available_account_count ≡ p.available_account_count → q.priority ≤ℤ p.priority)

  not_before_priority : (p q : ProviderInfo x) → by_group_priority q p ≡ false → NotOutranked p q
  not_before_priority p q h =
      (ground (arith, h), λ e. ground (arith, h, ap pos_part e, ap neg_part e))

  not_before_available : (p q : ProviderInfo x) → by_available q p ≡ false → NotOutnumbered p q
  not_before_available p q h = ground (arith, h)

  group_priority-best :
      (l : List (ProviderInfo x)) → group_priority_select l ≡ select_best by_group_priority l
  unfolding group_priority_select
  group_priority-best l = select_sorted-select_best by_group_priority by_group_priority-Ranks l

  -- The two strategies for providers that rank by two keys each choose one of the candidates, if
  -- there are any: the one by priority such that no candidate has a higher priority or, with the
  -- same, more accounts available, and the one by availability such that no candidate has more
  -- accounts available or, with as many, a higher priority.
  pub group_select_top :
      (c : ProviderInfo x) (l : List (ProviderInfo x))
      → ((p : ProviderInfo x) × (group_priority_select (c ∷ l) ≡ ok p)
          × Memᴰ p (c ∷ l)
          × All (NotOutranked p) (c ∷ l))
        × ((q : ProviderInfo x) × (most_available_select (c ∷ l) ≡ ok q)
            × Memᴰ q (c ∷ l)
            × All (NotOutnumbered q) (c ∷ l))
  unfolding most_available_select select_best
  group_select_top c l =
      let p = best_from by_group_priority c l in
      let q = best_from by_available c l in
      let (m, t) = select_best_top by_group_priority by_group_priority-Ranks (c ∷ l) p refl in
      let (n, u) = select_best_top by_available by_available-Ranks (c ∷ l) q refl in
      (
        (p, group_priority-best (c ∷ l), m, map-All (c ∷ l) (not_before_priority p) t),
        (q, refl, n, map-All (c ∷ l) (not_before_available q) u),
      )
