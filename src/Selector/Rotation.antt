-- ===== src/Selector/Rotation.antt =====
-- round_robin.go, for accounts and for providers: a counter of 64 bits that every call advances.
pub mod Turns
use lumin_acpool.Prelude.{
  ℕ, suc, ◌+◌, ◌%◌, ◌^◌, none, some, List, [], ◌∷◌, Result, ok, err, length, get_elem?,
}
use lumin_acpool.Account.{Ext}
use lumin_acpool.Interfaces.{SelectorError, empty_candidates, Selector, GroupSelector}

abbrev pub word : ℕ
word = 2 ^ 64

-- `candidates[idx % len]`; an index out of range would panic.
pub rotate {ℓ} : {A : Type ℓ} → List A → ℕ → Result SelectorError A × ℕ
rotate [] counter = (err SelectorError.empty_candidates, counter)
rotate (c ∷ cs) counter = (
  elim (get_elem? (c ∷ cs) (counter % length (c ∷ cs))) [
    | some a ↦ ok a
    | none ↦ err (SelectorError.failed "index out of range")
  ],
  (counter + 1) % word,
)

-- The strategies as the interfaces that the balancer holds, with the counter as their state.
pub round_robin_select : {x : Ext} → Selector x ℕ
round_robin_select = record { select = λ l req counter. rotate l counter }

pub group_round_robin_select : {x : Ext} → GroupSelector x ℕ
group_round_robin_select = record { select = λ l req counter. rotate l counter }
