-- ===== src/Selector/Affinity.antt =====
-- affinity.go, for accounts and for providers, over the bindings of storage/memory/affinity.go.
pub mod Sticky
use Prim.Native.String.{◌++◌ as concat}
use lumin_acpool.Prelude.{
  ℕ, String, Bool, Option, none, some, List, [], ◌∷◌, Map, get, put, string_key, Result, ok, err,
  leb, length, ◌==◌, if◌then◌else◌,
}
use lumin_acpool.Account.{Ext, Account, ProviderInfo, ProviderKey, provider_key}
use lumin_acpool.Interfaces.{
  SelectorError, empty_candidates, SelectRequest, Selector, GroupSelector,
}

pub record Bindings : Type 0 where
  pub bindings : Map String String
  pub max_entries : ℕ

unfoldable pub get_affinity : String → Bindings → Option String
get_affinity key b = get key b.bindings

-- At capacity the bindings are dropped before the new one is written.
unfoldable pub set_affinity : String → String → Bindings → Bindings
set_affinity key target b = record b {
  bindings = put key target (if leb b.max_entries (length b.bindings) then [] else b.bindings);
}

unfoldable pub build_affinity_key : String → String → String
build_affinity_key user model = concat user (concat ":" model)

-- ProviderKey.String
abbrev pub key_text : ProviderKey → String
key_text k = concat k.ptype (concat "/" k.name)

-- The first candidate of the name.
unfoldable pub find_bound : {A : Type 0} → (A → String) → String → List A → Option A
find_bound name target [] = none
find_bound name target (a ∷ l) =
    let later = find_bound name target l in if name a == target then some a else later

-- The strategy over candidates that `name` tells apart, with the state `F` of the fallback.
module _ {A F : Type 0} (name : A → String)
    (fallback : List A → SelectRequest → F → Result SelectorError A × F) where
  -- The fallback, and the new binding.
  unfoldable pub choose_and_bind :
      List A → SelectRequest → Bindings × F → Result SelectorError A × (Bindings × F)
  choose_and_bind l req (b, f) =
      let (chosen, f') = fallback l req f in
      elim chosen [
        | err e ↦ (err e, (b, f'))
        | ok a ↦ (ok a, (set_affinity (build_affinity_key req.user_id req.model) (name a) b, f'))
      ]

  unfoldable pub select_bound :
      List A → SelectRequest → Bindings × F → Result SelectorError A × (Bindings × F)
  select_bound [] req s = (err SelectorError.empty_candidates, s)
  select_bound (c ∷ cs) req (b, f) =
      if req.user_id == ""
      then (let (chosen, f') = fallback (c ∷ cs) req f in (chosen, (b, f')))
      else elim (get_affinity (build_affinity_key req.user_id req.model) b) [
        | none ↦ choose_and_bind (c ∷ cs) req (b, f)
        | some target ↦ elim (find_bound name target (c ∷ cs)) [
          | some a ↦ (ok a, (b, f))
          | none ↦ choose_and_bind (c ∷ cs) req (b, f)
        ]
      ]

module _ {x : Ext} {F : Type 0} where
  pub affinity_select : Selector x F → Selector x (Bindings × F)
  affinity_select s = record { select = select_bound (λ a. a.id) s.select }

  pub group_affinity_select : GroupSelector x F → GroupSelector x (Bindings × F)
  group_affinity_select s = record {
    select = select_bound (λ p. key_text (provider_key p)) s.select;
  }
