-- ===== src/Memory/Providers/Index.antt =====
-- The index of the providers by model.
use lumin_acpool.Prelude.{
  String, Bool, false, ◌&&◌, ◌||◌, not, none, some, List, [], ◌∷◌, Map, get, get-put, get-del,
  string_key, keep, ◌==◌, if◌then◌else◌, arith, ◌≡◌, refl, ap, Option-cases, List-cases, inl, inr,
}
use lumin_acpool.Account.{ProviderKey, key_beq, key_beq_iff, key_eq, contains}
use lumin_acpool.Memory.Providers.{has_key, index_key, unindex_key, index_keys, unindex_keys}

abbrev pub is_indexed : ProviderKey → String → Map String (List ProviderKey) → Bool
is_indexed key name index = elim (get name index) [ none ↦ false | some ks ↦ has_key key ks ]

has_key-keep :
    (key j : ProviderKey) (ks : List ProviderKey)
    → has_key j (keep (λ k. not (key_beq k key)) ks) ≡ (has_key j ks && not (key_beq key j))
has_key-keep key j [] = ground arith
has_key-keep key j (k ∷ ks) =
    ground (arith, has_key-keep key j ks, key_beq_iff k key, key_beq_iff k j, key_beq_iff key j)

index_key_lem :
    (key j : ProviderKey) (name n : String) (index : Map String (List ProviderKey))
    → is_indexed j n (index_key key name index)
      ≡ ((name == n && key_beq key j) || is_indexed j n index)
unfolding index_key
index_key_lem key j name n index = elim (Option-cases (get name index)) [
  | inl e ↦ ground (arith, e, get-put name n (key ∷ []) index, string_key.beq_iff name n)
  | inr (ks, e) ↦ ground (
    arith,
    e,
    get-put name n (if has_key key ks then ks else key ∷ ks) index,
    string_key.beq_iff name n,
    key_beq_iff key j,
    has_key-same key j ks,
  )
]
  where
    has_key-same :
        (key j : ProviderKey) (ks : List ProviderKey) → key ≡ j → has_key key ks ≡ has_key j ks
    has_key-same key j ks e = ap (λ y. has_key y ks) e

unindex_key_lem :
    (key j : ProviderKey) (name n : String) (index : Map String (List ProviderKey))
    → is_indexed j n (unindex_key key name index)
      ≡ (is_indexed j n index && not (name == n && key_beq key j))
unfolding unindex_key
unindex_key_lem key j name n index = elim (Option-cases (get name index)) [
  | inl e ↦ ground (arith, e, string_key.beq_iff name n)
  | inr (ks, e) ↦ elim (List-cases (keep (λ k. not (key_beq k key)) ks)) [
    | inl g ↦ ground (
      arith,
      e,
      g,
      get-del name n index,
      string_key.beq_iff name n,
      ap (has_key j) g,
      has_key-keep key j ks,
    )
    | inr (k, rest, g) ↦ ground (
      arith,
      e,
      g,
      get-put name n (k ∷ rest) index,
      string_key.beq_iff name n,
      ap (has_key j) g,
      has_key-keep key j ks,
    )
  ]
]

pub index_keys_lem :
    (key j : ProviderKey) (names : List String) (n : String) (index : Map String (List ProviderKey))
    → is_indexed j n (index_keys key names index)
      ≡ ((contains names n && key_beq key j) || is_indexed j n index)
unfolding index_keys
index_keys_lem key j [] n index = refl
index_keys_lem key j (name ∷ names) n index = ground (
  arith,
  index_keys_lem key j names n (index_key key name index),
  index_key_lem key j name n index,
)

pub unindex_keys_lem :
    (key j : ProviderKey) (names : List String) (n : String) (index : Map String (List ProviderKey))
    → is_indexed j n (unindex_keys key names index)
      ≡ (is_indexed j n index && not (contains names n && key_beq key j))
unfolding unindex_keys
unindex_keys_lem key j [] n index = ground arith
unindex_keys_lem key j (name ∷ names) n index = ground (
  arith,
  unindex_keys_lem key j names n (unindex_key key name index),
  unindex_key_lem key j name n index,
)
