-- ===== src/Tracker/Charge.antt =====
-- `RecordUsage` over the memory store: which rules are charged.
use lumin_acpool.Prelude.{
  ℕ, ◌+◌, ◌≤◌, String, Bool, true, false, not, some, List, [], ◌∷◌, ◌++◌, get, put, get-put_self,
  string_key, Result, ok, err, keep, if◌then◌else◌, set, get_elem?, length, map, arith, ◌≡◌, refl,
  ap, sym, ◌∙◌, subst, All, length-keep-le,
}
use mathlib.Core.List.{append_assoc}
use lumin_acpool.Account.{Ext, TrackedUsage}
use lumin_acpool.Interfaces.{StorageError}
use lumin_acpool.Tracker.{Options, counts, incr_matching, record_usage, check_exhausted}
use lumin_acpool.Memory.Usage.{
  Usages, is_past, get_current_usages, write_at, add_local, memory_usage_store,
}

module _ {ℓ} {A : Type ℓ} where
  get_elem?-append :
      (pre : List A) (u : A) (suf : List A) → get_elem? (pre ++ u ∷ suf) (length pre) ≡ some u
  get_elem?-append [] u suf = refl
  get_elem?-append (p ∷ pre) u suf = get_elem?-append pre u suf

  set-append :
      (pre : List A) (u v : A) (suf : List A) → set (pre ++ u ∷ suf) (length pre) v ≡ pre ++ v ∷ suf
  set-append [] u v suf = refl
  set-append (p ∷ pre) u v suf = ap (◌∷◌ p) (set-append pre u v suf)

  length-snoc : (pre : List A) (u : A) → length (pre ++ u ∷ []) ≡ length pre + 1
  length-snoc [] u = omega arith
  length-snoc (p ∷ pre) u = omega (arith, length-snoc pre u)

  if-append :
      (b : Bool) (pre : List A) (u v : A) (suf : List A)
      → (if b then pre ++ u ∷ suf else pre ++ v ∷ suf) ≡ pre ++ (if b then u else v) ∷ suf
  if-append true pre u v suf = refl
  if-append false pre u v suf = refl

module _ {x : Ext} where
  -- A usage after a call of an amount of a source.
  abbrev pub charge : x.SourceType → x.Float → TrackedUsage x → TrackedUsage x
  charge source amount u = if counts source u then add_local amount u else u

  -- The stored usages after each has been charged that stands where a listed usage has the source.
  pub charge_by :
      x.SourceType → x.Float → List (TrackedUsage x) → List (TrackedUsage x) → List (TrackedUsage x)
  charge_by source amount [] stored = stored
  charge_by source amount (u ∷ us) [] = []
  charge_by source amount (u ∷ us) (s ∷ stored) =
      (if counts source u then add_local amount s else s) ∷ charge_by source amount us stored

  write_at-append :
      (id : String) (pre : List (TrackedUsage x)) (s : TrackedUsage x) (suf : List (TrackedUsage x))
      (f : TrackedUsage x → TrackedUsage x) (m : Usages x)
      → get id m ≡ some (pre ++ s ∷ suf)
      → write_at id (length pre) f m ≡ (ok tt, put id (pre ++ f s ∷ suf) m)
  unfolding write_at
  write_at-append id pre s suf f m h =
      rw (h, write_at)
        (rw (get_elem?-append pre s suf)
          (ap (λ l. (ok tt, put id l m)) (set-append pre s (f s) suf)))

  module _ (opts : Options x (Usages x)) (clock : Usages x → ℕ) (now : ℕ) (id : String)
      (source : x.SourceType) (amount : x.Float) where
    abbrev incr : ℕ → List (TrackedUsage x) → Usages x → Result StorageError (Unit {0}) × Usages x
    incr i us m = incr_matching (memory_usage_store now) opts clock id source amount i us m

    abbrev Charged : Result StorageError (Unit {0}) × Usages x → List (TrackedUsage x) → Type 0
    Charged r l = (r.0 ≡ ok tt) × (get id r.1 ≡ some l)

    either :
        (b : Bool) (r : Result StorageError (Unit {0}) × Usages x) (m m1 : Usages x)
        (us : List (TrackedUsage x)) (i : ℕ) (l k : List (TrackedUsage x))
        → r ≡ (ok tt, m1)
        → Charged (incr i us m1) l
        → Charged (incr i us m) k
        → Charged
            (if b then elim r.0 [ err e ↦ (err e, r.1) | ok _ ↦ incr i us r.1 ] else incr i us m)
            (if b then l else k)
    either true r m m1 us i l k e p q =
        subst
          (λ (t : Result StorageError (Unit {0}) × Usages x).
            Charged (elim t.0 [ err e ↦ (err e, t.1) | ok _ ↦ incr i us t.1 ]) l)
          (sym e) p
    either false r m m1 us i l k e p q = q

    incr-Charged :
        (pre us suf : List (TrackedUsage x)) (m : Usages x)
        → length us ≤ length suf
        → get id m ≡ some (pre ++ suf)
        → Charged (incr (length pre) us m) (pre ++ charge_by source amount us suf)
    unfolding incr_matching charge_by memory_usage_store
    incr-Charged pre [] suf m l h = (refl, h)
    incr-Charged pre (u ∷ us) [] m l h = absurd (omega (arith, l))
    incr-Charged pre (u ∷ us) (s ∷ suf) m l h =
        let step = λ (v : TrackedUsage x) (m' : Usages x) (g : get id m' ≡ some (pre ++ v ∷ suf)).
          subst (λ (i : ℕ). Charged (incr i us m') (pre ++ v ∷ charge_by source amount us suf))
            (length-snoc pre v)
            (subst (Charged (incr (length (pre ++ v ∷ [])) us m'))
              (append_assoc pre (v ∷ []) (charge_by source amount us suf))
              (incr-Charged (pre ++ v ∷ []) us suf m' (omega (arith, l))
                (g ∙ ap some (sym (append_assoc pre (v ∷ []) suf))))) in
        let written = write_at-append id pre s suf (add_local amount) m h in
        let m1 = put id (pre ++ add_local amount s ∷ suf) m in
        subst (Charged (incr (length pre) (u ∷ us) m))
          (if-append (counts source u) pre (add_local amount s) s (charge_by source amount us suf))
          (either (counts source u) (write_at id (length pre) (add_local amount) m) m m1 us
            (length pre + 1) _ _ written (step (add_local amount s) m1 (get-put_self id _ m))
            (step s m h))

    record_usage_current :
        (us stored : List (TrackedUsage x)) (m : Usages x)
        → opts.on_quota_exhausted ≡ []
        → get id m ≡ some stored
        → get_current_usages id now m ≡ us
        → length us ≤ length stored
        → get id (record_usage (memory_usage_store now) opts clock id source amount m).1
          ≡ some (charge_by source amount us stored)
    unfolding record_usage check_exhausted charge_by memory_usage_store
    record_usage_current [] stored m q h e l = ground (arith, e, h)
    record_usage_current (u ∷ us) stored m q h e l =
        let (done, charged) = incr-Charged [] (u ∷ us) stored m l h in
        rw (e, record_usage) (rw (done, record_usage) (rw (q, check_exhausted) charged))

    -- Over the memory store, with no callbacks, `RecordUsage` charges the stored usages at the places
    -- where the usages whose windows are not past, counted from the first of them, have the source.
    pub record_usage-charge_by :
        (stored : List (TrackedUsage x)) (m : Usages x)
        → opts.on_quota_exhausted ≡ []
        → get id m ≡ some stored
        → get id (record_usage (memory_usage_store now) opts clock id source amount m).1
          ≡ some (charge_by source amount (keep (λ u. not (is_past now u)) stored) stored)
    unfolding get_current_usages
    record_usage-charge_by stored m q h =
        record_usage_current _ stored m q h (rw (h, get_current_usages) refl)
          (length-keep-le (λ u. not (is_past now u)) stored)

    charge_by-charge :
        (l : List (TrackedUsage x)) → charge_by source amount l l ≡ map (charge source amount) l
    unfolding charge_by
    charge_by-charge [] = refl
    charge_by-charge (u ∷ l) = ap (◌∷◌ (charge source amount u)) (charge_by-charge l)

    keep-current :
        (l : List (TrackedUsage x))
        → All (λ u. is_past now u ≡ false) l
        → keep (λ u. not (is_past now u)) l ≡ l
    keep-current [] h = refl
    keep-current (u ∷ l) h = rw (h.0) (ap (◌∷◌ u) (keep-current l h.1))

    -- Over the memory store, with no callbacks and where no stored window is past, `RecordUsage` adds
    -- the amount to the local use of each stored usage of the source, and changes no other.
    pub record_usage-charge :
        (stored : List (TrackedUsage x)) (m : Usages x)
        → opts.on_quota_exhausted ≡ []
        → get id m ≡ some stored
        → All (λ u. is_past now u ≡ false) stored
        → get id (record_usage (memory_usage_store now) opts clock id source amount m).1
          ≡ some (map (charge source amount) stored)
    record_usage-charge stored m q h c =
        record_usage-charge_by stored m q h
        ∙ ap some (
            ap (λ us. charge_by source amount us stored) (keep-current stored c)
            ∙ charge_by-charge stored)

    -- Over the memory store, with no callbacks: where the first of two stored windows is past and the
    -- second is not, a call of the second rule's source is charged to the first rule, and the second
    -- is left as it was.
    pub record_usage_misses :
        (old u : TrackedUsage x) (m : Usages x)
        → opts.on_quota_exhausted ≡ []
        → get id m ≡ some (old ∷ u ∷ [])
        → is_past now old ≡ true
        → is_past now u ≡ false
        → counts source u ≡ true
        → get id (record_usage (memory_usage_store now) opts clock id source amount m).1
          ≡ some (add_local amount old ∷ u ∷ [])
    unfolding charge_by
    record_usage_misses old u m q h p c s =
        record_usage-charge_by (old ∷ u ∷ []) m q h ∙ rw (p, c) (rw s refl)
