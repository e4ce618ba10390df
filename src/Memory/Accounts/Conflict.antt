-- ===== src/Memory/Accounts/Conflict.antt =====
-- The optimistic lock of `UpdateAccount`.
use lumin_acpool.Prelude.{
  ℕ, true, false, some, get, get-put_self, string_key, nat_beq, ok, err, arith, ◌≡◌, refl, subst,
  sym, Option-cases, Bool-cases, inl, inr,
}
use lumin_acpool.Account.{Ext, Account}
use lumin_acpool.Interfaces.{StorageError, UpdateField}
use lumin_acpool.Memory.Accounts.{Store, update_account, write_account, apply_fields}

module _ {x : Ext} {U : Type 0} where
  write_account-get :
      (fields : UpdateField) (old new : Account x) (now : ℕ) (s : Store x U)
      → get new.id (write_account fields old new now s).accounts
        ≡ some (apply_fields fields old new now)
  unfolding write_account
  write_account-get fields old new now s = get-put_self new.id _ s.accounts

  accepted :
      (a old : Account x) (fields : UpdateField) (now : ℕ) (s : Store x U)
      → get a.id s.accounts ≡ some old
      → nat_beq old.version a.version ≡ true
      → update_account a fields now s ≡ (ok tt, write_account fields old a now s)
  unfolding update_account
  accepted a old fields now s e k = rw (e, update_account) (rw k refl)

  refused :
      (b old : Account x) (fields : UpdateField) (now : ℕ) (s : Store x U)
      → get b.id s.accounts ≡ some old
      → nat_beq old.version b.version ≡ false
      → update_account b fields now s ≡ (err StorageError.version_conflict, s)
  unfolding update_account
  refused b old fields now s e k = rw (e, update_account) (rw k refl)

  -- Of two updates of one account made from the same version, only the first is written: once it
  -- has succeeded, the second is refused with a version conflict and leaves the store as it is.
  pub update_account_stale :
      (a b : Account x) (fields others : UpdateField) (now later : ℕ) (s : Store x U)
      → a.id ≡ b.id
      → a.version ≡ b.version
      → (update_account a fields now s).0 ≡ ok tt
      → update_account b others later (update_account a fields now s).1
        ≡ (err StorageError.version_conflict, (update_account a fields now s).1)
  unfolding update_account
  update_account_stale a b fields others now later s i v h =
      elim (Option-cases (get a.id s.accounts)) [
        | inl e ↦ absurd (ground (arith, e, h))
        | inr (old, e) ↦ elim (Bool-cases (nat_beq old.version a.version)) [
          | inl k ↦
              subst
                (λ r. update_account b others later r.1 ≡ (err StorageError.version_conflict, r.1))
                (sym (accepted a old fields now s e k))
                (refused b (apply_fields fields old a now) others later
                  (write_account fields old a now s)
                  (subst
                    (λ z.
                      get z (write_account fields old a now s).accounts
                      ≡ some (apply_fields fields old a now))
                    i (write_account-get fields old a now s))
                  (ground (arith, k, v)))
          | inr k ↦ absurd (ground (arith, e, h, k))
        ]
      ]
