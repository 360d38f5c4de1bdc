-- ===== src/Store/Revisions.antt =====
-- The revision counter of internal/store/store.go: what the stored records say of it.
use medea.Prelude.{
  ℕ, ◌+◌, ◌≤◌, ◌<◌, ◌^◌, Bytes, Bool, true, false, ◌≡◌, refl, if◌then◌else◌, sym, ap, ◌∙◌, subst,
  ◌⊎◌, inl, inr, arith,
}
use medea.Error.{Error, raise, branch, ◌>>◌, Result, ok, err, Exec}
use medea.Bolt.{Bolt}
use medea.Store.State.{EventKind, Db, Store}
use medea.Store.Write.{
  bump, bumped, committed, settle, update, put_body, cas_body, put_cas, put_lww,
}
use medea.Store.Teardown.{cell-bumped}
use medea.Store.Slots.{SlotName, Stored, message, key_of, slot, cell, Change}
use medea.Store.Bodies.{Sound, Evolves, Body, Sound-Change, Body-put, Body-cas}

pub bump_small : (r : ℕ) → r + 1 < 2 ^ 64 → bump r ≡ r + 1
unfolding bump
bump_small r h = omega arith

module _ ⦃bolt : Bolt⦄ where
  -- The counter is ahead of every record, every record decodes, and `lastRev` is the counter.
  pub record IsValid (s : Store) : Type 0 where
    pub last : s.last_rev ≡ s.db.revision
    pub cells : (n : SlotName) (k : Bytes) → Sound n k s.db.revision (cell n k s.db)

  -- What a call of the store does to the database: nothing, or one transaction.
  pub record Steps (s s' : Store) : Type 0 where
    pub moves : (s'.db ≡ s.db) ⊎ Evolves s.db s'.db
    pub last : s.last_rev ≡ s.db.revision → s'.last_rev ≡ s'.db.revision

  Steps-refl : (s : Store) → Steps s s
  Steps-refl s = record { moves = inl refl; last = λ h. h }

  -- A step leaves a valid store, at most one revision on.
  pub Steps-IsValid :
      (s s' : Store)
      → Steps s s'
      → s.db.revision + 1 < 2 ^ 64
      → IsValid s
      → IsValid s' × (s'.db.revision ≤ s.db.revision + 1) × (s.db.revision ≤ s'.db.revision)
  Steps-IsValid s s' st room v = elim st.moves [
    | inl e ↦ (
      record {
        last = st.last v.last;
        cells = λ n k. subst (λ d. Sound n k d.revision (cell n k d)) (sym e) (v.cells n k);
      },
      subst (λ d. d.revision ≤ s.db.revision + 1) (sym e) (omega arith),
      subst (λ d. s.db.revision ≤ d.revision) (sym e) (omega arith),
    )
    | inr e ↦
        let up : s'.db.revision ≡ s.db.revision + 1 = e.next ∙ bump_small s.db.revision room in
        (
          record {
            last = st.last v.last;
            cells = λ n k.
                Sound-Change n k s.db.revision s'.db.revision (cell n k s.db) (cell n k s'.db)
                  (v.cells n k) (e.changes n k) (omega arith);
          },
          omega arith,
          omega arith,
        )
  ]

  settle-Steps :
      (o : Result Db) (kind : EventKind) (key : Bytes) (s : Store)
      → ((d : Db) → o ≡ ok d → Evolves s.db d)
      → Steps s (settle o kind key s).1
  unfolding settle committed
  settle-Steps (err e) kind key s ev = Steps-refl s
  settle-Steps (ok d) kind key s ev = record { moves = inr (ev d refl); last = λ _. refl }

  update-Evolves :
      (f : Db → Result Db) (s : Store) (d : Db) → Body f → f (bumped s.db) ≡ ok d → Evolves s.db d
  update-Evolves f s d body o =
      let (r, ch) = body (bumped s.db) d o in
      record {
        next = r;
        changes = λ n k.
            subst (λ c. Change n k c (cell n k d) d.revision) (cell-bumped n k s.db)
              (subst (Change n k (cell n k (bumped s.db)) (cell n k d)) (sym r) (ch n k));
      }

  update-Steps :
      (f : Db → Result Db) (kind : EventKind) (key : Bytes) (s : Store)
      → Body f
      → Steps s (update f kind key s).1
  unfolding update
  update-Steps f kind key s body =
      settle-Steps (f (bumped s.db)) kind key s (λ d o. update-Evolves f s d body o)

  -- A call that checks its arguments first.
  guarded-Steps :
      {A : Type 0} (b : Bool) (e : Error) (m : Exec Store A) (s : Store)
      → Steps s (m s).1
      → Steps s ((if b then raise e else m) s).1
  guarded-Steps true e m s h = Steps-refl s
  guarded-Steps false e m s h = h

  -- After a write that may fail, a change in memory that keeps the database and `lastRev`.
  then-Steps :
      {A : Type 0} (m : Exec Store ℕ) (g : Store → Store) (a : A) (s : Store)
      → ((t : Store) → ((g t).db ≡ t.db) × ((g t).last_rev ≡ t.last_rev))
      → Steps s (m s).1
      → Steps s ((m >> λ t. (ok a, g t)) s).1
  then-Steps m g a s keep h = go (m s) h
    where
      go :
          (p : Result ℕ × Store)
          → Steps s p.1
          → Steps s (branch p.0 raise (λ _ t. (ok a, g t)) p.1).1
      go (ok r, t) h = record {
        moves = subst (λ d. (d ≡ s.db) ⊎ Evolves s.db d) (sym (keep t).0) h.moves;
        last = λ l. (keep t).1 ∙ h.last l ∙ sym (ap (λ d. d.revision) (keep t).0);
      }
      go (err e, t) h = h

  module _ (b : Bool) (e : Error) (kind : EventKind) (ekey : Bytes) (s : Store) where
    pub cas-Steps :
        (n : SlotName) (key : Bytes) (expected : ℕ) (v : Stored n)
        → key_of n v ≡ key
        → Steps s
            ((if b then raise e else put_cas ⦃m = message n⦄ (slot n) key expected v kind ekey) s).1
    unfolding put_cas
    cas-Steps n key expected v own =
        guarded-Steps b e (put_cas ⦃m = message n⦄ (slot n) key expected v kind ekey) s (
          update-Steps (cas_body ⦃m = message n⦄ (slot n) key expected v) kind ekey s
            (Body-cas n key expected v own))

    pub lww-Steps :
        (n : SlotName) (key : Bytes) (v : Stored n)
        → key_of n v ≡ key
        → Steps s ((if b then raise e else put_lww ⦃m = message n⦄ (slot n) key v kind ekey) s).1
    unfolding put_lww
    lww-Steps n key v own = guarded-Steps b e (put_lww ⦃m = message n⦄ (slot n) key v kind ekey) s (
        then-Steps (update (put_body ⦃m = message n⦄ (slot n) key v) kind ekey) (λ t. t) tt s
          (λ t. (refl, refl))
          (update-Steps (put_body ⦃m = message n⦄ (slot n) key v) kind ekey s
            (Body-put n key v own)))

    pub delete-Steps :
        (f : Db → Result Db) (g : Store → Store)
        → Body f
        → ((t : Store) → ((g t).db ≡ t.db) × ((g t).last_rev ≡ t.last_rev))
        → Steps s ((if b then raise e else (update f kind ekey >> λ t. (ok tt, g t))) s).1
    delete-Steps f g body keep =
        guarded-Steps b e (update f kind ekey >> λ t. (ok tt, g t)) s
          (then-Steps (update f kind ekey) g tt s keep (update-Steps f kind ekey s body))
