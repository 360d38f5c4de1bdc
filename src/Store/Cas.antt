-- ===== src/Store/Cas.antt =====
-- The behaviour of putCAS, putLWW and the transactions under them (internal/store/store.go).
use medea.Prelude.{
  ℕ, ◌+◌, ◌≤◌, ◌<◌, ◌^◌, Bytes, false, Option, none, some, nat_eq, if◌then◌else◌, ◌≡◌, ◌≢◌, refl,
  ◌==◌, arith, eq_refl, subst, sym, ap, ◌∙◌,
}
use medea.Error.{map_result_ok, and_then_ok, Error, conflict, Result, ok, err, ◌>>◌}
use medea.Bolt.{Bolt, Bucket}
use medea.Store.State.{EventKind, Db, Store, Slot, Message}
use medea.Store.Write.{
  settle, bumped, bump, cas_check, update, put_body, cas_body, committed, put_cas, put_lww,
}

module _ ⦃bolt : Bolt⦄ where
  -- A transaction that fails changes nothing: no revision, no record, no event.
  pub settle_err :
      (o : Result Db) (kind : EventKind) (key : Bytes) (s : Store) {e : Error}
      → (settle o kind key s).0 ≡ err e
      → (settle o kind key s).1 ≡ s
  unfolding settle
  settle_err (err x) kind key s h = refl
  settle_err (ok d) kind key s h = cc

  -- What a transaction that returns a revision has done.
  pub settle_ok :
      (o : Result Db) (kind : EventKind) (key : Bytes) (s : Store) {r : ℕ}
      → (settle o kind key s).0 ≡ ok r
      → (d : Db) × (o ≡ ok d)
        × (d.revision ≡ r)
        × ((settle o kind key s).1 ≡ committed d kind key s)
  unfolding settle
  settle_ok (err x) kind key s h = cc
  settle_ok (ok d) kind key s h = (d, refl, ground arith, refl)

  pub put_body_ok :
      {V : Type 0} ⦃m : Message V⦄ (slot : Slot V) (key : Bytes) (v : V) (d : Db) {d' : Db}
      → put_body slot key v d ≡ ok d'
      → (b : Bucket V) × (bolt.put (slot.bucket d) key (m.stamp d.revision v) ≡ ok b)
        × (slot.replace b d ≡ d')
  unfolding put_body
  put_body_ok ⦃m⦄ slot key v d h =
      let (b, p, q) =
        map_result_ok (λ b. slot.replace b d) (bolt.put (slot.bucket d) key (m.stamp d.revision v))
          h in
      (b, p, ground arith)

  -- The state after a transaction that put the record under the key and returned `r`.
  pub record Written {V : Type 0} ⦃m : Message V⦄ (slot : Slot V) (key : Bytes) (v : V) (r : ℕ)
      (s s' : Store) : Type 0 where
    pub next : r ≡ bump s.db.revision
    pub revision : s'.db.revision ≡ r
    pub last : s'.last_rev ≡ r
    pub cells :
        (j : Bytes)
        → bolt.get (slot.bucket s'.db) j
          ≡ (if key == j then some (ok (m.stamp r v)) else bolt.get (slot.bucket s.db) j)

  pub put_settles :
      {V : Type 0} ⦃m : Message V⦄ (slot : Slot V) (key : Bytes) (v : V) (kind : EventKind)
      (ekey : Bytes) (s : Store) (d : Db)
      → put_body slot key v (bumped s.db) ≡ ok d
      → Written slot key v d.revision s (committed d kind ekey s)
  unfolding committed
  put_settles ⦃m⦄ slot key v kind ekey s d h =
      let (b, p, q) = put_body_ok slot key v (bumped s.db) h in
      let rev : d.revision ≡ bump s.db.revision =
        sym (ap (λ x. x.revision) q) ∙ slot.revision-replace b (bumped s.db) in
      let now : slot.bucket d ≡ b = sym (ap slot.bucket q) ∙ slot.bucket-replace b (bumped s.db) in
      record {
        next = rev;
        revision = refl;
        last = refl;
        cells = λ j.
            ap (λ x. bolt.get x j) now
            ∙ bolt.get-put (slot.bucket (bumped s.db)) b key j (m.stamp (bump s.db.revision) v) p
            ∙ rw (rev, slot.bucket-revision s.db (bump s.db.revision)) refl;
      }

  -- A transaction, and then a change in memory that cannot fail.
  pub settle_then :
      (o : Result Db) (g : Store → Store) (kind : EventKind) (key : Bytes) (s : Store)
      {u : Unit {0}}
      → ((settle o kind key >> λ t. (ok tt, g t)) s).0 ≡ ok u
      → (d : Db) × (o ≡ ok d)
        × (((settle o kind key >> λ t. (ok tt, g t)) s).1 ≡ g (committed d kind key s))
  unfolding settle
  settle_then (err x) g kind key s h = cc
  settle_then (ok d) g kind key s h = (d, refl, refl)

  settled_put :
      {V : Type 0} ⦃m : Message V⦄ (slot : Slot V) (key : Bytes) (v : V) (kind : EventKind)
      (ekey : Bytes) (s : Store) (d : Db) {r : ℕ} {s' : Store}
      → d.revision ≡ r
      → s' ≡ committed d kind ekey s
      → put_body slot key v (bumped s.db) ≡ ok d
      → Written slot key v r s s'
  settled_put slot key v kind ekey s d {r} q e p =
      subst (λ s'. Written slot key v r s s') (sym e)
        (subst (λ r. Written slot key v r s (committed d kind ekey s)) q
          (put_settles slot key v kind ekey s d p))

-- What the caller of a compare-and-swap must know of the cell: 0 for none, its revision otherwise.
abbrev pub Admits : {V : Type 0} → ⦃m : Message V⦄ → Option (Result V) → ℕ → Type 0
Admits none expected = expected ≡ 0
Admits (some (err e)) expected = ⊥
Admits ⦃m⦄ (some (ok cur)) expected = m.revision cur ≡ expected

cas_check-Admits :
    {V : Type 0} ⦃m : Message V⦄ (c : Option (Result V)) (expected : ℕ) {u : Unit {0}}
    → cas_check c expected ≡ ok u
    → Admits c expected
unfolding cas_check
cas_check-Admits none expected h = ground arith
cas_check-Admits (some (err e)) expected h = cc
cas_check-Admits ⦃m⦄ (some (ok cur)) expected h = ground arith

Admits-cas_check :
    {V : Type 0} ⦃m : Message V⦄ (c : Option (Result V)) (expected : ℕ)
    → Admits c expected
    → cas_check c expected ≡ ok tt
unfolding cas_check
Admits-cas_check none expected h = ground arith
Admits-cas_check (some (err e)) expected h = absurd h
Admits-cas_check (some (ok cur)) expected h = ground arith

nat_ne : (a b : ℕ) → a ≢ b → nat_eq a b ≡ false
nat_ne a b h = ground arith

next_ne : (r e : ℕ) → e ≤ r → r + 1 < 2 ^ 64 → bump r ≢ e
unfolding bump
next_ne r e old room h = omega arith

module _ ⦃bolt : Bolt⦄ where
  -- A compare-and-swap put that returns a revision was made with the revision of the stored
  -- record, or 0 where there was none; it returns the next revision, which is the counter and
  -- lastRev afterwards; and of its bucket it has changed the cell of its key alone, to the record
  -- stamped with that revision.
  pub put_cas_ok :
      {V : Type 0} ⦃m : Message V⦄ (slot : Slot V) (key : Bytes) (expected : ℕ) (v : V)
      (kind : EventKind) (ekey : Bytes) (s : Store) {r : ℕ}
      → (put_cas slot key expected v kind ekey s).0 ≡ ok r
      → Admits (bolt.get (slot.bucket s.db) key) expected
        × Written slot key v r s (put_cas slot key expected v kind ekey s).1
  unfolding put_cas cas_body update
  put_cas_ok slot key expected v kind ekey s h =
      let (d, p, q, e) = settle_ok (cas_body slot key expected v (bumped s.db)) kind ekey s h in
      let (u, c, w) =
        and_then_ok (cas_check (bolt.get (slot.bucket (bumped s.db)) key) expected)
          (λ _. put_body slot key v (bumped s.db)) p in
      (
        subst (λ b. Admits (bolt.get b key) expected)
            (slot.bucket-revision s.db (bump s.db.revision))
            (cas_check-Admits (bolt.get (slot.bucket (bumped s.db)) key) expected c),
        settled_put slot key v kind ekey s d q e w,
      )

  -- So for a put with no test, which the reconcilers' records have.
  pub put_lww_ok :
      {V : Type 0} ⦃m : Message V⦄ (slot : Slot V) (key : Bytes) (v : V) (kind : EventKind)
      (ekey : Bytes) (s : Store) {u : Unit {0}}
      → (put_lww slot key v kind ekey s).0 ≡ ok u
      → Written slot key v (bump s.db.revision) s (put_lww slot key v kind ekey s).1
  unfolding put_lww update
  put_lww_ok slot key v kind ekey s h =
      let (d, o, e) = settle_then (put_body slot key v (bumped s.db)) (λ t. t) kind ekey s h in
      let w = put_settles slot key v kind ekey s d o in
      subst (λ s'. Written slot key v (bump s.db.revision) s s') (sym e)
        (subst (λ r. Written slot key v r s (committed d kind ekey s)) w.next w)

  -- An admitted put that the bucket takes goes through.
  pub put_cas_accepts :
      {V : Type 0} ⦃m : Message V⦄ (slot : Slot V) (key : Bytes) (expected : ℕ) (v : V)
      (kind : EventKind) (ekey : Bytes) (s : Store) {b : Bucket V}
      → Admits (bolt.get (slot.bucket s.db) key) expected
      → bolt.put (slot.bucket s.db) key (m.stamp (bump s.db.revision) v) ≡ ok b
      → (put_cas slot key expected v kind ekey s).0 ≡ ok (bump s.db.revision)
  unfolding put_cas cas_body put_body update
  put_cas_accepts ⦃m⦄ slot key expected v kind ekey s {b} a p =
      rw
        (
          slot.bucket-revision s.db (bump s.db.revision),
          Admits-cas_check (bolt.get (slot.bucket s.db) key) expected a,
          p,
        )
        (ap ok (slot.revision-replace b (bumped s.db)))

  -- A put that fails, for whatever reason, has changed nothing.
  pub put_cas_err :
      {V : Type 0} ⦃m : Message V⦄ (slot : Slot V) (key : Bytes) (expected : ℕ) (v : V)
      (kind : EventKind) (ekey : Bytes) (s : Store) {e : Error}
      → (put_cas slot key expected v kind ekey s).0 ≡ err e
      → (put_cas slot key expected v kind ekey s).1 ≡ s
  unfolding put_cas update
  put_cas_err slot key expected v kind ekey s h =
      settle_err (cas_body slot key expected v (bumped s.db)) kind ekey s h

  put_cas_refused :
      {V : Type 0} ⦃m : Message V⦄ (slot : Slot V) (key : Bytes) (expected : ℕ) (w : V)
      (kind : EventKind) (ekey : Bytes) (s : Store) {cur : V}
      → bolt.get (slot.bucket s.db) key ≡ some (ok cur)
      → m.revision cur ≢ expected
      → put_cas slot key expected w kind ekey s ≡ (err conflict, s)
  unfolding put_cas cas_body update cas_check
  put_cas_refused ⦃m⦄ slot key expected w kind ekey s {cur} c ne =
      rw (slot.bucket-revision s.db (bump s.db.revision), c, nat_ne (m.revision cur) expected ne)
        refl

  -- Of two writers that read the same revision, no later than the counter, the second gets
  -- ErrConflict and changes nothing, whatever it writes, as long as the counter does not reach
  -- 2^64.
  pub put_cas_stale :
      {V : Type 0} ⦃m : Message V⦄ (slot : Slot V) (key : Bytes) (expected : ℕ) (v w : V)
      (kind : EventKind) (ekey : Bytes) (s : Store) {r : ℕ}
      → expected ≤ s.db.revision
      → s.db.revision + 1 < 2 ^ 64
      → (put_cas slot key expected v kind ekey s).0 ≡ ok r
      → let s' = (put_cas slot key expected v kind ekey s).1 in
        put_cas slot key expected w kind ekey s' ≡ (err conflict, s')
  put_cas_stale ⦃m⦄ slot key expected v w kind ekey s {r} old room h =
      let (a, done) = put_cas_ok slot key expected v kind ekey s h in
      let s' = (put_cas slot key expected v kind ekey s).1 in
      put_cas_refused slot key expected w kind ekey s' (done.cells key ∙ rw (eq_refl key) refl)
        (λ e.
          next_ne s.db.revision expected old room (sym done.next ∙ sym (m.revision-stamp r v) ∙ e))
