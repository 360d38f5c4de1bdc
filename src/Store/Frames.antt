-- ===== src/Store/Frames.antt =====
-- What a put of internal/store/store.go leaves of the other sub-buckets, and the key of every record.
use medea.Prelude.{
  ℕ, Bytes, Bool, true, false, Option, none, some, ◌≡◌, refl, sym, ap, ◌∙◌, subst, ◌⊎◌, inl, inr,
  if◌then◌else◌, ◌==◌,
}
use medea.Error.{and_then_ok, raise, Error, Result, ok, err, ◌>>◌, return}
use medea.Bolt.{Bolt, Bucket}
use medea.Store.State.{EventKind, Db, Store}
use medea.Store.Write.{
  bumped, settle, committed, cas_check, update, put_body, cas_body, put_cas, put_lww,
}
use medea.Store.Teardown.{cell-bumped}
use medea.Store.Slots.{
  SlotName, Stored, message, key_of, slot, cell, same_slot, clusters, nodepools, machines, hosts,
  cluster_rollouts, machine_rollouts, jobs, bootstraps, Change,
}
use medea.Store.Cas.{put_settles, put_body_ok, put_cas_ok, put_cas_err}
use medea.Store.Reach.{Op, apply, apply-Steps}

-- A record that decodes stands under its own key.
abbrev pub Own : (n : SlotName) → Bytes → Option (Result (Stored n)) → Type 0
Own n k none = Unit
Own n k (some (err e)) = Unit
Own n k (some (ok v)) = key_of n v ≡ k

module _ ⦃bolt : Bolt⦄ where
  pub record IsKeyed (s : Store) : Type 0 where
    pub own : (n : SlotName) (k : Bytes) → Own n k (cell n k s.db)

  Own-Change :
      (n : SlotName) (k : Bytes) (r : ℕ) (c c' : Option (Result (Stored n)))
      → Own n k c
      → Change n k c c' r
      → Own n k c'
  Own-Change n k r c c' h (inl e) = subst (Own n k) (sym e) h
  Own-Change n k r c c' h (inr (inl e)) = subst (Own n k) (sym e) tt
  Own-Change n k r c c' h (inr (inr (v, e, q, own))) = subst (Own n k) (sym e) own

  -- Whatever the store is asked, and however large its counter: every record keeps its own key.
  pub apply-IsKeyed : (op : Op) (s : Store) → IsKeyed s → IsKeyed (apply op s)
  apply-IsKeyed op s h = record {
    own = λ n k. elim (apply-Steps op s).moves [
      | inl e ↦ subst (λ d. Own n k (cell n k d)) (sym e) (h.own n k)
      | inr ev ↦
          Own-Change n k (apply op s).db.revision (cell n k s.db) (cell n k (apply op s).db)
            (h.own n k) (ev.changes n k)
    ];
  }

  cell-replace :
      (n m : SlotName) (k : Bytes) (b : Bucket (Stored n)) (d : Db)
      → same_slot n m ≡ false
      → cell m k ((slot n).replace b d) ≡ cell m k d
  cell-replace clusters clusters k b d h = cc
  cell-replace nodepools nodepools k b d h = cc
  cell-replace machines machines k b d h = cc
  cell-replace hosts hosts k b d h = cc
  cell-replace cluster_rollouts cluster_rollouts k b d h = cc
  cell-replace machine_rollouts machine_rollouts k b d h = cc
  cell-replace jobs jobs k b d h = cc
  cell-replace bootstraps bootstraps k b d h = cc
  cell-replace _ _ k b d h = refl

  settled-other :
      (n m : SlotName) (key k ekey : Bytes) (v : Stored n) (kind : EventKind) (s : Store)
      (o : Result Db)
      → ((d : Db) → o ≡ ok d → put_body ⦃m = message n⦄ (slot n) key v (bumped s.db) ≡ ok d)
      → same_slot n m ≡ false
      → cell m k (settle o kind ekey s).1.db ≡ cell m k s.db
  unfolding settle committed
  settled-other n m key k ekey v kind s (err e) put h = refl
  settled-other n m key k ekey v kind s (ok d) put h =
      let (b, p, q) = put_body_ok ⦃m = message n⦄ (slot n) key v (bumped s.db) (put d refl) in
      ap (cell m k) (sym q) ∙ cell-replace n m k b (bumped s.db) h ∙ cell-bumped m k s.db

  -- What a put of a record under a key does to the cells, whether it goes through or not.
  pub record Puts (n : SlotName) (key : Bytes) (v : Stored n) (s s' : Store) : Type 0 where
    pub others : (m : SlotName) (k : Bytes) → same_slot n m ≡ false → cell m k s'.db ≡ cell m k s.db
    pub cells :
        ((k : Bytes) → cell n k s'.db ≡ cell n k s.db)
        ⊎ ((r : ℕ) × ((k : Bytes)
              → cell n k s'.db
                ≡ (if key == k then some (ok ((message n).stamp r v)) else cell n k s.db)))

  Puts-refl : (n : SlotName) (key : Bytes) (v : Stored n) (s : Store) → Puts n key v s s
  Puts-refl n key v s = record { others = λ m k h. refl; cells = inl (λ k. refl) }

  cas_body_put :
      (n : SlotName) (key : Bytes) (expected : ℕ) (v : Stored n) (d0 d : Db)
      → cas_body ⦃m = message n⦄ (slot n) key expected v d0 ≡ ok d
      → put_body ⦃m = message n⦄ (slot n) key v d0 ≡ ok d
  unfolding cas_body
  cas_body_put n key expected v d0 d h =
      (and_then_ok (cas_check ⦃m = message n⦄ (bolt.get ((slot n).bucket d0) key) expected)
        (λ _. put_body ⦃m = message n⦄ (slot n) key v d0) h).2

  put_cas-Puts :
      (n : SlotName) (key ekey : Bytes) (expected : ℕ) (v : Stored n) (kind : EventKind) (s : Store)
      → (r : Result ℕ) → (put_cas ⦃m = message n⦄ (slot n) key expected v kind ekey s).0 ≡ r
      → Puts n key v s (put_cas ⦃m = message n⦄ (slot n) key expected v kind ekey s).1
  put_cas-Puts n key ekey expected v kind s (err e) h =
      subst (Puts n key v s)
        (sym (put_cas_err ⦃m = message n⦄ (slot n) key expected v kind ekey s h))
        (Puts-refl n key v s)
  put_cas-Puts n key ekey expected v kind s (ok r) h = record {
    others = λ m k q.
        unfold put_cas update in
        settled-other n m key k ekey v kind s
          (cas_body ⦃m = message n⦄ (slot n) key expected v (bumped s.db))
          (cas_body_put n key expected v (bumped s.db)) q;
    cells = inr (r, (put_cas_ok ⦃m = message n⦄ (slot n) key expected v kind ekey s h).1.cells);
  }

  module _ (b : Bool) (e : Error) (n : SlotName) (key ekey : Bytes) (v : Stored n)
      (kind : EventKind) (s : Store) where
    pub guarded_cas-Puts :
        (expected : ℕ)
        → Puts n key v s
            ((if b then raise e else put_cas ⦃m = message n⦄ (slot n) key expected v kind ekey) s).1
    guarded_cas-Puts expected = go b
      where
        go :
            (b : Bool)
            → Puts n key v s
                ((if b then raise e else put_cas ⦃m = message n⦄ (slot n) key expected v kind ekey)
                  s).1
        go true = Puts-refl n key v s
        go false = put_cas-Puts n key ekey expected v kind s _ refl

  put_lww-Puts :
      (n : SlotName) (key ekey : Bytes) (v : Stored n) (kind : EventKind) (s : Store)
      → Puts n key v s (put_lww ⦃m = message n⦄ (slot n) key v kind ekey s).1
  unfolding put_lww update settle committed
  put_lww-Puts n key ekey v kind s = go (put_body ⦃m = message n⦄ (slot n) key v (bumped s.db)) refl
    where
      go :
          (o : Result Db)
          → put_body ⦃m = message n⦄ (slot n) key v (bumped s.db) ≡ o
          → Puts n key v s ((settle o kind ekey >> return tt) s).1
      go (err e) h = Puts-refl n key v s
      go (ok d) h = record {
        others = λ m k q. settled-other n m key k ekey v kind s (ok d) (λ x e. h ∙ e) q;
        cells =
            inr (d.revision, (put_settles ⦃m = message n⦄ (slot n) key v kind ekey s d h).cells);
      }

  pub guarded_lww-Puts :
      (b : Bool) (e : Error) (n : SlotName) (key ekey : Bytes) (v : Stored n) (kind : EventKind)
      (s : Store)
      → Puts n key v s
          ((if b then raise e else put_lww ⦃m = message n⦄ (slot n) key v kind ekey) s).1
  guarded_lww-Puts true e n key ekey v kind s = Puts-refl n key v s
  guarded_lww-Puts false e n key ekey v kind s = put_lww-Puts n key ekey v kind s
