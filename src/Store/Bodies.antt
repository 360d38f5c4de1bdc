-- ===== src/Store/Bodies.antt =====
-- How the transactions of internal/store/store.go change the cells and the revision.
use medea.Prelude.{
  ℕ, ◌≤◌, ◌<◌, Bytes, Bool, Option, none, some, ◌≡◌, refl, ◌==◌, if◌then◌else◌, eq_iff, sym, ap,
  ◌∙◌, subst, inl, inr, arith, Bool-cases,
}
use medea.Error.{Result, ok, err, and_then_ok, map_result_ok}
use medea.Bolt.{Bolt}
use medea.Store.State.{Db}
use medea.Store.Write.{bump, cas_check, put_body, cas_body, delete_body}
use medea.Store.Delete.{
  delete_cluster_body, delete_by_cluster_prefix, delete_keys, keys_under, cluster_prefix, ◌then_db◌,
}
use medea.Store.Cas.{put_body_ok}
use medea.Store.Teardown.{Clears, Clears-delete_cluster_body, removed, bare}
use medea.Store.Slots.{
  SlotName, Stored, message, key_of, key_of-stamp, slot, cell, ok-injective, clusters, nodepools,
  machines, hosts, cluster_rollouts, machine_rollouts, jobs, bootstraps, Change, replace-Change,
  cell-delete,
}

-- A cell that decodes, to a record of a revision that has been given out and of the cell's key.
abbrev pub Sound : (n : SlotName) → Bytes → ℕ → Option (Result (Stored n)) → Type 0
Sound n k rev none = Unit
Sound n k rev (some (err e)) = ⊥
Sound n k rev (some (ok v)) =
    (0 < (message n).revision v) × ((message n).revision v ≤ rev) × (key_of n v ≡ k)

module _ ⦃bolt : Bolt⦄ where
  -- What every transaction of the store does: one new revision, and cells that are kept, removed or
  -- stamped with it.
  pub record Evolves (d d' : Db) : Type 0 where
    pub next : d'.revision ≡ bump d.revision
    pub changes : (n : SlotName) (k : Bytes) → Change n k (cell n k d) (cell n k d') d'.revision

  -- A body that succeeds from a bumped database keeps that revision and changes cells so.
  abbrev pub Body : (Db → Result Db) → Type 0
  Body f =
      (d d' : Db)
      → f d ≡ ok d'
      → (d'.revision ≡ d.revision)
        × ((n : SlotName) (k : Bytes) → Change n k (cell n k d) (cell n k d') d.revision)

  Sound-later :
      (n : SlotName) (k : Bytes) (r r' : ℕ) (c : Option (Result (Stored n)))
      → Sound n k r c
      → r < r'
      → Sound n k r' c
  Sound-later n k r r' none h lt = tt
  Sound-later n k r r' (some (err e)) h lt = absurd h
  Sound-later n k r r' (some (ok v)) (pos, le, own) lt = (pos, omega arith, own)

  pub Sound-Change :
      (n : SlotName) (k : Bytes) (r r' : ℕ) (c c' : Option (Result (Stored n)))
      → Sound n k r c
      → Change n k c c' r'
      → r < r'
      → Sound n k r' c'
  Sound-Change n k r r' c c' h (inl e) lt =
      subst (Sound n k r') (sym e) (Sound-later n k r r' c h lt)
  Sound-Change n k r r' c c' h (inr (inl e)) lt = subst (Sound n k r') (sym e) tt
  Sound-Change n k r r' c c' h (inr (inr (v, e, q, own))) lt =
      subst (Sound n k r') (sym e) (omega arith, omega arith, own)

  put-Change :
      (n : SlotName) (key k : Bytes) (v : Stored n) (r : ℕ) (old new : Option (Result (Stored n)))
      → key_of n v ≡ key
      → new ≡ (if key == k then some (ok ((message n).stamp r v)) else old)
      → Change n k old new r
  put-Change n key k v r old new own h = elim (Bool-cases (key == k)) [
    | inl hit ↦ inr (
        inr (
          (message n).stamp r v,
          h ∙ rw hit refl,
          (message n).revision-stamp r v,
          key_of-stamp n r v ∙ own ∙ (eq_iff key k).0 hit,
        ))
    | inr miss ↦ inl (h ∙ rw miss refl)
  ]

  pub Body-put :
      (n : SlotName) (key : Bytes) (v : Stored n)
      → key_of n v ≡ key
      → Body (put_body ⦃m = message n⦄ (slot n) key v)
  Body-put n key v own d d' h =
      let (b, p, q) = put_body_ok ⦃m = message n⦄ (slot n) key v d h in
      (
        sym (ap (λ x. x.revision) q) ∙ (slot n).revision-replace b d,
        λ m k.
            subst (λ x. Change m k (cell m k d) (cell m k x) d.revision) q
              (replace-Change n m d b d.revision
                (λ j.
                  put-Change n key j v d.revision (cell n j d) (bolt.get b j) own
                    (bolt.get-put ((slot n).bucket d) b key j ((message n).stamp d.revision v) p))
                k),
      )

  pub Body-cas :
      (n : SlotName) (key : Bytes) (expected : ℕ) (v : Stored n)
      → key_of n v ≡ key
      → Body (cas_body ⦃m = message n⦄ (slot n) key expected v)
  unfolding cas_body
  Body-cas n key expected v own d d' h =
      let (u, c, w) =
        and_then_ok (cas_check ⦃m = message n⦄ (bolt.get ((slot n).bucket d) key) expected)
          (λ _. put_body ⦃m = message n⦄ (slot n) key v d) h in
      Body-put n key v own d d' w

  -- Deletions keep the revision.
  abbrev KeepsRevision : (Db → Result Db) → Type 0
  KeepsRevision f = (d d' : Db) → f d ≡ ok d' → d'.revision ≡ d.revision

  KeepsRevision-delete : (n : SlotName) (key : Bytes) → KeepsRevision (delete_body (slot n) key)
  unfolding delete_body
  KeepsRevision-delete n key d d' h =
      let (b, p, q) =
        map_result_ok (λ b. (slot n).replace b d) (bolt.delete ((slot n).bucket d) key) h in
      sym (ap (λ x. x.revision) (ok-injective q)) ∙ (slot n).revision-replace b d

  KeepsRevision-prefix :
      (n : SlotName) (cluster : Bytes) → KeepsRevision (delete_by_cluster_prefix (slot n) cluster)
  unfolding delete_by_cluster_prefix
  KeepsRevision-prefix n cluster d d' h =
      let old = (slot n).bucket d in
      let keys = keys_under (cluster_prefix cluster) (bolt.entries old) in
      let (b, p, q) = map_result_ok (λ b. (slot n).replace b d) (delete_keys keys old) h in
      sym (ap (λ x. x.revision) (ok-injective q)) ∙ (slot n).revision-replace b d

  KeepsRevision-then_db :
      (f g : Db → Result Db) → KeepsRevision f → KeepsRevision g → KeepsRevision (f then_db g)
  KeepsRevision-then_db f g kf kg d d' h =
      let (d1, p, q) = and_then_ok (f d) g h in kg d1 d' q ∙ kf d d1 p

  Body-Clears :
      (f : Db → Result Db) (p : SlotName → Bytes → Bool) → Clears f p → KeepsRevision f → Body f
  Body-Clears f p c r d d' h = (
    r d d' h,
    λ n k. elim (Bool-cases (p n k)) [
      | inl gone ↦ inr (inl (c d d' n k h ∙ rw gone refl))
      | inr kept ↦ inl (c d d' n k h ∙ rw kept refl)
    ],
  )

  pub Body-delete : (n : SlotName) (key : Bytes) → Body (delete_body (slot n) key)
  Body-delete n key =
      Body-Clears (delete_body (slot n) key) (bare n key) (λ d d' m k h. cell-delete n m key k d h)
        (KeepsRevision-delete n key)

  pub Body-delete_cluster : (cluster : Bytes) → Body (delete_cluster_body cluster)
  unfolding delete_cluster_body
  Body-delete_cluster c =
      Body-Clears (delete_cluster_body c) (removed c) (Clears-delete_cluster_body c) (keeps c)
    where
      keeps : (c : Bytes) → KeepsRevision (delete_cluster_body c)
      keeps c =
          KeepsRevision-then_db _ _
            (KeepsRevision-then_db _ _
              (KeepsRevision-then_db _ _
                (KeepsRevision-then_db _ _
                  (KeepsRevision-then_db _ _
                    (KeepsRevision-then_db _ _
                      (KeepsRevision-then_db _ _ (KeepsRevision-delete clusters c)
                        (KeepsRevision-delete cluster_rollouts c))
                      (KeepsRevision-delete bootstraps c))
                    (KeepsRevision-prefix nodepools c))
                  (KeepsRevision-prefix machines c))
                (KeepsRevision-prefix hosts c))
              (KeepsRevision-prefix machine_rollouts c))
            (KeepsRevision-prefix jobs c)
