-- ===== src/Store/Teardown.antt =====
-- What DeleteCluster of internal/store/store.go removes, and what it leaves.
use medea.Prelude.{
  ◌<◌, Bytes, Bool, none, [], ◌∷◌, ◌≡◌, refl, ◌==◌, ◌&&◌, ◌||◌, if◌then◌else◌, ap, ◌∙◌, has_prefix,
  arith,
}
use medea.Error.{Result, ok, and_then_ok}
use medea.Bolt.{Bolt}
use medea.Store.State.{ckey, Db, Store, kind_cluster}
use medea.Store.Write.{delete_body, update, bumped, committed}
use medea.Store.Delete.{
  cluster_prefix, delete_by_cluster_prefix, delete_cluster_body, delete_cluster, forget_cluster,
  ◌then_db◌,
}
use medea.Store.Slots.{
  SlotName, clusters, nodepools, machines, hosts, cluster_rollouts, machine_rollouts, jobs,
  bootstraps, slot, cell, same_slot, cell-delete, cell-delete_by_cluster_prefix,
}
use medea.Store.Cas.{settle_then}

module _ ⦃bolt : Bolt⦄ where
  -- The step removes the cells of `p`, and no other.
  abbrev pub Clears : (Db → Result Db) → (SlotName → Bytes → Bool) → Type 0
  Clears f p =
      (d d' : Db) (m : SlotName) (k : Bytes)
      → f d ≡ ok d'
      → cell m k d' ≡ (if p m k then none else cell m k d)

  Clears-then_db :
      (f g : Db → Result Db) (p q : SlotName → Bytes → Bool)
      → Clears f p
      → Clears g q
      → Clears (f then_db g) (λ m k. p m k || q m k)
  Clears-then_db f g p q cf cg d d' m k h =
      let (d1, h1, h2) = and_then_ok (f d) g h in ground (arith, cf d d1 m k h1, cg d1 d' m k h2)

  abbrev pub bare : SlotName → Bytes → SlotName → Bytes → Bool
  bare n cluster m k = same_slot n m && cluster == k

  abbrev pub compound : SlotName → Bytes → SlotName → Bytes → Bool
  compound n cluster m k = same_slot n m && has_prefix k (cluster_prefix cluster)

  Clears-bare :
      (n : SlotName) (cluster : Bytes) → Clears (delete_body (slot n) cluster) (bare n cluster)
  Clears-bare n cluster d d' m k h = cell-delete n m cluster k d h

  Clears-compound :
      (n : SlotName) (cluster : Bytes)
      → Clears (delete_by_cluster_prefix (slot n) cluster) (compound n cluster)
  Clears-compound n cluster d d' m k h = cell-delete_by_cluster_prefix n m cluster k d h

  -- The keys that belong to a cluster.
  abbrev pub of_cluster : SlotName → Bytes → Bytes → Bool
  of_cluster clusters cluster k = cluster == k
  of_cluster cluster_rollouts cluster k = cluster == k
  of_cluster bootstraps cluster k = cluster == k
  of_cluster _ cluster k = has_prefix k (cluster_prefix cluster)

  ruleset clears = (Clears-then_db, Clears-bare, Clears-compound)

  abbrev pub removed : Bytes → SlotName → Bytes → Bool
  removed c m k =
      ((((((bare clusters c m k || bare cluster_rollouts c m k) || bare bootstraps c m k)
              || compound nodepools c m k)
            || compound machines c m k)
          || compound hosts c m k)
        || compound machine_rollouts c m k)
      || compound jobs c m k

  pub Clears-delete_cluster_body :
      (cluster : Bytes) → Clears (delete_cluster_body cluster) (removed cluster)
  unfolding delete_cluster_body
  Clears-delete_cluster_body c =
      Clears-then_db _ _ _ _
        (Clears-then_db _ _ _ _
          (Clears-then_db _ _ _ _
            (Clears-then_db _ _ _ _
              (Clears-then_db _ _ _ _
                (Clears-then_db _ _ _ _
                  (Clears-then_db _ _ _ _ (Clears-bare clusters c) (Clears-bare cluster_rollouts c))
                  (Clears-bare bootstraps c))
                (Clears-compound nodepools c))
              (Clears-compound machines c))
            (Clears-compound hosts c))
          (Clears-compound machine_rollouts c))
        (Clears-compound jobs c)

  removed-of_cluster : (c : Bytes) (m : SlotName) (k : Bytes) → removed c m k ≡ of_cluster m c k
  removed-of_cluster c clusters k = ground arith
  removed-of_cluster c _ k = ground arith

  pub cell-bumped : (n : SlotName) (k : Bytes) (d : Db) → cell n k (bumped d) ≡ cell n k d
  cell-bumped clusters k d = refl
  cell-bumped _ k d = refl

  -- A DeleteCluster that returns has removed every record of the cluster from the eight
  -- sub-buckets and its observed state and its machines' from memory, and has changed no other
  -- record and no other observed state.
  pub delete_cluster_exact :
      (cluster : Bytes) (s : Store)
      → (delete_cluster cluster s).0 ≡ ok tt
      → let s' = (delete_cluster cluster s).1 in
        ((n : SlotName) (k : Bytes)
          → cell n k s'.db ≡ (if of_cluster n cluster k then none else cell n k s.db))
        × ((k : Bytes) → s'.obs_cluster k ≡ (if k == cluster then none else s.obs_cluster k))
        × ((k : Bytes)
            → s'.obs_machine k
              ≡ (if has_prefix k (cluster_prefix cluster) then none else s.obs_machine k))
  unfolding delete_cluster update forget_cluster committed
  delete_cluster_exact [] s h = cc
  delete_cluster_exact (b ∷ bs) s h =
      let c : Bytes = b ∷ bs in
      let (d, o, e) =
        settle_then (delete_cluster_body c (bumped s.db)) (forget_cluster c) kind_cluster c s h in
      (
        λ n k.
            ap (λ t. cell n k t.db) e
            ∙ Clears-delete_cluster_body c (bumped s.db) d n k o
            ∙ rw (removed-of_cluster c n k, cell-bumped n k s.db) refl,
        λ k. ap (λ t. t.obs_cluster k) e,
        λ k. ap (λ t. t.obs_machine k) e,
      )

-- A name without the byte that joins the parts of a compound key.
abbrev pub NoNul : Bytes → Type 0
NoNul [] = Unit
NoNul (b ∷ bs) = (0 < b) × NoNul bs

has_prefix-ckey :
    (a c x : Bytes) → NoNul a → NoNul c → has_prefix (ckey a x) (cluster_prefix c) ≡ (c == a)
unfolding ckey has_prefix cluster_prefix ◌==◌
has_prefix-ckey [] [] x h k = ground arith
has_prefix-ckey [] (c ∷ cs) x h k = ground arith
has_prefix-ckey (a ∷ l) [] x h k = ground arith
has_prefix-ckey (a ∷ l) (c ∷ cs) x h k = ground (arith, has_prefix-ckey l cs x h.1 k.1)

-- The key under which a sub-bucket keeps a cluster's record; `x` names it within the cluster.
abbrev pub record_key : SlotName → Bytes → Bytes → Bytes
record_key clusters a x = a
record_key cluster_rollouts a x = a
record_key bootstraps a x = a
record_key _ a x = ckey a x

module _ ⦃bolt : Bolt⦄ where
  of_cluster-record_key :
      (n : SlotName) (c a x : Bytes)
      → NoNul c
      → NoNul a
      → of_cluster n c (record_key n a x) ≡ (c == a)
  of_cluster-record_key clusters c a x h k = refl
  of_cluster-record_key cluster_rollouts c a x h k = refl
  of_cluster-record_key bootstraps c a x h k = refl
  of_cluster-record_key _ c a x h k = has_prefix-ckey a c x k h

  -- Where cluster names have no NUL byte, a DeleteCluster that returns removes a record of its own
  -- cluster from each sub-bucket and leaves every other cluster's record, also where one name
  -- begins with the other.
  pub delete_cluster_isolated :
      (cluster a x : Bytes) (n : SlotName) (s : Store)
      → NoNul cluster
      → NoNul a
      → (delete_cluster cluster s).0 ≡ ok tt
      → cell n (record_key n a x) (delete_cluster cluster s).1.db
        ≡ (if cluster == a then none else cell n (record_key n a x) s.db)
  delete_cluster_isolated cluster a x n s h k done =
      (delete_cluster_exact cluster s done).0 n (record_key n a x)
      ∙ rw (of_cluster-record_key n cluster a x h k) refl
