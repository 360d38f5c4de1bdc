-- ===== src/Store/Slots.antt =====
-- The eight sub-buckets of internal/store/store.go under one index, and what a write to one leaves
-- of the others.
use medea.Prelude.{
  Bytes, Bool, true, false, Option, none, some, ◌≡◌, refl, ◌==◌, ◌&&◌, if◌then◌else◌, sym, ap, ◌∙◌,
  ℕ, subst, List, [], ◌∷◌, contains, has_prefix, eq_iff, arith, ◌⊎◌, inl,
}
use medea.Error.{and_then_ok, Result, ok, map_result_ok}
use medea.Proto.{
  Cluster, NodePool, Machine, Host, MachineRollout, ClusterRollout, ClusterBootstrap, Rollout,
}
use medea.Bolt.{Bolt, Bucket, find}
use medea.Store.State.{
  Db, Slot, Message, ckey, desired_clusters, desired_nodepools, desired_machines, desired_hosts,
  rollout_clusters, rollout_machines, rollout_jobs, rollout_bootstrap, cluster_message,
  node_pool_message, machine_message, host_message, machine_rollout_message,
  cluster_rollout_message, cluster_bootstrap_message, rollout_message,
}
use medea.Store.Write.{delete_body}
use medea.Store.Delete.{keys_under, delete_keys, cluster_prefix, delete_by_cluster_prefix}

pub data SlotName : Type 0 where
  clusters nodepools machines hosts : SlotName
  cluster_rollouts machine_rollouts jobs bootstraps : SlotName

abbrev pub Stored : SlotName → Type 0
Stored clusters = Cluster
Stored nodepools = NodePool
Stored machines = Machine
Stored hosts = Host
Stored cluster_rollouts = ClusterRollout
Stored machine_rollouts = MachineRollout
Stored jobs = Rollout
Stored bootstraps = ClusterBootstrap

abbrev pub message : (n : SlotName) → Message (Stored n)
message clusters = cluster_message
message nodepools = node_pool_message
message machines = machine_message
message hosts = host_message
message cluster_rollouts = cluster_rollout_message
message machine_rollouts = machine_rollout_message
message jobs = rollout_message
message bootstraps = cluster_bootstrap_message

-- The key that the store's writes give to a record.
abbrev pub key_of : (n : SlotName) → Stored n → Bytes
key_of clusters c = c.name
key_of nodepools np = ckey np.cluster np.name
key_of machines m = ckey m.cluster m.talos_endpoint
key_of hosts h = ckey h.cluster h.mac
key_of cluster_rollouts r = r.cluster
key_of machine_rollouts r = ckey r.cluster r.addr
key_of jobs j = ckey j.cluster j.pool
key_of bootstraps b = b.cluster

pub key_of-stamp :
    (n : SlotName) (r : ℕ) (v : Stored n) → key_of n ((message n).stamp r v) ≡ key_of n v
key_of-stamp clusters r v = refl
key_of-stamp nodepools r v = refl
key_of-stamp machines r v = refl
key_of-stamp hosts r v = refl
key_of-stamp cluster_rollouts r v = refl
key_of-stamp machine_rollouts r v = refl
key_of-stamp jobs r v = refl
key_of-stamp bootstraps r v = refl

abbrev pub same_slot : SlotName → SlotName → Bool
same_slot clusters clusters = true
same_slot nodepools nodepools = true
same_slot machines machines = true
same_slot hosts hosts = true
same_slot cluster_rollouts cluster_rollouts = true
same_slot machine_rollouts machine_rollouts = true
same_slot jobs jobs = true
same_slot bootstraps bootstraps = true
same_slot _ _ = false

pub ok-injective {ℓ} : {A : Type ℓ} {a b : A} → ok a ≡ ok b → a ≡ b
ok-injective h = cc

-- After the deletions of a list of keys, none of them is there.
get-delete_keys :
    ⦃bolt : Bolt⦄ {V : Type 0} (ks : List Bytes) (b : Bucket V) (k : Bytes) {b' : Bucket V}
    → delete_keys ks b ≡ ok b'
    → bolt.get b' k ≡ (if contains ks k then none else bolt.get b k)
unfolding delete_keys contains
get-delete_keys ⦃bolt⦄ [] b k h = ap (λ x. bolt.get x k) (sym (ok-injective h))
get-delete_keys ⦃bolt⦄ (x ∷ ks) b k h =
    let (b1, p, q) = and_then_ok (bolt.delete b x) (delete_keys ks) h in
    ground (arith, get-delete_keys ks b1 k q, bolt.get-delete b b1 x k p)

contains-keys_under :
    {C : Type 0} (p k : Bytes) (l : List (Bytes × C))
    → has_prefix k p ≡ false
    → contains (keys_under p l) k ≡ false
unfolding keys_under contains
contains-keys_under p k [] h = refl
contains-keys_under p k ((j, c) ∷ l) h = ground (arith, contains-keys_under p k l h, eq_iff j k)

keys_under-find :
    {C : Type 0} (p k : Bytes) (l : List (Bytes × C))
    → (if contains (keys_under p l) k then none else find k l)
      ≡ (if has_prefix k p then none else find k l)
unfolding keys_under contains find
keys_under-find p k [] = ground arith
keys_under-find p k ((j, c) ∷ l) =
    ground (arith, keys_under-find p k l, contains-keys_under p k l, eq_iff j k)

get-keys_under :
    ⦃bolt : Bolt⦄ {V : Type 0} (p : Bytes) (b : Bucket V) (k : Bytes)
    → (if contains (keys_under p (bolt.entries b)) k then none else bolt.get b k)
      ≡ (if has_prefix k p then none else bolt.get b k)
get-keys_under ⦃bolt⦄ p b k = rw (← bolt.get-entries b k) (keys_under-find p k (bolt.entries b))

module _ ⦃bolt : Bolt⦄ where
  abbrev pub slot : (n : SlotName) → Slot (Stored n)
  slot clusters = desired_clusters
  slot nodepools = desired_nodepools
  slot machines = desired_machines
  slot hosts = desired_hosts
  slot cluster_rollouts = rollout_clusters
  slot machine_rollouts = rollout_machines
  slot jobs = rollout_jobs
  slot bootstraps = rollout_bootstrap

  -- What the database holds under a key of a sub-bucket.
  abbrev pub cell : (n : SlotName) → Bytes → Db → Option (Result (Stored n))
  cell n k d = bolt.get ((slot n).bucket d) k

  -- A sub-bucket replaced by one without the keys of `p`: no other sub-bucket has changed.
  cell-cleared :
      (n m : SlotName) (p : Bytes → Bool) (d : Db) (b : Bucket (Stored n))
      → ((k : Bytes) → bolt.get b k ≡ (if p k then none else cell n k d))
      → (k : Bytes)
      → cell m k ((slot n).replace b d) ≡ (if same_slot n m && p k then none else cell m k d)
  cell-cleared clusters clusters p d b h k = h k
  cell-cleared nodepools nodepools p d b h k = h k
  cell-cleared machines machines p d b h k = h k
  cell-cleared hosts hosts p d b h k = h k
  cell-cleared cluster_rollouts cluster_rollouts p d b h k = h k
  cell-cleared machine_rollouts machine_rollouts p d b h k = h k
  cell-cleared jobs jobs p d b h k = h k
  cell-cleared bootstraps bootstraps p d b h k = h k
  cell-cleared _ _ p d b h k = refl

  pub cell-delete :
      (n m : SlotName) (key k : Bytes) (d : Db) {d' : Db}
      → delete_body (slot n) key d ≡ ok d'
      → cell m k d' ≡ (if same_slot n m && key == k then none else cell m k d)
  unfolding delete_body
  cell-delete n m key k d {d'} h =
      let (b, p, q) =
        map_result_ok (λ b. (slot n).replace b d) (bolt.delete ((slot n).bucket d) key) h in
      subst (λ x. cell m k x ≡ (if same_slot n m && key == k then none else cell m k d))
        (ok-injective q)
        (cell-cleared n m (λ k. key == k) d b (λ k. bolt.get-delete ((slot n).bucket d) b key k p)
          k)

  -- `deleteByClusterPrefix`: exactly the keys with the prefix are gone.
  pub cell-delete_by_cluster_prefix :
      (n m : SlotName) (cluster k : Bytes) (d : Db) {d' : Db}
      → delete_by_cluster_prefix (slot n) cluster d ≡ ok d'
      → cell m k d'
        ≡ (if same_slot n m && has_prefix k (cluster_prefix cluster) then none else cell m k d)
  unfolding delete_by_cluster_prefix
  cell-delete_by_cluster_prefix n m cluster k d {d'} h =
      let old = (slot n).bucket d in
      let keys = keys_under (cluster_prefix cluster) (bolt.entries old) in
      let (b, p, q) = map_result_ok (λ b. (slot n).replace b d) (delete_keys keys old) h in
      let under = λ (k : Bytes). has_prefix k (cluster_prefix cluster) in
      subst (λ x. cell m k x ≡ (if same_slot n m && under k then none else cell m k d))
        (ok-injective q)
        (cell-cleared n m under d b
          (λ k. get-delete_keys keys old k p ∙ get-keys_under (cluster_prefix cluster) old k) k)

  -- How a cell may change in a write that stamps `r`.
  abbrev pub Change :
      (n : SlotName) → Bytes → Option (Result (Stored n)) → Option (Result (Stored n)) → ℕ → Type 0
  Change n k before after r =
      (after ≡ before)
      ⊎ (after ≡ none)
      ⊎ ((v : Stored n) × (after ≡ some (ok v)) × ((message n).revision v ≡ r) × (key_of n v ≡ k))

  pub replace-Change :
      (n m : SlotName) (d : Db) (b : Bucket (Stored n)) (r : ℕ)
      → ((k : Bytes) → Change n k (cell n k d) (bolt.get b k) r)
      → (k : Bytes) → Change m k (cell m k d) (cell m k ((slot n).replace b d)) r
  replace-Change clusters clusters d b r h k = h k
  replace-Change nodepools nodepools d b r h k = h k
  replace-Change machines machines d b r h k = h k
  replace-Change hosts hosts d b r h k = h k
  replace-Change cluster_rollouts cluster_rollouts d b r h k = h k
  replace-Change machine_rollouts machine_rollouts d b r h k = h k
  replace-Change jobs jobs d b r h k = h k
  replace-Change bootstraps bootstraps d b r h k = h k
  replace-Change _ _ d b r h k = inl refl
