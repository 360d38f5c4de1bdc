-- ===== src/Store/Delete.antt =====
-- The deletions of internal/store/store.go.
use medea.Prelude.{Bytes, none, List, [], ◌∷◌, if◌then◌else◌, is_empty, ◌||◌, has_prefix, ◌==◌}
use medea.Error.{map_result, ◌and_then◌, errorf, Result, ok, Exec, ◌>>◌, return, raise}
use medea.Bolt.{Bolt, Bucket}
use medea.Store.State.{
  kind_cluster, kind_machine, kind_host, ckey, event_key, Db, Store, Slot, desired_clusters,
  desired_nodepools, desired_machines, desired_hosts, rollout_clusters, rollout_machines,
  rollout_jobs, rollout_bootstrap,
}
use medea.Store.Write.{update, delete_body}

-- cluster + "\x00"
unfoldable pub cluster_prefix : Bytes → Bytes
unfolding ckey
cluster_prefix cluster = ckey cluster []

-- The keys of the entries that start with the prefix.
unfoldable pub keys_under : {C : Type 0} → Bytes → List (Bytes × C) → List Bytes
keys_under prefix [] = []
keys_under prefix ((k, c) ∷ l) =
    let rest = keys_under prefix l in if has_prefix k prefix then k ∷ rest else rest

module _ ⦃bolt : Bolt⦄ where
  unfoldable pub delete_host : Bytes → Bytes → Exec Store Unit
  unfolding update delete_body
  delete_host cluster mac =
      if is_empty cluster || is_empty mac
      then raise (errorf "store: host cluster and mac required" [])
      else do
        update (delete_body desired_hosts (ckey cluster mac)) kind_host (event_key cluster mac)
        return tt

  -- `delete(s.obsMachine, k)`
  unfoldable pub forget_machine : Bytes → Store → Store
  forget_machine key s = record s { obs_machine = λ k. if k == key then none else s.obs_machine k }

  unfoldable pub delete_machine : Bytes → Bytes → Exec Store Unit
  unfolding update delete_body forget_machine
  delete_machine cluster addr =
      if is_empty cluster || is_empty addr
      then raise (errorf "store: machine cluster and addr required" [])
      else do
        update (delete_body desired_machines (ckey cluster addr)) kind_machine
            (event_key cluster addr)
        λ s. (ok tt, forget_machine (ckey cluster addr) s)

  -- The second loop of deleteByClusterPrefix.
  unfoldable pub delete_keys : {V : Type 0} → List Bytes → Bucket V → Result (Bucket V)
  unfolding ◌and_then◌
  delete_keys [] b = ok b
  delete_keys (k ∷ ks) b = bolt.delete b k and_then delete_keys ks

  unfoldable pub delete_by_cluster_prefix : {V : Type 0} → Slot V → Bytes → Db → Result Db
  unfolding keys_under cluster_prefix delete_keys map_result
  delete_by_cluster_prefix slot cluster d =
      let keys = keys_under (cluster_prefix cluster) (bolt.entries (slot.bucket d)) in
      map_result (λ b. slot.replace b d) (delete_keys keys (slot.bucket d))

  -- One step of a transaction after another.
  infixl 10 ◌then_db◌
  abbrev pub ◌then_db◌ : (Db → Result Db) → (Db → Result Db) → Db → Result Db
  ◌then_db◌ f g d = f d and_then g

  unfoldable pub delete_cluster_body : Bytes → Db → Result Db
  unfolding delete_body delete_by_cluster_prefix ◌and_then◌
  delete_cluster_body cluster =
      delete_body desired_clusters cluster
      then_db delete_body rollout_clusters cluster
      then_db delete_body rollout_bootstrap cluster
      then_db delete_by_cluster_prefix desired_nodepools cluster
      then_db delete_by_cluster_prefix desired_machines cluster
      then_db delete_by_cluster_prefix desired_hosts cluster
      then_db delete_by_cluster_prefix rollout_machines cluster
      then_db delete_by_cluster_prefix rollout_jobs cluster

  unfoldable pub forget_cluster : Bytes → Store → Store
  forget_cluster cluster s = record s {
    obs_cluster = λ k. if k == cluster then none else s.obs_cluster k;
    obs_machine = λ k. if has_prefix k (cluster_prefix cluster) then none else s.obs_machine k;
  }

  unfoldable pub delete_cluster : Bytes → Exec Store Unit
  unfolding update delete_cluster_body forget_cluster
  delete_cluster cluster =
      if is_empty cluster then raise (errorf "store: cluster required" []) else do
        update (delete_cluster_body cluster) kind_cluster cluster
        λ s. (ok tt, forget_cluster cluster s)
