-- ===== src/Store/Read.antt =====
-- The reads of internal/store/store.go. They change no state.
use medea.Prelude.{
  ℕ, Bytes, Bool, true, Option, none, some, List, [], ◌∷◌, if◌then◌else◌, is_empty, ◌||◌,
  has_prefix, ◌==◌,
}
use medea.Error.{map_result, Result, ok, err, Exec}
use medea.Proto.{
  Cluster, NodePool, Machine, Host, MachineRollout, ClusterRollout, ClusterBootstrap, Rollout,
}
use medea.Bolt.{Bolt}
use medea.Store.State.{
  desired_clusters, desired_nodepools, desired_machines, desired_hosts, rollout_clusters,
  rollout_machines, rollout_jobs, rollout_bootstrap, ckey, Store, Slot, Message, cluster_message,
  node_pool_message, machine_message, host_message,
}
use medea.Store.Delete.{cluster_prefix}

-- A missing key is no error.
unfoldable pub decoded : {V : Type 0} → Option (Result V) → Result (Option V)
decoded none = ok none
decoded (some (ok v)) = ok (some v)
decoded (some (err e)) = err e

-- The record with its revision, 0 if it is missing.
unfoldable pub revised : {V : Type 0} → ⦃m : Message V⦄ → Option V → Option V × ℕ
revised none = (none, 0)
revised ⦃m⦄ (some v) = (some v, m.revision v)

unfoldable pub map_option : {A B : Type 0} → (A → B) → Option A → Option B
map_option f none = none
map_option f (some a) = some (f a)

-- One entry of a ForEach: `keep` is the test on the record, `view` what is done to it.
unfoldable pub scan_cell :
    {V : Type 0} → (V → Bool) → (V → V) → Result V → Result (List V) → Result (List V)
unfolding map_result
scan_cell keep view (err e) rest = err e
scan_cell keep view (ok v) rest = if keep v then map_result (λ vs. view v ∷ vs) rest else rest

-- A ForEach that skips the keys that `under` refuses, before they are decoded.
unfoldable pub scan :
    {V : Type 0}
    → (Bytes → Bool)
    → (V → Bool)
    → (Bytes → V → V)
    → List (Bytes × Result V)
    → Result (List V)
unfolding scan_cell
scan under keep view [] = ok []
scan under keep view ((k, c) ∷ l) =
    let rest = scan under keep view l in if under k then scan_cell keep (view k) c rest else rest

abbrev pub any : {V : Type 0} → V → Bool
any v = true

-- pool == "" or the record is of the pool
abbrev pub of_pool : Bytes → Bytes → Bool
of_pool pool p = is_empty pool || p == pool

abbrev pub in_cluster : Bytes → Bytes → Bool
in_cluster cluster k = has_prefix k (cluster_prefix cluster)

module _ ⦃bolt : Bolt⦄ where
  abbrev pub with_observed_cluster : Store → Bytes → Cluster → Cluster
  with_observed_cluster s k c = record c { observed = s.obs_cluster k }

  abbrev pub with_observed_machine : Store → Bytes → Machine → Machine
  with_observed_machine s k m = record m { observed = s.obs_machine k }

  abbrev pub unchanged : {V : Type 0} → Bytes → V → V
  unchanged k v = v

  -- A View transaction that reads one key.
  unfoldable pub read : {V : Type 0} → Slot V → Bytes → Store → Result (Option V)
  unfolding decoded
  read slot key s = decoded (bolt.get (slot.bucket s.db) key)

  unfoldable pub get_cluster : Bytes → Exec Store (Option Cluster × ℕ)
  unfolding read revised map_result map_option
  get_cluster cluster s = (
    map_result (λ o. revised (map_option (with_observed_cluster s cluster) o))
        (read desired_clusters cluster s),
    s,
  )

  unfoldable pub list_clusters : Exec Store (List Cluster)
  unfolding scan
  list_clusters s =
      (scan (any {V = Bytes}) any (with_observed_cluster s) (bolt.entries s.db.desired.clusters), s)

  unfoldable pub get_node_pool : Bytes → Bytes → Exec Store (Option NodePool × ℕ)
  unfolding read revised map_result
  get_node_pool cluster name s =
      (map_result revised (read desired_nodepools (ckey cluster name) s), s)

  unfoldable pub list_node_pools : Bytes → Exec Store (List NodePool)
  unfolding scan
  list_node_pools cluster s =
      (scan (in_cluster cluster) any unchanged (bolt.entries s.db.desired.nodepools), s)

  unfoldable pub get_machine : Bytes → Bytes → Exec Store (Option Machine × ℕ)
  unfolding read revised map_result map_option
  get_machine cluster addr s = (
    map_result (λ o. revised (map_option (with_observed_machine s (ckey cluster addr)) o))
        (read desired_machines (ckey cluster addr) s),
    s,
  )

  unfoldable pub list_machines : Bytes → Bytes → Exec Store (List Machine)
  unfolding scan
  list_machines cluster pool s = (
    scan (in_cluster cluster) (λ m. of_pool pool m.pool) (with_observed_machine s)
        (bolt.entries s.db.desired.machines),
    s,
  )

  unfoldable pub get_host : Bytes → Bytes → Exec Store (Option Host × ℕ)
  unfolding read revised map_result
  get_host cluster mac s = (map_result revised (read desired_hosts (ckey cluster mac) s), s)

  unfoldable pub list_hosts : Bytes → Bytes → Exec Store (List Host)
  unfolding scan
  list_hosts cluster pool s = (
    scan (in_cluster cluster) (λ h. of_pool pool h.pool) unchanged
        (bolt.entries s.db.desired.hosts),
    s,
  )

  unfoldable pub get_machine_rollout : Bytes → Bytes → Exec Store (Option MachineRollout)
  unfolding read
  get_machine_rollout cluster addr s = (read rollout_machines (ckey cluster addr) s, s)

  unfoldable pub get_cluster_rollout : Bytes → Exec Store (Option ClusterRollout)
  unfolding read
  get_cluster_rollout cluster s = (read rollout_clusters cluster s, s)

  unfoldable pub get_cluster_bootstrap : Bytes → Exec Store (Option ClusterBootstrap)
  unfolding read
  get_cluster_bootstrap cluster s = (read rollout_bootstrap cluster s, s)

  unfoldable pub list_cluster_bootstraps : Exec Store (List ClusterBootstrap)
  unfolding scan
  list_cluster_bootstraps s =
      (scan (any {V = Bytes}) any unchanged (bolt.entries s.db.rollouts.bootstrap), s)

  unfoldable pub get_rollout_job : Bytes → Bytes → Exec Store (Option Rollout)
  unfolding read
  get_rollout_job cluster pool s = (read rollout_jobs (ckey cluster pool) s, s)

  unfoldable pub list_rollout_jobs : Bytes → Exec Store (List Rollout)
  unfolding scan
  list_rollout_jobs cluster s =
      (scan (in_cluster cluster) any unchanged (bolt.entries s.db.rollouts.jobs), s)
