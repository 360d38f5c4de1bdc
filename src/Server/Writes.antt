-- ===== src/Server/Writes.antt =====
-- SetClusterVersions, SetNodePoolVersion, PauseRollout, ResumeRollout and the switches of a cluster
-- (internal/server/server.go).
use medea.Prelude.{
  ℕ, nat_eq, Bytes, Bool, true, false, Option, none, some, if◌then◌else◌, is_empty, ◌||◌, ◌&&◌, not,
}
use medea.Error.{status, failed_precondition, Exec, return, raise, ◌>>=◌}
use medea.Proto.{Cluster, NodePool, cluster_desired, pool_desired}
use medea.Bolt.{Bolt}
use medea.Store.Read.{get_cluster, get_node_pool}
use medea.Store.Write.{put_cluster_desired, put_node_pool_desired}
use medea.Server.Service.{Creds, Service, call, rmw, required, present}

-- pb.SetClusterVersionsRequest
pub record SetClusterVersionsRequest : Type 0 where
  pub cluster : Bytes
  pub talos_version : Option Bytes
  pub kubernetes_version : Option Bytes
  pub expected_revision : ℕ

-- pb.SetNodePoolVersionRequest
pub record SetNodePoolVersionRequest : Type 0 where
  pub cluster : Bytes
  pub pool : Bytes
  pub talos_version : Option Bytes
  pub expected_revision : ℕ

-- `if req.X != nil { y = req.GetX() }`
abbrev pub set_if : Option Bytes → Bytes → Bytes
set_if none old = old
set_if (some v) old = v

unfoldable pub with_versions : SetClusterVersionsRequest → Cluster → Cluster
with_versions req c = record c {
  desired = some (record {
    talos_version = set_if req.talos_version (cluster_desired c).talos_version;
    kubernetes_version = set_if req.kubernetes_version (cluster_desired c).kubernetes_version;
  });
}

unfoldable pub with_pool_version : SetNodePoolVersionRequest → NodePool → NodePool
with_pool_version req np = record np {
  desired =
      some (record { talos_version = set_if req.talos_version (pool_desired np).talos_version });
}

module _ ⦃bolt : Bolt⦄ ⦃creds : Creds⦄ where
  -- The record is not of the revision that the request asks for.
  abbrev pub mismatched : ℕ → ℕ → Bool
  mismatched expected rev = not (nat_eq expected 0) && not (nat_eq rev expected)

  -- The closure of a handler that changes a cluster's record.
  unfoldable pub edit_cluster : (Cluster → Cluster) → Bytes → ℕ → Exec Service ℕ
  unfolding call
  edit_cluster apply cluster expected = do
    found ← call (get_cluster cluster)
    present found.0 λ c.
        if mismatched expected found.1
        then raise (status failed_precondition)
        else call (put_cluster_desired (apply c) found.1)

  unfoldable pub edit_pool : (NodePool → NodePool) → Bytes → Bytes → ℕ → Exec Service ℕ
  unfolding call
  edit_pool apply cluster pool expected = do
    found ← call (get_node_pool cluster pool)
    present found.0 λ np.
        if mismatched expected found.1
        then raise (status failed_precondition)
        else call (put_node_pool_desired (apply np) found.1)

  unfoldable pub set_cluster_versions : SetClusterVersionsRequest → Exec Service ℕ
  unfolding rmw edit_cluster with_versions
  set_cluster_versions req = required (is_empty req.cluster) (
      rmw (edit_cluster (with_versions req) req.cluster req.expected_revision)
        req.expected_revision)

  unfoldable pub set_node_pool_version : SetNodePoolVersionRequest → Exec Service ℕ
  unfolding rmw edit_pool with_pool_version
  set_node_pool_version req = required (is_empty req.cluster || is_empty req.pool) (
      rmw (edit_pool (with_pool_version req) req.cluster req.pool req.expected_revision)
        req.expected_revision)

  unfoldable pub set_paused : Bytes → Bytes → Bool → Exec Service ℕ
  unfolding rmw edit_pool
  set_paused cluster pool paused =
      required (is_empty cluster || is_empty pool)
        (rmw (edit_pool (λ np. record np { paused = paused }) cluster pool 0) 0)

  unfoldable pub pause_rollout : Bytes → Bytes → Exec Service ℕ
  unfolding set_paused
  pause_rollout cluster pool = set_paused cluster pool true

  unfoldable pub resume_rollout : Bytes → Bytes → Exec Service ℕ
  unfolding set_paused
  resume_rollout cluster pool = set_paused cluster pool false

  -- The closure of setClusterFlag, which keeps the changed record with its new revision.
  unfoldable pub flag_body : (Cluster → Cluster) → Bytes → Exec Service Cluster
  unfolding call
  flag_body apply cluster = do
    found ← call (get_cluster cluster)
    present found.0 λ c. do
      nr ← call (put_cluster_desired (apply c) found.1)
      return (record (apply c) { revision = nr })

  unfoldable pub set_cluster_flag : Bytes → (Cluster → Cluster) → Exec Service Cluster
  unfolding rmw flag_body
  set_cluster_flag cluster apply = required (is_empty cluster) (rmw (flag_body apply cluster) 0)

  unfoldable pub set_rollouts_enabled : Bytes → Bool → Exec Service Cluster
  unfolding set_cluster_flag
  set_rollouts_enabled cluster enabled =
      set_cluster_flag cluster (λ c. record c { rollouts_enabled = enabled })

  unfoldable pub enable_rollouts : Bytes → Exec Service Cluster
  unfolding set_rollouts_enabled
  enable_rollouts cluster = set_rollouts_enabled cluster true

  unfoldable pub disable_rollouts : Bytes → Exec Service Cluster
  unfolding set_rollouts_enabled
  disable_rollouts cluster = set_rollouts_enabled cluster false

  unfoldable pub enable_provisioning : Bytes → Exec Service Cluster
  unfolding set_cluster_flag
  enable_provisioning cluster =
      set_cluster_flag cluster (λ c. record c { provisioning_enabled = true })

  unfoldable pub disable_provisioning : Bytes → Exec Service Cluster
  unfolding set_cluster_flag
  disable_provisioning cluster =
      set_cluster_flag cluster (λ c. record c { provisioning_enabled = false })
