-- ===== src/Server/Jobs.antt =====
-- CreateRollout of internal/server/server.go.
use medea.Prelude.{Bytes, Option, some, List, [], map, if◌then◌else◌, is_empty, not}
use medea.Error.{
  ok, no_text, status, invalid_argument, failed_precondition, unimplemented, Exec, raise, ◌>>=◌,
  ◌>>◌,
}
use medea.Proto.{
  Cluster, is_mode_auto, NodePool, RolloutKind, kind_talos, kind_kubernetes, kind_unspecified,
  job_pending, Rollout, cluster_desired,
}
use medea.Bolt.{Bolt}
use medea.Store.Read.{get_cluster, get_node_pool, list_machines, get_rollout_job}
use medea.Store.Write.{put_rollout_job}
use medea.Server.Service.{Creds, Service, call_mapped, rmw, required, present}
use medea.Server.Writes.{edit_cluster, edit_pool}

-- pb.CreateRolloutRequest
pub record CreateRolloutRequest : Type 0 where
  pub cluster : Bytes
  pub pool : Bytes
  pub kind : RolloutKind
  pub target_version : Bytes
  pub created_by : Bytes

unfoldable pub job_of : CreateRolloutRequest → Bytes → RolloutKind → Bytes → List Bytes → Rollout
job_of req pool kind now targets = record {
  cluster = req.cluster;
  pool = pool;
  kind = kind;
  target_version = req.target_version;
  state = job_pending;
  created_by = req.created_by;
  created_at = now;
  planned_targets = targets;
  message = no_text;
  revision = 0;
}

unfoldable pub at_talos_version : Bytes → NodePool → NodePool
at_talos_version v np = record np { desired = some (record { talos_version = v }) }

unfoldable pub at_kubernetes_version : Bytes → Cluster → Cluster
at_kubernetes_version v c = record c {
  desired = some (record (cluster_desired c) { kubernetes_version = v });
}

module _ ⦃bolt : Bolt⦄ ⦃creds : Creds⦄ where
  -- time.Now().UTC().Format(time.RFC3339)
  abbrev pub current_time : Exec Service Bytes
  current_time sv = (ok sv.now, sv)

  -- The job is written and read back; none is a nil result.
  unfoldable pub store_job :
      CreateRolloutRequest → Bytes → RolloutKind → List Bytes → Exec Service (Option Rollout)
  unfolding call_mapped job_of
  store_job req pool kind targets = do
    now ← current_time
    call_mapped (put_rollout_job (job_of req pool kind now targets))
    call_mapped (get_rollout_job req.cluster pool)

  unfoldable pub create_talos_rollout : CreateRolloutRequest → Exec Service (Option Rollout)
  unfolding call_mapped rmw edit_pool store_job at_talos_version
  create_talos_rollout req = required (is_empty req.pool) (do
    found ← call_mapped (get_node_pool req.cluster req.pool)
    present found.0 λ np. do
      rmw (edit_pool (at_talos_version req.target_version) req.cluster req.pool 0) 0
      store_job req req.pool kind_talos np.members)

  unfoldable pub create_kubernetes_rollout : CreateRolloutRequest → Exec Service (Option Rollout)
  unfolding call_mapped rmw edit_cluster store_job at_kubernetes_version
  create_kubernetes_rollout req = required (not (is_empty req.pool)) (do
    rmw (edit_cluster (at_kubernetes_version req.target_version) req.cluster 0) 0
    machines ← call_mapped (list_machines req.cluster [])
    store_job req [] kind_kubernetes (map (λ m. m.talos_endpoint) machines))

  -- The switch on the request's kind.
  unfoldable pub create_of_kind : CreateRolloutRequest → Exec Service (Option Rollout)
  unfolding create_talos_rollout create_kubernetes_rollout
  create_of_kind req = elim req.kind [
    | kind_talos ↦ create_talos_rollout req
    | kind_kubernetes ↦ create_kubernetes_rollout req
    | kind_unspecified ↦ raise (status invalid_argument)
  ]

  unfoldable pub create_rollout : CreateRolloutRequest → Exec Service (Option Rollout)
  unfolding call_mapped create_of_kind
  create_rollout req = required (is_empty req.cluster) (
      required (is_empty req.target_version) (do
        found ← call_mapped (get_cluster req.cluster)
        present found.0 λ c.
            if not c.rollouts_enabled
            then raise (status failed_precondition)
            else if is_mode_auto c.mode
            then raise (status unimplemented)
            else create_of_kind req))
