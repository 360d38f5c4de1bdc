-- ===== src/Server/Reads.antt =====
-- The reading handlers of internal/server/server.go.
use medea.Prelude.{Bytes, Bool, true, false, Option, none, some, List, [], ◌∷◌, is_empty, ◌||◌, not}
use medea.Error.{status, not_found, unimplemented, Result, ok, err, Exec, return, ◌>>=◌}
use medea.Proto.{Cluster, NodePool, Machine, Host, MachineRollout, ClusterRollout, Rollout}
use medea.Bolt.{Bolt}
use medea.Store.Read.{
  get_cluster, list_clusters, list_node_pools, list_machines, list_hosts, get_cluster_rollout,
  get_machine_rollout, list_rollout_jobs,
}
use medea.Server.Service.{Creds, Service, call_mapped, required, present}

-- pb.GetCredentialsRequest
pub record GetCredentialsRequest : Type 0 where
  pub cluster : Bytes
  pub talosconfig : Bool
  pub kubeconfig : Bool
  pub secrets : Bool

-- pb.GetCredentialsResponse
pub record GetCredentialsResponse : Type 0 where
  pub talosconfig : Bytes
  pub kubeconfig : Bytes
  pub secrets : Bytes

module _ ⦃bolt : Bolt⦄ ⦃creds : Creds⦄ where
  unfoldable pub get_cluster_rpc : Bytes → Exec Service Cluster
  unfolding call_mapped
  get_cluster_rpc cluster =
      required (is_empty cluster)
        (do found ← call_mapped (get_cluster cluster); present found.0 return)

  -- One credential, if it is wanted.
  unfoldable pub credential :
      Bool → (creds.Env → Result Bytes × creds.Env) → creds.Env → Exec Service Bytes
  credential false op e sv = (ok [], sv)
  credential true op e sv =
      let (r, e') = op e in
      elim r [
        | ok b ↦ (ok b, record sv { held_creds = some e' })
        | err x ↦ (err (status not_found), record sv { held_creds = some e' })
      ]

  -- A credential store that is there.
  abbrev pub held : {A : Type 0} → (creds.Env → Exec Service A) → Exec Service A
  held f sv = elim sv.held_creds [ none ↦ (err (status unimplemented), sv) | some e ↦ f e sv ]

  unfoldable pub get_credentials : GetCredentialsRequest → Exec Service GetCredentialsResponse
  unfolding call_mapped credential
  get_credentials req =
      let neither = not (req.talosconfig || req.kubeconfig || req.secrets) in
      required (is_empty req.cluster) (
        held λ _. do
          found ← call_mapped (get_cluster req.cluster)
          present found.0 λ _. do
            t ← held (credential (req.talosconfig || neither) (creds.talos_config req.cluster))
            k ← held (credential (req.kubeconfig || neither) (creds.kube_config req.cluster))
            s ← held (credential req.secrets (creds.secrets req.cluster))
            return (record { talosconfig = t; kubeconfig = k; secrets = s }))

  unfoldable pub list_clusters_rpc : Exec Service (List Cluster)
  list_clusters_rpc = call_mapped list_clusters

  unfoldable pub list_node_pools_rpc : Bytes → Exec Service (List NodePool)
  list_node_pools_rpc cluster = required (is_empty cluster) (call_mapped (list_node_pools cluster))

  unfoldable pub list_machines_rpc : Bytes → Bytes → Exec Service (List Machine)
  list_machines_rpc cluster pool =
      required (is_empty cluster) (call_mapped (list_machines cluster pool))

  unfoldable pub list_hosts_rpc : Bytes → Bytes → Exec Service (List Host)
  list_hosts_rpc cluster pool = required (is_empty cluster) (call_mapped (list_hosts cluster pool))

  unfoldable pub list_rollouts : Bytes → Exec Service (List Rollout)
  list_rollouts cluster = required (is_empty cluster) (call_mapped (list_rollout_jobs cluster))

  -- The records of the machines that have one.
  unfoldable pub machine_rollouts_of : Bytes → List Machine → Exec Service (List MachineRollout)
  unfolding call_mapped
  machine_rollouts_of cluster [] = return []
  machine_rollouts_of cluster (m ∷ ms) =
      let rest = machine_rollouts_of cluster ms in
      do
        found ← call_mapped (get_machine_rollout cluster m.talos_endpoint)
        rs ← rest
        elim found [ none ↦ return rs | some mr ↦ return (mr ∷ rs) ]

  unfoldable pub get_rollout :
      Bytes → Bytes → Exec Service (Option ClusterRollout × List MachineRollout)
  unfolding call_mapped machine_rollouts_of
  get_rollout cluster pool = required (is_empty cluster) (do
    cr ← call_mapped (get_cluster_rollout cluster)
    ms ← call_mapped (list_machines cluster pool)
    rs ← machine_rollouts_of cluster ms
    return (cr, rs))
