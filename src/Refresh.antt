-- ===== src/Refresh.antt =====
-- internal/refresh/refresh.go: the observed caches, from the live clusters.
pub mod Evidence
pub mod Health
use medea.Prelude.{
  Bytes, Bool, true, false, Option, none, some, List, [], ◌∷◌, ◌++◌, ◌==◌, bytes, if◌then◌else◌,
  is_empty,
}
use medea.Error.{Error, wrap, Result, ok, err, Exec, return, raise, attempt, ◌>>=◌, ◌>>◌}
use medea.Proto.{
  Cluster, ClusterObserved, Machine, MachineObserved, MachinePhase, phase_unspecified, phase_ready,
  phase_not_ready,
}
use medea.Bolt.{Bolt}
use medea.Store.Read.{list_clusters, list_machines}
use medea.Store.Write.{set_cluster_observed, set_machine_observed}
use medea.Rollout.World.{NodeInfo, Remote, World, local, in_store, version, list_nodes}
use medea.Rollout.Pool.{node_at}

unfoldable pub phase : Bool → MachinePhase
phase true = phase_ready
phase false = phase_not_ready

-- What the node of a machine's address says of it; `byIP` keeps the last node of an address.
unfoldable pub observed_node : Option NodeInfo → MachineObserved
unfolding phase
observed_node none = record {
  phase = phase_not_ready;
  talos_version = [];
  kubernetes_version = [];
  healthy = false;
}
observed_node (some n) = record {
  phase = phase n.ready;
  talos_version = [];
  kubernetes_version = n.kubelet_version;
  healthy = n.ready;
}

-- What the Talos API of the machine adds.
unfoldable pub with_answer : MachineObserved → Result Bytes → MachineObserved
with_answer obs (ok tv) = record obs { talos_version = tv }
with_answer obs (err e) = record obs { healthy = false }

-- The loop over the nodes at the end: the last control-plane node's.
unfoldable pub observed_cluster : ClusterObserved → List NodeInfo → ClusterObserved
unfolding bytes
observed_cluster co [] = co
observed_cluster co (n ∷ ns) =
    observed_cluster
      (if n.role == bytes "controlplane"
        then record co { kubernetes_version = n.kubelet_version; control_plane_ready = n.ready }
        else co)
      ns

abbrev pub unobserved : ClusterObserved
unobserved = record { kubernetes_version = []; control_plane_ready = false }

module _ ⦃bolt : Bolt⦄ ⦃remote : Remote⦄ where
  abbrev pub observe_cluster : Bytes → ClusterObserved → Exec World (Unit {0})
  observe_cluster cluster co w =
      (ok tt, record w { store = set_cluster_observed cluster (some co) w.store })

  abbrev pub observe_machine : Bytes → Bytes → MachineObserved → Exec World (Unit {0})
  observe_machine cluster addr obs w =
      (ok tt, record w { store = set_machine_observed cluster addr (some obs) w.store })

  -- The body of the loop over the machines.
  unfoldable pub refresh_machine : Bytes → List NodeInfo → Machine → Exec World (Unit {0})
  unfolding observed_node node_at version with_answer
  refresh_machine cluster nodes m =
      let seen = observed_node (node_at nodes m.talos_endpoint) in
      attempt (version m.talos_endpoint)
        (λ e. observe_machine cluster m.talos_endpoint (with_answer seen (err e)))
        λ tv. observe_machine cluster m.talos_endpoint (with_answer seen (ok tv))

  unfoldable pub refresh_machines : Bytes → List NodeInfo → List Machine → Exec World (Unit {0})
  unfolding refresh_machine
  refresh_machines cluster nodes [] = return tt
  refresh_machines cluster nodes (m ∷ ms) =
      let rest = refresh_machines cluster nodes ms in refresh_machine cluster nodes m >> rest

  unfoldable pub refresh_cluster : Cluster → Exec World (Unit {0})
  unfolding list_nodes refresh_machines observed_cluster
  refresh_cluster cl =
      attempt (local (remote.build_clients cl.name)) (λ e. raise (wrap "build clients: %w" [] e))
        λ _.
          attempt list_nodes
            (λ e. observe_cluster cl.name unobserved >> raise (wrap "list nodes: %w" [] e))
            λ nodes.
              attempt (in_store (list_machines cl.name []))
                (λ e. raise (wrap "list machines: %w" [] e))
                λ machines.
                  refresh_machines cl.name nodes machines
                  >> observe_cluster cl.name (observed_cluster unobserved nodes)

  -- The loop of Once, with the errors that it hands to errors.Join.
  unfoldable pub refresh_clusters : List Cluster → Exec World (List Error)
  unfolding refresh_cluster
  refresh_clusters [] = return []
  refresh_clusters (cl ∷ cls) =
      let rest = refresh_clusters cls in
      attempt (refresh_cluster cl)
        (λ e. attempt rest raise (λ es. return (wrap "cluster %q: %w" (cl.name ∷ []) e ∷ es)))
        (λ _. rest)

  unfoldable pub once : Exec World (List Error)
  unfolding refresh_clusters
  once =
      attempt (in_store list_clusters) (λ e. raise (wrap "list clusters: %w" [] e)) refresh_clusters
