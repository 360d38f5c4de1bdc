-- ===== src/Rollout/K8s.antt =====
-- ReconcileK8s of internal/rollout/rollout.go.
use medea.Prelude.{
  Bytes, Bool, Option, none, some, List, [], ◌∷◌, ◌==◌, is_empty, bytes, trim_prefix, if◌then◌else◌,
}
use medea.Error.{Text, no_text, errorf, show, Exec, raise, attempt, ◌>>◌}
use medea.Proto.{ClusterRolloutPhase, crp_idle, crp_upgrading, crp_failed}
use medea.Bolt.{Bolt}
use medea.Store.Write.{put_cluster_rollout}
use medea.Rollout.World.{NodeInfo, Remote, World, in_store, ignore, list_nodes, upgrade_k8s}
use medea.Rollout.Node.{snapshot}

unfoldable pub same_version : Bytes → Bytes → Bool
unfolding trim_prefix bytes
same_version a b = trim_prefix a (bytes "v") == trim_prefix b (bytes "v")

-- The address and the version that the loop over the nodes leaves: the last control-plane node's.
unfoldable pub control_plane_from : Bytes × Bytes → List NodeInfo → Bytes × Bytes
unfolding bytes
control_plane_from found [] = found
control_plane_from found (n ∷ ns) =
    control_plane_from
      (if n.role == bytes "controlplane" then (n.internal_ip, n.kubelet_version) else found) ns

unfoldable pub control_plane : List NodeInfo → Bytes × Bytes
unfolding control_plane_from
control_plane = control_plane_from ([], [])

-- The first node that is not at the version.
unfoldable pub lagging : Bytes → List NodeInfo → Option NodeInfo
unfolding same_version
lagging target [] = none
lagging target (n ∷ ns) =
    if same_version n.kubelet_version target then lagging target ns else some n

module _ ⦃bolt : Bolt⦄ ⦃remote : Remote⦄ where
  unfoldable pub set_cluster_phase :
      Bytes → ClusterRolloutPhase → Bytes → Text → Exec World (Unit {0})
  set_cluster_phase cluster phase target msg = ignore (
      in_store (
        put_cluster_rollout (record {
          cluster = cluster;
          phase = phase;
          target_kubernetes_version = target;
          message = msg;
          revision = 0;
        })))

  unfoldable pub fail_cluster : {A : Type 0} → Bytes → Bytes → Text → Exec World A
  unfolding set_cluster_phase
  fail_cluster cluster target msg = do
    set_cluster_phase cluster crp_failed target msg
    raise (show "k8s rollout halted: %s" [] msg)

  -- After the upgrade: every node is at the target.
  unfoldable pub verify_k8s : Bytes → Bytes → Exec World (Unit {0})
  unfolding list_nodes fail_cluster lagging set_cluster_phase
  verify_k8s cluster target =
      attempt list_nodes
        (λ e. fail_cluster cluster target (show "post-upgrade list nodes: %v" [] e))
        λ nodes. elim (lagging target nodes) [
          | some n ↦
              fail_cluster cluster target
                (errorf "node %s at %s, want %s" (n.name ∷ n.kubelet_version ∷ target ∷ []))
          | none ↦ set_cluster_phase cluster crp_idle target no_text
        ]

  unfoldable pub reconcile_k8s : Bytes → Bytes → Exec World (Unit {0})
  unfolding set_cluster_phase list_nodes fail_cluster control_plane same_version snapshot
      upgrade_k8s verify_k8s
  reconcile_k8s cluster target =
      if is_empty target
      then raise (errorf "rollout: no target Kubernetes version for %s" (cluster ∷ []))
      else do
        set_cluster_phase cluster crp_upgrading target (errorf "upgrading" [])
        attempt list_nodes (λ e. fail_cluster cluster target (show "list nodes: %v" [] e))
            λ nodes.
              let (cp, from) = control_plane nodes in
              if is_empty cp
              then fail_cluster cluster target (errorf "no control-plane node found" [])
              else if same_version from target
              then set_cluster_phase cluster crp_idle target no_text
              else attempt (snapshot cluster cp)
                  (λ e. fail_cluster cluster target (show "etcd snapshot: %v" [] e))
                  λ _.
                    attempt (upgrade_k8s from target)
                      (λ e. fail_cluster cluster target (show "upgrade-k8s: %v" [] e))
                      λ _. verify_k8s cluster target
