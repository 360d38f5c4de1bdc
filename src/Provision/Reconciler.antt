-- ===== src/Provision/Reconciler.antt =====
-- ReconcilePool of internal/provision/reconciler.go.
use medea.Prelude.{
  ℕ, zero, suc, ltb, Bytes, Option, none, some, List, [], ◌∷◌, ◌++◌, bytes, is_empty, if◌then◌else◌,
}
use medea.Error.{errorf, wrap, Exec, return, raise, attempt, ◌>>=◌, ◌>>◌}
use medea.Proto.{
  Role, HostState, host_unspecified, host_registered, host_allocated, host_provisioning, host_ready,
  host_failed, host_deprovisioning, Cluster, NodePool, Host, cluster_desired, pool_desired,
}
use medea.Bolt.{Bolt}
use medea.Store.Read.{get_cluster, get_node_pool, list_hosts}
use medea.Rollout.World.{NodeInfo}
use medea.Provision.Site.{Site, Plant, Profile, perform, outside, in_store, listed_nodes, staged}
use medea.Provision.Config.{factory_image, boot_assets, render_worker_config}
use medea.Provision.Bootstrap.{Settings, is_overdue}
use medea.Provision.Hosts.{pick_available, new_joined_node}
use medea.Provision.Records.{claimed_addrs, set_host_state, start_provisioning, bind, scale_in}

-- The three counters of the loop over the hosts, and the map of claimed addresses.
pub record Tally : Type 0 where
  pub inflight : ℕ
  pub ready : ℕ
  pub failed : ℕ
  pub claimed : List Bytes

module _ ⦃bolt : Bolt⦄ ⦃site : Site⦄ where
  module _ (r : Settings) (install_disk : Bytes) where
    -- stage
    unfoldable pub stage_host : Cluster → NodePool → Host → Exec Plant (Unit {0})
    unfolding factory_image boot_assets render_worker_config start_provisioning bytes
    stage_host cl np h =
        let own = (pool_desired np).talos_version in
        let version = if is_empty own then (cluster_desired cl).talos_version else own in
        if is_empty version
        then raise (errorf "provision: no Talos version for %s/%s" (cl.name ∷ np.name ∷ []))
        else attempt (outside (site.resolve np.extensions))
            (λ e. raise (wrap "provision: resolve schematic: %w" [] e))
            λ schematic.
              attempt (outside (site.secrets_for cl.name))
                (λ e. raise (wrap "provision: load secrets: %w" [] e))
                λ bundle. do
                  cfg ← render_worker_config (record {
                    cluster_name = cl.name;
                    endpoint =
                        bytes "https://" ++ elim cl.endpoints [ none ↦ [] | some e ↦ e.kube ];
                    kubernetes_version = (cluster_desired cl).kubernetes_version;
                    install_disk = install_disk;
                    install_image = factory_image r.factory_host schematic version;
                    secrets = bundle;
                  })
                  let assets = boot_assets r.factory_host schematic version []
                  let profile : Profile = record {
                    kernel = assets.0;
                    initrd = assets.1;
                    args = bytes "talos.platform=metal" ∷ [];
                  }
                  attempt (perform (site.stage h.mac profile cfg) (staged h.mac profile cfg))
                      (λ e. raise (wrap "provision: stage %s: %w" (h.mac ∷ []) e))
                      λ _. start_provisioning cl.name h.mac

    -- A host in PROVISIONING, with the node that has joined, if there is one: it is bound, or it is
    -- late, or it is waited for.
    unfoldable pub join_or_wait :
        Role → Bytes → Bytes → Host → Tally → Option NodeInfo → Exec Plant Tally
    unfolding bind is_overdue set_host_state
    join_or_wait role cluster pool h t (some n) = do
      bind cluster pool h.mac n role
      return (record t { claimed = n.internal_ip ∷ t.claimed; ready = suc t.ready })
    join_or_wait role cluster pool h t none = do
      late ← is_overdue r h.provisioning_started_at r.timeout
      if late
          then (do
            set_host_state cluster h.mac host_failed
                (errorf "provision timed out: node did not join" [])
            return (record t { failed = suc t.failed }))
          else return (record t { inflight = suc t.inflight })

    -- One turn of the loop, by the host's state.
    unfoldable pub advance_host :
        NodePool → List NodeInfo → Bytes → Bytes → Host → HostState → Tally → Exec Plant Tally
    unfolding join_or_wait new_joined_node
    advance_host np nodes cluster pool h host_ready t = return (record t { ready = suc t.ready })
    advance_host np nodes cluster pool h host_failed t = return (record t { failed = suc t.failed })
    advance_host np nodes cluster pool h host_provisioning t =
        join_or_wait np.role cluster pool h t (new_joined_node nodes t.claimed np.role)
    advance_host np nodes cluster pool h host_unspecified t = return t
    advance_host np nodes cluster pool h host_registered t = return t
    advance_host np nodes cluster pool h host_allocated t = return t
    advance_host np nodes cluster pool h host_deprovisioning t = return t

    unfoldable pub advance_hosts :
        NodePool → List NodeInfo → Bytes → Bytes → List Host → Tally → Exec Plant Tally
    unfolding advance_host
    advance_hosts np nodes cluster pool [] t = return t
    advance_hosts np nodes cluster pool (h ∷ hs) t = do
      t' ← advance_host np nodes cluster pool h h.state t
      advance_hosts np nodes cluster pool hs t'

    -- What follows the loop.
    unfoldable pub settle_pool :
        Cluster
        → NodePool
        → Bytes
        → Bytes
        → List Host
        → List NodeInfo
        → Tally
        → Exec Plant (Unit {0})
    unfolding scale_in pick_available stage_host
    settle_pool cl np cluster pool hosts nodes t =
        if ltb 0 t.inflight
        then return tt
        else if ltb 0 t.failed
        then return tt
        else if ltb np.replicas t.ready
        then scale_in cluster pool hosts nodes
        else if ltb t.ready np.replicas
        then elim (pick_available hosts np.selector) [
          | none ↦ return tt
          | some h ↦ stage_host cl np h
        ]
        else return tt

    -- ReconcilePool below its guards.
    unfoldable pub scale : Cluster → NodePool → Bytes → Bytes → Exec Plant (Unit {0})
    unfolding claimed_addrs advance_hosts settle_pool
    scale cl np cluster pool = do
      hosts ← in_store (list_hosts cluster pool)
      attempt (perform site.list_nodes listed_nodes)
          (λ e. raise (wrap "provision: list nodes: %w" [] e))
          λ nodes. do
            claimed ← claimed_addrs cluster hosts
            t ←
                advance_hosts np nodes cluster pool hosts
                  (record { inflight = 0; ready = 0; failed = 0; claimed = claimed })
            settle_pool cl np cluster pool hosts nodes t

    unfoldable pub scale_pool : Cluster → Bytes → Bytes → Exec Plant (Unit {0})
    unfolding scale
    scale_pool cl cluster pool = do
      (found, _) ← in_store (get_node_pool cluster pool)
      elim found [
        | none ↦ raise (errorf "provision: nodepool %q/%q not found" (cluster ∷ pool ∷ []))
        | some np ↦ elim np.replicas [ zero ↦ return tt | suc n ↦ scale cl np cluster pool ]
      ]

    unfoldable pub reconcile_pool : Bytes → Bytes → Exec Plant (Unit {0})
    unfolding scale_pool
    reconcile_pool cluster pool = do
      (found, _) ← in_store (get_cluster cluster)
      elim found [
        | none ↦ raise (errorf "provision: cluster %q not found" (cluster ∷ []))
        | some cl ↦ if cl.provisioning_enabled then scale_pool cl cluster pool else return tt
      ]
