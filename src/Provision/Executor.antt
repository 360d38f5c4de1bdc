-- ===== src/Provision/Executor.antt =====
-- internal/provision/executor.go: the reconciler over every cluster and pool.
use medea.Prelude.{ℕ, zero, suc, Bytes, Option, some, List, [], ◌∷◌, if◌then◌else◌}
use medea.Error.{Exec, return, raise, attempt, ◌>>=◌, ◌>>◌}
use medea.Proto.{Cluster, NodePool}
use medea.Bolt.{Bolt}
use medea.Store.Read.{list_clusters, list_node_pools}
use medea.Provision.Site.{Site, Plant, outside, in_store}
use medea.Provision.Config.{load_secrets_bundle}
use medea.Provision.Records.{new_reconciler}
use medea.Provision.Reconciler.{reconcile_pool}

module _ ⦃bolt : Bolt⦄ ⦃site : Site⦄ where
  -- CredsSecretsFunc
  unfoldable pub creds_secrets : Bytes → Exec Plant (Option site.Bundle)
  unfolding load_secrets_bundle
  creds_secrets cluster =
      attempt (outside (site.secrets cluster)) raise
        λ b. attempt (load_secrets_bundle b) raise λ bundle. return (some bundle)

  module _ (factory_host disk : Bytes) (timeout : ℕ) where
    -- The body of the inner loop; the errors are logged.
    unfoldable pub visit_pool : Cluster → NodePool → Exec Plant (Unit {0})
    unfolding new_reconciler reconcile_pool
    visit_pool cl np =
        attempt (outside (site.build_kube cl.name)) (λ _. return tt)
          λ _.
            attempt (reconcile_pool (new_reconciler factory_host timeout) disk cl.name np.name)
              (λ _. return tt) return

    unfoldable pub visit_pools : Cluster → List NodePool → Exec Plant (Unit {0})
    unfolding visit_pool
    visit_pools cl [] = return tt
    visit_pools cl (np ∷ pools) =
        let rest = visit_pools cl pools in
        elim np.replicas [ zero ↦ rest | suc n ↦ attempt (visit_pool cl np) raise (λ _. rest) ]

    unfoldable pub visit_clusters : List Cluster → Exec Plant (Unit {0})
    unfolding visit_pools
    visit_clusters [] = return tt
    visit_clusters (cl ∷ clusters) =
        let rest = visit_clusters clusters in
        if cl.provisioning_enabled
        then attempt (in_store (list_node_pools cl.name)) raise
            (λ pools. visit_pools cl pools >> rest)
        else rest

    -- RunOnce
    unfoldable pub provision_once : Exec Plant (Unit {0})
    unfolding visit_clusters
    provision_once = do clusters ← in_store list_clusters; visit_clusters clusters
