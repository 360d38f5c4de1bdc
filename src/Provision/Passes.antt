-- ===== src/Provision/Passes.antt =====
-- A whole pass of ReconcilePool in internal/provision/reconciler.go.
use medea.Prelude.{
  ℕ, zero, suc, ◌+◌, ◌≤◌, ◌<◌, Bytes, Bool, true, false, Option, none, some, List, [], ◌∷◌, ◌≡◌,
  refl, ◌∙◌, if◌then◌else◌, arith,
}
use medea.Error.{Error, errorf, wrap, Result, ok, err, Exec, return, raise, attempt, branch, ◌>>=◌}
use medea.Proto.{Cluster, NodePool, Host}
use medea.Bolt.{Bolt}
use medea.Store.Read.{get_cluster, get_node_pool, list_hosts}
use medea.Rollout.World.{NodeInfo}
use medea.Provision.Site.{Site, Plant, Call, perform, listed_nodes}
use medea.Provision.Bootstrap.{Settings}
use medea.Provision.Reconciler.{
  Tally, advance_hosts, settle_pool, scale, scale_pool, reconcile_pool,
}
use medea.Provision.Records.{claimed_addrs}
use medea.Provision.Counts.{
  Sound, serving, failures, Counted, advance_hosts-IsMute, advance_hosts-Counted,
}
use medea.Provision.Mute.{claimed_addrs-IsMute}
use medea.Provision.Deeds.{Deed, Before, Done, settle_pool-Done, mute-Before, raise-Done}
use medea.Triple.{Leads, Leads-attempt, Leads-After, After}

abbrev start : List Bytes → Tally
start claimed = record { inflight = 0; ready = 0; failed = 0; claimed = claimed }

module _ ⦃bolt : Bolt⦄ ⦃site : Site⦄ where
  -- A pass that has done nothing, one that was not told of the nodes, and one that has looked.
  pub data Pass (cluster pool : Bytes) (w w' : Plant) : Type 0 where
    unasked : w'.store ≡ w.store → w'.calls ≡ w.calls → Pass cluster pool w w'
    unanswered :
        (e : Error)
        → w'.store ≡ w.store
        → w'.calls ≡ listed_nodes (err e) ∷ w.calls
        → Pass cluster pool w w'
    looked :
        (cl : Cluster) (np : NodePool) (hosts : List Host) (nodes : List NodeInfo) (crev prev : ℕ)
        → (get_cluster cluster w.store).0 ≡ ok (some cl, crev)
        → cl.provisioning_enabled ≡ true
        → (get_node_pool cluster pool w.store).0 ≡ ok (some np, prev)
        → 0 < np.replicas
        → (list_hosts cluster pool w.store).0 ≡ ok hosts
        → Deed np hosts nodes (listed_nodes (ok nodes) ∷ w.calls) w'.calls
        → Pass cluster pool w w'

  module _ (r : Settings) (disk cluster pool : Bytes) where
    module _ (cl : Cluster) (np : NodePool) (hosts : List Host) (nodes : List NodeInfo)
        (cs : List Call) where
      -- The loop's counters as the last part needs them.
      abbrev Counts : Tally → Plant → Type 0
      Counts t w =
          (t.ready + t.failed + t.inflight ≡ serving hosts)
          × (failures hosts ≤ t.failed)
          × Before r disk cluster pool cl np hosts nodes cs w

      counted :
          (claimed : List Bytes) (x : Result Tally) (w : Plant)
          → Sound (Counted (start claimed) (serving hosts) (failures hosts)) x
          → w.calls ≡ cs
          → After Counts (λ e. Before r disk cluster pool cl np hosts nodes cs) x w
      counted claimed (ok t) w c q = (omega (arith, c.0), omega (arith, c.1), q)
      counted claimed (err e) w c q = q

      after_list-Done :
          Leads
            (Before r disk cluster pool cl np hosts nodes cs)
            (Done r disk cluster pool cl np hosts nodes cs)
            (do
              claimed ← claimed_addrs cluster hosts
              t ← advance_hosts r disk np nodes cluster pool hosts (start claimed)
              settle_pool r disk cl np cluster pool hosts nodes t)
      after_list-Done =
          Leads-attempt (claimed_addrs cluster hosts) raise _
            (mute-Before r disk cluster pool cl np hosts nodes cs _
              (claimed_addrs-IsMute cluster hosts))
            (raise-Done r disk cluster pool cl np hosts nodes cs)
            λ claimed.
              Leads-After Counts (λ e. Before r disk cluster pool cl np hosts nodes cs)
                (advance_hosts r disk np nodes cluster pool hosts (start claimed)) raise _
                (λ w b.
                  counted claimed _ _
                    ((advance_hosts-Counted r disk cluster pool np nodes hosts
                        (start claimed)).sound
                      w)
                    ((advance_hosts-IsMute r disk cluster pool np nodes hosts (start claimed)).calls
                        w
                      ∙ b))
                (raise-Done r disk cluster pool cl np hosts nodes cs)
                (λ t. record {
                  at = λ w c.
                      (settle_pool-Done r disk cluster pool cl np hosts nodes cs t c.0 c.1).at w
                        c.2;
                })

    scale-Pass :
        (cl : Cluster) (np : NodePool) (w : Plant) (crev prev : ℕ)
        → (get_cluster cluster w.store).0 ≡ ok (some cl, crev)
        → cl.provisioning_enabled ≡ true
        → (get_node_pool cluster pool w.store).0 ≡ ok (some np, prev)
        → 0 < np.replicas
        → Pass cluster pool w (scale r disk cl np cluster pool w).1
    unfolding scale list_hosts
    scale-Pass cl np w crev prev c enabled p some_replicas =
        go (list_hosts cluster pool w.store).0 refl
      where
        after_hosts : List Host → Exec Plant (Unit {0})
        after_hosts hosts =
            attempt (perform site.list_nodes listed_nodes)
              (λ e. raise (wrap "provision: list nodes: %w" [] e))
              λ nodes. do
                claimed ← claimed_addrs cluster hosts
                t ← advance_hosts r disk np nodes cluster pool hosts (start claimed)
                settle_pool r disk cl np cluster pool hosts nodes t

        told :
            (hosts : List Host) (x : Result (List NodeInfo)) (env : site.Env)
            → (list_hosts cluster pool w.store).0 ≡ ok hosts
            → Pass cluster pool w
                (branch x
                  (λ e. raise (wrap "provision: list nodes: %w" [] e))
                  (λ nodes. do
                    claimed ← claimed_addrs cluster hosts
                    t ← advance_hosts r disk np nodes cluster pool hosts (start claimed)
                    settle_pool r disk cl np cluster pool hosts nodes t)
                  (record w { env = env; calls = listed_nodes x ∷ w.calls })).1
        told hosts (err e) env q = unanswered e refl refl
        told hosts (ok nodes) env q =
            looked cl np hosts nodes crev prev c enabled p some_replicas q
              ((after_list-Done cl np hosts nodes (listed_nodes (ok nodes) ∷ w.calls)).at _ refl)

        go :
            (x : Result (List Host))
            → (list_hosts cluster pool w.store).0 ≡ x
            → Pass cluster pool w (branch x raise after_hosts w).1
        go (err e) q = unasked refl refl
        go (ok hosts) q = told hosts (site.list_nodes w.env).0 (site.list_nodes w.env).1 q

    scale_pool-Pass :
        (cl : Cluster) (w : Plant) (crev : ℕ)
        → (get_cluster cluster w.store).0 ≡ ok (some cl, crev)
        → cl.provisioning_enabled ≡ true
        → Pass cluster pool w (scale_pool r disk cl cluster pool w).1
    unfolding scale_pool get_node_pool
    scale_pool-Pass cl w crev c enabled = go (get_node_pool cluster pool w.store).0 refl
      where
        sized : NodePool → ℕ → Exec Plant (Unit {0})
        sized np n = elim n [ zero ↦ return tt | suc k ↦ scale r disk cl np cluster pool ]

        on_size :
            (np : NodePool) (n prev : ℕ)
            → np.replicas ≡ n
            → (get_node_pool cluster pool w.store).0 ≡ ok (some np, prev)
            → Pass cluster pool w (sized np n w).1
        on_size np zero prev q p = unasked refl refl
        on_size np (suc k) prev q p = scale-Pass cl np w crev prev c enabled p (omega (arith, q))

        go :
            (x : Result (Option NodePool × ℕ))
            → (get_node_pool cluster pool w.store).0 ≡ x
            → Pass cluster pool w
                (branch x raise
                  (λ q. elim q.0 as (λ _. Exec Plant (Unit {0})) [
                    | none ↦
                        raise (errorf "provision: nodepool %q/%q not found" (cluster ∷ pool ∷ []))
                    | some np ↦ sized np np.replicas
                  ])
                  w).1
        go (err e) q = unasked refl refl
        go (ok (none, n)) q = unasked refl refl
        go (ok (some np, n)) q = on_size np np.replicas n refl q

    -- A pass of the provisioning ReconcilePool does one of three things, whatever the site
    -- answers: it changes nothing and makes no call; or it is refused the list of nodes and
    -- changes nothing; or the cluster has provisioning enabled, the pool has replicas, and after
    -- listing the nodes it stages no host or one, or releases one. It stages only a registered
    -- host of the pool that the selector matches, when no host of the pool is failed and those
    -- ready or being provisioned are fewer than the replicas. It releases only the ready host with
    -- the lowest MAC, when no host is failed and there are more than the replicas, and unstages it
    -- only directly after a drain of its node that went through, unless no node of a name has its
    -- address.
    pub reconcile_pool-Pass :
        (w : Plant) → Pass cluster pool w (reconcile_pool r disk cluster pool w).1
    unfolding reconcile_pool get_cluster
    reconcile_pool-Pass w = go (get_cluster cluster w.store).0 refl
      where
        guarded :
            (cl : Cluster) (b : Bool) (n : ℕ)
            → cl.provisioning_enabled ≡ b
            → (get_cluster cluster w.store).0 ≡ ok (some cl, n)
            → Pass cluster pool w ((if b then scale_pool r disk cl cluster pool else return tt) w).1
        guarded cl true n q c = scale_pool-Pass cl w n c q
        guarded cl false n q c = unasked refl refl

        go :
            (x : Result (Option Cluster × ℕ))
            → (get_cluster cluster w.store).0 ≡ x
            → Pass cluster pool w
                (branch x raise
                  (λ q. elim q.0 as (λ _. Exec Plant (Unit {0})) [
                    | none ↦ raise (errorf "provision: cluster %q not found" (cluster ∷ []))
                    | some cl ↦
                        if cl.provisioning_enabled
                        then scale_pool r disk cl cluster pool
                        else return tt
                  ])
                  w).1
        go (err e) q = unasked refl refl
        go (ok (none, n)) q = unasked refl refl
        go (ok (some cl, n)) q = guarded cl cl.provisioning_enabled n refl q
