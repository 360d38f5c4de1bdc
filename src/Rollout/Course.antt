-- ===== src/Rollout/Course.antt =====
-- What ReconcileK8s of internal/rollout/rollout.go does, and how it ends.
use medea.Prelude.{
  Bytes, Bool, true, false, Option, none, some, List, [], ◌∷◌, ◌≡◌, refl, sym, ap, subst, is_empty,
  if◌then◌else◌,
}
use medea.Error.{Text, Error, errorf, show, no_text, Result, ok, err, Exec, raise, attempt, ◌>>◌}
use medea.Proto.{crp_idle, crp_upgrading}
use medea.Triple.{by_answer}
use medea.Bolt.{Bolt}
use medea.Rollout.World.{
  NodeInfo, Remote, World, Call, listed_nodes, took_snapshot, upgraded_k8s, list_nodes, upgrade_k8s,
}
use medea.Rollout.Node.{snapshot}
use medea.Rollout.K8s.{
  same_version, control_plane, lagging, set_cluster_phase, fail_cluster, verify_k8s, reconcile_k8s,
}
use medea.Rollout.Ending.{
  lagging-At, Headed, Course, untargeted, unlisted, headless, converged, unsaved, unsaved_after,
  broken, unverified, verified,
}
use medea.Rollout.Saved.{Saved, unopened, failed, kept, snapshot-Saved}

module _ ⦃bolt : Bolt⦄ ⦃remote : Remote⦄ where
  module _ (cluster target : Bytes) where
    -- The record of a phase is no call, and a failure ends with an error.
    fail_cluster-calls :
        (msg : Text) (w : World)
        → (fail_cluster {A = Unit {0}} cluster target msg w).1.calls ≡ w.calls
    unfolding fail_cluster set_cluster_phase
    fail_cluster-calls msg w = refl

    module _ (cs : List Call) where
      abbrev Out : Result (Unit {0}) → World → Type 0
      Out x s = Course target cs x s.calls

      -- A failure after the calls that `course` ends with.
      failing :
          (msg : Text) (w : World) (l : List Call)
          → w.calls ≡ l
          → ((e : Error) → Course target cs (err e) l)
          → Out
              (fail_cluster {A = Unit {0}} cluster target msg w).0
              (fail_cluster {A = Unit {0}} cluster target msg w).1
      unfolding fail_cluster set_cluster_phase
      failing msg w l h course =
          subst (Course target cs (err (show "k8s rollout halted: %s" [] msg))) (sym h)
            (course (show "k8s rollout halted: %s" [] msg))

      verify_k8s-Course :
          (nodes : List NodeInfo) (has : Headed nodes) (u v : Unit {0}) (w : World)
          → w.calls
            ≡ upgraded_k8s (control_plane nodes).1 target (ok v)
              ∷ took_snapshot (control_plane nodes).0 (ok u)
              ∷ listed_nodes (ok nodes)
              ∷ cs
          → Out (verify_k8s cluster target w).0 (verify_k8s cluster target w).1
      unfolding verify_k8s list_nodes set_cluster_phase
      verify_k8s-Course nodes has u v w h =
          by_answer (λ x s. s.calls ≡ listed_nodes x ∷ before) Out _
            (λ ns. judge ns (lagging target ns))
            (λ e s k.
              failing (show "post-upgrade list nodes: %v" [] e) s (listed_nodes (err e) ∷ before) k
                (λ _. unverified nodes has u v (err e)))
            (λ ns s k. judged ns (lagging target ns) refl s k) _ _
            (ap (λ l. listed_nodes (remote.list_nodes w.env).0 ∷ l) h)
        where
          before : List Call
          before =
              upgraded_k8s (control_plane nodes).1 target (ok v)
              ∷ took_snapshot (control_plane nodes).0 (ok u)
              ∷ listed_nodes (ok nodes)
              ∷ cs

          judge : List NodeInfo → Option NodeInfo → Exec World (Unit {0})
          judge ns o = elim o [
            | some n ↦
                fail_cluster cluster target
                  (errorf "node %s at %s, want %s" (n.name ∷ n.kubelet_version ∷ target ∷ []))
            | none ↦ set_cluster_phase cluster crp_idle target no_text
          ]

          judged :
              (ns : List NodeInfo) (o : Option NodeInfo)
              → lagging target ns ≡ o
              → (s : World) → s.calls ≡ listed_nodes (ok ns) ∷ before
              → Out (judge ns o s).0 (judge ns o s).1
          judged ns none q s k =
              subst (Course target cs (ok tt)) (sym k)
                (verified nodes has ns u v (lagging-At target ns q))
          judged ns (some n) q s k =
              failing (errorf "node %s at %s, want %s" (n.name ∷ n.kubelet_version ∷ target ∷ [])) s
                (listed_nodes (ok ns) ∷ before) k (λ _. unverified nodes has u v (ok ns))

      -- From the snapshot on.
      saving : List NodeInfo → Exec World (Unit {0})
      saving nodes =
          attempt (snapshot cluster (control_plane nodes).0)
            (λ e. fail_cluster cluster target (show "etcd snapshot: %v" [] e))
            λ _.
              attempt (upgrade_k8s (control_plane nodes).1 target)
                (λ e. fail_cluster cluster target (show "upgrade-k8s: %v" [] e))
                λ _. verify_k8s cluster target

      upgrading-Course :
          (nodes : List NodeInfo) (has : Headed nodes) (u : Unit {0}) (w : World)
          → w.calls ≡ took_snapshot (control_plane nodes).0 (ok u) ∷ listed_nodes (ok nodes) ∷ cs
          → Out
              (attempt
                (upgrade_k8s (control_plane nodes).1 target)
                (λ e. fail_cluster cluster target (show "upgrade-k8s: %v" [] e))
                (λ _. verify_k8s cluster target)
                w).0
              (attempt
                (upgrade_k8s (control_plane nodes).1 target)
                (λ e. fail_cluster cluster target (show "upgrade-k8s: %v" [] e))
                (λ _. verify_k8s cluster target)
                w).1
      unfolding upgrade_k8s
      upgrading-Course nodes has u w h =
          by_answer {A = Unit {0}}
            (λ x s.
              s.calls
              ≡ upgraded_k8s (control_plane nodes).1 target x
                ∷ took_snapshot (control_plane nodes).0 (ok u)
                ∷ listed_nodes (ok nodes)
                ∷ cs)
            Out (λ e. fail_cluster cluster target (show "upgrade-k8s: %v" [] e))
            (λ _. verify_k8s cluster target)
            (λ e s k. failing (show "upgrade-k8s: %v" [] e) s _ k (λ _. broken nodes has u e))
            (λ v s k. verify_k8s-Course nodes has u v s k)
            (upgrade_k8s (control_plane nodes).1 target w).0
            (upgrade_k8s (control_plane nodes).1 target w).1
            (ap
              (λ l.
                upgraded_k8s (control_plane nodes).1 target
                  (remote.upgrade_k8s (control_plane nodes).1 target w.env).0
                ∷ l)
              h)

      saving-Course :
          (nodes : List NodeInfo) (has : Headed nodes) (w : World)
          → w.calls ≡ listed_nodes (ok nodes) ∷ cs
          → Out (saving nodes w).0 (saving nodes w).1
      unfolding saving
      saving-Course nodes has w h =
          by_answer {A = Unit {0}}
            (λ x s. Saved (control_plane nodes).0 (listed_nodes (ok nodes) ∷ cs) x s.calls) Out
            (λ e. fail_cluster cluster target (show "etcd snapshot: %v" [] e)) _
            (λ e s k. lost e s s.calls refl k) (λ u s k. went u s s.calls refl k)
            (snapshot cluster (control_plane nodes).0 w).0
            (snapshot cluster (control_plane nodes).0 w).1
            (subst
              (λ l.
                Saved (control_plane nodes).0 l (snapshot cluster (control_plane nodes).0 w).0
                  (snapshot cluster (control_plane nodes).0 w).1.calls)
              h (snapshot-Saved cluster (control_plane nodes).0 w))
        where
          lost :
              (e : Error) (s : World) (l : List Call)
              → s.calls ≡ l
              → Saved (control_plane nodes).0 (listed_nodes (ok nodes) ∷ cs) (err e) l
              → Out
                  (fail_cluster {A = Unit {0}} cluster target (show "etcd snapshot: %v" [] e) s).0
                  (fail_cluster {A = Unit {0}} cluster target (show "etcd snapshot: %v" [] e) s).1
          lost e s l h (unopened _) =
              failing (show "etcd snapshot: %v" [] e) s _ h (λ _. unsaved nodes has)
          lost e s l h (failed _ r) =
              failing (show "etcd snapshot: %v" [] e) s _ h (λ _. unsaved_after nodes has r)

          went :
              (u : Unit {0}) (s : World) (l : List Call)
              → s.calls ≡ l
              → Saved (control_plane nodes).0 (listed_nodes (ok nodes) ∷ cs) (ok u) l
              → Out
                  (attempt
                    (upgrade_k8s (control_plane nodes).1 target)
                    (λ e. fail_cluster cluster target (show "upgrade-k8s: %v" [] e))
                    (λ _. verify_k8s cluster target)
                    s).0
                  (attempt
                    (upgrade_k8s (control_plane nodes).1 target)
                    (λ e. fail_cluster cluster target (show "upgrade-k8s: %v" [] e))
                    (λ _. verify_k8s cluster target)
                    s).1
          went u s l h (kept _ v) = upgrading-Course nodes has v s h

      -- After the first list of the nodes.
      listed : List NodeInfo → Exec World (Unit {0})
      listed nodes =
          if is_empty (control_plane nodes).0
          then fail_cluster cluster target (errorf "no control-plane node found" [])
          else if same_version (control_plane nodes).1 target
          then set_cluster_phase cluster crp_idle target no_text
          else saving nodes

      listed-Course :
          (nodes : List NodeInfo) (w : World)
          → w.calls ≡ listed_nodes (ok nodes) ∷ cs
          → Out (listed nodes w).0 (listed nodes w).1
      unfolding listed set_cluster_phase
      listed-Course nodes w h =
          on (is_empty (control_plane nodes).0) refl (same_version (control_plane nodes).1 target)
            refl
        where
          on :
              (a : Bool)
              → is_empty (control_plane nodes).0 ≡ a
              → (b : Bool) → same_version (control_plane nodes).1 target ≡ b
              → Out
                  ((if a
                      then fail_cluster cluster target (errorf "no control-plane node found" [])
                      else if b
                      then set_cluster_phase cluster crp_idle target no_text
                      else saving nodes)
                    w).0
                  ((if a
                      then fail_cluster cluster target (errorf "no control-plane node found" [])
                      else if b
                      then set_cluster_phase cluster crp_idle target no_text
                      else saving nodes)
                    w).1
          on true p b q =
              failing (errorf "no control-plane node found" []) w _ h (λ _. headless nodes p)
          on false p true q = subst (Course target cs (ok tt)) (sym h) (converged nodes p q)
          on false p false q = saving-Course nodes p w h

    -- What ReconcileK8s calls, and how it ends, whatever the cluster answers. It returns no error
    -- in two cases: it listed the nodes, found a control-plane node with an address, the last one
    -- at the target, a leading v aside, and called nothing else; or it listed the nodes, saved
    -- etcd from that control-plane node with success, upgraded from that node's version to the
    -- target with success, and listed the nodes again, all at the target. In every other case it
    -- returns an error, and an upgrade was called only directly after a snapshot that went
    -- through.
    pub reconcile_k8s-Course :
        (w : World)
        → Course target w.calls
            (reconcile_k8s cluster target w).0
            (reconcile_k8s cluster target w).1.calls
    unfolding reconcile_k8s listed saving list_nodes set_cluster_phase
    reconcile_k8s-Course w = on (is_empty target) refl
      where
        run : Exec World (Unit {0})
        run = do
          set_cluster_phase cluster crp_upgrading target (errorf "upgrading" [])
          attempt list_nodes (λ e. fail_cluster cluster target (show "list nodes: %v" [] e))
              (listed w.calls)

        started : World
        started = (set_cluster_phase cluster crp_upgrading target (errorf "upgrading" []) w).1

        on :
            (a : Bool)
            → is_empty target ≡ a
            → Out w.calls
                ((if a
                    then raise
                        (errorf "rollout: no target Kubernetes version for %s" (cluster ∷ []))
                    else run)
                  w).0
                ((if a
                    then raise
                        (errorf "rollout: no target Kubernetes version for %s" (cluster ∷ []))
                    else run)
                  w).1
        on true p = untargeted p
        on false p =
            by_answer {A = List NodeInfo} (λ x s. s.calls ≡ listed_nodes x ∷ w.calls) (Out w.calls)
              (λ e. fail_cluster cluster target (show "list nodes: %v" [] e)) (listed w.calls)
              (λ e s k. failing w.calls (show "list nodes: %v" [] e) s _ k (λ _. unlisted e))
              (λ nodes s k. listed-Course w.calls nodes s k) (list_nodes started).0
              (list_nodes started).1 refl
