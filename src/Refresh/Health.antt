-- ===== src/Refresh/Health.antt =====
-- What internal/refresh/refresh.go must have been told before it reports a machine as healthy.
use medea.Prelude.{Bytes, false, List, [], ◌∷◌, ◌≡◌, refl, ◌==◌, eq_iff, ◌⊎◌, inl, inr, Bool-cases}
use medea.Error.{Error, wrap, Result, ok, err, Exec, raise, attempt}
use medea.Proto.{Cluster, ClusterObserved, Machine, MachineObserved}
use mathlib.Core.List.{Memᴰ}
use medea.Bolt.{Bolt}
use medea.Store.State.{Store, ckey}
use medea.Store.Read.{list_clusters, list_machines}
use medea.Store.Write.{set_cluster_observed, set_machine_observed}
use medea.Rollout.World.{
  NodeInfo, Remote, World, Call, local, in_store, read_version, listed_nodes, version, list_nodes,
}
use medea.Rollout.Pool.{node_at}
use medea.Triple.{Leads, Leads-return, Leads-raise, Leads-attempt, Leads-After, After}
use medea.Refresh.{
  unobserved, observed_cluster, observed_node, with_answer, observe_cluster, observe_machine,
  refresh_machine, refresh_machines, refresh_cluster, refresh_clusters, once,
}
use medea.Refresh.Evidence.{Confirmed, Fresh, Fresh-later, healthy_from}

module _ ⦃bolt : Bolt⦄ ⦃remote : Remote⦄ (s : Store) where
  -- Every observed state of a machine is as in `s`, or fresh; and what is stored is as in `s`.
  pub record Observed (w : World) : Type 0 where
    pub db : w.store.db ≡ s.db
    pub last : w.store.last_rev ≡ s.last_rev
    pub machines :
        (k : Bytes)
        → (w.store.obs_machine k ≡ s.obs_machine k) ⊎ Fresh w.calls k (w.store.obs_machine k)

  later :
      (w : World) (c : Call) (env : remote.Env)
      → Observed w
      → Observed (record w { env = env; calls = c ∷ w.calls })
  later w c env o = record {
    db = o.db;
    last = o.last;
    machines = λ k. elim (o.machines k) [
      | inl same ↦ inl same
      | inr f ↦ inr (Fresh-later c w.calls k (w.store.obs_machine k) f)
    ];
  }

  -- With the nodes listed.
  abbrev Told : List NodeInfo → World → Type 0
  Told nodes w = Observed w × Memᴰ (listed_nodes (ok nodes)) w.calls

  local-Observed :
      {A : Type 0} (op : remote.Env → Result A × remote.Env) → Leads Observed Observed (local op)
  local-Observed op = record {
    at = λ w o. record { db = o.db; last = o.last; machines = o.machines };
  }

  observe_cluster-Observed :
      (cluster : Bytes) (co : ClusterObserved)
      → Leads Observed Observed (observe_cluster cluster co)
  unfolding set_cluster_observed
  observe_cluster-Observed cluster co = record {
    at = λ w o. record { db = o.db; last = o.last; machines = o.machines };
  }

  put_seen :
      (cluster addr : Bytes) (obs : MachineObserved) (w : World)
      → Observed w
      → (obs.healthy ≡ false) ⊎ Confirmed w.calls addr
      → Observed (observe_machine cluster addr obs w).1
  unfolding set_machine_observed
  put_seen cluster addr obs w o c = record {
    db = o.db;
    last = o.last;
    machines = λ k. elim (Bool-cases (k == ckey cluster addr)) [
      | inl hit ↦ inr (record {
        cluster = cluster;
        addr = addr;
        obs = obs;
        key = (eq_iff k (ckey cluster addr)).0 hit;
        is = rw hit refl;
        health = c;
      })
      | inr miss ↦ rw miss (o.machines k)
    ];
  }

  refresh_machine-Told :
      (cluster : Bytes) (nodes : List NodeInfo) (m : Machine)
      → Leads (Told nodes) (Told nodes) (refresh_machine cluster nodes m)
  unfolding refresh_machine version
  refresh_machine-Told cluster nodes m =
      Leads-After (λ tv. Seen (ok tv)) (λ e. Seen (err e)) (version m.talos_endpoint) _ _
        (λ w t. seen (remote.version m.talos_endpoint w.env).0 w t)
        (λ e. record { at = put (err e) }) (λ tv. record { at = put (ok tv) })
    where
      addr : Bytes
      addr = m.talos_endpoint

      Seen : Result Bytes → World → Type 0
      Seen x w =
          Told nodes w
          × (((with_answer (observed_node (node_at nodes addr)) x).healthy ≡ false)
              ⊎ Confirmed w.calls addr)

      answered : (x : Result Bytes) → World → World
      answered x w = record w {
        env = (remote.version addr w.env).1;
        calls = read_version addr x ∷ w.calls;
      }

      have : (x : Result Bytes) (w : World) → Told nodes w → Seen x (answered x w)
      have x w t = (
        (later w (read_version addr x) (remote.version addr w.env).1 t.0, Memᴰ.tail t.1),
        healthy_from nodes addr (node_at nodes addr) x w.calls refl t.1,
      )

      seen :
          (x : Result Bytes) (w : World)
          → Told nodes w
          → After (λ tv. Seen (ok tv)) (λ e. Seen (err e)) x (answered x w)
      seen (ok tv) w t = have (ok tv) w t
      seen (err e) w t = have (err e) w t

      put :
          (x : Result Bytes) (w : World)
          → Seen x w
          → Told nodes
              (observe_machine cluster addr
                (with_answer (observed_node (node_at nodes addr)) x)
                w).1
      put x w q = (
        put_seen cluster addr (with_answer (observed_node (node_at nodes addr)) x) w q.0.0 q.1,
        q.0.1,
      )

  refresh_machines-Told :
      (cluster : Bytes) (nodes : List NodeInfo) (ms : List Machine)
      → Leads (Told nodes) (Told nodes) (refresh_machines cluster nodes ms)
  unfolding refresh_machines
  refresh_machines-Told cluster nodes [] = Leads-return (λ w t. t) tt
  refresh_machines-Told cluster nodes (m ∷ ms) =
      Leads-attempt (refresh_machine cluster nodes m) raise _ (refresh_machine-Told cluster nodes m)
        (Leads-raise (λ w t. t)) (λ _. refresh_machines-Told cluster nodes ms)

  list_machines-Told :
      (cluster : Bytes) (nodes : List NodeInfo)
      → Leads (Told nodes) (Told nodes) (in_store (list_machines cluster []))
  unfolding list_machines
  list_machines-Told cluster nodes = record {
    at = λ w t. (record { db = t.0.db; last = t.0.last; machines = t.0.machines }, t.1);
  }

  -- From the list of nodes on.
  list_nodes-Told :
      {A : Type 0} (h : Error → Exec World A) (f : List NodeInfo → Exec World A)
      → ((e : Error) → Leads Observed Observed (h e))
      → ((nodes : List NodeInfo) → Leads (Told nodes) Observed (f nodes))
      → Leads Observed Observed (attempt list_nodes h f)
  unfolding list_nodes
  list_nodes-Told h f kh kf =
      Leads-After (λ nodes. Told nodes) (λ e. Observed) list_nodes h f
        (λ w o. told (remote.list_nodes w.env).0 w o) kh kf
    where
      told :
          (x : Result (List NodeInfo)) (w : World)
          → Observed w
          → After
              (λ nodes. Told nodes)
              (λ e. Observed)
              x
              (record w { env = (remote.list_nodes w.env).1; calls = listed_nodes x ∷ w.calls })
      told (ok nodes) w o =
          (later w (listed_nodes (ok nodes)) (remote.list_nodes w.env).1 o, Memᴰ.head refl)
      told (err e) w o = later w (listed_nodes (err e)) (remote.list_nodes w.env).1 o

  Leads-Told :
      {A : Type 0} (nodes : List NodeInfo) (m : Exec World A)
      → Leads Observed Observed m
      → Leads (Told nodes) Observed m
  Leads-Told nodes m h = record { at = λ w t. h.at w t.0 }

  refresh_cluster-Observed : (cl : Cluster) → Leads Observed Observed (refresh_cluster cl)
  unfolding refresh_cluster
  refresh_cluster-Observed cl =
      Leads-attempt (local (remote.build_clients cl.name)) _ _
        (local-Observed (remote.build_clients cl.name)) (λ e. raised _)
        λ _.
          list_nodes-Told _ _
            (λ e.
              Leads-attempt (observe_cluster cl.name unobserved) raise _
                (observe_cluster-Observed cl.name unobserved) raised
                (λ _. raised (wrap "list nodes: %w" [] e)))
            λ nodes.
              Leads-attempt (in_store (list_machines cl.name [])) _ _
                (list_machines-Told cl.name nodes)
                (λ e. Leads-Told nodes _ (raised (wrap "list machines: %w" [] e)))
                λ ms.
                  Leads-attempt (refresh_machines cl.name nodes ms) raise _
                    (refresh_machines-Told cl.name nodes ms) (λ e. Leads-Told nodes _ (raised e))
                    (λ _.
                      Leads-Told nodes _
                        (observe_cluster-Observed cl.name (observed_cluster unobserved nodes)))
    where
      raised : {A : Type 0} (e : Error) → Leads Observed Observed (raise {A = A} e)
      raised e = Leads-raise (λ w o. o) e

  refresh_clusters-Observed : (cls : List Cluster) → Leads Observed Observed (refresh_clusters cls)
  unfolding refresh_clusters
  refresh_clusters-Observed [] = Leads-return (λ w o. o) []
  refresh_clusters-Observed (cl ∷ cls) =
      Leads-attempt (refresh_cluster cl) _ _ (refresh_cluster-Observed cl)
        (λ e.
          Leads-attempt (refresh_clusters cls) raise _ (refresh_clusters-Observed cls)
            (Leads-raise (λ w o. o)) (λ es. Leads-return (λ w o. o) _))
        (λ _. refresh_clusters-Observed cls)

  once-Observed : Leads Observed Observed once
  unfolding once list_clusters
  once-Observed =
      Leads-attempt (in_store list_clusters) _ _
        (record { at = λ w o. record { db = o.db; last = o.last; machines = o.machines } })
        (λ e. Leads-raise (λ w o. o) _) refresh_clusters-Observed

-- A pass of the refresher changes nothing that is persisted, neither the database nor lastRev, and
-- every observed state of a machine is then as before, or is written as not healthy, or the calls
-- that the pass made have a list of nodes in which the node of its address is ready and an answer
-- of its Talos API with a version, whatever fails on the way.
pub healthy_confirmed :
    ⦃bolt : Bolt⦄
    → ⦃remote : Remote⦄ → (w : World) → Observed w.store (once (record w { calls = [] })).1
healthy_confirmed w =
    (once-Observed w.store).at (record w { calls = [] })
      (record { db = refl; last = refl; machines = λ k. inl refl })
