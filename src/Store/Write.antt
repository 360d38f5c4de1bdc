-- ===== src/Store/Write.antt =====
-- The writes of internal/store/store.go, and publish of watch.go.
use medea.Prelude.{
  ℕ, ◌+◌, Bytes, Option, none, some, [], ◌∷◌, ◌++◌, map, ltb, nat_eq, length, if◌then◌else◌,
  is_empty, ◌||◌, ◌==◌,
}
use medea.Error.{
  map_result, ◌and_then◌, errorf, conflict, Result, ok, err, Exec, ◌>>◌, return, raise,
}
use medea.Proto.{
  Cluster, ClusterObserved, NodePool, Machine, MachineObserved, Host, MachineRollout,
  ClusterRollout, ClusterBootstrap, Rollout,
}
use medea.Bolt.{Bolt}
use medea.Store.State.{
  EventKind, kind_cluster, kind_node_pool, kind_machine, kind_host, kind_machine_rollout,
  kind_cluster_rollout, kind_rollout_job, kind_cluster_bootstrap, Event, Subscriber, sub_buffer,
  u64, ckey, event_key, Db, Store, Slot, Message, desired_clusters, desired_nodepools,
  desired_machines, desired_hosts, rollout_clusters, rollout_machines, rollout_jobs,
  rollout_bootstrap, cluster_message, node_pool_message, machine_message, host_message,
  machine_rollout_message, cluster_rollout_message, cluster_bootstrap_message, rollout_message,
}

-- A send that drops the event on a full buffer.
unfoldable pub offer : Event → Subscriber → Subscriber
offer ev sub =
    if ltb (length sub.buffer) sub_buffer
    then record sub { buffer = sub.buffer ++ ev ∷ [] }
    else sub

-- The revision that the next write stamps.
unfoldable pub bump : ℕ → ℕ
bump r = u64 (r + 1)

-- The test of putCAS on the cell that the key has now.
unfoldable pub cas_check :
    {V : Type 0} → ⦃m : Message V⦄ → Option (Result V) → ℕ → Result (Unit {0})
cas_check none expected = if nat_eq expected 0 then ok tt else err conflict
cas_check (some (err e)) expected = err e
cas_check ⦃m⦄ (some (ok cur)) expected =
    if nat_eq (m.revision cur) expected then ok tt else err conflict

module _ ⦃bolt : Bolt⦄ where
  unfoldable pub publish : Event → Store → Store
  unfolding offer
  publish ev s = record s { subs = map (offer ev) s.subs }

  -- What follows a transaction that committed: lastRev, and the event.
  unfoldable pub committed : Db → EventKind → Bytes → Store → Store
  unfolding publish
  committed d kind key s =
      publish (record { kind = kind; key = key; revision = d.revision })
        (record s { db = d; last_rev = d.revision })

  -- The end of a transaction: a failure rolls all of it back.
  unfoldable pub settle : Result Db → EventKind → Bytes → Exec Store ℕ
  unfolding committed
  settle (err e) kind key s = (err e, s)
  settle (ok d) kind key s = (ok d.revision, committed d kind key s)

  abbrev pub bumped : Db → Db
  bumped d = record d { revision = bump d.revision }

  -- A transaction that bumps the revision and then writes.
  unfoldable pub update : (Db → Result Db) → EventKind → Bytes → Exec Store ℕ
  unfolding bump settle
  update body kind key s = settle (body (bumped s.db)) kind key s

  -- The transactions' bodies.
  unfoldable pub put_body : {V : Type 0} → ⦃m : Message V⦄ → Slot V → Bytes → V → Db → Result Db
  unfolding map_result
  put_body ⦃m⦄ slot key msg d =
      map_result (λ b. slot.replace b d) (bolt.put (slot.bucket d) key (m.stamp d.revision msg))

  unfoldable pub cas_body : {V : Type 0} → ⦃m : Message V⦄ → Slot V → Bytes → ℕ → V → Db → Result Db
  unfolding cas_check put_body ◌and_then◌
  cas_body slot key expected msg d =
      cas_check (bolt.get (slot.bucket d) key) expected and_then λ _. put_body slot key msg d

  unfoldable pub delete_body : {V : Type 0} → Slot V → Bytes → Db → Result Db
  unfolding map_result
  delete_body slot key d = map_result (λ b. slot.replace b d) (bolt.delete (slot.bucket d) key)

  unfoldable pub put_cas :
      {V : Type 0} → ⦃m : Message V⦄ → Slot V → Bytes → ℕ → V → EventKind → Bytes → Exec Store ℕ
  unfolding update cas_body
  put_cas slot key expected msg = update (cas_body slot key expected msg)

  unfoldable pub put_lww :
      {V : Type 0} → ⦃m : Message V⦄ → Slot V → Bytes → V → EventKind → Bytes → Exec Store Unit
  unfolding update put_body
  put_lww slot key msg kind ekey = do update (put_body slot key msg) kind ekey; return tt

  unfoldable pub put_cluster_desired : Cluster → ℕ → Exec Store ℕ
  unfolding put_cas
  put_cluster_desired c expected =
      if is_empty c.name
      then raise (errorf "store: cluster name required" [])
      else put_cas desired_clusters c.name expected c kind_cluster c.name

  unfoldable pub put_node_pool_desired : NodePool → ℕ → Exec Store ℕ
  unfolding put_cas
  put_node_pool_desired np expected =
      if is_empty np.cluster || is_empty np.name
      then raise (errorf "store: nodepool cluster and name required" [])
      else put_cas desired_nodepools (ckey np.cluster np.name) expected np kind_node_pool
          (event_key np.cluster np.name)

  unfoldable pub put_machine_desired : Machine → ℕ → Exec Store ℕ
  unfolding put_cas
  put_machine_desired m expected =
      if is_empty m.cluster || is_empty m.talos_endpoint
      then raise (errorf "store: machine cluster and talos_endpoint required" [])
      else put_cas desired_machines (ckey m.cluster m.talos_endpoint) expected m kind_machine
          (event_key m.cluster m.talos_endpoint)

  unfoldable pub put_host_desired : Host → ℕ → Exec Store ℕ
  unfolding put_cas
  put_host_desired h expected =
      if is_empty h.cluster || is_empty h.mac
      then raise (errorf "store: host cluster and mac required" [])
      else put_cas desired_hosts (ckey h.cluster h.mac) expected h kind_host
          (event_key h.cluster h.mac)

  unfoldable pub put_machine_rollout : MachineRollout → Exec Store Unit
  unfolding put_lww
  put_machine_rollout r =
      if is_empty r.cluster || is_empty r.addr
      then raise (errorf "store: machine rollout cluster and addr required" [])
      else put_lww rollout_machines (ckey r.cluster r.addr) r kind_machine_rollout
          (event_key r.cluster r.addr)

  unfoldable pub put_cluster_rollout : ClusterRollout → Exec Store Unit
  unfolding put_lww
  put_cluster_rollout r =
      if is_empty r.cluster
      then raise (errorf "store: cluster rollout cluster required" [])
      else put_lww rollout_clusters r.cluster r kind_cluster_rollout r.cluster

  unfoldable pub put_cluster_bootstrap : ClusterBootstrap → Exec Store Unit
  unfolding put_lww
  put_cluster_bootstrap r =
      if is_empty r.cluster
      then raise (errorf "store: cluster bootstrap cluster required" [])
      else put_lww rollout_bootstrap r.cluster r kind_cluster_bootstrap r.cluster

  unfoldable pub put_rollout_job : Rollout → Exec Store Unit
  unfolding put_lww
  put_rollout_job r =
      if is_empty r.cluster
      then raise (errorf "store: rollout cluster required" [])
      else put_lww rollout_jobs (ckey r.cluster r.pool) r kind_rollout_job
          (event_key r.cluster r.pool)

  unfoldable pub set_cluster_observed : Bytes → Option ClusterObserved → Store → Store
  set_cluster_observed cluster o s = record s {
    obs_cluster = λ k. if k == cluster then o else s.obs_cluster k;
  }

  unfoldable pub set_machine_observed : Bytes → Bytes → Option MachineObserved → Store → Store
  set_machine_observed cluster addr o s = record s {
    obs_machine = λ k. if k == ckey cluster addr then o else s.obs_machine k;
  }
