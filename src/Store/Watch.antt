-- ===== src/Store/Watch.antt =====
-- Watch and snapshotEvents of internal/store/watch.go.
use medea.Prelude.{
  ℕ, ◌+◌, Bytes, Bool, true, false, Option, none, some, List, [], ◌∷◌, ◌++◌, if◌then◌else◌, ltb,
  leb, nat_eq, ◌&&◌,
}
use medea.Error.{map_result, Result, ok, err}
use medea.Proto.{Cluster, NodePool, Machine, Host, MachineRollout, ClusterRollout, Rollout}
use medea.Bolt.{Bolt}
use medea.Store.State.{
  EventKind, kind_cluster, kind_node_pool, kind_machine, kind_host, kind_machine_rollout,
  kind_cluster_rollout, kind_rollout_job, Event, Subscriber, event_key, Store, Db,
}

-- `add` of snapshotEvents: the events of one record.
unfoldable pub snapshot_event : ℕ → ℕ → EventKind → Bytes → ℕ → List Event
snapshot_event since upto kind key rev =
    if ltb since rev && leb rev upto
    then record { kind = kind; key = key; revision = rev } ∷ []
    else []

-- One ForEach of snapshotEvents.
unfoldable pub snapshot_bucket :
    {V : Type 0} → (V → List Event) → List (Bytes × Result V) → Result (List Event)
unfolding map_result
snapshot_bucket add [] = ok []
snapshot_bucket add ((k, err e) ∷ l) = err e
snapshot_bucket add ((k, ok v) ∷ l) = map_result (λ evs. add v ++ evs) (snapshot_bucket add l)

-- Both lists of events, or the first error.
unfoldable pub join : Result (List Event) → Result (List Event) → Result (List Event)
unfolding map_result
join (err e) r = err e
join (ok evs) r = map_result (λ more. evs ++ more) r

-- sort.Slice by revision.
unfoldable pub insert_event : Event → List Event → List Event
insert_event ev [] = ev ∷ []
insert_event ev (x ∷ xs) =
    let rest = insert_event ev xs in if ltb x.revision ev.revision then x ∷ rest else ev ∷ x ∷ xs

unfoldable pub sort_events : List Event → List Event
unfolding insert_event
sort_events [] = []
sort_events (ev ∷ evs) = insert_event ev (sort_events evs)

module _ ⦃bolt : Bolt⦄ where
  unfoldable pub snapshot_events : ℕ → ℕ → Db → Result (List Event)
  unfolding snapshot_bucket snapshot_event join map_result sort_events
  snapshot_events since upto d = map_result sort_events (
      join
        (snapshot_bucket (λ (c : Cluster). snapshot_event since upto kind_cluster c.name c.revision)
          (bolt.entries d.desired.clusters))
        (join
          (snapshot_bucket
            (λ (np : NodePool).
              snapshot_event since upto kind_node_pool (event_key np.cluster np.name) np.revision)
            (bolt.entries d.desired.nodepools))
          (join
            (snapshot_bucket
              (λ (m : Machine).
                snapshot_event since upto kind_machine (event_key m.cluster m.talos_endpoint)
                  m.revision)
              (bolt.entries d.desired.machines))
            (join
              (snapshot_bucket
                (λ (h : Host).
                  snapshot_event since upto kind_host (event_key h.cluster h.mac) h.revision)
                (bolt.entries d.desired.hosts))
              (join
                (snapshot_bucket
                  (λ (r : MachineRollout).
                    snapshot_event since upto kind_machine_rollout (event_key r.cluster r.addr)
                      r.revision)
                  (bolt.entries d.rollouts.machines))
                (join
                  (snapshot_bucket
                    (λ (r : ClusterRollout).
                      snapshot_event since upto kind_cluster_rollout r.cluster r.revision)
                    (bolt.entries d.rollouts.clusters))
                  (snapshot_bucket
                    (λ (r : Rollout).
                      snapshot_event since upto kind_rollout_job (event_key r.cluster r.pool)
                        r.revision)
                    (bolt.entries d.rollouts.jobs))))))))

  -- A call of Watch: the subscriber's number, and the revision that it starts from.
  pub record Watcher : Type 0 where
    pub id : ℕ
    pub since : ℕ
    pub snapshot_rev : ℕ
    pub started : Bool
    pub out : List Event

  -- Watch up to its `go` statement: the subscriber is registered at `lastRev`.
  unfoldable pub watch : ℕ → Store → Watcher × Store
  watch since s = (
    record { id = s.next_sub; since = since; snapshot_rev = s.last_rev; started = false; out = [] },
    record s { subs = record { id = s.next_sub; buffer = [] } ∷ s.subs; next_sub = s.next_sub + 1 },
  )

  -- The goroutine's first step: what the snapshot holds goes to `out`, nothing on an error.
  unfoldable pub replay_snapshot : Watcher → Store → Watcher
  unfolding snapshot_events
  replay_snapshot w s = elim (snapshot_events w.since w.snapshot_rev s.db) [
    | ok evs ↦ record w { started = true; out = w.out ++ evs }
    | err e ↦ record w { started = true }
  ]

  -- Takes the oldest event from the buffer of the subscriber.
  unfoldable pub take_event : ℕ → List Subscriber → Option Event × List Subscriber
  take_event id [] = (none, [])
  take_event id (sub ∷ subs) =
      if nat_eq sub.id id
      then elim sub.buffer [
        | [] ↦ (none, sub ∷ subs)
        | ev ∷ evs ↦ (some ev, record sub { buffer = evs } ∷ subs)
      ]
      else (let (o, rest) = take_event id subs in (o, sub ∷ rest))

  -- A turn of the goroutine's loop: an event that the snapshot covers is dropped.
  unfoldable pub forward : Watcher → Event → Watcher
  forward w ev = if leb ev.revision w.snapshot_rev then w else record w { out = w.out ++ ev ∷ [] }

  unfoldable pub receive : Watcher → Store → Watcher × Store
  unfolding take_event forward
  receive w s =
      let (o, subs) = take_event w.id s.subs in
      elim o [ none ↦ (w, s) | some ev ↦ (forward w ev, record s { subs = subs }) ]

  -- `delete(s.subs, id)`, when the context ends.
  unfoldable pub remove_subscriber : ℕ → List Subscriber → List Subscriber
  remove_subscriber id [] = []
  remove_subscriber id (sub ∷ subs) =
      let rest = remove_subscriber id subs in if nat_eq sub.id id then rest else sub ∷ rest

  unfoldable pub unwatch : Watcher → Store → Store
  unfolding remove_subscriber
  unwatch w s = record s { subs = remove_subscriber w.id s.subs }
