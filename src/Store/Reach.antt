-- ===== src/Store/Reach.antt =====
-- Every history of calls of internal/store/store.go, from a new file.
use medea.Prelude.{
  ℕ, ◌+◌, ◌≤◌, ◌<◌, ◌^◌, Bytes, Option, none, some, List, [], ◌∷◌, ◌≡◌, refl, arith, length, inl,
  inr, sym, subst, ◌⊎◌, ◌∙◌,
}
use medea.Error.{Result, ok}
use medea.Proto.{
  Cluster, ClusterObserved, NodePool, Machine, MachineObserved, Host, MachineRollout,
  ClusterRollout, ClusterBootstrap, Rollout,
}
use medea.Bolt.{Bolt}
use medea.Store.State.{
  EventKind, Store, ckey, open_new, reopen, kind_cluster, kind_node_pool, kind_machine, kind_host,
  kind_machine_rollout, kind_cluster_rollout, kind_rollout_job, kind_cluster_bootstrap,
  cluster_message, node_pool_message, machine_message, host_message, machine_rollout_message,
  cluster_rollout_message, cluster_bootstrap_message, rollout_message, desired_machines,
  desired_hosts,
}
use medea.Store.Write.{
  put_cas, delete_body, put_cluster_desired, put_node_pool_desired, put_machine_desired,
  put_host_desired, put_machine_rollout, put_cluster_rollout, put_cluster_bootstrap,
  put_rollout_job, set_cluster_observed, set_machine_observed,
}
use medea.Store.Delete.{
  delete_host, delete_machine, delete_cluster, delete_cluster_body, forget_cluster, forget_machine,
}
use medea.Store.Watch.{watch}
use medea.Store.Slots.{
  SlotName, clusters, nodepools, machines, hosts, cluster_rollouts, machine_rollouts, jobs,
  bootstraps, cell, Stored, message, key_of, slot, Change,
}
use medea.Store.Cas.{Admits, put_cas_ok}
use medea.Store.Bodies.{Sound, Body-delete, Body-delete_cluster}
use medea.Store.Revisions.{
  IsValid, Steps, Steps-IsValid, bump_small, cas-Steps, lww-Steps, delete-Steps,
}

-- A call that changes the store, with the arguments of its caller, or a restart of the process.
pub data Op : Type 0 where
  put_cluster : Cluster → ℕ → Op
  put_pool : NodePool → ℕ → Op
  put_machine : Machine → ℕ → Op
  put_host : Host → ℕ → Op
  remove_host : Bytes → Bytes → Op
  remove_machine : Bytes → Bytes → Op
  remove_cluster : Bytes → Op
  record_machine_rollout : MachineRollout → Op
  record_cluster_rollout : ClusterRollout → Op
  record_bootstrap : ClusterBootstrap → Op
  record_job : Rollout → Op
  observe_cluster : Bytes → Option ClusterObserved → Op
  observe_machine : Bytes → Bytes → Option MachineObserved → Op
  subscribe : ℕ → Op
  restart : Op

module _ ⦃bolt : Bolt⦄ where
  unfoldable pub apply : Op → Store → Store
  apply (put_cluster c e) s = (put_cluster_desired c e s).1
  apply (put_pool np e) s = (put_node_pool_desired np e s).1
  apply (put_machine m e) s = (put_machine_desired m e s).1
  apply (put_host h e) s = (put_host_desired h e s).1
  apply (remove_host c m) s = (delete_host c m s).1
  apply (remove_machine c a) s = (delete_machine c a s).1
  apply (remove_cluster c) s = (delete_cluster c s).1
  apply (record_machine_rollout r) s = (put_machine_rollout r s).1
  apply (record_cluster_rollout r) s = (put_cluster_rollout r s).1
  apply (record_bootstrap r) s = (put_cluster_bootstrap r s).1
  apply (record_job r) s = (put_rollout_job r s).1
  apply (observe_cluster c o) s = set_cluster_observed c o s
  apply (observe_machine c a o) s = set_machine_observed c a o s
  apply (subscribe since) s = (watch since s).1
  apply restart s = reopen s

  -- A history of calls from a store, the latest first.
  unfoldable pub run : Store → List Op → Store
  run s [] = s
  run s (op ∷ ops) = apply op (run s ops)

  pub apply-Steps : (op : Op) (s : Store) → Steps s (apply op s)
  unfolding apply put_cluster_desired put_node_pool_desired put_machine_desired put_host_desired
      delete_host delete_machine delete_cluster put_machine_rollout put_cluster_rollout
      put_cluster_bootstrap put_rollout_job set_cluster_observed set_machine_observed watch reopen
      forget_machine forget_cluster
  apply-Steps (put_cluster c e) s = cas-Steps _ _ kind_cluster _ s clusters c.name e c refl
  apply-Steps (put_pool np e) s =
      cas-Steps _ _ kind_node_pool _ s nodepools (ckey np.cluster np.name) e np refl
  apply-Steps (put_machine m e) s =
      cas-Steps _ _ kind_machine _ s machines (ckey m.cluster m.talos_endpoint) e m refl
  apply-Steps (put_host h e) s = cas-Steps _ _ kind_host _ s hosts (ckey h.cluster h.mac) e h refl
  apply-Steps (remove_host c m) s =
      delete-Steps _ _ kind_host _ s (delete_body desired_hosts (ckey c m)) (λ t. t)
        (Body-delete hosts (ckey c m)) (λ t. (refl, refl))
  apply-Steps (remove_machine c a) s =
      delete-Steps _ _ kind_machine _ s (delete_body desired_machines (ckey c a))
        (forget_machine (ckey c a)) (Body-delete machines (ckey c a)) (λ t. (refl, refl))
  apply-Steps (remove_cluster c) s =
      delete-Steps _ _ kind_cluster _ s (delete_cluster_body c) (forget_cluster c)
        (Body-delete_cluster c) (λ t. (refl, refl))
  apply-Steps (record_machine_rollout r) s =
      lww-Steps _ _ kind_machine_rollout _ s machine_rollouts (ckey r.cluster r.addr) r refl
  apply-Steps (record_cluster_rollout r) s =
      lww-Steps _ _ kind_cluster_rollout _ s cluster_rollouts r.cluster r refl
  apply-Steps (record_bootstrap r) s =
      lww-Steps _ _ kind_cluster_bootstrap _ s bootstraps r.cluster r refl
  apply-Steps (record_job r) s =
      lww-Steps _ _ kind_rollout_job _ s jobs (ckey r.cluster r.pool) r refl
  apply-Steps (observe_cluster c o) s = record { moves = inl refl; last = λ h. h }
  apply-Steps (observe_machine c a o) s = record { moves = inl refl; last = λ h. h }
  apply-Steps (subscribe since) s = record { moves = inl refl; last = λ h. h }
  apply-Steps restart s = record { moves = inl refl; last = λ _. refl }

  open_new-IsValid : IsValid open_new
  unfolding open_new
  open_new-IsValid = record { last = refl; cells = empty }
    where
      empty : (n : SlotName) (k : Bytes) → Sound n k 0 (cell n k (unfold open_new in open_new.db))
      empty clusters k = rw (bolt.get-empty k) tt
      empty _ k = rw (bolt.get-empty k) tt

  pub run-IsValid :
      (s : Store) (ops : List Op)
      → s.db.revision + length ops < 2 ^ 64
      → IsValid s
      → IsValid (run s ops)
        × ((run s ops).db.revision ≤ s.db.revision + length ops)
        × (s.db.revision ≤ (run s ops).db.revision)
  unfolding run
  run-IsValid s [] h v = (v, omega arith, omega arith)
  run-IsValid s (op ∷ ops) h v =
      let (w, le, ge) = run-IsValid s ops (omega arith) v in
      let t = run s ops in
      let (w', up, grow) = Steps-IsValid t (apply op t) (apply-Steps op t) (omega arith) w in
      (w', omega arith, omega arith)

  -- After fewer than 2^64 store calls, with any arguments, and restarts, from a new file: every
  -- stored record decodes, stands under its own key, has a revision above 0 that the counter has
  -- reached, lastRev is the counter, and the counter is at most the number of calls.
  pub reachable-IsValid :
      (ops : List Op)
      → length ops < 2 ^ 64
      → IsValid (run open_new ops) × ((run open_new ops).db.revision ≤ length ops)
  reachable-IsValid ops h =
      let (v, le, _) = run-IsValid open_new ops (unfold open_new in omega arith) open_new-IsValid in
      (v, unfold open_new in omega arith)

  -- What a cell can be after more calls: what it was, gone, or of a newer revision.
  abbrev Since :
      (n : SlotName) → ℕ → Option (Result (Stored n)) → Option (Result (Stored n)) → Type 0
  Since n rev before now =
      (now ≡ before)
      ⊎ (now ≡ none)
      ⊎ ((v : Stored n) × (now ≡ some (ok v)) × (rev < (message n).revision v))

  Since-Change :
      (n : SlotName) (k : Bytes) (rev r : ℕ) (c c1 c2 : Option (Result (Stored n)))
      → Since n rev c c1
      → Change n k c1 c2 r
      → rev < r
      → Since n rev c c2
  Since-Change n k rev r c c1 c2 h (inl e) lt = subst (Since n rev c) (sym e) h
  Since-Change n k rev r c c1 c2 h (inr (inl e)) lt = inr (inl e)
  Since-Change n k rev r c c1 c2 h (inr (inr (v, e, q, _))) lt = inr (inr (v, e, omega arith))

  run-Since :
      (s : Store) (ops : List Op) (n : SlotName) (k : Bytes)
      → s.db.revision + length ops < 2 ^ 64
      → IsValid s
      → Since n s.db.revision (cell n k s.db) (cell n k (run s ops).db)
  unfolding run
  run-Since s [] n k h v = inl refl
  run-Since s (op ∷ ops) n k h v =
      let t = run s ops in
      let ih = run-Since s ops n k (omega arith) v in
      let (w, le, ge) = run-IsValid s ops (omega arith) v in
      elim (apply-Steps op t).moves [
        | inl e ↦ subst (λ d. Since n s.db.revision (cell n k s.db) (cell n k d)) (sym e) ih
        | inr ev ↦
            Since-Change n k s.db.revision (apply op t).db.revision (cell n k s.db) (cell n k t.db)
              (cell n k (apply op t).db) ih (ev.changes n k)
              (omega (arith, ev.next ∙ bump_small t.db.revision (omega arith)))
      ]

  Since-Admits :
      (n : SlotName) (key : Bytes) (rev : ℕ) (v : Stored n) (now : Option (Result (Stored n)))
      → Since n rev (some (ok v)) now
      → (0 < (message n).revision v) × ((message n).revision v ≤ rev) × (key_of n v ≡ key)
      → Admits ⦃m = message n⦄ now ((message n).revision v)
      → now ≡ some (ok v)
  Since-Admits n key rev v now (inl e) b a = e
  Since-Admits n key rev v now (inr (inl e)) b a =
      absurd (none_refused (subst (λ c. Admits ⦃m = message n⦄ c ((message n).revision v)) e a))
    where
      none_refused : (message n).revision v ≡ 0 → ⊥
      none_refused z = omega arith
  Since-Admits n key rev v now (inr (inr (w, e, q))) b a =
      absurd (newer_refused (subst (λ c. Admits ⦃m = message n⦄ c ((message n).revision v)) e a))
    where
      newer_refused : (message n).revision w ≡ (message n).revision v → ⊥
      newer_refused z = omega arith

  -- If a compare-and-swap put goes through with the revision of a record that was read from a
  -- valid store, then after whatever store calls and restarts came between the stored record is
  -- still exactly what was read, as long as the counter does not reach 2^64.
  pub no_lost_update :
      (s : Store) (ops : List Op) (n : SlotName) (key : Bytes) (v w : Stored n) (kind : EventKind)
      (ekey : Bytes) {r : ℕ}
      → IsValid s
      → s.db.revision + length ops < 2 ^ 64
      → cell n key s.db ≡ some (ok v)
      → (put_cas ⦃m = message n⦄ (slot n) key ((message n).revision v) w kind ekey (run s ops)).0
        ≡ ok r
      → cell n key (run s ops).db ≡ some (ok v)
  no_lost_update s ops n key v w kind ekey valid room was h =
      let t = run s ops in
      Since-Admits n key s.db.revision v (cell n key t.db)
        (subst (λ c. Since n s.db.revision c (cell n key t.db)) was
          (run-Since s ops n key room valid))
        (subst (Sound n key s.db.revision) was (valid.cells n key))
        (put_cas_ok ⦃m = message n⦄ (slot n) key ((message n).revision v) w kind ekey t h).0
