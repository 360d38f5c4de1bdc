-- ===== src/Store/Spec.antt =====
-- internal/store/store.go as eight tables, and each of its calls as one change of them.
use medea.Prelude.{
  Bool-cases, ℕ, Bytes, Bool, true, false, Option, none, some, List, [], ◌∷◌, ◌≡◌, refl, ap, ◌∙◌,
  subst, ◌==◌, ◌&&◌, ◌||◌, inl, inr, is_empty, if◌then◌else◌,
}
use medea.Error.{Error, raise, Result, ok, err, ◌>>◌}
use medea.Bolt.{Bolt}
use medea.Store.State.{
  EventKind, Db, Store, ckey, event_key, kind_cluster, kind_node_pool, kind_machine, kind_host,
  kind_machine_rollout, kind_cluster_rollout, kind_rollout_job, kind_cluster_bootstrap, reopen,
}
use medea.Store.Write.{
  bumped, settle, committed, update, delete_body, put_cluster_desired, put_node_pool_desired,
  put_machine_desired, put_host_desired, put_machine_rollout, put_cluster_rollout,
  put_cluster_bootstrap, put_rollout_job, set_cluster_observed, set_machine_observed,
}
use medea.Store.Delete.{
  delete_host, delete_machine, delete_cluster, delete_cluster_body, forget_machine,
}
use medea.Store.Watch.{watch}
use medea.Store.Slots.{
  SlotName, clusters, nodepools, machines, hosts, cluster_rollouts, machine_rollouts, jobs,
  bootstraps, Stored, message, key_of, slot, cell, same_slot, cell-delete,
}
use medea.Store.Teardown.{of_cluster, cell-bumped, delete_cluster_exact}
use medea.Store.Frames.{Puts, guarded_cas-Puts, guarded_lww-Puts}
use medea.Store.Reach.{
  Op, put_cluster, put_pool, put_machine, put_host, remove_host, remove_machine, remove_cluster,
  record_machine_rollout, record_cluster_rollout, record_bootstrap, record_job, observe_cluster,
  observe_machine, subscribe, restart, apply, run,
}

-- What a table has under a key: a record, a failed decoding, or nothing.
abbrev pub Tables : Type 0
Tables = (n : SlotName) → Bytes → Option (Result (Stored n))

-- What a call asks of the tables.
pub data Intent : Type 0 where
  keep : Intent
  put : (n : SlotName) → Stored n → Intent
  erase : SlotName → Bytes → Intent
  erase_cluster : Bytes → Intent

unfoldable pub intent : Op → Intent
intent (put_cluster c e) = put clusters c
intent (put_pool np e) = put nodepools np
intent (put_machine m e) = put machines m
intent (put_host h e) = put hosts h
intent (remove_host c m) = erase hosts (ckey c m)
intent (remove_machine c a) = erase machines (ckey c a)
intent (remove_cluster c) = erase_cluster c
intent (record_machine_rollout r) = put machine_rollouts r
intent (record_cluster_rollout r) = put cluster_rollouts r
intent (record_bootstrap b) = put bootstraps b
intent (record_job j) = put jobs j
intent (observe_cluster c o) = keep
intent (observe_machine c a o) = keep
intent (subscribe since) = keep
intent restart = keep

same_slot-eq : (n m : SlotName) → same_slot n m ≡ true → n ≡ m
same_slot-eq clusters clusters h = refl
same_slot-eq nodepools nodepools h = refl
same_slot-eq machines machines h = refl
same_slot-eq hosts hosts h = refl
same_slot-eq cluster_rollouts cluster_rollouts h = refl
same_slot-eq machine_rollouts machine_rollouts h = refl
same_slot-eq jobs jobs h = refl
same_slot-eq bootstraps bootstraps h = refl
same_slot-eq _ _ h = cc

module _ ⦃bolt : Bolt⦄ where
  -- A step of the specification: it does all that is asked, or nothing. A record is written under its
  -- own key, with some revision.
  pub data Step (t t' : Tables) : Intent → Type 0 where
    unchanged : {i : Intent} → ((n : SlotName) (k : Bytes) → t' n k ≡ t n k) → Step t t' i
    wrote :
        (n : SlotName) (v : Stored n) (r : ℕ)
        → ((k : Bytes)
            → t' n k ≡ (if key_of n v == k then some (ok ((message n).stamp r v)) else t n k))
        → ((m : SlotName) (k : Bytes) → same_slot n m ≡ false → t' m k ≡ t m k)
        → Step t t' (put n v)
    erased :
        (n : SlotName) (key : Bytes)
        → ((m : SlotName) (k : Bytes)
            → t' m k ≡ (if same_slot n m && key == k then none else t m k))
        → Step t t' (erase n key)
    cleared :
        (c : Bytes)
        → ((m : SlotName) (k : Bytes) → t' m k ≡ (if of_cluster m c k then none else t m k))
        → Step t t' (erase_cluster c)

  -- A history of calls, the latest first.
  pub data Trace (t : Tables) : List Op → Tables → Type 0 where
    start : Trace t [] t
    step :
        {ops : List Op} {t1 t2 : Tables} (op : Op)
        → Trace t ops t1
        → Step t1 t2 (intent op)
        → Trace t (op ∷ ops) t2

  abbrev pub tables : Store → Tables
  tables s n k = cell n k s.db

  Puts-Step :
      (n : SlotName) (v : Stored n) (s s' : Store)
      → Puts n (key_of n v) v s s'
      → Step (tables s) (tables s') (put n v)
  Puts-Step n v s s' p = elim p.cells [
    | inl kept ↦ unchanged (λ m k. elim (Bool-cases (same_slot n m)) [
      | inl e ↦ subst (λ x. cell x k s'.db ≡ cell x k s.db) (same_slot-eq n m e) (kept k)
      | inr o ↦ p.others m k o
    ])
    | inr (r, w) ↦ wrote n v r w p.others
  ]

  delete-Step :
      (b : Bool) (x : Error) (n : SlotName) (key : Bytes) (kind : EventKind) (ekey : Bytes)
      (g : Store → Store) (s : Store)
      → ((t : Store) → (g t).db ≡ t.db)
      → Step
          (tables s)
          (tables
            ((if b
                then raise x
                else (update (delete_body (slot n) key) kind ekey >> λ t. (ok tt, g t)))
              s).1)
          (erase n key)
  unfolding update settle committed
  delete-Step true x n key kind ekey g s h = unchanged (λ m k. refl)
  delete-Step false x n key kind ekey g s h = on (delete_body (slot n) key (bumped s.db)) refl
    where
      on :
          (o : Result Db)
          → delete_body (slot n) key (bumped s.db) ≡ o
          → Step (tables s) (tables ((settle o kind ekey >> λ t. (ok tt, g t)) s).1) (erase n key)
      on (err e) q = unchanged (λ m k. refl)
      on (ok d) q = erased n key (λ m k.
          ap (cell m k) (h (committed d kind ekey s))
          ∙ (cell-delete n m key k (bumped s.db) q ∙ rw (cell-bumped m k s.db) refl))

  delete_cluster-Step :
      (c : Bytes) (s : Store) → Step (tables s) (tables (delete_cluster c s).1) (erase_cluster c)
  unfolding delete_cluster update settle
  delete_cluster-Step [] s = unchanged (λ m k. refl)
  delete_cluster-Step (b ∷ bs) s = on (delete_cluster_body (b ∷ bs) (bumped s.db)) refl
    where
      on :
          (o : Result Db)
          → delete_cluster_body (b ∷ bs) (bumped s.db) ≡ o
          → Step (tables s) (tables (delete_cluster (b ∷ bs) s).1) (erase_cluster (b ∷ bs))
      on (err e) q = unchanged (λ m k. rw q refl)
      on (ok d) q = cleared (b ∷ bs) (delete_cluster_exact (b ∷ bs) s (rw q refl)).0

  apply-Step : (op : Op) (s : Store) → Step (tables s) (tables (apply op s)) (intent op)
  unfolding apply intent put_cluster_desired put_node_pool_desired put_machine_desired
      put_host_desired delete_host delete_machine put_machine_rollout put_cluster_rollout
      put_cluster_bootstrap put_rollout_job set_cluster_observed set_machine_observed watch reopen
      forget_machine
  apply-Step (put_cluster c e) s =
      Puts-Step clusters c s _
        (guarded_cas-Puts (is_empty c.name) _ clusters c.name c.name c kind_cluster s e)
  apply-Step (put_pool np e) s = Puts-Step nodepools np s _ (
      guarded_cas-Puts (is_empty np.cluster || is_empty np.name) _ nodepools
        (ckey np.cluster np.name) (event_key np.cluster np.name) np kind_node_pool s e)
  apply-Step (put_machine m e) s = Puts-Step machines m s _ (
      guarded_cas-Puts (is_empty m.cluster || is_empty m.talos_endpoint) _ machines
        (ckey m.cluster m.talos_endpoint) (event_key m.cluster m.talos_endpoint) m kind_machine s e)
  apply-Step (put_host h e) s = Puts-Step hosts h s _ (
      guarded_cas-Puts (is_empty h.cluster || is_empty h.mac) _ hosts (ckey h.cluster h.mac)
        (event_key h.cluster h.mac) h kind_host s e)
  apply-Step (remove_host c m) s =
      delete-Step (is_empty c || is_empty m) _ hosts (ckey c m) kind_host (event_key c m) (λ t. t) s
        (λ t. refl)
  apply-Step (remove_machine c a) s =
      delete-Step (is_empty c || is_empty a) _ machines (ckey c a) kind_machine (event_key c a)
        (forget_machine (ckey c a)) s (λ t. refl)
  apply-Step (remove_cluster c) s = delete_cluster-Step c s
  apply-Step (record_machine_rollout r) s = Puts-Step machine_rollouts r s _ (
      guarded_lww-Puts (is_empty r.cluster || is_empty r.addr) _ machine_rollouts
        (ckey r.cluster r.addr) (event_key r.cluster r.addr) r kind_machine_rollout s)
  apply-Step (record_cluster_rollout r) s = Puts-Step cluster_rollouts r s _ (
      guarded_lww-Puts (is_empty r.cluster) _ cluster_rollouts r.cluster r.cluster r
        kind_cluster_rollout s)
  apply-Step (record_bootstrap b) s = Puts-Step bootstraps b s _ (
      guarded_lww-Puts (is_empty b.cluster) _ bootstraps b.cluster b.cluster b
        kind_cluster_bootstrap s)
  apply-Step (record_job j) s = Puts-Step jobs j s _ (
      guarded_lww-Puts (is_empty j.cluster) _ jobs (ckey j.cluster j.pool)
        (event_key j.cluster j.pool) j kind_rollout_job s)
  apply-Step (observe_cluster c o) s = unchanged (λ m k. refl)
  apply-Step (observe_machine c a o) s = unchanged (λ m k. refl)
  apply-Step (subscribe since) s = unchanged (λ m k. refl)
  apply-Step restart s = unchanged (λ m k. refl)

  -- The store refines eight tables of records: over any history of its calls and restarts, from
  -- any state, each call takes the tables by one step of the specification, which does all that
  -- the call asks or leaves every table as it was. A put writes the caller's record under its own
  -- key, stamped with a revision, and nothing else; a deletion clears one key, or all keys of a
  -- cluster; observing, watching and reopening change no table.
  pub run-Trace : (ops : List Op) (s : Store) → Trace (tables s) ops (tables (run s ops))
  unfolding run
  run-Trace [] s = start
  run-Trace (op ∷ ops) s = step op (run-Trace ops s) (apply-Step op (run s ops))
