-- ===== src/Store/Roundtrip.antt =====
-- A put of internal/store/store.go, and the read after it.
use medea.Prelude.{
  ℕ, Bytes, Bool, true, false, some, ◌≡◌, refl, ◌∙◌, eq_refl, is_empty, ◌||◌, nat_eq, if◌then◌else◌,
  arith,
}
use medea.Error.{raise, map_result, Error, Result, ok, err}
use medea.Proto.{Machine}
use medea.Bolt.{Bolt}
use medea.Store.State.{
  Db, EventKind, Store, Slot, Message, ckey, event_key, kind_machine, desired_machines,
  machine_message,
}
use medea.Store.Write.{settle, committed, publish, update, cas_check, put_cas, put_machine_desired}
use medea.Store.Read.{decoded, read, revised, map_option, get_machine}
use medea.Store.Cas.{put_cas_ok}

module _ ⦃bolt : Bolt⦄ where
  settle-obs_machine :
      (o : Result Db) (kind : EventKind) (key : Bytes) (s : Store)
      → (settle o kind key s).1.obs_machine ≡ s.obs_machine
  unfolding settle committed publish
  settle-obs_machine (ok d) kind key s = refl
  settle-obs_machine (err e) kind key s = refl

  put_cas-obs_machine :
      {V : Type 0} ⦃m : Message V⦄ (slot : Slot V) (key : Bytes) (expected : ℕ) (v : V)
      (kind : EventKind) (ekey : Bytes) (s : Store)
      → (put_cas slot key expected v kind ekey s).1.obs_machine ≡ s.obs_machine
  unfolding put_cas update
  put_cas-obs_machine slot key expected v kind ekey s = settle-obs_machine _ kind ekey s

  -- The cell after a put that went through.
  put_cell :
      {V : Type 0} ⦃m : Message V⦄ (slot : Slot V) (key : Bytes) (expected : ℕ) (v : V)
      (kind : EventKind) (ekey : Bytes) (s : Store) {r : ℕ}
      → (put_cas slot key expected v kind ekey s).0 ≡ ok r
      → bolt.get (slot.bucket (put_cas slot key expected v kind ekey s).1.db) key
        ≡ some (ok (m.stamp r v))
  put_cell ⦃m⦄ slot key expected v kind ekey s h =
      (put_cas_ok slot key expected v kind ekey s h).1.cells key ∙ rw (eq_refl key) refl

  admitted :
      {V : Type 0} ⦃m : Message V⦄ (v : V) (r : ℕ) → cas_check (some (ok (m.stamp r v))) r ≡ ok tt
  unfolding cas_check
  admitted ⦃m⦄ v r = rw (m.revision-stamp r v, nat_eq_same r) refl
    where
      nat_eq_same : (n : ℕ) → nat_eq n n ≡ true
      nat_eq_same n = ground arith

  guarded :
      (b : Bool) (e : Error) (m : Machine) (expected : ℕ) (ekey : Bytes) (s : Store) (r : ℕ)
      → ((if b
            then raise e
            else put_cas desired_machines
                (ckey m.cluster m.talos_endpoint)
                expected
                m
                kind_machine
                ekey)
          s).0
        ≡ ok r
      → (b ≡ false)
        × ((put_cas desired_machines
              (ckey m.cluster m.talos_endpoint)
              expected
              m
              kind_machine
              ekey
              s).0
            ≡ ok r)
  guarded true e m expected ekey s r h = cc
  guarded false e m expected ekey s r h = (refl, h)

  -- After a PutMachineDesired that returns a revision, GetMachine of its cluster and endpoint
  -- returns the record that was put, with that revision and with the observed state of the cache
  -- in place of the caller's, and the revision; and that revision is the one that a following put
  -- of the record passes the test with.
  pub put_get_machine :
      (m : Machine) (expected r : ℕ) (s : Store)
      → (put_machine_desired m expected s).0 ≡ ok r
      → ((get_machine m.cluster m.talos_endpoint (put_machine_desired m expected s).1).0
          ≡ ok (
            some (record m {
              revision = r;
              observed = s.obs_machine (ckey m.cluster m.talos_endpoint);
            }),
            r,
          ))
        × (cas_check
              (bolt.get
                (desired_machines.bucket (put_machine_desired m expected s).1.db)
                (ckey m.cluster m.talos_endpoint))
              r
            ≡ ok tt)
  unfolding put_machine_desired get_machine read decoded revised map_option map_result
  put_get_machine m expected r s h =
      let (named, put) =
        guarded (is_empty m.cluster || is_empty m.talos_endpoint) _ m expected
          (event_key m.cluster m.talos_endpoint) s r h in
      let cell =
        put_cell desired_machines (ckey m.cluster m.talos_endpoint) expected m kind_machine
          (event_key m.cluster m.talos_endpoint) s put in
      let kept : (put_cas desired_machines (ckey m.cluster m.talos_endpoint) expected m kind_machine
            (event_key m.cluster m.talos_endpoint) s).1.obs_machine
          ≡ s.obs_machine =
        put_cas-obs_machine desired_machines (ckey m.cluster m.talos_endpoint) expected m
          kind_machine (event_key m.cluster m.talos_endpoint) s in
      (rw (named, cell, kept) refl, rw (named, cell) (admitted m r))
