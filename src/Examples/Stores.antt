-- ===== src/Examples/Stores.antt =====
-- Runs of the store of internal/store, on buckets in memory.
use medea.Prelude.{
  ◌≤◌, Bytes, true, false, none, some, List, [], ◌∷◌, ◌≡◌, refl, bytes, arith, ◌==◌, if◌then◌else◌,
  has_prefix,
}
use medea.Error.{conflict, ok, err, no_text}
use medea.Proto.{Cluster, Host, mode_manual, role_worker, host_registered}
use medea.Bolt.{find}
use medea.Bolt.Memory.{memory}
use medea.Store.State.{Store, open_new, ckey, desired_clusters, kind_cluster, cluster_message}
use medea.Store.Write.{put_cas, put_cluster_desired, put_host_desired}
use medea.Store.Delete.{delete_cluster, cluster_prefix}
use medea.Store.Slots.{SlotName, cell, clusters, hosts}
use medea.Store.Cas.{Admits, Written, put_cas_ok, put_cas_stale}
use medea.Store.Teardown.{delete_cluster_isolated, delete_cluster_exact, of_cluster}
use medea.Store.Revisions.{IsValid}
use medea.Proto.{Machine}
use medea.Store.State.{desired_machines, machine_message}
use medea.Store.Read.{get_machine}
use medea.Store.Write.{put_machine_desired, cas_check}
use medea.Store.Spec.{Trace, tables, run-Trace}
use medea.Store.Roundtrip.{put_get_machine}
use medea.Store.Reach.{Op, put_cluster, put_host, apply, run, reachable-IsValid, no_lost_update}

abbrev home : Cluster
home = record {
  name = bytes "home";
  desired = none;
  observed = none;
  endpoints = none;
  revision = 0;
  mode = mode_manual;
  rollouts_enabled = false;
  provisioning_enabled = false;
}

abbrev armed : Cluster
armed = record home { rollouts_enabled = true }

abbrev host_of : Bytes → Host
host_of cluster = record {
  cluster = cluster;
  mac = bytes "aa";
  pool = [];
  labels = [];
  addr = [];
  role = role_worker;
  state = host_registered;
  message = no_text;
  revision = 0;
  provisioning_started_at = [];
}

first_put : (put_cluster_desired home 0 open_new).0 ≡ ok 1
unfolding put_cluster_desired open_new bytes find ◌==◌
first_put = refl

put_cas_stale_example :
    let s' = (put_cas desired_clusters home.name 0 home kind_cluster home.name open_new).1 in
    put_cas desired_clusters home.name 0 armed kind_cluster home.name s' ≡ (err conflict, s')
unfolding put_cas open_new bytes find ◌==◌
put_cas_stale_example =
    put_cas_stale desired_clusters home.name 0 home armed kind_cluster home.name open_new
      (omega arith) (omega arith) refl

abbrev history : List Op
history = put_cluster home 0 ∷ []

reachable-IsValid_example :
    IsValid (run open_new history) × ((run open_new history).db.revision ≤ 1)
reachable-IsValid_example = reachable-IsValid history (omega arith)

abbrev other_calls : List Op
other_calls = put_host (host_of home.name) 0 ∷ []

abbrev stored_home : Cluster
stored_home = record home { revision = 1 }

no_lost_update_example :
    cell clusters home.name (run (run open_new history) other_calls).db ≡ some (ok stored_home)
unfolding run put_cluster_desired put_host_desired put_cas open_new bytes find ◌==◌ apply ckey
no_lost_update_example =
    no_lost_update (run open_new history) other_calls clusters home.name stored_home armed
      kind_cluster home.name reachable-IsValid_example.0 (omega arith) refl refl

put_cas_ok_example :
    Admits ⦃m = cluster_message⦄ none 0
    × Written desired_clusters home.name home 1 open_new
        (put_cas desired_clusters home.name 0 home kind_cluster home.name open_new).1
unfolding put_cas open_new bytes find ◌==◌
put_cas_ok_example =
    put_cas_ok desired_clusters home.name 0 home kind_cluster home.name open_new refl

abbrev lab : Bytes
lab = bytes "lab"

abbrev lab2 : Bytes
lab2 = bytes "lab2"

abbrev two_hosts : Store
two_hosts = run open_new (put_host (host_of lab) 0 ∷ put_host (host_of lab2) 0 ∷ [])

deletes : (delete_cluster lab two_hosts).0 ≡ ok tt
unfolding run apply put_host_desired put_cas open_new bytes find ◌==◌ ckey delete_cluster has_prefix
deletes = refl

delete_cluster_exact_example :
    let s' = (delete_cluster lab two_hosts).1 in
    ((n : SlotName) (k : Bytes)
      → cell n k s'.db ≡ (if of_cluster n lab k then none else cell n k two_hosts.db))
    × ((k : Bytes) → s'.obs_cluster k ≡ (if k == lab then none else two_hosts.obs_cluster k))
    × ((k : Bytes)
        → s'.obs_machine k
          ≡ (if has_prefix k (cluster_prefix lab) then none else two_hosts.obs_machine k))
delete_cluster_exact_example = delete_cluster_exact lab two_hosts deletes

delete_cluster_isolated_example :
    cell hosts (ckey lab2 (bytes "aa")) (delete_cluster lab two_hosts).1.db
    ≡ (if lab == lab2 then none else cell hosts (ckey lab2 (bytes "aa")) two_hosts.db)
unfolding bytes
delete_cluster_isolated_example =
    delete_cluster_isolated lab lab2 (bytes "aa") hosts two_hosts (omega arith) (omega arith)
      deletes

abbrev worker : Machine
worker = record {
  cluster = bytes "home";
  pool = bytes "workers";
  talos_endpoint = bytes "10.0.0.2";
  role = role_worker;
  observed = none;
  revision = 0;
}

put_get_machine_example :
    let s' = (put_machine_desired worker 0 open_new).1 in
    ((get_machine worker.cluster worker.talos_endpoint s').0
      ≡ ok (some (record worker { revision = 1 }), 1))
    × (cas_check
          (memory.get (desired_machines.bucket s'.db) (ckey worker.cluster worker.talos_endpoint))
          1
        ≡ ok tt)
unfolding put_machine_desired open_new bytes find ◌==◌
put_get_machine_example = put_get_machine worker 0 1 open_new refl

run-Trace_example : Trace (tables open_new) history (tables (run open_new history))
run-Trace_example = run-Trace history open_new
