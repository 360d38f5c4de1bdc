-- ===== src/Examples/Rollouts.antt =====
-- Runs of the rollout of internal/rollout, against a scripted cluster.
use medea.Prelude.{◌≡◌, ◌==◌, Bytes, true, false, none, [], ◌∷◌, refl, bytes, List, map}
use medea.Error.{ok, Error, errorf, show}
use medea.Proto.{MachineRollout, state_upgrading, role_controlplane, RolloutStrategy}
use medea.Bolt.Memory.{memory}
use medea.Bolt.{find}
use medea.Store.State.{open_new, ckey}
use medea.Store.Write.{put_machine_rollout}
use medea.Store.Read.{get_machine_rollout}
use medea.Rollout.World.{Remote, World, NodeInfo}
use medea.Rollout.Pool.{Pass, is_mid_flight, roll, roll_member}
use medea.Rollout.Resume.{disruptions, resume_undisturbed}
use medea.Rollout.Node.{finish_upgrade}
use medea.Rollout.Confirmed.{Confirmed, finish_upgrade-Confirmed}
use medea.Rollout.Outcome.{HaltedAt, roll_halts}
use medea.Rollout.Prepared.{Safe}
use medea.Rollout.Safety.{roll-Safe}
use medea.Store.Write.{put_cluster_desired, put_machine_desired}
use medea.Proto.{Cluster, Machine, mode_manual}
use medea.Seed.{Gathered, gather, nothing_gathered, members_of, add_node}
use medea.Seed.Pools.{machine_of, addrs_in, gather_exact}
use medea.Refresh.{once}
use medea.Refresh.Health.{Observed, healthy_confirmed}
use medea.Rollout.K8s.{reconcile_k8s}
use medea.Rollout.Budget.{Budgeted, roll-Budgeted}
use medea.Rollout.Ending.{Course}
use medea.Rollout.Course.{reconcile_k8s-Course}

-- One node that runs the old version until it is upgraded; the state is its version.
instance abbrev lab : Remote
lab = record {
  Env = Bytes;
  version = λ addr e. (ok e, e);
  install_image = λ addr e. (ok (bytes "factory/installer:v1"), e);
  upgrade_os = λ addr image e. (ok tt, bytes "v2");
  etcd_snapshot = λ addr e. (ok tt, e);
  list_nodes = λ e. (
    ok (
        record {
          name = bytes "cp1";
          internal_ip = bytes "10.0.0.1";
          role = bytes "controlplane";
          kubelet_version = e;
          ready = true;
        }
        ∷ []),
    e,
  );
  drain = λ name t e. (ok tt, e);
  uncordon = λ name e. (ok tt, e);
  node_ready = λ name e. (ok true, e);
  upgrade_k8s = λ from to e. (ok tt, to);
  make_snapshot_dir = λ e. (ok tt, e);
  open_snapshot = λ cluster addr e. (ok tt, e);
  close_snapshot = λ e. (ok tt, e);
  build_clients = λ cluster e. (ok tt, e);
  build_k8s = λ cluster e. (ok tt, e);
  wait_done = λ e. (false, e);
}

abbrev node : NodeInfo
node = record {
  name = bytes "cp1";
  internal_ip = bytes "10.0.0.1";
  role = bytes "controlplane";
  kubelet_version = bytes "v1.36.2";
  ready = true;
}

abbrev strategy : RolloutStrategy
strategy = record {
  max_unavailable = 1;
  drain_timeout = none;
  halt_on_failure = true;
  snapshot_before_control_plane = true;
}

abbrev pass : Pass
pass = record {
  cluster = bytes "home";
  role = role_controlplane;
  target = bytes "v2";
  strategy = strategy;
  nodes = node ∷ [];
  members = bytes "10.0.0.1" ∷ [];
}

abbrev start : World
start = record { store = open_new; env = bytes "v1"; calls = [] }

roll-Safe_example : Safe pass (roll pass pass.members start).1.calls
roll-Safe_example = roll-Safe pass pass.members start refl

roll-Budgeted_example : Budgeted pass start.calls (roll pass pass.members start).1.calls
roll-Budgeted_example = roll-Budgeted pass pass.members start

abbrev cp1 : Bytes
cp1 = bytes "10.0.0.1"

-- What a process that was stopped in the middle of an upgrade leaves.
abbrev left : MachineRollout
left = record {
  cluster = bytes "home";
  addr = cp1;
  state = state_upgrading;
  target_talos_version = bytes "v2";
  message = errorf "upgrading" [];
  revision = 1;
}

abbrev restarted : World
restarted = record { store = (put_machine_rollout left open_new).1; env = bytes "v2"; calls = [] }

resume_undisturbed_example : disruptions (roll_member pass cp1 restarted).1.calls ≡ 0
unfolding put_machine_rollout get_machine_rollout open_new bytes find ◌==◌ ckey is_mid_flight
resume_undisturbed_example = resume_undisturbed pass cp1 left restarted refl refl

-- The cluster does not list the pool's member.
abbrev lost : Pass
lost = record pass { nodes = [] }

abbrev lost_error : Error
lost_error =
    show "rollout halted at %s: %s" (cp1 ∷ [])
      (errorf "node not found in cluster (cannot drain)" [])

roll_halts_example : HaltedAt lost lost.members start lost_error
unfolding roll open_new bytes find ◌==◌ ckey get_machine_rollout
roll_halts_example = roll_halts lost lost.members start lost_error refl

finish_upgrade-Confirmed_example :
    Confirmed cp1
      (bytes "cp1")
      (bytes "v2")
      (bytes "home")
      (finish_upgrade (bytes "home") cp1 (bytes "cp1") (bytes "v2") restarted).1
unfolding finish_upgrade put_machine_rollout open_new bytes find ◌==◌ ckey
finish_upgrade-Confirmed_example =
    finish_upgrade-Confirmed cp1 (bytes "cp1") (bytes "v2") (bytes "home") restarted refl refl

reconcile_k8s-Course_example :
    Course
      (bytes "v1.37.0")
      []
      (reconcile_k8s (bytes "home") (bytes "v1.37.0") start).0
      (reconcile_k8s (bytes "home") (bytes "v1.37.0") start).1.calls
reconcile_k8s-Course_example = reconcile_k8s-Course (bytes "home") (bytes "v1.37.0") start

abbrev home : Cluster
home = record {
  name = bytes "home";
  desired = none;
  observed = none;
  endpoints = none;
  revision = 0;
  mode = mode_manual;
  rollouts_enabled = false;
  provisioning_enabled = false;
}

abbrev machine : Machine
machine = record {
  cluster = bytes "home";
  pool = bytes "controlplane";
  talos_endpoint = cp1;
  role = role_controlplane;
  observed = none;
  revision = 0;
}

-- A store with one cluster of one machine.
abbrev settled : World
settled = record {
  store = (put_machine_desired machine 0 (put_cluster_desired home 0 open_new).1).1;
  env = bytes "v1";
  calls = [];
}

healthy_confirmed_example : Observed settled.store (once (record settled { calls = [] })).1
healthy_confirmed_example = healthy_confirmed settled

abbrev helper : NodeInfo
helper = record {
  name = bytes "w1";
  internal_ip = bytes "10.0.0.2";
  role = bytes "worker";
  kubelet_version = bytes "v1.36.2";
  ready = true;
}

abbrev both_nodes : List NodeInfo
both_nodes = node ∷ helper ∷ []

abbrev gathered : Gathered
gathered = add_node helper (bytes "v1") (add_node node (bytes "v1") nothing_gathered)

gather_exact_example :
    (gathered.machines ≡ map machine_of both_nodes)
    × ((pool : Bytes) → members_of gathered.pool_members pool ≡ addrs_in pool both_nodes)
unfolding gather
gather_exact_example = gather_exact both_nodes gathered start refl
