-- ===== src/Proto/Inventory.antt =====
-- The desired state: clusters, node pools, machines and hosts (gen/medea/v1/medea.pb.go).
use medea.Prelude.{ℕ, Bytes, Bool, false, Option, none, some, List, []}
use medea.Error.{Text}
use medea.Proto.Enums.{Role, ClusterMode, HostState, MachinePhase}

pub record ClusterDesired : Type 0 where
  pub talos_version : Bytes
  pub kubernetes_version : Bytes

pub record ClusterObserved : Type 0 where
  pub kubernetes_version : Bytes
  pub control_plane_ready : Bool

pub record ClusterEndpoints : Type 0 where
  pub talos : List Bytes
  pub kube : Bytes

pub record Cluster : Type 0 where
  pub name : Bytes
  pub desired : Option ClusterDesired
  pub observed : Option ClusterObserved
  pub endpoints : Option ClusterEndpoints
  pub revision : ℕ
  pub mode : ClusterMode
  pub rollouts_enabled : Bool
  pub provisioning_enabled : Bool

-- A google.protobuf.Duration in nanoseconds: of no sign, or below 0.
pub data Duration : Type 0 where
  nanos : ℕ → Duration
  minus_nanos : ℕ → Duration

pub record NodePoolDesired : Type 0 where
  pub talos_version : Bytes

pub record RolloutStrategy : Type 0 where
  pub max_unavailable : ℕ
  pub drain_timeout : Option Duration
  pub halt_on_failure : Bool
  pub snapshot_before_control_plane : Bool

pub record NodePool : Type 0 where
  pub cluster : Bytes
  pub name : Bytes
  pub role : Role
  pub members : List Bytes
  pub desired : Option NodePoolDesired
  pub strategy : Option RolloutStrategy
  pub paused : Bool
  pub revision : ℕ
  pub replicas : ℕ
  pub selector : List (Bytes × Bytes)
  pub extensions : List Bytes

pub record MachineObserved : Type 0 where
  pub phase : MachinePhase
  pub talos_version : Bytes
  pub kubernetes_version : Bytes
  pub healthy : Bool

pub record Machine : Type 0 where
  pub cluster : Bytes
  pub pool : Bytes
  pub talos_endpoint : Bytes
  pub role : Role
  pub observed : Option MachineObserved
  pub revision : ℕ

pub record Host : Type 0 where
  pub cluster : Bytes
  pub mac : Bytes
  pub pool : Bytes
  pub labels : List (Bytes × Bytes)
  pub addr : Bytes
  pub role : Role
  pub state : HostState
  pub message : Text
  pub revision : ℕ
  pub provisioning_started_at : Bytes

-- x.GetDesired() on a message with none reads every field as its zero.
abbrev pub cluster_desired : Cluster → ClusterDesired
cluster_desired c = elim c.desired [
  | none ↦ record { talos_version = []; kubernetes_version = [] }
  | some d ↦ d
]

abbrev pub pool_desired : NodePool → NodePoolDesired
pool_desired np = elim np.desired [ none ↦ record { talos_version = [] } | some d ↦ d ]

abbrev pub pool_strategy : NodePool → RolloutStrategy
pool_strategy np = elim np.strategy [
  | none ↦ record {
    max_unavailable = 0;
    drain_timeout = none;
    halt_on_failure = false;
    snapshot_before_control_plane = false;
  }
  | some s ↦ s
]
