-- ===== src/Proto/Progress.antt =====
-- The progress records: rollouts, rollout jobs and bootstraps (gen/medea/v1/medea.pb.go).
use medea.Prelude.{ℕ, Bytes, Bool, List}
use medea.Error.{Text}
use medea.Proto.Enums.{
  RolloutState, ClusterRolloutPhase, ClusterBootstrapPhase, RolloutKind, RolloutJobState,
}

pub record MachineRollout : Type 0 where
  pub cluster : Bytes
  pub addr : Bytes
  pub state : RolloutState
  pub target_talos_version : Bytes
  pub message : Text
  pub revision : ℕ

pub record ClusterRollout : Type 0 where
  pub cluster : Bytes
  pub phase : ClusterRolloutPhase
  pub target_kubernetes_version : Bytes
  pub message : Text
  pub revision : ℕ

pub record ClusterBootstrap : Type 0 where
  pub cluster : Bytes
  pub phase : ClusterBootstrapPhase
  pub cp_mac : Bytes
  pub cp_endpoint : Bytes
  pub cp_ip : Bytes
  pub talos_version : Bytes
  pub kubernetes_version : Bytes
  pub install_disk : Bytes
  pub extensions : List Bytes
  pub message : Text
  pub started_at : Bytes
  pub revision : ℕ
  pub cni : Bytes
  pub disable_kube_proxy : Bool
  pub patches : List Bytes

pub record Rollout : Type 0 where
  pub cluster : Bytes
  pub pool : Bytes
  pub kind : RolloutKind
  pub target_version : Bytes
  pub state : RolloutJobState
  pub created_by : Bytes
  pub created_at : Bytes
  pub planned_targets : List Bytes
  pub message : Text
  pub revision : ℕ
