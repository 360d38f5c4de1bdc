-- ===== src/Proto/Enums.antt =====
-- The enums of gen/medea/v1/medea.pb.go, without numbers that no name stands for.
use medea.Prelude.{Bool, true, false}

pub data Role : Type 0 where
  role_unspecified role_controlplane role_worker : Role

pub data ClusterMode : Type 0 where
  mode_unspecified mode_manual mode_auto : ClusterMode

pub data HostState : Type 0 where
  host_unspecified host_registered host_allocated host_provisioning : HostState
  host_ready host_failed host_deprovisioning : HostState

pub data MachinePhase : Type 0 where
  phase_unspecified phase_provisioning phase_booting phase_joining : MachinePhase
  phase_ready phase_draining phase_resetting phase_not_ready : MachinePhase

pub data RolloutState : Type 0 where
  state_unspecified state_idle state_draining state_upgrading : RolloutState
  state_waiting_healthy state_done state_failed : RolloutState

pub data ClusterBootstrapPhase : Type 0 where
  boot_unspecified boot_not_bootstrapped boot_generating_secrets : ClusterBootstrapPhase
  boot_staging boot_awaiting_install boot_bootstrapping : ClusterBootstrapPhase
  boot_awaiting_healthy boot_fetching_kubeconfig : ClusterBootstrapPhase
  boot_ready boot_failed : ClusterBootstrapPhase

pub data ClusterRolloutPhase : Type 0 where
  crp_unspecified crp_idle crp_upgrading crp_failed : ClusterRolloutPhase

pub data RolloutKind : Type 0 where
  kind_unspecified kind_talos kind_kubernetes : RolloutKind

pub data RolloutJobState : Type 0 where
  job_unspecified job_pending job_running job_paused : RolloutJobState
  job_failed job_done job_cancelled : RolloutJobState

-- m.state == HOST_STATE_UNSPECIFIED
abbrev pub is_host_unspecified : HostState → Bool
is_host_unspecified host_unspecified = true
is_host_unspecified _ = false

abbrev pub is_role_unspecified : Role → Bool
is_role_unspecified role_unspecified = true
is_role_unspecified _ = false

abbrev pub is_role_controlplane : Role → Bool
is_role_controlplane role_controlplane = true
is_role_controlplane _ = false

abbrev pub is_mode_auto : ClusterMode → Bool
is_mode_auto mode_auto = true
is_mode_auto _ = false
