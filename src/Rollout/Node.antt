-- ===== src/Rollout/Node.antt =====
-- One node of a rollout: upgradeNode, finishUpgrade, waitHealthy and the helpers under them
-- (internal/rollout/rollout.go).
use medea.Prelude.{
  ℕ, zero, suc, Bytes, Bool, false, Option, none, some, [], ◌∷◌, ◌==◌, ◌&&◌, is_empty, bytes,
  if◌then◌else◌,
}
use medea.Error.{Error, Text, no_text, errorf, show, Exec, return, raise, attempt, ◌>>=◌, ◌>>◌}
use medea.Proto.{
  Role, is_role_controlplane, RolloutState, state_unspecified, state_draining, state_upgrading,
  state_waiting_healthy, state_done, state_failed, RolloutStrategy, nanos, minus_nanos,
  MachineRollout,
}
use medea.Bolt.{Bolt}
use medea.Store.Read.{get_machine_rollout}
use medea.Store.Write.{put_machine_rollout}
use medea.Talos.Image.{derive_installer_image}
use medea.Rollout.World.{
  Remote, World, local, in_store, ignore, or_zero, version, install_image, upgrade_os, drain,
  uncordon, node_ready, etcd_snapshot, wait_done,
}

-- WaitTimeout, ten minutes, in polls of PollInterval, five seconds.
abbrev pub wait_polls : ℕ
wait_polls = 120

-- 5 * time.Minute
abbrev pub default_drain_timeout : ℕ
default_drain_timeout = 300_000_000_000

unfoldable pub drain_timeout : RolloutStrategy → ℕ
drain_timeout strategy = elim strategy.drain_timeout [
  | none ↦ default_drain_timeout
  | some (minus_nanos n) ↦ default_drain_timeout
  | some (nanos zero) ↦ default_drain_timeout
  | some (nanos (suc n)) ↦ suc n
]

unfoldable pub state_of : Option MachineRollout → RolloutState
state_of none = state_unspecified
state_of (some mr) = mr.state

unfoldable pub timed_out : Bytes → Bytes → Bool × Bytes → Error
unfolding bytes
timed_out addr target (ready, v) =
    errorf "timed out waiting for %s to reach %s (ready=%t, version=%q)"
      (addr ∷ target ∷ (if ready then bytes "true" else bytes "false") ∷ v ∷ [])

module _ ⦃bolt : Bolt⦄ ⦃remote : Remote⦄ where
  -- setState: an error of the store is dropped.
  unfoldable pub set_state : Bytes → Bytes → RolloutState → Bytes → Text → Exec World (Unit {0})
  set_state cluster addr state target msg = ignore (
      in_store (
        put_machine_rollout (record {
          cluster = cluster;
          addr = addr;
          state = state;
          target_talos_version = target;
          message = msg;
          revision = 0;
        })))

  -- machineState: an error, and no record, read as the zero state. Of a record that does not decode
  -- the store returns, beside the error, what was decoded before it; what that is, is not modelled.
  unfoldable pub machine_state : Bytes → Bytes → Exec World RolloutState
  unfolding state_of
  machine_state cluster addr = do
    mr ← or_zero none (in_store (get_machine_rollout cluster addr))
    return (state_of mr)

  unfoldable pub fail : {A : Type 0} → Bytes → Bytes → Bytes → Text → Exec World A
  unfolding set_state
  fail cluster addr target msg = do
    set_state cluster addr state_failed target msg
    raise (show "rollout halted at %s: %s" (addr ∷ []) msg)

  unfoldable pub snapshot : Bytes → Bytes → Exec World (Unit {0})
  unfolding etcd_snapshot
  snapshot cluster addr = do
    local remote.make_snapshot_dir
    local (remote.open_snapshot cluster addr)
    attempt (etcd_snapshot addr) (λ e. do ignore (local remote.close_snapshot); raise e)
        (λ _. local remote.close_snapshot)

  -- One look at the node: whether it is ready, and its version.
  unfoldable pub poll : Bytes → Bytes → Exec World (Bool × Bytes)
  unfolding node_ready version
  poll addr name = do
    ready ← or_zero false (node_ready name)
    v ← or_zero [] (version addr)
    return (ready, v)

  -- The loop of waitHealthy. With no polls left the context is done; before that, `wait_done` says
  -- whether it is.
  unfoldable pub wait_healthy : ℕ → Bytes → Bytes → Bytes → Exec World (Unit {0})
  unfolding poll timed_out wait_done
  wait_healthy zero addr name target = do
    seen ← poll addr name
    if seen.0 && seen.1 == target then return tt else raise (timed_out addr target seen)
  wait_healthy (suc n) addr name target =
      let again = wait_healthy n addr name target in
      do
        seen ← poll addr name
        if seen.0 && seen.1 == target
            then return tt
            else do over ← wait_done; if over then raise (timed_out addr target seen) else again

  unfoldable pub finish_upgrade : Bytes → Bytes → Bytes → Bytes → Exec World (Unit {0})
  unfolding fail set_state wait_healthy uncordon
  finish_upgrade cluster addr name target =
      if is_empty name
      then fail cluster addr target (errorf "node not found in cluster (cannot wait for health)" [])
      else do
        set_state cluster addr state_waiting_healthy target (errorf "waiting for healthy" [])
        attempt (wait_healthy wait_polls addr name target) (λ e. fail cluster addr target e)
            λ _.
              attempt (uncordon name) (λ e. fail cluster addr target (show "uncordon: %v" [] e))
                λ _. set_state cluster addr state_done target no_text

  -- upgradeNode up to the drain: a control-plane node's etcd is saved first.
  unfoldable pub snapshot_first :
      Bytes → Role → Bytes → Bytes → RolloutStrategy → Exec World (Unit {0})
  unfolding snapshot fail
  snapshot_first cluster role addr target strategy =
      if is_role_controlplane role && strategy.snapshot_before_control_plane
      then attempt (snapshot cluster addr)
          (λ e. fail cluster addr target (show "etcd snapshot: %v" [] e)) return
      else return tt

  unfoldable pub upgrade_node :
      Bytes → Role → Bytes → Bytes → Bytes → RolloutStrategy → Exec World (Unit {0})
  unfolding fail snapshot_first set_state drain drain_timeout install_image upgrade_os
      finish_upgrade
  upgrade_node cluster role addr name target strategy =
      if is_empty name
      then fail cluster addr target (errorf "node not found in cluster (cannot drain)" [])
      else do
        snapshot_first cluster role addr target strategy
        set_state cluster addr state_draining target (errorf "draining" [])
        attempt (drain name (drain_timeout strategy))
            (λ e. fail cluster addr target (show "drain: %v" [] e))
            λ _. do
              set_state cluster addr state_upgrading target (errorf "upgrading" [])
              attempt (install_image addr)
                  (λ e. fail cluster addr target (show "read install image: %v" [] e))
                  λ image.
                    attempt (upgrade_os addr (derive_installer_image image target))
                      (λ e. fail cluster addr target (show "upgrade: %v" [] e))
                      λ _. finish_upgrade cluster addr name target
