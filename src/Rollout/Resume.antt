-- ===== src/Rollout/Resume.antt =====
-- A node that a pass of internal/rollout/rollout.go finds mid-flight.
use medea.Prelude.{ℕ, suc, Bytes, true, some, List, [], ◌∷◌, ◌≡◌, refl, if◌then◌else◌, arith}
use medea.Error.{ok}
use medea.Proto.{MachineRollout}
use medea.Bolt.{Bolt}
use medea.Store.Read.{get_machine_rollout}
use medea.Rollout.World.{Remote, World, Call}
use medea.Rollout.Node.{machine_state}
use medea.Rollout.Pool.{Pass, roll_member, resume_member, is_mid_flight}
use medea.Rollout.Waits.{is_wait, resume_member-Keeps}

-- How many calls of the list may disturb a node or its data.
abbrev pub disruptions : List Call → ℕ
disruptions [] = 0
disruptions (c ∷ cs) = if is_wait c then disruptions cs else suc (disruptions cs)

module _ ⦃bolt : Bolt⦄ ⦃remote : Remote⦄ where
  machine_state-recorded :
      (cluster addr : Bytes) (mr : MachineRollout) (w : World)
      → (get_machine_rollout cluster addr w.store).0 ≡ ok (some mr)
      → machine_state cluster addr w ≡ (ok mr.state, w)
  unfolding machine_state get_machine_rollout
  machine_state-recorded cluster addr mr w found = ground arith

  roll_member-resumes :
      (p : Pass) (addr : Bytes) (mr : MachineRollout) (w : World)
      → (get_machine_rollout p.cluster addr w.store).0 ≡ ok (some mr)
      → is_mid_flight mr.state ≡ true
      → roll_member p addr w ≡ resume_member p addr w
  unfolding roll_member
  roll_member-resumes p addr mr w found mid =
      rw (machine_state-recorded p.cluster addr mr w found) (rw mid refl)

  -- A member that the store records as upgrading or as waiting for health is only waited for: its
  -- turn in the loop makes no drain, upgrade, snapshot or image read, whatever the cluster answers
  -- and however the turn ends.
  pub resume_undisturbed :
      (p : Pass) (addr : Bytes) (mr : MachineRollout) (w : World)
      → (get_machine_rollout p.cluster addr w.store).0 ≡ ok (some mr)
      → is_mid_flight mr.state ≡ true
      → disruptions (roll_member p addr w).1.calls ≡ disruptions w.calls
  resume_undisturbed p addr mr w found mid = rw (roll_member-resumes p addr mr w found mid) (
      (resume_member-Keeps (λ cs. disruptions cs ≡ disruptions w.calls) (λ c cs q h. rw q h) p
          addr).at
        w refl)
