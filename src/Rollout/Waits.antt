-- ===== src/Rollout/Waits.antt =====
-- The steps of internal/rollout/rollout.go that look at nodes and record what they see, but do not
-- disturb a node: what they leave of a property of the calls.
use medea.Prelude.{ℕ, zero, suc, Bytes, Bool, true, false, List, [], ◌∷◌, ◌≡◌, refl, ◌==◌, ◌&&◌}
use medea.Error.{Text, Exec, return, raise}
use medea.Proto.{RolloutState}
use medea.Bolt.{Bolt}
use medea.Rollout.World.{
  Remote, World, Call, read_version, read_ready, uncordoned, version, uncordon, node_ready,
  wait_done,
}
use medea.Rollout.Node.{
  set_state, machine_state, fail, poll, timed_out, wait_healthy, finish_upgrade,
}
use medea.Rollout.Pool.{Pass, Flow, next, stop, fresh_member, resume_member, roll_member, roll}
use medea.Rollout.Calls.{
  Keeps, keeps, Keeps-attempt, Keeps-return, Keeps-raise, Keeps-if, Keeps-perform,
}

-- The calls that do not disturb a node.
abbrev pub is_wait : Call → Bool
is_wait (read_version addr r) = true
is_wait (read_ready name r) = true
is_wait (uncordoned name r) = true
is_wait c = false

module _ ⦃bolt : Bolt⦄ ⦃remote : Remote⦄ (Q : List Call → Type 0) where
  pub set_state-Keeps :
      (cluster addr : Bytes) (st : RolloutState) (target : Bytes) (msg : Text)
      → Keeps Q (set_state cluster addr st target msg)
  unfolding set_state
  set_state-Keeps cluster addr st target msg = record { at = λ w h. h }

  pub fail-Keeps :
      {A : Type 0} (cluster addr target : Bytes) (msg : Text)
      → Keeps Q (fail {A = A} cluster addr target msg)
  unfolding fail set_state
  fail-Keeps cluster addr target msg = record { at = λ w h. h }

  pub wait_done-Keeps : Keeps Q wait_done
  unfolding wait_done
  wait_done-Keeps = record { at = λ w h. h }

  pub machine_state-Keeps : (cluster addr : Bytes) → Keeps Q (machine_state cluster addr)
  unfolding machine_state
  machine_state-Keeps cluster addr = search keeps

module _ ⦃bolt : Bolt⦄ ⦃remote : Remote⦄ (Q : List Call → Type 0)
    (waits : (c : Call) (cs : List Call) → is_wait c ≡ true → Q cs → Q (c ∷ cs)) where
  pub version-Keeps : (addr : Bytes) → Keeps Q (version addr)
  unfolding version
  version-Keeps addr =
      Keeps-perform (remote.version addr) (read_version addr)
        (λ r cs q. waits (read_version addr r) cs refl q)

  pub node_ready-Keeps : (name : Bytes) → Keeps Q (node_ready name)
  unfolding node_ready
  node_ready-Keeps name =
      Keeps-perform (remote.node_ready name) (read_ready name)
        (λ r cs q. waits (read_ready name r) cs refl q)

  pub poll-Keeps : (addr name : Bytes) → Keeps Q (poll addr name)
  unfolding poll
  poll-Keeps addr name = search (keeps, version-Keeps, node_ready-Keeps)

  pub wait_healthy-Keeps :
      (n : ℕ) (addr name target : Bytes) → Keeps Q (wait_healthy n addr name target)
  unfolding wait_healthy
  wait_healthy-Keeps zero addr name target = search (keeps, poll-Keeps)
  wait_healthy-Keeps (suc n) addr name target =
      Keeps-attempt (poll addr name) raise _ (poll-Keeps addr name) Keeps-raise λ seen.
        Keeps-if (seen.0 && seen.1 == target) _ _ (Keeps-return tt) (
          Keeps-attempt wait_done raise _ (wait_done-Keeps Q) Keeps-raise λ over.
            Keeps-if over _ _ (Keeps-raise (timed_out addr target seen))
              (wait_healthy-Keeps n addr name target))

  pub uncordon-Keeps : (name : Bytes) → Keeps Q (uncordon name)
  unfolding uncordon
  uncordon-Keeps name =
      Keeps-perform (remote.uncordon name) (uncordoned name)
        (λ r cs q. waits (uncordoned name r) cs refl q)

  pub finish_upgrade-Keeps :
      (cluster addr name target : Bytes) → Keeps Q (finish_upgrade cluster addr name target)
  unfolding finish_upgrade
  finish_upgrade-Keeps cluster addr name target =
      search (keeps, set_state-Keeps Q, fail-Keeps Q, wait_healthy-Keeps, uncordon-Keeps) depth 9

  pub resume_member-Keeps : (p : Pass) (addr : Bytes) → Keeps Q (resume_member p addr)
  unfolding resume_member
  resume_member-Keeps p addr = search (keeps, finish_upgrade-Keeps)

module _ ⦃bolt : Bolt⦄ ⦃remote : Remote⦄ (Q : List Call → Type 0) (p : Pass) where
  -- A turn of the loop that resumes or begins.
  pub roll_member-Keeps :
      (waits : (c : Call) (cs : List Call) → is_wait c ≡ true → Q cs → Q (c ∷ cs))
      → ((addr : Bytes) → Keeps Q (fresh_member p addr))
      → (addr : Bytes) → Keeps Q (roll_member p addr)
  unfolding roll_member
  roll_member-Keeps waits fresh addr =
      search (keeps, machine_state-Keeps Q, fresh, resume_member-Keeps Q waits p)

  flow-Keeps :
      (rest : Exec World (Unit {0}))
      → Keeps Q rest
      → (flow : Flow)
      → Keeps Q (elim flow as (λ _. Exec World (Unit {0})) [ next ↦ rest | stop ↦ return tt ])
  flow-Keeps rest k next = k
  flow-Keeps rest k stop = Keeps-return tt

  -- The loop keeps what its turns keep.
  pub roll-Keeps :
      ((addr : Bytes) → Keeps Q (roll_member p addr))
      → (addrs : List Bytes) → Keeps Q (roll p addrs)
  unfolding roll
  roll-Keeps turn [] = Keeps-return tt
  roll-Keeps turn (addr ∷ addrs) =
      Keeps-attempt (roll_member p addr) raise _ (turn addr) Keeps-raise
        (flow-Keeps (roll p addrs) (roll-Keeps turn addrs))
