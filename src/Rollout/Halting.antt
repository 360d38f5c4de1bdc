-- ===== src/Rollout/Halting.antt =====
-- Halt on failure in internal/rollout/rollout.go.
use medea.Prelude.{Bytes, Bool, true, false, [], ◌∷◌, ◌≡◌, refl, if◌then◌else◌, arith}
use medea.Error.{Error, Text, show, Result, ok, err, Exec, return, raise, attempt, branch}
use medea.Proto.{RolloutState, state_failed}
use medea.Bolt.{Bolt}
use medea.Rollout.World.{Remote, World}
use medea.Rollout.Node.{
  set_state, machine_state, fail, finish_upgrade, snapshot_first, upgrade_node,
}
use medea.Rollout.Pool.{Pass, fresh_member, resume_member, roll_member}

module _ ⦃bolt : Bolt⦄ ⦃remote : Remote⦄ where
  -- The error names the node, and the last thing done was to record the node as failed.
  pub record FailedAt (p : Pass) (addr : Bytes) (e : Error) (w' : World) : Type 0 where
    pub message : Text
    pub before : World
    pub error : e ≡ show "rollout halted at %s: %s" (addr ∷ []) message
    pub recorded : w' ≡ (set_state p.cluster addr state_failed p.target message before).1

  -- An action whose only failures are of the node.
  pub record Halts {A : Type 0} (p : Pass) (addr : Bytes) (m : Exec World A) : Type 0 where
    pub at : (w : World) (e : Error) → (m w).0 ≡ err e → FailedAt p addr e (m w).1

  module _ {A : Type 0} {p : Pass} {addr : Bytes} where
    Halts-return : (a : A) → Halts p addr (return a)
    Halts-return a = record { at = λ w e h. cc }

    Halts-fail : (msg : Text) → Halts p addr (fail {A = A} p.cluster addr p.target msg)
    unfolding fail
    Halts-fail msg = record {
      at = λ w e h. record { message = msg; before = w; error = cc; recorded = refl };
    }

    Halts-if :
        (b : Bool) (m n : Exec World A)
        → Halts p addr m
        → Halts p addr n
        → Halts p addr (if b then m else n)
    Halts-if true m n hm hn = hm
    Halts-if false m n hm hn = hn

  module _ {A B : Type 0} {p : Pass} {addr : Bytes} where
    handled-branch :
        (h : Error → Exec World B) (f : A → Exec World B)
        → ((e : Error) → Halts p addr (h e))
        → ((a : A) → Halts p addr (f a))
        → (r : Result A) (w : World) (e : Error) → (branch r h f w).0 ≡ err e
        → FailedAt p addr e (branch r h f w).1
    handled-branch h f hh hf (ok a) w e q = (hf a).at w e q
    handled-branch h f hh hf (err x) w e q = (hh x).at w e q

    -- A failure that is handled by `fail`.
    Halts-handled :
        (m : Exec World A) (h : Error → Exec World B) (f : A → Exec World B)
        → ((e : Error) → Halts p addr (h e))
        → ((a : A) → Halts p addr (f a))
        → Halts p addr (attempt m h f)
    Halts-handled m h f hh hf = record {
      at = λ w e q. handled-branch h f hh hf (m w).0 (m w).1 e q;
    }

    passed-branch :
        (f : A → Exec World B)
        → ((a : A) → Halts p addr (f a))
        → (r : Result A) (w : World) → ((x : Error) → r ≡ err x → FailedAt p addr x w)
        → (e : Error) → (branch r raise f w).0 ≡ err e
        → FailedAt p addr e (branch r raise f w).1
    passed-branch f hf (ok a) w hr e q = (hf a).at w e q
    passed-branch f hf (err x) w hr e q = hr e (cc)

    -- A failure that is passed on.
    Halts-passed :
        (m : Exec World A) (f : A → Exec World B)
        → Halts p addr m
        → ((a : A) → Halts p addr (f a))
        → Halts p addr (attempt m raise f)
    Halts-passed m f hm hf = record {
      at = λ w e q. passed-branch f hf (m w).0 (m w).1 (λ x r. hm.at w x r) e q;
    }

  module _ (p : Pass) (addr : Bytes) where
    set_state-Halts :
        (st : RolloutState) (msg : Text) → Halts p addr (set_state p.cluster addr st p.target msg)
    unfolding set_state
    set_state-Halts st msg = record { at = λ w e h. cc }

    finish_upgrade-Halts :
        (name : Bytes) → Halts p addr (finish_upgrade p.cluster addr name p.target)
    unfolding finish_upgrade
    finish_upgrade-Halts name =
        search (Halts-fail, Halts-if, Halts-handled, Halts-passed, set_state-Halts) depth 9

    snapshot_first-Halts : Halts p addr (snapshot_first p.cluster p.role addr p.target p.strategy)
    unfolding snapshot_first
    snapshot_first-Halts = search (Halts-return, Halts-fail, Halts-if, Halts-handled)

    upgrade_node-Halts :
        (name : Bytes) → Halts p addr (upgrade_node p.cluster p.role addr name p.target p.strategy)
    unfolding upgrade_node
    upgrade_node-Halts name =
        search
          (
            Halts-fail, Halts-if, Halts-handled, Halts-passed, set_state-Halts,
            snapshot_first-Halts, finish_upgrade-Halts,
          )
          depth 12

    machine_state-Halts : Halts p addr (machine_state p.cluster addr)
    unfolding machine_state
    machine_state-Halts = record { at = λ w e h. ground arith }

    fresh_member-Halts : Halts p addr (fresh_member p addr)
    unfolding fresh_member
    fresh_member-Halts =
        search
          (
            Halts-return, Halts-fail, Halts-if, Halts-handled, Halts-passed, set_state-Halts,
            upgrade_node-Halts,
          )
          depth 9

    pub roll_member-Halts : Halts p addr (roll_member p addr)
    unfolding roll_member resume_member
    roll_member-Halts =
        search
          (
            Halts-return, Halts-if, Halts-passed, machine_state-Halts, fresh_member-Halts,
            finish_upgrade-Halts,
          )
          depth 9
