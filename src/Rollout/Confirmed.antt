-- ===== src/Rollout/Confirmed.antt =====
-- What finishUpgrade of internal/rollout/rollout.go has seen when it ends well.
use medea.Prelude.{
  Bytes, Bool, true, false, List, [], ◌∷◌, ◌≡◌, refl, ap, ◌∙◌, is_empty, if◌then◌else◌,
}
use medea.Error.{◌>>◌, errorf, no_text, show, Result, ok, err, Exec, branch, attempt}
use medea.Proto.{state_done, state_waiting_healthy}
use medea.Bolt.{Bolt}
use medea.Rollout.World.{Remote, World, Call, read_version, read_ready, uncordoned, uncordon}
use medea.Rollout.Node.{wait_healthy, finish_upgrade, fail, set_state, wait_polls}
use medea.Rollout.Healthy.{Healthy, wait_healthy-Wait}

module _ ⦃bolt : Bolt⦄ ⦃remote : Remote⦄ (addr name target : Bytes) where
  -- The node has a name; its last three calls saw it ready, saw it at the target version and made
  -- it schedulable again; and the record of it as done was the last thing done.
  pub record Confirmed (cluster : Bytes) (w' : World) : Type 0 where
    pub named : is_empty name ≡ false
    pub earlier : List Call
    pub calls :
        w'.calls
        ≡ uncordoned name (ok tt)
          ∷ read_version addr (ok target)
          ∷ read_ready name (ok true)
          ∷ earlier
    pub before : World
    pub recorded : w' ≡ (set_state cluster addr state_done target no_text before).1

  module _ (cluster : Bytes) where
    uncordoned_ok :
        (r : Result (Unit {0})) (w : World) (cs : List Call)
        → w.calls ≡ uncordoned name r ∷ cs
        → Healthy addr name target cs
        → is_empty name ≡ false
        → (branch r
            (λ e. fail cluster addr target (show "uncordon: %v" [] e))
            (λ _. set_state cluster addr state_done target no_text)
            w).0
          ≡ ok tt
        → Confirmed cluster
            (branch r
              (λ e. fail cluster addr target (show "uncordon: %v" [] e))
              (λ _. set_state cluster addr state_done target no_text)
              w).1
    unfolding fail set_state
    uncordoned_ok (err e) w cs calls healthy named h = cc
    uncordoned_ok (ok u) w cs calls healthy named h = record {
      named = named;
      earlier = healthy.earlier;
      calls = calls ∙ ap (λ x. uncordoned name (ok tt) ∷ x) healthy.seen;
      before = w;
      recorded = refl;
    }

    waited_ok :
        (r : Result (Unit {0})) (w : World)
        → (r ≡ ok tt → Healthy addr name target w.calls)
        → is_empty name ≡ false
        → (branch r
            (λ e. fail {A = Unit {0}} cluster addr target e)
            (λ _.
              attempt
                (uncordon name)
                (λ e. fail cluster addr target (show "uncordon: %v" [] e))
                (λ _. set_state cluster addr state_done target no_text))
            w).0
          ≡ ok tt
        → Confirmed cluster
            (branch r
              (λ e. fail {A = Unit {0}} cluster addr target e)
              (λ _.
                attempt
                  (uncordon name)
                  (λ e. fail cluster addr target (show "uncordon: %v" [] e))
                  (λ _. set_state cluster addr state_done target no_text))
              w).1
    unfolding fail uncordon
    waited_ok (err e) w healthy named h = cc
    waited_ok (ok u) w healthy named h =
        uncordoned_ok (uncordon name w).0 (uncordon name w).1 w.calls refl (healthy refl) named h

    -- finishUpgrade on a node that has no name, and on one that has.
    abbrev unnamed : Exec World (Unit {0})
    unnamed =
        fail cluster addr target (errorf "node not found in cluster (cannot wait for health)" [])

    abbrev wait_named : Exec World (Unit {0})
    wait_named = do
      set_state cluster addr state_waiting_healthy target (errorf "waiting for healthy" [])
      attempt (wait_healthy wait_polls addr name target) (λ e. fail cluster addr target e)
          λ _.
            attempt (uncordon name) (λ e. fail cluster addr target (show "uncordon: %v" [] e))
              λ _. set_state cluster addr state_done target no_text

    finished_ok :
        (b : Bool) (w : World)
        → is_empty name ≡ b
        → is_empty target ≡ false
        → ((if b then unnamed else wait_named) w).0 ≡ ok tt
        → Confirmed cluster ((if b then unnamed else wait_named) w).1
    unfolding fail set_state
    finished_ok true w named ne h = cc
    finished_ok false w named ne h =
        let w1 =
          (set_state cluster addr state_waiting_healthy target (errorf "waiting for healthy" [])
            w).1 in
        let q = wait_healthy wait_polls addr name target w1 in
        waited_ok q.0 q.1 (wait_healthy-Wait addr name target ne wait_polls w1) named h

    -- A finishUpgrade towards a version that ends without an error has confirmed the node: it has
    -- a name, the last three calls saw it ready, saw it at that version and uncordoned it, and the
    -- last thing done was to put its record as done, of which a store error is dropped.
    pub finish_upgrade-Confirmed :
        (w : World)
        → is_empty target ≡ false
        → (finish_upgrade cluster addr name target w).0 ≡ ok tt
        → Confirmed cluster (finish_upgrade cluster addr name target w).1
    unfolding finish_upgrade
    finish_upgrade-Confirmed w = finished_ok (is_empty name) w refl
