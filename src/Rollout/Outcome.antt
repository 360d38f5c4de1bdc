-- ===== src/Rollout/Outcome.antt =====
-- What a pass of internal/rollout/rollout.go has done when its loop ends, with an error or without.
use medea.Prelude.{Bytes, List, [], ◌∷◌, ◌++◌, ◌≡◌, refl, ap, sym, ◌∙◌, subst}
use medea.Error.{Error, Result, ok, err}
use medea.Bolt.{Bolt}
use medea.Rollout.World.{Remote, World}
use medea.Rollout.Pool.{Pass, Flow, next, stop, roll_member, roll}
use medea.Rollout.Halting.{FailedAt, roll_member-Halts}

module _ ⦃bolt : Bolt⦄ ⦃remote : Remote⦄ (p : Pass) where
  -- The members before one were gone through, and the pass ended at that one, as failed there.
  pub record HaltedAt (addrs : List Bytes) (w : World) (e : Error) : Type 0 where
    pub before : List Bytes
    pub at : Bytes
    pub after : List Bytes
    pub split : addrs ≡ before ++ at ∷ after
    pub passed : (roll p before w).0 ≡ ok tt
    pub last : (roll p addrs w).1 ≡ (roll_member p at (roll p before w).1).1
    pub failed : FailedAt p at e (roll p addrs w).1

  roll-nil : (w : World) → roll p [] w ≡ (ok tt, w)
  unfolding roll
  roll-nil w = refl

  roll-next :
      (addr : Bytes) (addrs : List Bytes) (w w1 : World)
      → roll_member p addr w ≡ (ok next, w1)
      → roll p (addr ∷ addrs) w ≡ roll p addrs w1
  unfolding roll
  roll-next addr addrs w w1 h = rw h refl

  roll-err :
      (addr : Bytes) (addrs : List Bytes) (w w1 : World) (e : Error)
      → roll_member p addr w ≡ (err e, w1)
      → roll p (addr ∷ addrs) w ≡ (err e, w1)
  unfolding roll
  roll-err addr addrs w w1 e h = rw h refl

  roll-stop :
      (addr : Bytes) (addrs : List Bytes) (w w1 : World)
      → roll_member p addr w ≡ (ok stop, w1)
      → roll p (addr ∷ addrs) w ≡ (ok tt, w1)
  unfolding roll
  roll-stop addr addrs w w1 h = rw h refl

  halt_here :
      (addr : Bytes) (addrs : List Bytes) (w w1 : World) (e : Error)
      → roll_member p addr w ≡ (err e, w1)
      → HaltedAt (addr ∷ addrs) w e
  unfolding roll
  halt_here addr addrs w w1 e h =
      let ended = roll-err addr addrs w w1 e h in
      record {
        before = [];
        at = addr;
        after = addrs;
        split = refl;
        passed = refl;
        last = ap (λ q. q.1) ended ∙ sym (ap (λ q. q.1) h);
        failed =
            subst (FailedAt p addr e) (ap (λ q. q.1) h ∙ sym (ap (λ q. q.1) ended))
              ((roll_member-Halts p addr).at w e (ap (λ q. q.0) h));
      }

  halt_later :
      (addr : Bytes) (addrs : List Bytes) (w w1 : World) (e : Error)
      → roll_member p addr w ≡ (ok next, w1)
      → HaltedAt addrs w1 e
      → HaltedAt (addr ∷ addrs) w e
  halt_later addr addrs w w1 e h halted =
      let same = roll-next addr addrs w w1 h in
      let up = roll-next addr halted.before w w1 h in
      record {
        before = addr ∷ halted.before;
        at = halted.at;
        after = halted.after;
        split = ap (λ l. addr ∷ l) halted.split;
        passed = ap (λ q. q.0) up ∙ halted.passed;
        last =
            ap (λ q. q.1) same ∙ halted.last ∙ ap (λ q. (roll_member p halted.at q.1).1) (sym up);
        failed = subst (FailedAt p halted.at e) (ap (λ q. q.1) (sym same)) halted.failed;
      }

  halt_at :
      (addr : Bytes) (addrs : List Bytes) (w : World) (e : Error)
      → ((w1 : World) → (roll p addrs w1).0 ≡ err e → HaltedAt addrs w1 e)
      → (q : Result Flow × World) → roll_member p addr w ≡ q
      → (roll p (addr ∷ addrs) w).0 ≡ err e
      → HaltedAt (addr ∷ addrs) w e
  halt_at addr addrs w e ih (ok next, w1) h failed =
      halt_later addr addrs w w1 e h
        (ih w1 (sym (ap (λ q. q.0) (roll-next addr addrs w w1 h)) ∙ failed))
  halt_at addr addrs w e ih (ok stop, w1) h failed =
      cc (ap (λ q. q.0) (roll-stop addr addrs w w1 h))
  halt_at addr addrs w e ih (err x, w1) h failed =
      let x≡e : x ≡ e = cc (sym (ap (λ q. q.0) (roll-err addr addrs w w1 x h)) ∙ failed) in
      halt_here addr addrs w w1 e (h ∙ ap (λ y. (err y, w1)) x≡e)

  -- If the loop over a pool's members ends with an error, it is the one that names a member as the
  -- node where the rollout halted, and the last thing that the loop did was to put that member's
  -- record as failed, of which a store error is dropped; the members before it were gone through
  -- with no error, and for those after it nothing was done.
  pub roll_halts :
      (addrs : List Bytes) (w : World) (e : Error) → (roll p addrs w).0 ≡ err e → HaltedAt addrs w e
  roll_halts [] w e h = cc (roll-nil w)
  roll_halts (addr ∷ addrs) w e h =
      halt_at addr addrs w e (λ w1. roll_halts addrs w1 e) (roll_member p addr w) refl h
