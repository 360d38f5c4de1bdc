-- ===== src/Rollout/Healthy.antt =====
-- The loop of waitHealthy of internal/rollout/rollout.go, when it ends well.
use medea.Prelude.{
  subst, ℕ, zero, suc, Bytes, Bool, true, false, List, [], ◌∷◌, ◌≡◌, refl, sym, ap, ◌∙◌, ◌==◌, ◌&&◌,
  eq_iff, is_empty, if◌then◌else◌,
}
use medea.Error.{Error, Result, ok, err, Exec, return, raise, branch, attempt}
use medea.Bolt.{Bolt}
use medea.Rollout.World.{
  Remote, World, Call, or_zero, read_version, read_ready, version, node_ready, wait_done,
}
use medea.Rollout.Node.{poll, wait_healthy, timed_out}

-- A failed read is the zero value.
abbrev or_default : {A : Type 0} → A → Result A → A
or_default z (ok a) = a
or_default z (err e) = z

-- The last two calls saw the node ready and at the target version.
pub record Healthy (addr name target : Bytes) (calls : List Call) : Type 0 where
  pub earlier : List Call
  pub seen : calls ≡ read_version addr (ok target) ∷ read_ready name (ok true) ∷ earlier

seen-Healthy :
    (addr name target : Bytes) (r1 : Result Bool) (r2 : Result Bytes) (cs : List Call)
    → is_empty target ≡ false
    → (or_default false r1 && or_default [] r2 == target) ≡ true
    → Healthy addr name target (read_version addr r2 ∷ read_ready name r1 ∷ cs)
seen-Healthy addr name target (ok true) (ok v) cs ne h = record {
  earlier = cs;
  seen =
      ap (λ x. read_version addr (ok x) ∷ read_ready name (ok true) ∷ cs) ((eq_iff v target).0 h);
}
seen-Healthy addr name target (ok false) r2 cs ne h = cc
seen-Healthy addr name target (err e) r2 cs ne h = cc
seen-Healthy addr name [] (ok true) (err e) cs ne h = cc
seen-Healthy addr name (b ∷ bs) (ok true) (err e) cs ne h = cc ((eq_iff [] (b ∷ bs)).0 h)

module _ ⦃bolt : Bolt⦄ ⦃remote : Remote⦄ (addr name target : Bytes) where
  -- One look at the node.
  record Look (w : World) : Type 0 where
    pub ready : Result Bool
    pub found : Result Bytes
    pub after : World
    pub same : poll addr name w ≡ (ok (or_default false ready, or_default [] found), after)
    pub calls : after.calls ≡ read_version addr found ∷ read_ready name ready ∷ w.calls

  or_zero-default :
      {A : Type 0} (z : A) (m : Exec World A) (w : World)
      → or_zero z m w ≡ (ok (or_default z (m w).0), (m w).1)
  or_zero-default {A} z m w = read (m w).0 (m w).1
    where
      read :
          (r : Result A) (w' : World)
          → let q : Result A × World = elim r [ ok a ↦ (ok a, w') | err e ↦ (ok z, w') ] in
            q ≡ (ok (or_default z r), w')
      read (ok a) w' = refl
      read (err e) w' = refl

  look : (w : World) → Look w
  look w = record {
    ready = (node_ready name w).0;
    found = (version addr (node_ready name w).1).0;
    after = (version addr (node_ready name w).1).1;
    same =
        unfold poll in
        rw
          (
            or_zero-default false (node_ready name) w,
            or_zero-default [] (version addr) (node_ready name w).1,
          )
          refl;
    calls = unfold node_ready version in refl;
  }

  -- The end of a wait that goes well.
  abbrev pub Wait : Exec World (Unit {0}) → Type 0
  Wait m = (w : World) → (m w).0 ≡ ok tt → Healthy addr name target (m w).1.calls

  Wait-raise : (e : Error) → Wait (raise e)
  Wait-raise e w h = cc

  Wait-if : (b : Bool) (m n : Exec World (Unit {0})) → Wait m → Wait n → Wait (if b then m else n)
  Wait-if true m n hm hn = hm
  Wait-if false m n hm hn = hn

  Wait-done :
      (k : Bool → Exec World (Unit {0}))
      → ((b : Bool) → Wait (k b))
      → Wait (attempt wait_done raise k)
  unfolding wait_done
  Wait-done k hk w h =
      hk (remote.wait_done w.env).0 (record w { env = (remote.wait_done w.env).1 }) h

  module _ (ne : is_empty target ≡ false) where
    -- A turn of the loop.
    Wait-poll :
        (again : Bool × Bytes → Exec World (Unit {0}))
        → ((seen : Bool × Bytes) → Wait (again seen))
        → Wait (
            attempt
              (poll addr name)
              raise
              λ seen. if seen.0 && seen.1 == target then return tt else again seen)
    Wait-poll again ha w h =
        let l = look w in
        let turn : Bool × Bytes → Exec World (Unit {0}) =
          λ seen. if seen.0 && seen.1 == target then return tt else again seen in
        let seen : Bool × Bytes = (or_default false l.ready, or_default [] l.found) in
        let to : attempt (poll addr name) raise turn w ≡ turn seen l.after =
          ap (λ q. branch q.0 raise turn q.1) l.same in
        subst (λ q. Healthy addr name target q.1.calls) (sym to)
          (decided again ha l.ready l.found w.calls l.after l.calls (seen.0 && seen.1 == target)
            refl (sym (ap (λ q. q.0) to) ∙ h))
      where
        decided :
            (again : Bool × Bytes → Exec World (Unit {0}))
            → ((seen : Bool × Bytes) → Wait (again seen))
            → (r1 : Result Bool) (r2 : Result Bytes) (cs : List Call) (w1 : World)
            → w1.calls ≡ read_version addr r2 ∷ read_ready name r1 ∷ cs
            → (b : Bool) → (or_default false r1 && or_default [] r2 == target) ≡ b
            → ((if b then return tt else again (or_default false r1, or_default [] r2)) w1).0
              ≡ ok tt
            → Healthy addr name target
                ((if b then return tt else again (or_default false r1, or_default [] r2))
                  w1).1.calls
        decided again ha r1 r2 cs w1 calls true q h =
            subst (Healthy addr name target) (sym calls)
              (seen-Healthy addr name target r1 r2 cs ne q)
        decided again ha r1 r2 cs w1 calls false q h =
            ha (or_default false r1, or_default [] r2) w1 h

    pub wait_healthy-Wait : (n : ℕ) → Wait (wait_healthy n addr name target)
    unfolding wait_healthy
    wait_healthy-Wait zero =
        Wait-poll (λ seen. raise (timed_out addr target seen))
          (λ seen. Wait-raise (timed_out addr target seen))
    wait_healthy-Wait (suc n) =
        let next : Bool × Bytes → Bool → Exec World (Unit {0}) = λ seen over.
          if over then raise (timed_out addr target seen) else wait_healthy n addr name target in
        Wait-poll (λ seen. attempt wait_done raise (next seen))
          λ seen. Wait-done (next seen) λ over.
            Wait-if over (raise (timed_out addr target seen)) (wait_healthy n addr name target)
              (Wait-raise (timed_out addr target seen)) (wait_healthy-Wait n)
