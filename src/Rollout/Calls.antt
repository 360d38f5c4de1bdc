-- ===== src/Rollout/Calls.antt =====
-- Rules for what an action of internal/rollout does to the list of calls.
use medea.Prelude.{Bool, true, false, List, ◌∷◌, ◌≡◌, refl, if◌then◌else◌}
use medea.Error.{Error, Result, ok, err, Exec, return, raise, attempt, branch}
use medea.Bolt.{Bolt}
use medea.Store.State.{Store}
use medea.Rollout.World.{Remote, World, Call, perform, local, in_store, ignore, or_zero}

module _ ⦃bolt : Bolt⦄ ⦃remote : Remote⦄ where
  -- Whatever it answers, the action keeps what `Q` says of the calls made so far.
  pub record Keeps {A : Type 0} (Q : List Call → Type 0) (m : Exec World A) : Type 0 where
    pub at : (w : World) → Q w.calls → Q (m w).1.calls

  or_zero-at :
      {A : Type 0} (Q : List Call → Type 0) (zero : A) (p : Result A × World)
      → Q p.1.calls
      → Q (or_zero zero (λ _. p) p.1).1.calls
  or_zero-at Q zero (ok a, w) h = h
  or_zero-at Q zero (err e, w) h = h

  module _ {A : Type 0} {Q : List Call → Type 0} where
    pub Keeps-return : (a : A) → Keeps Q (return a)
    Keeps-return a = record { at = λ w h. h }

    pub Keeps-raise : (e : Error) → Keeps Q (raise {A = A} e)
    Keeps-raise e = record { at = λ w h. h }

    pub Keeps-in_store : (m : Exec Store A) → Keeps Q (in_store m)
    Keeps-in_store m = record { at = λ w h. h }

    pub Keeps-local : (op : remote.Env → Result A × remote.Env) → Keeps Q (local op)
    Keeps-local op = record { at = λ w h. h }

    pub Keeps-ignore : (m : Exec World A) → Keeps Q m → Keeps Q (ignore m)
    Keeps-ignore m k = record { at = k.at }

    pub Keeps-perform :
        (op : remote.Env → Result A × remote.Env) (note : Result A → Call)
        → ((r : Result A) (cs : List Call) → Q cs → Q (note r ∷ cs))
        → Keeps Q (perform op note)
    Keeps-perform op note k = record { at = λ w h. k (op w.env).0 w.calls h }

    pub Keeps-or_zero : (zero : A) (m : Exec World A) → Keeps Q m → Keeps Q (or_zero zero m)
    Keeps-or_zero zero m k = record { at = λ w h. or_zero-at Q zero (m w) (k.at w h) }

    pub Keeps-if :
        (b : Bool) (m n : Exec World A) → Keeps Q m → Keeps Q n → Keeps Q (if b then m else n)
    Keeps-if true m n km kn = km
    Keeps-if false m n km kn = kn

  module _ {A B : Type 0} {Q : List Call → Type 0} (h : Error → Exec World B) (f : A → Exec World B)
      (kh : (e : Error) → Keeps Q (h e)) (kf : (a : A) → Keeps Q (f a)) where
    pub branch-at : (p : Result A × World) → Q p.1.calls → Q (attempt (λ w. p) h f p.1).1.calls
    branch-at (ok a, w) q = (kf a).at w q
    branch-at (err e, w) q = (kh e).at w q

  pub Keeps-attempt :
      {A B : Type 0} {Q : List Call → Type 0} (m : Exec World A) (h : Error → Exec World B)
      (f : A → Exec World B)
      → Keeps Q m
      → ((e : Error) → Keeps Q (h e))
      → ((a : A) → Keeps Q (f a))
      → Keeps Q (attempt m h f)
  Keeps-attempt m h f km kh kf = record { at = λ w q. branch-at h f kh kf (m w) (km.at w q) }

  attempt-at_go :
      {A B : Type 0} (Q : List Call → Type 0) (h : Error → Exec World B) (f : A → Exec World B)
      (r : Result A) (w : World)
      → ((e : Error) → r ≡ err e → Q (h e w).1.calls)
      → ((a : A) → r ≡ ok a → Q (f a w).1.calls)
      → Q (branch r h f w).1.calls
  attempt-at_go Q h f (ok a) w kh kf = kf a refl
  attempt-at_go Q h f (err e) w kh kf = kh e refl

  -- Where what follows needs what the call answered.
  pub attempt-at :
      {A B : Type 0} (Q : List Call → Type 0) (m : Exec World A) (h : Error → Exec World B)
      (f : A → Exec World B) (w : World)
      → ((e : Error) → (m w).0 ≡ err e → Q (h e (m w).1).1.calls)
      → ((a : A) → (m w).0 ≡ ok a → Q (f a (m w).1).1.calls)
      → Q (attempt m h f w).1.calls
  attempt-at Q m h f w kh kf = attempt-at_go Q h f (m w).0 (m w).1 kh kf

pub ruleset keeps = (
  Keeps-return, Keeps-raise, Keeps-in_store, Keeps-local, Keeps-ignore, Keeps-perform,
  Keeps-or_zero, Keeps-if, Keeps-attempt,
)
