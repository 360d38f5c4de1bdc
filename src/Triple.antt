-- ===== src/Triple.antt =====
-- Rules for what an action does to its state, whatever it answers.
use medea.Prelude.{Bool, true, false, ◌≡◌, refl, if◌then◌else◌}
use medea.Error.{Error, Result, ok, err, Exec, return, raise, attempt, branch}

-- From a state where `P` holds the action leads to one where `Q` does.
pub record Leads {S A : Type 0} (P Q : S → Type 0) (m : Exec S A) : Type 0 where
  pub at : (s : S) → P s → Q (m s).1

module _ {S A : Type 0} {P Q : S → Type 0} where
  pub Leads-return : ((s : S) → P s → Q s) → (a : A) → Leads P Q (return a)
  Leads-return weaken a = record { at = weaken }

  pub Leads-raise : ((s : S) → P s → Q s) → (e : Error) → Leads P Q (raise {A = A} e)
  Leads-raise weaken e = record { at = weaken }

  pub Leads-if :
      (b : Bool) (m n : Exec S A) → Leads P Q m → Leads P Q n → Leads P Q (if b then m else n)
  Leads-if true m n hm hn = hm
  Leads-if false m n hm hn = hn

  pub Leads-weaken : (m : Exec S A) → ((s : S) → P s → Q s) → Leads P P m → Leads P Q m
  Leads-weaken m weaken h = record { at = λ s p. weaken (m s).1 (h.at s p) }

module _ {S A B : Type 0} {R Q : S → Type 0} where
  branch-Leads :
      (h : Error → Exec S B) (f : A → Exec S B)
      → ((e : Error) → Leads R Q (h e))
      → ((a : A) → Leads R Q (f a))
      → (r : Result A) (s : S) → R s
      → Q (branch r h f s).1
  branch-Leads h f kh kf (ok a) s p = (kf a).at s p
  branch-Leads h f kh kf (err e) s p = (kh e).at s p

module _ {S A B : Type 0} {P R Q : S → Type 0} where
  pub Leads-through :
      (m : Exec S A) (h : Error → Exec S B) (f : A → Exec S B)
      → Leads P R m
      → ((e : Error) → Leads R Q (h e))
      → ((a : A) → Leads R Q (f a))
      → Leads P Q (attempt m h f)
  Leads-through m h f km kh kf = record {
    at = λ s p. branch-Leads h f kh kf (m s).0 (m s).1 (km.at s p);
  }

module _ {S A B : Type 0} {P Q : S → Type 0} where
  -- A step that keeps what is known.
  pub Leads-attempt :
      (m : Exec S A) (h : Error → Exec S B) (f : A → Exec S B)
      → Leads P P m
      → ((e : Error) → Leads P Q (h e))
      → ((a : A) → Leads P Q (f a))
      → Leads P Q (attempt m h f)
  Leads-attempt m h f km kh kf = Leads-through m h f km kh kf

  -- A step after which what follows needs the answer.
  pub Leads-answer :
      (m : Exec S A) (h : Error → Exec S B) (f : A → Exec S B)
      → ((s : S) (e : Error) → P s → (m s).0 ≡ err e → Q (h e (m s).1).1)
      → ((s : S) (a : A) → P s → (m s).0 ≡ ok a → Q (f a (m s).1).1)
      → Leads P Q (attempt m h f)
  Leads-answer m h f kh kf = record { at = λ s p. go (m s).0 s p refl }
    where
      go : (r : Result A) (s : S) → P s → (m s).0 ≡ r → Q (branch r h f (m s).1).1
      go (ok a) s p e = kf s a p e
      go (err x) s p e = kh s x p e

-- What is known after a step, by its answer.
abbrev pub After : {S A : Type 0} → (A → S → Type 0) → (Error → S → Type 0) → Result A → S → Type 0
After good bad (ok a) s = good a s
After good bad (err e) s = bad e s

module _ {S A B : Type 0} {P Q : S → Type 0} where
  pub Leads-After :
      (good : A → S → Type 0) (bad : Error → S → Type 0) (m : Exec S A) (h : Error → Exec S B)
      (f : A → Exec S B)
      → ((s : S) → P s → After good bad (m s).0 (m s).1)
      → ((e : Error) → Leads (bad e) Q (h e))
      → ((a : A) → Leads (good a) Q (f a))
      → Leads P Q (attempt m h f)
  Leads-After good bad m h f km kh kf = record { at = λ s p. go (m s).0 (m s).1 (km s p) }
    where
      go : (r : Result A) (s : S) → After good bad r s → Q (branch r h f s).1
      go (ok a) s q = (kf a).at s q
      go (err e) s q = (kh e).at s q

-- A branch, by what is known of the answer and the state.
pub by_answer :
    {S A B : Type 0} (R : Result A → S → Type 0) (Q : Result B → S → Type 0) (h : Error → Exec S B)
    (f : A → Exec S B)
    → ((e : Error) (s : S) → R (err e) s → Q (h e s).0 (h e s).1)
    → ((a : A) (s : S) → R (ok a) s → Q (f a s).0 (f a s).1)
    → (r : Result A) (s : S) → R r s
    → Q (branch r h f s).0 (branch r h f s).1
by_answer R Q h f kh kf (ok a) s p = kf a s p
by_answer R Q h f kh kf (err e) s p = kh e s p
