-- ===== src/Creds/Steps.antt =====
-- What a write has to show to be a step of the interface of internal/creds.
use medea.Prelude.{Bytes, Option, none, ◌≡◌, sym, false}
use medea.Error.{Result, Exec, return, raise, attempt}
use medea.Triple.{After, by_answer}
use medea.Creds.Interface.{
  Part, Contents, Op, cluster_of, effect, answer, may_touch, Apart, Step, went, failed,
}

module _ {S : Type 0} (contents : S → Contents) where
  -- The cluster's own parts after a write, by its answer, and those of the others.
  abbrev pub DidOf : Op → S → Result (Unit {0}) → S → Type 0
  DidOf op s =
      After
        (λ _ s'.
          ((p : Part) → contents s' (cluster_of op) p ≡ effect op (contents s (cluster_of op)) p)
          × Apart (cluster_of op) (contents s) (contents s'))
        (λ _ s'.
          ((p : Part)
            → may_touch op p ≡ false
            → contents s' (cluster_of op) p ≡ contents s (cluster_of op) p)
          × Apart (cluster_of op) (contents s) (contents s'))

  pub write-Step :
      (op : Op) (m : Exec S (Unit {0})) (s : S)
      → answer op (contents s (cluster_of op)) ≡ none
      → DidOf op s (m s).0 (m s).1
      → let x = attempt m raise (λ _. return none) s in Step op (contents s) (contents x.1) x.0
  write-Step op m s a h =
      by_answer {A = Unit {0}} (DidOf op s)
        (λ (r : Result (Option Bytes)) s'. Step op (contents s) (contents s') r) raise
        (λ _. return none) (λ e s' d. failed e d.0 d.1) (λ u s' d. went none (sym a) d.0 d.1)
        (m s).0 (m s).1 h
