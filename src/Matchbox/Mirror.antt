-- ===== src/Matchbox/Mirror.antt =====
-- What fetchIfAbsent of internal/provision/matchbox/matchbox.go leaves at its destination.
use medea.Prelude.{
  ℕ, Bytes, Bool, true, false, Option, none, some, [], ◌∷◌, ◌++◌, bytes, ◌≡◌, refl, ◌∙◌, ◌==◌, ltb,
  if◌then◌else◌, Bool-cases, inl, inr, arith,
}
use medea.Error.{Error, errorf, Result, ok, err, Exec, raise, ◌>>◌}
use medea.Matchbox.Disk.{Response, Disk}
use medea.Matchbox.Driver.{is_success, computed, discard, abandon, download, fetch, fetch_if_absent}
use medea.Triple.{Leads, Leads-raise, Leads-attempt, Leads-After, After}

tmp_apart : (p : Bytes) → ((p ++ bytes ".tmp") == p) ≡ false
unfolding ◌==◌ bytes
tmp_apart [] = refl
tmp_apart (b ∷ p) = ground (arith, tmp_apart p)

module _ ⦃disk : Disk⦄ (src dest : Bytes) (o : Option Bytes) where
  -- The response is what a request for the source was answered with.
  pub record Answer (resp : Response) : Type 0 where
    pub asked : disk.State
    pub answered : (disk.get src asked).0 ≡ ok resp

  -- The destination holds what it did, or the whole body of a successful answer for the source.
  pub data Whole (s : disk.State) : Type 0 where
    kept : disk.read dest s ≡ o → Whole s
    whole :
        (resp : Response)
        → Answer resp
        → is_success resp.status ≡ true
        → disk.read dest s ≡ some resp.body
        → Whole s

  tmp : Bytes
  tmp = dest ++ bytes ".tmp"

  abbrev Same : disk.State → Type 0
  Same s = disk.read dest s ≡ o

  keeps :
      {A : Type 0} (m : Exec disk.State A)
      → ((s : disk.State) → disk.read dest (m s).1 ≡ disk.read dest s)
      → Leads Same Same m
  keeps m h = record { at = λ s q. h s ∙ q }

  raised : {A : Type 0} (e : Error) → Leads Same Whole (raise {A = A} e)
  raised e = Leads-raise (λ s q. kept q) e

  create-Same : Leads Same Same (disk.create tmp)
  unfolding tmp
  create-Same = keeps (disk.create tmp) (λ s. disk.create_other tmp dest s (tmp_apart dest))

  discard-Same : Leads Same Same (discard tmp)
  unfolding tmp
  discard-Same = keeps (discard tmp) (λ s. disk.remove_other tmp dest s (tmp_apart dest))

  abandon-Same : Leads Same Same (abandon tmp)
  abandon-Same = keeps (abandon tmp) (disk.close_keeps tmp dest)

  -- With the whole body in the temporary file.
  abbrev Ready : Response → disk.State → Type 0
  Ready resp s = Same s × (disk.read tmp s ≡ some resp.body)

  close-Ready : (resp : Response) → Leads (Ready resp) (Ready resp) (disk.close tmp)
  close-Ready resp = record {
    at = λ s r. (disk.close_keeps tmp dest s ∙ r.0, disk.close_keeps tmp tmp s ∙ r.1);
  }

  rename-Whole :
      (resp : Response)
      → Answer resp
      → is_success resp.status ≡ true
      → Leads (Ready resp) Whole (disk.rename tmp dest)
  rename-Whole resp came fine = record { at = λ s r. moved s r (disk.rename tmp dest s).0 refl }
    where
      moved :
          (s : disk.State)
          → Ready resp s
          → (x : Result (Unit {0})) → (disk.rename tmp dest s).0 ≡ x
          → Whole (disk.rename tmp dest s).1
      moved s r (ok u) q = whole resp came fine (disk.rename_moves tmp dest s q ∙ r.1)
      moved s r (err e) q = kept (disk.rename_refused tmp dest dest e s q ∙ r.0)

  copied :
      (resp : Response) (s : disk.State)
      → Same s
      → (x : Result (Unit {0})) → (disk.copy tmp resp s).0 ≡ x
      → After (λ u. Ready resp) (λ e. Same) x (disk.copy tmp resp s).1
  unfolding tmp
  copied resp s q (ok u) e =
      (disk.copy_other tmp dest resp s (tmp_apart dest) ∙ q, disk.copy_whole tmp resp s e)
  copied resp s q (err x) e = disk.copy_other tmp dest resp s (tmp_apart dest) ∙ q

  then_raised :
      {A : Type 0} (m : Exec disk.State (Unit {0})) (e : Error)
      → Leads Same Same m
      → Leads Same Whole (m >> raise {A = A} e)
  then_raised m e h = Leads-attempt m raise _ h raised (λ _. raised e)

  download-Whole :
      (resp : Response)
      → Answer resp
      → is_success resp.status ≡ true
      → Leads Same Whole (download dest resp)
  unfolding download tmp
  download-Whole resp came fine = Leads-attempt (disk.create tmp) raise _ create-Same raised λ _.
      Leads-After (λ u. Ready resp) (λ e. Same) (disk.copy tmp resp) _ _
        (λ s q. copied resp s q (disk.copy tmp resp s).0 refl)
        (λ e. then_raised (abandon tmp >> discard tmp) _ (
          Leads-attempt (abandon tmp) raise _ abandon-Same (Leads-raise (λ s q. q))
            (λ _. discard-Same)))
        λ _.
          Leads-attempt (disk.close tmp) _ _ (close-Ready resp)
            (λ e. record {
              at = λ s r. (then_raised {A = Unit {0}} (discard tmp) e discard-Same).at s r.0;
            })
            (λ _. rename-Whole resp came fine)

  fetch-Whole : Leads Same Whole (fetch src dest)
  unfolding fetch
  fetch-Whole =
      Leads-attempt (disk.mkdir_all (disk.dir dest)) _ _
        (keeps (disk.mkdir_all (disk.dir dest)) (disk.mkdir_all_keeps (disk.dir dest) dest))
        (λ e. raised _)
        λ _.
          Leads-attempt (computed (disk.new_request src)) raise _
            (keeps (computed (disk.new_request src)) (λ s. refl)) raised
            λ _.
              Leads-After (λ resp s. Same s × Answer resp) (λ e. Same) (disk.get src) _ _
                (λ s q. got s q (disk.get src s).0 refl) (λ e. raised _)
                (λ resp. record {
                  at = λ s g. (judged resp g.1 (is_success resp.status) refl).at s g.0;
                })
    where
      got :
          (s : disk.State)
          → Same s
          → (x : Result Response) → (disk.get src s).0 ≡ x
          → After (λ resp t. Same t × Answer resp) (λ e. Same) x (disk.get src s).1
      got s q (ok resp) k = (disk.get_keeps src dest s ∙ q, record { asked = s; answered = k })
      got s q (err e) k = disk.get_keeps src dest s ∙ q

      judged :
          (resp : Response)
          → Answer resp
          → (b : Bool) → is_success resp.status ≡ b
          → Leads Same Whole (
              if b
              then download dest resp
              else raise (errorf "matchbox: mirror %s: status %d" (src ∷ [])))
      judged resp came true q = download-Whole resp came q
      judged resp came false q = raised (errorf "matchbox: mirror %s: status %d" (src ∷ []))

  fetch_if_absent-Whole : Leads Same Whole (fetch_if_absent src dest)
  unfolding fetch_if_absent
  fetch_if_absent-Whole = record { at = λ s q. on s q (disk.stat dest s) }
    where
      on :
          (s : disk.State)
          → Same s
          → (x : Option ℕ)
          → Whole
              (elim x as (λ _. Result (Unit {0}) × disk.State) [
                | none ↦ fetch src dest s
                | some size ↦ if ltb 0 size then (ok tt, s) else fetch src dest s
              ]).1
      on s q none = fetch-Whole.at s q
      on s q (some size) = elim (Bool-cases (ltb 0 size)) [
        | inl there ↦ rw there (kept q)
        | inr empty ↦ rw empty (fetch-Whole.at s q)
      ]

-- After fetchIfAbsent, however it ends and wherever it was interrupted by an error, the
-- destination holds what it held before or the whole body of an answer with a 2xx status to a
-- request for the source.
pub fetched-Whole :
    ⦃disk : Disk⦄
    → (src dest : Bytes) (s : disk.State)
    → Whole src dest (disk.read dest s) (fetch_if_absent src dest s).1
fetched-Whole ⦃disk⦄ src dest s = (fetch_if_absent-Whole src dest (disk.read dest s)).at s refl
