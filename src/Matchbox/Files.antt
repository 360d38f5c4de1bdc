-- ===== src/Matchbox/Files.antt =====
-- Which files Unstage and fetchIfAbsent of internal/provision/matchbox/matchbox.go change.
use medea.Prelude.{
  Bytes, Bool, true, false, Option, none, List, [], ◌∷◌, ◌≡◌, refl, sym, ap, ◌∙◌, subst, ◌==◌, ◌++◌,
  bytes, inl, inr, if◌then◌else◌, Bool-cases,
}
use medea.Error.{wrap, Result, ok, err, Exec, raise, branch}
use mathlib.Core.List.{Memᴰ}
use medea.Matchbox.Disk.{Removal, removed, missing, refused, Disk}
use medea.Matchbox.Driver.{
  Server, key_for, path, remove_if_there, host_files, remove_files, unstage_files,
}
use medea.Triple.{Leads, Leads-return, Leads-raise, Leads-attempt}
use mathlib.Core.List.Memᴰ.{not-nil, cases_cons, head, tail}

-- The path is none of the files.
unfoldable pub is_apart : List Bytes → Bytes → Bool
is_apart [] p = true
is_apart (f ∷ fs) p = if f == p then false else is_apart fs p

module _ ⦃disk : Disk⦄ where
  -- The paths of a host's group, profile and generic config.
  abbrev pub group_file : Server → Bytes → Bytes
  group_file m mac = disk.join (m.root ∷ bytes "groups" ∷ (key_for mac ++ bytes ".json") ∷ [])

  abbrev pub profile_file : Server → Bytes → Bytes
  profile_file m mac = disk.join (m.root ∷ bytes "profiles" ∷ (key_for mac ++ bytes ".json") ∷ [])

  abbrev pub generic_file : Server → Bytes → Bytes
  generic_file m mac = disk.join (m.root ∷ bytes "generic" ∷ key_for mac ∷ [])

  -- The three files are gone, and the others are as they were.
  pub record Cleared (m : Server) (mac : Bytes) (s s' : disk.State) : Type 0 where
    pub no_group : disk.read (group_file m mac) s' ≡ none
    pub no_profile : disk.read (profile_file m mac) s' ≡ none
    pub no_generic : disk.read (generic_file m mac) s' ≡ none
    pub others :
        (p : Bytes)
        → is_apart (group_file m mac ∷ profile_file m mac ∷ generic_file m mac ∷ []) p ≡ true
        → disk.read p s' ≡ disk.read p s

  remove_if_there-state :
      (f : Bytes) (s : disk.State) → (remove_if_there f s).1 ≡ (disk.remove f s).1
  remove_if_there-state f s = on (disk.remove f s).0
    where
      on :
          (r : Removal)
          → (elim r as (λ _. Result (Unit {0}) × disk.State) [
            | removed ↦ (ok tt, (disk.remove f s).1)
            | missing ↦ (ok tt, (disk.remove f s).1)
            | refused e ↦ (err (wrap "matchbox: remove %s: %w" (f ∷ []) e), (disk.remove f s).1)
          ]).1
            ≡ (disk.remove f s).1
      on removed = refl
      on missing = refl
      on (refused e) = refl

  remove_if_there-gone :
      (f : Bytes) (s : disk.State)
      → (remove_if_there f s).0 ≡ ok tt
      → disk.read f (remove_if_there f s).1 ≡ none
  remove_if_there-gone f s h =
      ap (disk.read f) (remove_if_there-state f s) ∙ on (disk.remove f s).0 refl h
    where
      on :
          (r : Removal)
          → (disk.remove f s).0 ≡ r
          → (elim r as (λ _. Result (Unit {0}) × disk.State) [
            | removed ↦ (ok tt, (disk.remove f s).1)
            | missing ↦ (ok tt, (disk.remove f s).1)
            | refused e ↦ (err (wrap "matchbox: remove %s: %w" (f ∷ []) e), (disk.remove f s).1)
          ]).0
            ≡ ok tt
          → disk.read f (disk.remove f s).1 ≡ none
      on removed q h = disk.remove_gone f s q
      on missing q h = disk.remove_missing f s q
      on (refused e) q h = cc

  -- A first step that must have gone through.
  first_ok :
      (x : Result (Unit {0})) (m : Exec disk.State (Unit {0})) (t : disk.State)
      → (branch x raise (λ _. m) t).0 ≡ ok tt
      → (x ≡ ok tt) × (branch x raise (λ _. m) t ≡ m t)
  first_ok (ok u) m t h = (refl, refl)
  first_ok (err e) m t h = cc

  keeps_gone :
      (fs : List Bytes) (p : Bytes)
      → Leads (λ s. disk.read p s ≡ none) (λ s. disk.read p s ≡ none) (remove_files fs)
  unfolding remove_files
  keeps_gone [] p = Leads-return (λ s h. h) tt
  keeps_gone (f ∷ fs) p =
      Leads-attempt (remove_if_there f) raise _
        (record {
          at = λ s h. ap (disk.read p) (remove_if_there-state f s) ∙ disk.remove_keeps f p s h;
        })
        (Leads-raise (λ s h. h)) (λ _. keeps_gone fs p)

  keeps_others :
      (fs : List Bytes) (p : Bytes) (o : Option Bytes)
      → is_apart fs p ≡ true
      → Leads (λ s. disk.read p s ≡ o) (λ s. disk.read p s ≡ o) (remove_files fs)
  unfolding remove_files is_apart
  keeps_others [] p o h = Leads-return (λ s q. q) tt
  keeps_others (f ∷ fs) p o h = elim (Bool-cases (f == p)) [
    | inl hit ↦ cc (h, hit)
    | inr miss ↦
        Leads-attempt (remove_if_there f) raise _
          (record {
            at = λ s q.
                ap (disk.read p) (remove_if_there-state f s) ∙ (disk.remove_other f p s miss ∙ q);
          })
          (Leads-raise (λ s q. q)) (λ _. keeps_others fs p o (cc (h, miss)))
  ]

  all_gone :
      (fs : List Bytes) (s : disk.State)
      → (remove_files fs s).0 ≡ ok tt
      → (f : Bytes) → Memᴰ f fs
      → disk.read f (remove_files fs s).1 ≡ none
  unfolding remove_files
  all_gone [] s h f m = elim (not-nil m) [ ]
  all_gone (g ∷ fs) s h f m =
      let t = (remove_if_there g s).1 in
      let first = first_ok (remove_if_there g s).0 (remove_files fs) t h in
      let after = ap (λ x. disk.read f x.1) first.1 in
      elim (cases_cons m) [
        | inl e ↦
            after
            ∙ (keeps_gone fs f).at t
                (subst (λ k. disk.read k t ≡ none) (sym e) (remove_if_there-gone g s first.0))
        | inr later ↦ after ∙ all_gone fs t (sym (ap (λ x. x.0) first.1) ∙ h) f later
      ]

  -- After an Unstage that returns no error the host's group, profile and generic config are gone,
  -- also where some were missing before, and every file of another path is as it was.
  pub unstage_files-Cleared :
      (m : Server) (mac : Bytes) (s : disk.State)
      → (unstage_files m mac s).0 ≡ ok tt
      → Cleared m mac s (unstage_files m mac s).1
  unfolding unstage_files host_files path
  unstage_files-Cleared m mac s h = record {
    no_group = all_gone (host_files m mac) s h _ (head refl);
    no_profile = all_gone (host_files m mac) s h _ (tail (head refl));
    no_generic = all_gone (host_files m mac) s h _ (tail (tail (head refl)));
    others = λ p q. (keeps_others (host_files m mac) p (disk.read p s) q).at s refl;
  }
