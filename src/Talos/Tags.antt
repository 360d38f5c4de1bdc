-- ===== src/Talos/Tags.antt =====
-- What DeriveInstallerImage of internal/talos/image.go does to the tag of an image.
use medea.Prelude.{
  ℕ, Bytes, Bool, true, false, none, some, [], ◌∷◌, ◌++◌, ◌≡◌, refl, ◌||◌, nat_eq, is_empty, arith,
}
use medea.Talos.Image.{split_last, contains_byte, tagged, derive_installer_image}

neither : (a b : Bool) → (a || b) ≡ false → (a ≡ false) × (b ≡ false)
neither false false h = (refl, refl)
neither false true h = cc
neither true b h = cc

split_last-none : (c : ℕ) (s : Bytes) → contains_byte c s ≡ false → split_last c s ≡ none
unfolding split_last contains_byte
split_last-none c [] h = refl
split_last-none c (b ∷ s) h =
    let parts = neither (nat_eq b c) (contains_byte c s) h in
    rw (split_last-none c s parts.1, parts.0) refl

nat_eq_refl : (c : ℕ) → nat_eq c c ≡ true
nat_eq_refl c = ground arith

split_last-at :
    (c : ℕ) (r t : Bytes) → contains_byte c t ≡ false → split_last c (r ++ c ∷ t) ≡ some (r, t)
unfolding split_last
split_last-at c [] t h = rw (split_last-none c t h, nat_eq_refl c) refl
split_last-at c (b ∷ r) t h = rw (split_last-at c r t h) refl

tagged_nonempty : (r t : Bytes) → is_empty (tagged r t) ≡ false
unfolding tagged
tagged_nonempty [] t = refl
tagged_nonempty (b ∷ r) t = refl

-- The image derived from a repository, a colon and a tag, where the tag has no colon and no slash,
-- is the repository, a colon and the target version.
pub derive_retag :
    (repo tag target : Bytes)
    → contains_byte b':' tag ≡ false
    → contains_byte b'/' tag ≡ false
    → derive_installer_image (repo ++ b':' ∷ tag) target ≡ repo ++ b':' ∷ target
unfolding derive_installer_image tagged
derive_retag repo tag target colon slash =
    rw (tagged_nonempty repo tag, split_last-at b':' repo tag colon, slash) refl

-- The image derived from one with a registry's port and no tag, so that a slash and no further
-- colon follow the port's colon, keeps all of it and has a colon and the target version behind.
pub derive_port :
    (registry rest target : Bytes)
    → contains_byte b':' rest ≡ false
    → contains_byte b'/' rest ≡ true
    → derive_installer_image (registry ++ b':' ∷ rest) target
      ≡ (registry ++ b':' ∷ rest) ++ b':' ∷ target
unfolding derive_installer_image tagged
derive_port registry rest target colon slash =
    rw (tagged_nonempty registry rest, split_last-at b':' registry rest colon, slash) refl
