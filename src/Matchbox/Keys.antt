-- ===== src/Matchbox/Keys.antt =====
-- The file names that keyFor of internal/provision/matchbox/matchbox.go makes.
use medea.Prelude.{ℕ, Bytes, Bool, true, false, [], ◌∷◌, ◌≡◌, not, refl, nat_eq, ◌&&◌, arith}
use medea.Talos.Image.{contains_byte}
use medea.Provision.Bootstrap.{lower}
use medea.Matchbox.Driver.{dashed, key_for}

key_byte :
    (c : ℕ)
    → (nat_eq (dashed (lower c)) b':' ≡ false)
      × (nat_eq (dashed (lower c)) b'/' ≡ false)
      × (nat_eq (dashed (lower c)) b' ' ≡ false)
unfolding dashed lower
key_byte c = ground arith

-- No byte of the text is one of the three that are replaced.
unfoldable pub is_clean : Bytes → Bool
unfolding contains_byte
is_clean s = not (contains_byte b':' s) && not (contains_byte b'/' s) && not (contains_byte b' ' s)

key_for-clean :
    (mac : Bytes)
    → (contains_byte b':' (key_for mac) ≡ false)
      × (contains_byte b'/' (key_for mac) ≡ false)
      × (contains_byte b' ' (key_for mac) ≡ false)
unfolding key_for contains_byte
key_for-clean [] = (refl, refl, refl)
key_for-clean (c ∷ mac) =
    let here = key_byte c in
    let rest = key_for-clean mac in
    (rw (here.0, rest.0) refl, rw (here.1, rest.1) refl, rw (here.2, rest.2) refl)

key_byte_twice : (c : ℕ) → dashed (lower (dashed (lower c))) ≡ dashed (lower c)
unfolding dashed lower
key_byte_twice c = ground arith

key_for-key_for : (mac : Bytes) → key_for (key_for mac) ≡ key_for mac
unfolding key_for
key_for-key_for [] = refl
key_for-key_for (c ∷ mac) = rw (key_byte_twice c, key_for-key_for mac) refl

-- A host's key has no colon, slash or space, and is its own key.
pub key_for_safe :
    (mac : Bytes) → (is_clean (key_for mac) ≡ true) × (key_for (key_for mac) ≡ key_for mac)
unfolding is_clean
key_for_safe mac =
    let clean = key_for-clean mac in (rw (clean.0, clean.1, clean.2) refl, key_for-key_for mac)
