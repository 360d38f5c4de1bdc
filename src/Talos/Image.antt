-- ===== src/Talos/Image.antt =====
-- DeriveInstallerImage of internal/talos/image.go.
use medea.Prelude.{
  ℕ, Bytes, Bool, false, Option, none, some, [], ◌∷◌, ◌++◌, ◌||◌, nat_eq, is_empty, bytes,
  if◌then◌else◌,
}

unfoldable pub default_installer : Bytes
unfolding bytes
default_installer = bytes "ghcr.io/siderolabs/installer"

-- strings.LastIndex of one byte: what stands before its last place, and what after.
unfoldable pub split_last : ℕ → Bytes → Option (Bytes × Bytes)
split_last c [] = none
split_last c (b ∷ s) = elim (split_last c s) [
  | some (p, q) ↦ some (b ∷ p, q)
  | none ↦ if nat_eq b c then some ([], s) else none
]

unfoldable pub contains_byte : ℕ → Bytes → Bool
contains_byte c [] = false
contains_byte c (b ∷ s) = nat_eq b c || contains_byte c s

-- s + ":" + tag
unfoldable pub tagged : Bytes → Bytes → Bytes
tagged s tag = s ++ (b':' ∷ tag)

unfoldable pub derive_installer_image : Bytes → Bytes → Bytes
unfolding split_last contains_byte tagged default_installer
derive_installer_image current target =
    if is_empty current then tagged default_installer target else elim (split_last b':' current) [
      | some (repo, tag) ↦
          if contains_byte b'/' tag then tagged current target else tagged repo target
      | none ↦ tagged current target
    ]
