-- ===== src/Examples/Images.antt =====
-- Runs of internal/talos/image.go.
use medea.Prelude.{◌≡◌, refl, ◌++◌, ◌∷◌, bytes, Bytes}
use medea.Talos.Image.{contains_byte, derive_installer_image}
use medea.Talos.Tags.{derive_retag, derive_port}

-- A registry with a port, and no tag.
abbrev ported : Bytes
ported = bytes "registry:5000/siderolabs/installer"

derive_retag_example :
    derive_installer_image (ported ++ b':' ∷ bytes "v1") (bytes "v2") ≡ ported ++ b':' ∷ bytes "v2"
unfolding contains_byte bytes
derive_retag_example = derive_retag ported (bytes "v1") (bytes "v2") refl refl

derive_port_example :
    derive_installer_image
      (bytes "registry" ++ b':' ∷ bytes "5000/siderolabs/installer")
      (bytes "v2")
    ≡ (bytes "registry" ++ b':' ∷ bytes "5000/siderolabs/installer") ++ b':' ∷ bytes "v2"
unfolding contains_byte bytes
derive_port_example =
    derive_port (bytes "registry") (bytes "5000/siderolabs/installer") (bytes "v2") refl refl
