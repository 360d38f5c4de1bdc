-- ===== src/Provision/Config.antt =====
-- The rendering of machine configs (internal/provision/config.go), and the images and boot assets of
-- schematic.go.
use medea.Prelude.{
  Bytes, Bool, false, Option, none, some, List, [], ◌∷◌, ◌++◌, bytes, if◌then◌else◌, is_empty,
  trim_prefix, ◌||◌, ◌&&◌, not,
}
use medea.Error.{errorf, wrap, Exec, return, raise, attempt}
use medea.Bolt.{Bolt}
use medea.Provision.Site.{Site, type_worker, type_controlplane, Plant, outside, pure}

abbrev pub default_factory_host : Bytes
default_factory_host = bytes "factory.talos.dev"

unfoldable pub host_or_default : Bytes → Bytes
host_or_default host = if is_empty host then default_factory_host else host

-- fmt.Sprintf("%s/metal-installer/%s:%s", host, schematicID, version)
unfoldable pub factory_image : Bytes → Bytes → Bytes → Bytes
unfolding host_or_default bytes
factory_image host schematic version =
    host_or_default host ++ (bytes "/metal-installer/" ++ (schematic ++ (bytes ":" ++ version)))

unfoldable pub boot_assets : Bytes → Bytes → Bytes → Bytes → Bytes × List Bytes
unfolding host_or_default bytes
boot_assets host schematic version arch =
    let arch' = if is_empty arch then bytes "amd64" else arch in
    let base =
      bytes "https://"
      ++ (host_or_default host ++ (bytes "/image/" ++ (schematic ++ (bytes "/" ++ version)))) in
    (
      base ++ (bytes "/kernel-" ++ arch'),
      (base ++ (bytes "/initramfs-" ++ (arch' ++ bytes ".xz"))) ∷ [],
    )

-- One line for each extension.
unfoldable pub extension_lines : List Bytes → Bytes
unfolding bytes
extension_lines [] = []
extension_lines (e ∷ es) = bytes "      - " ++ (e ++ (10 ∷ extension_lines es))

unfoldable pub schematic_yaml : List Bytes → Bytes
unfolding extension_lines bytes
schematic_yaml extensions =
    if is_empty extensions
    then bytes "customization: {}" ++ (10 ∷ [])
    else bytes "customization:"
      ++ (10
          ∷ (bytes "  systemExtensions:"
              ++ (10 ∷ (bytes "    officialExtensions:" ++ (10 ∷ extension_lines extensions)))))

unfoldable pub k8s_image_version : Bytes → Bytes
unfolding bytes trim_prefix
k8s_image_version v = trim_prefix v (bytes "v")

-- `if x != "" { … With(x) }`
unfoldable pub non_empty : Bytes → Option Bytes
non_empty s = if is_empty s then none else some s

unfoldable pub cni_proxy_patch : Bytes → Bool → Option Bytes
unfolding bytes
cni_proxy_patch cni disable_kube_proxy =
    if is_empty cni && not disable_kube_proxy
    then none
    else some (
        bytes "cluster:"
        ++ (10
            ∷ ((if is_empty cni
                  then []
                  else bytes "  network:"
                    ++ (10
                        ∷ (bytes "    cni:"
                            ++ (10 ∷ (bytes "      name: " ++ (cni ++ (10 ∷ [])))))))
                ++ (if disable_kube_proxy
                    then bytes "  proxy:" ++ (10 ∷ (bytes "    disabled: true" ++ (10 ∷ [])))
                    else []))))

module _ ⦃bolt : Bolt⦄ ⦃site : Site⦄ where
  -- The two records of inputs, WorkerConfigInput and ControlPlaneConfigInput. A nil bundle is `none`.
  pub record WorkerConfigInput : Type 0 where
    pub cluster_name : Bytes
    pub endpoint : Bytes
    pub kubernetes_version : Bytes
    pub install_disk : Bytes
    pub install_image : Bytes
    pub secrets : Option site.Bundle

  pub record ControlPlaneConfigInput : Type 0 where
    pub cluster_name : Bytes
    pub endpoint : Bytes
    pub kubernetes_version : Bytes
    pub install_disk : Bytes
    pub install_image : Bytes
    pub secrets : Option site.Bundle
    pub schedulable : Bool
    pub cni : Bytes
    pub disable_kube_proxy : Bool
    pub patches : List Bytes

  -- The tests that both begin with.
  abbrev pub with_bundle :
      {A : Type 0} → Option site.Bundle → Bool → (site.Bundle → Exec Plant A) → Exec Plant A
  with_bundle secrets unnamed f = elim secrets [
    | none ↦ raise (errorf "provision: secrets bundle required" [])
    | some b ↦
        if unnamed
        then raise (errorf "provision: cluster name and control-plane endpoint required" [])
        else f b
  ]

  unfoldable pub render_worker_config : WorkerConfigInput → Exec Plant Bytes
  unfolding k8s_image_version non_empty
  render_worker_config i =
      with_bundle i.secrets (is_empty i.cluster_name || is_empty i.endpoint) λ b.
        attempt
          (outside (
            site.new_input (record {
              cluster_name = i.cluster_name;
              endpoint = i.endpoint;
              kubernetes_version = k8s_image_version i.kubernetes_version;
              bundle = b;
              schedulable = none;
              install_disk = non_empty i.install_disk;
              install_image = non_empty i.install_image;
            })))
          (λ e. raise (wrap "provision: build config input: %w" [] e))
          λ input.
            attempt (outside (site.config input type_worker))
              (λ e. raise (wrap "provision: render worker config: %w" [] e))
              λ prov. pure (site.encode prov)

  unfoldable pub generate_bundle : Exec Plant site.Bundle
  generate_bundle =
      attempt (outside site.new_bundle)
        (λ e. raise (wrap "provision: generate secrets bundle: %w" [] e)) return

  unfoldable pub load_secrets_bundle : Bytes → Exec Plant site.Bundle
  load_secrets_bundle b =
      attempt (pure (site.parse_bundle b))
        (λ e. raise (wrap "provision: parse secrets bundle: %w" [] e)) return

  -- The patch's number is left out of the text of an error.
  unfoldable pub load_patches : List Bytes → Exec Plant (List site.Patch)
  load_patches [] = return []
  load_patches (p ∷ ps) =
      let rest = load_patches ps in
      attempt (pure (site.load_patch p)) (λ e. raise (wrap "provision: load patch %d: %w" [] e))
        λ patch. attempt rest raise λ more. return (patch ∷ more)

  unfoldable pub apply_patches : Bytes → List Bytes → Exec Plant Bytes
  unfolding load_patches
  apply_patches config patches = attempt (load_patches patches) raise λ loaded.
      attempt (pure (site.apply_patch config loaded))
        (λ e. raise (wrap "provision: apply patches: %w" [] e)) return

  unfoldable pub all_patches : ControlPlaneConfigInput → List Bytes
  unfolding cni_proxy_patch
  all_patches i = elim (cni_proxy_patch i.cni i.disable_kube_proxy) [
    | none ↦ i.patches
    | some p ↦ p ∷ i.patches
  ]

  unfoldable pub render_control_plane_config : ControlPlaneConfigInput → Exec Plant Bytes
  unfolding k8s_image_version non_empty all_patches apply_patches
  render_control_plane_config i =
      with_bundle i.secrets (is_empty i.cluster_name || is_empty i.endpoint) λ b.
        attempt
          (outside (
            site.new_input (record {
              cluster_name = i.cluster_name;
              endpoint = i.endpoint;
              kubernetes_version = k8s_image_version i.kubernetes_version;
              bundle = b;
              schedulable = some i.schedulable;
              install_disk = non_empty i.install_disk;
              install_image = non_empty i.install_image;
            })))
          (λ e. raise (wrap "provision: build config input: %w" [] e))
          λ input.
            attempt (outside (site.config input type_controlplane))
              (λ e. raise (wrap "provision: render control-plane config: %w" [] e))
              λ prov. attempt (pure (site.encode prov)) raise λ out.
                if is_empty (all_patches i) then return out else apply_patches out (all_patches i)

  unfoldable pub talosconfig : Bytes → Bytes → Bytes → Option site.Bundle → Exec Plant Bytes
  unfolding k8s_image_version
  talosconfig cluster endpoint version secrets = with_bundle secrets false λ b.
      attempt
        (outside (
          site.new_input (record {
            cluster_name = cluster;
            endpoint = endpoint;
            kubernetes_version = k8s_image_version version;
            bundle = b;
            schedulable = none;
            install_disk = none;
            install_image = none;
          })))
        (λ e. raise (wrap "provision: build config input: %w" [] e))
        λ input.
          attempt (outside (site.admin_config input))
            (λ e. raise (wrap "provision: generate talosconfig: %w" [] e)) return
