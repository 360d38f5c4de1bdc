-- ===== src/Provision/Bootstrap.antt =====
-- The bootstrap of a new cluster: internal/provision/bootstrap.go and bootstrap_executor.go.
use medea.Prelude.{
  ℕ, ◌-◌, ltb, Bytes, Bool, true, false, Option, none, some, List, [], ◌∷◌, map, bytes,
  if◌then◌else◌, is_empty, trim_prefix, has_prefix, leb, ◌+◌, ◌||◌, ◌&&◌,
}
use medea.Error.{Text, Error, errorf, wrap, Exec, return, raise, attempt, ◌>>=◌, ◌>>◌}
use medea.Proto.{
  mode_unspecified, role_controlplane, Cluster, NodePool, Machine, ClusterBootstrap,
  ClusterBootstrapPhase, boot_unspecified, boot_not_bootstrapped, boot_generating_secrets,
  boot_staging, boot_awaiting_install, boot_bootstrapping, boot_awaiting_healthy,
  boot_fetching_kubeconfig, boot_ready, boot_failed,
}
use medea.Bolt.{Bolt}
use medea.Store.Read.{
  get_cluster, get_node_pool, get_machine, get_cluster_bootstrap, list_cluster_bootstraps,
}
use medea.Store.Write.{
  put_cluster_desired, put_node_pool_desired, put_machine_desired, put_cluster_bootstrap,
}
use medea.Provision.Site.{
  Site, Plant, Profile, perform, outside, in_store, now, read_secrets, stored_secrets, stored_creds,
  staged, probed, bootstrapped, fetched_kubeconfig,
}
use medea.Provision.Config.{
  factory_image, boot_assets, generate_bundle, load_secrets_bundle, render_control_plane_config,
  talosconfig,
}

-- BootstrapReconciler's fields that are values: `timeout` in nanoseconds.
pub record Settings : Type 0 where
  pub factory_host : Bytes
  pub timeout : ℕ

unfoldable pub is_terminal : ClusterBootstrapPhase → Bool
is_terminal boot_ready = true
is_terminal boot_failed = true
is_terminal _ = false

-- An ASCII capital as a small letter.
unfoldable pub lower : ℕ → ℕ
lower c = if leb 65 c && leb c 90 then c + 32 else c

-- strings.Contains
unfoldable pub has_infix : Bytes → Bytes → Bool
has_infix [] p = is_empty p
has_infix (c ∷ s) p = has_prefix (c ∷ s) p || has_infix s p

-- The records that seedInventory writes.
abbrev pub new_cluster : ClusterBootstrap → Cluster
new_cluster cb = record {
  name = cb.cluster;
  desired =
      some
        (record { talos_version = cb.talos_version; kubernetes_version = cb.kubernetes_version });
  observed = none;
  endpoints =
      some (record { talos = cb.cp_ip ∷ []; kube = trim_prefix cb.cp_endpoint (bytes "https://") });
  revision = 0;
  mode = mode_unspecified;
  rollouts_enabled = false;
  provisioning_enabled = false;
}

abbrev pub new_pool : ClusterBootstrap → NodePool
new_pool cb = record {
  cluster = cb.cluster;
  name = bytes "controlplane";
  role = role_controlplane;
  members = cb.cp_ip ∷ [];
  desired = none;
  strategy = none;
  paused = false;
  revision = 0;
  replicas = 0;
  selector = [];
  extensions = [];
}

abbrev pub new_machine : ClusterBootstrap → Machine
new_machine cb = record {
  cluster = cb.cluster;
  pool = bytes "controlplane";
  talos_endpoint = cb.cp_ip;
  role = role_controlplane;
  observed = none;
  revision = 0;
}

module _ ⦃site : Site⦄ where
  unfoldable pub already_bootstrapped : Error → Bool
  unfolding lower has_infix bytes
  already_bootstrapped e =
      let s = map lower (site.error_text e) in
      has_infix s (bytes "already") || has_infix s (bytes "not empty")

module _ ⦃bolt : Bolt⦄ ⦃site : Site⦄ (r : Settings) where
  -- r.put
  unfoldable pub put_phase : ClusterBootstrap → ClusterBootstrapPhase → Text → Exec Plant (Unit {0})
  put_phase cb phase msg =
      in_store (put_cluster_bootstrap (record cb { phase = phase; message = msg }))

  -- time.Since(started) > timeout, where a time that does not parse is not one.
  unfoldable pub is_overdue : Bytes → ℕ → Exec Plant Bool
  is_overdue ts timeout = if is_empty ts then return false else elim (site.parse_time ts) [
    | none ↦ return false
    | some started ↦ (do t ← now; return (ltb timeout (t - started)))
  ]

  -- r.talos
  unfoldable pub connect : ClusterBootstrap → Exec Plant (Unit {0})
  connect cb =
      attempt (outside (site.talos_config cb.cluster))
        (λ e. raise (wrap "provision: read talosconfig: %w" [] e))
        λ tc. outside (site.connect tc cb.cp_ip)

  unfoldable pub mint_secrets : ClusterBootstrap → Exec Plant (Unit {0})
  unfolding generate_bundle put_phase
  mint_secrets cb = do
    bundle ← generate_bundle
    attempt (λ w. (site.marshal_bundle bundle, w))
        (λ e. raise (wrap "provision: marshal secrets: %w" [] e))
        λ out. do
          perform (site.put_secrets cb.cluster out) (stored_secrets cb.cluster out)
          put_phase cb boot_staging (errorf "generated cluster secrets" [])

  unfoldable pub generate_secrets : ClusterBootstrap → Exec Plant (Unit {0})
  unfolding mint_secrets put_phase
  generate_secrets cb =
      attempt (perform (site.secrets cb.cluster) (read_secrets cb.cluster)) (λ _. mint_secrets cb)
        λ b.
          if is_empty b
          then mint_secrets cb
          else put_phase cb boot_staging (errorf "secrets already present" [])

  unfoldable pub stage : ClusterBootstrap → Exec Plant (Unit {0})
  unfolding load_secrets_bundle render_control_plane_config factory_image talosconfig boot_assets
      put_phase bytes
  stage cb =
      attempt (perform (site.secrets cb.cluster) (read_secrets cb.cluster))
        (λ e. raise (wrap "provision: load secrets: %w" [] e))
        λ raw. do
          bundle ← load_secrets_bundle raw
          attempt (outside (site.resolve cb.extensions))
              (λ e. raise (wrap "provision: resolve schematic: %w" [] e))
              λ schematic. do
                cfg ← render_control_plane_config (record {
                  cluster_name = cb.cluster;
                  endpoint = cb.cp_endpoint;
                  kubernetes_version = cb.kubernetes_version;
                  install_disk = cb.install_disk;
                  install_image = factory_image r.factory_host schematic cb.talos_version;
                  secrets = some bundle;
                  schedulable = true;
                  cni = cb.cni;
                  disable_kube_proxy = cb.disable_kube_proxy;
                  patches = cb.patches;
                })
                tc ← talosconfig cb.cluster cb.cp_endpoint cb.kubernetes_version (some bundle)
                attempt (perform (site.put_creds cb.cluster tc none) (stored_creds cb.cluster none))
                    (λ e. raise (wrap "provision: store talosconfig: %w" [] e))
                    λ _. do
                      let assets = boot_assets r.factory_host schematic cb.talos_version []
                      let profile : Profile = record {
                        kernel = assets.0;
                        initrd = assets.1;
                        args = bytes "talos.platform=metal" ∷ [];
                      }
                      attempt
                          (perform (site.stage cb.cp_mac profile cfg)
                            (staged cb.cp_mac profile cfg))
                          (λ e. raise (wrap "provision: stage control-plane: %w" [] e))
                          λ _.
                            put_phase cb boot_awaiting_install
                              (errorf "staged; awaiting install + boot" [])

  -- A failed probe parks.
  unfoldable pub await_install : ClusterBootstrap → Exec Plant (Unit {0})
  unfolding connect put_phase
  await_install cb = do
    connect cb
    attempt (perform (site.version cb.cp_ip) (probed cb.cp_ip)) (λ _. return tt)
        λ _. put_phase cb boot_bootstrapping (errorf "node reachable; bootstrapping etcd" [])

  unfoldable pub bootstrap_etcd : ClusterBootstrap → Exec Plant (Unit {0})
  unfolding connect put_phase already_bootstrapped
  bootstrap_etcd cb = do
    connect cb
    attempt (perform (site.bootstrap cb.cp_ip) (bootstrapped cb.cp_ip))
        (λ e.
          if already_bootstrapped e
          then put_phase cb boot_awaiting_healthy (errorf "etcd already bootstrapped" [])
          else return tt)
        λ _. put_phase cb boot_awaiting_healthy (errorf "etcd bootstrapped" [])

  -- `if x, _, _ := get(); x == nil { put }`: an error of the read counts as none.
  abbrev pub unless_found :
      {A : Type 0} → Exec Plant (Option A × ℕ) → Exec Plant ℕ → Exec Plant (Unit {0})
  unless_found found m =
      attempt found (λ _. do m; return tt)
        λ q. elim q.0 [ none ↦ (do m; return tt) | some a ↦ return tt ]

  unfoldable pub seed_inventory : ClusterBootstrap → Exec Plant (Unit {0})
  unfolding bytes
  seed_inventory cb = do
    unless_found (in_store (get_cluster cb.cluster))
        (in_store (put_cluster_desired (new_cluster cb) 0))
    unless_found (in_store (get_node_pool cb.cluster (bytes "controlplane")))
        (in_store (put_node_pool_desired (new_pool cb) 0))
    unless_found (in_store (get_machine cb.cluster cb.cp_ip))
        (in_store (put_machine_desired (new_machine cb) 0))

  unfoldable pub fetch_kubeconfig : ClusterBootstrap → Exec Plant (Unit {0})
  unfolding connect put_phase seed_inventory
  fetch_kubeconfig cb = do
    connect cb
    attempt (perform (site.kubeconfig cb.cp_ip) (fetched_kubeconfig cb.cp_ip)) (λ _. return tt)
        λ kube. do
          tc ← outside (site.talos_config cb.cluster)
          attempt
              (perform (site.put_creds cb.cluster tc (some kube))
                (stored_creds cb.cluster (some kube)))
              (λ e. raise (wrap "provision: store kubeconfig: %w" [] e))
              λ _. do seed_inventory cb; put_phase cb boot_ready (errorf "cluster bootstrapped" [])

  -- The first transition, which stamps the start.
  unfoldable pub begin : ClusterBootstrap → Exec Plant (Unit {0})
  unfolding put_phase
  begin cb = do
    t ← now
    put_phase (record cb { started_at = site.format_time t }) boot_generating_secrets
        (errorf "starting bootstrap" [])

  -- The switch on the phase.
  unfoldable pub advance : ClusterBootstrapPhase → ClusterBootstrap → Exec Plant (Unit {0})
  unfolding begin generate_secrets stage await_install bootstrap_etcd fetch_kubeconfig
  advance boot_not_bootstrapped cb = begin cb
  advance boot_generating_secrets cb = generate_secrets cb
  advance boot_staging cb = stage cb
  advance boot_awaiting_install cb = await_install cb
  advance boot_bootstrapping cb = bootstrap_etcd cb
  advance boot_awaiting_healthy cb = fetch_kubeconfig cb
  advance boot_fetching_kubeconfig cb = fetch_kubeconfig cb
  advance boot_unspecified cb = return tt
  advance boot_ready cb = return tt
  advance boot_failed cb = return tt

  -- Reconcile on a record that is there.
  unfoldable pub reconcile_record : ClusterBootstrap → Exec Plant (Unit {0})
  unfolding is_terminal is_overdue put_phase advance
  reconcile_record cb = if is_terminal cb.phase then return tt else do
    late ← is_overdue cb.started_at r.timeout
    if late then put_phase cb boot_failed (errorf "bootstrap timed out" []) else advance cb.phase cb

  unfoldable pub reconcile : Bytes → Exec Plant (Unit {0})
  unfolding reconcile_record
  reconcile cluster = do
    found ← in_store (get_cluster_bootstrap cluster)
    elim found [ none ↦ return tt | some cb ↦ reconcile_record cb ]

  -- RunOnce: the errors of a cluster are logged.
  unfoldable pub reconcile_all : List ClusterBootstrap → Exec Plant (Unit {0})
  unfolding is_terminal reconcile
  reconcile_all [] = return tt
  reconcile_all (cb ∷ cbs) =
      let rest = reconcile_all cbs in
      if is_terminal cb.phase then rest else attempt (reconcile cb.cluster) (λ _. rest) (λ _. rest)

  unfoldable pub run_once : Exec Plant (Unit {0})
  unfolding reconcile_all
  run_once = do bs ← in_store list_cluster_bootstraps; reconcile_all bs
