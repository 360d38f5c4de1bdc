-- ===== src/Examples/Provisions.antt =====
-- Runs of internal/provision, against a scripted site.
use medea.Prelude.{
  if◌then◌else◌, ℕ, ◌≡◌, ◌==◌, Bytes, true, false, some, none, List, [], ◌∷◌, refl, sym, ap, ◌∙◌,
  bytes, inl, inr, Bool-cases, eq_iff,
}
use medea.Error.{ok, no_text}
use medea.Proto.{
  ClusterBootstrap, boot_not_bootstrapped, Cluster, NodePool, Host, mode_manual, role_worker,
  host_registered,
}
use medea.Bolt.Memory.{memory}
use medea.Bolt.{find}
use medea.Store.State.{open_new}
use medea.Store.Write.{
  put_cluster_bootstrap, put_cluster_desired, put_node_pool_desired, put_host_desired,
}
use medea.Provision.Site.{Site, Plant}
use medea.Provision.Bootstrap.{Settings, run_once}
use medea.Provision.Phases.{IsOwn}
use medea.Provision.Trails.{Along, passes, bootstrap_forward}
use medea.Provision.Calls.{Ordered}
use medea.Provision.Ordered.{bootstrap_in_order}
use medea.Provision.Reconciler.{reconcile_pool}
use medea.Provision.Passes.{Pass, reconcile_pool-Pass}

-- Everything answers; the state is the time.
instance abbrev lab_site : Site
lab_site = record {
  Env = ℕ;
  Bundle = Unit;
  Input = Unit;
  Provider = Unit;
  Patch = Unit;
  stage = λ mac p cfg e. (ok tt, e);
  unstage = λ mac e. (ok tt, e);
  resolve = λ extensions e. (ok (bytes "376567"), e);
  list_nodes = λ e. (ok [], e);
  drain = λ name t e. (ok tt, e);
  secrets_for = λ cluster e. (ok (some tt), e);
  secrets = λ cluster e. (ok [], e);
  put_secrets = λ cluster b e. (ok tt, e);
  talos_config = λ cluster e. (ok (bytes "context"), e);
  put_creds = λ cluster tc kube e. (ok tt, e);
  connect = λ tc ip e. (ok tt, e);
  version = λ ip e. (ok (bytes "v1"), e);
  bootstrap = λ ip e. (ok tt, e);
  kubeconfig = λ ip e. (ok (bytes "kube"), e);
  build_kube = λ cluster e. (ok tt, e);
  new_bundle = λ e. (ok tt, e);
  marshal_bundle = λ b. ok (bytes "secrets");
  parse_bundle = λ b. ok tt;
  new_input = λ o e. (ok tt, e);
  config = λ i t e. (ok tt, e);
  encode = λ p. ok (bytes "machine");
  admin_config = λ i e. (ok (bytes "context"), e);
  load_patch = λ b. ok tt;
  apply_patch = λ b ps. ok b;
  clock = λ e. (e, e);
  format_time = λ t. [];
  parse_time = λ b. none;
  error_text = λ e. [];
}

abbrev asked_for : ClusterBootstrap
asked_for = record {
  cluster = bytes "home";
  cp_mac = bytes "aa";
  cp_ip = bytes "10.0.0.1";
  cp_endpoint = bytes "https://10.0.0.1:6443";
  talos_version = bytes "v1";
  kubernetes_version = bytes "v1.36.2";
  extensions = [];
  install_disk = [];
  phase = boot_not_bootstrapped;
  message = no_text;
  started_at = [];
  revision = 0;
  cni = [];
  disable_kube_proxy = false;
  patches = [];
}

abbrev lab_settings : Settings
lab_settings = record { factory_host = []; timeout = 1000 }

abbrev planned_plant : Plant
planned_plant = record { store = (put_cluster_bootstrap asked_for open_new).1; env = 5; calls = [] }

-- The one record of a bucket stands under its own key.
single-own :
    (x : ClusterBootstrap) (k : Bytes) (cb : ClusterBootstrap)
    → (if x.cluster == k then some (ok x) else none) ≡ some (ok cb)
    → cb.cluster ≡ k
single-own x k cb q = elim (Bool-cases (x.cluster == k)) [
  | inl hit ↦
      let same : x ≡ cb = cc (q, hit) in ap (λ y. y.cluster) (sym same) ∙ (eq_iff x.cluster k).0 hit
  | inr miss ↦ cc (q, miss)
]

abbrev stored : ClusterBootstrap
stored = record asked_for { revision = 1 }

planned_plant-IsOwn : IsOwn planned_plant.store
unfolding put_cluster_bootstrap open_new bytes find ◌==◌
planned_plant-IsOwn = record { own = λ k cb q. single-own stored k cb q }

abbrev six_passes : List Bytes
six_passes =
    bytes "home" ∷ bytes "home" ∷ bytes "home" ∷ bytes "home" ∷ bytes "home" ∷ bytes "home" ∷ []

bootstrap_forward_example :
    Along (bytes "home") stored (passes lab_settings six_passes planned_plant).store
unfolding put_cluster_bootstrap open_new bytes find ◌==◌
bootstrap_forward_example =
    bootstrap_forward lab_settings six_passes planned_plant (bytes "home") stored
      planned_plant-IsOwn refl

bootstrap_in_order_example : Ordered (run_once lab_settings planned_plant).1
bootstrap_in_order_example = bootstrap_in_order lab_settings planned_plant refl

abbrev grown : Cluster
grown = record {
  name = bytes "home";
  desired = some (record { talos_version = bytes "v1"; kubernetes_version = bytes "v1.36.2" });
  observed = none;
  endpoints = none;
  revision = 0;
  mode = mode_manual;
  rollouts_enabled = false;
  provisioning_enabled = true;
}

abbrev workers : NodePool
workers = record {
  cluster = bytes "home";
  name = bytes "workers";
  role = role_worker;
  members = [];
  desired = none;
  strategy = none;
  paused = false;
  revision = 0;
  replicas = 1;
  selector = [];
  extensions = [];
}

abbrev spare : Host
spare = record {
  cluster = bytes "home";
  mac = bytes "bb";
  pool = bytes "workers";
  labels = [];
  addr = [];
  role = role_worker;
  state = host_registered;
  message = no_text;
  revision = 0;
  provisioning_started_at = [];
}

abbrev spare_plant : Plant
spare_plant = record {
  store =
      (put_host_desired spare 0
        (put_node_pool_desired workers 0 (put_cluster_desired grown 0 open_new).1).1).1;
  env = 5;
  calls = [];
}

reconcile_pool-Pass_example :
    Pass
      (bytes "home")
      (bytes "workers")
      spare_plant
      (reconcile_pool lab_settings [] (bytes "home") (bytes "workers") spare_plant).1
reconcile_pool-Pass_example =
    reconcile_pool-Pass lab_settings [] (bytes "home") (bytes "workers") spare_plant
