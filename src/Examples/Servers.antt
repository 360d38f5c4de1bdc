-- ===== src/Examples/Servers.antt =====
-- Runs of the service of internal/server, beside another user of the store.
use medea.Prelude.{◌⊎◌, true, false, none, some, [], ◌∷◌, bytes}
use medea.Error.{ok}
use medea.Proto.{kind_talos, Cluster, mode_manual}
use medea.Bolt.Memory.{memory}
use medea.Store.State.{open_new}
use medea.Store.Reach.{put_cluster, run}
use medea.Server.Service.{Creds, Service}
use medea.Server.Writes.{SetClusterVersionsRequest}
use medea.Server.Jobs.{CreateRolloutRequest, create_rollout}
use medea.Server.Guards.{Allowed, Refused, create_rollout-Allowed}

instance abbrev no_creds : Creds
no_creds = record {
  Env = Unit;
  talos_config = λ name e. (ok [], e);
  kube_config = λ name e. (ok [], e);
  secrets = λ name e. (ok [], e);
  delete = λ name e. (ok tt, e);
}

abbrev home : Cluster
home = record {
  name = bytes "home";
  desired = none;
  observed = none;
  endpoints = none;
  revision = 0;
  mode = mode_manual;
  rollouts_enabled = false;
  provisioning_enabled = false;
}

abbrev armed : Cluster
armed = record home { rollouts_enabled = true }

-- Between the first read and its write, another user arms the cluster.
abbrev busy : Service
busy = record {
  store = run open_new (put_cluster home 0 ∷ []);
  held_creds = none;
  others = (λ s. run s []) ∷ (λ s. run s (put_cluster armed 1 ∷ [])) ∷ [];
  now = [];
}

abbrev upgrade : SetClusterVersionsRequest
upgrade = record {
  cluster = bytes "home";
  talos_version = some (bytes "v2");
  kubernetes_version = none;
  expected_revision = 0;
}

abbrev order : CreateRolloutRequest
order = record {
  cluster = bytes "home";
  pool = bytes "workers";
  kind = kind_talos;
  target_version = bytes "v2";
  created_by = bytes "ops";
}

create_rollout-Allowed_example : Allowed order busy ⊎ Refused busy (create_rollout order busy)
create_rollout-Allowed_example = create_rollout-Allowed order busy
