-- ===== src/Server/Hosts.antt =====
-- CreateCluster, RegisterHost, DeregisterHost and DeleteCluster (internal/server/server.go).
use medea.Prelude.{Bytes, Bool, Option, none, some, List, [], if◌then◌else◌, is_empty, ◌||◌, bytes}
use medea.Error.{
  Text, no_text, errorf, status, failed_precondition, internal, ok, err, Exec, return, raise, ◌>>=◌,
  ◌>>◌,
}
use medea.Proto.{
  Role, role_controlplane, is_role_unspecified, Host, host_registered, is_host_unspecified,
  ClusterBootstrap, boot_not_bootstrapped,
}
use medea.Bolt.{Bolt}
use medea.Store.Read.{get_cluster, get_node_pool, get_host, get_cluster_bootstrap}
use medea.Store.Write.{put_host_desired, put_cluster_bootstrap}
use medea.Store.Delete.{delete_host, delete_cluster}
use medea.Server.Service.{Creds, Service, call, call_mapped, rmw, required, present}

-- pb.CreateClusterRequest
pub record CreateClusterRequest : Type 0 where
  pub name : Bytes
  pub cp_endpoint : Bytes
  pub cp_mac : Bytes
  pub cp_ip : Bytes
  pub talos_version : Bytes
  pub kubernetes_version : Bytes
  pub install_disk : Bytes
  pub extensions : List Bytes
  pub cni : Bytes
  pub disable_kube_proxy : Bool
  pub patches : List Bytes
  pub confirm : Bool

-- pb.RegisterHostRequest
pub record RegisterHostRequest : Type 0 where
  pub cluster : Bytes
  pub mac : Bytes
  pub pool : Bytes
  pub role : Role
  pub labels : List (Bytes × Bytes)

unfoldable pub planned : CreateClusterRequest → Text → ClusterBootstrap
planned req message = record {
  cluster = req.name;
  phase = boot_not_bootstrapped;
  cp_mac = req.cp_mac;
  cp_endpoint = req.cp_endpoint;
  cp_ip = req.cp_ip;
  talos_version = req.talos_version;
  kubernetes_version = req.kubernetes_version;
  install_disk = req.install_disk;
  extensions = req.extensions;
  message = message;
  started_at = [];
  revision = 0;
  cni = req.cni;
  disable_kube_proxy = req.disable_kube_proxy;
  patches = req.patches;
}

-- The control plane's host of a new cluster.
unfoldable pub first_host : CreateClusterRequest → Host
unfolding bytes
first_host req = record {
  cluster = req.name;
  mac = req.cp_mac;
  pool = bytes "controlplane";
  labels = [];
  addr = [];
  role = role_controlplane;
  state = host_registered;
  message = no_text;
  revision = 0;
  provisioning_started_at = [];
}

-- The host as it is registered, over the one that is there.
unfoldable pub registered : RegisterHostRequest → Role → Option Host → Host
registered req role cur =
    let h : Host = record {
      cluster = req.cluster;
      mac = req.mac;
      pool = req.pool;
      labels = req.labels;
      addr = [];
      role = role;
      state = host_registered;
      message = no_text;
      revision = 0;
      provisioning_started_at = [];
    } in
    elim cur [
      | none ↦ h
      | some old ↦
          if is_host_unspecified old.state
          then h
          else record h { state = old.state; addr = old.addr }
    ]

module _ ⦃bolt : Bolt⦄ ⦃creds : Creds⦄ where
  abbrev pub absent : {A B : Type 0} → Option A → Exec Service B → Exec Service B
  absent o m = elim o [ none ↦ m | some a ↦ raise (status failed_precondition) ]

  -- CreateCluster on a confirmed request that passed the tests.
  unfoldable pub arm : CreateClusterRequest → Exec Service ClusterBootstrap
  unfolding call_mapped planned first_host
  arm req =
      let cb = planned req (errorf "armed; awaiting the bootstrap executor" []) in
      do
        call_mapped (put_host_desired (first_host req) 0)
        call_mapped (put_cluster_bootstrap cb)
        return cb

  unfoldable pub create_cluster : CreateClusterRequest → Exec Service ClusterBootstrap
  unfolding call_mapped arm planned
  create_cluster req =
      required
        (is_empty req.name || is_empty req.cp_endpoint || is_empty req.cp_mac || is_empty req.cp_ip)
        (required (is_empty req.talos_version || is_empty req.kubernetes_version) (do
          found ← call_mapped (get_cluster req.name)
          absent found.0 (do
            cb ← call_mapped (get_cluster_bootstrap req.name)
            absent cb (
                if req.confirm
                then arm req
                else return
                    (planned req (errorf "plan (not created; pass --confirm to arm)" []))))))

  -- The role of a new host: that of the pool, if the request has none.
  unfoldable pub role_for : RegisterHostRequest → Exec Service Role
  unfolding call_mapped
  role_for req = if is_empty req.pool then return req.role else do
    found ← call_mapped (get_node_pool req.cluster req.pool)
    present found.0 λ np. return (if is_role_unspecified req.role then np.role else req.role)

  unfoldable pub register_body : RegisterHostRequest → Role → Exec Service Host
  unfolding call registered
  register_body req role = do
    cur ← call (get_host req.cluster req.mac)
    nr ← call (put_host_desired (registered req role cur.0) cur.1)
    return (record (registered req role cur.0) { revision = nr })

  unfoldable pub register_host : RegisterHostRequest → Exec Service Host
  unfolding call_mapped role_for rmw register_body
  register_host req = required (is_empty req.cluster || is_empty req.mac) (do
    found ← call_mapped (get_cluster req.cluster)
    present found.0 λ _. do role ← role_for req; rmw (register_body req role) 0)

  unfoldable pub deregister_host : Bytes → Bytes → Exec Service (Unit {0})
  unfolding call_mapped
  deregister_host cluster mac =
      required (is_empty cluster || is_empty mac) (call_mapped (delete_host cluster mac))

  -- The credentials are removed, where there is a store for them.
  unfoldable pub forget_credentials : Bytes → Exec Service (Unit {0})
  forget_credentials name sv = elim sv.held_creds [
    | none ↦ (ok tt, sv)
    | some e ↦
        let (r, e') = creds.delete name e in
        elim r [
          | ok u ↦ (ok tt, record sv { held_creds = some e' })
          | err x ↦ (err (status internal), record sv { held_creds = some e' })
        ]
  ]

  unfoldable pub delete_cluster_rpc : Bytes → Exec Service (Unit {0})
  unfolding call_mapped forget_credentials
  delete_cluster_rpc name =
      required (is_empty name) (do call_mapped (delete_cluster name); forget_credentials name)
