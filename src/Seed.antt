-- ===== src/Seed.antt =====
-- internal/seed/seed.go: the desired state of a cluster, from its nodes.
pub mod Pools
use medea.Prelude.{
  ◌+◌, ℕ, Bytes, Bool, true, false, Option, none, some, List, [], ◌∷◌, ◌++◌, ◌==◌, map, bytes,
  is_empty, if◌then◌else◌,
}
use medea.Error.{Error, errorf, wrap, Result, ok, err, Exec, return, raise, attempt, ◌>>=◌, ◌>>◌}
use medea.Proto.{
  Role, role_unspecified, role_controlplane, role_worker, Cluster, NodePool, Machine,
  mode_unspecified,
}
use medea.Bolt.{Bolt}
use medea.Store.Read.{get_cluster, get_node_pool, get_machine}
use medea.Store.Write.{put_cluster_desired, put_node_pool_desired, put_machine_desired}
use medea.Rollout.World.{NodeInfo, Remote, World, in_store, or_zero, version}
use medea.Rollout.Pool.{sort_strings}

unfoldable pub pool_name : Bytes → Bytes
unfolding bytes
pool_name role = if role == bytes "controlplane" then bytes "controlplane" else bytes "workers"

unfoldable pub pb_role : Bytes → Role
unfolding bytes
pb_role role = if role == bytes "controlplane" then role_controlplane else role_worker

-- Inputs; its function TalosVersion is the Talos API of the world.
pub record Inputs : Type 0 where
  pub cluster : Bytes
  pub kube_endpoint : Bytes
  pub talos_endpoints : List Bytes
  pub nodes : List NodeInfo

-- Apply's local type machine.
pub record Seeded : Type 0 where
  pub addr : Bytes
  pub pool : Bytes
  pub role : Role

-- Apply's variables. A map is a list of its entries, in the order of their first writes.
pub record Gathered : Type 0 where
  pub machines : List Seeded
  pub pool_members : List (Bytes × List Bytes)
  pub pool_role : List (Bytes × Role)
  pub cluster_talos : Bytes
  pub cluster_k8s : Bytes

-- Result
pub record Seeding : Type 0 where
  pub cluster : Bytes
  pub pools : List Bytes
  pub machines : ℕ
  pub talos_seed : Bytes
  pub k8s_seed : Bytes

abbrev pub nothing_gathered : Gathered
nothing_gathered = record {
  machines = [];
  pool_members = [];
  pool_role = [];
  cluster_talos = [];
  cluster_k8s = [];
}

-- poolMembers[pool] = append(poolMembers[pool], addr)
unfoldable pub append_member : Bytes → Bytes → List (Bytes × List Bytes) → List (Bytes × List Bytes)
append_member pool addr [] = (pool, addr ∷ []) ∷ []
append_member pool addr ((p, addrs) ∷ l) =
    let rest = append_member pool addr l in
    if p == pool then (p, addrs ++ (addr ∷ [])) ∷ l else (p, addrs) ∷ rest

unfoldable pub members_of : List (Bytes × List Bytes) → Bytes → List Bytes
members_of [] pool = []
members_of ((p, addrs) ∷ l) pool = if p == pool then addrs else members_of l pool

-- poolRole[pool], where the last write is put first.
unfoldable pub role_of : List (Bytes × Role) → Bytes → Role
role_of [] pool = role_unspecified
role_of ((p, r) ∷ l) pool = if p == pool then r else role_of l pool

-- len
unfoldable pub count : List Seeded → ℕ
count [] = 0
count (m ∷ ms) = 1 + count ms

-- What a turn of the loop over the nodes adds, with the node's Talos version.
unfoldable pub add_node : NodeInfo → Bytes → Gathered → Gathered
unfolding pool_name pb_role append_member bytes
add_node n tv g = record {
  machines =
      g.machines
      ++ (record { addr = n.internal_ip; pool = pool_name n.role; role = pb_role n.role } ∷ []);
  pool_members = append_member (pool_name n.role) n.internal_ip g.pool_members;
  pool_role = (pool_name n.role, pb_role n.role) ∷ g.pool_role;
  cluster_talos = if n.role == bytes "controlplane" then tv else g.cluster_talos;
  cluster_k8s = if n.role == bytes "controlplane" then n.kubelet_version else g.cluster_k8s;
}

module _ ⦃bolt : Bolt⦄ ⦃remote : Remote⦄ where
  -- One turn of the loop over the nodes.
  unfoldable pub gather_node : NodeInfo → Gathered → Exec World Gathered
  unfolding add_node version
  gather_node n g =
      if is_empty n.internal_ip
      then raise (errorf "seed: node %q has no internal IP" (n.name ∷ []))
      else attempt (version n.internal_ip)
          (λ e. raise (wrap "seed: talos version for %s (%s): %w" (n.name ∷ n.internal_ip ∷ []) e))
          λ tv. return (add_node n tv g)

  unfoldable pub gather : List NodeInfo → Gathered → Exec World Gathered
  unfolding gather_node
  gather [] g = return g
  gather (n ∷ ns) g = attempt (gather_node n g) raise (λ g'. gather ns g')

  -- The fallback to the first node: its version is asked for again, and an error of that dropped.
  unfoldable pub with_defaults : List NodeInfo → Gathered → Exec World Gathered
  unfolding version
  with_defaults (n ∷ ns) g =
      if is_empty g.cluster_talos
      then attempt (or_zero [] (version n.internal_ip)) raise
          (λ tv. return (record g { cluster_talos = tv; cluster_k8s = n.kubelet_version }))
      else return g
  with_defaults [] g = raise (errorf "seed: no nodes found" [])

  unfoldable pub seed_cluster : Inputs → Gathered → Exec World (Unit {0})
  seed_cluster i g = do
    (_, rev) ← in_store (get_cluster i.cluster)
    in_store (
        put_cluster_desired
          (record {
            name = i.cluster;
            desired =
                some
                  (record { talos_version = g.cluster_talos; kubernetes_version = g.cluster_k8s });
            observed = none;
            endpoints = some (record { talos = i.talos_endpoints; kube = i.kube_endpoint });
            revision = 0;
            mode = mode_unspecified;
            rollouts_enabled = false;
            provisioning_enabled = false;
          })
          rev)
    return tt

  unfoldable pub seed_pool : Bytes → Gathered → Bytes → Exec World (Unit {0})
  unfolding members_of role_of sort_strings
  seed_pool cluster g pool = do
    (_, rev) ← in_store (get_node_pool cluster pool)
    in_store (
        put_node_pool_desired
          (record {
            cluster = cluster;
            name = pool;
            role = role_of g.pool_role pool;
            members = sort_strings (members_of g.pool_members pool);
            desired = some (record { talos_version = [] });
            strategy = none;
            paused = false;
            revision = 0;
            replicas = 0;
            selector = [];
            extensions = [];
          })
          rev)
    return tt

  unfoldable pub seed_pools : Bytes → Gathered → List Bytes → Exec World (Unit {0})
  unfolding seed_pool
  seed_pools cluster g [] = return tt
  seed_pools cluster g (p ∷ ps) =
      let rest = seed_pools cluster g ps in seed_pool cluster g p >> rest

  unfoldable pub seed_machine : Bytes → Seeded → Exec World (Unit {0})
  seed_machine cluster m = do
    (_, rev) ← in_store (get_machine cluster m.addr)
    in_store (
        put_machine_desired
          (record {
            cluster = cluster;
            pool = m.pool;
            talos_endpoint = m.addr;
            role = m.role;
            observed = none;
            revision = 0;
          })
          rev)
    return tt

  unfoldable pub seed_machines : Bytes → List Seeded → Exec World (Unit {0})
  unfolding seed_machine
  seed_machines cluster [] = return tt
  seed_machines cluster (m ∷ ms) =
      let rest = seed_machines cluster ms in seed_machine cluster m >> rest

  -- Apply
  unfoldable pub seed : Inputs → Exec World Seeding
  unfolding gather with_defaults seed_cluster seed_pools seed_machines sort_strings count
  seed i =
      if is_empty i.cluster
      then raise (errorf "seed: cluster name required" [])
      else attempt (gather i.nodes nothing_gathered) raise λ g0.
        attempt (with_defaults i.nodes g0) raise λ g. do
          seed_cluster i g
          let pools = sort_strings (map (λ e. e.0) g.pool_members)
          seed_pools i.cluster g pools
          seed_machines i.cluster g.machines
          return (record {
            cluster = i.cluster;
            pools = pools;
            machines = count g.machines;
            talos_seed = g.cluster_talos;
            k8s_seed = g.cluster_k8s;
          })
