-- ===== src/Rollout/World.antt =====
-- What the reconcilers of internal/rollout act on: the store, and the interfaces TalosOps, KubeOps
-- and K8sOps of rollout.go and executor.go, with the files that a snapshot is written to.
use medea.Prelude.{ℕ, Bytes, Bool, List, ◌∷◌}
use medea.Error.{Result, ok, err, Exec}
use medea.Bolt.{Bolt}
use medea.Store.State.{Store}

-- kube.NodeInfo
pub record NodeInfo : Type 0 where
  pub name : Bytes
  pub internal_ip : Bytes
  pub role : Bytes
  pub kubelet_version : Bytes
  pub ready : Bool

-- The remote parties, which may answer anything; each answer may depend on all that was asked.
-- `build_clients` and `build_k8s` are ClientFactory and K8sFactory, by the cluster's name.
-- `wait_done` says which case of a `select` on the context and the poll timer is taken.
pub record Remote : Type 1 where
  pub Env : Type 0
  pub version : Bytes → Env → Result Bytes × Env
  pub install_image : Bytes → Env → Result Bytes × Env
  pub upgrade_os : Bytes → Bytes → Env → Result (Unit {0}) × Env
  pub etcd_snapshot : Bytes → Env → Result (Unit {0}) × Env
  pub list_nodes : Env → Result (List NodeInfo) × Env
  pub drain : Bytes → ℕ → Env → Result (Unit {0}) × Env
  pub uncordon : Bytes → Env → Result (Unit {0}) × Env
  pub node_ready : Bytes → Env → Result Bool × Env
  pub upgrade_k8s : Bytes → Bytes → Env → Result (Unit {0}) × Env
  pub make_snapshot_dir : Env → Result (Unit {0}) × Env
  pub open_snapshot : Bytes → Bytes → Env → Result (Unit {0}) × Env
  pub close_snapshot : Env → Result (Unit {0}) × Env
  pub build_clients : Bytes → Env → Result (Unit {0}) × Env
  pub build_k8s : Bytes → Env → Result (Unit {0}) × Env
  pub wait_done : Env → Bool × Env

-- A call of TalosOps, KubeOps or K8sOps, with its answer.
pub data Call : Type 0 where
  read_version : Bytes → Result Bytes → Call
  read_image : Bytes → Result Bytes → Call
  upgraded_os : Bytes → Bytes → Result (Unit {0}) → Call
  took_snapshot : Bytes → Result (Unit {0}) → Call
  listed_nodes : Result (List NodeInfo) → Call
  drained : Bytes → ℕ → Result (Unit {0}) → Call
  uncordoned : Bytes → Result (Unit {0}) → Call
  read_ready : Bytes → Result Bool → Call
  upgraded_k8s : Bytes → Bytes → Result (Unit {0}) → Call

module _ ⦃bolt : Bolt⦄ ⦃remote : Remote⦄ where
  -- `calls` are the calls made so far, the latest first.
  pub record World : Type 0 where
    pub store : Store
    pub env : remote.Env
    pub calls : List Call

  abbrev pub perform :
      {A : Type 0} → (remote.Env → Result A × remote.Env) → (Result A → Call) → Exec World A
  perform op note w = let (r, e) = op w.env in (r, record w { env = e; calls = note r ∷ w.calls })

  -- A call that leaves no entry.
  abbrev pub local : {A : Type 0} → (remote.Env → Result A × remote.Env) → Exec World A
  local op w = let (r, e) = op w.env in (r, record w { env = e })

  abbrev pub in_store : {A : Type 0} → Exec Store A → Exec World A
  in_store m w = let (r, s) = m w.store in (r, record w { store = s })

  -- `_ = m()`
  abbrev pub ignore : {A : Type 0} → Exec World A → Exec World (Unit {0})
  ignore m w = (ok tt, (m w).1)

  -- `a, _ := m()`, where a failed call leaves the zero value.
  abbrev pub or_zero : {A : Type 0} → A → Exec World A → Exec World A
  or_zero zero m w = let (r, w') = m w in elim r [ ok a ↦ (ok a, w') | err e ↦ (ok zero, w') ]

  unfoldable pub version : Bytes → Exec World Bytes
  version addr = perform (remote.version addr) (read_version addr)

  unfoldable pub install_image : Bytes → Exec World Bytes
  install_image addr = perform (remote.install_image addr) (read_image addr)

  unfoldable pub upgrade_os : Bytes → Bytes → Exec World (Unit {0})
  upgrade_os addr image = perform (remote.upgrade_os addr image) (upgraded_os addr image)

  unfoldable pub list_nodes : Exec World (List NodeInfo)
  list_nodes = perform remote.list_nodes listed_nodes

  unfoldable pub drain : Bytes → ℕ → Exec World (Unit {0})
  drain name timeout = perform (remote.drain name timeout) (drained name timeout)

  unfoldable pub uncordon : Bytes → Exec World (Unit {0})
  uncordon name = perform (remote.uncordon name) (uncordoned name)

  unfoldable pub node_ready : Bytes → Exec World Bool
  node_ready name = perform (remote.node_ready name) (read_ready name)

  unfoldable pub upgrade_k8s : Bytes → Bytes → Exec World (Unit {0})
  upgrade_k8s from to = perform (remote.upgrade_k8s from to) (upgraded_k8s from to)

  unfoldable pub etcd_snapshot : Bytes → Exec World (Unit {0})
  etcd_snapshot addr = perform (remote.etcd_snapshot addr) (took_snapshot addr)

  unfoldable pub wait_done : Exec World Bool
  wait_done w = let (d, e) = remote.wait_done w.env in (ok d, record w { env = e })
