-- ===== src/Provision/Records.antt =====
-- What internal/provision/reconciler.go does to the records of hosts, machines and pools, and to a
-- host that it releases.
use medea.Prelude.{
  ℕ, zero, suc, Bytes, Option, none, some, List, [], ◌∷◌, ◌++◌, map, is_empty, if◌then◌else◌,
}
use medea.Error.{Text, Error, no_text, errorf, wrap, Exec, return, raise, attempt, ◌>>=◌, ◌>>◌}
use medea.Proto.{
  Role, HostState, host_registered, host_provisioning, host_ready, NodePool, Machine, Host,
}
use medea.Bolt.{Bolt}
use medea.Store.Read.{get_node_pool, get_machine, get_host, list_machines}
use medea.Store.Write.{put_node_pool_desired, put_machine_desired, put_host_desired}
use medea.Store.Delete.{delete_machine}
use medea.Rollout.World.{NodeInfo}
use medea.Rollout.Pool.{sort_strings}
use medea.Provision.Site.{Site, Plant, perform, in_store, now, unstaged, drained}
use medea.Provision.Bootstrap.{Settings}
use medea.Provision.Hosts.{is_member, host_addrs, node_name_for, victim_from, without_member}

-- 5 minutes and 20 minutes in nanoseconds.
abbrev pub drain_timeout : ℕ
drain_timeout = 300000000000

abbrev pub default_provision_timeout : ℕ
default_provision_timeout = 1200000000000

-- NewReconciler; a negative timeout is one of 0 here.
unfoldable pub new_reconciler : Bytes → ℕ → Settings
new_reconciler factory_host zero = record {
  factory_host = factory_host;
  timeout = default_provision_timeout;
}
new_reconciler factory_host (suc n) = record { factory_host = factory_host; timeout = suc n }

module _ ⦃bolt : Bolt⦄ ⦃site : Site⦄ where
  -- `if err != nil || x == nil { return fmt.Errorf("… %w", err) }`
  abbrev pub reload :
      {A : Type 0}
      → (Error → Error)
      → Exec Plant (Option A × ℕ)
      → (A → ℕ → Exec Plant (Unit {0}))
      → Exec Plant (Unit {0})
  reload failing found f =
      attempt found (λ e. raise (failing e))
        λ q. elim q.0 [ none ↦ raise (failing no_text) | some a ↦ f a q.1 ]

  abbrev pub reload_host :
      Bytes → Bytes → (Host → ℕ → Exec Plant (Unit {0})) → Exec Plant (Unit {0})
  reload_host cluster mac f =
      reload (wrap "provision: reload host %s: %w" (mac ∷ [])) (in_store (get_host cluster mac)) f

  abbrev pub reload_pool :
      Bytes → Bytes → (NodePool → ℕ → Exec Plant (Unit {0})) → Exec Plant (Unit {0})
  reload_pool cluster pool f =
      reload (wrap "provision: reload nodepool %s/%s: %w" (cluster ∷ pool ∷ []))
        (in_store (get_node_pool cluster pool)) f

  abbrev pub put_host : Host → ℕ → Exec Plant (Unit {0})
  put_host h rev = do in_store (put_host_desired h rev); return tt

  abbrev pub put_pool : NodePool → ℕ → Exec Plant (Unit {0})
  put_pool np rev = do in_store (put_node_pool_desired np rev); return tt

  unfoldable pub set_host_state : Bytes → Bytes → HostState → Text → Exec Plant (Unit {0})
  set_host_state cluster mac st msg =
      reload_host cluster mac λ h rev. put_host (record h { state = st; message = msg }) rev

  unfoldable pub release_host : Bytes → Bytes → Exec Plant (Unit {0})
  release_host cluster mac = reload_host cluster mac λ h rev.
      put_host
        (record h { state = host_registered; addr = []; message = errorf "released (scale-in)" [] })
        rev

  unfoldable pub start_provisioning : Bytes → Bytes → Exec Plant (Unit {0})
  start_provisioning cluster mac = reload_host cluster mac λ h rev. do
    t ← now
    put_host
        (record h {
          state = host_provisioning;
          message = errorf "staged; awaiting boot + join" [];
          provisioning_started_at = site.format_time t;
        })
        rev

  unfoldable pub remove_member : Bytes → Bytes → Bytes → Exec Plant (Unit {0})
  unfolding without_member
  remove_member cluster pool addr =
      reload_pool cluster pool
        λ np rev. put_pool (record np { members = without_member np.members addr }) rev

  -- The end of bind.
  unfoldable pub add_member : Bytes → Bytes → Bytes → Exec Plant (Unit {0})
  unfolding is_member sort_strings
  add_member cluster pool addr = reload_pool cluster pool λ np rev.
      if is_member np.members addr
      then return tt
      else put_pool (record np { members = sort_strings (np.members ++ (addr ∷ [])) }) rev

  unfoldable pub bind : Bytes → Bytes → Bytes → NodeInfo → Role → Exec Plant (Unit {0})
  unfolding add_member
  bind cluster pool mac n role = do
    reload_host cluster mac λ h rev.
        put_host (record h { addr = n.internal_ip; state = host_ready; message = no_text }) rev
    (found, mrev) ← in_store (get_machine cluster n.internal_ip)
    let m : Machine = elim found [
      | some m ↦ m
      | none ↦ record {
        cluster = cluster;
        pool = pool;
        talos_endpoint = n.internal_ip;
        role = role;
        observed = none;
        revision = 0;
      }
    ]
    in_store (put_machine_desired m mrev)
    add_member cluster pool n.internal_ip

  unfoldable pub claimed_addrs : Bytes → List Host → Exec Plant (List Bytes)
  unfolding host_addrs
  claimed_addrs cluster hosts = do
    ms ← in_store (list_machines cluster [])
    return (map (λ m. m.talos_endpoint) ms ++ host_addrs hosts)

  -- The parts of scaleIn below its first loop.
  unfoldable pub drain_victim : Bytes → Exec Plant (Unit {0})
  drain_victim name =
      if is_empty name
      then return tt
      else attempt (perform (site.drain name drain_timeout) (drained name drain_timeout))
          (λ e. raise (wrap "provision: drain %s: %w" (name ∷ []) e)) return

  unfoldable pub forget_victim : Bytes → Bytes → Bytes → Exec Plant (Unit {0})
  unfolding remove_member
  forget_victim cluster pool addr =
      if is_empty addr
      then return tt
      else do in_store (delete_machine cluster addr); remove_member cluster pool addr

  unfoldable pub release : Bytes → Bytes → Host → Bytes → Exec Plant (Unit {0})
  unfolding drain_victim forget_victim release_host
  release cluster pool victim name = do
    drain_victim name
    attempt (perform (site.unstage victim.mac) (unstaged victim.mac))
        (λ e. raise (wrap "provision: unstage %s: %w" (victim.mac ∷ []) e))
        λ _. do forget_victim cluster pool victim.addr; release_host cluster victim.mac

  unfoldable pub scale_in : Bytes → Bytes → List Host → List NodeInfo → Exec Plant (Unit {0})
  unfolding victim_from node_name_for release
  scale_in cluster pool hosts nodes = elim (victim_from none hosts) [
    | none ↦ return tt
    | some victim ↦ release cluster pool victim (node_name_for nodes victim.addr)
  ]
