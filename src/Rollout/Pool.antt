-- ===== src/Rollout/Pool.antt =====
-- ReconcilePool of internal/rollout/rollout.go.
use medea.Prelude.{
  ℕ, zero, suc, Bytes, Bool, true, false, Option, none, some, List, [], ◌∷◌, ◌==◌, is_empty, leb,
  bytes_lt, if◌then◌else◌,
}
use medea.Error.{no_text, errorf, show, wrap, Exec, return, raise, attempt, ◌>>=◌, ◌>>◌}
use medea.Proto.{
  Role, RolloutState, state_upgrading, state_waiting_healthy, state_done, RolloutStrategy, NodePool,
  pool_desired, pool_strategy, cluster_desired,
}
use medea.Bolt.{Bolt}
use medea.Store.Read.{get_node_pool, get_cluster}
use medea.Rollout.World.{NodeInfo, Remote, World, in_store, version, list_nodes}
use medea.Rollout.Node.{set_state, machine_state, fail, finish_upgrade, upgrade_node}

-- sort.Strings
unfoldable pub insert_string : Bytes → List Bytes → List Bytes
insert_string s [] = s ∷ []
insert_string s (t ∷ ts) =
    let rest = insert_string s ts in if bytes_lt t s then t ∷ rest else s ∷ t ∷ ts

unfoldable pub sort_strings : List Bytes → List Bytes
unfolding insert_string
sort_strings [] = []
sort_strings (s ∷ ss) = insert_string s (sort_strings ss)

-- The maps ipToName and ready: the last node with the address stays.
unfoldable pub node_at : List NodeInfo → Bytes → Option NodeInfo
node_at [] addr = none
node_at (n ∷ ns) addr = elim (node_at ns addr) [
  | some m ↦ some m
  | none ↦ if n.internal_ip == addr then some n else none
]

unfoldable pub name_at : List NodeInfo → Bytes → Bytes
unfolding node_at
name_at nodes addr = elim (node_at nodes addr) [ none ↦ [] | some n ↦ n.name ]

unfoldable pub is_ready : List NodeInfo → Bytes → Bool
unfolding node_at
is_ready nodes addr = elim (node_at nodes addr) [ none ↦ false | some n ↦ n.ready ]

unfoldable pub unavailable_others : List NodeInfo → List Bytes → Bytes → ℕ
unfolding is_ready
unavailable_others nodes [] self = 0
unavailable_others nodes (m ∷ ms) self =
    let rest = unavailable_others nodes ms self in
    if m == self then rest else if is_ready nodes m then rest else suc rest

-- max(strategy.maxUnavailable, 1)
unfoldable pub max_unavailable : RolloutStrategy → ℕ
max_unavailable strategy = elim strategy.max_unavailable [ zero ↦ 1 | suc n ↦ suc n ]

-- The states from which a pass resumes the wait.
unfoldable pub is_mid_flight : RolloutState → Bool
is_mid_flight state_upgrading = true
is_mid_flight state_waiting_healthy = true
is_mid_flight _ = false

-- What a turn of the loop does next: `continue`, or `return nil`.
pub data Flow : Type 0 where
  next stop : Flow

-- What a pass knows when its loop begins.
pub record Pass : Type 0 where
  pub cluster : Bytes
  pub role : Role
  pub target : Bytes
  pub strategy : RolloutStrategy
  pub nodes : List NodeInfo
  pub members : List Bytes

module _ ⦃bolt : Bolt⦄ ⦃remote : Remote⦄ where
  unfoldable pub target_version : Bytes → NodePool → Exec World Bytes
  target_version cluster np =
      let v = (pool_desired np).talos_version in
      if is_empty v
      then (do
        found ← in_store (get_cluster cluster)
        elim found.0 [
          | none ↦ raise (errorf "rollout: cluster %q not found" (cluster ∷ []))
          | some cl ↦ return (cluster_desired cl).talos_version
        ])
      else return v

  -- A member that is not mid-flight.
  unfoldable pub fresh_member : Pass → Bytes → Exec World Flow
  unfolding version fail set_state unavailable_others max_unavailable upgrade_node name_at
  fresh_member p addr =
      attempt (version addr) (λ e. fail p.cluster addr p.target (show "read version: %v" [] e))
        λ cur.
          if cur == p.target
          then (do set_state p.cluster addr state_done p.target no_text; return next)
          else if leb (max_unavailable p.strategy) (unavailable_others p.nodes p.members addr)
          then return stop
          else (do
            upgrade_node p.cluster p.role addr (name_at p.nodes addr) p.target p.strategy
            return next)

  unfoldable pub resume_member : Pass → Bytes → Exec World Flow
  unfolding finish_upgrade name_at
  resume_member p addr = do
    finish_upgrade p.cluster addr (name_at p.nodes addr) p.target
    return next

  -- A turn of the loop.
  unfoldable pub roll_member : Pass → Bytes → Exec World Flow
  unfolding machine_state is_mid_flight fresh_member resume_member
  roll_member p addr = do
    st ← machine_state p.cluster addr
    if is_mid_flight st then resume_member p addr else fresh_member p addr

  unfoldable pub roll : Pass → List Bytes → Exec World (Unit {0})
  unfolding roll_member
  roll p [] = return tt
  roll p (addr ∷ addrs) =
      let rest = roll p addrs in
      do flow ← roll_member p addr; elim flow [ next ↦ rest | stop ↦ return tt ]

  -- ReconcilePool on a pool that is not paused, at a target version.
  unfoldable pub roll_pool : Bytes → NodePool → Bytes → Exec World (Unit {0})
  unfolding list_nodes roll sort_strings
  roll_pool cluster np target =
      attempt list_nodes (λ e. raise (wrap "list nodes: %w" [] e))
        λ nodes.
          let members = sort_strings np.members in
          roll
            (record {
              cluster = cluster;
              role = np.role;
              target = target;
              strategy = pool_strategy np;
              nodes = nodes;
              members = members;
            })
            members

  unfoldable pub reconcile_pool : Bytes → Bytes → Exec World (Unit {0})
  unfolding target_version roll_pool
  reconcile_pool cluster pool = do
    found ← in_store (get_node_pool cluster pool)
    elim found.0 [
      | none ↦ raise (errorf "rollout: nodepool %q/%q not found" (cluster ∷ pool ∷ []))
      | some np ↦ if np.paused then return tt else do
        target ← target_version cluster np
        if is_empty target
            then raise (errorf "rollout: no target Talos version for %s/%s" (cluster ∷ pool ∷ []))
            else roll_pool cluster np target
    ]
