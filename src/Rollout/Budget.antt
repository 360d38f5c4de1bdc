-- ===== src/Rollout/Budget.antt =====
-- The budget of unavailable nodes in ReconcilePool of internal/rollout/rollout.go.
use medea.Prelude.{
  ℕ, ◌<◌, Bytes, Bool, true, false, List, [], ◌∷◌, ◌≡◌, refl, if◌then◌else◌, leb, length, ◌==◌,
  ◌||◌, arith,
}
use medea.Error.{Result, Exec, return}
use medea.Bolt.{Bolt}
use medea.Rollout.World.{
  NodeInfo, Remote, World, Call, drained, upgraded_os, took_snapshot, read_image, etcd_snapshot,
  drain, install_image, upgrade_os,
}
use medea.Rollout.Node.{snapshot, snapshot_first, upgrade_node}
use medea.Rollout.Pool.{
  Flow, stop, Pass, is_ready, name_at, unavailable_others, max_unavailable, fresh_member, roll,
}
use medea.Rollout.Calls.{Keeps, keeps, Keeps-return, Keeps-perform}
use medea.Rollout.Waits.{
  is_wait, set_state-Keeps, roll_member-Keeps, roll-Keeps, fail-Keeps, version-Keeps,
  finish_upgrade-Keeps,
}

-- The other members that had no ready node when the pass began.
pub down : List NodeInfo → List Bytes → Bytes → List Bytes
down nodes [] self = []
down nodes (m ∷ ms) self =
    let rest = down nodes ms self in if m == self || is_ready nodes m then rest else m ∷ rest

unavailable_others-down :
    (nodes : List NodeInfo) (ms : List Bytes) (self : Bytes)
    → unavailable_others nodes ms self ≡ length (down nodes ms self)
unfolding unavailable_others down
unavailable_others-down nodes [] self = refl
unavailable_others-down nodes (m ∷ ms) self = ground (arith, unavailable_others-down nodes ms self)

-- The pool can spare the member: fewer others are down than the strategy allows.
pub record IsSpare (p : Pass) (addr : Bytes) : Type 0 where
  pub few : length (down p.nodes p.members addr) < max_unavailable p.strategy

-- The calls that take a node out of service.
pub takes_down : Call → Bool
takes_down (drained name t r) = true
takes_down (upgraded_os addr image r) = true
takes_down c = false

-- The calls of a pass since its start: what takes a node down is for a member that the pool spares.
pub data Budgeted (p : Pass) (start : List Call) : List Call → Type 0 where
  begin : Budgeted p start start
  drains :
      {cs : List Call} (addr : Bytes) (t : ℕ) (r : Result (Unit {0}))
      → IsSpare p addr
      → Budgeted p start cs
      → Budgeted p start (drained (name_at p.nodes addr) t r ∷ cs)
  upgrades :
      {cs : List Call} (addr image : Bytes) (r : Result (Unit {0}))
      → IsSpare p addr
      → Budgeted p start cs
      → Budgeted p start (upgraded_os addr image r ∷ cs)
  others :
      {cs : List Call} (c : Call)
      → takes_down c ≡ false
      → Budgeted p start cs
      → Budgeted p start (c ∷ cs)

waits_apart : (c : Call) → is_wait c ≡ true → takes_down c ≡ false
unfolding takes_down
waits_apart c h = ground arith

module _ ⦃bolt : Bolt⦄ ⦃remote : Remote⦄ (p : Pass) (start : List Call) where
  abbrev Within : List Call → Type 0
  Within = Budgeted p start

  waits : (c : Call) (cs : List Call) → is_wait c ≡ true → Within cs → Within (c ∷ cs)
  waits c cs h q = others c (waits_apart c h) q

  etcd_snapshot-Keeps : (addr : Bytes) → Keeps Within (etcd_snapshot addr)
  unfolding etcd_snapshot takes_down
  etcd_snapshot-Keeps addr =
      Keeps-perform (remote.etcd_snapshot addr) (took_snapshot addr)
        (λ r cs q. others (took_snapshot addr r) refl q)

  snapshot_first-Keeps :
      (addr : Bytes) → Keeps Within (snapshot_first p.cluster p.role addr p.target p.strategy)
  unfolding snapshot_first snapshot
  snapshot_first-Keeps addr = search (keeps, fail-Keeps Within, etcd_snapshot-Keeps) depth 14

  install_image-Keeps : (addr : Bytes) → Keeps Within (install_image addr)
  unfolding install_image takes_down
  install_image-Keeps addr =
      Keeps-perform (remote.install_image addr) (read_image addr)
        (λ r cs q. others (read_image addr r) refl q)

  drain-Keeps :
      (addr : Bytes) (t : ℕ) → IsSpare p addr → Keeps Within (drain (name_at p.nodes addr) t)
  unfolding drain
  drain-Keeps addr t h = Keeps-perform _ _ (λ r cs q. drains addr t r h q)

  upgrade_os-Keeps : (addr image : Bytes) → IsSpare p addr → Keeps Within (upgrade_os addr image)
  unfolding upgrade_os
  upgrade_os-Keeps addr image h = Keeps-perform _ _ (λ r cs q. upgrades addr image r h q)

  upgrade_node-Keeps :
      (addr : Bytes)
      → IsSpare p addr
      → Keeps Within (upgrade_node p.cluster p.role addr (name_at p.nodes addr) p.target p.strategy)
  unfolding upgrade_node
  upgrade_node-Keeps addr h =
      search
        (
          keeps,
          fail-Keeps Within,
          set_state-Keeps Within,
          snapshot_first-Keeps,
          drain-Keeps,
          install_image-Keeps,
          upgrade_os-Keeps,
          finish_upgrade-Keeps Within waits,
        )
        depth 14

  -- The test of the budget.
  spared :
      (addr : Bytes) (m : Exec World Flow)
      → (IsSpare p addr → Keeps Within m)
      → Keeps Within (
          if leb (max_unavailable p.strategy) (unavailable_others p.nodes p.members addr)
          then return stop
          else m)
  spared addr m k =
      on (leb (max_unavailable p.strategy) (unavailable_others p.nodes p.members addr)) refl
    where
      on :
          (b : Bool)
          → leb (max_unavailable p.strategy) (unavailable_others p.nodes p.members addr) ≡ b
          → Keeps Within (if b then return stop else m)
      on true q = Keeps-return stop
      on false q = k record { few = ground (arith, unavailable_others-down p.nodes p.members addr) }

  fresh_member-Keeps : (addr : Bytes) → Keeps Within (fresh_member p addr)
  unfolding fresh_member
  fresh_member-Keeps addr =
      search
        (
          keeps,
          spared,
          upgrade_node-Keeps,
          version-Keeps Within waits,
          fail-Keeps Within,
          set_state-Keeps Within,
        )
        depth 12

-- In the loop over a pool's members, every drain and every OS upgrade is for a member of which,
-- when the pass began, fewer other members had no ready node than the strategy allows to be
-- unavailable, one if it allows none, whatever the nodes and the cluster answer and however the
-- loop ends.
pub roll-Budgeted :
    ⦃bolt : Bolt⦄ ⦃remote : Remote⦄ (p : Pass) (addrs : List Bytes) (w : World)
    → Budgeted p w.calls (roll p addrs w).1.calls
roll-Budgeted p addrs w =
    (roll-Keeps (Within p w.calls) p
        (roll_member-Keeps (Within p w.calls) p (waits p w.calls) (fresh_member-Keeps p w.calls))
        addrs).at
      w begin
