-- ===== src/Rollout/Safety.antt =====
-- What stands before an upgrade of a node in a pass of internal/rollout/rollout.go.
use medea.Prelude.{
  Bytes, Bool, true, false, List, [], ◌≡◌, refl, if◌then◌else◌, is_empty, eq_refl, arith,
}
use medea.Error.{errorf, Error, Result, ok, err, return, raise, attempt, branch, show}
use medea.Proto.{state_upgrading, state_draining}
use medea.Bolt.{Bolt}
use medea.Rollout.World.{Remote, World, etcd_snapshot}
use medea.Rollout.Node.{set_state, fail, snapshot, snapshot_first, upgrade_node, drain_timeout}
use medea.Rollout.Pool.{Pass, fresh_member, roll, name_at}
use medea.Rollout.Waits.{set_state-Keeps, fail-Keeps, roll_member-Keeps, roll-Keeps, version-Keeps}
use medea.Rollout.Calls.{attempt-at, Keeps, keeps, Keeps-if}
use medea.Rollout.Prepared.{needs_snapshot, saved, Safe, waits, drain_stage}

module _ ⦃bolt : Bolt⦄ ⦃remote : Remote⦄ (p : Pass) where
  took_snapshot-Keeps : (addr : Bytes) → Keeps (Safe p) (etcd_snapshot addr)
  unfolding etcd_snapshot
  took_snapshot-Keeps addr = search keeps

  snapshot-Keeps : (cluster addr : Bytes) → Keeps (Safe p) (snapshot cluster addr)
  unfolding snapshot
  snapshot-Keeps cluster addr = search (keeps, took_snapshot-Keeps) depth 9

  snapshot_ok :
      (cluster addr : Bytes) (w : World) {u : Unit {0}}
      → (snapshot cluster addr w).0 ≡ ok u
      → saved addr (snapshot cluster addr w).1.calls ≡ true
  unfolding snapshot etcd_snapshot
  snapshot_ok cluster addr w h = ground (arith, eq_refl addr)

  snapshot_first-Keeps :
      (addr : Bytes) → Keeps (Safe p) (snapshot_first p.cluster p.role addr p.target p.strategy)
  unfolding snapshot_first
  snapshot_first-Keeps addr = search (keeps, snapshot-Keeps, fail-Keeps (Safe p))

  saved-branch :
      (addr : Bytes) (g : Error → Error) (r : Result (Unit {0})) (w : World) {u : Unit {0}}
      → ((v : Unit {0}) → r ≡ ok v → saved addr w.calls ≡ true)
      → (branch r (λ e. fail p.cluster addr p.target (g e)) return w).0 ≡ ok u
      → saved addr
          (branch r (λ e. fail {A = Unit {0}} p.cluster addr p.target (g e)) return w).1.calls
        ≡ true
  unfolding fail
  saved-branch addr g (ok v) w k h = k v refl
  saved-branch addr g (err e) w k h = cc

  saved_if :
      (b : Bool) (addr : Bytes) (g : Error → Error) (w : World) {u : Unit {0}}
      → ((if b
            then attempt (snapshot p.cluster addr) (λ e. fail p.cluster addr p.target (g e)) return
            else return tt)
          w).0
        ≡ ok u
      → (if b
          then saved addr
              ((if b
                  then attempt
                      (snapshot p.cluster addr)
                      (λ e. fail {A = Unit {0}} p.cluster addr p.target (g e))
                      return
                  else return tt)
                w).1.calls
          else true)
        ≡ true
  saved_if true addr g w h =
      let (r, w') = snapshot p.cluster addr w in
      saved-branch addr g r w' (λ v q. snapshot_ok p.cluster addr w q) h
  saved_if false addr g w h = refl

  snapshot_first_ok :
      (addr : Bytes) (w : World) {u : Unit {0}}
      → (snapshot_first p.cluster p.role addr p.target p.strategy w).0 ≡ ok u
      → (if needs_snapshot p
          then saved addr (snapshot_first p.cluster p.role addr p.target p.strategy w).1.calls
          else true)
        ≡ true
  unfolding snapshot_first
  snapshot_first_ok addr w h = saved_if (needs_snapshot p) addr (show "etcd snapshot: %v" []) w h

  upgrade_node-Keeps :
      (addr : Bytes)
      → Keeps
          (Safe p)
          (upgrade_node p.cluster p.role addr (name_at p.nodes addr) p.target p.strategy)
  unfolding upgrade_node
  upgrade_node-Keeps addr =
      Keeps-if (is_empty (name_at p.nodes addr)) _ _
        (fail-Keeps (Safe p) p.cluster addr p.target
          (errorf "node not found in cluster (cannot drain)" []))
        (record {
          at = λ w safe.
              attempt-at (Safe p) (snapshot_first p.cluster p.role addr p.target p.strategy) raise _
                w (λ e q. (snapshot_first-Keeps addr).at w safe)
                (λ u q.
                  drain_stage p addr (drain_timeout p.strategy) (show "drain: %v" [])
                    (show "read install image: %v" []) (show "upgrade: %v" []) state_upgrading
                    (errorf "upgrading" [])
                    (set_state p.cluster addr state_draining p.target (errorf "draining" [])
                      (snapshot_first p.cluster p.role addr p.target p.strategy w).1).1
                    (snapshot_first_ok addr w q) ((snapshot_first-Keeps addr).at w safe));
        })

  fresh_member-Keeps : (addr : Bytes) → Keeps (Safe p) (fresh_member p addr)
  unfolding fresh_member
  fresh_member-Keeps addr =
      search
        (
          keeps,
          version-Keeps (Safe p) (waits p),
          fail-Keeps (Safe p),
          set_state-Keeps (Safe p),
          upgrade_node-Keeps,
        )
        depth 9

  -- In the loop over a pool's members, every OS upgrade of a node is directly preceded by the read
  -- of its installer image, of which the upgrade's image is the one at the target version, by a
  -- drain of that node that went through, and, for a control-plane pool whose strategy asks for
  -- it, by an etcd snapshot of it that went through; if this holds of the calls before the loop it
  -- holds of those after it, whatever the nodes and the cluster answer and however the loop ends.
  pub roll-Safe :
      (addrs : List Bytes) (w : World) → Safe p w.calls → Safe p (roll p addrs w).1.calls
  roll-Safe addrs w =
      (roll-Keeps (Safe p) p (roll_member-Keeps (Safe p) p (waits p) fresh_member-Keeps) addrs).at w
