-- ===== src/Seed/Pools.antt =====
-- The pools and machines that internal/seed/seed.go gathers from the nodes.
use medea.Prelude.{
  Bytes, Bool, true, false, List, [], ◌∷◌, ◌++◌, map, ◌≡◌, refl, sym, ap, subst, ◌∙◌, ◌==◌, eq_iff,
  is_empty, if◌then◌else◌, arith,
}
use medea.Store.Slots.{ok-injective}
use medea.Error.{errorf, wrap, return, Result, ok, err, Exec, raise, branch, attempt}
use medea.Bolt.{Bolt}
use medea.Rollout.World.{NodeInfo, Remote, World, version}
use medea.Seed.{
  Seeded, Gathered, pool_name, pb_role, append_member, members_of, add_node, gather_node, gather,
  nothing_gathered,
}

-- The machine of a node.
abbrev pub machine_of : NodeInfo → Seeded
machine_of n = record { addr = n.internal_ip; pool = pool_name n.role; role = pb_role n.role }

-- The addresses of the nodes that belong to the pool, in the order of the list.
unfoldable pub addrs_in : Bytes → List NodeInfo → List Bytes
unfolding pool_name
addrs_in pool [] = []
addrs_in pool (n ∷ ns) =
    if pool_name n.role == pool then n.internal_ip ∷ addrs_in pool ns else addrs_in pool ns

append-nil : {A : Type 0} (l : List A) → l ++ [] ≡ l
append-nil [] = refl
append-nil (x ∷ l) = ap (λ t. x ∷ t) (append-nil l)

append-append : {A : Type 0} (a b c : List A) → (a ++ b) ++ c ≡ a ++ (b ++ c)
append-append [] b c = refl
append-append (x ∷ a) b c = ap (λ t. x ∷ t) (append-append a b c)

members_of-append_member :
    (p a : Bytes) (l : List (Bytes × List Bytes)) (pool : Bytes)
    → members_of (append_member p a l) pool
      ≡ (if p == pool then members_of l pool ++ (a ∷ []) else members_of l pool)
unfolding members_of append_member
members_of-append_member p a [] pool = refl
members_of-append_member p a ((q, addrs) ∷ l) pool =
    ground (arith, eq_iff q p, eq_iff q pool, eq_iff p pool, members_of-append_member p a l pool)

-- What has been gathered, from a state and the nodes gone through.
pub record Holds (start : Gathered) (nodes : List NodeInfo) (g : Gathered) : Type 0 where
  pub machines : g.machines ≡ start.machines ++ map machine_of nodes
  pub members :
      (pool : Bytes)
      → members_of g.pool_members pool ≡ members_of start.pool_members pool ++ addrs_in pool nodes

branch_ok :
    {S A B : Type 0} (r : Result A) (f : A → Exec S B) (s : S) {b : B}
    → (branch r raise f s).0 ≡ ok b
    → (a : A) × (r ≡ ok a) × ((f a s).0 ≡ ok b)
branch_ok (ok a) f s h = (a, refl, h)
branch_ok (err e) f s h = cc

add_node-Holds :
    (n : NodeInfo) (tv : Bytes) (g : Gathered) (ns : List NodeInfo) (g' : Gathered)
    → Holds (add_node n tv g) ns g'
    → Holds g (n ∷ ns) g'
unfolding add_node addrs_in
add_node-Holds n tv g ns g' h = record {
  machines = h.machines ∙ append-append g.machines (machine_of n ∷ []) (map machine_of ns);
  members = λ pool.
      h.members pool
      ∙ (ap (λ l. l ++ addrs_in pool ns)
            (members_of-append_member (pool_name n.role) n.internal_ip g.pool_members pool)
          ∙ joined (pool_name n.role == pool) (members_of g.pool_members pool) (addrs_in pool ns));
}
  where
    joined :
        (b : Bool) (xs ys : List Bytes)
        → (if b then xs ++ (n.internal_ip ∷ []) else xs) ++ ys
          ≡ xs ++ (if b then n.internal_ip ∷ ys else ys)
    joined true xs ys = append-append xs (n.internal_ip ∷ []) ys
    joined false xs ys = refl

module _ ⦃bolt : Bolt⦄ ⦃remote : Remote⦄ where
  gather_node_ok :
      (n : NodeInfo) (g g' : Gathered) (w : World)
      → (gather_node n g w).0 ≡ ok g'
      → (tv : Bytes) × (add_node n tv g ≡ g')
  unfolding gather_node version
  gather_node_ok n g g' w h = on (is_empty n.internal_ip) h
    where
      asked : Exec World Gathered
      asked =
          attempt (version n.internal_ip)
            (λ e.
              raise (wrap "seed: talos version for %s (%s): %w" (n.name ∷ n.internal_ip ∷ []) e))
            λ tv. return (add_node n tv g)

      told :
          (x : Result Bytes) (v : World)
          → (branch x
              (λ e.
                raise (wrap "seed: talos version for %s (%s): %w" (n.name ∷ n.internal_ip ∷ []) e))
              (λ tv. return (add_node n tv g))
              v).0
            ≡ ok g'
          → (tv : Bytes) × (add_node n tv g ≡ g')
      told (ok tv) v q = (tv, ok-injective q)
      told (err e) v q = cc

      on :
          (b : Bool)
          → ((if b then raise (errorf "seed: node %q has no internal IP" (n.name ∷ [])) else asked)
              w).0
            ≡ ok g'
          → (tv : Bytes) × (add_node n tv g ≡ g')
      on true q = cc
      on false q = told (version n.internal_ip w).0 (version n.internal_ip w).1 q

  gather_ok :
      (nodes : List NodeInfo) (g g' : Gathered) (w : World)
      → (gather nodes g w).0 ≡ ok g'
      → Holds g nodes g'
  unfolding gather addrs_in
  gather_ok [] g g' w h = subst (Holds g []) (ok-injective h) (record {
    machines = sym (append-nil g.machines);
    members = λ pool. sym (append-nil (members_of g.pool_members pool));
  })
  gather_ok (n ∷ ns) g g' w h =
      let (g1, first, later) =
        branch_ok (gather_node n g w).0 (gather ns) (gather_node n g w).1 h in
      let (tv, added) = gather_node_ok n g g1 w first in
      add_node-Holds n tv g ns g'
        (subst (λ x. Holds x ns g') (sym added) (gather_ok ns g1 g' (gather_node n g w).1 later))

  -- If the first loop of Apply goes through, then what it has gathered is what the nodes say: one
  -- machine for each node, in order, at its internal address and in the pool of its role; and the
  -- members of each pool are the addresses of just the nodes that belong to it, in order, also for
  -- a pool that no node belongs to.
  pub gather_exact :
      (nodes : List NodeInfo) (g : Gathered) (w : World)
      → (gather nodes nothing_gathered w).0 ≡ ok g
      → (g.machines ≡ map machine_of nodes)
        × ((pool : Bytes) → members_of g.pool_members pool ≡ addrs_in pool nodes)
  unfolding members_of
  gather_exact nodes g w h =
      let holds = gather_ok nodes nothing_gathered g w h in (holds.machines, holds.members)
