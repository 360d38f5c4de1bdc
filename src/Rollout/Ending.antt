-- ===== src/Rollout/Ending.antt =====
-- The ways in which ReconcileK8s of internal/rollout/rollout.go ends.
use medea.Prelude.{
  Bytes, true, false, none, List, [], ◌∷◌, ◌≡◌, sym, subst, is_empty, Bool-cases, inl, inr,
}
use medea.Error.{Error, Result, ok, err}
use mathlib.Core.List.{Memᴰ}
use mathlib.Core.List.Memᴰ.{not-nil, cases_cons}
use medea.Rollout.World.{NodeInfo, Call, listed_nodes, took_snapshot, upgraded_k8s}
use medea.Rollout.K8s.{same_version, control_plane, lagging}

-- The version of a node is the target, a leading "v" aside.
abbrev pub At : Bytes → NodeInfo → Type 0
At target n = same_version n.kubelet_version target ≡ true

-- The nodes have a control-plane node with an address.
abbrev pub Headed : List NodeInfo → Type 0
Headed nodes = is_empty (control_plane nodes).0 ≡ false

pub lagging-At :
    (target : Bytes) (nodes : List NodeInfo)
    → lagging target nodes ≡ none
    → (n : NodeInfo) → Memᴰ n nodes
    → At target n
unfolding lagging
lagging-At target [] q n m = elim (not-nil m) [ ]
lagging-At target (x ∷ ns) q n m = elim (Bool-cases (same_version x.kubelet_version target)) [
  | inl at ↦ elim (cases_cons m) [
    | inl e ↦ subst (At target) (sym e) at
    | inr later ↦ lagging-At target ns (cc (q, at)) n later
  ]
  | inr off ↦ cc (q, off)
]

-- How a run ends, with the calls after it, by those before it.
pub data Course (target : Bytes) (cs : List Call) : Result (Unit {0}) → List Call → Type 0 where
  untargeted : {e : Error} → is_empty target ≡ true → Course target cs (err e) cs
  unlisted : {e : Error} (x : Error) → Course target cs (err e) (listed_nodes (err x) ∷ cs)
  headless :
      {e : Error} (nodes : List NodeInfo)
      → is_empty (control_plane nodes).0 ≡ true
      → Course target cs (err e) (listed_nodes (ok nodes) ∷ cs)
  converged :
      (nodes : List NodeInfo) (has : Headed nodes)
      → same_version (control_plane nodes).1 target ≡ true
      → Course target cs (ok tt) (listed_nodes (ok nodes) ∷ cs)
  unsaved :
      {e : Error} (nodes : List NodeInfo) (has : Headed nodes)
      → Course target cs (err e) (listed_nodes (ok nodes) ∷ cs)
  unsaved_after :
      {e : Error} (nodes : List NodeInfo) (has : Headed nodes) (r : Result (Unit {0}))
      → Course target cs
          (err e)
          (took_snapshot (control_plane nodes).0 r ∷ listed_nodes (ok nodes) ∷ cs)
  broken :
      {e : Error} (nodes : List NodeInfo) (has : Headed nodes) (u : Unit {0}) (x : Error)
      → Course target cs (err e) (
          upgraded_k8s (control_plane nodes).1 target (err x)
          ∷ took_snapshot (control_plane nodes).0 (ok u)
          ∷ listed_nodes (ok nodes)
          ∷ cs)
  unverified :
      {e : Error} (nodes : List NodeInfo) (has : Headed nodes) (u v : Unit {0})
      (r : Result (List NodeInfo))
      → Course target cs (err e) (
          listed_nodes r
          ∷ upgraded_k8s (control_plane nodes).1 target (ok v)
          ∷ took_snapshot (control_plane nodes).0 (ok u)
          ∷ listed_nodes (ok nodes)
          ∷ cs)
  verified :
      (nodes : List NodeInfo) (has : Headed nodes) (after : List NodeInfo) (u v : Unit {0})
      → ((n : NodeInfo) → Memᴰ n after → At target n)
      → Course target cs (ok tt) (
          listed_nodes (ok after)
          ∷ upgraded_k8s (control_plane nodes).1 target (ok v)
          ∷ took_snapshot (control_plane nodes).0 (ok u)
          ∷ listed_nodes (ok nodes)
          ∷ cs)
