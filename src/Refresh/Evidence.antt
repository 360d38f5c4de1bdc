-- ===== src/Refresh/Evidence.antt =====
-- What a healthy machine rests on in internal/refresh/refresh.go.
use medea.Prelude.{
  Bytes, true, false, Option, none, some, List, ◌∷◌, ◌≡◌, refl, ◌⊎◌, inl, inr, Bool-cases,
}
use medea.Error.{Result, ok, err}
use medea.Proto.{MachineObserved}
use mathlib.Core.List.{Memᴰ}
use medea.Store.State.{ckey}
use medea.Rollout.World.{NodeInfo, Call, read_version, listed_nodes}
use medea.Rollout.Pool.{node_at}
use medea.Refresh.{observed_node, with_answer}

-- Among the calls are a list of nodes in which the address is ready, and an answer of its Talos API.
pub record Confirmed (calls : List Call) (addr : Bytes) : Type 0 where
  pub nodes : List NodeInfo
  pub node : NodeInfo
  pub version : Bytes
  pub listed : Memᴰ (listed_nodes (ok nodes)) calls
  pub found : node_at nodes addr ≡ some node
  pub ready : node.ready ≡ true
  pub answered : Memᴰ (read_version addr (ok version)) calls

-- An observed state of a machine that was written meanwhile.
pub record Fresh (calls : List Call) (k : Bytes) (o : Option MachineObserved) : Type 0 where
  pub cluster : Bytes
  pub addr : Bytes
  pub obs : MachineObserved
  pub key : k ≡ ckey cluster addr
  pub is : o ≡ some obs
  pub health : (obs.healthy ≡ false) ⊎ Confirmed calls addr

pub Fresh-later :
    (c : Call) (cs : List Call) (k : Bytes) (o : Option MachineObserved)
    → Fresh cs k o
    → Fresh (c ∷ cs) k o
Fresh-later c cs k o f = record {
  cluster = f.cluster;
  addr = f.addr;
  obs = f.obs;
  key = f.key;
  is = f.is;
  health = elim f.health [
    | inl unhealthy ↦ inl unhealthy
    | inr x ↦ inr (record {
      nodes = x.nodes;
      node = x.node;
      version = x.version;
      listed = Memᴰ.tail x.listed;
      found = x.found;
      ready = x.ready;
      answered = Memᴰ.tail x.answered;
    })
  ];
}

-- Which answers say that a machine is healthy.
pub healthy_from :
    (nodes : List NodeInfo) (addr : Bytes) (o : Option NodeInfo) (x : Result Bytes)
    (calls : List Call)
    → node_at nodes addr ≡ o
    → Memᴰ (listed_nodes (ok nodes)) calls
    → ((with_answer (observed_node o) x).healthy ≡ false)
      ⊎ Confirmed (read_version addr x ∷ calls) addr
unfolding observed_node with_answer
healthy_from nodes addr (some n) (ok tv) calls q listed = elim (Bool-cases n.ready) [
  | inl up ↦ inr (record {
    nodes = nodes;
    node = n;
    version = tv;
    listed = Memᴰ.tail listed;
    found = q;
    ready = up;
    answered = Memᴰ.head refl;
  })
  | inr down ↦ inl down
]
healthy_from nodes addr none (ok tv) calls q listed = inl refl
healthy_from nodes addr o (err e) calls q listed = inl refl
