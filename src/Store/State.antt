-- ===== src/Store/State.antt =====
-- The state of internal/store/store.go: the database file, the observed cache and the subscribers.
use medea.Prelude.{ℕ, ◌%◌, ◌^◌, Bytes, Option, none, List, [], ◌∷◌, ◌++◌, ◌≡◌, refl, bytes}
use medea.Proto.{
  Cluster, ClusterObserved, NodePool, Machine, MachineObserved, Host, MachineRollout,
  ClusterRollout, ClusterBootstrap, Rollout,
}
use medea.Bolt.{Bolt, Bucket}

-- Store.EventKind
pub data EventKind : Type 0 where
  kind_cluster kind_node_pool kind_machine kind_host : EventKind
  kind_machine_rollout kind_cluster_rollout kind_rollout_job kind_cluster_bootstrap : EventKind

pub record Event : Type 0 where
  pub kind : EventKind
  pub key : Bytes
  pub revision : ℕ

-- A subscriber's channel: its number, and the events that it has not taken yet, oldest first.
pub record Subscriber : Type 0 where
  pub id : ℕ
  pub buffer : List Event

abbrev pub sub_buffer : ℕ
sub_buffer = 256

-- Revision is a uint64.
abbrev pub u64 : ℕ → ℕ
u64 n = n % 2 ^ 64

-- a + "\x00" + b
unfoldable pub ckey : Bytes → Bytes → Bytes
ckey a b = a ++ (0 ∷ b)

-- a + "/" + b, the key of an event
unfoldable pub event_key : Bytes → Bytes → Bytes
unfolding bytes
event_key a b = a ++ (bytes "/" ++ b)

module _ ⦃bolt : Bolt⦄ where
  -- The bucket "desired" and its sub-buckets.
  pub record Desired : Type 0 where
    pub clusters : Bucket Cluster
    pub nodepools : Bucket NodePool
    pub machines : Bucket Machine
    pub hosts : Bucket Host

  -- The bucket "rollouts" and its sub-buckets.
  pub record Rollouts : Type 0 where
    pub clusters : Bucket ClusterRollout
    pub machines : Bucket MachineRollout
    pub jobs : Bucket Rollout
    pub bootstrap : Bucket ClusterBootstrap

  -- The database file; `revision` is the key "revision" of the bucket "meta".
  pub record Db : Type 0 where
    pub revision : ℕ
    pub desired : Desired
    pub rollouts : Rollouts

  -- BoltStore. A Go map is a function: nothing iterates over one but to delete.
  pub record Store : Type 0 where
    pub db : Db
    pub last_rev : ℕ
    pub obs_cluster : Bytes → Option ClusterObserved
    pub obs_machine : Bytes → Option MachineObserved
    pub subs : List Subscriber
    pub next_sub : ℕ

  -- Open on a file that does not exist yet.
  unfoldable pub open_new : Store
  open_new = record {
    db = record {
      revision = 0;
      desired = record {
        clusters = bolt.empty;
        nodepools = bolt.empty;
        machines = bolt.empty;
        hosts = bolt.empty;
      };
      rollouts = record {
        clusters = bolt.empty;
        machines = bolt.empty;
        jobs = bolt.empty;
        bootstrap = bolt.empty;
      };
    };
    last_rev = 0;
    obs_cluster = λ _. none;
    obs_machine = λ _. none;
    subs = [];
    next_sub = 0;
  }

  -- Open on the file that an earlier process left: only the file survives.
  unfoldable pub reopen : Store → Store
  reopen s = record {
    db = s.db;
    last_rev = s.db.revision;
    obs_cluster = λ _. none;
    obs_machine = λ _. none;
    subs = [];
    next_sub = 0;
  }

  -- A sub-bucket of the database, which putCAS and putLWW take by its name.
  pub record Slot (V : Type 0) : Type 0 where
    pub bucket : Db → Bucket V
    pub replace : Bucket V → Db → Db
    pub bucket-replace : (b : Bucket V) (d : Db) → bucket (replace b d) ≡ b
    pub revision-replace : (b : Bucket V) (d : Db) → (replace b d).revision ≡ d.revision
    pub bucket-revision : (d : Db) (r : ℕ) → bucket (record d { revision = r }) ≡ bucket d

  abbrev pub desired_clusters : Slot Cluster
  desired_clusters = record {
    bucket = λ d. d.desired.clusters;
    replace = λ b d. record d { desired = record d.desired { clusters = b } };
    bucket-replace = λ b d. refl;
    revision-replace = λ b d. refl;
    bucket-revision = λ d r. refl;
  }

  abbrev pub desired_nodepools : Slot NodePool
  desired_nodepools = record {
    bucket = λ d. d.desired.nodepools;
    replace = λ b d. record d { desired = record d.desired { nodepools = b } };
    bucket-replace = λ b d. refl;
    revision-replace = λ b d. refl;
    bucket-revision = λ d r. refl;
  }

  abbrev pub desired_machines : Slot Machine
  desired_machines = record {
    bucket = λ d. d.desired.machines;
    replace = λ b d. record d { desired = record d.desired { machines = b } };
    bucket-replace = λ b d. refl;
    revision-replace = λ b d. refl;
    bucket-revision = λ d r. refl;
  }

  abbrev pub desired_hosts : Slot Host
  desired_hosts = record {
    bucket = λ d. d.desired.hosts;
    replace = λ b d. record d { desired = record d.desired { hosts = b } };
    bucket-replace = λ b d. refl;
    revision-replace = λ b d. refl;
    bucket-revision = λ d r. refl;
  }

  abbrev pub rollout_clusters : Slot ClusterRollout
  rollout_clusters = record {
    bucket = λ d. d.rollouts.clusters;
    replace = λ b d. record d { rollouts = record d.rollouts { clusters = b } };
    bucket-replace = λ b d. refl;
    revision-replace = λ b d. refl;
    bucket-revision = λ d r. refl;
  }

  abbrev pub rollout_machines : Slot MachineRollout
  rollout_machines = record {
    bucket = λ d. d.rollouts.machines;
    replace = λ b d. record d { rollouts = record d.rollouts { machines = b } };
    bucket-replace = λ b d. refl;
    revision-replace = λ b d. refl;
    bucket-revision = λ d r. refl;
  }

  abbrev pub rollout_jobs : Slot Rollout
  rollout_jobs = record {
    bucket = λ d. d.rollouts.jobs;
    replace = λ b d. record d { rollouts = record d.rollouts { jobs = b } };
    bucket-replace = λ b d. refl;
    revision-replace = λ b d. refl;
    bucket-revision = λ d r. refl;
  }

  abbrev pub rollout_bootstrap : Slot ClusterBootstrap
  rollout_bootstrap = record {
    bucket = λ d. d.rollouts.bootstrap;
    replace = λ b d. record d { rollouts = record d.rollouts { bootstrap = b } };
    bucket-replace = λ b d. refl;
    revision-replace = λ b d. refl;
    bucket-revision = λ d r. refl;
  }

-- The fields of a message that the store reads and writes: `stamp` is marshalWithRev, which sets
-- the revision and clears the observed cache, and `revision` is decodeRevision.
pub record Message (V : Type 0) : Type 0 where
  pub stamp : ℕ → V → V
  pub revision : V → ℕ
  pub revision-stamp : (r : ℕ) (v : V) → revision (stamp r v) ≡ r

instance abbrev pub cluster_message : Message Cluster
cluster_message = record {
  stamp = λ r c. record c { revision = r; observed = none };
  revision = λ c. c.revision;
  revision-stamp = λ r c. refl;
}

instance abbrev pub node_pool_message : Message NodePool
node_pool_message = record {
  stamp = λ r np. record np { revision = r };
  revision = λ np. np.revision;
  revision-stamp = λ r np. refl;
}

instance abbrev pub machine_message : Message Machine
machine_message = record {
  stamp = λ r m. record m { revision = r; observed = none };
  revision = λ m. m.revision;
  revision-stamp = λ r m. refl;
}

instance abbrev pub host_message : Message Host
host_message = record {
  stamp = λ r h. record h { revision = r };
  revision = λ h. h.revision;
  revision-stamp = λ r h. refl;
}

instance abbrev pub machine_rollout_message : Message MachineRollout
machine_rollout_message = record {
  stamp = λ r m. record m { revision = r };
  revision = λ m. m.revision;
  revision-stamp = λ r m. refl;
}

instance abbrev pub cluster_rollout_message : Message ClusterRollout
cluster_rollout_message = record {
  stamp = λ r c. record c { revision = r };
  revision = λ c. c.revision;
  revision-stamp = λ r c. refl;
}

instance abbrev pub cluster_bootstrap_message : Message ClusterBootstrap
cluster_bootstrap_message = record {
  stamp = λ r c. record c { revision = r };
  revision = λ c. c.revision;
  revision-stamp = λ r c. refl;
}

instance abbrev pub rollout_message : Message Rollout
rollout_message = record {
  stamp = λ r j. record j { revision = r };
  revision = λ j. j.revision;
  revision-stamp = λ r j. refl;
}
