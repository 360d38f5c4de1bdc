-- ===== src/Lib.antt =====
-- medea, a control plane for Talos Linux Kubernetes clusters.
--
-- A gRPC service (internal/server) writes the desired state of clusters, node pools, machines and
-- hosts, and rollout jobs, into a store (internal/store) that keeps protobuf records in a bbolt
-- file, gives every write a revision, and streams events to watchers. An executor
-- (internal/rollout/executor.go) polls the store for jobs of clusters with rollouts enabled and
-- drives each with a reconciler (internal/rollout/rollout.go), which upgrades a pool node by node,
-- or a cluster's Kubernetes, through the Talos and Kubernetes APIs, and records its progress in the
-- store, so that a restarted process resumes. Two more executors (internal/provision) bring up
-- machines: one scales pools to their replicas by staging the network boot of registered hosts, one
-- takes a new cluster through the phases of its bootstrap.
--
-- Prelude   byte strings, Boolean tests on the native ℕ, and the library's names; a Go string is a
--           list of bytes.
-- Error     Go's errors as data, and the code that returns them, with the state beside: what was
--           done before a failure stays done. Texts stay unrendered, and the text of a gRPC status
--           is left out.
-- Proto     the messages and enums of gen/medea/v1/medea.pb.go, field by field. A nil message is
--           `none`, an int64 that the code only compares is an ℕ, and an enum has no value without
--           a name.
-- Bolt      bbolt's buckets as an interface: get, put, delete and the entries in order, with the
--           laws that the store relies on; a put may fail. A cell is a record or a failed decoding.
--           Bolt/Memory is a bucket that is an association list.
-- Store     internal/store/store.go and watch.go. State holds BoltStore: the file's buckets, lastRev,
--           the observed caches and the subscribers. Write has putCAS and putLWW, whose bodies are
--           transactions that are rolled back on an error, and the Put methods; Delete and Read
--           have the rest. Watch has publish, Watch and snapshotEvents as single steps. The proofs:
--           Cas on one put, Slots and Teardown on which cells a deletion clears, Bodies and
--           Revisions on the counter, Reach on histories of calls and restarts, Frames on what a put
--           leaves as it was, Roundtrip on a put and the read after it,
--           Spec on the store as eight tables.
-- Talos     internal/talos/image.go: the installer image of a version; Tags has its laws.
-- Rollout   internal/rollout. World has the reconciler's interfaces TalosOps, KubeOps and K8sOps as
--           parties that may answer anything, and a log of the calls made to them. Node has
--           upgradeNode and finishUpgrade, Pool has ReconcilePool, K8s has ReconcileK8s, Executor
--           has RunOnce and runJob. The proofs: Calls and Waits on what an action may add to the
--           log, Prepared and Safety on what comes before an upgrade, Resume on a node found
--           mid-flight, Halting and Outcome on failures, Healthy and Confirmed on a wait that ends
--           well, Ending, Saved and Course on ReconcileK8s,
--           Budget on which nodes a pass takes down.
-- Server    internal/server/server.go. Service has rmw, mapErr and the state; before each call of the
--           store another user of it may act, from a list that the state holds. Reads, Writes, Jobs
--           and Hosts have the handlers. The proofs: Guards on CreateRollout.
-- Provision internal/provision. Site has the interfaces Provisioner, Resolver, KubeOps, BootstrapTalos
--           and BootstrapCreds, the Talos machinery library and the clock as parties that may answer
--           anything, and the log of calls. Config has config.go and schematic.go; Bootstrap has
--           bootstrap.go and bootstrap_executor.go; Hosts and Reconciler have reconciler.go;
--           Executor has executor.go. The proofs: Quiet on steps that do nothing to the store or the
--           log; Still, Phases and Trails on a bootstrap's phases; Ordered on its calls; Choices,
--           Counts, Deeds and Passes on a pass of the provisioning reconciler.
-- Matchbox  internal/provision/matchbox. Disk has the file system, the network and the JSON encoder with
--           what they document, Driver the operations; Keys, Files and Mirror have the proofs.
-- Creds     internal/creds. Interface has the interface Store and the table that it promises; FileStore
--           has creds.go, OnePassword and Migrate have onepassword.go, Sdk has onepassword_sdk.go. The
--           proofs: Steps and Filed on the file store, Copied on Migrate, Fields on an update.
-- Kube      internal/kube/client.go, the drain of a node: Drain has the operations, over client-go as a
--           party that may answer anything, with the log of requests; Rounds has the proof.
-- Refresh   internal/refresh/refresh.go, on the parties of Rollout.World; Evidence and Health
--           have its proof.
-- Seed      internal/seed/seed.go; Pools has its proof.
-- Auth      internal/auth/auth.go.
-- Triple    rules for what an action does to its state.
-- Examples  runs on concrete data.
--
-- Bounds. A revision is a uint64 and wraps at 2^64; theorems about it say how far the counter is
-- from there. waitHealthy polls while its context lasts: `wait_polls`, 120, is WaitTimeout (ten
-- minutes) over PollInterval (five seconds), their default values, and the context may be done at any poll before. rmw
-- tries twice, as the code does. Drain polls every drainPollInterval: its `rounds` are the polls that
-- its timeout has room for, and the context may be done after any round before. A subscriber's
-- buffer has 256 places.
--
-- Not modelled. The marshalling of protobuf: a cell holds the record, or the error of decoding it.
-- What a failed decoding leaves in the record, which machineState reads, is left out.
-- Export and Import. The goroutine under Watch and the context that ends it are steps here, and
-- their order is the caller's. A cancelled context inside a reconcile, and the executor's timer.
-- Two executors at work on one store. The handler Watch of the server, which copies events to a
-- stream. Times are numbers of nanoseconds, with the zone and the rounding of RFC 3339 left to the
-- site's `format_time` and `parse_time`. The HTTP request of a schematic's id. In
-- internal/kube the reads of nodes. internal/tlsgen, internal/delivery, the client of Talos,
-- the deadlines of calls to 1Password, and cmd/medea.
mod Prelude
pub mod Triple
pub mod Error
pub mod Proto
pub mod Bolt
pub mod Store
pub mod Talos
pub mod Rollout
pub mod Server
pub mod Auth
pub mod Creds
pub mod Kube
pub mod Refresh
pub mod Matchbox
pub mod Seed
pub mod Provision
mod Examples
