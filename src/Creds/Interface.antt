-- ===== src/Creds/Interface.antt =====
-- The interface Store of internal/creds/creds.go, and what it promises.
use medea.Prelude.{
  Bytes, Bool, true, false, Option, none, some, ◌≡◌, bytes, ◌==◌, ◌||◌, not, is_empty,
}
use medea.Talos.Image.{contains_byte}
use medea.Error.{Error, Result, ok, err, Exec, return, raise, attempt}

-- The Go interface. A failed operation may have changed the state.
pub record Operations : Type 1 where
  pub State : Type 0
  pub talos_config : Bytes → Exec State Bytes
  pub kube_config : Bytes → Exec State Bytes
  pub secrets : Bytes → Exec State Bytes
  pub put : Bytes → Bytes → Bytes → Exec State (Unit {0})
  pub put_secrets : Bytes → Bytes → Exec State (Unit {0})
  pub delete : Bytes → Exec State (Unit {0})

-- The three parts of a cluster's credentials.
pub data Part : Type 0 where
  talos kube bundle : Part

-- talosFile, kubeFile and secretsFile
unfoldable pub file_of : Part → Bytes
unfolding bytes
file_of talos = bytes "talosconfig"
file_of kube = bytes "kubeconfig"
file_of bundle = bytes "secrets.yaml"

-- Which credentials there are, by cluster.
abbrev pub Contents : Type 0
Contents = Bytes → Part → Option Bytes

-- A name that is one element of a path and none of the special ones.
unfoldable pub is_plain : Bytes → Bool
unfolding bytes contains_byte
is_plain c = not (is_empty c || contains_byte b'/' c || c == bytes "." || c == bytes "..")

pub data Op : Type 0 where
  reads : Part → Bytes → Op
  puts : Bytes → Bytes → Bytes → Op
  puts_secrets : Bytes → Bytes → Op
  deletes : Bytes → Op

unfoldable pub cluster_of : Op → Bytes
cluster_of (reads p c) = c
cluster_of (puts c t k) = c
cluster_of (puts_secrets c b) = c
cluster_of (deletes c) = c

abbrev pub read_part : (ops : Operations) → Part → Bytes → Exec ops.State Bytes
read_part ops talos = ops.talos_config
read_part ops kube = ops.kube_config
read_part ops bundle = ops.secrets

-- The call of an operation; a read answers with what it found.
unfoldable pub run : (ops : Operations) → Op → Exec ops.State (Option Bytes)
run ops (reads p c) = attempt (read_part ops p c) raise (λ b. return (some b))
run ops (puts c t k) = attempt (ops.put c t k) raise (λ _. return none)
run ops (puts_secrets c b) = attempt (ops.put_secrets c b) raise (λ _. return none)
run ops (deletes c) = attempt (ops.delete c) raise (λ _. return none)

-- What an operation that goes through makes of the cluster's parts, and answers.
unfoldable pub effect : Op → (Part → Option Bytes) → Part → Option Bytes
effect (reads p c) f q = f q
effect (puts c t k) f talos = some t
effect (puts c t k) f kube = some k
effect (puts c t k) f bundle = f bundle
effect (puts_secrets c b) f bundle = some b
effect (puts_secrets c b) f q = f q
effect (deletes c) f q = none

unfoldable pub answer : Op → (Part → Option Bytes) → Option Bytes
answer (reads p c) f = f p
answer _ f = none

-- The parts that an operation which fails may have changed.
unfoldable pub may_touch : Op → Part → Bool
may_touch (reads p c) q = false
may_touch (puts c t k) bundle = false
may_touch (puts c t k) q = true
may_touch (puts_secrets c b) bundle = true
may_touch (puts_secrets c b) q = false
may_touch (deletes c) q = true

-- The credentials of the other clusters are as they were.
pub record Apart (c : Bytes) (before after : Contents) : Type 0 where
  pub others :
      (d : Bytes) (p : Part) → is_plain d ≡ true → (c == d) ≡ false → after d p ≡ before d p

-- What an operation promises, by its answer.
pub data Step (op : Op) (before after : Contents) : Result (Option Bytes) → Type 0 where
  went :
      (a : Option Bytes)
      → a ≡ answer op (before (cluster_of op))
      → ((p : Part) → after (cluster_of op) p ≡ effect op (before (cluster_of op)) p)
      → Apart (cluster_of op) before after
      → Step op before after (ok a)
  failed :
      (e : Error)
      → ((p : Part) → may_touch op p ≡ false → after (cluster_of op) p ≡ before (cluster_of op) p)
      → Apart (cluster_of op) before after
      → Step op before after (err e)

-- An implementation that keeps the promise.
pub record CredStore : Type 1 where
  pub ops : Operations
  pub contents : ops.State → Contents
  pub refines :
      (op : Op) (s : ops.State)
      → is_plain (cluster_of op) ≡ true
      → Step op (contents s) (contents (run ops op s).1) (run ops op s).0
