-- ===== src/Provision/Site.antt =====
-- What internal/provision acts on: the store, and the parties behind its interfaces Provisioner,
-- Resolver, KubeOps, BootstrapTalos and BootstrapCreds, with the Talos machinery library, the YAML
-- library and the clock.
use medea.Prelude.{ℕ, Bytes, Bool, Option, List, ◌∷◌}
use medea.Error.{Error, Result, ok, Exec}
use medea.Bolt.{Bolt}
use medea.Store.State.{Store}
use medea.Rollout.World.{NodeInfo}

-- provision.Profile
pub record Profile : Type 0 where
  pub kernel : Bytes
  pub initrd : List Bytes
  pub args : List Bytes

-- machine.Type, of which two are used.
pub data MachineType : Type 0 where
  type_worker type_controlplane : MachineType

-- What the calls of generate.NewInput hand over. A missing option is `none`.
pub record Options (Bundle : Type 0) : Type 0 where
  pub cluster_name : Bytes
  pub endpoint : Bytes
  pub kubernetes_version : Bytes
  pub bundle : Bundle
  pub schedulable : Option Bool
  pub install_disk : Option Bytes
  pub install_image : Option Bytes

-- The remote parties and the libraries, which may answer anything; each answer may depend on all
-- that was asked. `secrets_for` is SecretsFunc; `connect` is BootstrapTalosFactory, and the three
-- calls after it are those of the client that it built. `clock` is the time in nanoseconds.
pub record Site : Type 1 where
  pub Env : Type 0
  pub Bundle : Type 0
  pub Input : Type 0
  pub Provider : Type 0
  pub Patch : Type 0
  pub stage : Bytes → Profile → Bytes → Env → Result (Unit {0}) × Env
  pub unstage : Bytes → Env → Result (Unit {0}) × Env
  pub resolve : List Bytes → Env → Result Bytes × Env
  pub list_nodes : Env → Result (List NodeInfo) × Env
  pub drain : Bytes → ℕ → Env → Result (Unit {0}) × Env
  pub secrets_for : Bytes → Env → Result (Option Bundle) × Env
  pub secrets : Bytes → Env → Result Bytes × Env
  pub put_secrets : Bytes → Bytes → Env → Result (Unit {0}) × Env
  pub talos_config : Bytes → Env → Result Bytes × Env
  pub put_creds : Bytes → Bytes → Option Bytes → Env → Result (Unit {0}) × Env
  pub connect : Bytes → Bytes → Env → Result (Unit {0}) × Env
  pub version : Bytes → Env → Result Bytes × Env
  pub bootstrap : Bytes → Env → Result (Unit {0}) × Env
  pub kubeconfig : Bytes → Env → Result Bytes × Env
  pub build_kube : Bytes → Env → Result (Unit {0}) × Env
  pub new_bundle : Env → Result Bundle × Env
  pub marshal_bundle : Bundle → Result Bytes
  pub parse_bundle : Bytes → Result Bundle
  pub new_input : Options Bundle → Env → Result Input × Env
  pub config : Input → MachineType → Env → Result Provider × Env
  pub encode : Provider → Result Bytes
  pub admin_config : Input → Env → Result Bytes × Env
  pub load_patch : Bytes → Result Patch
  pub apply_patch : Bytes → List Patch → Result Bytes
  pub clock : Env → ℕ × Env
  pub format_time : ℕ → Bytes
  pub parse_time : Bytes → Option ℕ
  pub error_text : Error → Bytes

-- A call that changes something outside, or on whose answer such a call depends, with its answer.
pub data Call : Type 0 where
  read_secrets : Bytes → Result Bytes → Call
  stored_secrets : Bytes → Bytes → Result (Unit {0}) → Call
  stored_creds : Bytes → Option Bytes → Result (Unit {0}) → Call
  staged : Bytes → Profile → Bytes → Result (Unit {0}) → Call
  unstaged : Bytes → Result (Unit {0}) → Call
  drained : Bytes → ℕ → Result (Unit {0}) → Call
  listed_nodes : Result (List NodeInfo) → Call
  probed : Bytes → Result Bytes → Call
  bootstrapped : Bytes → Result (Unit {0}) → Call
  fetched_kubeconfig : Bytes → Result Bytes → Call

module _ ⦃bolt : Bolt⦄ ⦃site : Site⦄ where
  -- `calls` are the calls made so far, the latest first.
  pub record Plant : Type 0 where
    pub store : Store
    pub env : site.Env
    pub calls : List Call

  abbrev pub perform :
      {A : Type 0} → (site.Env → Result A × site.Env) → (Result A → Call) → Exec Plant A
  perform op note w = let (r, e) = op w.env in (r, record w { env = e; calls = note r ∷ w.calls })

  -- A call that leaves no entry.
  abbrev pub outside : {A : Type 0} → (site.Env → Result A × site.Env) → Exec Plant A
  outside op w = let (r, e) = op w.env in (r, record w { env = e })

  -- A function of a library that changes nothing.
  abbrev pub pure : {A : Type 0} → Result A → Exec Plant A
  pure r w = (r, w)

  abbrev pub in_store : {A : Type 0} → Exec Store A → Exec Plant A
  in_store m w = let (r, s) = m w.store in (r, record w { store = s })

  -- time.Now()
  abbrev pub now : Exec Plant ℕ
  now w = let (t, e) = site.clock w.env in (ok t, record w { env = e })
