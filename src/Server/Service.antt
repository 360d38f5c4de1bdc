-- ===== src/Server/Service.antt =====
-- The service's state, mapErr and rmw (internal/server/server.go).
use medea.Prelude.{
  ℕ, zero, suc, nat_eq, Bytes, Bool, Option, none, some, List, [], ◌∷◌, if◌then◌else◌,
}
use medea.Error.{
  Error, status, aborted, internal, invalid_argument, not_found, is_conflict, is_status, Result,
  Exec, return, raise, attempt,
}
use medea.Bolt.{Bolt}
use medea.Store.State.{Store}

-- creds.Store, which may answer anything.
pub record Creds : Type 1 where
  pub Env : Type 0
  pub talos_config : Bytes → Env → Result Bytes × Env
  pub kube_config : Bytes → Env → Result Bytes × Env
  pub secrets : Bytes → Env → Result Bytes × Env
  pub delete : Bytes → Env → Result (Unit {0}) × Env

unfoldable pub map_err : Error → Error
map_err e = if is_conflict e then status aborted else status internal

module _ ⦃bolt : Bolt⦄ ⦃creds : Creds⦄ where
  -- `others` is what the store's other users do to it before each of the next calls of the service,
  -- and `now` what time.Now() renders as.
  pub record Service : Type 0 where
    pub store : Store
    pub held_creds : Option creds.Env
    pub others : List (Store → Store)
    pub now : Bytes

  -- The store's other users come before the next call.
  unfoldable pub meanwhile : Service → Service
  meanwhile sv = elim sv.others [
    | [] ↦ sv
    | (f ∷ fs) ↦ record sv { store = f sv.store; others = fs }
  ]

  unfoldable pub call : {A : Type 0} → Exec Store A → Exec Service A
  unfolding meanwhile
  call m sv = let sv' = meanwhile sv in let (r, s) = m sv'.store in (r, record sv' { store = s })

  -- `if err != nil { return nil, mapErr(err) }`
  unfoldable pub call_mapped : {A : Type 0} → Exec Store A → Exec Service A
  unfolding call map_err
  call_mapped m = attempt (call m) (λ e. raise (map_err e)) return

  -- The loop of rmw; `n` is how often the body may still run.
  unfoldable pub rmw_tries : {A : Type 0} → ℕ → Exec Service A → ℕ → Exec Service A
  unfolding map_err
  rmw_tries zero body expected = raise (status aborted)
  rmw_tries (suc n) body expected =
      let again = rmw_tries n body expected in
      attempt body
        (λ e.
          if is_conflict e
          then (if nat_eq expected 0 then again else raise (status aborted))
          else if is_status e
          then raise e
          else raise (map_err e))
        return

  unfoldable pub rmw : {A : Type 0} → Exec Service A → ℕ → Exec Service A
  unfolding rmw_tries
  rmw body expected = rmw_tries 2 body expected

  abbrev pub required : {A : Type 0} → Bool → Exec Service A → Exec Service A
  required missing m = if missing then raise (status invalid_argument) else m

  -- `if x == nil { return nil, notFound }`
  abbrev pub present : {A B : Type 0} → Option A → (A → Exec Service B) → Exec Service B
  present o f = elim o [ none ↦ raise (status not_found) | some a ↦ f a ]
