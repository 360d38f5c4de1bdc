-- ===== src/Provision/Calls.antt =====
-- When the calls of internal/provision/bootstrap.go are in order.
use medea.Prelude.{
  ℕ, Bytes, Bool, true, false, Option, none, some, List, [], ◌∷◌, ◌≡◌, sym, subst, ◌==◌, ◌&&◌,
  is_empty,
}
use medea.Error.{Text, Result, ok, err, Exec, return, raise, attempt, ◌>>◌}
use medea.Proto.{ClusterBootstrap, ClusterBootstrapPhase}
use medea.Bolt.{Bolt}
use medea.Store.State.{Store}
use medea.Provision.Site.{
  Site, Plant, Call, perform, in_store, read_secrets, stored_secrets, stored_creds, staged, probed,
  bootstrapped, fetched_kubeconfig,
}
use medea.Provision.Bootstrap.{Settings, put_phase, unless_found}
use medea.Provision.Quiet.{IsQuiet, quiet, return-IsQuiet, raise-IsQuiet}
use medea.Triple.{Leads, Leads-if, Leads-attempt, Leads-through, Leads-After, After}

-- The cluster's secrets were asked for last, and there were none.
abbrev pub is_unset : Bytes → List Call → Bool
is_unset c (read_secrets d (ok b) ∷ cs) = d == c && is_empty b
is_unset c (read_secrets d (err e) ∷ cs) = d == c
is_unset c cs = false

-- A talosconfig was stored last.
abbrev pub has_config : List Call → Bool
has_config (stored_creds c none (ok _) ∷ cs) = true
has_config cs = false

-- The kubeconfig was fetched last.
abbrev pub is_fetched : Bytes → List Call → Bool
is_fetched k (fetched_kubeconfig ip (ok b) ∷ cs) = b == k
is_fetched k cs = false

-- Secrets are only stored directly after a read of the cluster's secrets that found none or failed,
-- whatever it failed with; a boot is only staged when the talosconfig is stored; and the kubeconfig
-- that is stored is the one that was fetched.
abbrev pub is_ordered : List Call → Bool
is_ordered [] = true
is_ordered (stored_secrets c b r ∷ cs) = is_unset c cs && is_ordered cs
is_ordered (staged mac p cfg r ∷ cs) = has_config cs && is_ordered cs
is_ordered (stored_creds c (some k) r ∷ cs) = is_fetched k cs && is_ordered cs
is_ordered (c ∷ cs) = is_ordered cs

module _ ⦃bolt : Bolt⦄ ⦃site : Site⦄ where
  abbrev pub Ordered : Plant → Type 0
  Ordered w = is_ordered w.calls ≡ true

  pub quiet-Ordered : {A : Type 0} (m : Exec Plant A) → IsQuiet m → Leads Ordered Ordered m
  quiet-Ordered m q = record { at = λ w h. subst (λ cs. is_ordered cs ≡ true) (sym (q.calls w)) h }

  pub in_store-Ordered : {A : Type 0} (m : Exec Store A) → Leads Ordered Ordered (in_store m)
  in_store-Ordered m = record { at = λ w h. h }

  pub put_phase-Ordered :
      (r : Settings) (cb : ClusterBootstrap) (p : ClusterBootstrapPhase) (msg : Text)
      → Leads Ordered Ordered (put_phase r cb p msg)
  unfolding put_phase
  put_phase-Ordered r cb p msg = record { at = λ w h. h }

  pub read_secrets-Ordered :
      (op : site.Env → Result Bytes × site.Env) (c : Bytes)
      → Leads Ordered Ordered (perform op (read_secrets c))
  read_secrets-Ordered op c = record { at = λ w h. h }

  pub probed-Ordered :
      (op : site.Env → Result Bytes × site.Env) (c : Bytes)
      → Leads Ordered Ordered (perform op (probed c))
  probed-Ordered op c = record { at = λ w h. h }

  pub bootstrapped-Ordered :
      (op : site.Env → Result (Unit {0}) × site.Env) (c : Bytes)
      → Leads Ordered Ordered (perform op (bootstrapped c))
  bootstrapped-Ordered op c = record { at = λ w h. h }

  pub ruleset orderly = (
    quiet-Ordered, quiet, in_store-Ordered, put_phase-Ordered, read_secrets-Ordered, probed-Ordered,
    bootstrapped-Ordered, Leads-if, Leads-attempt,
  )

  pub unless_found-Ordered :
      {A : Type 0} (r : Settings) (found : Exec Plant (Option A × ℕ)) (m : Exec Plant ℕ)
      → Leads Ordered Ordered found
      → Leads Ordered Ordered m
      → Leads Ordered Ordered (unless_found r found m)
  unless_found-Ordered {A} r found m hf hm = Leads-attempt found _ _ hf (λ e. put) (λ q. on q.0)
    where
      put : Leads Ordered Ordered (attempt m raise (λ _. return tt))
      put =
          Leads-attempt m raise _ hm (λ e. quiet-Ordered (raise e) (raise-IsQuiet e))
            (λ _. quiet-Ordered (return tt) (return-IsQuiet tt))

      on :
          (o : Option A)
          → Leads Ordered Ordered (elim o as (λ _. Exec Plant (Unit {0})) [
            | none ↦ (do m; return tt)
            | some a ↦ return tt
          ])
      on none = put
      on (some a) = quiet-Ordered (return tt) (return-IsQuiet tt)
