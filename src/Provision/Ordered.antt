-- ===== src/Provision/Ordered.antt =====
-- The order of the calls that internal/provision/bootstrap.go makes.
use medea.Prelude.{
  Bytes, Bool, true, false, Option, none, some, List, [], ◌∷◌, ◌≡◌, refl, sym, subst, eq_refl,
  is_empty, if◌then◌else◌,
}
use medea.Error.{errorf, Error, Result, ok, err, Exec, return, raise, attempt}
use medea.Proto.{
  boot_unspecified, boot_not_bootstrapped, boot_generating_secrets, boot_staging,
  boot_awaiting_install, boot_bootstrapping, boot_awaiting_healthy, boot_fetching_kubeconfig,
  boot_ready, boot_failed, ClusterBootstrap, ClusterBootstrapPhase,
}
use medea.Bolt.{Bolt}
use medea.Provision.Site.{
  Site, Plant, Profile, perform, in_store, read_secrets, stored_secrets, stored_creds, staged,
  fetched_kubeconfig,
}
use medea.Provision.Bootstrap.{
  Settings, put_phase, begin, generate_secrets, mint_secrets, stage, await_install, bootstrap_etcd,
  fetch_kubeconfig, seed_inventory, advance, reconcile_record, reconcile, reconcile_all, run_once,
  is_terminal,
}
use medea.Provision.Quiet.{IsQuiet, return-IsQuiet, raise-IsQuiet}
use medea.Store.Read.{get_cluster_bootstrap}
use medea.Triple.{Leads, Leads-if, Leads-attempt, Leads-through, Leads-After, After}
use medea.Provision.Calls.{
  is_unset, has_config, is_fetched, is_ordered, Ordered, quiet-Ordered, in_store-Ordered,
  put_phase-Ordered, unless_found-Ordered, orderly,
}

module _ ⦃bolt : Bolt⦄ ⦃site : Site⦄ where
  module _ (r : Settings) (cb : ClusterBootstrap) where
    abbrev Unset : Plant → Type 0
    Unset w = (is_unset cb.cluster w.calls ≡ true) × Ordered w

    quiet-Unset : {A : Type 0} (m : Exec Plant A) → IsQuiet m → Leads Unset Unset m
    quiet-Unset m q = record {
      at = λ w h.
          subst (λ cs. (is_unset cb.cluster cs ≡ true) × (is_ordered cs ≡ true)) (sym (q.calls w))
            h;
    }

    raise-Unset : {A : Type 0} (e : Error) → Leads Unset Ordered (raise {A = A} e)
    raise-Unset e = record { at = λ w h. h.1 }

    stored_secrets-Ordered :
        {A : Type 0} (op : site.Env → Result (Unit {0}) × site.Env) (out : Bytes)
        (h : Error → Exec Plant A) (f : Unit {0} → Exec Plant A)
        → ((e : Error) → Leads Ordered Ordered (h e))
        → ((u : Unit {0}) → Leads Ordered Ordered (f u))
        → Leads Unset Ordered (attempt (perform op (stored_secrets cb.cluster out)) h f)
    stored_secrets-Ordered op out h f kh kf =
        Leads-through (perform op (stored_secrets cb.cluster out)) h f
          (record { at = λ w q. rw (q.0, q.1) refl }) kh kf

    mint_secrets-Ordered : Leads Unset Ordered (mint_secrets r cb)
    unfolding mint_secrets
    mint_secrets-Ordered =
        search (stored_secrets-Ordered, raise-Unset, quiet-Unset, orderly) depth 12

    generate_secrets-Ordered : Leads Ordered Ordered (generate_secrets r cb)
    unfolding generate_secrets
    generate_secrets-Ordered =
        Leads-After (λ b w. (is_empty b ≡ true → is_unset cb.cluster w.calls ≡ true) × Ordered w)
          (λ e. Unset) (perform (site.secrets cb.cluster) (read_secrets cb.cluster))
          (λ _. mint_secrets r cb) _ (λ w o. answered (site.secrets cb.cluster w.env).0 w o)
          (λ e. mint_secrets-Ordered) (λ b. found b (is_empty b) refl)
      where
        answered :
            (x : Result Bytes) (w : Plant)
            → Ordered w
            → After
                (λ b v. (is_empty b ≡ true → is_unset cb.cluster v.calls ≡ true) × Ordered v)
                (λ e. Unset)
                x
                (record w {
                  env = (site.secrets cb.cluster w.env).1;
                  calls = read_secrets cb.cluster x ∷ w.calls;
                })
        answered (ok b) w o = (λ q. rw (eq_refl cb.cluster, q) refl, o)
        answered (err e) w o = (eq_refl cb.cluster, o)

        found :
            (b : Bytes) (z : Bool)
            → is_empty b ≡ z
            → Leads
                (λ w. (is_empty b ≡ true → is_unset cb.cluster w.calls ≡ true) × Ordered w)
                Ordered
                (if z
                  then mint_secrets r cb
                  else put_phase r cb boot_staging (errorf "secrets already present" []))
        found b true q = record { at = λ w h. mint_secrets-Ordered.at w (h.0 q, h.1) }
        found b false q = record {
          at = λ w h.
              (put_phase-Ordered r cb boot_staging (errorf "secrets already present" [])).at w h.1;
        }

    -- With the talosconfig stored, or not.
    stored_config-Ordered :
        {A : Type 0} (op : site.Env → Result (Unit {0}) × site.Env) (h : Error → Exec Plant A)
        (f : Unit {0} → Exec Plant A)
        → ((e : Error) → Leads Ordered Ordered (h e))
        → ((u : Unit {0}) → Leads (λ w. (has_config w.calls ≡ true) × Ordered w) Ordered (f u))
        → Leads Ordered Ordered (attempt (perform op (stored_creds cb.cluster none)) h f)
    stored_config-Ordered op h f kh kf =
        Leads-After (λ u w. (has_config w.calls ≡ true) × Ordered w) (λ e. Ordered)
          (perform op (stored_creds cb.cluster none)) h f (λ w o. answered (op w.env).0 w o) kh kf
      where
        answered :
            (x : Result (Unit {0})) (w : Plant)
            → Ordered w
            → After
                (λ u v. (has_config v.calls ≡ true) × Ordered v)
                (λ e. Ordered)
                x
                (record w { env = (op w.env).1; calls = stored_creds cb.cluster none x ∷ w.calls })
        answered (ok u) w o = (refl, o)
        answered (err e) w o = o

    staged-Ordered :
        {A : Type 0} (op : site.Env → Result (Unit {0}) × site.Env) (mac : Bytes) (p : Profile)
        (cfg : Bytes) (h : Error → Exec Plant A) (f : Unit {0} → Exec Plant A)
        → ((e : Error) → Leads Ordered Ordered (h e))
        → ((u : Unit {0}) → Leads Ordered Ordered (f u))
        → Leads
            (λ w. (has_config w.calls ≡ true) × Ordered w)
            Ordered
            (attempt (perform op (staged mac p cfg)) h f)
    staged-Ordered op mac p cfg h f kh kf =
        Leads-through (perform op (staged mac p cfg)) h f
          (record { at = λ w q. rw (q.0, q.1) refl }) kh kf

    stage-Ordered : Leads Ordered Ordered (stage r cb)
    unfolding stage
    stage-Ordered = search (stored_config-Ordered, staged-Ordered, orderly) depth 14

    -- With the kubeconfig fetched.
    abbrev Obtained : Bytes → Plant → Type 0
    Obtained k w = (is_fetched k w.calls ≡ true) × Ordered w

    quiet-Obtained :
        {A : Type 0} (k : Bytes) (m : Exec Plant A) → IsQuiet m → Leads (Obtained k) (Obtained k) m
    quiet-Obtained k m q = record {
      at = λ w h.
          subst (λ cs. (is_fetched k cs ≡ true) × (is_ordered cs ≡ true)) (sym (q.calls w)) h;
    }

    raise-Obtained :
        {A : Type 0} (k : Bytes) (e : Error) → Leads (Obtained k) Ordered (raise {A = A} e)
    raise-Obtained k e = record { at = λ w h. h.1 }

    fetched-Ordered :
        {A : Type 0} (op : site.Env → Result Bytes × site.Env) (h : Error → Exec Plant A)
        (f : Bytes → Exec Plant A)
        → ((e : Error) → Leads Ordered Ordered (h e))
        → ((k : Bytes) → Leads (Obtained k) Ordered (f k))
        → Leads Ordered Ordered (attempt (perform op (fetched_kubeconfig cb.cp_ip)) h f)
    fetched-Ordered op h f kh kf =
        Leads-After Obtained (λ e. Ordered) (perform op (fetched_kubeconfig cb.cp_ip)) h f
          (λ w o. answered (op w.env).0 w o) kh kf
      where
        answered :
            (x : Result Bytes) (w : Plant)
            → Ordered w
            → After Obtained
                (λ e. Ordered)
                x
                (record w { env = (op w.env).1; calls = fetched_kubeconfig cb.cp_ip x ∷ w.calls })
        answered (ok b) w o = (eq_refl b, o)
        answered (err e) w o = o

    stored_kube-Ordered :
        {A : Type 0} (op : site.Env → Result (Unit {0}) × site.Env) (k : Bytes)
        (h : Error → Exec Plant A) (f : Unit {0} → Exec Plant A)
        → ((e : Error) → Leads Ordered Ordered (h e))
        → ((u : Unit {0}) → Leads Ordered Ordered (f u))
        → Leads (Obtained k) Ordered (attempt (perform op (stored_creds cb.cluster (some k))) h f)
    stored_kube-Ordered op k h f kh kf =
        Leads-through (perform op (stored_creds cb.cluster (some k))) h f
          (record { at = λ w q. rw (q.0, q.1) refl }) kh kf

    seed_inventory-Ordered : Leads Ordered Ordered (seed_inventory r cb)
    unfolding seed_inventory
    seed_inventory-Ordered = search (unless_found-Ordered r, orderly) depth 12

    fetch_kubeconfig-Ordered : Leads Ordered Ordered (fetch_kubeconfig r cb)
    unfolding fetch_kubeconfig
    fetch_kubeconfig-Ordered =
        search
          (
            fetched-Ordered, stored_kube-Ordered, raise-Obtained, quiet-Obtained,
            seed_inventory-Ordered, orderly,
          )
          depth 14

    begin-Ordered : Leads Ordered Ordered (begin r cb)
    unfolding begin
    begin-Ordered = search orderly depth 9

    await_install-Ordered : Leads Ordered Ordered (await_install r cb)
    unfolding await_install
    await_install-Ordered = search orderly depth 12

    bootstrap_etcd-Ordered : Leads Ordered Ordered (bootstrap_etcd r cb)
    unfolding bootstrap_etcd
    bootstrap_etcd-Ordered = search orderly depth 12

    advance-Ordered : (p : ClusterBootstrapPhase) → Leads Ordered Ordered (advance r p cb)
    unfolding advance
    advance-Ordered boot_not_bootstrapped = begin-Ordered
    advance-Ordered boot_generating_secrets = generate_secrets-Ordered
    advance-Ordered boot_staging = stage-Ordered
    advance-Ordered boot_awaiting_install = await_install-Ordered
    advance-Ordered boot_bootstrapping = bootstrap_etcd-Ordered
    advance-Ordered boot_awaiting_healthy = fetch_kubeconfig-Ordered
    advance-Ordered boot_fetching_kubeconfig = fetch_kubeconfig-Ordered
    advance-Ordered boot_unspecified = quiet-Ordered (return tt) (return-IsQuiet tt)
    advance-Ordered boot_ready = quiet-Ordered (return tt) (return-IsQuiet tt)
    advance-Ordered boot_failed = quiet-Ordered (return tt) (return-IsQuiet tt)

    reconcile_record-Ordered : Leads Ordered Ordered (reconcile_record r cb)
    unfolding reconcile_record
    reconcile_record-Ordered = search (advance-Ordered, orderly) depth 9

  reconcile-Ordered : (r : Settings) (c : Bytes) → Leads Ordered Ordered (reconcile r c)
  unfolding reconcile
  reconcile-Ordered r c =
      Leads-attempt (in_store (get_cluster_bootstrap c)) raise _
        (in_store-Ordered (get_cluster_bootstrap c))
        (λ e. quiet-Ordered (raise e) (raise-IsQuiet e)) on
    where
      on :
          (o : Option ClusterBootstrap)
          → Leads Ordered Ordered (elim o as (λ _. Exec Plant (Unit {0})) [
            | none ↦ return tt
            | some cb ↦ reconcile_record r cb
          ])
      on none = quiet-Ordered (return tt) (return-IsQuiet tt)
      on (some cb) = reconcile_record-Ordered r cb

  reconcile_all-Ordered :
      (r : Settings) (cbs : List ClusterBootstrap) → Leads Ordered Ordered (reconcile_all r cbs)
  unfolding reconcile_all
  reconcile_all-Ordered r [] = quiet-Ordered (return tt) (return-IsQuiet tt)
  reconcile_all-Ordered r (cb ∷ cbs) =
      Leads-if (is_terminal cb.phase) _ _ (reconcile_all-Ordered r cbs) (
        Leads-attempt (reconcile r cb.cluster) _ _ (reconcile-Ordered r cb.cluster)
          (λ _. reconcile_all-Ordered r cbs) (λ _. reconcile_all-Ordered r cbs))

  run_once-Ordered : (r : Settings) → Leads Ordered Ordered (run_once r)
  unfolding run_once
  run_once-Ordered r = search (reconcile_all-Ordered, orderly) depth 5

  -- If the calls made so far are in order, so are those after the bootstrap executor's RunOnce,
  -- whatever the site answers: secrets are stored only directly after a read of the same cluster's
  -- secrets that found none or failed, a failure for a moment included, a machine is staged only
  -- directly after a talosconfig was stored with success, and a kubeconfig is stored only directly
  -- after a fetch that returned it.
  pub bootstrap_in_order : (r : Settings) (w : Plant) → Ordered w → Ordered (run_once r w).1
  bootstrap_in_order r w o = (run_once-Ordered r).at w o
