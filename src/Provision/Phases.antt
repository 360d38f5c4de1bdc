-- ===== src/Provision/Phases.antt =====
-- The phase machine of internal/provision/bootstrap.go.
use medea.Prelude.{
  Bytes, Bool, true, false, Option, none, some, [], ◌≡◌, refl, ap, eq_refl, ◌∙◌, subst, ◌⊎◌, inl,
  inr, if◌then◌else◌, arith, ◌==◌, is_empty, not,
}
use medea.Error.{errorf, ◌>>=◌, Error, Text, no_text, Result, ok, err, Exec, return, raise, branch}
use medea.Proto.{
  ClusterBootstrap, ClusterBootstrapPhase, boot_unspecified, boot_not_bootstrapped,
  boot_generating_secrets, boot_staging, boot_awaiting_install, boot_bootstrapping,
  boot_awaiting_healthy, boot_fetching_kubeconfig, boot_ready, boot_failed,
}
use medea.Bolt.{Bolt}
use medea.Store.State.{cluster_bootstrap_message, Store, kind_cluster_bootstrap}
use medea.Store.Read.{read, decoded, get_cluster_bootstrap}
use medea.Store.Write.{put_cluster_bootstrap}
use medea.Store.Slots.{cell, bootstraps}
use medea.Store.Frames.{Puts, guarded_lww-Puts}
use medea.Provision.Site.{Site, Plant, in_store, now}
use medea.Provision.Bootstrap.{
  begin, generate_secrets, mint_secrets, stage, await_install, bootstrap_etcd, fetch_kubeconfig,
  advance, reconcile_record, reconcile, Settings, is_terminal, put_phase, is_overdue,
}
use medea.Triple.{Leads, Leads-if, Leads-attempt}
use medea.Provision.Still.{Same, Still, still, quiet-Still, seed_inventory-Still}
use medea.Provision.Quiet.{now-IsQuiet, is_overdue-IsQuiet}

-- The edges of the machine.
unfoldable pub is_next : ClusterBootstrapPhase → ClusterBootstrapPhase → Bool
unfolding is_terminal
is_next boot_not_bootstrapped boot_generating_secrets = true
is_next boot_generating_secrets boot_staging = true
is_next boot_staging boot_awaiting_install = true
is_next boot_awaiting_install boot_bootstrapping = true
is_next boot_bootstrapping boot_awaiting_healthy = true
is_next boot_awaiting_healthy boot_ready = true
is_next boot_fetching_kubeconfig boot_ready = true
is_next p boot_failed = not (is_terminal p)
is_next p q = false

-- What the caller of CreateCluster asked for: all but the phase, the message, the start and the
-- revision.
abbrev pub plan_of : ClusterBootstrap → ClusterBootstrap
plan_of cb = record cb {
  phase = boot_unspecified;
  message = no_text;
  started_at = [];
  revision = 0;
}

module _ ⦃bolt : Bolt⦄ where
  -- One record has gone along one edge, and the others are as they were.
  pub record Moved (cluster : Bytes) (s s' : Store) : Type 0 where
    pub old : ClusterBootstrap
    pub new : ClusterBootstrap
    pub was : cell bootstraps cluster s.db ≡ some (ok old)
    pub is : cell bootstraps cluster s'.db ≡ some (ok new)
    pub edge : is_next old.phase new.phase ≡ true
    pub plan : plan_of new ≡ plan_of old
    pub others :
        (k : Bytes) → (cluster == k) ≡ false → cell bootstraps k s'.db ≡ cell bootstraps k s.db

  -- The records of bootstraps stand under the names of their clusters.
  pub record IsOwn (s : Store) : Type 0 where
    pub own :
        (k : Bytes) (cb : ClusterBootstrap) → cell bootstraps k s.db ≡ some (ok cb) → cb.cluster ≡ k

  abbrev pub Advanced : Bytes → Store → Store → Type 0
  Advanced cluster s s' = Same s s' ⊎ Moved cluster s s'

module _ ⦃bolt : Bolt⦄ ⦃site : Site⦄ (r : Settings) (s : Store) (cb : ClusterBootstrap)
    (was : cell bootstraps cb.cluster s.db ≡ some (ok cb)) where
  -- The plant after a step of the record's bootstrap.
  abbrev Next : Plant → Type 0
  Next w = Advanced cb.cluster s w.store

  return-Next : {A : Type 0} (a : A) → Leads (Still s) Next (return a)
  return-Next a = record { at = λ w h. inl h }

  raise-Next : {A : Type 0} (e : Error) → Leads (Still s) Next (raise {A = A} e)
  raise-Next e = record { at = λ w h. inl h }

  put_moves :
      (new : ClusterBootstrap) (s1 s2 : Store)
      → new.cluster ≡ cb.cluster
      → is_next cb.phase new.phase ≡ true
      → plan_of new ≡ plan_of cb
      → Same s s1
      → Puts bootstraps new.cluster new s1 s2
      → Advanced cb.cluster s s2
  put_moves new s1 s2 name edge plan h puts = elim puts.cells [
    | inl kept ↦ inl (record { same = λ k. kept k ∙ h.same k })
    | inr (rev, put) ↦ inr (record {
      old = cb;
      new = cluster_bootstrap_message.stamp rev new;
      was = was;
      is = put cb.cluster ∙ rw (name, eq_refl cb.cluster) refl;
      edge = edge;
      plan = plan;
      others = λ k q. put k ∙ rw (name, q) (h.same k);
    })
  ]

  put_record-Next :
      (new : ClusterBootstrap)
      → new.cluster ≡ cb.cluster
      → is_next cb.phase new.phase ≡ true
      → plan_of new ≡ plan_of cb
      → Leads (Still s) Next (in_store (put_cluster_bootstrap new))
  unfolding put_cluster_bootstrap
  put_record-Next new name edge plan = record {
    at = λ w h. put_moves new w.store _ name edge plan h (
        guarded_lww-Puts (is_empty new.cluster) _ bootstraps new.cluster new.cluster new
          kind_cluster_bootstrap w.store);
  }

  put_phase-Next :
      (phase : ClusterBootstrapPhase) (msg : Text)
      → is_next cb.phase phase ≡ true
      → Leads (Still s) Next (put_phase r cb phase msg)
  unfolding put_phase
  put_phase-Next phase msg edge =
      put_record-Next (record cb { phase = phase; message = msg }) refl edge refl

  ruleset next = (return-Next, raise-Next, put_phase-Next, Leads-if, Leads-attempt, still)

  begin-Next : is_next cb.phase boot_generating_secrets ≡ true → Leads (Still s) Next (begin r cb)
  unfolding begin put_phase
  begin-Next edge = Leads-attempt now raise _ (quiet-Still now now-IsQuiet) raise-Next λ t.
      put_record-Next
        (record cb {
          phase = boot_generating_secrets;
          message = errorf "starting bootstrap" [];
          started_at = site.format_time t;
        })
        refl edge refl

  generate_secrets-Next :
      is_next cb.phase boot_staging ≡ true → Leads (Still s) Next (generate_secrets r cb)
  unfolding generate_secrets mint_secrets
  generate_secrets-Next edge = search next depth 12

  stage-Next : is_next cb.phase boot_awaiting_install ≡ true → Leads (Still s) Next (stage r cb)
  unfolding stage
  stage-Next edge = search next depth 14

  await_install-Next :
      is_next cb.phase boot_bootstrapping ≡ true → Leads (Still s) Next (await_install r cb)
  unfolding await_install
  await_install-Next edge = search next depth 12

  bootstrap_etcd-Next :
      is_next cb.phase boot_awaiting_healthy ≡ true → Leads (Still s) Next (bootstrap_etcd r cb)
  unfolding bootstrap_etcd
  bootstrap_etcd-Next edge = search next depth 12

  fetch_kubeconfig-Next :
      is_next cb.phase boot_ready ≡ true → Leads (Still s) Next (fetch_kubeconfig r cb)
  unfolding fetch_kubeconfig
  fetch_kubeconfig-Next edge = search (next, seed_inventory-Still s r) depth 14

  advance-Next : (p : ClusterBootstrapPhase) → cb.phase ≡ p → Leads (Still s) Next (advance r p cb)
  unfolding advance is_next
  advance-Next boot_not_bootstrapped q = begin-Next (rw q refl)
  advance-Next boot_generating_secrets q = generate_secrets-Next (rw q refl)
  advance-Next boot_staging q = stage-Next (rw q refl)
  advance-Next boot_awaiting_install q = await_install-Next (rw q refl)
  advance-Next boot_bootstrapping q = bootstrap_etcd-Next (rw q refl)
  advance-Next boot_awaiting_healthy q = fetch_kubeconfig-Next (rw q refl)
  advance-Next boot_fetching_kubeconfig q = fetch_kubeconfig-Next (rw q refl)
  advance-Next boot_unspecified q = return-Next tt
  advance-Next boot_ready q = return-Next tt
  advance-Next boot_failed q = return-Next tt

  to_failed : (p : ClusterBootstrapPhase) → is_terminal p ≡ false → is_next p boot_failed ≡ true
  unfolding is_next
  to_failed p h = ground arith

  reconcile_record-Next : Leads (Still s) Next (reconcile_record r cb)
  unfolding reconcile_record
  reconcile_record-Next = go (is_terminal cb.phase) refl
    where
      live : Exec Plant (Unit {0})
      live = do
        late ← is_overdue r cb.started_at r.timeout
        if late
            then put_phase r cb boot_failed (errorf "bootstrap timed out" [])
            else advance r cb.phase cb

      go :
          (b : Bool)
          → is_terminal cb.phase ≡ b
          → Leads (Still s) Next (if b then return tt else live)
      go true q = return-Next tt
      go false q =
          Leads-attempt (is_overdue r cb.started_at r.timeout) raise _
            (quiet-Still (is_overdue r cb.started_at r.timeout)
              (is_overdue-IsQuiet r cb.started_at r.timeout))
            raise-Next
            λ late.
              Leads-if late _ _
                (put_phase-Next boot_failed (errorf "bootstrap timed out" [])
                  (to_failed cb.phase q))
                (advance-Next cb.phase refl)

module _ ⦃bolt : Bolt⦄ ⦃site : Site⦄ (r : Settings) where
  pub reconcile-Advanced :
      (cluster : Bytes) (w : Plant)
      → IsOwn w.store
      → Advanced cluster w.store (reconcile r cluster w).1.store
  unfolding reconcile get_cluster_bootstrap read decoded
  reconcile-Advanced cluster w own = go (cell bootstraps cluster w.store.db) refl
    where
      go :
          (c : Option (Result ClusterBootstrap))
          → cell bootstraps cluster w.store.db ≡ c
          → Advanced cluster w.store
              (branch
                (decoded c)
                raise
                (λ found. elim found as (λ _. Exec Plant (Unit {0})) [
                  | none ↦ return tt
                  | some cb ↦ reconcile_record r cb
                ])
                w).1.store
      go none q = inl (record { same = λ k. refl })
      go (some (err e)) q = inl (record { same = λ k. refl })
      go (some (ok cb)) q =
          let name = own.own cluster cb q in
          subst (λ k. Advanced k w.store (reconcile_record r cb w).1.store) name
            ((reconcile_record-Next r w.store cb
                (ap (λ k. cell bootstraps k w.store.db) name ∙ q)).at
              w (record { same = λ k. refl }))
