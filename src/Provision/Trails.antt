-- ===== src/Provision/Trails.antt =====
-- Any number of passes of internal/provision/bootstrap.go.
use medea.Prelude.{
  ℕ, ◌+◌, ◌≤◌, ◌<◌, zero, suc, Bytes, true, some, List, [], ◌∷◌, ◌≡◌, refl, sym, ap, ◌∙◌, subst,
  inl, inr, ◌==◌, eq_iff, Bool-cases, arith,
}
use medea.Error.{ok}
use medea.Proto.{
  ClusterBootstrap, ClusterBootstrapPhase, boot_unspecified, boot_not_bootstrapped,
  boot_generating_secrets, boot_staging, boot_awaiting_install, boot_bootstrapping,
  boot_awaiting_healthy, boot_fetching_kubeconfig, boot_ready, boot_failed,
}
use medea.Bolt.{Bolt}
use medea.Store.State.{Store}
use medea.Store.Slots.{cell, bootstraps}
use medea.Provision.Site.{Site, Plant}
use medea.Provision.Bootstrap.{Settings, reconcile, is_terminal}
use medea.Provision.Phases.{is_next, plan_of, Advanced, IsOwn, reconcile-Advanced}

-- A walk along the edges, and its length.
pub data Trail (p : ClusterBootstrapPhase) : ClusterBootstrapPhase → ℕ → Type 0 where
  stay : Trail p p zero
  go : {q u : ClusterBootstrapPhase} {n : ℕ} → Trail p q n → is_next q u ≡ true → Trail p u (suc n)

rank : ClusterBootstrapPhase → ℕ
rank boot_not_bootstrapped = 1
rank boot_generating_secrets = 2
rank boot_staging = 3
rank boot_awaiting_install = 4
rank boot_bootstrapping = 5
rank boot_awaiting_healthy = 6
rank boot_fetching_kubeconfig = 6
rank boot_unspecified = 6
rank boot_ready = 7
rank boot_failed = 7

rank_next : (p q : ClusterBootstrapPhase) → is_next p q ≡ true → rank p < rank q
unfolding rank is_next is_terminal
rank_next boot_not_bootstrapped q h = ground arith
rank_next boot_generating_secrets q h = ground arith
rank_next boot_staging q h = ground arith
rank_next boot_awaiting_install q h = ground arith
rank_next boot_bootstrapping q h = ground arith
rank_next boot_awaiting_healthy q h = ground arith
rank_next boot_fetching_kubeconfig q h = ground arith
rank_next boot_unspecified q h = ground arith
rank_next boot_ready q h = ground arith
rank_next boot_failed q h = ground arith

rank_bounds : (p : ClusterBootstrapPhase) → (1 ≤ rank p) × (rank p ≤ 7)
unfolding rank
rank_bounds p = ground arith

rank-Trail : {p q : ClusterBootstrapPhase} {n : ℕ} → Trail p q n → rank p + n ≤ rank q
rank-Trail stay = omega arith
rank-Trail (go {q} {u} t h) = omega (arith, rank-Trail t, rank_next q u h)

pub Trail-short : {p q : ClusterBootstrapPhase} {n : ℕ} → Trail p q n → n ≤ 6
Trail-short {p} {q} t = omega (arith, rank-Trail t, rank_bounds p, rank_bounds q)

module _ ⦃bolt : Bolt⦄ where
  Advanced-IsOwn : (cluster : Bytes) (s s' : Store) → Advanced cluster s s' → IsOwn s → IsOwn s'
  Advanced-IsOwn cluster s s' (inl kept) h = record {
    own = λ k cb q. h.own k cb (sym (kept.same k) ∙ q);
  }
  Advanced-IsOwn cluster s s' (inr m) h = record {
    own = λ k cb q. elim (Bool-cases (cluster == k)) [
      | inl hit ↦
          let here : cluster ≡ k = (eq_iff cluster k).0 hit in
          let same : cb ≡ m.new =
            cc (sym q ∙ ap (λ x. cell bootstraps x s'.db) (sym here) ∙ m.is) in
          ap (λ x. x.cluster) same ∙ ap (λ x. x.cluster) m.plan ∙ h.own cluster m.old m.was ∙ here
      | inr miss ↦ h.own k cb (sym (m.others k miss) ∙ q)
    ];
  }

  -- Where a record has come to: it is there, asks for the same, and its phase has gone along the
  -- edges, in six steps at most.
  pub record Along (k : Bytes) (old : ClusterBootstrap) (s : Store) : Type 0 where
    pub new : ClusterBootstrap
    pub is : cell bootstraps k s.db ≡ some (ok new)
    pub plan : plan_of new ≡ plan_of old
    pub steps : ℕ
    pub trail : Trail old.phase new.phase steps
    pub short : steps ≤ 6

  Along-Trail :
      {n : ℕ} (k : Bytes) (old new : ClusterBootstrap) (s : Store)
      → cell bootstraps k s.db ≡ some (ok new)
      → plan_of new ≡ plan_of old
      → Trail old.phase new.phase n
      → Along k old s
  Along-Trail {n} k old new s is plan t = record {
    new = new;
    is = is;
    plan = plan;
    steps = n;
    trail = t;
    short = Trail-short t;
  }

  Along-Advanced :
      (cluster k : Bytes) (old : ClusterBootstrap) (s s' : Store)
      → Along k old s
      → Advanced cluster s s'
      → Along k old s'
  Along-Advanced cluster k old s s' a (inl kept) =
      Along-Trail k old a.new s' (kept.same k ∙ a.is) a.plan a.trail
  Along-Advanced cluster k old s s' a (inr m) = elim (Bool-cases (cluster == k)) [
    | inl hit ↦
        let here : cluster ≡ k = (eq_iff cluster k).0 hit in
        let same : m.old ≡ a.new = cc (sym m.was ∙ ap (λ x. cell bootstraps x s.db) here ∙ a.is) in
        Along-Trail k old m.new s' (ap (λ x. cell bootstraps x s'.db) (sym here) ∙ m.is)
          (m.plan ∙ ap plan_of same ∙ a.plan)
          (go a.trail (subst (λ x. is_next x.phase m.new.phase ≡ true) same m.edge))
    | inr miss ↦ Along-Trail k old a.new s' (m.others k miss ∙ a.is) a.plan a.trail
  ]

module _ ⦃bolt : Bolt⦄ ⦃site : Site⦄ (r : Settings) where
  -- Passes over clusters, in any order and as often as wanted; the last pass stands first.
  unfoldable pub passes : List Bytes → Plant → Plant
  unfolding reconcile
  passes [] w = w
  passes (c ∷ cs) w = (reconcile r c (passes cs w)).1

  passes-Along :
      (cs : List Bytes) (w : Plant) (k : Bytes) (old : ClusterBootstrap)
      → IsOwn w.store
      → cell bootstraps k w.store.db ≡ some (ok old)
      → IsOwn (passes cs w).store × Along k old (passes cs w).store
  unfolding passes
  passes-Along [] w k old own was = (own, Along-Trail k old old w.store was refl stay)
  passes-Along (c ∷ cs) w k old own was =
      let (own', a) = passes-Along cs w k old own was in
      let w1 = passes cs w in
      let step = reconcile-Advanced r c w1 own' in
      (
        Advanced-IsOwn c w1.store (reconcile r c w1).1.store step own',
        Along-Advanced c k old w1.store (reconcile r c w1).1.store a step,
      )

  -- Where every record of a bootstrap stands under its cluster's name, any number of bootstrap
  -- passes over any clusters leaves a cluster's record there, with all that its creator asked for
  -- unchanged, and moves its phase only along the edges of the phase machine: forward to the next
  -- phase, where ready is next to awaiting healthy and fetching the kubeconfig is passed over, or
  -- from a phase that is not terminal to failed; so it changes at most six times.
  pub bootstrap_forward :
      (cs : List Bytes) (w : Plant) (k : Bytes) (old : ClusterBootstrap)
      → IsOwn w.store
      → cell bootstraps k w.store.db ≡ some (ok old)
      → Along k old (passes cs w).store
  bootstrap_forward cs w k old own was = (passes-Along cs w k old own was).1
