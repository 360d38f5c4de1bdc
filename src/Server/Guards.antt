-- ===== src/Server/Guards.antt =====
-- The guard chain of CreateRollout (internal/server/server.go).
use medea.Prelude.{
  ℕ, Bytes, Bool, true, false, Option, none, some, ◌≡◌, refl, sym, ◌⊎◌, inl, inr, if◌then◌else◌,
  is_empty, not, subst,
}
use medea.Error.{
  Error, status, not_found, invalid_argument, failed_precondition, unimplemented, Result, ok, err,
  Exec, return, raise, branch,
}
use medea.Proto.{
  Cluster, is_mode_auto, Rollout, RolloutKind, kind_unspecified, kind_talos, kind_kubernetes,
}
use medea.Bolt.{Bolt}
use medea.Store.Read.{get_cluster}
use medea.Server.Service.{Creds, Service, map_err, meanwhile, call, call_mapped, present}
use medea.Server.Jobs.{
  CreateRolloutRequest, create_rollout, create_of_kind, create_talos_rollout,
  create_kubernetes_rollout,
}

-- A Talos rollout is of a pool, and a Kubernetes rollout of a whole cluster.
abbrev pub is_scoped : RolloutKind → Bytes → Bool
is_scoped kind_talos pool = not (is_empty pool)
is_scoped kind_kubernetes pool = is_empty pool
is_scoped kind_unspecified pool = false

module _ ⦃bolt : Bolt⦄ ⦃creds : Creds⦄ where
  -- The store as the service finds it has the cluster, whose rollouts are enabled and not
  -- automatic, and the request is complete.
  pub record Allowed (req : CreateRolloutRequest) (sv : Service) : Type 0 where
    pub cluster : Cluster
    pub revision : ℕ
    pub found : (get_cluster req.cluster (meanwhile sv).store).0 ≡ ok (some cluster, revision)
    pub enabled : cluster.rollouts_enabled ≡ true
    pub manual : is_mode_auto cluster.mode ≡ false
    pub named : is_empty req.cluster ≡ false
    pub targeted : is_empty req.target_version ≡ false
    pub scoped : is_scoped req.kind req.pool ≡ true

  -- An error is returned, and the service has written nothing.
  pub record Refused {A : Type 0} (sv : Service) (q : Result A × Service) : Type 0 where
    pub error : Error
    pub returned : q.0 ≡ err error
    pub unwritten : (q.1 ≡ sv) ⊎ (q.1 ≡ meanwhile sv)

  module _ (req : CreateRolloutRequest) (sv : Service) where
    refusal : {A : Type 0} (e : Error) → Refused {A = A} sv (err e, meanwhile sv)
    refusal e = record { error = e; returned = refl; unwritten = inr refl }

    early : {A : Type 0} (e : Error) → Refused {A = A} sv (err e, sv)
    early e = record { error = e; returned = refl; unwritten = inl refl }

    of_kind :
        (k : RolloutKind) (b : Bool)
        → req.kind ≡ k
        → is_empty req.pool ≡ b
        → (is_scoped req.kind req.pool ≡ true) ⊎ Refused sv (create_of_kind req (meanwhile sv))
    unfolding create_of_kind create_talos_rollout create_kubernetes_rollout
    of_kind kind_talos false h q = inl (rw (h, q) refl)
    of_kind kind_talos true h q = inr (rw (h, q) (refusal (status invalid_argument)))
    of_kind kind_kubernetes true h q = inl (rw (h, q) refl)
    of_kind kind_kubernetes false h q = inr (rw (h, q) (refusal (status invalid_argument)))
    of_kind kind_unspecified b h q = inr (rw h (refusal (status invalid_argument)))

    -- The tests on the cluster's record.
    abbrev tests : Cluster → Exec Service (Option Rollout)
    tests c =
        if not c.rollouts_enabled
        then raise (status failed_precondition)
        else if is_mode_auto c.mode
        then raise (status unimplemented)
        else create_of_kind req

    tested :
        (c : Cluster) (rev : ℕ)
        → (get_cluster req.cluster (meanwhile sv).store).0 ≡ ok (some c, rev)
        → is_empty req.cluster ≡ false
        → is_empty req.target_version ≡ false
        → (enabled auto : Bool) → c.rollouts_enabled ≡ enabled
        → is_mode_auto c.mode ≡ auto
        → Allowed req sv ⊎ Refused sv (tests c (meanwhile sv))
    tested c rev found named targeted false auto p q =
        inr (rw p (refusal (status failed_precondition)))
    tested c rev found named targeted true true p q =
        inr (rw (p, q) (refusal (status unimplemented)))
    tested c rev found named targeted true false p q =
        elim (of_kind req.kind (is_empty req.pool) refl refl) [
          | inl scoped ↦ inl (record {
            cluster = c;
            revision = rev;
            found = found;
            enabled = p;
            manual = q;
            named = named;
            targeted = targeted;
            scoped = scoped;
          })
          | inr refused ↦ inr (rw (p, q) refused)
        ]

    -- What follows the read of the cluster.
    abbrev after_read : Result (Option Cluster × ℕ) → Exec Service (Option Rollout)
    after_read r sv1 =
        let (r', sv2) = branch r (λ e. raise (map_err e)) return sv1 in
        branch r' raise (λ found. present found.0 tests) sv2

    read_tested :
        (r : Result (Option Cluster × ℕ))
        → (get_cluster req.cluster (meanwhile sv).store).0 ≡ r
        → is_empty req.cluster ≡ false
        → is_empty req.target_version ≡ false
        → Allowed req sv ⊎ Refused sv (after_read r (meanwhile sv))
    read_tested (err e) found named targeted = inr (refusal (map_err e))
    read_tested (ok (none, rev)) found named targeted = inr (refusal (status not_found))
    read_tested (ok (some c, rev)) found named targeted =
        tested c rev found named targeted c.rollouts_enabled (is_mode_auto c.mode) refl refl

    create_rollout-reads :
        is_empty req.cluster ≡ false
        → is_empty req.target_version ≡ false
        → create_rollout req sv
          ≡ after_read (get_cluster req.cluster (meanwhile sv).store).0 (meanwhile sv)
    unfolding create_rollout call_mapped call get_cluster
    create_rollout-reads named targeted = rw (named, targeted) refl

    create_rollout_named :
        (b d : Bool)
        → is_empty req.cluster ≡ b
        → is_empty req.target_version ≡ d
        → Allowed req sv ⊎ Refused sv (create_rollout req sv)
    unfolding create_rollout
    create_rollout_named true d p q = inr (rw p (early (status invalid_argument)))
    create_rollout_named false true p q = inr (rw (p, q) (early (status invalid_argument)))
    create_rollout_named false false p q =
        subst (λ x. Allowed req sv ⊎ Refused sv x) (sym (create_rollout-reads p q))
          (read_tested (get_cluster req.cluster (meanwhile sv).store).0 refl p q)

  -- Either the request of CreateRollout names a cluster and a target, is of a scope that fits its
  -- kind, and the store has that cluster with its rollouts enabled and not in automatic mode; or
  -- CreateRollout returns an error and has written nothing.
  pub create_rollout-Allowed :
      (req : CreateRolloutRequest) (sv : Service)
      → Allowed req sv ⊎ Refused sv (create_rollout req sv)
  create_rollout-Allowed req sv =
      create_rollout_named req sv (is_empty req.cluster) (is_empty req.target_version) refl refl
