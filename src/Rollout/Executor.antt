-- ===== src/Rollout/Executor.antt =====
-- internal/rollout/executor.go: the jobs that drive the reconcilers.
use medea.Prelude.{Bool, true, false, List, [], ◌∷◌, if◌then◌else◌}
use medea.Error.{Text, no_text, errorf, Exec, return, attempt, ◌>>=◌, ◌>>◌}
use medea.Proto.{
  Cluster, Rollout, RolloutKind, kind_talos, kind_kubernetes, RolloutJobState, job_pending,
  job_running, job_failed, job_done,
}
use medea.Bolt.{Bolt}
use medea.Store.Read.{list_clusters, list_rollout_jobs}
use medea.Store.Write.{put_rollout_job}
use medea.Rollout.World.{Remote, World, local, in_store, ignore}
use medea.Rollout.Pool.{reconcile_pool}
use medea.Rollout.K8s.{reconcile_k8s}

unfoldable pub is_actionable : RolloutJobState → Bool
is_actionable job_pending = true
is_actionable job_running = true
is_actionable _ = false

module _ ⦃bolt : Bolt⦄ ⦃remote : Remote⦄ where
  unfoldable pub save_job : Rollout → Exec World (Unit {0})
  save_job job = ignore (in_store (put_rollout_job job))

  unfoldable pub finish : Rollout → RolloutJobState → Text → Exec World (Unit {0})
  unfolding save_job
  finish job state msg = save_job (record job { state = state; message = msg })

  -- A reconciler's run under a job, which ends as failed or as done.
  unfoldable pub drive : Rollout → Exec World (Unit {0}) → Exec World (Unit {0})
  unfolding save_job finish
  drive job m = do
    let running = record job { state = job_running }
    save_job running
    attempt m (λ e. finish running job_failed e) (λ _. finish running job_done no_text)

  unfoldable pub run_kind : Bool → RolloutKind → Cluster → Rollout → Exec World (Unit {0})
  unfolding drive finish reconcile_pool reconcile_k8s
  run_kind has_k8s kind_talos cl job = drive job (reconcile_pool cl.name job.pool)
  run_kind has_k8s kind_kubernetes cl job =
      if has_k8s
      then attempt (local (remote.build_k8s cl.name)) (λ e. return tt)
          (λ _. drive job (reconcile_k8s cl.name job.target_version))
      else finish job job_failed (errorf "kubernetes upgrader not configured" [])
  run_kind has_k8s _ cl job = finish job job_failed (errorf "unknown rollout kind" [])

  -- runJob; `has_k8s` says that the executor was given a K8sFactory.
  unfoldable pub run_job : Bool → Cluster → Rollout → Exec World (Unit {0})
  unfolding run_kind
  run_job has_k8s cl job =
      if cl.rollouts_enabled
      then attempt (local (remote.build_clients cl.name)) (λ e. return tt)
          (λ _. run_kind has_k8s job.kind cl job)
      else return tt

  unfoldable pub run_jobs : Bool → Cluster → List Rollout → Exec World (Unit {0})
  unfolding is_actionable run_job
  run_jobs has_k8s cl [] = return tt
  run_jobs has_k8s cl (job ∷ jobs) =
      let rest = run_jobs has_k8s cl jobs in
      if is_actionable job.state then run_job has_k8s cl job >> rest else rest

  unfoldable pub run_cluster : Bool → Cluster → Exec World (Unit {0})
  unfolding run_jobs
  run_cluster has_k8s cl =
      if cl.rollouts_enabled
      then (do jobs ← in_store (list_rollout_jobs cl.name); run_jobs has_k8s cl jobs)
      else return tt

  unfoldable pub run_clusters : Bool → List Cluster → Exec World (Unit {0})
  unfolding run_cluster
  run_clusters has_k8s [] = return tt
  run_clusters has_k8s (cl ∷ cls) =
      let rest = run_clusters has_k8s cls in run_cluster has_k8s cl >> rest

  unfoldable pub run_once : Bool → Exec World (Unit {0})
  unfolding run_clusters
  run_once has_k8s = do cls ← in_store list_clusters; run_clusters has_k8s cls
