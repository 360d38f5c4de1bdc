-- ===== src/Provision/Quiet.antt =====
-- The steps of internal/provision that change neither the store nor the log of calls.
use medea.Prelude.{
  ℕ, ◌-◌, ltb, Bytes, Bool, true, false, Option, none, some, List, [], ◌∷◌, ◌≡◌, refl, ◌∙◌,
  if◌then◌else◌, is_empty,
}
use medea.Error.{wrap, Error, Result, ok, err, Exec, return, raise, attempt, branch, ◌>>=◌}
use medea.Proto.{ClusterBootstrap}
use medea.Bolt.{Bolt}
use medea.Store.Read.{get_cluster, get_node_pool, get_machine}
use medea.Provision.Site.{Site, Plant, outside, pure, in_store, now}
use medea.Provision.Config.{
  with_bundle, load_patches, apply_patches, ControlPlaneConfigInput, WorkerConfigInput,
  render_control_plane_config, render_worker_config, talosconfig, generate_bundle,
  load_secrets_bundle,
}
use medea.Provision.Bootstrap.{Settings, connect, is_overdue}

module _ ⦃bolt : Bolt⦄ ⦃site : Site⦄ where
  pub record IsQuiet {A : Type 0} (m : Exec Plant A) : Type 0 where
    pub store : (w : Plant) → (m w).1.store ≡ w.store
    pub calls : (w : Plant) → (m w).1.calls ≡ w.calls

  module _ {A : Type 0} where
    pub outside-IsQuiet : (op : site.Env → Result A × site.Env) → IsQuiet (outside op)
    outside-IsQuiet op = record { store = λ w. refl; calls = λ w. refl }

    pub pure-IsQuiet : (r : Result A) → IsQuiet (pure r)
    pure-IsQuiet r = record { store = λ w. refl; calls = λ w. refl }

    pub return-IsQuiet : (a : A) → IsQuiet (return a)
    return-IsQuiet a = record { store = λ w. refl; calls = λ w. refl }

    pub raise-IsQuiet : (e : Error) → IsQuiet (raise {A = A} e)
    raise-IsQuiet e = record { store = λ w. refl; calls = λ w. refl }

    pub if-IsQuiet :
        (b : Bool) (m n : Exec Plant A) → IsQuiet m → IsQuiet n → IsQuiet (if b then m else n)
    if-IsQuiet true m n hm hn = hm
    if-IsQuiet false m n hm hn = hn

    pub with_bundle-IsQuiet :
        (secrets : Option site.Bundle) (unnamed : Bool) (f : site.Bundle → Exec Plant A)
        → ((b : site.Bundle) → IsQuiet (f b))
        → IsQuiet (with_bundle secrets unnamed f)
    with_bundle-IsQuiet none unnamed f h = record { store = λ w. refl; calls = λ w. refl }
    with_bundle-IsQuiet (some b) unnamed f h = if-IsQuiet unnamed _ _ (raise-IsQuiet _) (h b)

  module _ {A B : Type 0} where
    branch-store :
        (h : Error → Exec Plant B) (f : A → Exec Plant B)
        → ((e : Error) → IsQuiet (h e))
        → ((a : A) → IsQuiet (f a))
        → (r : Result A) (w : Plant)
        → ((branch r h f w).1.store ≡ w.store) × ((branch r h f w).1.calls ≡ w.calls)
    branch-store h f kh kf (ok a) w = ((kf a).store w, (kf a).calls w)
    branch-store h f kh kf (err e) w = ((kh e).store w, (kh e).calls w)

    pub attempt-IsQuiet :
        (m : Exec Plant A) (h : Error → Exec Plant B) (f : A → Exec Plant B)
        → IsQuiet m
        → ((e : Error) → IsQuiet (h e))
        → ((a : A) → IsQuiet (f a))
        → IsQuiet (attempt m h f)
    attempt-IsQuiet m h f km kh kf = record {
      store = λ w. (branch-store h f kh kf (m w).0 (m w).1).0 ∙ km.store w;
      calls = λ w. (branch-store h f kh kf (m w).0 (m w).1).1 ∙ km.calls w;
    }

  pub ruleset plain = (
    outside-IsQuiet, pure-IsQuiet, return-IsQuiet, raise-IsQuiet, if-IsQuiet, with_bundle-IsQuiet,
    attempt-IsQuiet,
  )

  pub now-IsQuiet : IsQuiet now
  now-IsQuiet = record { store = λ w. refl; calls = λ w. refl }

  pub load_patches-IsQuiet : (ps : List Bytes) → IsQuiet (load_patches ps)
  unfolding load_patches
  load_patches-IsQuiet [] = return-IsQuiet []
  load_patches-IsQuiet (p ∷ ps) =
      attempt-IsQuiet _ _ _ (pure-IsQuiet (site.load_patch p))
        (λ e. raise-IsQuiet (wrap "provision: load patch %d: %w" [] e))
        (λ patch.
          attempt-IsQuiet _ _ _ (load_patches-IsQuiet ps) raise-IsQuiet
            (λ more. return-IsQuiet (patch ∷ more)))

  pub apply_patches-IsQuiet : (config : Bytes) (ps : List Bytes) → IsQuiet (apply_patches config ps)
  unfolding apply_patches
  apply_patches-IsQuiet config ps = search (plain, load_patches-IsQuiet) depth 9

  pub render_control_plane_config-IsQuiet :
      (i : ControlPlaneConfigInput) → IsQuiet (render_control_plane_config i)
  unfolding render_control_plane_config
  render_control_plane_config-IsQuiet i = search (plain, apply_patches-IsQuiet) depth 12

  pub render_worker_config-IsQuiet : (i : WorkerConfigInput) → IsQuiet (render_worker_config i)
  unfolding render_worker_config
  render_worker_config-IsQuiet i = search plain depth 12

  pub talosconfig-IsQuiet :
      (cluster endpoint version : Bytes) (b : Option site.Bundle)
      → IsQuiet (talosconfig cluster endpoint version b)
  unfolding talosconfig
  talosconfig-IsQuiet cluster endpoint version b = search plain depth 9

  pub generate_bundle-IsQuiet : IsQuiet generate_bundle
  unfolding generate_bundle
  generate_bundle-IsQuiet = search plain depth 9

  pub load_secrets_bundle-IsQuiet : (b : Bytes) → IsQuiet (load_secrets_bundle b)
  unfolding load_secrets_bundle
  load_secrets_bundle-IsQuiet b = search plain depth 9

  pub connect-IsQuiet : (r : Settings) (cb : ClusterBootstrap) → IsQuiet (connect r cb)
  unfolding connect
  connect-IsQuiet r cb = search plain depth 9

  pub is_overdue-IsQuiet :
      (r : Settings) (ts : Bytes) (timeout : ℕ) → IsQuiet (is_overdue r ts timeout)
  unfolding is_overdue
  is_overdue-IsQuiet r ts timeout =
      if-IsQuiet (is_empty ts) _ _ (return-IsQuiet false) (timed (site.parse_time ts))
    where
      timed :
          (o : Option ℕ)
          → IsQuiet (elim o as (λ _. Exec Plant Bool) [
            | none ↦ return false
            | some t0 ↦ (do t ← now; return (ltb timeout (t - t0)))
          ])
      timed none = return-IsQuiet false
      timed (some t0) =
          attempt-IsQuiet now raise _ now-IsQuiet raise-IsQuiet
            (λ t. return-IsQuiet (ltb timeout (t - t0)))

  pub get_cluster-IsQuiet : (cluster : Bytes) → IsQuiet (in_store (get_cluster cluster))
  unfolding get_cluster
  get_cluster-IsQuiet cluster = record { store = λ w. refl; calls = λ w. refl }

  pub get_node_pool-IsQuiet :
      (cluster pool : Bytes) → IsQuiet (in_store (get_node_pool cluster pool))
  unfolding get_node_pool
  get_node_pool-IsQuiet cluster pool = record { store = λ w. refl; calls = λ w. refl }

  pub get_machine-IsQuiet : (cluster addr : Bytes) → IsQuiet (in_store (get_machine cluster addr))
  unfolding get_machine
  get_machine-IsQuiet cluster addr = record { store = λ w. refl; calls = λ w. refl }

  pub ruleset quiet = (
    plain, now-IsQuiet, render_control_plane_config-IsQuiet, render_worker_config-IsQuiet,
    talosconfig-IsQuiet, generate_bundle-IsQuiet, load_secrets_bundle-IsQuiet, connect-IsQuiet,
    is_overdue-IsQuiet, get_cluster-IsQuiet, get_node_pool-IsQuiet, get_machine-IsQuiet,
  )
