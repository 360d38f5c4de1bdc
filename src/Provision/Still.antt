-- ===== src/Provision/Still.antt =====
-- The steps of internal/provision/bootstrap.go that leave the records of bootstraps as they are.
use medea.Prelude.{ℕ, Bytes, false, Option, none, some, ◌≡◌, refl, sym, ◌∙◌, subst, is_empty, ◌||◌}
use medea.Error.{◌>>◌, Result, Exec, return, raise, attempt}
use medea.Proto.{Cluster, NodePool, Machine, ClusterBootstrap}
use medea.Bolt.{Bolt}
use medea.Store.State.{Store, ckey, event_key, kind_cluster, kind_node_pool, kind_machine}
use medea.Store.Write.{put_cluster_desired, put_node_pool_desired, put_machine_desired}
use medea.Store.Slots.{SlotName, Stored, same_slot, cell, bootstraps, clusters, nodepools, machines}
use medea.Store.Frames.{Puts, guarded_cas-Puts}
use medea.Provision.Site.{Site, Plant, Call, perform, in_store}
use medea.Provision.Bootstrap.{Settings, unless_found, seed_inventory}
use medea.Provision.Quiet.{IsQuiet, quiet, raise-IsQuiet, return-IsQuiet}
use medea.Triple.{
  Leads, Leads-return, Leads-raise, Leads-if, Leads-attempt, Leads-through, Leads-answer,
}

module _ ⦃bolt : Bolt⦄ where
  -- The records of bootstraps are as they were.
  pub record Same (s s' : Store) : Type 0 where
    pub same : (k : Bytes) → cell bootstraps k s'.db ≡ cell bootstraps k s.db

module _ ⦃bolt : Bolt⦄ ⦃site : Site⦄ where
  -- The same of the plant's store.
  abbrev pub Still : Store → Plant → Type 0
  Still s w = Same s w.store

  module _ {A : Type 0} {s : Store} where
    pub perform-Still :
        (op : site.Env → Result A × site.Env) (note : Result A → Call)
        → Leads (Still s) (Still s) (perform op note)
    perform-Still op note = record { at = λ w h. h }

    pub quiet-Still : (m : Exec Plant A) → IsQuiet m → Leads (Still s) (Still s) m
    quiet-Still m q = record { at = λ w h. subst (Same s) (sym (q.store w)) h }

  pub ruleset still = (perform-Still, quiet-Still, quiet, Leads-if, Leads-attempt)

  module _ (s : Store) where
    -- A put of another kind of record.
    Puts-Same :
        (n : SlotName) (key : Bytes) (v : Stored n) (s1 s2 : Store)
        → same_slot n bootstraps ≡ false
        → Puts n key v s1 s2
        → Same s s1
        → Same s s2
    Puts-Same n key v s1 s2 q p h = record { same = λ k. p.others bootstraps k q ∙ h.same k }

    pub put_cluster_desired-Still :
        (c : Cluster) (e : ℕ) → Leads (Still s) (Still s) (in_store (put_cluster_desired c e))
    unfolding put_cluster_desired
    put_cluster_desired-Still c e = record {
      at = λ w h.
          Puts-Same clusters c.name c w.store _ refl
            (guarded_cas-Puts (is_empty c.name) _ clusters c.name c.name c kind_cluster w.store e)
            h;
    }

    pub put_node_pool_desired-Still :
        (np : NodePool) (e : ℕ) → Leads (Still s) (Still s) (in_store (put_node_pool_desired np e))
    unfolding put_node_pool_desired
    put_node_pool_desired-Still np e = record {
      at = λ w h.
          Puts-Same nodepools (ckey np.cluster np.name) np w.store _ refl
            (guarded_cas-Puts (is_empty np.cluster || is_empty np.name) _ nodepools
              (ckey np.cluster np.name) (event_key np.cluster np.name) np kind_node_pool w.store e)
            h;
    }

    pub put_machine_desired-Still :
        (m : Machine) (e : ℕ) → Leads (Still s) (Still s) (in_store (put_machine_desired m e))
    unfolding put_machine_desired
    put_machine_desired-Still m e = record {
      at = λ w h.
          Puts-Same machines (ckey m.cluster m.talos_endpoint) m w.store _ refl
            (guarded_cas-Puts (is_empty m.cluster || is_empty m.talos_endpoint) _ machines
              (ckey m.cluster m.talos_endpoint) (event_key m.cluster m.talos_endpoint) m
              kind_machine w.store e)
            h;
    }

    pub unless_found-Still :
        {A : Type 0} (r : Settings) (found : Exec Plant (Option A × ℕ)) (m : Exec Plant ℕ)
        → Leads (Still s) (Still s) found
        → Leads (Still s) (Still s) m
        → Leads (Still s) (Still s) (unless_found r found m)
    unless_found-Still {A} r found m hf hm = Leads-attempt found _ _ hf (λ e. put) (λ q. on q.0)
      where
        put : Leads (Still s) (Still s) (attempt m raise (λ _. return tt))
        put =
            Leads-attempt m raise _ hm (λ e. quiet-Still (raise e) (raise-IsQuiet e))
              (λ _. quiet-Still (return tt) (return-IsQuiet tt))

        on :
            (o : Option A)
            → Leads (Still s) (Still s) (elim o as (λ _. Exec Plant (Unit {0})) [
              | none ↦ (do m; return tt)
              | some a ↦ return tt
            ])
        on none = put
        on (some a) = quiet-Still (return tt) (return-IsQuiet tt)

    pub seed_inventory-Still :
        (r : Settings) (cb : ClusterBootstrap) → Leads (Still s) (Still s) (seed_inventory r cb)
    unfolding seed_inventory
    seed_inventory-Still r cb =
        search
          (
            still, unless_found-Still, put_cluster_desired-Still, put_node_pool_desired-Still,
            put_machine_desired-Still,
          )
          depth 12
