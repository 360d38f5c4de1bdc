-- ===== src/Creds/Migrate.antt =====
-- Migrate of internal/creds/onepassword.go, from one implementation of Store to another.
use medea.Prelude.{Bytes, []}
use medea.Error.{wrap, Exec, return, raise, attempt}
use medea.Creds.Interface.{Operations}

module _ (from to : Operations) where
  -- The states of the two stores, which share nothing.
  abbrev pub Both : Type 0
  Both = from.State × to.State

  abbrev pub in_from : {A : Type 0} → Exec from.State A → Exec Both A
  in_from m s = let (r, t) = m s.0 in (r, (t, s.1))

  abbrev pub in_to : {A : Type 0} → Exec to.State A → Exec Both A
  in_to m s = let (r, t) = m s.1 in (r, (s.0, t))

  -- A secrets bundle that cannot be read is skipped.
  unfoldable pub migrate_secrets : Bytes → Exec Both (Unit {0})
  migrate_secrets cluster =
      attempt (in_from (from.secrets cluster)) (λ _. return tt)
        λ b.
          attempt (in_to (to.put_secrets cluster b))
            (λ e. raise (wrap "migrate: write secrets: %w" [] e)) return

  unfoldable pub migrate : Bytes → Exec Both (Unit {0})
  unfolding migrate_secrets
  migrate cluster =
      attempt (in_from (from.talos_config cluster))
        (λ e. raise (wrap "migrate: read talosconfig: %w" [] e))
        λ t.
          attempt (in_from (from.kube_config cluster))
            (λ e. raise (wrap "migrate: read kubeconfig: %w" [] e))
            λ k.
              attempt (in_to (to.put cluster t k))
                (λ e. raise (wrap "migrate: write creds: %w" [] e)) λ _. migrate_secrets cluster
