-- ===== src/Provision/Counts.antt =====
-- What the loop over the hosts in internal/provision/reconciler.go counts, and that it makes no call.
use medea.Prelude.{
  ℕ, suc, ◌+◌, ◌≤◌, Bytes, Bool, true, false, Option, none, some, List, [], ◌∷◌, ◌≡◌, if◌then◌else◌,
  arith,
}
use medea.Error.{errorf, Result, ok, err, Exec, return, raise, attempt, branch, ◌>>◌}
use medea.Proto.{
  Role, HostState, host_unspecified, host_registered, host_allocated, host_provisioning, host_ready,
  host_failed, host_deprovisioning, NodePool, Host,
}
use medea.Bolt.{Bolt}
use medea.Rollout.World.{NodeInfo}
use medea.Provision.Site.{Site, Plant}
use medea.Provision.Bootstrap.{Settings, is_overdue}
use medea.Provision.Quiet.{is_overdue-IsQuiet, return-IsQuiet, raise-IsQuiet}
use medea.Provision.Hosts.{new_joined_node}
use medea.Provision.Reconciler.{Tally, join_or_wait, advance_host, advance_hosts}
use medea.Provision.Records.{set_host_state, bind}
use medea.Provision.Mute.{
  IsMute, quiet-IsMute, attempt-IsMute, reloaded, set_host_state-IsMute, bind-IsMute,
}

unfoldable pub in_service : HostState → ℕ
in_service host_ready = 1
in_service host_provisioning = 1
in_service host_failed = 1
in_service _ = 0

unfoldable pub is_given_up : HostState → ℕ
is_given_up host_failed = 1
is_given_up _ = 0

-- The hosts that are ready, being provisioned or failed, and those that are failed.
unfoldable pub serving : List Host → ℕ
unfolding in_service
serving [] = 0
serving (h ∷ hs) = in_service h.state + serving hs

unfoldable pub failures : List Host → ℕ
unfolding is_given_up
failures [] = 0
failures (h ∷ hs) = is_given_up h.state + failures hs

abbrev pub Sound : {A : Type 0} → (A → Type 0) → Result A → Type 0
Sound Q (ok a) = Q a
Sound Q (err e) = Unit

module _ ⦃bolt : Bolt⦄ ⦃site : Site⦄ where
  -- An answer is right, if there is one.
  pub record Yields {A : Type 0} (Q : A → Type 0) (m : Exec Plant A) : Type 0 where
    pub sound : (w : Plant) → Sound Q (m w).0

  Yields-return : {A : Type 0} (Q : A → Type 0) (a : A) → Q a → Yields Q (return a)
  Yields-return Q a q = record { sound = λ w. q }

  Yields-attempt :
      {A B : Type 0} (R : A → Type 0) (Q : B → Type 0) (m : Exec Plant A) (f : A → Exec Plant B)
      → Yields R m
      → ((a : A) → R a → Yields Q (f a))
      → Yields Q (attempt m raise f)
  Yields-attempt {A} R Q m f km kf = record { sound = λ w. go (m w).0 (m w).1 (km.sound w) }
    where
      go : (r : Result A) (w : Plant) → Sound R r → Sound Q (branch r raise f w).0
      go (ok a) w p = (kf a p).sound w
      go (err e) w p = tt

  Yields-any : {A : Type 0} (m : Exec Plant A) → Yields (λ _. Unit) m
  Yields-any {A} m = record { sound = λ w. go (m w).0 }
    where
      go : (r : Result A) → Sound (λ _. Unit) r
      go (ok a) = tt
      go (err e) = tt

  Yields-weaken :
      {A : Type 0} (R Q : A → Type 0) (m : Exec Plant A)
      → Yields R m
      → ((a : A) → R a → Q a)
      → Yields Q m
  Yields-weaken {A} R Q m km weaken = record { sound = λ w. go (m w).0 (km.sound w) }
    where
      go : (r : Result A) → Sound R r → Sound Q r
      go (ok a) p = weaken a p
      go (err e) p = tt

  -- The counters have grown by `k` in all, and the last by `f` at least.
  abbrev pub Counted : Tally → ℕ → ℕ → Tally → Type 0
  Counted t k f t' =
      (t'.ready + t'.failed + t'.inflight ≡ t.ready + t.failed + t.inflight + k)
      × (t.failed + f ≤ t'.failed)

  module _ (r : Settings) (disk : Bytes) (cluster pool : Bytes) where
    join_or_wait-IsMute :
        (role : Role) (h : Host) (t : Tally) (o : Option NodeInfo)
        → IsMute (join_or_wait r disk role cluster pool h t o)
    unfolding join_or_wait
    join_or_wait-IsMute role h t (some n) = search (reloaded, bind-IsMute) depth 9
    join_or_wait-IsMute role h t none =
        search (reloaded, is_overdue-IsQuiet, set_host_state-IsMute) depth 9

    join_or_wait-Counted :
        (role : Role) (h : Host) (t : Tally) (o : Option NodeInfo)
        → Yields (Counted t 1 0) (join_or_wait r disk role cluster pool h t o)
    unfolding join_or_wait
    join_or_wait-Counted role h t (some n) =
        Yields-attempt (λ _. Unit) (Counted t 1 0) (bind cluster pool h.mac n role) _ (Yields-any _)
          λ _ _. Yields-return (Counted t 1 0) _ (omega arith, omega arith)
    join_or_wait-Counted role h t none =
        Yields-attempt (λ _. Unit) (Counted t 1 0)
          (is_overdue r h.provisioning_started_at r.timeout) _ (Yields-any _) (λ late _. on late)
      where
        given_up : Exec Plant Tally
        given_up = do
          set_host_state cluster h.mac host_failed
              (errorf "provision timed out: node did not join" [])
          return (record t { failed = suc t.failed })

        on :
            (late : Bool)
            → Yields
                (Counted t 1 0)
                (if late then given_up else return (record t { inflight = suc t.inflight }))
        on true =
            Yields-attempt (λ _. Unit) (Counted t 1 0)
              (set_host_state cluster h.mac host_failed
                (errorf "provision timed out: node did not join" []))
              _ (Yields-any _) λ _ _. Yields-return (Counted t 1 0) _ (omega arith, omega arith)
        on false = Yields-return (Counted t 1 0) _ (omega arith, omega arith)

    module _ (np : NodePool) (nodes : List NodeInfo) where
      advance_host-IsMute :
          (h : Host) (st : HostState) (t : Tally)
          → IsMute (advance_host r disk np nodes cluster pool h st t)
      unfolding advance_host
      advance_host-IsMute h host_provisioning t =
          join_or_wait-IsMute np.role h t (new_joined_node nodes t.claimed np.role)
      advance_host-IsMute h host_ready t = quiet-IsMute _ (return-IsQuiet _)
      advance_host-IsMute h host_failed t = quiet-IsMute _ (return-IsQuiet _)
      advance_host-IsMute h host_unspecified t = quiet-IsMute _ (return-IsQuiet t)
      advance_host-IsMute h host_registered t = quiet-IsMute _ (return-IsQuiet t)
      advance_host-IsMute h host_allocated t = quiet-IsMute _ (return-IsQuiet t)
      advance_host-IsMute h host_deprovisioning t = quiet-IsMute _ (return-IsQuiet t)

      pub advance_hosts-IsMute :
          (hs : List Host) (t : Tally) → IsMute (advance_hosts r disk np nodes cluster pool hs t)
      unfolding advance_hosts
      advance_hosts-IsMute [] t = quiet-IsMute _ (return-IsQuiet t)
      advance_hosts-IsMute (h ∷ hs) t =
          attempt-IsMute _ _ _ (advance_host-IsMute h h.state t)
            (λ e. quiet-IsMute _ (raise-IsQuiet e)) (advance_hosts-IsMute hs)

      advance_host-Counted :
          (h : Host) (st : HostState) (t : Tally)
          → Yields
              (Counted t (in_service st) (is_given_up st))
              (advance_host r disk np nodes cluster pool h st t)
      unfolding advance_host in_service is_given_up
      advance_host-Counted h host_provisioning t =
          join_or_wait-Counted np.role h t (new_joined_node nodes t.claimed np.role)
      advance_host-Counted h host_ready t = Yields-return _ _ (omega arith, omega arith)
      advance_host-Counted h host_failed t = Yields-return _ _ (omega arith, omega arith)
      advance_host-Counted h host_unspecified t = Yields-return _ t (omega arith, omega arith)
      advance_host-Counted h host_registered t = Yields-return _ t (omega arith, omega arith)
      advance_host-Counted h host_allocated t = Yields-return _ t (omega arith, omega arith)
      advance_host-Counted h host_deprovisioning t = Yields-return _ t (omega arith, omega arith)

      pub advance_hosts-Counted :
          (hs : List Host) (t : Tally)
          → Yields
              (Counted t (serving hs) (failures hs))
              (advance_hosts r disk np nodes cluster pool hs t)
      unfolding advance_hosts serving failures
      advance_hosts-Counted [] t = Yields-return _ t (omega arith, omega arith)
      advance_hosts-Counted (h ∷ hs) t =
          Yields-attempt (Counted t (in_service h.state) (is_given_up h.state)) _ _ _
            (advance_host-Counted h h.state t)
            λ u c.
              Yields-weaken (Counted u (serving hs) (failures hs)) _ _ (advance_hosts-Counted hs u)
                (λ v d. (omega (arith, c.0, d.0), omega (arith, c.1, d.1)))
