-- ===== src/Provision/Deeds.antt =====
-- What a pass of internal/provision/reconciler.go does outside the store.
use medea.Prelude.{
  ◌+◌, ◌≤◌, ◌<◌, ltb, Bytes, Bool, true, false, Option, none, some, List, [], ◌∷◌, ◌≡◌, refl, sym,
  subst, ◌∙◌, if◌then◌else◌, arith,
}
use medea.Error.{Error, wrap, Result, ok, err, Exec, return, raise, attempt, branch, ◌>>◌}
use medea.Proto.{Cluster, NodePool, Host}
use medea.Bolt.{Bolt}
use medea.Rollout.World.{NodeInfo}
use medea.Provision.Site.{Site, Plant, Call, Profile, perform, staged, unstaged, drained}
use medea.Provision.Bootstrap.{Settings}
use medea.Provision.Quiet.{quiet, raise-IsQuiet}
use medea.Provision.Hosts.{pick_available, node_name_for, victim_from}
use medea.Provision.Choices.{
  IsAvailable, IsVictim, pick_available-IsAvailable, victim_from-IsVictim,
}
use medea.Provision.Reconciler.{Tally, stage_host, settle_pool}
use medea.Provision.Records.{
  forget_victim, release_host, drain_timeout, drain_victim, release, scale_in,
}
use medea.Provision.Mute.{
  IsMute, quiet-IsMute, start_provisioning-IsMute, release_host-IsMute, forget_victim-IsMute,
  attempt-IsMute,
}
use medea.Provision.Counts.{serving, failures}
use medea.Triple.{
  Leads, Leads-return, Leads-raise, Leads-if, Leads-attempt, Leads-through, Leads-After, After,
}

-- The calls after a pass that looked at the hosts and nodes, by those before it: none, the staging
-- of an available host, or the release of a victim.
pub data Deed (np : NodePool) (hosts : List Host) (nodes : List NodeInfo) (cs : List Call)
    : List Call → Type 0 where
  rested : Deed np hosts nodes cs cs
  staging :
      (h : Host) (p : Profile) (cfg : Bytes) (r : Result (Unit {0}))
      → IsAvailable hosts np.selector h
      → serving hosts < np.replicas
      → failures hosts ≡ 0
      → Deed np hosts nodes cs (staged h.mac p cfg r ∷ cs)
  undrained :
      (v : Host) (e : Error)
      → IsVictim hosts v
      → np.replicas < serving hosts
      → failures hosts ≡ 0
      → Deed np hosts nodes cs (drained (node_name_for nodes v.addr) drain_timeout (err e) ∷ cs)
  unstaging :
      (v : Host) (u : Unit {0}) (r : Result (Unit {0}))
      → IsVictim hosts v
      → np.replicas < serving hosts
      → failures hosts ≡ 0
      → Deed np hosts nodes cs
          (unstaged v.mac r ∷ drained (node_name_for nodes v.addr) drain_timeout (ok u) ∷ cs)
  nodeless :
      (v : Host) (r : Result (Unit {0}))
      → IsVictim hosts v
      → np.replicas < serving hosts
      → failures hosts ≡ 0
      → node_name_for nodes v.addr ≡ []
      → Deed np hosts nodes cs (unstaged v.mac r ∷ cs)

module _ ⦃bolt : Bolt⦄ ⦃site : Site⦄ (r : Settings) (disk cluster pool : Bytes) (cl : Cluster)
    (np : NodePool) (hosts : List Host) (nodes : List NodeInfo) (cs : List Call) where
  abbrev pub Before : Plant → Type 0
  Before w = w.calls ≡ cs

  abbrev pub Done : Plant → Type 0
  Done w = Deed np hosts nodes cs w.calls

  pub mute-Before : {A : Type 0} (m : Exec Plant A) → IsMute m → Leads Before Before m
  mute-Before m q = record { at = λ w h. q.calls w ∙ h }

  mute-Done : {A : Type 0} (m : Exec Plant A) → IsMute m → Leads Done Done m
  mute-Done m q = record { at = λ w h. subst (Deed np hosts nodes cs) (sym (q.calls w)) h }

  rest : (w : Plant) → Before w → Done w
  rest w h = subst (Deed np hosts nodes cs) (sym h) rested

  pub raise-Done : {A : Type 0} (e : Error) → Leads Before Done (raise {A = A} e)
  raise-Done e = Leads-raise rest e

  return-Done : {A : Type 0} (a : A) → Leads Before Done (return a)
  return-Done a = Leads-return rest a

  stage_call-Done :
      {A : Type 0} (h : Host) (p : Profile) (cfg : Bytes)
      (op : site.Env → Result (Unit {0}) × site.Env) (f : Error → Exec Plant A)
      (g : Unit {0} → Exec Plant A)
      → IsAvailable hosts np.selector h
      → serving hosts < np.replicas
      → failures hosts ≡ 0
      → ((e : Error) → Leads Done Done (f e))
      → ((u : Unit {0}) → Leads Done Done (g u))
      → Leads Before Done (attempt (perform op (staged h.mac p cfg)) f g)
  stage_call-Done h p cfg op f g a low fine kf kg =
      Leads-through (perform op (staged h.mac p cfg)) f g
        (record {
          at = λ w b.
              subst (λ l. Deed np hosts nodes cs (staged h.mac p cfg (op w.env).0 ∷ l)) (sym b)
                (staging h p cfg (op w.env).0 a low fine);
        })
        kf kg

  stage_host-Done :
      (h : Host)
      → IsAvailable hosts np.selector h
      → serving hosts < np.replicas
      → failures hosts ≡ 0
      → Leads Before Done (stage_host r disk cl np h)
  unfolding stage_host
  stage_host-Done h a low fine =
      search
        (
          raise-Done, stage_call-Done, mute-Done, mute-Before, quiet-IsMute, quiet,
          start_provisioning-IsMute, Leads-if, Leads-attempt,
        )
        depth 14

  module _ (v : Host) (best : IsVictim hosts v) (high : np.replicas < serving hosts)
      (fine : failures hosts ≡ 0) where
    after_unstage :
        (u : Unit {0})
        → Leads Done Done (do forget_victim cluster pool v.addr; release_host cluster v.mac)
    after_unstage u = mute-Done _ (
        attempt-IsMute _ _ _ (forget_victim-IsMute cluster pool v.addr)
          (λ e. quiet-IsMute _ (raise-IsQuiet e)) (λ _. release_host-IsMute cluster v.mac))

    unstage-Done :
        (P : Plant → Type 0)
        → ((w : Plant)
            → P w
            → (x : Result (Unit {0})) → Deed np hosts nodes cs (unstaged v.mac x ∷ w.calls))
        → Leads P Done (
            attempt
              (perform (site.unstage v.mac) (unstaged v.mac))
              (λ e. raise (wrap "provision: unstage %s: %w" (v.mac ∷ []) e))
              (λ _. do forget_victim cluster pool v.addr; release_host cluster v.mac))
    unstage-Done P deed =
        Leads-through (perform (site.unstage v.mac) (unstaged v.mac)) _ _
          (record { at = λ w p. deed w p (site.unstage v.mac w.env).0 })
          (λ e. mute-Done _ (quiet-IsMute _ (raise-IsQuiet _))) after_unstage

    release-Done :
        (name : Bytes)
        → node_name_for nodes v.addr ≡ name
        → Leads Before Done (release cluster pool v name)
    unfolding release drain_victim
    release-Done [] q = unstage-Done Before λ w b x.
        subst (λ l. Deed np hosts nodes cs (unstaged v.mac x ∷ l)) (sym b)
          (nodeless v x best high fine q)
    release-Done (c ∷ name) q =
        Leads-After
          (λ u w. w.calls ≡ drained (node_name_for nodes v.addr) drain_timeout (ok u) ∷ cs)
          (λ e. Done) (drain_victim (c ∷ name)) _ _
          (λ w b. answered (site.drain (c ∷ name) drain_timeout w.env).0 w b)
          (λ e. mute-Done _ (quiet-IsMute _ (raise-IsQuiet e)))
          (λ u. unstage-Done _ λ w b x.
            subst (λ l. Deed np hosts nodes cs (unstaged v.mac x ∷ l)) (sym b)
              (unstaging v u x best high fine))
      where
        gone : Plant → Result (Unit {0}) → Plant
        gone w x = record w {
          env = (site.drain (c ∷ name) drain_timeout w.env).1;
          calls = drained (c ∷ name) drain_timeout x ∷ w.calls;
        }

        answered :
            (x : Result (Unit {0})) (w : Plant)
            → Before w
            → After
                (λ u s. s.calls ≡ drained (node_name_for nodes v.addr) drain_timeout (ok u) ∷ cs)
                (λ e. Done)
                (branch x
                  (λ e. raise (wrap "provision: drain %s: %w" ((c ∷ name) ∷ []) e))
                  return
                  (gone w x)).0
                (branch x
                  (λ e. raise (wrap "provision: drain %s: %w" ((c ∷ name) ∷ []) e))
                  return
                  (gone w x)).1
        answered (ok u) w b = rw (q, b) refl
        answered (err e) w b =
            subst (λ k. Deed np hosts nodes cs (drained k drain_timeout (err e) ∷ w.calls)) q
              (subst
                (λ l.
                  Deed np hosts nodes cs
                    (drained (node_name_for nodes v.addr) drain_timeout (err e) ∷ l))
                (sym b) (undrained v e best high fine))

  scale_in-Done :
      np.replicas < serving hosts
      → failures hosts ≡ 0
      → Leads Before Done (scale_in cluster pool hosts nodes)
  unfolding scale_in
  scale_in-Done high fine = go (victim_from none hosts) refl
    where
      go :
          (o : Option Host)
          → victim_from none hosts ≡ o
          → Leads Before Done (elim o as (λ _. Exec Plant (Unit {0})) [
            | none ↦ return tt
            | some v ↦ release cluster pool v (node_name_for nodes v.addr)
          ])
      go none q = return-Done tt
      go (some v) q =
          release-Done v (victim_from-IsVictim hosts v q) high fine (node_name_for nodes v.addr)
            refl

  pick-Done :
      serving hosts < np.replicas
      → failures hosts ≡ 0
      → Leads Before Done (elim (pick_available hosts np.selector) as (λ _. Exec Plant (Unit {0})) [
        | none ↦ return tt
        | some h ↦ stage_host r disk cl np h
      ])
  pick-Done low fine = go (pick_available hosts np.selector) refl
    where
      go :
          (o : Option Host)
          → pick_available hosts np.selector ≡ o
          → Leads Before Done (elim o as (λ _. Exec Plant (Unit {0})) [
            | none ↦ return tt
            | some h ↦ stage_host r disk cl np h
          ])
      go none q = return-Done tt
      go (some h) q = stage_host-Done h (pick_available-IsAvailable hosts np.selector h q) low fine

  Leads-given :
      {A : Type 0} {P Q : Plant → Type 0} (b : Bool) (m n : Exec Plant A)
      → (b ≡ true → Leads P Q m)
      → (b ≡ false → Leads P Q n)
      → Leads P Q (if b then m else n)
  Leads-given true m n hm hn = hm refl
  Leads-given false m n hm hn = hn refl

  pub settle_pool-Done :
      (t : Tally)
      → t.ready + t.failed + t.inflight ≡ serving hosts
      → failures hosts ≤ t.failed
      → Leads Before Done (settle_pool r disk cl np cluster pool hosts nodes t)
  unfolding settle_pool
  settle_pool-Done t all some_failed =
      Leads-given (ltb 0 t.inflight) _ _ (λ _. return-Done tt)
        λ a.
          Leads-given (ltb 0 t.failed) _ _ (λ _. return-Done tt)
            λ b.
              Leads-given (ltb np.replicas t.ready) _ _
                (λ c.
                  scale_in-Done (ground (arith, all, some_failed)) (ground (arith, some_failed)))
                λ c.
                  Leads-given (ltb t.ready np.replicas) _ _
                    (λ d.
                      pick-Done (ground (arith, all, some_failed)) (ground (arith, some_failed)))
                    (λ _. return-Done tt)
