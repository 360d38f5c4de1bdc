-- ===== src/Provision/Mute.antt =====
-- The parts of internal/provision/reconciler.go that make no call.
use medea.Prelude.{
  ℕ, Bytes, Bool, true, false, Option, none, some, List, ◌≡◌, refl, ◌∙◌, if◌then◌else◌,
}
use medea.Error.{Error, no_text, Result, ok, err, Exec, raise, attempt, branch}
use medea.Proto.{Role, HostState, Host}
use medea.Bolt.{Bolt}
use medea.Store.State.{Store}
use medea.Rollout.World.{NodeInfo}
use medea.Provision.Site.{Site, Plant, in_store}
use medea.Provision.Quiet.{IsQuiet, is_overdue-IsQuiet, now-IsQuiet, return-IsQuiet, raise-IsQuiet}
use medea.Provision.Records.{
  reload, set_host_state, add_member, bind, claimed_addrs, start_provisioning, release_host,
  remove_member, forget_victim,
}

module _ ⦃bolt : Bolt⦄ ⦃site : Site⦄ where
  pub record IsMute {A : Type 0} (m : Exec Plant A) : Type 0 where
    pub calls : (w : Plant) → (m w).1.calls ≡ w.calls

  pub quiet-IsMute : {A : Type 0} (m : Exec Plant A) → IsQuiet m → IsMute m
  quiet-IsMute m q = record { calls = q.calls }

  pub in_store-IsMute : {A : Type 0} (m : Exec Store A) → IsMute (in_store m)
  in_store-IsMute m = record { calls = λ w. refl }

  pub if-IsMute :
      {A : Type 0} (b : Bool) (m n : Exec Plant A)
      → IsMute m
      → IsMute n
      → IsMute (if b then m else n)
  if-IsMute true m n hm hn = hm
  if-IsMute false m n hm hn = hn

  module _ {A B : Type 0} where
    branch-calls :
        (h : Error → Exec Plant B) (f : A → Exec Plant B)
        → ((e : Error) → IsMute (h e))
        → ((a : A) → IsMute (f a))
        → (r : Result A) (w : Plant) → (branch r h f w).1.calls ≡ w.calls
    branch-calls h f kh kf (ok a) w = (kf a).calls w
    branch-calls h f kh kf (err e) w = (kh e).calls w

    pub attempt-IsMute :
        (m : Exec Plant A) (h : Error → Exec Plant B) (f : A → Exec Plant B)
        → IsMute m
        → ((e : Error) → IsMute (h e))
        → ((a : A) → IsMute (f a))
        → IsMute (attempt m h f)
    attempt-IsMute m h f km kh kf = record {
      calls = λ w. branch-calls h f kh kf (m w).0 (m w).1 ∙ km.calls w;
    }

  pub ruleset muted = (
    in_store-IsMute, if-IsMute, attempt-IsMute, quiet-IsMute, return-IsQuiet, raise-IsQuiet,
    now-IsQuiet,
  )

  pub reload-IsMute :
      {A : Type 0} (failing : Error → Error) (found : Exec Plant (Option A × ℕ))
      (f : A → ℕ → Exec Plant (Unit {0}))
      → IsMute found
      → ((a : A) (rev : ℕ) → IsMute (f a rev))
      → IsMute (reload failing found f)
  reload-IsMute {A} failing found f hf h =
      attempt-IsMute found _ _ hf (λ e. quiet-IsMute _ (raise-IsQuiet (failing e)))
        (λ q. on q.0 q.1)
    where
      on :
          (o : Option A) (rev : ℕ)
          → IsMute (elim o as (λ _. Exec Plant (Unit {0})) [
            | none ↦ raise (failing no_text)
            | some a ↦ f a rev
          ])
      on none rev = quiet-IsMute _ (raise-IsQuiet (failing no_text))
      on (some a) rev = h a rev

  pub ruleset reloaded = (reload-IsMute, muted)

  pub set_host_state-IsMute :
      (cluster mac : Bytes) (st : HostState) (msg : Error)
      → IsMute (set_host_state cluster mac st msg)
  unfolding set_host_state
  set_host_state-IsMute cluster mac st msg = search reloaded depth 9

  pub release_host-IsMute : (cluster mac : Bytes) → IsMute (release_host cluster mac)
  unfolding release_host
  release_host-IsMute cluster mac = search reloaded depth 9

  pub start_provisioning-IsMute : (cluster mac : Bytes) → IsMute (start_provisioning cluster mac)
  unfolding start_provisioning
  start_provisioning-IsMute cluster mac = search reloaded depth 9

  remove_member-IsMute : (cluster pool addr : Bytes) → IsMute (remove_member cluster pool addr)
  unfolding remove_member
  remove_member-IsMute cluster pool addr = search reloaded depth 9

  pub forget_victim-IsMute : (cluster pool addr : Bytes) → IsMute (forget_victim cluster pool addr)
  unfolding forget_victim
  forget_victim-IsMute cluster pool addr = search (reloaded, remove_member-IsMute) depth 9

  add_member-IsMute : (cluster pool addr : Bytes) → IsMute (add_member cluster pool addr)
  unfolding add_member
  add_member-IsMute cluster pool addr = search reloaded depth 9

  pub bind-IsMute :
      (cluster pool mac : Bytes) (n : NodeInfo) (role : Role)
      → IsMute (bind cluster pool mac n role)
  unfolding bind
  bind-IsMute cluster pool mac n role = search (reloaded, add_member-IsMute) depth 14

  pub claimed_addrs-IsMute :
      (cluster : Bytes) (hosts : List Host) → IsMute (claimed_addrs cluster hosts)
  unfolding claimed_addrs
  claimed_addrs-IsMute cluster hosts = search muted depth 9
