-- ===== src/Rollout/Prepared.antt =====
-- An upgrade of a node in internal/rollout/rollout.go, from the drain on, and what stands before it.
use medea.Prelude.{
  ℕ, Bytes, Bool, true, false, List, [], ◌∷◌, ◌≡◌, ◌==◌, ◌&&◌, if◌then◌else◌, eq_refl, arith,
}
use medea.Error.{Error, Text, Result, ok, err, attempt, ◌>>◌}
use medea.Proto.{is_role_controlplane, RolloutState}
use medea.Bolt.{Bolt}
use medea.Talos.Image.{derive_installer_image}
use medea.Rollout.World.{
  Remote, World, Call, read_version, read_ready, uncordoned, read_image, upgraded_os, took_snapshot,
  drained, install_image, upgrade_os, drain,
}
use medea.Rollout.Node.{set_state, fail, finish_upgrade}
use medea.Rollout.Pool.{Pass, name_at}
use medea.Rollout.Waits.{is_wait, fail-Keeps, finish_upgrade-Keeps}
use medea.Rollout.Calls.{attempt-at, branch-at}

-- Whether the pass saves etcd before it touches a member.
abbrev pub needs_snapshot : Pass → Bool
needs_snapshot p = is_role_controlplane p.role && p.strategy.snapshot_before_control_plane

abbrev pub saved : Bytes → List Call → Bool
saved addr (took_snapshot a (ok _) ∷ cs) = a == addr
saved addr cs = false

-- The calls directly before the upgrade of the node at `addr` to `image`: its installer image was
-- read, `image` is that one at the target, the node of that address was drained, and etcd was saved
-- from it where the pass asks for that.
abbrev pub prepared : Pass → Bytes → Bytes → List Call → Bool
prepared p addr image (read_image a (ok current) ∷ drained name t (ok _) ∷ cs) =
    a == addr
    && image == derive_installer_image current p.target
    && name == name_at p.nodes addr
    && (if needs_snapshot p then saved addr cs else true)
prepared p addr image cs = false

-- Every upgrade in the list was prepared.
abbrev pub is_safe : Pass → List Call → Bool
is_safe p [] = true
is_safe p (upgraded_os addr image r ∷ cs) = prepared p addr image cs && is_safe p cs
is_safe p (c ∷ cs) = is_safe p cs

abbrev pub Safe : Pass → List Call → Type 0
Safe p cs = is_safe p cs ≡ true

module _ ⦃bolt : Bolt⦄ ⦃remote : Remote⦄ (p : Pass) where
  pub waits : (c : Call) (cs : List Call) → is_wait c ≡ true → Safe p cs → Safe p (c ∷ cs)
  waits (read_version addr r) cs h q = q
  waits (read_ready name r) cs h q = q
  waits (uncordoned name r) cs h q = q
  waits _ cs h q = cc

  -- From the upgrade on.
  upgrade_tail :
      (addr image : Bytes) (h : Error → Error) (w : World)
      → Safe p w.calls
      → prepared p addr image w.calls ≡ true
      → Safe p
          (attempt
            (upgrade_os addr image)
            (λ e. fail p.cluster addr p.target (h e))
            (λ _. finish_upgrade p.cluster addr (name_at p.nodes addr) p.target)
            w).1.calls
  unfolding upgrade_os
  upgrade_tail addr image h w s ready =
      branch-at (λ e. fail p.cluster addr p.target (h e))
        (λ _. finish_upgrade p.cluster addr (name_at p.nodes addr) p.target)
        (λ e. fail-Keeps (Safe p) p.cluster addr p.target (h e))
        (λ _. finish_upgrade-Keeps (Safe p) waits p.cluster addr (name_at p.nodes addr) p.target)
        (upgrade_os addr image w) (ground arith)

  -- The calls after a drain that went through.
  abbrev Drained : Bytes → List Call → Type 0
  Drained addr (drained name t (ok _) ∷ cs) =
      ((name == name_at p.nodes addr) ≡ true)
      × ((if needs_snapshot p then saved addr cs else true) ≡ true)
      × Safe p cs
  Drained addr cs = ⊥

  Drained-prepared :
      (addr image : Bytes) (cs : List Call) (r : Result Bytes)
      → r ≡ ok image
      → Drained addr cs
      → prepared p addr (derive_installer_image image p.target) (read_image addr r ∷ cs) ≡ true
  Drained-prepared addr image (drained name t (ok u) ∷ cs) r e (there, kept, safe) =
      rw e (ground (arith, eq_refl addr, eq_refl (derive_installer_image image p.target)))
  Drained-prepared addr image _ r e d = absurd d

  Drained-Safe : (addr : Bytes) (cs : List Call) → Drained addr cs → Safe p cs
  Drained-Safe addr (drained name t (ok u) ∷ cs) (there, kept, safe) = safe
  Drained-Safe addr _ d = absurd d

  install_stage :
      (addr : Bytes) (h h' : Error → Error) (w : World)
      → Drained addr w.calls
      → Safe p
          (attempt
            (install_image addr)
            (λ e. fail p.cluster addr p.target (h e))
            (λ image.
              attempt
                (upgrade_os addr (derive_installer_image image p.target))
                (λ e. fail p.cluster addr p.target (h' e))
                (λ _. finish_upgrade p.cluster addr (name_at p.nodes addr) p.target))
            w).1.calls
  unfolding install_image
  install_stage addr h h' w d =
      attempt-at (Safe p) (install_image addr) _ _ w
        (λ e q.
          (fail-Keeps (Safe p) {A = Unit {0}} p.cluster addr p.target (h e)).at
            (install_image addr w).1 (Drained-Safe addr w.calls d))
        (λ image q.
          upgrade_tail addr (derive_installer_image image p.target) h' (install_image addr w).1
            (Drained-Safe addr w.calls d)
            (Drained-prepared addr image w.calls (install_image addr w).0 q d))

  pub drain_stage :
      (addr : Bytes) (t : ℕ) (f g k : Error → Error) (st : RolloutState) (msg : Text) (w : World)
      → (if needs_snapshot p then saved addr w.calls else true) ≡ true
      → Safe p w.calls
      → Safe p
          (attempt
            (drain (name_at p.nodes addr) t)
            (λ e. fail p.cluster addr p.target (f e))
            (λ _. do
              set_state p.cluster addr st p.target msg
              attempt
                  (install_image addr)
                  (λ e. fail p.cluster addr p.target (g e))
                  (λ image.
                    attempt
                      (upgrade_os addr (derive_installer_image image p.target))
                      (λ e. fail p.cluster addr p.target (k e))
                      (λ _. finish_upgrade p.cluster addr (name_at p.nodes addr) p.target)))
            w).1.calls
  unfolding drain set_state
  drain_stage addr t f g k st msg w kept safe =
      attempt-at (Safe p) (drain (name_at p.nodes addr) t) _ _ w
        (λ e q.
          (fail-Keeps (Safe p) {A = Unit {0}} p.cluster addr p.target (f e)).at
            (drain (name_at p.nodes addr) t w).1 safe)
        (λ u q.
          install_stage addr g k
            (set_state p.cluster addr st p.target msg (drain (name_at p.nodes addr) t w).1).1
            (drained_now (drain (name_at p.nodes addr) t w).0 u q))
    where
      drained_now :
          (r : Result (Unit {0})) (u : Unit {0})
          → r ≡ ok u
          → Drained addr (drained (name_at p.nodes addr) t r ∷ w.calls)
      drained_now (ok x) u q = (eq_refl (name_at p.nodes addr), kept, safe)
      drained_now (err e) u q = cc
