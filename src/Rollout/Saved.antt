-- ===== src/Rollout/Saved.antt =====
-- How the etcd snapshot of internal/rollout/rollout.go ends.
use medea.Prelude.{Bytes, List, ◌∷◌, ◌≡◌, refl, sym, ap, subst}
use medea.Error.{Error, Result, ok, err, Exec, raise, attempt, ◌>>◌}
use medea.Triple.{by_answer}
use medea.Bolt.{Bolt}
use medea.Rollout.World.{Remote, World, Call, local, ignore, took_snapshot, etcd_snapshot}
use medea.Rollout.Node.{snapshot}

module _ ⦃bolt : Bolt⦄ ⦃remote : Remote⦄ where
  -- The etcd snapshot: the directory or the file may fail before it, the file after it.
  pub data Saved (addr : Bytes) (cs : List Call) : Result (Unit {0}) → List Call → Type 0 where
    unopened : (e : Error) → Saved addr cs (err e) cs
    failed : (e : Error) (r : Result (Unit {0})) → Saved addr cs (err e) (took_snapshot addr r ∷ cs)
    kept : (u v : Unit {0}) → Saved addr cs (ok u) (took_snapshot addr (ok v) ∷ cs)

  pub snapshot-Saved :
      (cluster addr : Bytes) (w : World)
      → Saved addr w.calls (snapshot cluster addr w).0 (snapshot cluster addr w).1.calls
  unfolding snapshot etcd_snapshot
  snapshot-Saved cluster addr w =
      by_answer (λ _ s. s.calls ≡ w.calls) Out _ _ refused opened _ _ refl
    where
      Out : Result (Unit {0}) → World → Type 0
      Out x s = Saved addr w.calls x s.calls

      refused : (e : Error) (s : World) → s.calls ≡ w.calls → Out (err e) s
      refused e s h = subst (Saved addr w.calls (err e)) (sym h) (unopened e)

      close :
          (u : Unit {0}) (s : World)
          → s.calls ≡ took_snapshot addr (ok u) ∷ w.calls
          → (x : Result (Unit {0})) → Saved addr w.calls x s.calls
      close u s h (ok v) = subst (Saved addr w.calls (ok v)) (sym h) (kept v u)
      close u s h (err e) = subst (Saved addr w.calls (err e)) (sym h) (failed e (ok u))

      save : Exec World (Unit {0})
      save =
          attempt (etcd_snapshot addr) (λ e. do ignore (local remote.close_snapshot); raise e)
            (λ _. local remote.close_snapshot)

      saved : (t : World) → t.calls ≡ w.calls → Out (save t).0 (save t).1
      saved t k =
          by_answer {A = Unit {0}} (λ x v. v.calls ≡ took_snapshot addr x ∷ w.calls) Out
            (λ e. do ignore (local remote.close_snapshot); raise e)
            (λ _. local remote.close_snapshot)
            (λ e v j. subst (Saved addr w.calls (err e)) (sym j) (failed e (err e)))
            (λ a v j. close a v j (remote.close_snapshot v.env).0) (etcd_snapshot addr t).0
            (etcd_snapshot addr t).1
            (ap (λ cs. took_snapshot addr (remote.etcd_snapshot addr t.env).0 ∷ cs) k)

      opened :
          (u : Unit {0}) (s : World)
          → s.calls ≡ w.calls
          → Out
              (attempt (local (remote.open_snapshot cluster addr)) raise (λ _. save) s).0
              (attempt (local (remote.open_snapshot cluster addr)) raise (λ _. save) s).1
      opened u s h =
          by_answer {A = Unit {0}} (λ _ t. t.calls ≡ w.calls) Out raise (λ _. save) refused
            (λ _ t k. saved t k) (remote.open_snapshot cluster addr s.env).0
            (record s { env = (remote.open_snapshot cluster addr s.env).1 }) h
