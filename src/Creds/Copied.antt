-- ===== src/Creds/Copied.antt =====
-- What Migrate of internal/creds/onepassword.go copies, for any two stores that keep the promise.
use medea.Prelude.{
  Bytes, true, Option, none, some, ◌≡◌, refl, sym, ap, ◌∙◌, subst, ◌⊎◌, inl, inr, ◌==◌, eq_iff,
  Bool-cases, [],
}
use medea.Error.{Error, wrap, Result, ok, err, Exec, return, raise, attempt, branch}
use medea.Triple.{After, by_answer}
use medea.Creds.Interface.{
  Part, talos, kube, bundle, Contents, is_plain, Op, reads, puts, puts_secrets, cluster_of, run,
  read_part, effect, answer, may_touch, Apart, Step, went, failed, CredStore,
}
use medea.Creds.Steps.{DidOf}
use medea.Creds.Migrate.{Both, in_from, in_to, migrate_secrets, migrate}

-- No credentials have changed.
pub record Untouched (before after : Contents) : Type 0 where
  pub same : (d : Bytes) (p : Part) → is_plain d ≡ true → after d p ≡ before d p

Apart-Untouched :
    (c : Bytes) (before after : Contents)
    → ((p : Part) → after c p ≡ before c p)
    → Apart c before after
    → Untouched before after
Apart-Untouched c before after own a = record {
  same = λ d p h. elim (Bool-cases (c == d)) [
    | inl hit ↦ subst (λ x. after x p ≡ before x p) ((eq_iff c d).0 hit) (own p)
    | inr miss ↦ a.others d p h miss
  ];
}

module _ (cs : CredStore) (c : Bytes) (plain : is_plain c ≡ true) where
  -- A read: what it found was there, and nothing has changed.
  abbrev Got : Part → cs.ops.State → Result Bytes → cs.ops.State → Type 0
  Got p s =
      After (λ b s'. (cs.contents s c p ≡ some b) × Untouched (cs.contents s) (cs.contents s'))
        (λ _ s'. Untouched (cs.contents s) (cs.contents s'))

  read_part-Got :
      (p : Part) (s : cs.ops.State) → Got p s (read_part cs.ops p c s).0 (read_part cs.ops p c s).1
  unfolding run cluster_of effect answer may_touch
  read_part-Got p s =
      on (read_part cs.ops p c s).0 (read_part cs.ops p c s).1 (cs.refines (reads p c) s plain)
    where
      on :
          (r : Result Bytes) (s' : cs.ops.State)
          → Step
              (reads p c)
              (cs.contents s)
              (cs.contents (branch r raise (λ b. return (some b)) s').1)
              (branch r raise (λ b. return (some b)) s').0
          → Got p s r s'
      on (ok b) s' (went a q own apart) = (sym q, Apart-Untouched c _ _ own apart)
      on (err e) s' (failed _ keep apart) = Apart-Untouched c _ _ (λ n. keep n refl) apart

  write-Did :
      (op : Op) (m : Exec cs.ops.State (Unit {0})) (s : cs.ops.State)
      → let x = attempt m raise (λ _. return none) s in
        Step op (cs.contents s) (cs.contents x.1) x.0 → DidOf cs.contents op s (m s).0 (m s).1
  write-Did op m s = on (m s).0 (m s).1
    where
      on :
          (r : Result (Unit {0})) (s' : cs.ops.State)
          → Step op
              (cs.contents s)
              (cs.contents (branch {B = Option Bytes} r raise (λ _. return none) s').1)
              (branch {B = Option Bytes} r raise (λ _. return none) s').0
          → DidOf cs.contents op s r s'
      on (ok u) s' (went a q own apart) = (own, apart)
      on (err e) s' (failed _ keep apart) = (keep, apart)

  put-Did :
      (t k : Bytes) (s : cs.ops.State)
      → DidOf cs.contents (puts c t k) s (cs.ops.put c t k s).0 (cs.ops.put c t k s).1
  unfolding run cluster_of
  put-Did t k s = write-Did (puts c t k) (cs.ops.put c t k) s (cs.refines (puts c t k) s plain)

  put_secrets-Did :
      (b : Bytes) (s : cs.ops.State)
      → DidOf cs.contents
          (puts_secrets c b)
          s
          (cs.ops.put_secrets c b s).0
          (cs.ops.put_secrets c b s).1
  unfolding run cluster_of
  put_secrets-Did b s =
      write-Did (puts_secrets c b) (cs.ops.put_secrets c b) s
        (cs.refines (puts_secrets c b) s plain)

module _ (from to : CredStore) (c : Bytes) (plain : is_plain c ≡ true) where
  abbrev World : Type 0
  World = Both from.ops to.ops

  -- What Migrate leaves: of the source nothing has changed, and of the target no other cluster.
  pub record Kept (s s' : World) : Type 0 where
    pub source : Untouched (from.contents s.0) (from.contents s'.0)
    pub target : Apart c (to.contents s.1) (to.contents s'.1)

  -- The last thing done to the source, in which no credentials had changed, was a read of the
  -- cluster's secrets that failed.
  pub record Unread (s s' : World) : Type 0 where
    pub found : from.ops.State
    pub same : Untouched (from.contents s.0) (from.contents found)
    pub why : Error
    pub refused : read_part from.ops bundle c found ≡ (err why, s'.0)

  -- How Migrate ends. The secrets are the source's, or as they were where the read failed.
  pub data Migrated (s s' : World) : Result (Unit {0}) → Type 0 where
    copied :
        (u : Unit {0})
        → to.contents s'.1 c talos ≡ from.contents s.0 c talos
        → to.contents s'.1 c kube ≡ from.contents s.0 c kube
        → (to.contents s'.1 c bundle ≡ from.contents s.0 c bundle)
          ⊎ ((to.contents s'.1 c bundle ≡ to.contents s.1 c bundle) × Unread s s')
        → Kept s s'
        → Migrated s s' (ok u)
    gave_up : (e : Error) → Kept s s' → Migrated s s' (err e)

  -- The source so far: the parts that were read, and a target as at the start.
  record Source (s s' : World) : Type 0 where
    source : Untouched (from.contents s.0) (from.contents s'.0)
    target : s'.1 ≡ s.1

  then-Untouched : (x y z : Contents) → Untouched x y → Untouched y z → Untouched x z
  then-Untouched x y z a b = record { same = λ d p h. b.same d p h ∙ a.same d p h }

  Source-Kept : (s s' : World) → Source s s' → Kept s s'
  Source-Kept s s' h = record {
    source = h.source;
    target = record { others = λ d p _ _. ap (λ x. to.contents x d p) h.target };
  }

  -- A read of the source, after others.
  Found : Part → World → Result Bytes → World → Type 0
  Found p s = After (λ b s'. Source s s' × (from.contents s.0 c p ≡ some b)) (λ _ s'. Source s s')

  read-Found :
      (p : Part) (s s1 : World)
      → Source s s1
      → let x = in_from from.ops to.ops (read_part from.ops p c) s1 in Found p s x.0 x.1
  unfolding Found
  read-Found p s s1 h =
      on (read_part from.ops p c s1.0).0 (read_part from.ops p c s1.0).1
        (read_part-Got from c plain p s1.0)
    where
      further :
          (t : from.ops.State)
          → Untouched (from.contents s1.0) (from.contents t)
          → Source s (t, s1.1)
      further t u = record { source = then-Untouched _ _ _ h.source u; target = h.target }

      on :
          (r : Result Bytes) (t : from.ops.State)
          → Got from c plain p s1.0 r t
          → Found p s r (t, s1.1)
      on (ok b) t g = (further t g.1, sym (h.source.same c p plain) ∙ g.0)
      on (err e) t g = further t g

  -- After the put of the two files.
  record Halfway (s : World) (t k : Bytes) (s' : World) : Type 0 where
    kept : Kept s s'
    t_there : to.contents s'.1 c talos ≡ some t
    k_there : to.contents s'.1 c kube ≡ some k
    rest : to.contents s'.1 c bundle ≡ to.contents s.1 c bundle

  Ends : World → Exec World (Unit {0}) → World → Type 0
  Ends s m s1 = Migrated s (m s1).1 (m s1).0

  migrate_secrets-Migrated :
      (t k : Bytes) (s s1 : World)
      → from.contents s.0 c talos ≡ some t
      → from.contents s.0 c kube ≡ some k
      → Halfway s t k s1
      → Ends s (migrate_secrets from.ops to.ops c) s1
  unfolding Ends migrate_secrets cluster_of effect may_touch
  migrate_secrets-Migrated t k s s1 et ek h =
      by_answer {A = Bytes}
        (λ r s2.
          (Got from c plain bundle s1.0 r s2.0 × (s2.1 ≡ s1.1))
          × (read_part from.ops bundle c s1.0 ≡ (r, s2.0)))
        (λ r s2. Migrated s s2 r) (λ _. return tt) _ (λ e s2 g. skipped e s2 g.0.0 g.0.1 g.1)
        (λ b s2 g.
          by_answer {A = Unit {0}}
            (λ r s3. (s3.0 ≡ s2.0) × DidOf to.contents (puts_secrets c b) s2.1 r s3.1)
            (λ r s3. Migrated s s3 r) _ return
            (λ e s3 d. gave_up _ (kept s2 s3 g.0.0.1 g.0.1 d.0 d.1.1))
            (λ u s3 d.
              copied u (d.1.0 talos ∙ ap (λ x. to.contents x c talos) g.0.1 ∙ h.t_there ∙ sym et)
                (d.1.0 kube ∙ ap (λ x. to.contents x c kube) g.0.1 ∙ h.k_there ∙ sym ek)
                (inl (d.1.0 bundle ∙ sym g.0.0.0 ∙ h.kept.source.same c bundle plain))
                (kept s2 s3 g.0.0.1 g.0.1 d.0 d.1.1))
            _ _ (refl, put_secrets-Did to c plain b s2.1))
        _ _ ((read_part-Got from c plain bundle s1.0, refl), refl)
    where
      kept :
          (s2 s3 : World)
          → Untouched (from.contents s1.0) (from.contents s2.0)
          → s2.1 ≡ s1.1
          → s3.0 ≡ s2.0
          → Apart c (to.contents s2.1) (to.contents s3.1)
          → Kept s s3
      kept s2 s3 u e2 e3 a = record {
        source =
            then-Untouched _ _ _ h.kept.source
              (subst (λ x. Untouched (from.contents s1.0) (from.contents x)) (sym e3) u);
        target = record {
          others = λ d p x y.
              a.others d p x y ∙ ap (λ z. to.contents z d p) e2 ∙ h.kept.target.others d p x y;
        };
      }

      skipped :
          (e : Error) (s2 : World)
          → Untouched (from.contents s1.0) (from.contents s2.0)
          → s2.1 ≡ s1.1
          → read_part from.ops bundle c s1.0 ≡ (err e, s2.0)
          → Migrated s s2 (ok tt)
      skipped e s2 u e2 q =
          copied tt (ap (λ x. to.contents x c talos) e2 ∙ h.t_there ∙ sym et)
            (ap (λ x. to.contents x c kube) e2 ∙ h.k_there ∙ sym ek)
            (inr (
              ap (λ x. to.contents x c bundle) e2 ∙ h.rest,
              record { found = s1.0; same = h.kept.source; why = e; refused = q },
            ))
            (kept s2 s2 u e2 refl record { others = λ d p _ _. refl })

  writing-Migrated :
      (t k : Bytes) (s s1 : World)
      → Source s s1
      → from.contents s.0 c talos ≡ some t
      → from.contents s.0 c kube ≡ some k
      → Ends s
          (attempt
            (in_to from.ops to.ops (to.ops.put c t k))
            (λ e. raise (wrap "migrate: write creds: %w" [] e))
            (λ _. migrate_secrets from.ops to.ops c))
          s1
  unfolding Ends cluster_of effect may_touch
  writing-Migrated t k s s1 h et ek =
      by_answer {A = Unit {0}} (λ r s2. (s2.0 ≡ s1.0) × DidOf to.contents (puts c t k) s1.1 r s2.1)
        (λ r s2. Migrated s s2 r) _ (λ _. migrate_secrets from.ops to.ops c)
        (λ e s2 d. gave_up _ (kept s2 d.0 d.1.1))
        (λ u s2 d. migrate_secrets-Migrated t k s s2 et ek record {
          kept = kept s2 d.0 d.1.1;
          t_there = d.1.0 talos;
          k_there = d.1.0 kube;
          rest = d.1.0 bundle ∙ ap (λ x. to.contents x c bundle) h.target;
        })
        _ _ (refl, put-Did to c plain t k s1.1)
    where
      kept : (s2 : World) → s2.0 ≡ s1.0 → Apart c (to.contents s1.1) (to.contents s2.1) → Kept s s2
      kept s2 e a = record {
        source = subst (λ x. Untouched (from.contents s.0) (from.contents x)) (sym e) h.source;
        target = record {
          others = λ d p x y. a.others d p x y ∙ ap (λ z. to.contents z d p) h.target;
        };
      }

  -- For a cluster whose name is one plain path element, and any two stores that keep the promise
  -- of the interface and share no state, Migrate changes nothing in the source and no other
  -- cluster with such a name in the target, however it ends. If it returns no error, the target's
  -- talosconfig and kubeconfig are the source's, and its secrets bundle is the source's, or it is
  -- as it was and the last thing done to the source was a read of that bundle that failed.
  pub migrate-Migrated :
      (s : World) → Migrated s (migrate from.ops to.ops c s).1 (migrate from.ops to.ops c s).0
  unfolding migrate Ends Found
  migrate-Migrated s =
      by_answer {A = Bytes} (Found talos s) (λ r s'. Migrated s s' r) _ _
        (λ e s1 h. gave_up _ (Source-Kept s s1 h))
        (λ t s1 f.
          by_answer {A = Bytes} (Found kube s) (λ r s'. Migrated s s' r) _ _
            (λ e s2 h. gave_up _ (Source-Kept s s2 h))
            (λ k s2 g. writing-Migrated t k s s2 g.0 f.1 g.1) _ _ (read-Found kube s s1 f.0))
        _ _
        (read-Found talos s s record { source = record { same = λ d p h. refl }; target = refl })
