-- ===== src/Creds/Filed.antt =====
-- FileStore of internal/creds/creds.go keeps the promise of its interface.
use medea.Prelude.{
  Bytes, Bool, true, false, none, some, [], ◌∷◌, ◌≡◌, ◌≢◌, refl, sym, ◌∙◌, ◌==◌, is_empty, eq_iff,
  bytes,
}
use medea.Error.{Error, wrap, Result, ok, err, return, raise, attempt, branch}
use medea.Triple.{by_answer}
use medea.Talos.Image.{contains_byte}
use medea.Creds.Interface.{
  Part, talos, kube, bundle, file_of, Contents, is_plain, Op, reads, puts, puts_secrets, deletes,
  cluster_of, run, effect, answer, may_touch, Apart, Step, went, failed, CredStore,
}
use medea.Creds.Steps.{DidOf, write-Step}
use medea.Creds.FileStore.{
  FileSystem, read_named, write_secret, put, put_secrets, delete, file_operations,
}

file_of-plain : (p : Part) → is_plain (file_of p) ≡ true
unfolding is_plain file_of bytes ◌==◌ contains_byte
file_of-plain talos = refl
file_of-plain kube = refl
file_of-plain bundle = refl

unfoldable same_part : Part → Part → Bool
same_part talos talos = true
same_part kube kube = true
same_part bundle bundle = true
same_part p q = false

file_of_apart : (p q : Part) → same_part p q ≡ false → file_of p ≢ file_of q
unfolding same_part file_of bytes
file_of_apart talos talos h e = cc
file_of_apart talos kube h e = cc
file_of_apart talos bundle h e = cc
file_of_apart kube talos h e = cc
file_of_apart kube kube h e = cc
file_of_apart kube bundle h e = cc
file_of_apart bundle talos h e = cc
file_of_apart bundle kube h e = cc
file_of_apart bundle bundle h e = cc

apart : (c d : Bytes) → (c == d) ≡ false → c ≢ d
apart c d h e = cc (h, (eq_iff c d).1 e)

plain_nonempty : (c : Bytes) → is_plain c ≡ true → is_empty c ≡ false
unfolding is_plain
plain_nonempty [] h = cc
plain_nonempty (b ∷ c) h = refl

module _ ⦃fs : FileSystem⦄ (dir : fs.FilePath) where
  -- The credentials that the files hold.
  abbrev pub file_contents : fs.State → Contents
  file_contents s c p = fs.read (fs.join dir (c ∷ file_of p ∷ [])) s

  record Same (s s' : fs.State) : Type 0 where
    same : (c : Bytes) (p : Part) → file_contents s' c p ≡ file_contents s c p

  -- The file of one part of a cluster was written, or not.
  record Wrote (c : Bytes) (q : Part) (b : Bytes) (s : fs.State) (r : Result (Unit {0}))
      (s' : fs.State) : Type 0 where
    others :
        (d : Bytes) (p : Part)
        → is_plain d ≡ true
        → (c == d) ≡ false
        → file_contents s' d p ≡ file_contents s d p
    rest : (p : Part) → same_part q p ≡ false → file_contents s' c p ≡ file_contents s c p
    this : r ≡ ok tt → file_contents s' c q ≡ some b

  write_secret-Wrote :
      (c : Bytes) (q : Part) (b : Bytes) (s : fs.State)
      → is_plain c ≡ true
      → let w = write_secret dir (fs.join (fs.join dir (c ∷ [])) (file_of q ∷ [])) b s in
        Wrote c q b s w.0 w.1
  unfolding write_secret
  write_secret-Wrote c q b s plain = rw (fs.join_join dir c (file_of q)) record {
    others = λ d p h k. fs.write_file_other _ _ b s λ e.
        apart c d k (fs.join_apart dir c d _ _ plain h (file_of-plain q) (file_of-plain p) e).0;
    rest = λ p h. fs.write_file_other _ _ b s λ e.
        file_of_apart q p h
          (fs.join_apart dir c c _ _ plain plain (file_of-plain q) (file_of-plain p) e).1;
    this = fs.write_file_ok _ b s;
  }

  abbrev Did : Op → fs.State → Result (Unit {0}) → fs.State → Type 0
  Did = DidOf file_contents

  put_secrets-Did :
      (c b : Bytes) (s : fs.State)
      → is_plain c ≡ true
      → Did (puts_secrets c b) s (put_secrets dir c b s).0 (put_secrets dir c b s).1
  unfolding put_secrets cluster_of effect may_touch same_part
  put_secrets-Did c b s plain =
      by_answer {A = Unit {0}} (λ _ s'. Same s s') (Did (puts_secrets c b) s) raise _
        (λ e s' m. (λ p _. m.same c p, record { others = λ d p _ _. m.same d p }))
        (λ u s' m.
          let x = write_secret dir (fs.join (fs.join dir (c ∷ [])) (file_of bundle ∷ [])) b s' in
          done s' m x.0 x.1 (write_secret-Wrote c bundle b s' plain))
        (fs.mkdir_all (fs.join dir (c ∷ [])) s).0 (fs.mkdir_all (fs.join dir (c ∷ [])) s).1
        record { same = λ d p. fs.mkdir_all_keeps _ _ s }
    where
      done :
          (s1 : fs.State)
          → Same s s1
          → (r : Result (Unit {0})) (s2 : fs.State) → Wrote c bundle b s1 r s2
          → Did (puts_secrets c b) s r s2
      done s1 m (ok u) s2 w = (own, record { others = λ d p h k. w.others d p h k ∙ m.same d p })
        where
          own : (p : Part) → file_contents s2 c p ≡ effect (puts_secrets c b) (file_contents s c) p
          own talos = w.rest talos refl ∙ m.same c talos
          own kube = w.rest kube refl ∙ m.same c kube
          own bundle = w.this refl
      done s1 m (err e) s2 w = (own, record { others = λ d p h k. w.others d p h k ∙ m.same d p })
        where
          own :
              (p : Part)
              → may_touch (puts_secrets c b) p ≡ false
              → file_contents s2 c p ≡ file_contents s c p
          own talos h = w.rest talos refl ∙ m.same c talos
          own kube h = w.rest kube refl ∙ m.same c kube
          own bundle h = cc

  -- A second write after a first that went through.
  put-Did :
      (c t k : Bytes) (s : fs.State)
      → is_plain c ≡ true
      → Did (puts c t k) s (put dir c t k s).0 (put dir c t k s).1
  unfolding put cluster_of effect may_touch same_part
  put-Did c t k s plain =
      by_answer {A = Unit {0}} (λ _ s'. Same s s') (Did (puts c t k) s) raise _
        (λ e s' m. (λ p _. m.same c p, record { others = λ d p _ _. m.same d p }))
        (λ u s1 m.
          by_answer {A = Unit {0}} (Wrote c talos t s1) (Did (puts c t k) s) raise _
            (λ e s2 w.
              (lost s1 m e s2 w, record { others = λ d p h n. w.others d p h n ∙ m.same d p }))
            (λ v s2 w.
              let x = write_secret dir (fs.join (fs.join dir (c ∷ [])) (file_of kube ∷ [])) k s2 in
              done s1 m v s2 w x.0 x.1 (write_secret-Wrote c kube k s2 plain))
            (write_secret dir (fs.join (fs.join dir (c ∷ [])) (file_of talos ∷ [])) t s1).0
            (write_secret dir (fs.join (fs.join dir (c ∷ [])) (file_of talos ∷ [])) t s1).1
            (write_secret-Wrote c talos t s1 plain))
        (fs.mkdir_all (fs.join dir (c ∷ [])) s).0 (fs.mkdir_all (fs.join dir (c ∷ [])) s).1
        record { same = λ d p. fs.mkdir_all_keeps _ _ s }
    where
      lost :
          (s1 : fs.State)
          → Same s s1
          → (e : Error) (s2 : fs.State) → Wrote c talos t s1 (err e) s2
          → (p : Part) → may_touch (puts c t k) p ≡ false
          → file_contents s2 c p ≡ file_contents s c p
      lost s1 m e s2 w talos h = cc
      lost s1 m e s2 w kube h = cc
      lost s1 m e s2 w bundle h = w.rest bundle refl ∙ m.same c bundle

      done :
          (s1 : fs.State)
          → Same s s1
          → (v : Unit {0}) (s2 : fs.State) → Wrote c talos t s1 (ok v) s2
          → (r : Result (Unit {0})) (s3 : fs.State) → Wrote c kube k s2 r s3
          → Did (puts c t k) s r s3
      done s1 m v s2 w (ok u) s3 x =
          (own, record { others = λ d p h n. x.others d p h n ∙ w.others d p h n ∙ m.same d p })
        where
          own : (p : Part) → file_contents s3 c p ≡ effect (puts c t k) (file_contents s c) p
          own talos = x.rest talos refl ∙ w.this refl
          own kube = x.this refl
          own bundle = x.rest bundle refl ∙ w.rest bundle refl ∙ m.same c bundle
      done s1 m v s2 w (err e) s3 x =
          (own, record { others = λ d p h n. x.others d p h n ∙ w.others d p h n ∙ m.same d p })
        where
          own :
              (p : Part)
              → may_touch (puts c t k) p ≡ false
              → file_contents s3 c p ≡ file_contents s c p
          own talos h = cc
          own kube h = cc
          own bundle h = x.rest bundle refl ∙ w.rest bundle refl ∙ m.same c bundle

  delete-Did :
      (c : Bytes) (s : fs.State)
      → is_plain c ≡ true
      → Did (deletes c) s (delete dir c s).0 (delete dir c s).1
  unfolding delete cluster_of effect may_touch
  delete-Did c s plain = rw (plain_nonempty c plain) (
      by_answer {A = Unit {0}} Removed (Did (deletes c) s)
        (λ e. raise (wrap "delete creds for %q: %w" (c ∷ []) e)) return (λ e s' x. (λ p h. cc, x.1))
        (λ u s' x. (λ p. x.0 p refl, x.1)) (fs.remove_all (fs.join dir (c ∷ [])) s).0
        (fs.remove_all (fs.join dir (c ∷ [])) s).1
        (
          λ p h. fs.remove_all_ok dir c (file_of p) s plain (file_of-plain p) h,
          record {
            others = λ d p h n.
                fs.remove_all_other dir c d (file_of p) s plain h (file_of-plain p) (apart c d n);
          },
        ))
    where
      Removed : Result (Unit {0}) → fs.State → Type 0
      Removed r s' =
          ((p : Part) → r ≡ ok tt → file_contents s' c p ≡ none)
          × Apart c (file_contents s) (file_contents s')

  read_named-Step :
      (c : Bytes) (p : Part) (s : fs.State)
      → let x = attempt (read_named dir c (file_of p)) raise (λ b. return (some b)) s in
        Step (reads p c) (file_contents s) (file_contents x.1) x.0
  unfolding read_named cluster_of effect answer may_touch
  read_named-Step c p s = on (fs.read_file (fs.join dir (c ∷ file_of p ∷ [])) s).0 refl
    where
      before : Contents
      before = file_contents s

      s' : fs.State
      s' = (fs.read_file (fs.join dir (c ∷ file_of p ∷ [])) s).1

      keeps : (d : Bytes) (q : Part) → file_contents s' d q ≡ before d q
      keeps d q = fs.read_file_keeps _ _ s

      on :
          (r : Result Bytes)
          → (fs.read_file (fs.join dir (c ∷ file_of p ∷ [])) s).0 ≡ r
          → let x =
              branch
                (branch r
                  (λ e. raise (wrap "read %s for %q: %w" (file_of p ∷ c ∷ []) e))
                  return
                  s').0
                raise
                (λ b. return (some b))
                (branch r
                  (λ e. raise (wrap "read %s for %q: %w" (file_of p ∷ c ∷ []) e))
                  return
                  s').1 in
            Step (reads p c) before (file_contents x.1) x.0
      on (ok b) q =
          went (some b) (sym (fs.read_file_ok _ b s q)) (keeps c)
            record { others = λ d n _ _. keeps d n }
      on (err e) q = failed _ (λ n _. keeps c n) record { others = λ d n _ _. keeps d n }

  -- Over a file system whose calls do what is documented of them, the file store refines a table
  -- of credentials, with a talosconfig, a kubeconfig and a secrets bundle for each cluster. For a
  -- cluster whose name is one plain path element, an operation that returns no error has done to
  -- the cluster's row exactly what it says, and answers with what the row held: a read changes
  -- nothing, Put replaces the two configs and leaves the secrets, PutSecrets the reverse, Delete
  -- clears the row. One that returns an error has changed at most the parts that it was to write.
  -- The rows of other plain names are never changed.
  pub file_store-Step :
      (op : Op) (s : fs.State)
      → is_plain (cluster_of op) ≡ true
      → Step op
          (file_contents s)
          (file_contents (run (file_operations dir) op s).1)
          (run (file_operations dir) op s).0
  unfolding run cluster_of answer
  file_store-Step (reads talos c) s h = read_named-Step c talos s
  file_store-Step (reads kube c) s h = read_named-Step c kube s
  file_store-Step (reads bundle c) s h = read_named-Step c bundle s
  file_store-Step (puts c t k) s h =
      write-Step file_contents (puts c t k) (put dir c t k) s refl (put-Did c t k s h)
  file_store-Step (puts_secrets c b) s h =
      write-Step file_contents (puts_secrets c b) (put_secrets dir c b) s refl
        (put_secrets-Did c b s h)
  file_store-Step (deletes c) s h =
      write-Step file_contents (deletes c) (delete dir c) s refl (delete-Did c s h)

  abbrev pub file_store : CredStore
  file_store = record {
    ops = file_operations dir;
    contents = file_contents;
    refines = file_store-Step;
  }
