-- ===== src/Creds/FileStore.antt =====
-- FileStore of internal/creds/creds.go, over a file system.
use medea.Prelude.{
  Bytes, true, Option, none, some, List, [], ◌∷◌, ◌≡◌, ◌≢◌, is_empty, if◌then◌else◌,
}
use medea.Error.{errorf, wrap, Result, ok, Exec, return, raise, attempt}
use medea.Creds.Interface.{Operations, talos, kube, bundle, file_of, is_plain}

-- What creds.go uses of the packages os and path/filepath. `read` is what a file holds; `remove_all`
-- removes what is below a path, and a failed write may have changed its own file.
pub record FileSystem : Type 1 where
  pub State : Type 0
  pub FilePath : Type 0
  pub join : FilePath → List Bytes → FilePath
  pub read : FilePath → State → Option Bytes
  pub read_file : FilePath → State → Result Bytes × State
  pub write_file : FilePath → Bytes → State → Result (Unit {0}) × State
  pub mkdir_all : FilePath → State → Result (Unit {0}) × State
  pub remove_all : FilePath → State → Result (Unit {0}) × State
  pub join_join :
      (p : FilePath) (a b : Bytes) → join (join p (a ∷ [])) (b ∷ []) ≡ join p (a ∷ b ∷ [])
  pub join_apart :
      (p : FilePath) (a a' b b' : Bytes)
      → is_plain a ≡ true
      → is_plain a' ≡ true
      → is_plain b ≡ true
      → is_plain b' ≡ true
      → join p (a ∷ b ∷ []) ≡ join p (a' ∷ b' ∷ [])
      → (a ≡ a') × (b ≡ b')
  pub read_file_ok :
      (p : FilePath) (b : Bytes) (s : State) → (read_file p s).0 ≡ ok b → read p s ≡ some b
  pub read_file_keeps : (p q : FilePath) (s : State) → read q (read_file p s).1 ≡ read q s
  pub mkdir_all_keeps : (p q : FilePath) (s : State) → read q (mkdir_all p s).1 ≡ read q s
  pub write_file_ok :
      (p : FilePath) (b : Bytes) (s : State)
      → (write_file p b s).0 ≡ ok tt
      → read p (write_file p b s).1 ≡ some b
  pub write_file_other :
      (p q : FilePath) (b : Bytes) (s : State) → p ≢ q → read q (write_file p b s).1 ≡ read q s
  pub remove_all_ok :
      (p : FilePath) (a b : Bytes) (s : State)
      → is_plain a ≡ true
      → is_plain b ≡ true
      → (remove_all (join p (a ∷ [])) s).0 ≡ ok tt
      → read (join p (a ∷ b ∷ [])) (remove_all (join p (a ∷ [])) s).1 ≡ none
  pub remove_all_other :
      (p : FilePath) (a a' b : Bytes) (s : State)
      → is_plain a ≡ true
      → is_plain a' ≡ true
      → is_plain b ≡ true
      → a ≢ a'
      → read (join p (a' ∷ b ∷ [])) (remove_all (join p (a ∷ [])) s).1
        ≡ read (join p (a' ∷ b ∷ [])) s

module _ ⦃fs : FileSystem⦄ (dir : fs.FilePath) where
  unfoldable pub read_named : Bytes → Bytes → Exec fs.State Bytes
  read_named cluster name =
      attempt (fs.read_file (fs.join dir (cluster ∷ name ∷ [])))
        (λ e. raise (wrap "read %s for %q: %w" (name ∷ cluster ∷ []) e)) return

  unfoldable pub write_secret : fs.FilePath → Bytes → Exec fs.State (Unit {0})
  write_secret path content = fs.write_file path content

  unfoldable pub put : Bytes → Bytes → Bytes → Exec fs.State (Unit {0})
  unfolding write_secret file_of
  put cluster t k =
      let sub = fs.join dir (cluster ∷ []) in
      attempt (fs.mkdir_all sub) raise λ _.
        attempt (write_secret (fs.join sub (file_of talos ∷ [])) t) raise
          λ _. write_secret (fs.join sub (file_of kube ∷ [])) k

  unfoldable pub put_secrets : Bytes → Bytes → Exec fs.State (Unit {0})
  unfolding write_secret file_of
  put_secrets cluster b =
      let sub = fs.join dir (cluster ∷ []) in
      attempt (fs.mkdir_all sub) raise λ _. write_secret (fs.join sub (file_of bundle ∷ [])) b

  unfoldable pub delete : Bytes → Exec fs.State (Unit {0})
  delete cluster =
      if is_empty cluster
      then raise (errorf "creds: cluster required" [])
      else attempt (fs.remove_all (fs.join dir (cluster ∷ [])))
          (λ e. raise (wrap "delete creds for %q: %w" (cluster ∷ []) e)) return

  abbrev pub file_operations : Operations
  file_operations = record {
    State = fs.State;
    talos_config = λ c. read_named c (file_of talos);
    kube_config = λ c. read_named c (file_of kube);
    secrets = λ c. read_named c (file_of bundle);
    put = put;
    put_secrets = put_secrets;
    delete = delete;
  }

-- NewFileStore
unfoldable pub new_file_store : ⦃fs : FileSystem⦄ → fs.FilePath → Exec fs.State fs.FilePath
new_file_store ⦃fs⦄ dir =
    attempt (fs.mkdir_all dir) (λ e. raise (wrap "creds dir: %w" [] e)) (λ _. return dir)
