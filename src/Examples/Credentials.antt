-- ===== src/Examples/Credentials.antt =====
-- Runs of internal/creds, on a file system in memory.
use medea.Prelude.{
  Bytes, Bool, true, false, Option, none, some, List, [], ◌∷◌, ◌++◌, ◌≡◌, ◌≢◌, refl, ap, ◌==◌, ◌&&◌,
  if◌then◌else◌, eq_iff, eq_refl, arith, bytes,
}
use medea.Error.{Result, ok, err, fault}
use medea.Bolt.{find}
use medea.Talos.Image.{contains_byte}
use medea.Creds.Interface.{is_plain, Step, reads, puts, deletes, cluster_of, run, kube, file_of}
use medea.Creds.FileStore.{FileSystem, read_named, put, file_operations}
use medea.Creds.Filed.{file_contents, file_store, file_store-Step}
use medea.Creds.Migrate.{migrate}
use medea.Creds.Copied.{Migrated, migrate-Migrated}
use medea.Creds.Sdk.{ItemField, set_fields}
use medea.Creds.Fields.{value_of, are_distinct, or_else, set_fields_exact}

abbrev Names : Type 0
Names = List Bytes

abbrev same_path : Names → Names → Bool
same_path [] [] = true
same_path [] (b ∷ q) = false
same_path (a ∷ p) [] = false
same_path (a ∷ p) (b ∷ q) = a == b && same_path p q

same_path_eq : (p q : Names) → same_path p q ≡ true → p ≡ q
same_path_eq [] [] h = refl
same_path_eq [] (b ∷ q) h = cc
same_path_eq (a ∷ p) [] h = cc
same_path_eq (a ∷ p) (b ∷ q) h = ground (arith, eq_iff a b, same_path_eq p q)

same_path_refl : (p : Names) → same_path p p ≡ true
same_path_refl [] = refl
same_path_refl (a ∷ p) = rw (eq_refl a, same_path_refl p) refl

same_path_ne : (p q : Names) → p ≢ q → same_path p q ≡ false
same_path_ne p q h = on (same_path p q) refl
  where
    on : (b : Bool) → same_path p q ≡ b → b ≡ false
    on true e = absurd (h (same_path_eq p q e))
    on false e = refl

abbrev is_below : Names → Names → Bool
is_below [] q = true
is_below (a ∷ p) [] = false
is_below (a ∷ p) (b ∷ q) = a == b && is_below p q

below_own : (p : Names) (a b : Bytes) → is_below (p ++ a ∷ []) (p ++ a ∷ b ∷ []) ≡ true
below_own [] a b = rw (eq_refl a) refl
below_own (c ∷ p) a b = rw (eq_refl c, below_own p a b) refl

below_other : (p : Names) (a c b : Bytes) → a ≢ c → is_below (p ++ a ∷ []) (p ++ c ∷ b ∷ []) ≡ false
below_other [] a c b h = on (a == c) refl
  where
    on : (x : Bool) → (a == c) ≡ x → (x && true) ≡ false
    on true e = absurd (h ((eq_iff a c).0 e))
    on false e = refl
below_other (d ∷ p) a c b h = rw (eq_refl d, below_other p a c b h) refl

joined : (p : Names) (a b : Bytes) → (p ++ a ∷ []) ++ b ∷ [] ≡ p ++ a ∷ b ∷ []
joined [] a b = refl
joined (c ∷ p) a b = ap (λ q. c ∷ q) (joined p a b)

join_inj :
    (p : Names) (a a' b b' : Bytes) → p ++ a ∷ b ∷ [] ≡ p ++ a' ∷ b' ∷ [] → (a ≡ a') × (b ≡ b')
join_inj [] a a' b b' h = (cc h, cc h)
join_inj (c ∷ p) a a' b b' h = join_inj p a a' b b' (cc h)

abbrev Held : Type 0
Held = Names → Option Bytes

abbrev read_held : Names → Held → Result Bytes × Held
read_held p s = elim (s p) [ none ↦ (err (fault []), s) | some b ↦ (ok b, s) ]

read_held_ok : (p : Names) (b : Bytes) (s : Held) → (read_held p s).0 ≡ ok b → s p ≡ some b
read_held_ok p b s = on (s p)
  where
    on :
        (o : Option Bytes)
        → (elim o as (λ _. Result Bytes × Held) [
          | none ↦ (err (fault []), s)
          | some b ↦ (ok b, s)
        ]).0
          ≡ ok b
        → o ≡ some b
    on none h = cc
    on (some x) h = cc

read_held_keeps : (p q : Names) (s : Held) → (read_held p s).1 q ≡ s q
read_held_keeps p q s = on (s p)
  where
    on :
        (o : Option Bytes)
        → (elim o as (λ _. Result Bytes × Held) [
          | none ↦ (err (fault []), s)
          | some b ↦ (ok b, s)
        ]).1
            q
          ≡ s q
    on none = refl
    on (some x) = refl

instance abbrev lab_files : FileSystem
lab_files = record {
  State = Held;
  FilePath = Names;
  join = λ p l. p ++ l;
  read = λ p s. s p;
  read_file = read_held;
  write_file = λ p b s. (ok tt, λ q. if same_path p q then some b else s q);
  mkdir_all = λ p s. (ok tt, s);
  remove_all = λ p s. (ok tt, λ q. if is_below p q then none else s q);
  join_join = joined;
  join_apart = λ p a a' b b' _ _ _ _ h. join_inj p a a' b b' h;
  read_file_ok = read_held_ok;
  read_file_keeps = read_held_keeps;
  mkdir_all_keeps = λ p q s. refl;
  write_file_ok = λ p b s _. rw (same_path_refl p) refl;
  write_file_other = λ p q b s h. rw (same_path_ne p q h) refl;
  remove_all_ok = λ p a b s _ _ _. rw (below_own p a b) refl;
  remove_all_other = λ p a a' b s _ _ _ h. rw (below_other p a a' b h) refl;
}

abbrev Fields : Type 0
Fields = Bytes → Bytes → Bytes → Option Bytes

abbrev home : Bytes
home = bytes "home"

home-plain : is_plain home ≡ true
unfolding is_plain bytes ◌==◌ contains_byte
home-plain = refl

abbrev no_files : Held
no_files p = none

-- The directory after the files of a cluster were put.
abbrev stored : Held
stored = (run (file_operations (bytes "creds" ∷ [])) (puts home (bytes "t") (bytes "k")) no_files).1

put_then_read :
    (run (file_operations (bytes "creds" ∷ [])) (reads kube home) stored).0 ≡ ok (some (bytes "k"))
unfolding run bytes ◌==◌ file_of read_named put
put_then_read = refl

file_store-Step_example :
    Step
      (deletes home)
      (file_contents (bytes "creds" ∷ []) stored)
      (file_contents
        (bytes "creds" ∷ [])
        (run (file_operations (bytes "creds" ∷ [])) (deletes home) stored).1)
      (run (file_operations (bytes "creds" ∷ [])) (deletes home) stored).0
unfolding cluster_of
file_store-Step_example = file_store-Step (bytes "creds" ∷ []) (deletes home) stored home-plain

migrate-Migrated_example :
    Migrated
      (file_store (bytes "creds" ∷ []))
      (file_store (bytes "spare" ∷ []))
      home
      home-plain
      (stored, no_files)
      (migrate
        (file_operations (bytes "creds" ∷ []))
        (file_operations (bytes "spare" ∷ []))
        home
        (stored, no_files)).1
      (migrate
        (file_operations (bytes "creds" ∷ []))
        (file_operations (bytes "spare" ∷ []))
        home
        (stored, no_files)).0
migrate-Migrated_example =
    migrate-Migrated (file_store (bytes "creds" ∷ [])) (file_store (bytes "spare" ∷ [])) home
      home-plain (stored, no_files)

abbrev old_fields : List ItemField
old_fields = record { id = bytes "x"; title = bytes "kubeconfig"; value = bytes "old" } ∷ []

abbrev new_fields : List (Bytes × Bytes)
new_fields = (bytes "talosconfig", bytes "t") ∷ (bytes "kubeconfig", bytes "k") ∷ []

set_fields_exact_example :
    value_of (bytes "kubeconfig") (set_fields new_fields old_fields)
    ≡ or_else (find (bytes "kubeconfig") new_fields) (value_of (bytes "kubeconfig") old_fields)
unfolding are_distinct find bytes ◌==◌
set_fields_exact_example = set_fields_exact new_fields old_fields (bytes "kubeconfig") refl
