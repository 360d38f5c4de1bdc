-- ===== src/Examples/Disks.antt =====
-- Runs of internal/provision/matchbox and of internal/auth.
use medea.Prelude.{
  ◌≡◌, ◌==◌, ◌++◌, Bytes, Option, true, false, some, none, List, [], ◌∷◌, refl, bytes,
  if◌then◌else◌, eq_iff, eq_refl, ◌↔◌, ◌⊎◌, ℕ, arith,
}
use medea.Error.{Result, Error, ok, err, status, unauthenticated, Exec}
use medea.Matchbox.Disk.{Disk, removed}
use medea.Matchbox.Driver.{Server, host_files, unstage_files, stage_files, fetch_if_absent}
use medea.Matchbox.Files.{Cleared, unstage_files-Cleared}
use medea.Matchbox.Keys.{is_clean, key_for_safe}
use medea.Matchbox.Mirror.{Whole, fetched-Whole}
use medea.Matchbox.Driver.{key_for}
use medea.Auth.{Subtle, Metadata, Carries, intercept, intercept_exact}

abbrev Contents : Type 0
Contents = Bytes → Option Bytes

abbrev written : Bytes → Option Bytes → Contents → Contents
written p o s q = if p == q then o else s q

written-other :
    (p q : Bytes) (o : Option Bytes) (s : Contents) → (p == q) ≡ false → written p o s q ≡ s q
written-other p q o s h = rw h refl

written-same : (p : Bytes) (o : Option Bytes) (s : Contents) → written p o s p ≡ o
written-same p o s = rw (eq_refl p) refl

written-keeps : (p q : Bytes) (s : Contents) → s q ≡ none → written p none s q ≡ none
written-keeps p q s h = ground (arith, h)

renamed-other :
    (p q k : Bytes) (s : Contents)
    → (p == k) ≡ false
    → (q == k) ≡ false
    → written q (s p) (written p none s) k ≡ s k
renamed-other p q k s a b = rw (b, a) refl

renamed-refused :
    (p q k : Bytes) (e : Error) (s : Contents)
    → ◌≡◌ {A = Result (Unit {0})} (ok tt) (err e)
    → written q (s p) (written p none s) k ≡ s k
renamed-refused p q k e s h = cc

-- A disk in memory, in front of a server that answers every request.
-- The parts with a slash before each.
abbrev joined : List Bytes → Bytes
joined [] = []
joined (p ∷ ps) = 47 ∷ (p ++ joined ps)

instance abbrev lab_disk : Disk
lab_disk = record {
  State = Contents;
  read = λ p s. s p;
  write_file = λ p b s. (ok tt, written p (some b) s);
  remove = λ p s. (removed, written p none s);
  stat = λ p s. none;
  mkdir_all = λ p s. (ok tt, s);
  new_request = λ u. ok tt;
  get = λ u s. (ok (record { status = 200; body = bytes "kernel" }), s);
  create = λ p s. (ok tt, written p (some []) s);
  copy = λ p r s. (ok tt, written p (some r.body) s);
  close = λ p s. (ok tt, s);
  rename = λ p q s. (ok tt, written q (s p) (written p none s));
  parse_url = λ u. ok (record { scheme = bytes "https"; host = bytes "factory"; path = u });
  join = λ parts. joined parts;
  dir = λ p. p;
  marshal_profile = λ p. ok p.id;
  marshal_group = λ g. ok g.id;
  remove_other = λ p q s h. written-other p q none s h;
  remove_gone = λ p s h. written-same p none s;
  remove_missing = λ p s h. written-same p none s;
  remove_keeps = λ p q s h. written-keeps p q s h;
  mkdir_all_keeps = λ p q s. refl;
  get_keeps = λ u q s. refl;
  create_other = λ p q s h. written-other p q (some []) s h;
  copy_other = λ p q r s h. written-other p q (some r.body) s h;
  copy_whole = λ p r s h. written-same p (some r.body) s;
  close_keeps = λ p q s. refl;
  rename_other = λ p q k s a b. renamed-other p q k s a b;
  rename_refused = λ p q k e s h. renamed-refused p q k e s h;
  rename_moves = λ p q s h. written-same q (s p) (written p none s);
}

abbrev server : Server
server = record {
  root = bytes "data";
  http_url = bytes "http://10.0.0.5:8086";
  http_host = bytes "10.0.0.5:8086";
}

abbrev mac : Bytes
mac = bytes "AA:BB"

abbrev staged : Contents
staged =
    (stage_files server mac (record { kernel = bytes "/k"; initrd = []; args = [] })
      (bytes "config") (λ q. none)).1

unstage_files-Cleared_example : Cleared server mac staged (unstage_files server mac staged).1
unfolding unstage_files host_files
unstage_files-Cleared_example = unstage_files-Cleared server mac staged refl

fetched-Whole_example :
    Whole
      (bytes "https://factory/k")
      (bytes "data/assets/k")
      (staged (bytes "data/assets/k"))
      (fetch_if_absent (bytes "https://factory/k") (bytes "data/assets/k") staged).1
fetched-Whole_example = fetched-Whole (bytes "https://factory/k") (bytes "data/assets/k") staged

key_for_safe_example : (is_clean (key_for mac) ≡ true) × (key_for (key_for mac) ≡ key_for mac)
key_for_safe_example = key_for_safe mac

abbrev compared : Bytes → Bytes → ℕ
compared a b = if a == b then 1 else 0

compared-equal : (a b : Bytes) → (compared a b ≡ 1) ↔ (a ≡ b)
compared-equal a b = ground (arith, eq_iff a b)

instance abbrev lab_subtle : Subtle
lab_subtle = record { constant_time_compare = compared; equal = compared-equal }

abbrev request : Metadata
request = some (λ k. bytes "Bearer secret" ∷ [])

abbrev count_up : Exec ℕ ℕ
count_up n = (ok n, 7)

intercept_exact_example :
    (Carries (bytes "secret") request × (intercept (bytes "secret") request count_up 3 ≡ (ok 3, 7)))
    ⊎ ((Carries (bytes "secret") request → ⊥)
        × (intercept (bytes "secret") request count_up 3 ≡ (err (status unauthenticated), 3)))
intercept_exact_example = intercept_exact (bytes "secret") request count_up 3
