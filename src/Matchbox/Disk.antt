-- ===== src/Matchbox/Disk.antt =====
-- What internal/provision/matchbox/matchbox.go uses of the packages os, net/http, net/url,
-- path/filepath and encoding/json.
use medea.Prelude.{ℕ, Bytes, false, Option, none, some, List, ◌≡◌, ◌==◌}
use medea.Error.{Error, Result, ok, err}

-- url.URL
pub record Url : Type 0 where
  pub scheme : Bytes
  pub host : Bytes
  pub path : Bytes

-- http.Response
pub record Response : Type 0 where
  pub status : ℕ
  pub body : Bytes

-- How os.Remove ends: `missing` is an error of which os.IsNotExist holds.
pub data Removal : Type 0 where
  removed missing : Removal
  refused : Error → Removal

-- profile with its bootSpec, and group.
pub record BootProfile : Type 0 where
  pub id : Bytes
  pub name : Bytes
  pub kernel : Bytes
  pub initrd : List Bytes
  pub args : List Bytes
  pub generic_id : Bytes

pub record Group : Type 0 where
  pub id : Bytes
  pub name : Bytes
  pub profile : Bytes
  pub selector : List (Bytes × Bytes)

-- The file system, the network and the pure functions. `create`, `copy` and `close` are the calls on
-- the temporary file, by its path. `read` is what a file holds.
pub record Disk : Type 1 where
  pub State : Type 0
  pub read : Bytes → State → Option Bytes
  pub write_file : Bytes → Bytes → State → Result (Unit {0}) × State
  pub remove : Bytes → State → Removal × State
  pub stat : Bytes → State → Option ℕ
  pub mkdir_all : Bytes → State → Result (Unit {0}) × State
  pub new_request : Bytes → Result (Unit {0})
  pub get : Bytes → State → Result Response × State
  pub create : Bytes → State → Result (Unit {0}) × State
  pub copy : Bytes → Response → State → Result (Unit {0}) × State
  pub close : Bytes → State → Result (Unit {0}) × State
  pub rename : Bytes → Bytes → State → Result (Unit {0}) × State
  pub parse_url : Bytes → Result Url
  pub join : List Bytes → Bytes
  pub dir : Bytes → Bytes
  pub marshal_profile : BootProfile → Result Bytes
  pub marshal_group : Group → Result Bytes
  -- A call on one file leaves the others, and those that only look leave all.
  pub remove_other : (p q : Bytes) (s : State) → (p == q) ≡ false → read q (remove p s).1 ≡ read q s
  pub remove_gone :
      (p : Bytes) (s : State) → (remove p s).0 ≡ removed → read p (remove p s).1 ≡ none
  pub remove_missing :
      (p : Bytes) (s : State) → (remove p s).0 ≡ missing → read p (remove p s).1 ≡ none
  pub remove_keeps : (p q : Bytes) (s : State) → read q s ≡ none → read q (remove p s).1 ≡ none
  pub mkdir_all_keeps : (p q : Bytes) (s : State) → read q (mkdir_all p s).1 ≡ read q s
  pub get_keeps : (u q : Bytes) (s : State) → read q (get u s).1 ≡ read q s
  pub create_other : (p q : Bytes) (s : State) → (p == q) ≡ false → read q (create p s).1 ≡ read q s
  pub copy_other :
      (p q : Bytes) (r : Response) (s : State) → (p == q) ≡ false → read q (copy p r s).1 ≡ read q s
  pub copy_whole :
      (p : Bytes) (r : Response) (s : State)
      → (copy p r s).0 ≡ ok tt
      → read p (copy p r s).1 ≡ some r.body
  pub close_keeps : (p q : Bytes) (s : State) → read q (close p s).1 ≡ read q s
  pub rename_other :
      (p q k : Bytes) (s : State)
      → (p == k) ≡ false
      → (q == k) ≡ false
      → read k (rename p q s).1 ≡ read k s
  pub rename_refused :
      (p q k : Bytes) (e : Error) (s : State)
      → (rename p q s).0 ≡ err e
      → read k (rename p q s).1 ≡ read k s
  pub rename_moves :
      (p q : Bytes) (s : State) → (rename p q s).0 ≡ ok tt → read q (rename p q s).1 ≡ read p s
