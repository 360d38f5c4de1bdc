-- ===== src/Matchbox/Driver.antt =====
-- Stage, Unstage and the mirror of internal/provision/matchbox/matchbox.go.
use medea.Prelude.{
  ℕ, Bytes, Bool, none, some, List, [], ◌∷◌, ◌++◌, map, bytes, ◌==◌, is_empty, nat_eq, ltb, leb,
  trim_prefix, if◌then◌else◌, ◌||◌, ◌&&◌, not,
}
use medea.Error.{errorf, wrap, Result, ok, err, Exec, return, raise, attempt, ◌>>◌}
use medea.Provision.Site.{Profile}
use medea.Provision.Bootstrap.{lower}
use medea.Matchbox.Disk.{Url, Response, removed, missing, refused, Disk}

-- The Store's fields that are values; the client is the disk's `get`.
pub record Server : Type 0 where
  pub root : Bytes
  pub http_url : Bytes
  pub http_host : Bytes

-- strings.NewReplacer(":", "-", "/", "-", " ", "-"), byte by byte.
unfoldable pub dashed : ℕ → ℕ
dashed c = if nat_eq c b':' || nat_eq c b'/' || nat_eq c b' ' then b'-' else c

-- Of an ASCII text.
unfoldable pub key_for : Bytes → Bytes
unfolding lower dashed
key_for mac = map dashed (map lower mac)

-- resp.StatusCode/100 == 2
abbrev pub is_success : ℕ → Bool
is_success status = leb 200 status && ltb status 300

abbrev pub groups_dir : Bytes
groups_dir = bytes "groups"

abbrev pub profiles_dir : Bytes
profiles_dir = bytes "profiles"

abbrev pub generic_dir : Bytes
generic_dir = bytes "generic"

abbrev pub assets_dir : Bytes
assets_dir = bytes "assets"

module _ ⦃disk : Disk⦄ where
  -- `v, err := f(...)` of a function that changes nothing.
  abbrev pub computed : {A : Type 0} → Result A → Exec disk.State A
  computed r s = (r, s)

  -- `_ = os.Remove(p)`
  abbrev pub discard : Bytes → Exec disk.State (Unit {0})
  discard p s = (ok tt, (disk.remove p s).1)

  -- `_ = f.Close()`
  abbrev pub abandon : Bytes → Exec disk.State (Unit {0})
  abandon p s = (ok tt, (disk.close p s).1)

  -- os.Remove, where a missing file is no error.
  abbrev pub remove_if_there : Bytes → Exec disk.State (Unit {0})
  remove_if_there p s =
      let (r, s') = disk.remove p s in
      elim r [
        | removed ↦ (ok tt, s')
        | missing ↦ (ok tt, s')
        | refused e ↦ (err (wrap "matchbox: remove %s: %w" (p ∷ []) e), s')
      ]

  -- The loop of Unstage.
  unfoldable pub remove_files : List Bytes → Exec disk.State (Unit {0})
  remove_files [] = return tt
  remove_files (f ∷ fs) = let rest = remove_files fs in attempt (remove_if_there f) raise λ _. rest

  -- The download to the temporary file, and its move to `dest`.
  unfoldable pub download : Bytes → Response → Exec disk.State (Unit {0})
  unfolding bytes
  download dest resp =
      let tmp = dest ++ bytes ".tmp" in
      attempt (disk.create tmp) raise λ _.
        attempt (disk.copy tmp resp)
          (λ e.
            abandon tmp >> discard tmp >> raise (wrap "matchbox: write asset %s: %w" (dest ∷ []) e))
          λ _. attempt (disk.close tmp) (λ e. discard tmp >> raise e) λ _. disk.rename tmp dest

  unfoldable pub fetch : Bytes → Bytes → Exec disk.State (Unit {0})
  unfolding download
  fetch src dest =
      attempt (disk.mkdir_all (disk.dir dest))
        (λ e. raise (wrap "matchbox: mkdir for asset: %w" [] e))
        λ _. attempt (computed (disk.new_request src)) raise λ _.
          attempt (disk.get src) (λ e. raise (wrap "matchbox: mirror %s: %w" (src ∷ []) e))
            λ resp.
              if is_success resp.status
              then download dest resp
              else raise (errorf "matchbox: mirror %s: status %d" (src ∷ []))

  unfoldable pub fetch_if_absent : Bytes → Bytes → Exec disk.State (Unit {0})
  unfolding fetch
  fetch_if_absent src dest s = elim (disk.stat dest s) [
    | none ↦ fetch src dest s
    | some size ↦ if ltb 0 size then (ok tt, s) else fetch src dest s
  ]

  module _ (m : Server) where
    unfoldable pub path : Bytes → Bytes → Bytes
    path dir name = disk.join (m.root ∷ dir ∷ name ∷ [])

    abbrev pub is_foreign : Url → Bool
    is_foreign u =
        (not (u.scheme == bytes "http") && not (u.scheme == bytes "https")) || u.host == m.http_host

    unfoldable pub mirror : Bytes → Exec disk.State Bytes
    unfolding trim_prefix fetch_if_absent bytes
    mirror raw =
        if is_empty raw
        then return []
        else attempt (computed (disk.parse_url raw))
            (λ e. raise (wrap "matchbox: parse boot asset %q: %w" (raw ∷ []) e))
            λ u.
              if is_foreign u
              then return raw
              else attempt
                  (fetch_if_absent raw
                    (disk.join (m.root ∷ assets_dir ∷ trim_prefix u.path (bytes "/") ∷ [])))
                  raise
                  λ _. return (
                    m.http_url
                    ++ (bytes "/" ++ (assets_dir ++ (bytes "/" ++ trim_prefix u.path (bytes "/")))))

    unfoldable pub mirror_all : List Bytes → Exec disk.State (List Bytes)
    unfolding mirror
    mirror_all [] = return []
    mirror_all (i ∷ is) =
        let rest = mirror_all is in
        attempt (mirror i) raise λ li. attempt rest raise λ more. return (li ∷ more)

    unfoldable pub write_json : Bytes → Bytes → Result Bytes → Exec disk.State (Unit {0})
    unfolding path bytes
    write_json dir key marshalled =
        attempt (computed marshalled) raise
          λ raw. disk.write_file (path dir (key ++ bytes ".json")) raw

    unfoldable pub config_arg : Bytes
    unfolding bytes
    config_arg =
        bytes "talos.config="
        ++ (m.http_url ++ bytes "/generic?mac=${net0/mac:hexhyp}&uuid=${uuid}")

    unfoldable pub stage_files : Bytes → Profile → Bytes → Exec disk.State (Unit {0})
    unfolding key_for path mirror mirror_all write_json config_arg bytes
    stage_files mac p config =
        if is_empty mac
        then raise (errorf "matchbox: empty mac" [])
        else attempt (disk.write_file (path generic_dir (key_for mac)) config)
            (λ e. raise (wrap "matchbox: write generic config: %w" [] e))
            λ _. attempt (mirror p.kernel) raise λ kernel.
              attempt (mirror_all p.initrd) raise λ initrd.
                attempt
                  (write_json profiles_dir (key_for mac) (
                    disk.marshal_profile (record {
                      id = key_for mac;
                      name = key_for mac;
                      kernel = kernel;
                      initrd = initrd;
                      args = p.args ++ (config_arg ∷ []);
                      generic_id = key_for mac;
                    })))
                  raise
                  λ _. write_json groups_dir (key_for mac) (
                    disk.marshal_group (record {
                      id = key_for mac;
                      name = key_for mac;
                      profile = key_for mac;
                      selector = (bytes "mac", mac) ∷ [];
                    }))

    -- The list of files that Unstage goes through.
    unfoldable pub host_files : Bytes → List Bytes
    unfolding key_for path bytes
    host_files mac =
        path groups_dir (key_for mac ++ bytes ".json")
        ∷ path profiles_dir (key_for mac ++ bytes ".json")
        ∷ path generic_dir (key_for mac)
        ∷ []

    unfoldable pub unstage_files : Bytes → Exec disk.State (Unit {0})
    unfolding host_files remove_files
    unstage_files mac = remove_files (host_files mac)
