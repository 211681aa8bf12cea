-- ===== src/HostLocal/Disk.antt =====
-- plugins/ipam/host-local/backend/disk/backend.go: the store that keeps one file for each address
-- in the network's directory. A directory is the list of its files in the order of a walk.
pub mod Files
pub mod Laws
use village_net.Common.{
  ℕ, Bool, true, false, not, ◌&&◌, ◌||◌, List, [], ◌∷◌, ◌++◌, Option, none, some, ◌==◌,
  if◌then◌else◌, text_eq, codes, Result, ok, err, map,
}
use village_net.Net.{Ip, is_nil}
use village_net.HostLocal.Store.{Store, Text, IoError, not_exist, io_failure}
use Files.{Dir, lookup_file, put_file, remove_file, trim_space}

-- The text of addresses: `IP.String` and `net.ParseIP`, which returns nil for any other text.
pub record IpText : Type 0 where
  pub format : Ip → Text
  pub parse : Text → Ip

-- What the operating system does to one call: `write_error` holds what was written before it, and
-- `last_ip_error` is a write of the last address that leaves nothing behind, as where its file
-- cannot be opened.
pub record Faults : Type 0 where
  pub open_error : Bool
  pub write_error : Option Text
  pub close_error : Bool
  pub last_ip_error : Bool
  pub unreadable : Text → Bool
  pub undeletable : Text → Bool

abbrev pub no_faults : Faults
no_faults = record {
  open_error = false;
  write_error = none;
  close_error = false;
  last_ip_error = false;
  unreadable = λ _. false;
  undeletable = λ _. false;
}

abbrev pub line_break : Text
line_break = 13 ∷ 10 ∷ []

abbrev pub last_ip_file_prefix : Text
last_ip_file_prefix = codes "last_reserved_ip."

-- GetEscapedPath, within the directory: Windows allows no colon in a name.
unfoldable pub get_escaped_path : Bool → Text → Text
get_escaped_path windows fname =
    if windows then map (λ c. if c == b':' then b'_' else c) fname else fname

-- The contents of an address's file.
unfoldable pub entry_of : Text → Text → Text
entry_of id ifname = trim_space id ++ (line_break ++ ifname)

module _ (t : IpText) (windows : Bool) (faults : Faults) where
  abbrev remove_unless_fails : Text → Dir → Dir
  remove_unless_fails name d = if faults.undeletable name then d else remove_file name d

  -- Store.Reserve from the write on, the file being open and empty.
  abbrev reserve_open : Text → Text → Ip → Text → Dir → Result IoError Bool × Dir
  reserve_open id ifname ip range_id d =
      let fname = get_escaped_path windows (t.format ip) in
      let written = put_file fname (entry_of id ifname) d in
      elim faults.write_error [
        | some partial ↦ (err io_failure, remove_unless_fails fname (put_file fname partial d))
        | none ↦
            if faults.close_error
            then (err io_failure, remove_unless_fails fname written)
            else if faults.last_ip_error
            then (err io_failure, written)
            else (
              ok true,
              put_file (get_escaped_path windows (last_ip_file_prefix ++ range_id)) (t.format ip)
                  written,
            )
      ]

  unfoldable pub reserve : Text → Text → Ip → Text → Dir → Result IoError Bool × Dir
  reserve id ifname ip range_id d = elim (lookup_file (get_escaped_path windows (t.format ip)) d) [
    | some content ↦ (ok false, d)
    | none ↦ if faults.open_error then (err io_failure, d) else reserve_open id ifname ip range_id d
  ]

  unfoldable pub last_reserved_ip : Text → Dir → Result IoError Ip
  last_reserved_ip range_id d =
      let fname = get_escaped_path windows (last_ip_file_prefix ++ range_id) in
      elim (lookup_file fname d) [
        | none ↦ err not_exist
        | some content ↦ if faults.unreadable fname then err io_failure else ok (t.parse content)
      ]

  -- Store.Release
  unfoldable pub release : Ip → Dir → Result IoError (Unit {0}) × Dir
  release ip d =
      let fname = get_escaped_path windows (t.format ip) in
      elim (lookup_file fname d) [
        | none ↦ (err not_exist, d)
        | some content ↦
            if faults.undeletable fname then (err io_failure, d) else (ok tt, remove_file fname d)
      ]

  -- The test of the walks: a file that cannot be read does not match.
  abbrev pub matches : Text → Text × Text → Bool
  matches key (name, content) = not (faults.unreadable name) && text_eq (trim_space content) key

  -- The walk of FindByKey; the walk functions return no error, so that no walk does.
  unfoldable pub find_by_key : Text → Dir → Bool
  find_by_key key [] = false
  find_by_key key (file ∷ d) = matches key file || find_by_key key d

  unfoldable pub find_by_id : Text → Text → Dir → Bool
  find_by_id id ifname d = find_by_key (entry_of id ifname) d || find_by_key (trim_space id) d

  -- The walk of ReleaseByKey: whether a file was removed, and the files that stay.
  unfoldable pub release_by_key : Text → Dir → Bool × Dir
  release_by_key key [] = (false, [])
  release_by_key key ((name, content) ∷ d) =
      let (found, rest) = release_by_key key d in
      if matches key (name, content) && not (faults.undeletable name)
      then (true, rest)
      else (found, (name, content) ∷ rest)

  unfoldable pub release_by_id : Text → Text → Dir → Result IoError (Unit {0}) × Dir
  release_by_id id ifname d =
      let (found, d') = release_by_key (entry_of id ifname) d in
      (ok tt, if found then d' else (release_by_key (trim_space id) d').1)

  unfoldable pub get_by_id : Text → Text → Dir → List Ip
  get_by_id id ifname [] = []
  get_by_id id ifname ((name, content) ∷ d) =
      let ips = get_by_id id ifname d in
      let ip = t.parse name in
      if (matches (entry_of id ifname) (name, content) || matches (trim_space id) (name, content))
        && not (is_nil ip)
      then ip ∷ ips
      else ips

  -- The store as the allocator sees it.
  abbrev pub store : Store Dir
  store = record {
    reserve = reserve;
    last_reserved_ip = last_reserved_ip;
    get_by_id = get_by_id;
    release_by_id = release_by_id;
  }
