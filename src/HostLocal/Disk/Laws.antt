-- ===== src/HostLocal/Disk/Laws.antt =====
-- What the store on disk does: it fills the allocator's interface, a reservation can be found and
-- released, and no walk matches it then.
use village_net.Common.{
  ◌≡◌, inl, inr, refl, Bool, true, false, [], ◌∷◌, ◌++◌, Option, none, some, arith, if◌then◌else◌,
  Option-cases, ◌∙◌, text_eq, text_eq_iff, text_eq_refl,
}
use village_net.Net.{Ip}
use village_net.HostLocal.Store.{StoreLaws, Text}
use village_net.HostLocal.Disk.Files.{Dir, lookup_file, put_file, trim_space, lookup_file-put_file}
use village_net.HostLocal.Disk.{
  IpText, no_faults, last_ip_file_prefix, get_escaped_path, entry_of, reserve, release_by_key,
  release_by_id, find_by_key, find_by_id, store,
}

abbrev is_held : Option Text → Bool
is_held none = false
is_held (some content) = true

module _ (t : IpText) (windows : Bool) where
  -- The name of an address's file, and of the file of the last address of a range set.
  abbrev pub file_of : Ip → Text
  file_of ip = get_escaped_path windows (t.format ip)

  abbrev pub last_file_of : Text → Text
  last_file_of range_id = get_escaped_path windows (last_ip_file_prefix ++ range_id)

  -- An address is taken if its file is there.
  unfoldable pub taken : Dir → Ip → Bool
  taken d ip = is_held (lookup_file (file_of ip) d)

  -- Without faults the store on disk keeps the laws that the allocator relies on: reserving a
  -- taken address is refused and changes nothing, and reserving a free one succeeds.
  pub store-StoreLaws : StoreLaws (store t windows no_faults) taken
  unfolding reserve taken
  store-StoreLaws = record {
    reserve_taken = λ id ifname a range_id s h. ground arith;
    reserve_free = λ id ifname a range_id s h. ground arith;
  }

  -- Without faults, reserving an address that is not taken writes the container's entry to the
  -- address's file and the address to the file of the last address, and leaves every other file
  -- as it was.
  pub lookup_file-reserve :
      (id ifname range_id : Text) (ip : Ip) (d : Dir) (j : Text)
      → taken d ip ≡ false
      → lookup_file j (reserve t windows no_faults id ifname ip range_id d).1 ≡ (
          if text_eq (last_file_of range_id) j
          then some (t.format ip)
          else if text_eq (file_of ip) j
          then some (entry_of id ifname)
          else lookup_file j d)
  unfolding reserve taken
  lookup_file-reserve id ifname range_id ip d j free =
      elim (Option-cases (lookup_file (file_of ip) d)) [
        | inl e ↦ rw (e, reserve) (simp lookup_file-put_file)
        | inr (c, e) ↦ absurd (clash (rw e at free))
      ]
    where
      clash : true ≡ false → ⊥
      clash q = cc

  -- The walk of a release removes the files that match, and says whether there were any.
  pub release_by_key_lem :
      (key : Text) (d : Dir)
      → ((release_by_key t windows no_faults key d).0 ≡ find_by_key t windows no_faults key d)
        × (find_by_key t windows no_faults key (release_by_key t windows no_faults key d).1 ≡ false)
  unfolding release_by_key find_by_key
  release_by_key_lem key [] = (refl, refl)
  release_by_key_lem key ((name, content) ∷ d) = ground (arith, release_by_key_lem key d)

  -- What one walk leaves has no new matches for another key.
  find_by_key-release :
      (key other : Text) (d : Dir)
      → find_by_key t windows no_faults other d ≡ false
      → find_by_key t windows no_faults other (release_by_key t windows no_faults key d).1 ≡ false
  unfolding release_by_key find_by_key
  find_by_key-release key other [] h = refl
  find_by_key-release key other ((name, content) ∷ d) h =
      ground (arith, find_by_key-release key other d)

  -- A file whose contents do not match stays as it is.
  lookup_file-release_by_key :
      (key : Text) (d : Dir) (j content : Text)
      → lookup_file j d ≡ some content
      → text_eq (trim_space content) key ≡ false
      → lookup_file j (release_by_key t windows no_faults key d).1 ≡ some content
  unfolding release_by_key lookup_file
  lookup_file-release_by_key key [] j content e other = cc
  lookup_file-release_by_key key ((name, c) ∷ d) j content e other =
      ground (arith, lookup_file-release_by_key key d j content)

  -- Without faults, after ReleaseByID no file holds the entry of the container and the interface,
  -- and where there was none before, FindByID finds nothing in the old format either.
  pub find-release_by_id :
      (id ifname : Text) (d : Dir)
      → let d' = (release_by_id t windows no_faults id ifname d).1 in
        (find_by_key t windows no_faults (entry_of id ifname) d' ≡ false)
        × (find_by_key t windows no_faults (entry_of id ifname) d ≡ false
            → find_by_id t windows no_faults id ifname d' ≡ false)
  unfolding release_by_id find_by_id
  find-release_by_id id ifname d =
      let key = entry_of id ifname in
      let d1 = (release_by_key t windows no_faults key d).1 in
      (
        ground (arith, release_by_key_lem key d, find_by_key-release (trim_space id) key d1),
        λ h. ground (
          arith,
          release_by_key_lem key d,
          release_by_key_lem (trim_space id) d1,
          find_by_key-release (trim_space id) key d1,
        ),
      )

  -- Without faults, ReleaseByID keeps every file whose trimmed contents are neither the entry of
  -- the container and the interface nor the container's identifier alone.
  pub lookup_file-release_by_id :
      (id ifname : Text) (d : Dir) (j content : Text)
      → lookup_file j d ≡ some content
      → text_eq (trim_space content) (entry_of id ifname) ≡ false
      → text_eq (trim_space content) (trim_space id) ≡ false
      → lookup_file j (release_by_id t windows no_faults id ifname d).1 ≡ some content
  unfolding release_by_id
  lookup_file-release_by_id id ifname d j content e new old = ground (
    arith,
    lookup_file-release_by_key (entry_of id ifname) d j content,
    lookup_file-release_by_key (trim_space id)
        (release_by_key t windows no_faults (entry_of id ifname) d).1 j content,
  )

-- The names of a directory's files are distinct.
abbrev pub HasDistinctNames : Dir → Type 0
HasDistinctNames [] = Unit
HasDistinctNames ((name, content) ∷ d) = (lookup_file name d ≡ none) × HasDistinctNames d

put_file-HasDistinctNames :
    (name content : Text) (d : Dir)
    → HasDistinctNames d
    → HasDistinctNames (put_file name content d)
unfolding put_file lookup_file
put_file-HasDistinctNames name content [] h = (refl, tt)
put_file-HasDistinctNames name content ((n, c) ∷ d) h = ground (
  arith,
  put_file-HasDistinctNames name content d h.1,
  lookup_file-put_file name n content d,
  text_eq_iff n name,
  text_eq_iff name n,
)

module _ (t : IpText) (windows : Bool) where
  release-none :
      (key : Text) (d : Dir) (j : Text)
      → lookup_file j d ≡ none
      → lookup_file j (release_by_key t windows no_faults key d).1 ≡ none
  unfolding release_by_key lookup_file
  release-none key [] j h = refl
  release-none key ((name, content) ∷ d) j h = ground (arith, release-none key d j)

  -- A walk of a release removes a file whose contents match.
  release-removes :
      (key : Text) (d : Dir) (j content : Text)
      → HasDistinctNames d
      → lookup_file j d ≡ some content
      → trim_space content ≡ key
      → lookup_file j (release_by_key t windows no_faults key d).1 ≡ none
  unfolding release_by_key lookup_file
  release-removes key [] j content h e m = cc
  release-removes key ((name, c) ∷ d) j content h e m = ground (
    arith,
    release-removes key d j content h.1,
    release-none key d j,
    text_eq_iff name j,
    text_eq_iff (trim_space c) key,
    text_eq_iff (trim_space content) key,
  )

  reserve-HasDistinctNames :
      (id ifname range_id : Text) (ip : Ip) (d : Dir)
      → HasDistinctNames d
      → HasDistinctNames (reserve t windows no_faults id ifname ip range_id d).1
  unfolding reserve
  reserve-HasDistinctNames id ifname range_id ip d h = ground (
    arith,
    put_file-HasDistinctNames (file_of t windows ip) (entry_of id ifname) d h,
    put_file-HasDistinctNames (last_file_of t windows range_id) (t.format ip)
        (put_file (file_of t windows ip) (entry_of id ifname) d),
  )

  -- Without faults, in a directory of distinct names, for an address that is not taken, whose
  -- file is not that of the last address, and an entry that trimming does not change, the address
  -- is taken after Reserve and free again after ReleaseByID.
  pub reserve-release :
      (id ifname range_id : Text) (ip : Ip) (d : Dir)
      → HasDistinctNames d
      → taken t windows d ip ≡ false
      → text_eq (last_file_of t windows range_id) (file_of t windows ip) ≡ false
      → trim_space (entry_of id ifname) ≡ entry_of id ifname
      → (taken t windows (reserve t windows no_faults id ifname ip range_id d).1 ip ≡ true)
        × (taken t windows
              (release_by_id t windows no_faults id ifname
                (reserve t windows no_faults id ifname ip range_id d).1).1
              ip
            ≡ false)
  unfolding taken release_by_id
  reserve-release id ifname range_id ip d h free other trim =
      let d1 = (reserve t windows no_faults id ifname ip range_id d).1 in
      let there : lookup_file (file_of t windows ip) d1 ≡ some (entry_of id ifname) =
        lookup_file-reserve t windows id ifname range_id ip d (file_of t windows ip) free
        ∙ rw (other, text_eq_refl) in
      let gone =
        release-removes (entry_of id ifname) d1 (file_of t windows ip) (entry_of id ifname)
          (reserve-HasDistinctNames id ifname range_id ip d h) there trim in
      (
        rw there,
        ground (
          arith,
          gone,
          release-none (trim_space id)
              (release_by_key t windows no_faults (entry_of id ifname) d1).1 (file_of t windows ip),
        ),
      )
