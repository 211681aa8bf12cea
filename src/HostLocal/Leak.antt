-- ===== src/HostLocal/Leak.antt =====
-- What cmdAdd of plugins/ipam/host-local/main.go leaves behind where the file of the last address
-- (plugins/ipam/host-local/backend/disk/backend.go) cannot be written.
use village_net.Common.{
  ℕ, zero, suc, ◌+◌, ◌≡◌, refl, ◌∙◌, Bool, true, false, List, [], ◌∷◌, ◌++◌, append_assoc,
  append-nil, none, some, arith, text_eq_refl, ok, err, inl, inr, Fueled-state, Bool-cases,
  Option-cases, Result-cases,
}
use village_net.Net.{Ip, is_nil, ip_equal}
use village_net.HostLocal.Store.{Store, StoreLaws, Text, io_failure}
use village_net.HostLocal.Range.{canonicalize_ip}
use village_net.HostLocal.RangeSet.{RangeSet, range_for}
use village_net.HostLocal.Iter.{RangeIter, next, get_iter}
use village_net.HostLocal.Allocator.{
  IpAllocator, IpConfig, store_error, get, get_loop, get_requested, holds_one,
}
use village_net.HostLocal.Disk.Files.{Dir, lookup_file, put_file, lookup_file-put_file}
use village_net.HostLocal.Disk.{
  IpText, Faults, no_faults, entry_of, reserve, get_by_id, last_reserved_ip, store,
}
use village_net.HostLocal.Disk.Laws.{file_of, taken, store-StoreLaws}
use village_net.HostLocal.Commands.{
  not_allocated, distinct, take_requested, release_all, finish, add_sets, cmd_add,
}

-- All is well but for the file of the last address.
abbrev pub last_unwritable : Faults
last_unwritable = record no_faults { last_ip_error = true }

module _ {S : Type 0} (good bad : Store S) (held : S → Ip → Bool) (laws : StoreLaws good held)
    (id ifname : Text) (left : Ip → S → S)
    (same_ids : (s : S) → bad.get_by_id id ifname s ≡ good.get_by_id id ifname s)
    (same_last : (r : Text) (s : S) → bad.last_reserved_ip r s ≡ good.last_reserved_ip r s)
    (refused : (a : Ip) (r : Text) (s : S)
      → held s a ≡ true
      → bad.reserve id ifname a r s ≡ (ok false, s))
    (fails : (a : Ip) (r : Text) (s : S)
      → held s a ≡ false
      → bad.reserve id ifname a r s ≡ (err io_failure, left a s)) where
  get_loop-twin :
      (a : IpAllocator) (f : ℕ) (i : RangeIter) (s s' : S) (conf : IpConfig)
      → get_loop good a id ifname f i s ≡ some (ok conf, s')
      → (get_loop bad a id ifname f i s
          ≡ some (err (store_error io_failure), left conf.address.ip s))
        × (held s conf.address.ip ≡ false)
  unfolding get_loop
  get_loop-twin a zero i s s' conf e = absurd (ground (arith, e))
  get_loop-twin a (suc f) i s s' conf e = elim (Option-cases (next (suc f) i)) [
    | inl n ↦ absurd (ground (arith, n, e))
    | inr ((none, j), n) ↦ absurd (ground (arith, n, e))
    | inr ((some (net, gw), j), n) ↦ elim (Bool-cases (held s net.ip)) [
      | inl h ↦
          let taken_here = laws.reserve_taken id ifname net.ip a.range_id s h in
          let (rest, free) = get_loop-twin a f j s s' conf (ground (arith, n, taken_here, e)) in
          (ground (arith, n, refused net.ip a.range_id s h, rest), free)
      | inr h ↦
          let done = laws.reserve_free id ifname net.ip a.range_id s h in
          let same : conf.address.ip ≡ net.ip = ground (arith, n, done, e) in
          ground (arith, n, fails net.ip a.range_id s h, same, h)
    ]
  ]

  get_requested-twin :
      (a : IpAllocator) (ip : Ip) (s s' : S) (conf : IpConfig)
      → get_requested good a id ifname ip s ≡ (ok conf, s')
      → (get_requested bad a id ifname ip s
          ≡ (err (store_error io_failure), left conf.address.ip s))
        × (held s conf.address.ip ≡ false)
  unfolding get_requested
  get_requested-twin a ip s s' conf e = elim (Result-cases (canonicalize_ip ip)) [
    | inl (x, c) ↦ absurd (ground (arith, c, e))
    | inr (b, c) ↦ elim (Result-cases (range_for a.rangeset b)) [
      | inl (x, r) ↦ absurd (ground (arith, c, r, e))
      | inr (r, f) ↦ elim (Bool-cases (ip_equal b r.gateway)) [
        | inl g ↦ absurd (ground (arith, c, f, g, e))
        | inr g ↦ elim (Bool-cases (held s b)) [
          | inl h ↦
              absurd (ground (arith, c, f, g, e, laws.reserve_taken id ifname b a.range_id s h))
          | inr h ↦
              let done = laws.reserve_free id ifname b a.range_id s h in
              let same : conf.address.ip ≡ b = ground (arith, c, f, g, done, e) in
              ground (arith, c, f, g, fails b a.range_id s h, same, h)
        ]
      ]
    ]
  ]

  -- Where an allocator finds an address in the good store, it fails in the other, and what the
  -- failing reservation leaves stays.
  get-twin :
      (a : IpAllocator) (f : ℕ) (ip : Ip) (s s' : S) (conf : IpConfig)
      → get good a id ifname f ip s ≡ some (ok conf, s')
      → (get bad a id ifname f ip s ≡ some (err (store_error io_failure), left conf.address.ip s))
        × (held s conf.address.ip ≡ false)
  unfolding get
  get-twin a f ip s s' conf e = elim (Bool-cases (is_nil ip)) [
    | inr n ↦
        let (failed, free) = get_requested-twin a ip s s' conf (ground (arith, n, e)) in
        (rw (n, failed) refl, free)
    | inl n ↦ elim (Bool-cases (holds_one good a id ifname (good.get_by_id id ifname s))) [
      | inl h ↦ absurd (ground (arith, n, h, e))
      | inr h ↦
          let (failed, free) =
            get_loop-twin a f (get_iter a.rangeset (good.last_reserved_ip a.range_id s)) s s' conf
              (ground (arith, n, h, e)) in
          (rw (n, same_ids s, h, same_last a.range_id s, failed) refl, free)
    ]
  ]

  module _ (itoa : ℕ → Text) where
    -- The loop of cmdAdd keeps the addresses that it has.
    add_sets-keeps :
        (f n : ℕ) (ps : List RangeSet) (requested : List Ip) (ips r : List IpConfig) (s s' : S)
        → add_sets good itoa id ifname f n ps requested ips s ≡ some (ok r, s')
        → (rest : List IpConfig) × (r ≡ ips ++ rest)
    unfolding add_sets finish
    add_sets-keeps f n [] [] ips r s s' e = ([], ground (arith, e, append-nil ips))
    add_sets-keeps f n [] (ip ∷ requested) ips r s s' e = absurd (ground (arith, e))
    add_sets-keeps f n (p ∷ ps) requested ips r s s' e =
        let (ip, rem) = take_requested p requested in
        elim (Fueled-state
          (get good (record { rangeset = p; range_id = itoa n }) id ifname f ip s)) [
            | inl g ↦ absurd (ground (arith, g, e))
            | inr (inl (x, u, g)) ↦ absurd (ground (arith, g, e))
            | inr (inr (conf, u, g)) ↦
                let (rest, same) =
                  add_sets-keeps f (n + 1) ps rem (ips ++ (conf ∷ [])) r u s'
                    (ground (arith, g, e)) in
                (conf ∷ rest, same ∙ append_assoc ips (conf ∷ []) rest)
          ]

    -- The same for cmdAdd, whose first allocator fails: there is none to release before it.
    cmd_add-twin :
        (f : ℕ) (p : RangeSet) (ps : List RangeSet) (requested : List Ip) (r : List IpConfig)
        (s s' : S)
        → cmd_add good itoa id ifname f (p ∷ ps) requested s ≡ some (ok r, s')
        → (conf : IpConfig) × (rest : List IpConfig) × (r ≡ conf ∷ rest)
          × (cmd_add bad itoa id ifname f (p ∷ ps) requested s
              ≡ some (err not_allocated, left conf.address.ip s))
          × (held s conf.address.ip ≡ false)
    unfolding cmd_add add_sets release_all
    cmd_add-twin f p ps requested r s s' e =
        let (ip, rem) = take_requested p (distinct requested) in
        let a : IpAllocator = record { rangeset = p; range_id = itoa 0 } in
        elim (Fueled-state (get good a id ifname f ip s)) [
          | inl g ↦ absurd (ground (arith, g, e))
          | inr (inl (x, u, g)) ↦ absurd (ground (arith, g, e))
          | inr (inr (conf, u, g)) ↦
              let (rest, same) =
                add_sets-keeps f 1 ps rem (conf ∷ []) r u s' (ground (arith, g, e)) in
              let (failed, free) = get-twin a f ip s u conf g in
              (conf, rest, same, ground (arith, failed), free)
        ]

module _ (t : IpText) (windows : Bool) (id ifname : Text) where
  -- The directory with the container's entry under an address.
  abbrev held_by : Ip → Dir → Dir
  held_by ip d = put_file (file_of t windows ip) (entry_of id ifname) d

  get_by_id-same :
      (d : Dir)
      → get_by_id t windows last_unwritable id ifname d ≡ get_by_id t windows no_faults id ifname d
  unfolding get_by_id
  get_by_id-same [] = refl
  get_by_id-same (file ∷ d) = rw (get_by_id-same d) refl

  last_reserved_ip-same :
      (r : Text) (d : Dir)
      → last_reserved_ip t windows last_unwritable r d ≡ last_reserved_ip t windows no_faults r d
  unfolding last_reserved_ip
  last_reserved_ip-same r d = refl

  reserve_refused :
      (ip : Ip) (range_id : Text) (d : Dir)
      → taken t windows d ip ≡ true
      → reserve t windows last_unwritable id ifname ip range_id d ≡ (ok false, d)
  unfolding reserve taken
  reserve_refused ip range_id d h = ground arith

  reserve_unrecorded :
      (ip : Ip) (range_id : Text) (d : Dir)
      → taken t windows d ip ≡ false
      → reserve t windows last_unwritable id ifname ip range_id d ≡ (err io_failure, held_by ip d)
  unfolding reserve taken
  reserve_unrecorded ip range_id d free = ground arith

  module _ (itoa : ℕ → Text) where
    -- Where cmdAdd of host-local over at least one range set succeeds on a disk without faults,
    -- the same call on a disk whose last-address files cannot be written fails, and leaves a new
    -- file with the container's entry under the first address that the other call returns.
    pub cmd_add-leaks_entry :
        (f : ℕ) (p : RangeSet) (ps : List RangeSet) (requested : List Ip) (r : List IpConfig)
        (d d' : Dir)
        → cmd_add (store t windows no_faults) itoa id ifname f (p ∷ ps) requested d
          ≡ some (ok r, d')
        → (conf : IpConfig) × (rest : List IpConfig) × (bad : Dir) × (r ≡ conf ∷ rest)
          × (cmd_add (store t windows last_unwritable) itoa id ifname f (p ∷ ps) requested d
              ≡ some (err not_allocated, bad))
          × (lookup_file (file_of t windows conf.address.ip) d ≡ none)
          × (lookup_file (file_of t windows conf.address.ip) bad ≡ some (entry_of id ifname))
    unfolding taken
    cmd_add-leaks_entry f p ps requested r d d' e =
        let (conf, rest, same, failed, free) =
          cmd_add-twin (store t windows no_faults) (store t windows last_unwritable)
            (taken t windows) (store-StoreLaws t windows) id ifname held_by get_by_id-same
            last_reserved_ip-same reserve_refused reserve_unrecorded itoa f p ps requested r d d'
            e in
        (
          conf,
          rest,
          held_by conf.address.ip d,
          same,
          failed,
          ground (arith, free),
          rw (lookup_file-put_file, text_eq_refl) refl,
        )
