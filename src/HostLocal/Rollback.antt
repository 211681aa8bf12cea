-- ===== src/HostLocal/Rollback.antt =====
-- What cmdAdd and cmdDel of plugins/ipam/host-local/main.go leave in the store.
use village_net.Common.{
  ℕ, zero, suc, ◌+◌, ◌<◌, ◌≡◌, ◌⊎◌, refl, subst, Bool, false, List, [], ◌∷◌, ◌++◌, none, some,
  arith, length, length-append, ok, err, inl, inr, Fueled-state, Bool-cases, Option-cases,
  Result-cases,
}
use village_net.Net.{Ip, is_nil, ip_equal}
use village_net.HostLocal.Store.{Store, StoreLaws, Text}
use village_net.HostLocal.Range.{canonicalize_ip}
use village_net.HostLocal.RangeSet.{RangeSet, range_for}
use village_net.HostLocal.Iter.{RangeIter, next, get_iter}
use village_net.HostLocal.Allocator.{
  IpAllocator, IpConfig, Error, get, get_loop, get_requested, holds_one, release,
}
use village_net.HostLocal.Disk.Files.{Dir}
use village_net.HostLocal.Disk.{IpText, no_faults, entry_of, find_by_key, release_by_id, store}
use village_net.HostLocal.Disk.Laws.{taken, store-StoreLaws, find-release_by_id}
use village_net.HostLocal.Commands.{
  CommandError, distinct, take_requested, release_all, finish, add_sets, cmd_add, del_sets, cmd_del,
}

module _ {S : Type 0} (st : Store S) (held : S → Ip → Bool) (laws : StoreLaws st held) where
  -- An allocator that fails leaves the store as it was, for a refused reservation does.
  get_loop_unchanged :
      (a : IpAllocator) (id ifname : Text) (f : ℕ) (i : RangeIter) (s s' : S) (e : Error)
      → get_loop st a id ifname f i s ≡ some (err e, s')
      → s' ≡ s
  unfolding get_loop
  get_loop_unchanged a id ifname zero i s s' e q = cc
  get_loop_unchanged a id ifname (suc f) i s s' e q = elim (Option-cases (next (suc f) i)) [
    | inl n ↦ absurd (ground (arith, n, q))
    | inr ((none, j), n) ↦ ground (arith, n, q)
    | inr ((some (net, gw), j), n) ↦ elim (Bool-cases (held s net.ip)) [
      | inl t ↦
          let refused = laws.reserve_taken id ifname net.ip a.range_id s t in
          get_loop_unchanged a id ifname f j s s' e (ground (arith, n, refused, q))
      | inr u ↦ absurd (ground (arith, n, laws.reserve_free id ifname net.ip a.range_id s u, q))
    ]
  ]

  get_requested_unchanged :
      (a : IpAllocator) (id ifname : Text) (ip : Ip) (s s' : S) (e : Error)
      → get_requested st a id ifname ip s ≡ (err e, s')
      → s' ≡ s
  unfolding get_requested
  get_requested_unchanged a id ifname ip s s' e q = elim (Result-cases (canonicalize_ip ip)) [
    | inl (x, c) ↦ ground (arith, c, q)
    | inr (b, c) ↦ elim (Result-cases (range_for a.rangeset b)) [
      | inl (x, r) ↦ ground (arith, c, r, q)
      | inr (r, f) ↦ elim (Bool-cases (ip_equal b r.gateway)) [
        | inl g ↦ ground (arith, c, f, g, q)
        | inr g ↦ elim (Bool-cases (held s b)) [
          | inl t ↦ ground (arith, c, f, g, q, laws.reserve_taken id ifname b a.range_id s t)
          | inr u ↦
              absurd (ground (arith, c, f, g, q, laws.reserve_free id ifname b a.range_id s u))
        ]
      ]
    ]
  ]

  get_unchanged :
      (a : IpAllocator) (id ifname : Text) (f : ℕ) (ip : Ip) (s s' : S) (e : Error)
      → get st a id ifname f ip s ≡ some (err e, s')
      → s' ≡ s
  unfolding get
  get_unchanged a id ifname f ip s s' e q = elim (Bool-cases (is_nil ip)) [
    | inr t ↦ get_requested_unchanged a id ifname ip s s' e (ground (arith, t, q))
    | inl t ↦ elim (Bool-cases (holds_one st a id ifname (st.get_by_id id ifname s))) [
      | inl h ↦ ground (arith, t, h, q)
      | inr h ↦
          get_loop_unchanged a id ifname f (get_iter a.rangeset (st.last_reserved_ip a.range_id s))
            s s' e (ground (arith, t, h, q))
    ]
  ]

  module _ (itoa : ℕ → Text) (id ifname : Text) (IsFree : S → Type 0)
      (frees : (s : S) → IsFree (st.release_by_id id ifname s).1) where
    release_all-IsFree :
        (n : ℕ) (s : S) → IsFree s ⊎ (0 < n) → IsFree (release_all st itoa id ifname n s)
    unfolding release_all
    release_all-IsFree zero s (inl w) = w
    release_all-IsFree zero s (inr h) = absurd (omega (arith, h))
    release_all-IsFree (suc n) s w =
        release_all-IsFree n (st.release_by_id id ifname s).1 (inl (frees s))

    finish-IsFree :
        (n : ℕ) (requested : List Ip) (ips : List IpConfig) (s s' : S) (e : CommandError)
        → IsFree s ⊎ (0 < n)
        → finish st itoa id ifname n requested ips s ≡ (err e, s')
        → IsFree s'
    unfolding finish
    finish-IsFree n [] ips s s' e w q = absurd (ground (arith, q))
    finish-IsFree n (ip ∷ requested) ips s s' e w q =
        subst IsFree (ground (arith, q)) (release_all-IsFree n s w)

    add_sets-IsFree :
        (f n : ℕ) (ps : List RangeSet) (requested : List Ip) (ips : List IpConfig) (s s' : S)
        (e : CommandError)
        → IsFree s ⊎ (0 < n)
        → add_sets st itoa id ifname f n ps requested ips s ≡ some (err e, s')
        → IsFree s'
    unfolding add_sets
    add_sets-IsFree f n [] requested ips s s' e w q =
        finish-IsFree n requested ips s s' e w (ground (arith, q))
    add_sets-IsFree f n (p ∷ ps) requested ips s s' e w q =
        let (ip, left) = take_requested p requested in
        elim (Fueled-state (get st (record { rangeset = p; range_id = itoa n }) id ifname f ip s)) [
          | inl g ↦ absurd (ground (arith, g, q))
          | inr (inl (x, t, g)) ↦
              let same =
                get_unchanged (record { rangeset = p; range_id = itoa n }) id ifname f ip s t x g in
              subst IsFree (ground (arith, g, same, q)) (release_all-IsFree n s w)
          | inr (inr (conf, t, g)) ↦
              add_sets-IsFree f (n + 1) ps left (ips ++ (conf ∷ [])) t s' e (inr (omega arith))
                (ground (arith, g, q))
        ]

    -- For any store that keeps its laws and any predicate that a release by the id makes true, a failing
    -- cmdAdd keeps the predicate.
    pub cmd_add-IsFree :
        (f : ℕ) (ps : List RangeSet) (requested : List Ip) (s s' : S) (e : CommandError)
        → IsFree s
        → cmd_add st itoa id ifname f ps requested s ≡ some (err e, s')
        → IsFree s'
    unfolding cmd_add
    cmd_add-IsFree f ps requested s s' e w q =
        add_sets-IsFree f 0 ps (distinct requested) [] s s' e (inl w) q

module _ {S : Type 0} (st : Store S) (itoa : ℕ → Text) (id ifname : Text) where
  length-add_sets :
      (f n : ℕ) (ps : List RangeSet) (requested : List Ip) (ips r : List IpConfig) (s s' : S)
      → add_sets st itoa id ifname f n ps requested ips s ≡ some (ok r, s')
      → length r ≡ length ips + length ps
  unfolding add_sets finish
  length-add_sets f n [] [] ips r s s' q = ground (arith, q)
  length-add_sets f n [] (ip ∷ requested) ips r s s' q = absurd (ground (arith, q))
  length-add_sets f n (p ∷ ps) requested ips r s s' q =
      let (ip, left) = take_requested p requested in
      elim (Fueled-state (get st (record { rangeset = p; range_id = itoa n }) id ifname f ip s)) [
        | inl g ↦ absurd (ground (arith, g, q))
        | inr (inl (x, t, g)) ↦ absurd (ground (arith, g, q))
        | inr (inr (conf, t, g)) ↦ omega (
          arith,
          length-append ips (conf ∷ []),
          length-add_sets f (n + 1) ps left (ips ++ (conf ∷ [])) r t s' (ground (arith, g, q)),
        )
      ]

  -- Where cmdAdd succeeds, its result has one address for each range set.
  pub length-cmd_add :
      (f : ℕ) (ps : List RangeSet) (requested : List Ip) (r : List IpConfig) (s s' : S)
      → cmd_add st itoa id ifname f ps requested s ≡ some (ok r, s')
      → length r ≡ length ps
  unfolding cmd_add
  length-cmd_add f ps requested r s s' q =
      omega (arith, length-add_sets f 0 ps (distinct requested) [] r s s' q)

module _ (t : IpText) (windows : Bool) (itoa : ℕ → Text) (id ifname : Text) where
  -- On a disk without faults where the container's interface holds no address, a cmdAdd of
  -- host-local that fails, at whichever range set or for a requested address that is in none,
  -- leaves no file of that container and interface.
  pub cmd_add-rolls_back :
      (f : ℕ) (ps : List RangeSet) (requested : List Ip) (d d' : Dir) (e : CommandError)
      → find_by_key t windows no_faults (entry_of id ifname) d ≡ false
      → cmd_add (store t windows no_faults) itoa id ifname f ps requested d ≡ some (err e, d')
      → find_by_key t windows no_faults (entry_of id ifname) d' ≡ false
  cmd_add-rolls_back =
      cmd_add-IsFree (store t windows no_faults) (taken t windows) (store-StoreLaws t windows) itoa
        id ifname (λ d. find_by_key t windows no_faults (entry_of id ifname) d ≡ false)
        (λ d. (find-release_by_id t windows id ifname d).0)

  del_sets-frees :
      (n : ℕ) (ps : List RangeSet) (d : Dir)
      → (find_by_key t windows no_faults (entry_of id ifname) d ≡ false) ⊎ (0 < length ps)
      → ((del_sets (store t windows no_faults) itoa id ifname n false ps d).0 ≡ ok tt)
        × (find_by_key t windows no_faults
              (entry_of id ifname)
              (del_sets (store t windows no_faults) itoa id ifname n false ps d).1
            ≡ false)
  unfolding del_sets release release_by_id
  del_sets-frees n [] d (inl w) = (refl, w)
  del_sets-frees n [] d (inr h) = absurd (omega (arith, h))
  del_sets-frees n (p ∷ ps) d w =
      del_sets-frees (n + 1) ps (release_by_id t windows no_faults id ifname d).1
        (inl (find-release_by_id t windows id ifname d).0)

  -- On a disk without faults cmdDel of host-local over at least one range set succeeds and leaves
  -- no file of the container's interface.
  pub cmd_del-frees :
      (ps : List RangeSet) (d : Dir)
      → 0 < length ps
      → ((cmd_del (store t windows no_faults) itoa id ifname ps d).0 ≡ ok tt)
        × (find_by_key t windows no_faults
              (entry_of id ifname)
              (cmd_del (store t windows no_faults) itoa id ifname ps d).1
            ≡ false)
  unfolding cmd_del
  cmd_del-frees ps d h = del_sets-frees 0 ps d (inr h)
