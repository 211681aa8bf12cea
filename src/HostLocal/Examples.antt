-- ===== src/HostLocal/Examples.antt =====
-- The allocator and the store on disk at concrete ranges, addresses and directories.
use village_net.Common.{
  ℕ, ◌≤◌, ◌<◌, ◌≡◌, ◌⊎◌, inl, inr, refl, true, false, ◌||◌, [], ◌∷◌, ◌++◌, none, some, arith,
  length, All, ok, err, codes, text_eq, zero, suc, Bool-cases, ◌==◌, ==_iff,
}
use village_net.Net.{Ip, to4, to16, ip_equal, net_contains}
use village_net.Net.Bytes.{set_bytes, bytes_loop}
use village_net.Cidr.{next_ip, ip_to_int, int_to_ip, cmp, prev_ip}
use village_net.Cidr.Steps.{IsAddr, IsAddr-eq, next_ip-prev_ip}
use village_net.HostLocal.Range
use village_net.HostLocal.Range.{Range, canonicalize_ip, contains_canonical}
use village_net.HostLocal.RangeSet
use village_net.HostLocal.RangeSet.{RangeSet, range_for}
use village_net.HostLocal.Store.{StoreLaws, Text, not_exist}
use village_net.HostLocal.Iter.{
  nth, find_index, get_iter, next, advance, arrive, move_on, candidate,
}
use village_net.HostLocal.Iter.Visits.{IsUsable, all_addresses, addresses, interval}
use village_net.HostLocal.Iter.Resumed.{after, before}
use village_net.HostLocal.Allocator.{IpAllocator, get, get_loop, none_available, config_of}
use village_net.HostLocal.Allocator.Reference.{first_free, allocation}
use village_net.HostLocal.Allocator.Get.{get-first_free, get-resumed, get-none_available}
use village_net.HostLocal.Allocator.Endless.{get-endless, IsFull}
use village_net.HostLocal.Disk.{
  IpText, find_by_key, find_by_id, no_faults, store, entry_of, get_escaped_path, reserve,
  last_reserved_ip, get_by_id, release_by_id,
}
use village_net.HostLocal.Disk.Files.{Dir, lookup_file, put_file, trim_space}
use village_net.HostLocal.Disk.Laws.{
  taken, store-StoreLaws, reserve-release, find-release_by_id, lookup_file-release_by_id,
  lookup_file-reserve,
}

-- A text of addresses: their bytes.
abbrev raw_text : IpText
raw_text = record { format = λ ip. ip; parse = to16 }

abbrev ip_10 : ℕ → ℕ → Ip
ip_10 b d = 10 ∷ b ∷ 0 ∷ d ∷ []

abbrev range_10 : ℕ → ℕ → Range
range_10 b last = record {
  range_start = ip_10 b 1;
  range_end = ip_10 b last;
  subnet = record { ip = ip_10 b 0; mask = 255 ∷ 255 ∷ 255 ∷ 0 ∷ [] };
  gateway = ip_10 b 1;
}

abbrev small : IpAllocator
small = record { rangeset = range_10 0 3 ∷ []; range_id = codes "0" }

abbrev two : IpAllocator
two = record { rangeset = range_10 0 2 ∷ range_10 1 2 ∷ []; range_id = codes "0" }

abbrev id : Text
id = codes "c1"

abbrev ifname : Text
ifname = codes "eth0"

-- The first address is the gateway, so the second is reserved.
get_first :
    get (store raw_text false no_faults) small id ifname 5 [] []
    ≡ some (
      ok (config_of (record { ip = ip_10 0 2; mask = 255 ∷ 255 ∷ 255 ∷ 0 ∷ [] }) (ip_10 0 1)),
      (ip_10 0 2, entry_of id ifname) ∷ (codes "last_reserved_ip.0", ip_10 0 2) ∷ [],
    )
unfolding get get_loop get_iter next advance arrive move_on candidate reserve last_reserved_ip
    get_by_id put_file lookup_file text_eq ip_equal to4 next_ip ip_to_int int_to_ip set_bytes
    bytes_loop get_escaped_path
get_first = refl

addr : (b d : ℕ) → b < 256 → d < 256 → IsAddr 3 (ip_10 b d)
unfolding set_bytes
addr b d h k = record { family = inl refl; len = refl; bytes = omega arith; leading = omega arith }

usable : (b last : ℕ) → b < 256 → 1 ≤ last → last < 256 → IsUsable 3 (range_10 b last)
unfolding set_bytes
usable b last h lo hi = record {
  starts = addr b 1 h (omega arith);
  ends = addr b last h hi;
  ordered = omega arith;
}

get-first_free_example :
    get (store raw_text false no_faults) small id ifname 5 [] []
    ≡ some (
        allocation
          (store raw_text false no_faults)
          small
          id
          ifname
          []
          (first_free (taken raw_text false []) (all_addresses small.rangeset)))
unfolding get_by_id last_reserved_ip lookup_file all_addresses addresses interval set_bytes
get-first_free_example =
    get-first_free (store raw_text false no_faults) small id ifname (store-StoreLaws raw_text false)
      5 [] (range_10 0 3) [] not_exist refl
      (usable 0 3 (omega arith) (omega arith) (omega arith), tt) refl refl (omega arith)

next_ip-prev_ip_example : next_ip (prev_ip (ip_10 0 1)) ≡ ip_10 0 1
unfolding set_bytes
next_ip-prev_ip_example = next_ip-prev_ip (addr 0 1 (omega arith) (omega arith)) (omega arith)

-- Both ranges of `two` are used up, and the end of the first was reserved last.
abbrev used_up : Dir
used_up =
    (ip_10 0 2, entry_of (codes "c0") ifname)
    ∷ (ip_10 1 2, entry_of (codes "c0") ifname)
    ∷ (codes "last_reserved_ip.0", ip_10 0 2)
    ∷ []

-- An address between 10.b.0.1 and 10.b.0.2 is the gateway or the other one.
between :
    (b : ℕ) (x : Ip)
    → b < 256
    → IsAddr 3 x
    → set_bytes (ip_10 b 1) ≤ set_bytes x
    → set_bytes x ≤ set_bytes (ip_10 b 2)
    → (x ≡ ip_10 b 1) ⊎ (x ≡ ip_10 b 2)
unfolding set_bytes
between b x h v lo hi = elim (Bool-cases (set_bytes x == set_bytes (ip_10 b 1))) [
  | inl e ↦ inl (IsAddr-eq v (addr b 1 h (omega arith)) ((==_iff _ _).0 e))
  | inr e ↦ inr (IsAddr-eq v (addr b 2 h (omega arith)) (ground arith))
]

used_up-IsFull : IsFull (taken raw_text false used_up) 3 two.rangeset
unfolding taken lookup_file ip_equal text_eq get_escaped_path
used_up-IsFull zero x h v lo hi = elim (between 0 x (omega arith) v lo hi) [
  | inl e ↦ rw e
  | inr e ↦ rw e
]
used_up-IsFull (suc zero) x h v lo hi = elim (between 1 x (omega arith) v lo hi) [
  | inl e ↦ rw e
  | inr e ↦ rw e
]
used_up-IsFull (suc (suc j)) x h v lo hi = absurd (omega arith)

two-IsUsable : (j : ℕ) → j < length two.rangeset → IsUsable 3 (nth two.rangeset j)
two-IsUsable zero h = usable 0 2 (omega arith) (omega arith) (omega arith)
two-IsUsable (suc zero) h = usable 1 2 (omega arith) (omega arith) (omega arith)
two-IsUsable (suc (suc j)) h = absurd (omega arith)

get-endless_example : get (store raw_text false no_faults) two id ifname 1000 [] used_up ≡ none
unfolding get_by_id last_reserved_ip lookup_file text_eq set_bytes find_index ip_equal to4 to16
    get_escaped_path entry_of trim_space Range.contains RangeSet.contains range_for canonicalize_ip
    contains_canonical net_contains cmp ip_to_int
get-endless_example =
    get-endless (store raw_text false no_faults) two id ifname (store-StoreLaws raw_text false)
      used_up 1000 (to16 (ip_10 0 2)) 0 two-IsUsable used_up-IsFull (omega arith) refl refl refl
      refl refl refl (inr (omega arith))

abbrev all_held : Dir
all_held =
    (ip_10 0 2, entry_of (codes "c0") ifname) ∷ (ip_10 0 3, entry_of (codes "c0") ifname) ∷ []

none_left :
    get (store raw_text false no_faults) small id ifname 5 [] all_held
    ≡ some (err none_available, all_held)
unfolding get get_loop get_iter next advance arrive move_on candidate reserve last_reserved_ip
    get_by_id put_file lookup_file text_eq ip_equal to4 next_ip ip_to_int int_to_ip set_bytes
    bytes_loop get_escaped_path entry_of trim_space
none_left = refl

get-none_available_example :
    All
      (λ (q : Range).
        (x : Ip)
        → IsAddr 3 x
        → set_bytes q.range_start ≤ set_bytes x
        → set_bytes x ≤ set_bytes q.range_end
        → (ip_equal x q.gateway || taken raw_text false all_held x) ≡ true)
      small.rangeset
unfolding get_by_id last_reserved_ip lookup_file all_addresses addresses interval set_bytes text_eq
    get_escaped_path entry_of trim_space
get-none_available_example =
    get-none_available (store raw_text false no_faults) small id ifname
      (store-StoreLaws raw_text false) 5 all_held all_held (range_10 0 3) [] not_exist refl
      (usable 0 3 (omega arith) (omega arith) (omega arith), tt) refl refl (omega arith) none_left

-- The second address was reserved last, and released since.
abbrev released : Dir
released = (codes "last_reserved_ip.0", ip_10 0 2) ∷ []

get-resumed_example :
    get (store raw_text false no_faults) small id ifname 5 [] released
    ≡ some (
        allocation (store raw_text false no_faults) small id ifname released (
          first_free
            (taken raw_text false released)
            (after (range_10 0 3) [] (ip_10 0 2) ++ ([] ++ before (range_10 0 3) (ip_10 0 2)))))
unfolding get_by_id last_reserved_ip lookup_file text_eq set_bytes find_index ip_equal to4 to16
    get_escaped_path entry_of trim_space Range.contains RangeSet.contains range_for canonicalize_ip
    contains_canonical net_contains cmp ip_to_int next_ip int_to_ip bytes_loop all_addresses
    addresses interval
get-resumed_example =
    get-resumed (store raw_text false no_faults) small id ifname (store-StoreLaws raw_text false) 5
      released [] [] (range_10 0 3) (to16 (ip_10 0 2)) (ip_10 0 2) refl tt
      (usable 0 3 (omega arith) (omega arith) (omega arith)) tt refl refl refl refl refl
      (addr 0 2 (omega arith) (omega arith)) refl refl (omega arith) (omega arith) (omega arith)

reserve-release_example :
    (taken raw_text false
        (reserve raw_text false no_faults id ifname (ip_10 0 2) (codes "0") []).1
        (ip_10 0 2)
      ≡ true)
    × (taken raw_text false
          (release_by_id raw_text false no_faults id ifname
            (reserve raw_text false no_faults id ifname (ip_10 0 2) (codes "0") []).1).1
          (ip_10 0 2)
        ≡ false)
unfolding taken lookup_file get_escaped_path text_eq entry_of trim_space
reserve-release_example =
    reserve-release raw_text false id ifname (codes "0") (ip_10 0 2) [] tt refl refl refl

lookup_file-reserve_example :
    lookup_file
      (codes "last_reserved_ip.0")
      (reserve raw_text false no_faults id ifname (ip_10 0 2) (codes "0") []).1
    ≡ some (ip_10 0 2)
unfolding taken lookup_file get_escaped_path text_eq
lookup_file-reserve_example =
    lookup_file-reserve raw_text false id ifname (codes "0") (ip_10 0 2) []
      (codes "last_reserved_ip.0") refl

find-release_by_id_example :
    let d' = (release_by_id raw_text false no_faults id ifname all_held).1 in
    (find_by_key raw_text false no_faults (entry_of id ifname) d' ≡ false)
    × (find_by_key raw_text false no_faults (entry_of id ifname) all_held ≡ false
        → find_by_id raw_text false no_faults id ifname d' ≡ false)
find-release_by_id_example = find-release_by_id raw_text false id ifname all_held

lookup_file-release_by_id_example :
    lookup_file (ip_10 0 2) (release_by_id raw_text false no_faults id ifname all_held).1
    ≡ some (entry_of (codes "c0") ifname)
unfolding lookup_file text_eq entry_of trim_space
lookup_file-release_by_id_example =
    lookup_file-release_by_id raw_text false id ifname all_held (ip_10 0 2)
      (entry_of (codes "c0") ifname) refl refl refl

store-StoreLaws_example : StoreLaws (store raw_text false no_faults) (taken raw_text false)
store-StoreLaws_example = store-StoreLaws raw_text false
