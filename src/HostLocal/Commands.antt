-- ===== src/HostLocal/Commands.antt =====
-- plugins/ipam/host-local/main.go: the commands over a store, whose lock is held through each.
use village_net.Common.{
  ℕ, zero, suc, ◌+◌, Bool, true, false, List, [], ◌∷◌, ◌++◌, Option, none, some, if◌then◌else◌,
  text_eq, Result, ok, err,
}
use village_net.Net.{Ip}
use village_net.HostLocal.Store.{Store, Text}
use village_net.HostLocal.RangeSet
use village_net.HostLocal.RangeSet.{RangeSet}
use village_net.HostLocal.Allocator.{IpAllocator, IpConfig, get, release}

pub data CommandError : Type 0 where
  not_allocated requested_left no_address not_released : CommandError

-- The map of requested addresses: each stands once. Go visits a map in any order, so that the
-- commands are taken for each order of the list.
abbrev member : Ip → List Ip → Bool
member a [] = false
member a (b ∷ bs) = if text_eq a b then true else member a bs

unfoldable pub distinct : List Ip → List Ip
distinct [] = []
distinct (ip ∷ ips) = let rest = distinct ips in if member ip rest then rest else ip ∷ rest

-- The first requested address of a range set, and the others; nil if there is none.
unfoldable pub take_requested : RangeSet → List Ip → Ip × List Ip
take_requested p [] = ([], [])
take_requested p (ip ∷ ips) =
    let (found, rest) = take_requested p ips in
    if RangeSet.contains p ip then (ip, ips) else (found, ip ∷ rest)

module _ {S : Type 0} (st : Store S) (itoa : ℕ → Text) (id ifname : Text) where
  abbrev allocator_of : RangeSet → ℕ → IpAllocator
  allocator_of p idx = record { rangeset = p; range_id = itoa idx }

  -- The release by each allocator that was used; the errors are dropped.
  unfoldable pub release_all : ℕ → S → S
  release_all zero s = s
  release_all (suc n) s = release_all n (st.release_by_id id ifname s).1

  -- Behind the loop: what was requested and not found in a range set is an error.
  unfoldable pub finish : ℕ → List Ip → List IpConfig → S → Result CommandError (List IpConfig) × S
  unfolding release_all
  finish n [] ips s = (ok ips, s)
  finish n (ip ∷ requested) ips s = (err requested_left, release_all n s)

  -- The loop of cmdAdd over the range sets: the index of the set, which is also the number of the
  -- allocators that were used. `none` where the allocator's fuel runs out.
  unfoldable pub add_sets :
      ℕ
      → ℕ
      → List RangeSet
      → List Ip
      → List IpConfig
      → S
      → Option (Result CommandError (List IpConfig) × S)
  add_sets fuel idx [] requested ips s = some (finish idx requested ips s)
  add_sets fuel idx (p ∷ ps) requested ips s =
      let (ip, left) = take_requested p requested in
      elim (get st (allocator_of p idx) id ifname fuel ip s) [
        | none ↦ none
        | some (err e, s') ↦ some (err not_allocated, release_all idx s')
        | some (ok conf, s') ↦ add_sets fuel (idx + 1) ps left (ips ++ (conf ∷ [])) s'
      ]

  -- cmdAdd from the open store on; the addresses of the printed result.
  unfoldable pub cmd_add :
      ℕ → List RangeSet → List Ip → S → Option (Result CommandError (List IpConfig) × S)
  cmd_add fuel ps requested s = add_sets fuel 0 ps (distinct requested) [] s

  -- The loop of cmdDel: all range sets are released, whatever fails.
  unfoldable pub del_sets : ℕ → Bool → List RangeSet → S → Result CommandError (Unit {0}) × S
  del_sets idx failed [] s = (if failed then err not_released else ok tt, s)
  del_sets idx failed (p ∷ ps) s =
      let (r, s') = release st (allocator_of p idx) id ifname s in
      del_sets (idx + 1) (elim r [ ok u ↦ failed | err e ↦ true ]) ps s'

  unfoldable pub cmd_del : List RangeSet → S → Result CommandError (Unit {0}) × S
  cmd_del ps s = del_sets 0 false ps s

  -- cmdCheck, with the store's search by the container and the interface.
  unfoldable pub cmd_check : (Text → Text → S → Bool) → S → Result CommandError (Unit {0})
  cmd_check find_by_id s = if find_by_id id ifname s then ok tt else err no_address
