-- ===== src/HostLocal/Allocator.antt =====
-- plugins/ipam/host-local/backend/allocator/allocator.go: IPAllocator over any store.
pub mod Reference
pub mod Get
pub mod Endless
use village_net.Common.{
  ℕ, zero, suc, Bool, true, false, not, List, [], ◌∷◌, Option, none, some, if◌then◌else◌, Result,
  ok, err,
}
use village_net.Net.{Ip, IpNet, is_nil, to4, ip_equal}
use village_net.HostLocal.Range
use village_net.HostLocal.Range.{Range, canonicalize_ip}
use village_net.HostLocal.RangeSet
use village_net.HostLocal.RangeSet.{RangeSet, range_for}
use village_net.HostLocal.Store.{Store, Text, IoError}
use village_net.HostLocal.Iter.{RangeIter, next, get_iter}

pub data Error : Type 0 where
  range_error : Range.Error → Error
  is_gateway not_available duplicate none_available : Error
  store_error : IoError → Error

pub data Version : Type 0 where
  v4 v6 : Version

pub record IpConfig : Type 0 where
  pub version : Version
  pub address : IpNet
  pub gateway : Ip

pub record IpAllocator : Type 0 where
  pub rangeset : RangeSet
  pub range_id : Text

abbrev pub config_of : IpNet → Ip → IpConfig
config_of net gw = record {
  version = if is_nil (to4 net.ip) then v6 else v4;
  address = net;
  gateway = gw;
}

module _ {S : Type 0} (st : Store S) (a : IpAllocator) (id ifname : Text) where
  -- After Reserve of a requested address.
  abbrev requested_result : Range → Ip → Result IoError Bool → Result Error IpConfig
  requested_result r ip (err e) = err (store_error e)
  requested_result r ip (ok false) = err not_available
  requested_result r ip (ok true) =
      ok (config_of (record { ip = ip; mask = r.subnet.mask }) r.gateway)

  -- The branch of Get for a requested address.
  unfoldable pub get_requested : Ip → S → Result Error IpConfig × S
  get_requested requested s = elim (canonicalize_ip requested) [
    | err e ↦ (err (range_error e), s)
    | ok ip ↦ elim (range_for a.rangeset ip) [
      | err e ↦ (err (range_error e), s)
      | ok r ↦
          if ip_equal ip r.gateway
          then (err is_gateway, s)
          else let (reserved, s') = st.reserve id ifname ip a.range_id s in
            (requested_result r ip reserved, s')
    ]
  ]

  -- One round of the loop of Get: what Next returned, and the loop that goes on from there.
  abbrev pub round :
      (RangeIter → S → Option (Result Error IpConfig × S))
      → Option (Option (IpNet × Ip) × RangeIter)
      → S
      → Option (Result Error IpConfig × S)
  round loop none s = none
  round loop (some (none, i)) s = some (err none_available, s)
  round loop (some (some (net, gw), i)) s =
      let (reserved, s') = st.reserve id ifname net.ip a.range_id s in
      elim reserved [
        | err e ↦ some (err (store_error e), s')
        | ok true ↦ some (ok (config_of net gw), s')
        | ok false ↦ loop i s'
      ]

  -- The loop of Get over the iterator. The fuel bounds its rounds and the recursion of Next.
  unfoldable pub get_loop : ℕ → RangeIter → S → Option (Result Error IpConfig × S)
  get_loop zero i s = none
  get_loop (suc f) i s = round (get_loop f) (next (suc f) i) s

  -- Whether one of the addresses that the container holds belongs to the range set.
  abbrev pub holds_one : List Ip → Bool
  holds_one [] = false
  holds_one (ip ∷ ips) = if RangeSet.contains a.rangeset ip then true else holds_one ips

  -- IPAllocator.Get: a nil address requests any.
  unfoldable pub get : ℕ → Ip → S → Option (Result Error IpConfig × S)
  get fuel requested s =
      if not (is_nil requested)
      then some (get_requested requested s)
      else if holds_one (st.get_by_id id ifname s)
      then some (err duplicate, s)
      else get_loop fuel (get_iter a.rangeset (st.last_reserved_ip a.range_id s)) s

  -- IPAllocator.Release
  unfoldable pub release : S → Result IoError (Unit {0}) × S
  release s = st.release_by_id id ifname s
