-- ===== src/HostLocal/Iter.antt =====
-- RangeIter of plugins/ipam/host-local/backend/allocator/allocator.go: a cursor that goes round
-- the addresses of a range set.
pub mod Visits
pub mod Rounds
pub mod Resumed
use village_net.Common.{
  ℕ, zero, suc, ◌+◌, ◌%◌, Bool, true, false, ◌&&◌, List, [], ◌∷◌, Option, none, some, ◌==◌,
  if◌then◌else◌, length, get_or, Result, ok, err,
}
use village_net.Net.{Ip, IpNet, is_nil, ip_equal}
use village_net.Cidr.{next_ip}
use village_net.HostLocal.Range
use village_net.HostLocal.Range.{Range, zero_range}
use village_net.HostLocal.RangeSet
use village_net.HostLocal.RangeSet.{RangeSet}
use village_net.HostLocal.Store.{IoError}

pub record RangeIter : Type 0 where
  pub rangeset : RangeSet
  pub range_idx : ℕ
  pub cur : Ip
  pub start_ip : Ip
  pub start_range : ℕ

-- Where one activation of Next ends: with no address left, with an address, its mask and its
-- gateway, or with the recursive call that passes over a gateway.
pub data Outcome : Type 0 where
  exhausted : Outcome
  yield : IpNet → Ip → Outcome
  skip : Outcome

unfoldable pub candidate : Range → Ip → Outcome
candidate r a =
    if ip_equal a r.gateway then skip else yield (record { ip = a; mask = r.subnet.mask }) r.gateway

abbrev pub nth : RangeSet → ℕ → Range
nth s i = get_or s i zero_range

-- The range and the address after the cursor: the end of a range is followed by the start of the
-- next range, the last range by the first.
unfoldable pub move_on : RangeIter → ℕ × Ip
move_on i =
    if ip_equal i.cur (nth i.rangeset i.range_idx).range_end
    then (let k = (i.range_idx + 1) % length i.rangeset in (k, (nth i.rangeset k).range_start))
    else (i.range_idx, next_ip i.cur)

-- The check for the place where the iteration began, and the gateway check.
unfoldable pub arrive : RangeIter → Outcome × RangeIter
arrive i =
    let c = candidate (nth i.rangeset i.range_idx) i.cur in
    if is_nil i.start_ip
    then (c, record i { start_ip = i.cur })
    else if i.range_idx == i.start_range && ip_equal i.cur i.start_ip
    then (exhausted, i)
    else (c, i)

-- One activation of RangeIter.Next.
unfoldable pub advance : RangeIter → Outcome × RangeIter
advance i =
    if is_nil i.cur
    then (let r = nth i.rangeset i.range_idx in
        (candidate r r.range_start, record i { cur = r.range_start; start_ip = r.range_start }))
    else let (k, a) = move_on i in arrive (record i { range_idx = k; cur = a })

-- RangeIter.Next: `none` where the fuel does not suffice for its recursion.
unfoldable pub next : ℕ → RangeIter → Option (Option (IpNet × Ip) × RangeIter)
next zero i = none
next (suc f) i =
    let (o, i') = advance i in
    elim o [
      | exhausted ↦ some (none, i')
      | yield net gw ↦ some (some (net, gw), i')
      | skip ↦ next f i'
    ]

-- The first range of the set, from the index k on, that contains the address.
unfoldable pub find_index : ℕ → RangeSet → Ip → Option ℕ
find_index k [] a = none
find_index k (r ∷ s) a =
    let rest = find_index (k + 1) s a in if Range.contains r a then some k else rest

abbrev pub at_start : RangeSet → RangeIter
at_start s = record {
  rangeset = s;
  range_idx = 0;
  cur = [];
  start_ip = (nth s 0).range_start;
  start_range = 0;
}

-- Only the zero values are set where no range holds the address.
abbrev pub at_last : RangeSet → Ip → Option ℕ → RangeIter
at_last s last none = record {
  rangeset = s;
  range_idx = 0;
  cur = [];
  start_ip = [];
  start_range = 0;
}
at_last s last (some k) = record {
  rangeset = s;
  range_idx = k;
  cur = last;
  start_ip = [];
  start_range = k;
}

-- IPAllocator.GetIter: an error of the store is logged and counts as no last address.
unfoldable pub get_iter : RangeSet → Result IoError Ip → RangeIter
get_iter s (err e) = at_start s
get_iter s (ok last) =
    if is_nil last
    then at_start s
    else if RangeSet.contains s last
    then at_last s last (find_index 0 s last)
    else at_start s
