-- ===== src/HostLocal/Range.antt =====
-- plugins/ipam/host-local/backend/allocator/range.go: one range of addresses in a subnet.
use village_net.Common.{
  ℕ, ◌+◌, ◌-◌, ◌%◌, bit_or, Bool, true, false, not, ◌&&◌, ◌||◌, List, [], ◌∷◌, ◌==◌, ltb,
  if◌then◌else◌, length, get_or, set, Result, ok, err, ◌>>=◌,
}
use village_net.Net.{Ip, IpNet, is_nil, to4, to16, ip_equal, mask_ip, net_contains, mask_size}
use village_net.Cidr.{next_ip, Cmp, less, greater, cmp}

pub data Error : Type 0 where
  not_v4_nor_v6 too_small version_mismatch host_bits start_not_in_network : Error
  end_not_in_network empty_range_set mixed_families overlapping not_in_range_set : Error

pub record Range : Type 0 where
  pub range_start : Ip
  pub range_end : Ip
  pub subnet : IpNet
  pub gateway : Ip

abbrev pub zero_range : Range
zero_range = record {
  range_start = [];
  range_end = [];
  subnet = record { ip = []; mask = [] };
  gateway = [];
}

unfoldable pub canonicalize_ip : Ip → Result Error Ip
canonicalize_ip ip =
    if not (is_nil (to4 ip))
    then ok (to4 ip)
    else if not (is_nil (to16 ip))
    then ok (to16 ip)
    else err not_v4_nor_v6

abbrev is_less : Cmp → Bool
is_less less = true
is_less c = false

abbrev is_greater : Cmp → Bool
is_greater greater = true
is_greater c = false

-- The tests of Range.Contains on an address in standard form.
unfoldable pub contains_canonical : Range → Ip → Bool
contains_canonical r a =
    if not (length a == length r.subnet.ip)
    then false
    else if not (net_contains r.subnet a)
    then false
    else if not (is_nil r.range_start) && is_less (cmp a r.range_start)
    then false
    else if not (is_nil r.range_end) && is_greater (cmp a r.range_end)
    then false
    else true

unfoldable pub contains : Range → Ip → Bool
contains r addr = elim (canonicalize_ip addr) [ err e ↦ false | ok a ↦ contains_canonical r a ]

unfoldable pub overlaps : Range → Range → Bool
overlaps r r1 =
    if not (length r.range_start == length r1.range_start)
    then false
    else contains r r1.range_start
      || contains r r1.range_end
      || contains r1 r.range_start
      || contains r1 r.range_end

or_not_mask : List ℕ → List ℕ → List ℕ
or_not_mask (x ∷ xs) (m ∷ ms) = bit_or x (255 - m) ∷ or_not_mask xs ms
or_not_mask _ _ = []

-- The last address of a subnet, less the broadcast address of IPv4. The decrement is a byte's.
unfoldable pub last_ip : IpNet → Ip
unfolding or_not_mask
last_ip subnet =
    let end = or_not_mask subnet.ip subnet.mask in
    if not (is_nil (to4 subnet.ip)) then set end 3 ((get_or end 3 0 + 255) % 256) else end

-- The checks on the subnet, and the subnet with its address in standard form.
unfoldable pub canonicalize_subnet : IpNet → Result Error IpNet
canonicalize_subnet subnet = do
  ip ← canonicalize_ip subnet.ip
  let (ones, masklen) = mask_size subnet.mask
  if ltb masklen (ones + 2)
      then err too_small
      else if not (length ip == length subnet.mask)
      then err version_mismatch
      else if not (ip_equal ip (mask_ip ip subnet.mask))
      then err host_bits
      else ok (record { ip = ip; mask = subnet.mask })

unfoldable pub canonicalize_gateway : Range → Result Error Range
canonicalize_gateway r =
    if is_nil r.gateway
    then ok (record r { gateway = next_ip r.subnet.ip })
    else (do gw ← canonicalize_ip r.gateway; ok (record r { gateway = gw }))

unfoldable pub canonicalize_start : Range → Result Error Range
canonicalize_start r =
    if is_nil r.range_start then ok (record r { range_start = next_ip r.subnet.ip }) else do
      start ← canonicalize_ip r.range_start
      let r' = record r { range_start = start }
      if contains r' start then ok r' else err start_not_in_network

unfoldable pub canonicalize_end : Range → Result Error Range
canonicalize_end r =
    if is_nil r.range_end then ok (record r { range_end = last_ip r.subnet }) else do
      end ← canonicalize_ip r.range_end
      let r' = record r { range_end = end }
      if contains r' end then ok r' else err end_not_in_network

-- Range.Canonicalize. The source writes into the range; after an error its callers drop it.
unfoldable pub canonicalize : Range → Result Error Range
canonicalize r = do
  subnet ← canonicalize_subnet r.subnet
  r1 ← canonicalize_gateway (record r { subnet = subnet })
  r2 ← canonicalize_start r1
  canonicalize_end r2
