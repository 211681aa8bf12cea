-- ===== src/Net.antt =====
-- The part of Go's `net` package that the plugins call: addresses, masks and networks as byte
-- slices. A nil address is the empty list: no operation here tells the two apart.
pub mod Bytes
pub mod HardwareAddr
use village_net.Common.{
  ℕ, zero, suc, ◌+◌, ◌-◌, ◌*◌, ◌/◌, ◌%◌, bit_and, Bool, true, false, ◌&&◌, List, [], ◌∷◌, ◌++◌,
  Option, none, some, ◌==◌, leb, if◌then◌else◌, length, take, drop, text_eq,
}

abbrev pub Ip : Type 0
Ip = List ℕ

abbrev pub is_nil : Ip → Bool
is_nil [] = true
is_nil (x ∷ xs) = false

abbrev pub v4_in_v6_prefix : List ℕ
v4_in_v6_prefix = 0 ∷ 0 ∷ 0 ∷ 0 ∷ 0 ∷ 0 ∷ 0 ∷ 0 ∷ 0 ∷ 0 ∷ 255 ∷ 255 ∷ []

-- IP.To4
unfoldable pub to4 : Ip → Ip
to4 ip =
    if length ip == 4
    then ip
    else if length ip == 16 && text_eq (take 12 ip) v4_in_v6_prefix
    then drop 12 ip
    else []

-- IP.To16
unfoldable pub to16 : Ip → Ip
to16 ip = if length ip == 4 then v4_in_v6_prefix ++ ip else if length ip == 16 then ip else []

-- IP.Equal: an IPv4 address and its IPv6 form are equal.
unfoldable pub ip_equal : Ip → Ip → Bool
ip_equal a b =
    if length a == length b
    then text_eq a b
    else if length a == 4 && length b == 16
    then text_eq (take 12 b) v4_in_v6_prefix && text_eq a (drop 12 b)
    else if length a == 16 && length b == 4
    then text_eq (take 12 a) v4_in_v6_prefix && text_eq (drop 12 a) b
    else false

unfoldable pub and_bytes : List ℕ → List ℕ → List ℕ
and_bytes (x ∷ xs) (m ∷ ms) = bit_and x m ∷ and_bytes xs ms
and_bytes _ _ = []

abbrev all_ff : List ℕ
all_ff = 255 ∷ 255 ∷ 255 ∷ 255 ∷ 255 ∷ 255 ∷ 255 ∷ 255 ∷ 255 ∷ 255 ∷ 255 ∷ 255 ∷ []

-- IP.Mask: nil where the lengths do not fit.
unfoldable pub mask_ip : Ip → List ℕ → Ip
unfolding and_bytes
mask_ip ip mask =
    let m =
      if length mask == 16 && length ip == 4 && text_eq (take 12 mask) all_ff
      then drop 12 mask
      else mask in
    let a =
      if length m == 4 && length ip == 16 && text_eq (take 12 ip) v4_in_v6_prefix
      then drop 12 ip
      else ip in
    if length a == length m then and_bytes a m else []

pub record IpNet : Type 0 where
  pub ip : Ip
  pub mask : List ℕ

-- The address and the mask that IPNet.Contains compares with, `([], [])` for a malformed network.
unfoldable pub network_number_and_mask : IpNet → Ip × List ℕ
unfolding to4
network_number_and_mask n =
    let four = to4 n.ip in
    let nn = if is_nil four then n.ip else four in
    if length nn == 4 && length n.mask == 4
    then (nn, n.mask)
    else if length nn == 4 && length n.mask == 16
    then (nn, drop 12 n.mask)
    else if length nn == 16 && length n.mask == 16
    then (nn, n.mask)
    else ([], [])

-- IPNet.Contains
unfoldable pub net_contains : IpNet → Ip → Bool
unfolding network_number_and_mask and_bytes
net_contains n ip =
    let (nn, m) = network_number_and_mask n in
    let four = to4 ip in
    let a = if is_nil four then ip else four in
    if length a == length nn then text_eq (and_bytes nn m) (and_bytes a m) else false

-- The leading ones of a byte, if the rest of it is zero.
unfoldable pub byte_ones : ℕ → Option ℕ
byte_ones b =
    if b == 255
    then some 8
    else if b == 254
    then some 7
    else if b == 252
    then some 6
    else if b == 248
    then some 5
    else if b == 240
    then some 4
    else if b == 224
    then some 3
    else if b == 192
    then some 2
    else if b == 128
    then some 1
    else if b == 0
    then some 0
    else none

abbrev all_zero : List ℕ → Bool
all_zero [] = true
all_zero (x ∷ xs) = x == 0 && all_zero xs

-- The number of leading ones of a mask, `none` where a one follows a zero.
unfoldable pub mask_ones : List ℕ → Option ℕ
unfolding byte_ones
mask_ones [] = some 0
mask_ones (b ∷ ms) =
    let rest = mask_ones ms in
    if b == 255
    then elim rest [ none ↦ none | some n ↦ some (8 + n) ]
    else if all_zero ms
    then byte_ones b
    else none

-- IPMask.Size: the ones and the bits, `(0, 0)` for a mask that is not in the canonical form.
unfoldable pub mask_size : List ℕ → ℕ × ℕ
unfolding mask_ones
mask_size m = elim (mask_ones m) [ none ↦ (0, 0) | some n ↦ (n, 8 * length m) ]
