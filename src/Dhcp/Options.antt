-- ===== src/Dhcp/Options.antt =====
-- plugins/ipam/dhcp/options.go: what a DHCP packet's options hold. A packet's options are a parameter:
-- the bytes under each code, if it is there.
use village_net.Common.{
  ℕ, zero, suc, ◌+◌, ◌-◌, ◌*◌, ◌/◌, ◌^◌, ◌==◌, ltb, leb, List, [], ◌∷◌, ◌++◌, Option, none, some,
  if◌then◌else◌, length, take, drop,
}
use village_net.Net.{Ip, IpNet}
use village_net.Cni.{Route}

pub data OptionCode : Type 0 where
  option_router option_static_route option_classless_route_format option_subnet_mask : OptionCode
  option_lease_time option_renewal_time option_rebinding_time : OptionCode

abbrev pub Opts : Type 0
Opts = OptionCode → Option (List ℕ)

unfoldable pub parse_router : Opts → Ip
parse_router opts = elim (opts option_router) [
  | none ↦ []
  | some v ↦ if length v == 4 then v else []
]

-- IP.DefaultMask: the mask of the address's class.
abbrev default_mask : Ip → List ℕ
default_mask [] = []
default_mask (a ∷ ip) =
    if ltb a 128
    then 255 ∷ 0 ∷ 0 ∷ 0 ∷ []
    else if ltb a 192
    then 255 ∷ 255 ∷ 0 ∷ 0 ∷ []
    else 255 ∷ 255 ∷ 255 ∷ 0 ∷ []

unfoldable pub classful_subnet : Ip → IpNet
classful_subnet sn = record { ip = sn; mask = default_mask sn }

-- The loop of parseRoutes: eight bytes for each route, and what is left over is dropped.
unfoldable pub static_routes : List ℕ → List Route
static_routes (a ∷ b ∷ c ∷ d ∷ e ∷ f ∷ g ∷ h ∷ opt) =
    record { dst = classful_subnet (a ∷ b ∷ c ∷ d ∷ []); gw = e ∷ f ∷ g ∷ h ∷ [] }
    ∷ static_routes opt
static_routes _ = []

unfoldable pub parse_routes : Opts → List Route
parse_routes opts = elim (opts option_static_route) [ none ↦ [] | some opt ↦ static_routes opt ]

-- net.CIDRMask(width, 32)
abbrev mask_byte : ℕ → ℕ
mask_byte n = if leb 8 n then 255 else 256 - 2 ^ (8 - n)

abbrev pub cidr_mask : ℕ → List ℕ
cidr_mask width =
    mask_byte width ∷ mask_byte (width - 8) ∷ mask_byte (width - 16) ∷ mask_byte (width - 24) ∷ []

-- The bytes that a network of the width takes.
unfoldable pub octets_of : ℕ → ℕ
octets_of width = if ltb 0 width then (width - 1) / 8 + 1 else 0

-- copy into four zero bytes
abbrev pub pad4 : List ℕ → List ℕ
pad4 xs = take 4 (xs ++ (0 ∷ 0 ∷ 0 ∷ 0 ∷ []))

abbrev pub cidr_route : ℕ → List ℕ → Ip → Route
cidr_route width prefix gw = record {
  dst = record { ip = pad4 prefix; mask = cidr_mask width };
  gw = gw;
}

abbrev pub add_route : Route → Option (Option (List Route)) → Option (Option (List Route))
add_route r none = none
add_route r (some none) = some none
add_route r (some (some rs)) = some (some (r ∷ rs))

-- The loop of parseCIDRRoutes. `none` where the fuel runs out, `some none` for a malformed option.
unfoldable pub cidr_routes : ℕ → List ℕ → Option (Option (List Route))
cidr_routes zero opt = none
cidr_routes (suc f) [] = some (some [])
cidr_routes (suc f) (width ∷ opt) =
    let octets = octets_of width in
    let behind = drop octets opt in
    let rest = cidr_routes f (drop 4 behind) in
    if ltb (length opt) 4
    then some (some [])
    else if ltb 32 width
    then some none
    else if ltb (length opt) (octets + 4)
    then some none
    else add_route (cidr_route width (take octets opt) (take 4 behind)) rest

-- parseCIDRRoutes: one round takes a byte at least. A malformed option gives no routes.
unfoldable pub parse_cidr_routes : Opts → List Route
parse_cidr_routes opts = elim (opts option_classless_route_format) [
  | none ↦ []
  | some opt ↦ elim (cidr_routes (suc (length opt)) opt) [
    | none ↦ []
    | some none ↦ []
    | some (some routes) ↦ routes
  ]
]

unfoldable pub parse_subnet_mask : Opts → Option (List ℕ)
parse_subnet_mask opts = opts option_subnet_mask

abbrev pub second : ℕ
second = 1000000000

-- The big-endian number of four bytes.
abbrev uint32 : List ℕ → Option ℕ
uint32 (a ∷ b ∷ c ∷ d ∷ []) = some (a * 16777216 + b * 65536 + c * 256 + d)
uint32 _ = none

-- parseDuration, in nanoseconds; the three times are its uses. An error is none.
unfoldable pub parse_duration : Opts → OptionCode → Option ℕ
parse_duration opts code = elim (opts code) [
  | none ↦ none
  | some val ↦ elim (uint32 val) [ none ↦ none | some secs ↦ some (secs * second) ]
]
