-- ===== src/HostLocal/Config.antt =====
-- plugins/ipam/host-local/backend/allocator/config.go: LoadIPAMConfig on a configuration that is
-- decoded. The IP of CNI_ARGS is a parameter: malformed, missing, or an address.
use village_net.Common.{
  ℕ, suc, ◌≡◌, Bool, true, false, not, ◌&&◌, ◌||◌, List, [], ◌∷◌, ◌++◌, Option, none, some, ltb,
  if◌then◌else◌, get_or, All, Result, ok, err, ◌>>=◌,
}
use village_net.Net.{Ip, is_nil, to4}
use village_net.Cni.{Route}
use village_net.HostLocal.Store.{Text}
use village_net.HostLocal.Range
use village_net.HostLocal.Range.{Range, zero_range, canonicalize_ip}
use village_net.HostLocal.RangeSet
use village_net.HostLocal.RangeSet.{RangeSet}

pub data ConfigError : Type 0 where
  missing_ipam bad_args no_ranges too_many_addresses overlapping_sets : ConfigError
  bad_ip bad_range_set : Range.Error → ConfigError

-- IPAMConfig as it is decoded: a single range of the old style, and range sets.
pub record IpamInput : Type 0 where
  pub range : Option Range
  pub ranges : List RangeSet
  pub routes : List Route
  pub data_dir : Text
  pub resolv_conf : Text

-- Net
pub record NetInput : Type 0 where
  pub name : Text
  pub cni_version : Text
  pub ipam : Option IpamInput
  pub runtime_ranges : List RangeSet
  pub args_ips : List Ip

pub record IpamConf : Type 0 where
  pub name : Text
  pub routes : List Route
  pub data_dir : Text
  pub resolv_conf : Text
  pub ranges : List RangeSet
  pub ip_args : List Ip

abbrev pub with_error :
    {A : Type 0} → (Range.Error → ConfigError) → Result Range.Error A → Result ConfigError A
with_error f (ok a) = ok a
with_error f (err e) = err (f e)

abbrev pub env_ips : Result (Unit {0}) (Option Ip) → Result ConfigError (List Ip)
env_ips (err u) = err bad_args
env_ips (ok none) = ok []
env_ips (ok (some ip)) = ok (ip ∷ [])

unfoldable pub canonicalize_ips : List Ip → Result ConfigError (List Ip)
canonicalize_ips [] = ok []
canonicalize_ips (ip ∷ ips) = do
  a ← with_error bad_ip (canonicalize_ip ip)
  rest ← canonicalize_ips ips
  ok (a ∷ rest)

-- The old single range, if it has a subnet.
unfoldable pub single_range : Option Range → List RangeSet
single_range none = []
single_range (some r) = if is_nil r.subnet.ip then [] else (r ∷ []) ∷ []

unfoldable pub canonicalize_sets : List RangeSet → Result ConfigError (List RangeSet)
canonicalize_sets [] = ok []
canonicalize_sets (p ∷ ps) = do
  p' ← with_error bad_range_set (RangeSet.canonicalize p)
  rest ← canonicalize_sets ps
  ok (p' ∷ rest)

-- The family of a set is that of its first range.
abbrev pub is_v4_set : RangeSet → Bool
is_v4_set p = not (is_nil (to4 (get_or p 0 zero_range).range_start))

abbrev pub count_sets : Bool → List RangeSet → ℕ
count_sets v4 [] = 0
count_sets v4 (p ∷ ps) =
    let rest = count_sets v4 ps in
    if (if v4 then is_v4_set p else not (is_v4_set p)) then suc rest else rest

-- Whether a set overlaps with one of a list, and whether two sets of a list do.
abbrev pub overlaps_any : RangeSet → List RangeSet → Bool
overlaps_any p [] = false
overlaps_any p (q ∷ qs) = RangeSet.overlaps p q || overlaps_any p qs

abbrev pub any_overlap : List RangeSet → Bool
any_overlap [] = false
any_overlap (p ∷ ps) = overlaps_any p ps || any_overlap ps

-- The checks of the sets, once they are in standard form. `is_old` tells the versions that allow one
-- address for each family.
unfoldable pub check_sets :
    (Text → Bool) → Text → List RangeSet → Result ConfigError (List RangeSet)
check_sets is_old cni_version ps =
    if (ltb 1 (count_sets true ps) || ltb 1 (count_sets false ps)) && is_old cni_version
    then err too_many_addresses
    else if any_overlap ps
    then err overlapping_sets
    else ok ps

abbrev pub load_sets : (Text → Bool) → Text → List RangeSet → Result ConfigError (List RangeSet)
load_sets is_old cni_version [] = err no_ranges
load_sets is_old cni_version (p ∷ ps) = canonicalize_sets (p ∷ ps) >>= check_sets is_old cni_version

abbrev pub load_ipam :
    (Text → Bool)
    → NetInput
    → Result (Unit {0}) (Option Ip)
    → IpamInput
    → Result ConfigError IpamConf
load_ipam is_old n env ipam = do
  from_env ← env_ips env
  ips ← canonicalize_ips (from_env ++ n.args_ips)
  sets ←
      load_sets is_old n.cni_version (n.runtime_ranges ++ (single_range ipam.range ++ ipam.ranges))
  ok (record {
    name = n.name;
    routes = ipam.routes;
    data_dir = ipam.data_dir;
    resolv_conf = ipam.resolv_conf;
    ranges = sets;
    ip_args = ips;
  })

unfoldable pub load_ipam_config :
    (Text → Bool) → NetInput → Result (Unit {0}) (Option Ip) → Result ConfigError IpamConf
load_ipam_config is_old n env = elim n.ipam [
  | none ↦ err missing_ipam
  | some ipam ↦ load_ipam is_old n env ipam
]

-- No two sets of a list overlap.
abbrev pub Apart : List RangeSet → Type 0
Apart [] = Unit
Apart (p ∷ ps) = All (λ q. RangeSet.overlaps p q ≡ false) ps × Apart ps
