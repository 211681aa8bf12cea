-- ===== src/HostLocal/CommandExamples.antt =====
-- The commands and the configuration of the host-local plugin at concrete range sets and directories.
use village_net.Common.{
  ℕ, ◌≡◌, refl, false, List, [], ◌∷◌, ◌++◌, none, some, ok, err, codes, text_eq,
}
use village_net.Net.{
  Ip, to4, to16, ip_equal, net_contains, and_bytes, mask_ip, network_number_and_mask, byte_ones,
  mask_ones, mask_size,
}
use village_net.Net.Bytes.{set_bytes, bytes_loop}
use village_net.Cidr.{next_ip, ip_to_int, int_to_ip, cmp}
use village_net.HostLocal.Store.{Text}
use village_net.HostLocal.Range
use village_net.HostLocal.Range.{Range, canonicalize_ip, contains_canonical}
use village_net.HostLocal.RangeSet
use village_net.HostLocal.RangeSet.{RangeSet, range_for}
use village_net.HostLocal.Iter.{get_iter, next, advance, arrive, move_on, candidate}
use village_net.HostLocal.Allocator.{IpConfig, config_of, get, get_loop, get_requested}
use village_net.HostLocal.Disk.{
  IpText, no_faults, find_by_key, store, entry_of, get_escaped_path, reserve, last_reserved_ip,
  get_by_id, release_by_id, release_by_key,
}
use village_net.HostLocal.Disk.Files.{Dir, lookup_file, put_file, trim_space}
use village_net.HostLocal.Config.{
  IpamInput, NetInput, IpamConf, load_ipam_config, canonicalize_ips, canonicalize_sets,
  single_range, check_sets,
}
use village_net.HostLocal.ConfigLaws.{Canonical, IsLoaded, IsOldRange, load_ipam_config-IsLoaded}
use village_net.HostLocal.Commands.{
  distinct, take_requested, release_all, finish, add_sets, cmd_add, requested_left, not_allocated,
}
use village_net.HostLocal.Leak.{last_unwritable, cmd_add-leaks_entry}
use village_net.HostLocal.Rollback.{cmd_add-rolls_back}

abbrev raw_text : IpText
raw_text = record { format = λ ip. ip; parse = to16 }

abbrev ip_10 : ℕ → ℕ → Ip
ip_10 b d = 10 ∷ b ∷ 0 ∷ d ∷ []

abbrev range_10 : ℕ → Range
range_10 b = record {
  range_start = ip_10 b 1;
  range_end = ip_10 b 254;
  subnet = record { ip = ip_10 b 0; mask = 255 ∷ 255 ∷ 255 ∷ 0 ∷ [] };
  gateway = ip_10 b 1;
}

abbrev two_sets : List RangeSet
two_sets = (range_10 0 ∷ []) ∷ (range_10 1 ∷ []) ∷ []

-- The configuration gives the subnets alone, one of them as the old single range.
abbrev plain : ℕ → Range
plain b = record {
  range_start = [];
  range_end = [];
  subnet = record { ip = ip_10 b 0; mask = 255 ∷ 255 ∷ 255 ∷ 0 ∷ [] };
  gateway = [];
}

abbrev subnets : IpamInput
subnets = record {
  range = some (plain 0);
  ranges = (plain 1 ∷ []) ∷ [];
  routes = [];
  data_dir = [];
  resolv_conf = [];
}

abbrev net_input : NetInput
net_input = record {
  name = codes "n";
  cni_version = codes "1.0.0";
  ipam = some subnets;
  runtime_ranges = [];
  args_ips = [];
}

abbrev loaded : IpamConf
loaded = record {
  name = codes "n";
  routes = [];
  data_dir = [];
  resolv_conf = [];
  ranges = two_sets;
  ip_args = ip_10 0 9 ∷ [];
}

load_ipam_config_runs : load_ipam_config (λ v. false) net_input (ok (some (ip_10 0 9))) ≡ ok loaded
unfolding load_ipam_config canonicalize_ips canonicalize_sets single_range check_sets
    Range.canonicalize Range.canonicalize_subnet Range.canonicalize_gateway Range.canonicalize_start
    Range.canonicalize_end Range.last_ip Range.overlaps Range.contains contains_canonical
    canonicalize_ip RangeSet.canonicalize RangeSet.canonicalize_ranges RangeSet.disjoint
    RangeSet.range_overlaps RangeSet.overlaps RangeSet.contains RangeSet.find_range range_for
    mask_size mask_ones byte_ones mask_ip and_bytes network_number_and_mask net_contains ip_equal
    to4 to16 next_ip ip_to_int int_to_ip set_bytes bytes_loop cmp text_eq
load_ipam_config_runs = refl

load_ipam_config-IsLoaded_example :
    IsLoaded (λ v. false) (codes "1.0.0") two_sets
    × (runtime old rest : List RangeSet) × (two_sets ≡ runtime ++ (old ++ rest))
    × Canonical [] runtime
    × IsOldRange (some (plain 0)) old
    × Canonical ((plain 1 ∷ []) ∷ []) rest
load_ipam_config-IsLoaded_example =
    load_ipam_config-IsLoaded (λ v. false) net_input (ok (some (ip_10 0 9))) subnets loaded refl
      load_ipam_config_runs

abbrev itoa : ℕ → Text
itoa n = codes "0"

abbrev id : Text
id = codes "c1"

abbrev ifname : Text
ifname = codes "eth0"

-- The address that is left over is in no range set, so that both reservations are undone.
cmd_add_fails :
    cmd_add
      (store raw_text false no_faults)
      itoa
      id
      ifname
      5
      two_sets
      (ip_10 2 2 ∷ ip_10 1 3 ∷ [])
      []
    ≡ some (err requested_left, (codes "last_reserved_ip.0", ip_10 1 3) ∷ [])
unfolding cmd_add add_sets finish release_all take_requested distinct get get_loop get_requested
    get_iter next advance arrive move_on candidate reserve last_reserved_ip get_by_id release_by_id
    put_file lookup_file text_eq get_escaped_path trim_space Range.canonicalize
    Range.canonicalize_subnet Range.canonicalize_gateway Range.canonicalize_start
    Range.canonicalize_end Range.last_ip Range.overlaps Range.contains contains_canonical
    canonicalize_ip RangeSet.canonicalize RangeSet.canonicalize_ranges RangeSet.disjoint
    RangeSet.range_overlaps RangeSet.overlaps RangeSet.contains RangeSet.find_range range_for
    mask_size mask_ones byte_ones mask_ip and_bytes network_number_and_mask net_contains ip_equal
    to4 to16 next_ip ip_to_int int_to_ip set_bytes bytes_loop cmp release_by_key entry_of
cmd_add_fails = refl

cmd_add-rolls_back_example :
    find_by_key raw_text false no_faults
      (entry_of id ifname)
      ((codes "last_reserved_ip.0", ip_10 1 3) ∷ [])
    ≡ false
unfolding find_by_key
cmd_add-rolls_back_example =
    cmd_add-rolls_back raw_text false itoa id ifname 5 two_sets (ip_10 2 2 ∷ ip_10 1 3 ∷ []) []
      ((codes "last_reserved_ip.0", ip_10 1 3) ∷ []) requested_left refl cmd_add_fails

abbrev given : ℕ → IpConfig
given b = config_of (record { ip = ip_10 b 2; mask = 255 ∷ 255 ∷ 255 ∷ 0 ∷ [] }) (ip_10 b 1)

abbrev both_held : Dir
both_held =
    (ip_10 0 2, entry_of id ifname)
    ∷ (codes "last_reserved_ip.0", ip_10 1 2)
    ∷ (ip_10 1 2, entry_of id ifname)
    ∷ []

cmd_add_runs :
    cmd_add (store raw_text false no_faults) itoa id ifname 5 two_sets [] []
    ≡ some (ok (given 0 ∷ given 1 ∷ []), both_held)
unfolding cmd_add add_sets finish release_all take_requested distinct get get_loop get_requested
    get_iter next advance arrive move_on candidate reserve last_reserved_ip get_by_id release_by_id
    put_file lookup_file text_eq get_escaped_path trim_space Range.canonicalize
    Range.canonicalize_subnet Range.canonicalize_gateway Range.canonicalize_start
    Range.canonicalize_end Range.last_ip Range.overlaps Range.contains contains_canonical
    canonicalize_ip RangeSet.canonicalize RangeSet.canonicalize_ranges RangeSet.disjoint
    RangeSet.range_overlaps RangeSet.overlaps RangeSet.contains RangeSet.find_range range_for
    mask_size mask_ones byte_ones mask_ip and_bytes network_number_and_mask net_contains ip_equal
    to4 to16 next_ip ip_to_int int_to_ip set_bytes bytes_loop cmp release_by_key entry_of
cmd_add_runs = refl

cmd_add-leaks_entry_example :
    (conf : IpConfig) × (rest : List IpConfig) × (bad : Dir) × (given 0 ∷ given 1 ∷ []
      ≡ conf ∷ rest)
    × (cmd_add (store raw_text false last_unwritable) itoa id ifname 5 two_sets [] []
        ≡ some (err not_allocated, bad))
    × (lookup_file conf.address.ip [] ≡ none)
    × (lookup_file conf.address.ip bad ≡ some (entry_of id ifname))
unfolding get_escaped_path
cmd_add-leaks_entry_example =
    cmd_add-leaks_entry raw_text false id ifname itoa 5 (range_10 0 ∷ []) ((range_10 1 ∷ []) ∷ [])
      [] (given 0 ∷ given 1 ∷ []) [] both_held cmd_add_runs
