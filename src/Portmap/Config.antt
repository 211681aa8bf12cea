-- ===== src/Portmap/Config.antt =====
-- plugins/meta/portmap/main.go: parseConfig on a decoded configuration, and the three commands.
use village_net.Common.{
  ℕ, ◌<◌, ◌≤◌, ◌≡◌, refl, Bool, true, false, not, ◌&&◌, ◌||◌, ltb, leb, if◌then◌else◌, List, [],
  ◌∷◌, Option, none, some, arith, text_eq, length, get_or, All, Result, ok, err, ◌>>=◌,
  chain_inverts,
}
use village_net.Net.{IpNet, is_nil}
use village_net.HostLocal.Store.{Text}
use village_net.Cni.{CniResult, Interface, IpConfig, PrevResult, no_result, malformed, result}
use village_net.HostLocal.Allocator.{Version, v4, v6}
use village_net.Portmap.Rules.{PortMapEntry, PortMapConf}

pub data ConfigError : Type 0 where
  malformed_result bit_and_chain bad_bit bad_container_port bad_host_port : ConfigError

-- PortMapConf, as it is decoded. A negative bit is 32 here, which is refused like it.
pub record PortMapInput : Type 0 where
  pub name : Text
  pub snat : Option Bool
  pub conditions_v4 : Option (List Text)
  pub conditions_v6 : Option (List Text)
  pub mark_masq_bit : Option ℕ
  pub external_set_mark_chain : Option Text
  pub port_maps : List PortMapEntry
  pub prev_result : PrevResult

abbrev pub default_mark_bit : ℕ
default_mark_bit = 13

abbrev or_true : Option Bool → Bool
or_true none = true
or_true (some b) = b

unfoldable pub parse_mark_bit : Option ℕ → Option Text → Result ConfigError ℕ
parse_mark_bit (some bit) (some chain) = err bit_and_chain
parse_mark_bit (some bit) none = if ltb 31 bit then err bad_bit else ok bit
parse_mark_bit none chain = ok default_mark_bit

unfoldable pub check_port_maps : List PortMapEntry → Result ConfigError (Unit {0})
check_port_maps [] = ok tt
check_port_maps (pm ∷ pms) =
    let rest = check_port_maps pms in
    if leb pm.container_port 0
    then err bad_container_port
    else if leb pm.host_port 0
    then err bad_host_port
    else rest

abbrev parse_prev_result : PrevResult → Result ConfigError (Option CniResult)
parse_prev_result no_result = ok none
parse_prev_result malformed = err malformed_result
parse_prev_result (result r) = ok (some r)

abbrev no_net : IpNet
no_net = record { ip = []; mask = [] }

-- Whether an address is of a known interface that is not the container's.
unfoldable pub not_sandbox : Text → List Interface → Option ℕ → Bool
not_sandbox if_name intfs none = false
not_sandbox if_name intfs (some idx) =
    let intf = get_or intfs idx (record { name = []; mac = []; sandbox = [] }) in
    ltb idx (length intfs) && (not (text_eq intf.name if_name) || text_eq intf.sandbox [])

abbrev is_version : Version → Version → Bool
is_version v4 v4 = true
is_version v6 v6 = true
is_version _ _ = false

-- The first address of a version that is the container's, for each of the two versions.
unfoldable pub container_net : Text → List Interface → Version → List IpConfig → IpNet
container_net if_name intfs v [] = no_net
container_net if_name intfs v (ip ∷ ips) =
    let rest = container_net if_name intfs v ips in
    if is_version ip.version v
      && (not (not_sandbox if_name intfs ip.interface) && not (is_nil ip.address.ip))
    then ip.address
    else rest

abbrev net_of : Text → Version → Option CniResult → IpNet
net_of if_name v none = no_net
net_of if_name v (some r) = container_net if_name r.interfaces v r.ips

-- parseConfig, with the container's id, which the commands add behind it.
unfoldable pub parse_config :
    Text → Text → PortMapInput → Result ConfigError (PortMapConf × Option CniResult)
parse_config container_id if_name n = do
  prev ← parse_prev_result n.prev_result
  bit ← parse_mark_bit n.mark_masq_bit n.external_set_mark_chain
  u ← check_port_maps n.port_maps
  ok (
    record {
      name = n.name;
      snat = or_true n.snat;
      conditions_v4 = n.conditions_v4;
      conditions_v6 = n.conditions_v6;
      mark_masq_bit = bit;
      external_set_mark_chain = n.external_set_mark_chain;
      port_maps = n.port_maps;
      container_id = container_id;
      cont_ipv4 = net_of if_name v4 prev;
      cont_ipv6 = net_of if_name v6 prev;
    },
    prev,
  )

-- What a parsed configuration keeps.
pub record IsParsed (conf : PortMapConf) : Type 0 where
  pub bit_in_range : conf.mark_masq_bit ≤ 31
  pub ports_positive : All (λ pm. (0 < pm.host_port) × (0 < pm.container_port)) conf.port_maps

check_port_maps-All :
    (pms : List PortMapEntry)
    → check_port_maps pms ≡ ok tt
    → All (λ pm. (0 < pm.host_port) × (0 < pm.container_port)) pms
unfolding check_port_maps
check_port_maps-All [] e = tt
check_port_maps-All (pm ∷ pms) e =
    ((ground (arith, e), ground (arith, e)), check_port_maps-All pms (ground (arith, e)))

parse_mark_bit-bounds :
    (bit : Option ℕ) (chain : Option Text) (b : ℕ) → parse_mark_bit bit chain ≡ ok b → b ≤ 31
unfolding parse_mark_bit
parse_mark_bit-bounds (some bit) (some chain) b e = cc
parse_mark_bit-bounds (some bit) none b e = ground (arith, e)
parse_mark_bit-bounds none chain b e = ground (arith, e)

-- A configuration that is parsed has a mark bit of at most 31 and positive ports, and no mapping is lost.
pub parse_config-IsParsed :
    (container_id if_name : Text) (n : PortMapInput) (conf : PortMapConf) (prev : Option CniResult)
    → parse_config container_id if_name n ≡ ok (conf, prev)
    → IsParsed conf × (conf.port_maps ≡ n.port_maps)
unfolding parse_config
parse_config-IsParsed container_id if_name n conf prev e =
    let (r, q0, e0) = chain_inverts _ (parse_prev_result n.prev_result) (conf, prev) e in
    let (bit, q1, e1) =
      chain_inverts _ (parse_mark_bit n.mark_masq_bit n.external_set_mark_chain) (conf, prev) e0 in
    let (u, q2, e2) = chain_inverts _ (check_port_maps n.port_maps) (conf, prev) e1 in
    let same_bit : bit ≡ conf.mark_masq_bit = ground (arith, e2) in
    let same_maps : n.port_maps ≡ conf.port_maps = ground (arith, e2) in
    (
      record {
        bit_in_range =
            rw (← same_bit)
              (parse_mark_bit-bounds n.mark_masq_bit n.external_set_mark_chain bit q1);
        ports_positive = rw (← same_maps) (check_port_maps-All n.port_maps q2);
      },
      rw same_maps refl,
    )
