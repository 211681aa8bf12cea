-- ===== src/Cni/Examples.antt =====
-- A small host: its state lists the links by name.
use village_net.Common.{
  ℕ, ◌≡◌, refl, true, List, [], ◌∷◌, Option, none, some, if◌then◌else◌, text_eq, codes, ok,
}
use village_net.Net.{to4}
use village_net.HostLocal.Store.{Text}
use village_net.HostLocal.Allocator.{v4}
use village_net.Cni.{Host, Link, other_link, Interface, IpConfig, Route}
use village_net.Cni.Configure.{
  Gateways, no_gateways, route_gateway, note_gateway, add_address, add_addresses, enable_for,
}
use village_net.Cni.Gateways.{route_gateway-first_gateway}

abbrev pub Names : Type 0
Names = List Text

abbrev pub remove : Text → Names → Names
remove x [] = []
remove x (y ∷ ys) = let rest = remove x ys in if text_eq x y then rest else y ∷ rest

abbrev link_of : Text → Link
link_of n = record {
  name = n;
  index = 1;
  mac = codes "aa";
  mtu = 1500;
  kind = other_link;
  master_index = 0;
  promisc = 0;
  is_oper_up = true;
}

abbrev intf_of : Text → Interface
intf_of n = record { name = n; mac = codes "aa"; sandbox = [] }

abbrev pub host : Host Names
host = record {
  get_ns = λ ns s. (ok tt, s);
  enter_ns = λ ns s. (ok tt, s);
  link_by_name = λ ns n s. (ok (link_of n), s);
  link_set_up = λ ns n s. (ok tt, s);
  link_add_macvlan = λ ns a s. (ok tt, a.name ∷ s);
  link_add_bridge = λ n mtu f s. (ok tt, n ∷ s);
  link_del = λ ns n s. (ok tt, remove n s);
  link_set_name = λ ns old new s. (ok tt, new ∷ remove old s);
  link_set_master = λ n br s. (ok tt, s);
  link_set_hairpin = λ n on s. (ok tt, s);
  link_set_hardware_addr = λ n mac s. (ok tt, s);
  bridge_vlan_add = λ n vlan s. (ok tt, s);
  set_promisc_on = λ n s. (ok tt, s);
  sysctl_get = λ ns n k s. (ok (codes "0"), s);
  sysctl_set = λ ns n k v s. (ok tt, s);
  addr_list = λ ns n s. (ok [], s);
  addr_list_of = λ f n s. (ok [], s);
  addr_add = λ ns n a s. (ok tt, s);
  addr_del = λ n a s. (ok tt, s);
  route_add = λ ns dst gw n s. (ok tt, s);
  settle_addresses = λ ns n s. (ok tt, s);
  interface_by_name = λ ns n s. (ok tt, s);
  gratuitous_arp = λ ns ip n s. (ok tt, s);
  setup_veth = λ ns n mtu s. (ok (intf_of (codes "veth1"), intf_of n), n ∷ s);
  veth_peer_index = λ ns n s. (ok 1, s);
  enable_ip_forward = λ f s. (ok tt, s);
  setup_ip_masq = λ chain n s. (ok tt, s);
  teardown_ip_masq = λ chain n s. (ok tt, s);
  validate_ips = λ ns n ips s. (ok tt, s);
  validate_routes = λ ns rs s. (ok tt, s);
  random_veth_name = λ s. (ok (codes "veth0"), s);
  print_result = λ r s. (ok tt, s);
}

abbrev pub address : ℕ → Option ℕ → IpConfig
address n i = record {
  version = v4;
  interface = i;
  address = record { ip = 10 ∷ 0 ∷ 0 ∷ n ∷ []; mask = 255 ∷ 255 ∷ 255 ∷ 0 ∷ [] };
  gateway = 10 ∷ 0 ∷ 0 ∷ 1 ∷ [];
}

abbrev eth0 : Text
eth0 = codes "eth0"

abbrev v4_route : Route
v4_route = record {
  dst = record { ip = 10 ∷ 1 ∷ 0 ∷ 0 ∷ []; mask = 255 ∷ 255 ∷ 0 ∷ 0 ∷ [] };
  gw = [];
}

-- The first address refers to no interface, and its gateway is not taken.
abbrev two_addresses : List IpConfig
two_addresses = record (address 2 none) { gateway = 10 ∷ 0 ∷ 0 ∷ 9 ∷ [] } ∷ address 3 (some 0) ∷ []

abbrev noted : Gateways
noted = record no_gateways { v4gw = 10 ∷ 0 ∷ 0 ∷ 1 ∷ [] }

added : add_addresses host [] eth0 (intf_of eth0 ∷ []) no_gateways two_addresses [] ≡ (ok noted, [])
unfolding add_addresses add_address enable_for note_gateway text_eq to4
added = refl

route_gateway-first_gateway_example : route_gateway noted v4_route ≡ 10 ∷ 0 ∷ 0 ∷ 1 ∷ []
unfolding to4
route_gateway-first_gateway_example =
    route_gateway-first_gateway host [] eth0 (intf_of eth0 ∷ []) noted two_addresses v4_route [] []
      added
