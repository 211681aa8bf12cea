-- ===== src/Bridge/Examples.antt =====
-- The bridge's gateways and addresses at concrete values.
use village_net.Common.{◌≡◌, refl, true, false, List, [], ◌∷◌, none, some, codes, text_eq, ok}
use village_net.Net.{IpNet, to4}
use village_net.HostLocal.Store.{Text}
use village_net.Cni.{Host, NetConf, Interface, CniResult, Link, bridge_link, family_v4, IpConfig}
use village_net.Cni.Examples.{Names, host, address}
use village_net.Bridge.Gateways.{
  Calc, default_net, has_route, gateway_of, family_of, calc_gateways, calc_all, calc_one, note_gw,
  ensure_default,
}
use village_net.Bridge.DefaultRoutes.{calc_gateways-has_route}
use village_net.Bridge.{Args}

abbrev text : IpNet → Text
text n = n.ip

abbrev ips : List IpConfig
ips = address 2 none ∷ address 3 none ∷ []

abbrev gws : List IpNet
gws =
    record { ip = 10 ∷ 0 ∷ 0 ∷ 1 ∷ []; mask = 255 ∷ 255 ∷ 255 ∷ 0 ∷ [] }
    ∷ record { ip = 10 ∷ 0 ∷ 0 ∷ 1 ∷ []; mask = 255 ∷ 255 ∷ 255 ∷ 0 ∷ [] }
    ∷ []

abbrev calculated : Calc
calculated = record {
  gws_v4 = record { gws = gws; default_route_found = true };
  gws_v6 = record { gws = []; default_route_found = false };
  ips = address 2 (some 2) ∷ address 3 (some 2) ∷ [];
  routes = record { dst = default_net family_v4; gw = 10 ∷ 0 ∷ 0 ∷ 1 ∷ [] } ∷ [];
}

calc : calc_gateways text true true ips [] ≡ ok calculated
unfolding calc_gateways calc_all calc_one note_gw gateway_of family_of ensure_default has_route to4
    text_eq
calc = refl

calc_gateways-has_route_example : has_route text (default_net family_v4) calculated.routes ≡ true
unfolding gateway_of family_of to4
calc_gateways-has_route_example =
    calc_gateways-has_route text family_v4 ips [] calculated calc refl refl

abbrev br0 : Link
br0 = record {
  name = codes "br0";
  index = 1;
  mac = [];
  mtu = 1500;
  kind = bridge_link;
  master_index = 0;
  promisc = 0;
  is_oper_up = true;
}

abbrev wanted : IpNet
wanted = record { ip = 10 ∷ 0 ∷ 0 ∷ 1 ∷ []; mask = 255 ∷ 255 ∷ 255 ∷ 0 ∷ [] }

abbrev bridge_host : Host Names
bridge_host = record host { link_by_name = λ ns n s. (ok br0, s) }

abbrev args : Args
args = record {
  if_name = codes "eth0";
  netns = codes "/ns";
  masq_chain = codes "CNI";
  net_text = text;
  vlan_name = λ n vlan. n;
  is_global = λ n. true;
}

abbrev conf : NetConf
conf = record {
  name = codes "village";
  ipam_type = some (codes "village-ipam");
  mac_vlan = none;
  br_name = codes "br0";
  is_gw = true;
  is_default_gw = false;
  force_address = false;
  mtu = 1500;
  ip_masq = false;
  hairpin_mode = false;
  promisc_mode = false;
  vlan = 0;
}

abbrev no_addresses : CniResult
no_addresses = record { interfaces = []; ips = []; routes = [] }

abbrev pair : Interface × Interface
pair = (
  record { name = codes "veth1"; mac = []; sandbox = [] },
  record { name = codes "eth0"; mac = codes "aa"; sandbox = codes "/ns" },
)
