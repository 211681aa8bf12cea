-- ===== src/Macvlan/Examples.antt =====
-- The macvlan controller at a small host.
use village_net.Common.{◌≡◌, refl, false, [], ◌∷◌, Option, none, some, codes, text_eq, ok, err}
use village_net.HostLocal.Store.{Text}
use village_net.Cni.{MacVlanConf, NetConf, Interface, CniResult}
use village_net.Cni.Effects.{failed}
use village_net.Cni.Examples.{Names, host}
use village_net.Cni.Links.{rename_link}
use village_net.Macvlan.{create_macvlan, settle_macvlan, check}
use village_net.Macvlan.Modes.{mode_from_string}
use village_net.Village.{Parts}

abbrev conf : MacVlanConf
conf = record { master = codes "eth1"; mode = codes "private"; mac = []; mtu = 1500 }

abbrev no_mac : Text → Option Text
no_mac s = none

abbrev mv0 : Text
mv0 = codes "mv0"

abbrev netns : Text
netns = codes "/ns"

abbrev new_interface : Interface
new_interface = record { name = mv0; mac = codes "aa"; sandbox = netns }

created : create_macvlan host no_mac conf mv0 netns [] ≡ (ok new_interface, mv0 ∷ [])
unfolding create_macvlan settle_macvlan mode_from_string rename_link text_eq
created = refl

abbrev nothing : CniResult
nothing = record { interfaces = []; ips = []; routes = [] }

abbrev result : CniResult
result = record {
  interfaces = record { name = codes "eth0"; mac = []; sandbox = netns } ∷ [];
  ips = [];
  routes = [];
}

abbrev parts : Parts Names
parts = record {
  exec_add = λ ty s. (ok result, s);
  exec_del = λ ty s. (ok tt, s);
  exec_check = λ ty s. (ok tt, s);
  bridge_add = λ n c r s. (ok tt, s);
  bridge_del = λ n c s. (ok tt, s);
  bridge_check = λ n c s. (ok tt, s);
  macvlan_add = λ n c r s. (err failed, s);
  macvlan_del = λ n c s. (ok tt, s);
  macvlan_check = λ n c. check host no_mac c.mac_vlan n netns (some (ok result));
}

abbrev bridge_only : NetConf
bridge_only = record {
  name = codes "village";
  ipam_type = some (codes "village-ipam");
  mac_vlan = none;
  br_name = codes "br0";
  is_gw = false;
  is_default_gw = false;
  force_address = false;
  mtu = 1500;
  ip_masq = false;
  hairpin_mode = false;
  promisc_mode = false;
  vlan = 0;
}
