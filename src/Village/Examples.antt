-- ===== src/Village/Examples.antt =====
-- The plugin at a small host: the state lists the interfaces and the addresses that are held.
use village_net.Common.{
  ℕ, ◌+◌, ◌≡◌, ap, refl, Bool, true, false, List, [], ◌∷◌, Option, none, some, length, codes,
  text_eq, if◌then◌else◌, ok, err,
}
use village_net.HostLocal.Store.{Text}
use village_net.HostLocal.Allocator.{v4}
use village_net.Cni.{NetConf, Interface, IpConfig, CniResult}
use village_net.Cni.Effects.{failed}
use village_net.Village.{
  Parts, Split, append_both, split_one, split_all, split_result, cmd_add, add_layer3, add_assigned,
  add_interfaces,
}
use village_net.Village.Division.{IsSplit, split_result-IsSplit}
use village_net.Village.Cleanup.{cmd_add-released, cmd_add-leaks}

record Machine : Type 0 where
  links : List Text
  held : Bool

abbrev remove : Text → List Text → List Text
remove x [] = []
remove x (y ∷ ys) = if text_eq x y then remove x ys else y ∷ remove x ys

abbrev br0 : Interface
br0 = record { name = codes "br0"; mac = []; sandbox = [] }

abbrev mv1 : Interface
mv1 = record { name = codes "mv1"; mac = []; sandbox = [] }

abbrev address : ℕ → Option ℕ → IpConfig
address n i = record {
  version = v4;
  interface = i;
  address = record { ip = 10 ∷ 0 ∷ 0 ∷ n ∷ []; mask = 255 ∷ 255 ∷ 255 ∷ 0 ∷ [] };
  gateway = 10 ∷ 0 ∷ 0 ∷ 1 ∷ [];
}

abbrev assigned : CniResult
assigned = record {
  interfaces = br0 ∷ mv1 ∷ [];
  ips = address 2 (some 0) ∷ address 3 (some 1) ∷ address 4 none ∷ [];
  routes = [];
}

abbrev divided : Split
divided = record {
  br = record {
    interfaces = br0 ∷ [];
    ips = address 2 (some 0) ∷ address 4 none ∷ [];
    routes = [];
  };
  mv = record { interfaces = mv1 ∷ []; ips = address 3 (some 0) ∷ []; routes = [] };
}

abbrev parts : Parts Machine
parts = record {
  exec_add = λ ty s. (ok assigned, record s { held = true });
  exec_del = λ ty s. (ok tt, record s { held = false });
  exec_check = λ ty s. (ok tt, s);
  bridge_add = λ n c r s. (ok tt, record s { links = n ∷ s.links });
  bridge_del = λ n c s. (ok tt, record s { links = remove n s.links });
  bridge_check = λ n c s. (ok tt, s);
  macvlan_add = λ n c r s. (err failed, s);
  macvlan_del = λ n c s. (ok tt, record s { links = remove n s.links });
  macvlan_check = λ n c s. (ok tt, s);
}

abbrev conf : NetConf
conf = record {
  name = codes "village";
  ipam_type = some (codes "village-ipam");
  mac_vlan = some (record { master = codes "eth1"; mode = codes "bridge"; mac = []; mtu = 1500 });
  br_name = codes "br0";
  is_gw = false;
  is_default_gw = false;
  force_address = false;
  mtu = 1500;
  ip_masq = false;
  hairpin_mode = false;
  promisc_mode = false;
  vlan = 0;
}

abbrev idle : Machine
idle = record { links = []; held = false }

abbrev eth0 : Text
eth0 = codes "eth0"

split_assigned : split_result assigned ≡ ok divided
unfolding split_result split_all split_one append_both text_eq
split_assigned = refl

split_result-IsSplit_example :
    IsSplit divided × (length divided.br.ips + length divided.mv.ips ≡ length assigned.ips)
split_result-IsSplit_example = split_result-IsSplit assigned divided split_assigned

-- One address too many: its interface is not there.
abbrev broken : CniResult
broken = record assigned { ips = address 2 (some 2) ∷ [] }

run_fails : cmd_add parts conf eth0 idle ≡ (err failed, record { links = eth0 ∷ []; held = false })
unfolding cmd_add add_layer3 add_assigned add_interfaces split_result split_all split_one
    append_both text_eq
run_fails = refl

cmd_add-released_example : (cmd_add parts conf eth0 idle).1.held ≡ false
unfolding text_eq
cmd_add-released_example =
    cmd_add-released parts conf (codes "village-ipam") eth0 (λ s. s.held ≡ false) idle
      (record { links = []; held = true }) assigned failed refl refl (λ s. refl) refl
      (ap (λ x. x.0) run_fails)

cmd_add-leaks_example :
    ((cmd_add parts conf eth0 idle).0 ≡ err failed)
    × ((cmd_add parts conf eth0 idle).1.links ≡ eth0 ∷ [])
unfolding text_eq
cmd_add-leaks_example =
    cmd_add-leaks parts conf (codes "village-ipam") eth0 (λ s. s.links ≡ eth0 ∷ []) idle
      (record { links = []; held = true }) (record { links = eth0 ∷ []; held = true })
      (record { links = eth0 ∷ []; held = true }) assigned divided failed refl refl refl
      split_assigned refl refl refl refl (λ s h. rw h refl) (λ s h. h)
