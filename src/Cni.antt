-- ===== src/Cni.antt =====
-- What the plugins share: the configuration of pkg/types, the results that CNI plugins pass on,
-- and actions on the host. The host (netlink, namespaces, sysctl) is a parameter: a state and one
-- operation for each call that the source makes.
pub mod Effects
pub mod Within
pub mod Links
pub mod Configure
pub mod Gateways
pub mod Examples
use village_net.Common.{ℕ, Bool, List, [], ◌∷◌, Option}
use village_net.Net.{Ip, IpNet}
use village_net.HostLocal.Store.{Text}
use village_net.HostLocal.Allocator.{Version}
use Effects.{Eff}

pub record MacVlanConf : Type 0 where
  pub master : Text
  pub mode : Text
  pub mac : Text
  pub mtu : ℕ

pub record NetConf : Type 0 where
  pub name : Text
  pub ipam_type : Option Text
  pub mac_vlan : Option MacVlanConf
  pub br_name : Text
  pub is_gw : Bool
  pub is_default_gw : Bool
  pub force_address : Bool
  pub mtu : ℕ
  pub ip_masq : Bool
  pub hairpin_mode : Bool
  pub promisc_mode : Bool
  pub vlan : ℕ

pub record Interface : Type 0 where
  pub name : Text
  pub mac : Text
  pub sandbox : Text

pub record IpConfig : Type 0 where
  pub version : Version
  pub interface : Option ℕ
  pub address : IpNet
  pub gateway : Ip

pub record Route : Type 0 where
  pub dst : IpNet
  pub gw : Ip

pub record CniResult : Type 0 where
  pub interfaces : List Interface
  pub ips : List IpConfig
  pub routes : List Route

-- The previous result of a chained plugin: missing, malformed, or there.
pub data PrevResult : Type 0 where
  no_result malformed : PrevResult
  result : CniResult → PrevResult

pub data MacvlanMode : Type 0 where
  bridge private vepa passthru : MacvlanMode

pub data Family : Type 0 where
  family_v4 family_v6 : Family

pub data LinkKind : Type 0 where
  bridge_link veth_link other_link : LinkKind
  macvlan_link : MacvlanMode → LinkKind

-- The attributes of a link that the source reads.
pub record Link : Type 0 where
  pub name : Text
  pub index : ℕ
  pub mac : Text
  pub mtu : ℕ
  pub kind : LinkKind
  pub master_index : ℕ
  pub promisc : ℕ
  pub is_oper_up : Bool

pub record MacvlanAttrs : Type 0 where
  pub name : Text
  pub mtu : ℕ
  pub parent_index : ℕ
  pub mac : Text
  pub mode : MacvlanMode

-- A network namespace by its path; the empty path is the plugin's own.
abbrev pub Ns : Type 0
Ns = Text

abbrev pub own : Ns
own = []

-- What the plugins ask of the host, the namespace first. The helpers of pkg/ip that only wrap calls
-- on the host (SetupVeth, GetVethPeerIfindex, SettleAddresses, the masquerading rules, the checks of
-- expected addresses and routes) are operations here too.
pub record Host (S : Type 0) : Type 0 where
  pub get_ns : Ns → Eff S (Unit {0})
  pub enter_ns : Ns → Eff S (Unit {0})
  pub link_by_name : Ns → Text → Eff S Link
  pub link_set_up : Ns → Text → Eff S (Unit {0})
  pub link_add_macvlan : Ns → MacvlanAttrs → Eff S (Unit {0})
  pub link_add_bridge : Text → ℕ → Bool → Eff S (Unit {0})
  pub link_del : Ns → Text → Eff S (Unit {0})
  pub link_set_name : Ns → Text → Text → Eff S (Unit {0})
  pub link_set_master : Text → Text → Eff S (Unit {0})
  pub link_set_hairpin : Text → Bool → Eff S (Unit {0})
  pub link_set_hardware_addr : Text → Text → Eff S (Unit {0})
  pub bridge_vlan_add : Text → ℕ → Eff S (Unit {0})
  pub set_promisc_on : Text → Eff S (Unit {0})
  pub sysctl_get : Ns → Text → Text → Eff S Text
  pub sysctl_set : Ns → Text → Text → Text → Eff S (Unit {0})
  pub addr_list : Ns → Text → Eff S (List IpNet)
  pub addr_list_of : Family → Text → Eff S (List IpNet)
  pub addr_add : Ns → Text → IpNet → Eff S (Unit {0})
  pub addr_del : Text → IpNet → Eff S (Unit {0})
  pub route_add : Ns → IpNet → Ip → Text → Eff S (Unit {0})
  pub settle_addresses : Ns → Text → Eff S (Unit {0})
  pub interface_by_name : Ns → Text → Eff S (Unit {0})
  pub gratuitous_arp : Ns → Ip → Text → Eff S (Unit {0})
  pub setup_veth : Ns → Text → ℕ → Eff S (Interface × Interface)
  pub veth_peer_index : Ns → Text → Eff S ℕ
  pub enable_ip_forward : Family → Eff S (Unit {0})
  pub setup_ip_masq : Text → IpNet → Eff S (Unit {0})
  pub teardown_ip_masq : Text → IpNet → Eff S (Unit {0})
  pub validate_ips : Ns → Text → List IpConfig → Eff S (Unit {0})
  pub validate_routes : Ns → List Route → Eff S (Unit {0})
  pub random_veth_name : Eff S Text
  pub print_result : CniResult → Eff S (Unit {0})
