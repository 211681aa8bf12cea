-- ===== src/Firewall/Backend.antt =====
-- plugins/meta/firewall/firewall.go: the configuration and the interface of the backends.
use village_net.Common.{if◌then◌else◌, ◌++◌, codes}
use village_net.Net.{Ip, IpNet, is_nil, to4}
use village_net.HostLocal.Store.{Text}
use village_net.Cni.{CniResult}
use village_net.Cni.Effects.{Eff}

pub record FirewallNetConf : Type 0 where
  pub backend : Text
  pub admin_chain_name : Text
  pub firewalld_zone : Text

-- FirewallBackend; the configuration is the one that the backend was made for.
pub record FirewallBackend (S : Type 0) : Type 0 where
  pub add : CniResult → Eff S (Unit {0})
  pub del : CniResult → Eff S (Unit {0})
  pub check : CniResult → Eff S (Unit {0})

-- ipString, over the text of an address.
unfoldable pub ip_string : (Ip → Text) → IpNet → Text
ip_string ip_text net =
    if is_nil (to4 net.ip) then ip_text net.ip ++ codes "/128" else ip_text net.ip ++ codes "/32"
