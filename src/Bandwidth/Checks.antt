-- ===== src/Bandwidth/Checks.antt =====
-- Where cmdCheck of plugins/meta/bandwidth/main.go panics.
use village_net.Common.{◌≡◌, refl, none, some, List, ok, err, true}
use village_net.HostLocal.Store.{Text}
use village_net.Cni.{Interface}
use village_net.Cni.Effects.{panic}
use village_net.Bandwidth.{
  PluginConf, BwHost, BwLink, Sizes, get_bandwidth, validate_conf, get_host_interface, cmd_check,
}

validate_conf-none : (conf : PluginConf) → get_bandwidth conf ≡ none → validate_conf conf ≡ true
unfolding validate_conf
validate_conf-none conf b = rw (b, validate_conf) refl

module _ {S : Type 0} (h : BwHost S) (z : Sizes) (hash : Text → Text) where
  -- Where no bandwidth is configured, a previous result is there, and the namespace, the host's
  -- interface and its link can be read, cmdCheck panics.
  pub cmd_check-panics :
      (container_id if_name netns : Text) (conf : PluginConf) (intfs : List Interface)
      (host : Interface) (l : BwLink) (s : S)
      → get_bandwidth conf ≡ none
      → conf.prev_interfaces ≡ some intfs
      → h.get_ns netns s ≡ (ok tt, s)
      → get_host_interface h z hash intfs if_name netns s ≡ (ok host, s)
      → h.link_by_name host.name s ≡ (ok l, s)
      → cmd_check h z hash container_id if_name netns conf s ≡ (err panic, s)
  unfolding cmd_check
  cmd_check-panics container_id if_name netns conf intfs host l s b p n g q =
      rw (validate_conf-none conf b, p, n, g, q, b) refl
