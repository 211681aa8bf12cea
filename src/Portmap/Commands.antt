-- ===== src/Portmap/Commands.antt =====
-- plugins/meta/portmap/main.go: the three commands.
use village_net.Common.{
  Bool, true, false, not, leb, if◌then◌else◌, List, Option, none, some, length, Result, ok, err,
}
use village_net.Net.{IpNet, is_nil}
use village_net.HostLocal.Store.{Text}
use village_net.Cni.{CniResult}
use village_net.Cni.Effects.{Eff, no_prev_result, failed, pure, raise, ignore, ◌>>◌}
use village_net.Portmap.Rules.{PortMapConf, PortTexts}
use village_net.Portmap.Ports.{
  PortHost, forward_ports, check_ports, unforward_ports, delete_portmap_stale_connections,
}
use village_net.Portmap.Config.{ConfigError, PortMapInput, parse_config}

abbrev with_config :
    {A S : Type 0} → Result ConfigError A → (A → Eff S (Unit {0})) → Eff S (Unit {0})
with_config (err e) f = raise failed
with_config (ok a) f = f a

module _ {S : Type 0} (h : PortHost S) (x : PortTexts) (container_id if_name : Text) where
  abbrev has_result : Option CniResult → Bool
  has_result none = false
  has_result (some r) = true

  abbrev forward_family : PortMapConf → IpNet → Bool → Eff S (Unit {0})
  forward_family conf net is_v6 =
      if is_nil net.ip
      then pure tt
      else forward_ports h x conf net
        >> ignore (delete_portmap_stale_connections h x conf.port_maps is_v6)

  -- cmdAdd; the previous result is printed where it succeeds.
  unfoldable pub cmd_add : PortMapInput → Eff S (Unit {0})
  unfolding parse_config
  cmd_add n = with_config (parse_config container_id if_name n) (λ (conf, prev).
      if not (has_result prev)
      then raise no_prev_result
      else if leb (length conf.port_maps) 0
      then pure tt
      else forward_family conf conf.cont_ipv4 false >> forward_family conf conf.cont_ipv6 true)

  unfoldable pub cmd_del : (Text → Option (List Text)) → PortMapInput → Eff S (Unit {0})
  unfolding parse_config
  cmd_del shell_words n = with_config (parse_config container_id if_name n) (λ (conf, prev).
      if leb (length conf.port_maps) 0 then pure tt else unforward_ports h x shell_words conf)

  abbrev check_net : PortMapConf → IpNet → Eff S (Unit {0})
  check_net conf net = if is_nil net.ip then pure tt else check_ports h x conf net

  unfoldable pub cmd_check : PortMapInput → Eff S (Unit {0})
  unfolding parse_config
  cmd_check n = with_config (parse_config container_id if_name n) (λ (conf, prev).
      if not (has_result prev)
      then raise no_prev_result
      else if leb (length conf.port_maps) 0
      then pure tt
      else check_net conf conf.cont_ipv4 >> check_net conf conf.cont_ipv6)
