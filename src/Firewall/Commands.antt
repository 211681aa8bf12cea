-- ===== src/Firewall/Commands.antt =====
-- plugins/meta/firewall/firewall.go: the configuration's parser, the choice of a backend, the commands.
use village_net.Common.{Bool, if◌then◌else◌, [], Option, none, some, text_eq, codes}
use village_net.Net.{Ip}
use village_net.HostLocal.Store.{Text}
use village_net.Cni.{CniResult, PrevResult, no_result, malformed, result}
use village_net.Cni.Effects.{Eff, failed, no_prev_result, pure, raise, ◌>>=◌, ◌>>◌}
use village_net.IpTables.{IpTables}
use village_net.Firewall.Backend.{FirewallNetConf, FirewallBackend}
use village_net.Firewall.Rules.{Families, names_of, new_iptables_backend}
use village_net.Firewall.Firewalld.{Bus, is_firewalld_running, new_firewalld_backend}

-- The zone defaults to trusted; without a previous result the result is empty.
unfoldable pub parse_conf : FirewallNetConf → FirewallNetConf
parse_conf conf = record conf {
  firewalld_zone = if text_eq conf.firewalld_zone [] then codes "trusted" else conf.firewalld_zone;
}

module _ {S : Type 0} (open_tables : Bool → Eff S (IpTables S)) (visits : Families S → Families S)
    (bus : Bus S) (ip_text : Ip → Text) where
  unfoldable pub get_backend : FirewallNetConf → Eff S (FirewallBackend S)
  get_backend conf =
      let iptables = new_iptables_backend ip_text (names_of conf) open_tables visits in
      let firewalld = new_firewalld_backend bus ip_text conf in
      if text_eq conf.backend (codes "iptables")
      then iptables
      else if text_eq conf.backend (codes "firewalld")
      then firewalld
      else is_firewalld_running bus ip_text >>= λ running. if running then firewalld else iptables

  abbrev parse_result : PrevResult → Eff S (Option CniResult)
  parse_result no_result = pure none
  parse_result malformed = raise failed
  parse_result (result r) = pure (some r)

  abbrev pub required : Option CniResult → Eff S CniResult
  required none = raise no_prev_result
  required (some r) = pure r

  abbrev or_empty : Option CniResult → CniResult
  or_empty none = record { interfaces = []; ips = []; routes = [] }
  or_empty (some r) = r

  -- The result that it gives is what it prints.
  unfoldable pub cmd_add : FirewallNetConf → PrevResult → Eff S CniResult
  unfolding get_backend parse_conf
  cmd_add conf prev = do
    given ← parse_result prev
    r ← required given
    b ← get_backend (parse_conf conf)
    b.add r
    pure r

  unfoldable pub cmd_del : FirewallNetConf → PrevResult → Eff S (Unit {0})
  unfolding get_backend parse_conf
  cmd_del conf prev = do
    given ← parse_result prev
    b ← get_backend (parse_conf conf)
    b.del (or_empty given)

  unfoldable pub cmd_check : FirewallNetConf → PrevResult → Eff S (Unit {0})
  unfolding get_backend parse_conf
  cmd_check conf prev = do
    given ← parse_result prev
    r ← required given
    b ← get_backend (parse_conf conf)
    b.check r
