-- ===== src/Firewall/Examples.antt =====
-- The firewall over tables that are lists.
use village_net.Common.{
  ℕ, ◌≡◌, refl, Bool, true, false, List, [], ◌∷◌, none, ok, err, codes, text_eq,
}
use village_net.Net.{Ip, to4}
use village_net.HostLocal.Allocator.{v4}
use village_net.Cni.{CniResult, IpConfig, result}
use village_net.Cni.Effects.{Eff, failed}
use village_net.IpTables.{IpTables, ensure_chain}
use village_net.IpTables.Pairs.{
  Pair, family, chains_of, has_rule_of, family-IpTablesLaws, family-Leaves, no_tables,
}
use village_net.Firewall.Backend.{FirewallNetConf}
use village_net.Firewall.Firewalld.{Bus}
use village_net.Firewall.Rules.{
  Families, new_iptables_backend, family_rules, names_of, generate_admin_rule,
}
use village_net.Firewall.Commands.{cmd_add, cmd_check}
use village_net.Firewall.Accepts.{cmd_check-cmd_add}

abbrev conf : FirewallNetConf
conf = record { backend = codes "iptables"; admin_chain_name = []; firewalld_zone = [] }

abbrev address : Ip → List ℕ → IpConfig
address ip mask = record {
  version = v4;
  interface = none;
  address = record { ip = ip; mask = mask };
  gateway = [];
}

abbrev two_addresses : CniResult
two_addresses = record {
  interfaces = [];
  ips =
      address (10 ∷ 0 ∷ 0 ∷ 2 ∷ []) (255 ∷ 255 ∷ 255 ∷ 0 ∷ [])
      ∷ address (253 ∷ 0 ∷ 0 ∷ 0 ∷ 0 ∷ 0 ∷ 0 ∷ 0 ∷ 0 ∷ 0 ∷ 0 ∷ 0 ∷ 0 ∷ 0 ∷ 0 ∷ 2 ∷ []) []
      ∷ [];
  routes = [];
}

abbrev bus : Bus Pair
bus = record {
  get_conn = λ s. (err failed, s);
  get_name_owner = λ s. (err failed, s);
  add_source = λ zone source s. (ok tt, s);
  remove_source = λ zone source s. (ok tt, s);
  query_source = λ zone source s. (ok true, s);
}

abbrev open_family : Bool → Eff Pair (IpTables Pair)
open_family b s = (ok (family b), s)

abbrev swapped : Families Pair → Families Pair
swapped (x ∷ y ∷ []) = y ∷ x ∷ []
swapped fs = fs

abbrev added : Pair
added = (cmd_add open_family swapped bus (λ ip. ip) conf (result two_addresses) no_tables).1

runs :
    cmd_add open_family swapped bus (λ ip. ip) conf (result two_addresses) no_tables
    ≡ (ok two_addresses, added)
unfolding cmd_add text_eq new_iptables_backend family_rules to4 ensure_chain names_of
    generate_admin_rule
runs = refl

cmd_check-cmd_add_example :
    cmd_check open_family (λ fs. fs) bus (λ ip. ip) conf (result two_addresses) added
    ≡ (ok tt, added)
unfolding text_eq
cmd_check-cmd_add_example =
    cmd_check-cmd_add family chains_of has_rule_of family-IpTablesLaws family-Leaves (λ ip. ip) bus
      open_family swapped (λ fs. fs) true false conf two_addresses no_tables added (λ b s. refl)
      refl refl refl runs
