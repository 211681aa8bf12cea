-- ===== src/PkgIp/Masq.antt =====
-- pkg/ip/ipmasq_linux.go: the rules that masquerade the packets of a network, over the tables of iptables.
use village_net.Common.{Bool, true, false, if◌then◌else◌, [], ◌∷◌, Result, ok, err, codes}
use village_net.Net.{Ip, IpNet, is_nil, to4}
use village_net.HostLocal.Store.{Text}
use village_net.Cni.Effects.{
  Error, Eff, failed, rule_not_found, pure, raise, attempt, failing_as, ◌>>=◌, ◌>>◌,
}
use village_net.IpTables.{IpTables, Rule, one_of}

abbrev pub nat : Text
nat = codes "nat"

abbrev pub postrouting : Text
postrouting = codes "POSTROUTING"

abbrev pub commented : Text → Rule → Rule
commented comment rule =
    rule_with rule (codes "-m" ∷ codes "comment" ∷ codes "--comment" ∷ comment ∷ [])
  where
    rule_with : Rule → Rule → Rule
    rule_with [] q = q
    rule_with (t ∷ r) q = t ∷ rule_with r q

-- The chain's rule for the network, its rule for all but multicast, and the rule that leads to it.
abbrev pub accept_rule : Text → Text → Rule
accept_rule net_text comment =
    commented comment (codes "-d" ∷ net_text ∷ codes "-j" ∷ codes "ACCEPT" ∷ [])

abbrev pub masquerade_rule : Text → Text → Rule
masquerade_rule multicast comment =
    commented comment (codes "!" ∷ codes "-d" ∷ multicast ∷ codes "-j" ∷ codes "MASQUERADE" ∷ [])

abbrev pub jump_rule : Text → Text → Text → Rule
jump_rule source chain comment = commented comment (codes "-s" ∷ source ∷ codes "-j" ∷ chain ∷ [])

abbrev pub multicast_net : Bool → Text
multicast_net true = codes "ff00::/8"
multicast_net false = codes "224.0.0.0/4"

-- An error that says that a chain or a rule does not exist.
abbrev pub unless_not_exist : {S : Type 0} → Result Error (Unit {0}) → Eff S (Unit {0})
unless_not_exist (ok u) = pure tt
unless_not_exist (err rule_not_found) = pure tt
unless_not_exist (err e) = raise e

module _ {S : Type 0} (open_tables : Bool → Eff S (IpTables S)) (ip_text : Ip → Text)
    (net_text : IpNet → Text) where
  abbrev pub is_v6 : IpNet → Bool
  is_v6 ipn = is_nil (to4 ipn.ip)

  abbrev pub masq_rules : IpTables S → IpNet → Text → Text → Eff S (Unit {0})
  masq_rules ipt ipn chain comment = do
    ipt.append_unique nat chain (accept_rule (net_text ipn) comment)
    ipt.append_unique nat chain (masquerade_rule (multicast_net (is_v6 ipn)) comment)
    ipt.append_unique nat postrouting (jump_rule (ip_text ipn.ip) chain comment)

  unfoldable pub setup_ip_masq : IpNet → Text → Text → Eff S (Unit {0})
  setup_ip_masq ipn chain comment = do
    ipt ← failing_as failed (open_tables (is_v6 ipn))
    chains ← failing_as failed (ipt.list_chains nat)
    if one_of chain chains then pure tt else ipt.new_chain nat chain
    masq_rules ipt ipn chain comment

  unfoldable pub teardown_ip_masq : IpNet → Text → Text → Eff S (Unit {0})
  teardown_ip_masq ipn chain comment = do
    ipt ← failing_as failed (open_tables (is_v6 ipn))
    r ← attempt (ipt.delete nat postrouting (jump_rule (ip_text ipn.ip) chain comment))
    unless_not_exist r
    r ← attempt (ipt.delete nat postrouting (jump_rule (net_text ipn) chain comment))
    unless_not_exist r
    r ← attempt (ipt.clear nat chain)
    unless_not_exist r
    r ← attempt (ipt.remove_chain nat chain)
    unless_not_exist r
