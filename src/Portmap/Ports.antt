-- ===== src/Portmap/Ports.antt =====
-- plugins/meta/portmap/portmap.go: forwardPorts, checkPorts and unforwardPorts over the host.
use village_net.Common.{
  ℕ, ◌%◌, Bool, true, false, ◌&&◌, if◌then◌else◌, List, [], ◌∷◌, ◌++◌, Option, none, some, text_eq,
  codes, ok, err,
}
use village_net.Net.{Ip, IpNet}
use village_net.HostLocal.Store.{Text}
use village_net.Cni.Effects.{
  Eff, panic, failed, no_tables, pure, raise, attempt, ignore, failing_as, ◌>>=◌, ◌>>◌,
}
use village_net.IpTables.{IpTables, chain_exists}
use village_net.Portmap.Chain.{Chain, setup, check, teardown}
use village_net.Portmap.Rules.{
  PortMapEntry, PortMapConf, PortTexts, is_v6_net, fill_dnat_rules, gen_toplevel_dnat_chain,
  gen_dnat_chain, gen_old_snat_chain, gen_set_mark_chain, gen_mark_masq_chain,
}

-- The host: the tables of a family (true is IPv6), routes by their link's index, sysctls, and the
-- removal of the connections of a UDP port.
pub record PortHost (S : Type 0) : Type 0 where
  pub open_tables : Bool → Eff S (IpTables S)
  pub route_get : Ip → Eff S (List ℕ)
  pub link_name : ℕ → Eff S Text
  pub sysctl : Text → Text → Eff S (Unit {0})
  pub delete_conntrack : ℕ → Bool → Eff S (Unit {0})

module _ {S : Type 0} (h : PortHost S) (x : PortTexts) where
  abbrev first_link : List ℕ → Eff S Text
  first_link [] = pure []
  first_link (i ∷ is) =
      attempt (h.link_name i) >>= λ r. elim r [ ok name ↦ pure name | err e ↦ first_link is ]

  unfoldable pub get_routable_host_if : Ip → Eff S Text
  get_routable_host_if ip =
      attempt (h.route_get ip) >>= λ r. elim r [ ok routes ↦ first_link routes | err e ↦ pure [] ]

  unfoldable pub enable_localnet_routing : Text → Eff S (Unit {0})
  enable_localnet_routing if_name =
      h.sysctl (codes "net.ipv4.conf." ++ (if_name ++ codes ".route_localnet")) (codes "1")

  abbrev is_none : {A : Type 0} → Option A → Bool
  is_none none = true
  is_none (some a) = false

  abbrev mark_chains : IpTables S → PortMapConf → Eff S (Unit {0})
  mark_chains ipt config =
      if is_none config.external_set_mark_chain
      then (do
        failing_as failed (setup ipt (gen_set_mark_chain x config.mark_masq_bit))
        failing_as failed (setup ipt (gen_mark_masq_chain x config.mark_masq_bit)))
      else pure tt

  abbrev route_localnet : IpNet → Eff S (Unit {0})
  route_localnet net = if is_v6_net net then pure tt else (do
    name ← get_routable_host_if net.ip
    if text_eq name [] then pure tt else failing_as failed (enable_localnet_routing name))

  -- The chain of a container; its name panics if the prefix is too long.
  abbrev the_chain : Option Chain → Eff S Chain
  the_chain none = raise panic
  the_chain (some c) = pure c

  unfoldable pub forward_ports : PortMapConf → IpNet → Eff S (Unit {0})
  unfolding get_routable_host_if enable_localnet_routing
  forward_ports config net = do
    ipt ← failing_as failed (h.open_tables (is_v6_net net))
    if config.snat then (mark_chains ipt config >> route_localnet net) else pure tt
    failing_as failed (setup ipt gen_toplevel_dnat_chain)
    c ← the_chain (gen_dnat_chain x config.name config.container_id)
    failing_as failed (setup ipt (fill_dnat_rules x c config net))

  -- maybeGetIptables
  unfoldable pub maybe_get_iptables : Bool → Eff S (Option (IpTables S))
  maybe_get_iptables is_v6 = attempt (h.open_tables is_v6) >>= λ r. elim r [
    | err e ↦ pure none
    | ok ipt ↦ attempt (ipt.list_rules (codes "nat") (codes "OUTPUT")) >>= λ l. elim l [
      | err e ↦ pure none
      | ok rules ↦ pure (some ipt)
    ]
  ]

  -- The check in one family: whether to go on, for a missing chain ends it without an error.
  abbrev check_family : Chain → Option (IpTables S) → Eff S Bool
  check_family c none = pure true
  check_family c (some ipt) = do
    exists ← chain_exists ipt c.table c.name
    if exists then (failing_as failed (check ipt c) >> pure true) else pure false

  unfoldable pub check_ports : PortMapConf → IpNet → Eff S (Unit {0})
  unfolding maybe_get_iptables
  check_ports config net = do
    c0 ← the_chain (gen_dnat_chain x config.name config.container_id)
    let c = fill_dnat_rules x c0 config net
    ip4t ← maybe_get_iptables false
    ip6t ← maybe_get_iptables true
    if is_none ip4t && is_none ip6t then raise no_tables else pure tt
    go_on ← check_family c ip4t
    if go_on then (check_family c ip6t >> pure tt) else pure tt

  abbrev teardown_family :
      (Text → Option (List Text)) → Chain → Chain → Option (IpTables S) → Eff S (Unit {0})
  teardown_family shell_words c old none = pure tt
  teardown_family shell_words c old (some ipt) = do
    failing_as failed (teardown ipt shell_words c)
    ignore (teardown ipt shell_words old)

  unfoldable pub unforward_ports : (Text → Option (List Text)) → PortMapConf → Eff S (Unit {0})
  unfolding maybe_get_iptables
  unforward_ports shell_words config = do
    c ← the_chain (gen_dnat_chain x config.name config.container_id)
    old ← the_chain (gen_old_snat_chain x config.name config.container_id)
    ip4t ← maybe_get_iptables false
    ip6t ← maybe_get_iptables true
    if is_none ip4t && is_none ip6t then raise no_tables else pure tt
    teardown_family shell_words c old ip4t
    teardown_family shell_words c old ip6t

  -- deletePortmapStaleConnections: the port is cut to 16 bits.
  unfoldable pub delete_portmap_stale_connections : List PortMapEntry → Bool → Eff S (Unit {0})
  delete_portmap_stale_connections [] is_v6 = pure tt
  delete_portmap_stale_connections (pm ∷ pms) is_v6 =
      let rest = delete_portmap_stale_connections pms is_v6 in
      if text_eq (x.to_lower pm.protocol) (codes "udp")
      then h.delete_conntrack (pm.host_port % 65536) is_v6 >> rest
      else rest
