-- ===== src/Bridge.antt =====
-- pkg/bridge: bridge.go and the controller of ctrl.go, which the plugin calls with the container's
-- interface.
pub mod Gateways
pub mod Counts
pub mod DefaultRoutes
pub mod Links
pub mod Addresses
pub mod Examples
use village_net.Common.{
  ℕ, zero, suc, Bool, true, false, not, ◌&&◌, ◌||◌, List, [], ◌∷◌, ◌++◌, Option, none, some, ◌==◌,
  ltb, length, if◌then◌else◌, text_eq, codes, Result, ok, err,
}
use village_net.Net.{Ip, IpNet}
use village_net.HostLocal.Store.{Text}
use village_net.Cni.{
  Host, Ns, own, Family, family_v4, family_v6, Link, NetConf, Interface, IpConfig, Route, CniResult,
}
use village_net.Cni.Effects.{
  Eff, Error, failed, panic, exists, link_not_found, hairpin_and_promisc, missing_ip_config,
  port_not_up, no_prev_result, sandbox_mismatch, not_found, pure, raise, attempt, ignore,
  failing_as, for_each, ◌>>=◌, ◌>>◌,
}
use village_net.Cni.Links.{in_ns, del_link_by_name_addr}
use village_net.Cni.Configure.{configure_iface, is_v6}
use Gateways.{GwInfo, Calc, calc_gateways}
use Links.{
  CniBridgeIf, not_found_if, bridge_by_name, setup_bridge, setup_veth, ensure_addr,
  ensure_vlan_interface, validate_cni_br_interface, validate_cni_veth_interface,
  validate_cni_container_interface,
}

-- What the controller is given: the plugin's arguments, and the texts that its helpers print.
pub record Args : Type 0 where
  pub if_name : Text
  pub netns : Ns
  pub masq_chain : Text
  pub net_text : IpNet → Text
  pub vlan_name : Text → ℕ → Text
  pub is_global : IpNet → Bool

-- Whether an address of IPv6 is to be given to an interface that hears itself.
abbrev pub needs_no_dad : NetConf → List IpConfig → Bool
needs_no_dad conf [] = false
needs_no_dad conf (ipc ∷ ipcs) =
    (is_v6 ipc.version && (conf.hairpin_mode || conf.promisc_mode)) || needs_no_dad conf ipcs

-- The interfaces of the previous result: the bridge, and the container's.
unfoldable pub find_interfaces :
    Text → Text → Ns → Interface × Interface → List Interface → Interface × Interface
find_interfaces br_name if_name netns found [] = found
find_interfaces br_name if_name netns found (intf ∷ intfs) =
    find_interfaces br_name if_name netns
      (if text_eq br_name intf.name
        then (intf, found.1)
        else if text_eq if_name intf.name && text_eq netns intf.sandbox
        then (found.0, intf)
        else found)
      intfs

abbrev pub no_interface : Interface
no_interface = record { name = []; mac = []; sandbox = [] }

module _ {S : Type 0} (h : Host S) (args : Args) (conf : NetConf) where
  -- disableIPV6DAD: nothing is done where the kernel can tell its own packets.
  unfoldable pub disable_ipv6_dad : Eff S (Unit {0})
  disable_ipv6_dad = do
    enh ← attempt (h.sysctl_get args.netns args.if_name (codes "enhanced_dad"))
    elim enh [
      | ok v ↦
          if text_eq v (codes "1")
          then pure tt
          else h.sysctl_set args.netns args.if_name (codes "accept_dad") (codes "0")
      | err e ↦ h.sysctl_set args.netns args.if_name (codes "accept_dad") (codes "0")
    ]

  -- The loop that waits for the bridge's port, over the attempts that are left.
  unfoldable pub await_port : Text → ℕ → Eff S (Unit {0})
  await_port host_name zero = pure tt
  await_port host_name (suc n) = do
    veth ← h.link_by_name own host_name
    if veth.is_oper_up
        then pure tt
        else if n == 0
        then raise port_not_up
        else await_port host_name n

  unfoldable pub announce : List IpConfig → Eff S (Unit {0})
  announce ips = in_ns h args.netns (do
    h.interface_by_name args.netns args.if_name
    for_each ips (λ ipc.
        if is_v6 ipc.version
        then pure tt
        else ignore (h.gratuitous_arp args.netns ipc.address.ip args.if_name)))

  -- One gateway address, on the bridge or on its interface for the VLAN; the first such interface is
  -- noted for the result.
  unfoldable pub set_gateway : Link → Family → Option Interface → IpNet → Eff S (Option Interface)
  set_gateway br family seen gw =
      if conf.vlan == 0
      then failing_as failed (ensure_addr h args.net_text br family gw conf.force_address)
        >> pure seen
      else (do
        vlan_iface ← failing_as failed (ensure_vlan_interface h args.vlan_name br conf.vlan)
        failing_as failed (ensure_addr h args.net_text vlan_iface family gw conf.force_address)
        pure (elim seen [
          | some i ↦ some i
          | none ↦ some (record { name = vlan_iface.name; mac = vlan_iface.mac; sandbox = [] })
        ]))

  unfoldable pub set_each : Link → Family → Option Interface → List IpNet → Eff S (Option Interface)
  set_each br family seen [] = pure seen
  set_each br family seen (gw ∷ gws) =
      set_gateway br family seen gw >>= λ seen'. set_each br family seen' gws

  -- The gateways of one family, and forwarding for it if it has any.
  unfoldable pub set_gateways :
      Link → Family → Option Interface → List IpNet → Eff S (Option Interface)
  set_gateways br family seen gws = do
    seen' ← set_each br family seen gws
    if ltb 0 (length gws) then failing_as failed (h.enable_ip_forward family) else pure tt
    pure seen'

  -- Add with a result, from the calculated gateways on.
  unfoldable pub add_layer3 :
      Bool → Link → Interface → List Interface → Calc → Eff S (Option Interface)
  add_layer3 is_gw br host_if infs c = do
    in_ns h args.netns (do
      if needs_no_dad conf c.ips then disable_ipv6_dad else pure tt
      configure_iface h args.netns args.if_name
          (record { interfaces = infs; ips = c.ips; routes = c.routes }))
    await_port host_if.name 5
    announce c.ips
    vlan_if ←
        (if is_gw
          then (set_gateways br family_v4 none c.gws_v4.gws >>= λ seen.
              set_gateways br family_v6 seen c.gws_v6.gws)
          else pure none)
    if conf.ip_masq
        then for_each c.ips (λ ipc. h.setup_ip_masq args.masq_chain ipc.address)
        else pure tt
    pure vlan_if

  abbrev with_interface : Option Interface → List Interface → List Interface
  with_interface none infs = infs
  with_interface (some i) infs = infs ++ (i ∷ [])

  -- Add from the interfaces on: what is printed, but for the bridge's new address.
  unfoldable pub add_result : Bool → Link → Interface → List Interface → CniResult → Eff S CniResult
  add_result is_gw br host_if infs r =
      if ltb 0 (length r.ips)
      then elim (calc_gateways args.net_text is_gw conf.is_default_gw r.ips r.routes) [
        | err e ↦ raise e
        | ok c ↦ add_layer3 is_gw br host_if infs c >>= λ v.
            pure (record { interfaces = with_interface v infs; ips = c.ips; routes = c.routes })
      ]
      else raise missing_ip_config

  abbrev add_assigned : Option CniResult → Link → Interface → List Interface → Eff S CniResult
  add_assigned none br host_if infs = pure (record { interfaces = infs; ips = []; routes = [] })
  add_assigned (some r) br host_if infs =
      add_result (conf.is_gw || conf.is_default_gw) br host_if infs r

  -- The bridge's hardware address, which may have changed, in the printed result.
  abbrev refetched : Link → CniResult → CniResult
  refetched br r = record r { interfaces = first r.interfaces }
    where
      first : List Interface → List Interface
      first [] = []
      first (x ∷ xs) = record x { mac = br.mac } ∷ xs

  -- Add: nothing that was set up is removed where a later part fails.
  unfoldable pub add : Option CniResult → Eff S (Unit {0})
  add result = if conf.hairpin_mode && conf.promisc_mode then raise hairpin_and_promisc else (do
    br ← setup_bridge h conf
    failing_as failed (h.get_ns args.netns)
    veths ← setup_veth h args.netns br.0 args.if_name conf.mtu conf.hairpin_mode conf.vlan
    assigned ← add_assigned result br.0 veths.0 (br.1 ∷ veths.0 ∷ veths.1 ∷ [])
    br' ← bridge_by_name h conf.br_name
    h.print_result (refetched br' assigned))

  abbrev none_if_missing : Result Error (List IpNet) → Eff S (List IpNet)
  none_if_missing (ok l) = pure l
  none_if_missing (err link_not_found) = pure []
  none_if_missing (err e) = raise e

  -- Del: a link that is gone is no error; the masquerading rules of its addresses go with it.
  unfoldable pub del : Eff S (Unit {0})
  del = if text_eq args.netns [] then pure tt else (do
    h.get_ns args.netns
    ipnets ← in_ns h args.netns (do
      removed ← attempt (del_link_by_name_addr h args.is_global args.netns args.if_name)
      none_if_missing removed)
    elim conf.ipam_type [
      | none ↦ raise panic
      | some ty ↦
          if not (text_eq ty []) && conf.ip_masq
          then for_each ipnets (h.teardown_ip_masq args.masq_chain)
          else pure tt
    ])

  -- The loop of Check that looks for the host's end of the pair.
  unfoldable pub find_veth :
      Interface → Interface → CniBridgeIf → CniBridgeIf → List Interface → Eff S CniBridgeIf
  find_veth br_map cont_map br cont [] = pure not_found_if
  find_veth br_map cont_map br cont (intf ∷ intfs) =
      if text_eq br_map.name intf.name || text_eq cont_map.name intf.name
      then find_veth br_map cont_map br cont intfs
      else (do
        veth ← validate_cni_veth_interface h intf br cont
        if veth.found then pure veth else find_veth br_map cont_map br cont intfs)

  unfoldable pub check : Option (Result Error CniResult) → Eff S (Unit {0})
  check prev = do
    failing_as failed (h.get_ns args.netns)
    elim prev [
      | none ↦ raise no_prev_result
      | some (err e) ↦ raise e
      | some (ok result) ↦
          let (br_map, cont_map) =
            find_interfaces conf.br_name args.if_name args.netns (no_interface, no_interface)
              result.interfaces in
          (do
            br ← validate_cni_br_interface h br_map conf
            if text_eq args.netns cont_map.sandbox then pure tt else raise sandbox_mismatch
            cont ← in_ns h args.netns (validate_cni_container_interface h args.netns cont_map)
            veth ← find_veth br_map cont_map br cont result.interfaces
            if br.found && cont.found && veth.found then pure tt else raise not_found
            in_ns h args.netns (do
              h.validate_ips args.netns args.if_name result.ips
              h.validate_routes args.netns result.routes))
    ]
