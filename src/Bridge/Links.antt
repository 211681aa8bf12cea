-- ===== src/Bridge/Links.antt =====
-- pkg/bridge/bridge.go: the bridge, its addresses, and the interfaces on it.
use village_net.Common.{
  ℕ, Bool, true, false, not, ◌&&◌, ◌||◌, List, [], ◌∷◌, ◌==◌, if◌then◌else◌, text_eq, codes, ok,
  err,
}
use village_net.Net.{IpNet, net_contains}
use village_net.HostLocal.Store.{Text}
use village_net.Cni.{
  Host, Ns, own, Family, family_v4, family_v6, Link, LinkKind, bridge_link, veth_link, NetConf,
  Interface,
}
use village_net.Cni.Effects.{
  Eff, failed, exists, link_not_found, not_found, not_bridge, not_veth, missing_name,
  missing_sandbox, sandbox_mismatch, mac_mismatch, promisc_mismatch, address_conflict, pure, raise,
  attempt, ignore, failing_as, ◌>>=◌, ◌>>◌,
}
use village_net.Cni.Links.{in_ns}

abbrev is_bridge : LinkKind → Bool
is_bridge bridge_link = true
is_bridge _ = false

abbrev is_veth : LinkKind → Bool
is_veth veth_link = true
is_veth _ = false

abbrev pub is_v4_family : Family → Bool
is_v4_family family_v4 = true
is_v4_family family_v6 = false

-- cniBridgeIf
pub record CniBridgeIf : Type 0 where
  pub name : Text
  pub if_index : ℕ
  pub peer_index : ℕ
  pub master_index : ℕ
  pub found : Bool

abbrev pub not_found_if : CniBridgeIf
not_found_if = record { name = []; if_index = 0; peer_index = 0; master_index = 0; found = false }

module _ {S : Type 0} where
  -- An error that stands for what is there already.
  abbrev pub unless_exists : Eff S (Unit {0}) → Eff S (Unit {0})
  unless_exists m =
      attempt m >>= λ r. elim r [ ok u ↦ pure tt | err exists ↦ pure tt | err e ↦ raise failed ]

module _ {S : Type 0} (h : Host S) where
  unfoldable pub bridge_by_name : Text → Eff S Link
  bridge_by_name name = do
    l ← failing_as failed (h.link_by_name own name)
    if is_bridge l.kind then pure l else raise not_bridge

  unfoldable pub ensure_bridge : Text → ℕ → Bool → Bool → Eff S Link
  ensure_bridge br_name mtu promisc_mode vlan_filtering = do
    unless_exists (h.link_add_bridge br_name mtu vlan_filtering)
    if promisc_mode then failing_as failed (h.set_promisc_on br_name) else pure tt
    br ← bridge_by_name br_name
    ignore (h.sysctl_set own br_name (codes "accept_ra") (codes "0"))
    h.link_set_up own br.name
    pure br

  unfoldable pub setup_bridge : NetConf → Eff S (Link × Interface)
  setup_bridge n = do
    br ← failing_as failed (ensure_bridge n.br_name n.mtu n.promisc_mode (not (n.vlan == 0)))
    pure (br, record { name = br.name; mac = br.mac; sandbox = [] })

  unfoldable pub delete_addr : Link → IpNet → Eff S (Unit {0})
  delete_addr br ipn = failing_as failed (h.addr_del br.name ipn)

  -- The loop of ensureAddr over the addresses of the bridge: whether the wanted one is there.
  unfoldable pub clear_way : (IpNet → Text) → Link → Family → IpNet → Bool → List IpNet → Eff S Bool
  clear_way net_text br family ipn force_address [] = pure false
  clear_way net_text br family ipn force_address (a ∷ addrs) =
      if text_eq (net_text a) (net_text ipn)
      then pure true
      else if is_v4_family family || net_contains a ipn.ip || net_contains ipn a.ip
      then if force_address
        then delete_addr br a >> clear_way net_text br family ipn force_address addrs
        else raise address_conflict
      else clear_way net_text br family ipn force_address addrs

  -- The addresses of a link; `not_found` is ENOENT, which stands for none.
  abbrev pub addresses_of : Link → Family → Eff S (List IpNet)
  addresses_of br family = attempt (h.addr_list_of family br.name) >>= λ r. elim r [
    | ok l ↦ pure l
    | err not_found ↦ pure []
    | err e ↦ raise failed
  ]

  unfoldable pub ensure_addr : (IpNet → Text) → Link → Family → IpNet → Bool → Eff S (Unit {0})
  ensure_addr net_text br family ipn force_address = do
    addrs ← addresses_of br family
    there ← clear_way net_text br family ipn force_address addrs
    if there then pure tt else (do
      unless_exists (h.addr_add own br.name ipn)
      failing_as failed (h.link_set_hardware_addr br.name br.mac))

  -- setupVeth: the container's end, and the host's end on the bridge.
  unfoldable pub setup_veth : Ns → Link → Text → ℕ → Bool → ℕ → Eff S (Interface × Interface)
  setup_veth netns br if_name mtu hairpin_mode vlan_id = do
    pair ← in_ns h netns (h.setup_veth netns if_name mtu)
    host_veth ← failing_as failed (h.link_by_name own pair.0.name)
    failing_as failed (h.link_set_master host_veth.name br.name)
    failing_as failed (h.link_set_hairpin host_veth.name hairpin_mode)
    if vlan_id == 0 then pure tt else failing_as failed (h.bridge_vlan_add host_veth.name vlan_id)
    pure (
      record { name = pair.0.name; mac = host_veth.mac; sandbox = [] },
      record { name = pair.1.name; mac = pair.1.mac; sandbox = netns },
    )

  -- ensureVlanInterface: the bridge's own end of a pair, named by the bridge and the VLAN.
  unfoldable pub ensure_vlan_interface : (Text → ℕ → Text) → Link → ℕ → Eff S Link
  ensure_vlan_interface vlan_name br vlan_id = do
    there ← attempt (h.link_by_name own (vlan_name br.name vlan_id))
    elim there [
      | ok l ↦ pure l
      | err link_not_found ↦ do
        pair ←
            failing_as failed (setup_veth own br (vlan_name br.name vlan_id) br.mtu false vlan_id)
        failing_as failed (h.link_by_name own pair.1.name)
      | err e ↦ raise failed
    ]

  -- validateInterface
  unfoldable pub validate_interface : Ns → Interface → Bool → Eff S Link
  validate_interface ns intf expect_in_sb = if text_eq intf.name [] then raise missing_name else (do
    link ← failing_as failed (h.link_by_name ns intf.name)
    if expect_in_sb
        then if text_eq intf.sandbox [] then raise missing_sandbox else pure link
        else if text_eq intf.sandbox []
        then pure link
        else raise sandbox_mismatch)

  abbrev check_mac : Interface → Link → Eff S (Unit {0})
  check_mac intf link =
      if not (text_eq intf.mac []) && not (text_eq intf.mac link.mac)
      then raise mac_mismatch
      else pure tt

  unfoldable pub validate_cni_br_interface : Interface → NetConf → Eff S CniBridgeIf
  validate_cni_br_interface intf n = do
    link ← validate_interface own intf false
    if is_bridge link.kind then pure tt else raise not_bridge
    check_mac intf link
    if (if link.promisc == 0 then n.promisc_mode else not n.promisc_mode)
        then raise promisc_mismatch
        else pure tt
    pure (record {
      name = link.name;
      if_index = link.index;
      peer_index = 0;
      master_index = link.master_index;
      found = true;
    })

  -- A link that is not the pair's end is not found, which is no error.
  unfoldable pub validate_cni_veth_interface :
      Interface → CniBridgeIf → CniBridgeIf → Eff S CniBridgeIf
  validate_cni_veth_interface intf br_if cont_if = do
    link ← validate_interface own intf false
    if not (is_veth link.kind) then pure not_found_if else (do
      peer ← failing_as failed (h.veth_peer_index own link.name)
      let veth : CniBridgeIf = record {
        name = [];
        if_index = link.index;
        peer_index = peer;
        master_index = link.master_index;
        found = false;
      }
      if link.index == cont_if.peer_index
            && cont_if.if_index == peer
            && link.master_index == br_if.if_index
          then check_mac intf link >> pure (record veth { name = link.name; found = true })
          else pure veth)

  unfoldable pub validate_cni_container_interface : Ns → Interface → Eff S CniBridgeIf
  validate_cni_container_interface netns intf = do
    link ← validate_interface netns intf true
    if is_veth link.kind then pure tt else raise not_veth
    peer ← failing_as failed (h.veth_peer_index netns link.name)
    check_mac intf link
    pure (record {
      name = link.name;
      if_index = link.index;
      peer_index = peer;
      master_index = 0;
      found = true;
    })
