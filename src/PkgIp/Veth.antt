-- ===== src/PkgIp/Veth.antt =====
-- pkg/ip/link_linux.go: pairs of interfaces; pkg/utils/hwaddr. The names that are drawn at random, the
-- links and the calls of ethtool are parameters.
use village_net.Common.{
  ℕ, zero, suc, ◌-◌, Bool, true, false, not, ◌&&◌, ◌||◌, ◌==◌, ltb, if◌then◌else◌, List, [], ◌∷◌,
  ◌++◌, Option, none, some, Result, ok, err, codes, length, drop,
}
use village_net.Net.{Ip, is_nil, to4}
use village_net.Net.HardwareAddr.{HardwareAddr}
use village_net.HostLocal.Store.{Text}
use village_net.Cni.Effects.{
  Error, Eff, failed, exists, not_veth, pure, raise, attempt, ignore, failing_as, ◌>>=◌, ◌>>◌,
}

-- A link as it is fetched. The index of the parent of a veth is that of its peer.
pub record VethLink : Type 0 where
  pub name : Text
  pub index : ℕ
  pub mac : Text
  pub mtu : ℕ
  pub is_veth : Bool
  pub parent_index : ℕ

-- The namespace comes first: that of the container, where this code runs, is false, the host's true.
-- The error `exists` of link_add is that of a file that exists.
pub record VethHost (S : Type 0) : Type 0 where
  pub random_name : Eff S Text
  pub link_add : Text → Text → ℕ → Eff S (Unit {0})
  pub link_by_name : Bool → Text → Eff S VethLink
  pub link_del : Text → Eff S (Unit {0})
  pub link_set_up : Bool → Text → Eff S (Unit {0})
  pub link_set_ns : Text → Eff S (Unit {0})
  pub enter_host : Eff S (Unit {0})
  pub sysctl_set : Text → Text → Eff S (Unit {0})
  pub set_hardware_addr : Text → HardwareAddr → Eff S (Unit {0})
  pub open_ethtool : Eff S (Unit {0})
  pub peer_statistic : Text → Eff S (Option ℕ)

-- GenerateHardwareAddr4: the last four bytes of the address behind the prefix.
abbrev pub private_mac_prefix : List ℕ
private_mac_prefix = 10 ∷ 88 ∷ []

unfoldable pub generate_hardware_addr4 : Ip → List ℕ → Result Error HardwareAddr
generate_hardware_addr4 ip prefix =
    if is_nil (to4 ip)
    then err failed
    else if not (length prefix == 2)
    then err failed
    else ok (prefix ++ drop (length ip - 4) ip)

abbrev pub is_empty : Text → Bool
is_empty [] = true
is_empty (c ∷ cs) = false

module _ {S : Type 0} (h : VethHost S) where
  abbrev pub fetched : Text → Result Error VethLink → Eff S VethLink
  fetched name (ok l) = pure l
  fetched name (err e) = ignore (h.link_del name) >> raise e

  unfoldable pub make_veth_pair : Text → Text → ℕ → Eff S VethLink
  make_veth_pair name peer mtu = do
    h.link_add name peer mtu
    r ← attempt (h.link_by_name false name)
    fetched name r

  unfoldable pub peer_exists : Text → Eff S Bool
  peer_exists name =
      attempt (h.link_by_name false name) >>= λ r. elim r [ ok l ↦ pure true | err e ↦ pure false ]

  -- The name of the peer: the one that is given, or one that is drawn.
  abbrev pub peer_name_of : Text → Eff S Text
  peer_name_of [] = h.random_name
  peer_name_of (c ∷ cs) = pure (c ∷ cs)

  -- The end of a try: its pair, an error, or another try.
  abbrev pub next_try :
      Text → Text → Eff S (Text × VethLink) → Result Error VethLink → Eff S (Text × VethLink)
  next_try given peer again (ok veth) = pure (peer, veth)
  next_try given peer again (err exists) =
      peer_exists peer >>= λ taken. if taken && is_empty given then again else raise failed
  next_try given peer again (err e) = raise failed

  -- The loop, with the tries that are left.
  abbrev pub make_veth_tries : ℕ → Text → Text → ℕ → Eff S (Text × VethLink)
  make_veth_tries zero name given mtu = raise failed
  make_veth_tries (suc n) name given mtu = do
    peer ← peer_name_of given
    r ← attempt (make_veth_pair name peer mtu)
    next_try given peer (make_veth_tries n name given mtu) r

  unfoldable pub make_veth : Text → Text → ℕ → Eff S (Text × VethLink)
  unfolding make_veth_pair peer_exists
  make_veth name given mtu = make_veth_tries 10 name given mtu

  -- What runs in the namespace of the host.
  abbrev pub host_side : Text → Eff S VethLink
  host_side host_veth_name = do
    host_veth ← failing_as failed (h.link_by_name true host_veth_name)
    failing_as failed (h.link_set_up true host_veth_name)
    ignore (
        h.sysctl_set (codes "net/ipv6/conf/" ++ (host_veth_name ++ codes "/accept_ra")) (codes "0"))
    pure host_veth

  unfoldable pub setup_veth_with_name : Text → Text → ℕ → Eff S (VethLink × VethLink)
  unfolding make_veth
  setup_veth_with_name cont_veth_name given mtu = do
    made ← make_veth cont_veth_name given mtu
    failing_as failed (h.link_set_up false cont_veth_name)
    failing_as failed (h.link_by_name false made.0)
    failing_as failed (h.link_set_ns made.0)
    h.enter_host
    host_veth ← host_side made.0
    pure (host_veth, made.1)

  unfoldable pub setup_veth : Text → ℕ → Eff S (VethLink × VethLink)
  unfolding setup_veth_with_name
  setup_veth cont_veth_name mtu = setup_veth_with_name cont_veth_name [] mtu

  abbrev pub set_generated : Text → Result Error HardwareAddr → Eff S (Unit {0})
  set_generated if_name (ok hw) = failing_as failed (h.set_hardware_addr if_name hw)
  set_generated if_name (err e) = raise failed

  unfoldable pub set_hw_addr_by_ip : Text → Ip → Ip → Eff S (Unit {0})
  unfolding generate_hardware_addr4
  set_hw_addr_by_ip if_name ip4 ip6 = do
    failing_as failed (h.link_by_name false if_name)
    if is_nil ip4 && is_nil ip6
        then raise failed
        else if is_nil ip4
        then pure tt
        else set_generated if_name (generate_hardware_addr4 ip4 private_mac_prefix)

  -- The index that ethtool tells, of a kernel without the index of the peer.
  abbrev pub checked_index : Option ℕ → Eff S ℕ
  checked_index none = raise failed
  checked_index (some n) = if ltb 32767 n || (n == 0) then raise failed else pure n

  unfoldable pub ethtool_index : Text → Eff S ℕ
  ethtool_index name = do
    failing_as failed h.open_ethtool
    n ← failing_as failed (h.peer_statistic name)
    checked_index n

  abbrev pub peer_index_of : VethLink → Eff S (VethLink × ℕ)
  peer_index_of link =
      if link.parent_index == 0
      then (ethtool_index link.name >>= λ i. pure (link, i))
      else pure (link, link.parent_index)

  unfoldable pub get_veth_peer_ifindex : Text → Eff S (VethLink × ℕ)
  unfolding ethtool_index
  get_veth_peer_ifindex if_name = do
    link ← failing_as failed (h.link_by_name false if_name)
    if link.is_veth then peer_index_of link else raise not_veth
