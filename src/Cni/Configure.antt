-- ===== src/Cni/Configure.antt =====
-- pkg/ipam/ipam_linux.go: ConfigureIface gives an interface the addresses and routes of a result.
use village_net.Common.{
  ℕ, zero, suc, Bool, true, false, not, ◌&&◌, List, [], ◌∷◌, Option, none, some, if◌then◌else◌,
  length, text_eq, codes, ok, err, ltb,
}
use village_net.Net.{Ip, is_nil, to4}
use village_net.HostLocal.Store.{Text}
use village_net.HostLocal.Allocator.{Version, v4, v6}
use village_net.Cni.{Host, Ns, Interface, IpConfig, Route, CniResult}
use village_net.Cni.Effects.{
  Eff, exists, no_interfaces, invalid_interface_index, pure, raise, attempt, for_each, ◌>>=◌, ◌>>◌,
}

abbrev pub is_v6 : Version → Bool
is_v6 v4 = false
is_v6 v6 = true

-- The name of the interface at an index, if there is one.
abbrev pub name_at : List Interface → ℕ → Option Text
name_at [] i = none
name_at (x ∷ xs) zero = some x.name
name_at (x ∷ xs) (suc i) = name_at xs i

-- The first gateway of each family so far, nil before there is one, and whether IPv6 is enabled.
pub record Gateways : Type 0 where
  pub v4gw : Ip
  pub v6gw : Ip
  pub has_enabled_ipv6 : Bool

abbrev pub no_gateways : Gateways
no_gateways = record { v4gw = []; v6gw = []; has_enabled_ipv6 = false }

-- The first gateway of a family is kept. A nil gateway is taken for one of IPv6, and stays nil.
unfoldable pub note_gateway : Gateways → Ip → Gateways
note_gateway g gateway =
    let gw_is_v4 = not (is_nil (to4 gateway)) in
    if gw_is_v4 && is_nil g.v4gw
    then record g { v4gw = gateway }
    else if not gw_is_v4 && is_nil g.v6gw
    then record g { v6gw = gateway }
    else g

-- The gateway of a route: its own, or that of its family.
unfoldable pub route_gateway : Gateways → Route → Ip
route_gateway g r =
    if not (is_nil r.gw)
    then r.gw
    else let route_is_v4 = not (is_nil (to4 r.dst.ip)) in
      if route_is_v4 && not (is_nil g.v4gw)
      then g.v4gw
      else if not route_is_v4 && not (is_nil g.v6gw)
      then g.v6gw
      else []

module _ {S : Type 0} (h : Host S) (ns : Ns) (if_name : Text) where
  -- disable_ipv6 of an interface is set to 0, unless it cannot be read or is 0.
  unfoldable pub enable_ipv6 : Text → Eff S (Unit {0})
  enable_ipv6 iface = do
    value ← attempt (h.sysctl_get ns iface (codes "disable_ipv6"))
    elim value [
      | err e ↦ pure tt
      | ok v ↦
          if text_eq v (codes "0")
          then pure tt
          else h.sysctl_set ns iface (codes "disable_ipv6") (codes "0")
    ]

  -- IPv6 is enabled on the loopback and the interface, before the first IPv6 address.
  unfoldable pub enable_for : Bool → Eff S (Unit {0})
  enable_for needed = if needed then for_each (codes "lo" ∷ if_name ∷ []) enable_ipv6 else pure tt

  -- One round of the loop over the addresses.
  unfoldable pub add_address : Gateways → IpConfig → Eff S Gateways
  add_address g ipc =
      let needed = not g.has_enabled_ipv6 && is_v6 ipc.version in
      (do
        enable_for needed
        h.addr_add ns if_name ipc.address
        pure
            (note_gateway (if needed then record g { has_enabled_ipv6 = true } else g) ipc.gateway))

  -- The loop over the addresses: one without an interface is skipped, one for another is an error.
  unfoldable pub add_addresses : List Interface → Gateways → List IpConfig → Eff S Gateways
  add_addresses infs g [] = pure g
  add_addresses infs g (ipc ∷ ipcs) = elim ipc.interface [
    | none ↦ add_addresses infs g ipcs
    | some i ↦ elim (name_at infs i) [
      | none ↦ raise invalid_interface_index
      | some name ↦
          if text_eq name if_name
          then (do g' ← add_address g ipc; add_addresses infs g' ipcs)
          else raise invalid_interface_index
    ]
  ]

  -- A route that is there already is skipped.
  unfoldable pub add_route : Gateways → Route → Eff S (Unit {0})
  add_route g r = do
    done ← attempt (h.route_add ns r.dst (route_gateway g r) if_name)
    elim done [ ok u ↦ pure tt | err exists ↦ pure tt | err e ↦ raise e ]

  unfoldable pub configure_iface : CniResult → Eff S (Unit {0})
  configure_iface res =
      if ltb 0 (length res.interfaces)
      then (do
        link ← h.link_by_name ns if_name
        h.link_set_up ns link.name
        g ← add_addresses res.interfaces no_gateways res.ips
        if is_nil g.v6gw then pure tt else h.settle_addresses ns if_name
        for_each res.routes (add_route g))
      else raise no_interfaces
