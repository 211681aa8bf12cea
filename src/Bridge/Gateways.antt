-- ===== src/Bridge/Gateways.antt =====
-- pkg/bridge/bridge.go: calcGateways, which notes the gateways of a result and adds default routes.
use village_net.Common.{
  ℕ, Bool, true, false, not, ◌&&◌, List, [], ◌∷◌, ◌++◌, Option, none, some, ◌==◌, if◌then◌else◌,
  length, text_eq, Result, ok, err,
}
use village_net.Net.{Ip, IpNet, is_nil, to4, mask_ip}
use village_net.Cidr.{next_ip}
use village_net.HostLocal.Store.{Text}
use village_net.Cni.{Family, family_v4, family_v6, IpConfig, Route}
use village_net.Cni.Effects.{Error, unknown_ip}

-- gwInfo
pub record GwInfo : Type 0 where
  pub gws : List IpNet
  pub default_route_found : Bool

abbrev pub no_gws : GwInfo
no_gws = record { gws = []; default_route_found = false }

-- What the loop changes: the two gateway lists, the addresses behind it, and the routes.
pub record Calc : Type 0 where
  pub gws_v4 : GwInfo
  pub gws_v6 : GwInfo
  pub ips : List IpConfig
  pub routes : List Route

-- net.IPv4zero and net.IPv6zero with themselves as mask: the destination of a default route.
abbrev pub zero_bytes : List ℕ
zero_bytes = 0 ∷ 0 ∷ 0 ∷ 0 ∷ 0 ∷ 0 ∷ 0 ∷ 0 ∷ 0 ∷ 0 ∷ []

abbrev pub default_net : Family → IpNet
default_net family_v4 = record {
  ip = zero_bytes ++ (255 ∷ 255 ∷ 0 ∷ 0 ∷ 0 ∷ 0 ∷ []);
  mask = zero_bytes ++ (255 ∷ 255 ∷ 0 ∷ 0 ∷ 0 ∷ 0 ∷ []);
}
default_net family_v6 = record {
  ip = zero_bytes ++ (0 ∷ 0 ∷ 0 ∷ 0 ∷ 0 ∷ 0 ∷ []);
  mask = zero_bytes ++ (0 ∷ 0 ∷ 0 ∷ 0 ∷ 0 ∷ 0 ∷ []);
}

-- The family of an address; none is an error.
unfoldable pub family_of : Ip → Option Family
family_of ip =
    if not (is_nil (to4 ip))
    then some family_v4
    else if length ip == 16
    then some family_v6
    else none

-- calcGatewayIP: the address behind the network's.
unfoldable pub calc_gateway_ip : IpNet → Ip
calc_gateway_ip n = next_ip (mask_ip n.ip n.mask)

-- The gateway of an address, calculated where it is missing and the bridge is one.
unfoldable pub gateway_of : Bool → IpConfig → Ip
gateway_of is_gw ipc =
    if is_nil ipc.gateway && is_gw then calc_gateway_ip ipc.address else ipc.gateway

module _ (net_text : IpNet → Text) where
  -- Whether a route with a gateway goes to a destination; networks are compared as text.
  unfoldable pub has_route : IpNet → List Route → Bool
  has_route dst [] = false
  has_route dst (r ∷ rs) =
      let rest = has_route dst rs in
      if not (is_nil r.gw) && text_eq (net_text dst) (net_text r.dst) then true else rest

  -- A default route by a gateway, added where there is none.
  unfoldable pub ensure_default : IpNet → Ip → List Route → List Route
  ensure_default dst gw routes =
      if has_route dst routes then routes else routes ++ (record { dst = dst; gw = gw } ∷ [])

  -- What one address adds to its family's gateways.
  unfoldable pub note_gw : Bool → Bool → Ip → IpConfig → GwInfo → GwInfo
  note_gw is_gw is_default_gw gw ipc info = record {
    gws =
        if is_gw then info.gws ++ (record { ip = gw; mask = ipc.address.mask } ∷ []) else info.gws;
    default_route_found = if is_default_gw then true else info.default_route_found;
  }

  abbrev pub info_of : Family → Calc → GwInfo
  info_of family_v4 c = c.gws_v4
  info_of family_v6 c = c.gws_v6

  abbrev pub with_info : Family → GwInfo → Calc → Calc
  with_info family_v4 i c = record c { gws_v4 = i }
  with_info family_v6 i c = record c { gws_v6 = i }

  -- One round of the loop: the address refers to the container's interface, which is the third.
  unfoldable pub calc_one : Bool → Bool → IpConfig → Family → Calc → Calc
  calc_one is_gw is_default_gw ipc family c =
      let gw = gateway_of is_gw ipc in
      let info = info_of family c in
      let c' = with_info family (note_gw is_gw is_default_gw gw ipc info) c in
      record c' {
        ips = c.ips ++ (record ipc { interface = some 2; gateway = gw } ∷ []);
        routes =
            if is_default_gw && not info.default_route_found
            then ensure_default (default_net family) gw c.routes
            else c.routes;
      }

  unfoldable pub calc_all : Bool → Bool → Calc → List IpConfig → Result Error Calc
  calc_all is_gw is_default_gw c [] = ok c
  calc_all is_gw is_default_gw c (ipc ∷ ipcs) = elim (family_of ipc.address.ip) [
    | none ↦ err unknown_ip
    | some family ↦ calc_all is_gw is_default_gw (calc_one is_gw is_default_gw ipc family c) ipcs
  ]

  unfoldable pub calc_gateways : Bool → Bool → List IpConfig → List Route → Result Error Calc
  calc_gateways is_gw is_default_gw ips routes =
      calc_all is_gw is_default_gw
        (record { gws_v4 = no_gws; gws_v6 = no_gws; ips = []; routes = routes }) ips
