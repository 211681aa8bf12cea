-- ===== src/PkgIp/Validate.antt =====
-- pkg/ip/utils_linux.go and pkg/ip/route_linux.go: that the addresses and routes of a result are there,
-- and the routes that are added.
use village_net.Common.{
  ℕ, Bool, true, false, not, ◌&&◌, ◌==◌, if◌then◌else◌, List, [], ◌∷◌, Option, none, some, codes,
  text_eq, length,
}
use village_net.Net.{Ip, IpNet, is_nil, to4, mask_ip}
use village_net.HostLocal.Store.{Text}
use village_net.HostLocal.Allocator.{Version, v4, v6}
use village_net.Cni.{IpConfig, Route, Family, family_v4, family_v6}
use village_net.Cni.Effects.{Eff, failed, pure, raise, failing_as, for_each, ◌>>=◌, ◌>>◌}

pub data Scope : Type 0 where
  universe host : Scope

-- What is asked of the routing table: the destination, none for the default route, and the gateway
-- where it is compared. The answer says whether a route was found.
pub record RouteHost (S : Type 0) : Type 0 where
  pub link_index : Text → Eff S ℕ
  pub addr_list : ℕ → Eff S (List IpNet)
  pub route_found : Family → Option IpNet → Option Ip → Eff S Bool
  pub route_add : ℕ → Scope → IpNet → Ip → Eff S (Unit {0})

-- Addr.Equal: the widths of the masks and the addresses, `ones` giving the width.
abbrev pub same_address : (List ℕ → ℕ) → (Ip → Ip → Bool) → IpNet → IpNet → Bool
same_address ones ip_equal a b = (ones a.mask == ones b.mask) && ip_equal a.ip b.ip

module _ {S : Type 0} (h : RouteHost S) where
  unfoldable pub add_route : IpNet → Ip → ℕ → Eff S (Unit {0})
  add_route ipn gw index = h.route_add index universe ipn gw

  unfoldable pub add_host_route : IpNet → Ip → ℕ → Eff S (Unit {0})
  add_host_route ipn gw index = h.route_add index host ipn gw

  unfoldable pub add_default_route : Ip → ℕ → Eff S (Unit {0})
  unfolding add_route
  add_default_route gw index =
      add_route (record { ip = 0 ∷ 0 ∷ 0 ∷ 0 ∷ []; mask = 0 ∷ 0 ∷ 0 ∷ 0 ∷ [] }) gw index

  module _ (same : IpNet → IpNet → Bool) where
    abbrev pub listed : IpNet → List IpNet → Bool
    listed a [] = false
    listed a (b ∷ bs) = if same b a then true else listed a bs

    abbrev ip_family : Version → Family
    ip_family v4 = family_v4
    ip_family v6 = family_v6

    abbrev pub require : Bool → Eff S (Unit {0})
    require true = pure tt
    require false = raise failed

    -- One address: it is listed at the interface, and its network has a route.
    unfoldable pub validate_ip : Text → IpConfig → Eff S (Unit {0})
    unfolding mask_ip
    validate_ip if_name ips = do
      index ← failing_as failed (h.link_index if_name)
      addrs ← failing_as failed (h.addr_list index)
      require (listed ips.address addrs)
      found ← failing_as failed (
          h.route_found (ip_family ips.version)
            (some
              (record { ip = mask_ip ips.address.ip ips.address.mask; mask = ips.address.mask }))
            none)
      require found

    unfoldable pub validate_expected_interface_ips : Text → List IpConfig → Eff S (Unit {0})
    unfolding validate_ip
    validate_expected_interface_ips if_name result_ips = for_each result_ips (validate_ip if_name)

    -- The default route is looked up without its gateway.
    abbrev pub find_route : Family → Bool → Route → Eff S Bool
    find_route family is_default route =
        if is_default
        then h.route_found family none none
        else h.route_found family (some route.dst) (some route.gw)

    module _ (net_text : IpNet → Text) where
      unfoldable pub validate_route : Route → Eff S (Unit {0})
      unfolding to4
      validate_route route =
          let is_v6 = length route.dst.ip == 16 in
          let text = net_text route.dst in
          let four = find_route family_v4 (text_eq text (codes "0.0.0.0/0")) route in
          let six = find_route family_v6 (text_eq text (codes "::/0")) route in
          if not (is_nil (to4 route.dst.ip))
          then failing_as failed four >>= require
          else if is_v6
          then failing_as failed six >>= require
          else raise failed

      unfoldable pub validate_expected_route : List Route → Eff S (Unit {0})
      unfolding validate_route
      validate_expected_route routes = for_each routes validate_route
