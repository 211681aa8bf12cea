-- ===== src/Bridge/Counts.antt =====
-- The gateways and addresses that calcGateways of pkg/bridge/bridge.go returns.
use village_net.Common.{◌+◌, ◌≡◌, Bool, true, false, ◌&&◌, List, [], ◌∷◌, none, some, ◌==◌, length}
use village_net.Net.{IpNet}
use village_net.HostLocal.Store.{Text}
use village_net.Cni.{IpConfig}
use village_net.Bridge.Gateways.{Calc}

module _ (net_text : IpNet → Text) where
  -- What holds between two rounds on a bridge that is a gateway: each address has given a gateway, to
  -- the list of its family, and refers to the container's interface.
  abbrev pub third : List IpConfig → Bool
  third [] = true
  third (ipc ∷ ipcs) = (elim ipc.interface [ none ↦ false | some i ↦ i == 2 ]) && third ipcs

  Counted : Calc → Type 0
  Counted c = (third c.ips ≡ true) × (length c.gws_v4.gws + length c.gws_v6.gws ≡ length c.ips)
