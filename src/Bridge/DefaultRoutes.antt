-- ===== src/Bridge/DefaultRoutes.antt =====
-- What calcGateways of pkg/bridge/bridge.go adds to a result.
use village_net.Common.{
  ◌≡◌, inl, inr, refl, Bool, true, false, not, ◌&&◌, ◌||◌, List, [], ◌∷◌, ◌++◌, none, some, arith,
  text_eq_refl, ok, Bool-cases, Option-cases,
}
use village_net.Net.{Ip, IpNet, is_nil}
use village_net.HostLocal.Store.{Text}
use village_net.Cni.{Family, family_v4, family_v6, IpConfig, Route}
use village_net.Bridge.Gateways.{
  no_gws, Calc, default_net, family_of, gateway_of, has_route, ensure_default, info_of, calc_one,
  calc_all, calc_gateways,
}

module _ (net_text : IpNet → Text) where
  abbrev same : Family → Family → Bool
  same family_v4 family_v4 = true
  same family_v6 family_v6 = true
  same _ _ = false

  -- Whether the loop has seen an address of a family.
  abbrev pub has_family : Family → List IpConfig → Bool
  has_family f [] = false
  has_family f (ipc ∷ ipcs) =
      (elim (family_of ipc.address.ip) [ none ↦ false | some g ↦ same f g ]) || has_family f ipcs

  abbrev pub gateways_known : List IpConfig → Bool
  gateways_known [] = true
  gateways_known (ipc ∷ ipcs) = not (is_nil (gateway_of true ipc)) && gateways_known ipcs

  has_route-append :
      (dst : IpNet) (rs : List Route) (r : Route)
      → has_route net_text dst rs ≡ true
      → has_route net_text dst (rs ++ (r ∷ [])) ≡ true
  unfolding has_route
  has_route-append dst [] r e = cc
  has_route-append dst (x ∷ xs) r e = ground (arith, e, has_route-append dst xs r)

  has_route-added :
      (dst : IpNet) (gw : Ip) (rs : List Route)
      → is_nil gw ≡ false
      → has_route net_text dst (rs ++ (record { dst = dst; gw = gw } ∷ [])) ≡ true
  unfolding has_route
  has_route-added dst gw [] e = ground (arith, e, text_eq_refl (net_text dst))
  has_route-added dst gw (x ∷ xs) e = ground (arith, has_route-added dst gw xs e)

  -- A default route that was found is there.
  Routed : Calc → Type 0
  Routed c =
      (f : Family)
      → (info_of net_text f c).default_route_found ≡ true
      → has_route net_text (default_net f) c.routes ≡ true

  ensure_default-keeps :
      (dst dst' : IpNet) (gw : Ip) (rs : List Route)
      → has_route net_text dst rs ≡ true
      → has_route net_text dst (ensure_default net_text dst' gw rs) ≡ true
  unfolding ensure_default
  ensure_default-keeps dst dst' gw rs e =
      ground (arith, e, has_route-append dst rs (record { dst = dst'; gw = gw }))

  ensure_default-has :
      (dst : IpNet) (gw : Ip) (rs : List Route)
      → is_nil gw ≡ false
      → has_route net_text dst (ensure_default net_text dst gw rs) ≡ true
  unfolding ensure_default
  ensure_default-has dst gw rs e = ground (arith, has_route-added dst gw rs e)

  calc_one-keeps :
      (dst : IpNet) (ipc : IpConfig) (fam : Family) (c : Calc)
      → has_route net_text dst c.routes ≡ true
      → has_route net_text dst (calc_one net_text true true ipc fam c).routes ≡ true
  unfolding calc_one
  calc_one-keeps dst ipc fam c e =
      ground (arith, e, ensure_default-keeps dst (default_net fam) (gateway_of true ipc) c.routes e)

  calc_one-has :
      (ipc : IpConfig) (fam : Family) (c : Calc)
      → Routed c
      → is_nil (gateway_of true ipc) ≡ false
      → has_route net_text (default_net fam) (calc_one net_text true true ipc fam c).routes ≡ true
  unfolding calc_one Routed
  calc_one-has ipc fam c w k =
      ground (arith, w fam, ensure_default-has (default_net fam) (gateway_of true ipc) c.routes k)

  -- A round on one family leaves the other's flag.
  other_v6 :
      (ipc : IpConfig) (c : Calc)
      → (calc_one net_text true true ipc family_v4 c).gws_v6.default_route_found ≡ true
      → c.gws_v6.default_route_found ≡ true
  unfolding calc_one
  other_v6 ipc c e = e

  other_v4 :
      (ipc : IpConfig) (c : Calc)
      → (calc_one net_text true true ipc family_v6 c).gws_v4.default_route_found ≡ true
      → c.gws_v4.default_route_found ≡ true
  unfolding calc_one
  other_v4 ipc c e = e

  calc_one-Routed :
      (ipc : IpConfig) (fam : Family) (c : Calc)
      → Routed c
      → is_nil (gateway_of true ipc) ≡ false
      → Routed (calc_one net_text true true ipc fam c)
  unfolding Routed
  calc_one-Routed ipc family_v4 c w k family_v4 e = calc_one-has ipc family_v4 c w k
  calc_one-Routed ipc family_v6 c w k family_v6 e = calc_one-has ipc family_v6 c w k
  calc_one-Routed ipc family_v4 c w k family_v6 e =
      calc_one-keeps (default_net family_v6) ipc family_v4 c (w family_v6 (other_v6 ipc c e))
  calc_one-Routed ipc family_v6 c w k family_v4 e =
      calc_one-keeps (default_net family_v4) ipc family_v6 c (w family_v4 (other_v4 ipc c e))

  calc_all-keeps :
      (dst : IpNet) (c c' : Calc) (ipcs : List IpConfig)
      → calc_all net_text true true c ipcs ≡ ok c'
      → has_route net_text dst c.routes ≡ true
      → has_route net_text dst c'.routes ≡ true
  unfolding calc_all
  calc_all-keeps dst c c' [] e h = ground (arith, e, h)
  calc_all-keeps dst c c' (ipc ∷ ipcs) e h = elim (Option-cases (family_of ipc.address.ip)) [
    | inl q ↦ absurd (ground (arith, q, e))
    | inr (fam, q) ↦
        calc_all-keeps dst (calc_one net_text true true ipc fam c) c' ipcs (rw (q, calc_all) at e)
          (calc_one-keeps dst ipc fam c h)
  ]

  same→eq : (f g : Family) → same f g ≡ true → f ≡ g
  same→eq family_v4 family_v4 e = refl
  same→eq family_v6 family_v6 e = refl
  same→eq family_v4 family_v6 e = cc
  same→eq family_v6 family_v4 e = cc

  calc_all-Routed :
      (f : Family) (c c' : Calc) (ipcs : List IpConfig)
      → calc_all net_text true true c ipcs ≡ ok c'
      → Routed c
      → gateways_known ipcs ≡ true
      → has_family f ipcs ≡ true
      → has_route net_text (default_net f) c'.routes ≡ true
  unfolding calc_all
  calc_all-Routed f c c' [] e w k h = cc
  calc_all-Routed f c c' (ipc ∷ ipcs) e w k h = elim (Option-cases (family_of ipc.address.ip)) [
    | inl q ↦ absurd (ground (arith, q, e))
    | inr (fam, q) ↦
        let known : is_nil (gateway_of true ipc) ≡ false = ground (arith, k) in
        let rest = rw (q, calc_all) at e in
        elim (Bool-cases (same f fam)) [
          | inl t ↦ rw (same→eq f fam t) (
              calc_all-keeps (default_net fam) (calc_one net_text true true ipc fam c) c' ipcs rest
                (calc_one-has ipc fam c w known))
          | inr n ↦
              calc_all-Routed f (calc_one net_text true true ipc fam c) c' ipcs rest
                (calc_one-Routed ipc fam c w known) (ground (arith, k)) (ground (arith, q, n, h))
        ]
  ]

  fresh : List Route → Calc
  fresh routes = record { gws_v4 = no_gws; gws_v6 = no_gws; ips = []; routes = routes }

  fresh-Routed : (routes : List Route) → Routed (fresh routes)
  unfolding Routed fresh
  fresh-Routed routes family_v4 e = cc
  fresh-Routed routes family_v6 e = cc

  -- Where the bridge is the default gateway, calcGateways succeeds and each address has a gateway
  -- or one can be calculated, the resulting routes have a default route by a gateway for each
  -- family that an address has.
  pub calc_gateways-has_route :
      (f : Family) (ipcs : List IpConfig) (routes : List Route) (c : Calc)
      → calc_gateways net_text true true ipcs routes ≡ ok c
      → gateways_known ipcs ≡ true
      → has_family f ipcs ≡ true
      → has_route net_text (default_net f) c.routes ≡ true
  unfolding calc_gateways fresh
  calc_gateways-has_route f ipcs routes c e k h =
      calc_all-Routed f (fresh routes) c ipcs e (fresh-Routed routes) k h
