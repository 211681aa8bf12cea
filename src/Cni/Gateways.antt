-- ===== src/Cni/Gateways.antt =====
-- The gateways that ConfigureIface of pkg/ipam/ipam_linux.go gives to routes that name none.
use village_net.Common.{
  ℕ, ◌≡◌, inl, inr, refl, Bool, true, false, not, ◌&&◌, List, [], ◌∷◌, none, some, arith,
  if◌then◌else◌, text_eq, ok, Bool-cases, Option-cases,
}
use village_net.Net.{Ip, is_nil, to4}
use village_net.HostLocal.Store.{Text}
use village_net.Cni.{Host, Ns, Interface, IpConfig, Route}
use village_net.Cni.Effects.{◌>>=◌, pure, succeeds}
use village_net.Cni.Configure.{
  Gateways, no_gateways, note_gateway, route_gateway, name_at, is_v6, enable_for, add_address,
  add_addresses,
}

abbrev pub is_v4 : Ip → Bool
is_v4 ip = not (is_nil (to4 ip))

-- The first gateway of a family among the addresses that refer to an interface.
abbrev pub first_gateway : Bool → List IpConfig → Ip
first_gateway v4 [] = []
first_gateway v4 (ipc ∷ ipcs) = elim ipc.interface [
  | none ↦ first_gateway v4 ipcs
  | some i ↦
      if not (is_nil ipc.gateway) && (if v4 then is_v4 ipc.gateway else not (is_v4 ipc.gateway))
      then ipc.gateway
      else first_gateway v4 ipcs
]

-- The first that is not nil.
abbrev or_else : Ip → Ip → Ip
or_else a b = if is_nil a then b else a

-- What the gateways are after more addresses.
Extends : Gateways → List IpConfig → Gateways → Type 0
Extends g ipcs g' =
    (g'.v4gw ≡ or_else g.v4gw (first_gateway true ipcs))
    × (g'.v6gw ≡ or_else g.v6gw (first_gateway false ipcs))

nil_not_v4 : (ip : Ip) → is_nil ip ≡ true → is_v4 ip ≡ false
unfolding to4
nil_not_v4 [] e = refl
nil_not_v4 (x ∷ xs) e = cc

note_gateway-Extends :
    (g g' : Gateways) (ipc : IpConfig) (i : ℕ) (ipcs : List IpConfig)
    → ipc.interface ≡ some i
    → Extends (note_gateway g ipc.gateway) ipcs g'
    → Extends g (ipc ∷ ipcs) g'
unfolding note_gateway Extends
note_gateway-Extends g g' ipc i ipcs q (a, b) =
    (ground (arith, q, a, nil_not_v4 ipc.gateway), ground (arith, q, b, nil_not_v4 ipc.gateway))

module _ {S : Type 0} (h : Host S) (ns : Ns) (if_name : Text) where
  -- The gateways that are noted: the state of the host has no part in them.
  add_address-noted :
      (g g' : Gateways) (ipc : IpConfig) (s s' : S)
      → add_address h ns if_name g ipc s ≡ (ok g', s')
      → (g'.v4gw ≡ (note_gateway g ipc.gateway).v4gw)
        × (g'.v6gw ≡ (note_gateway g ipc.gateway).v6gw)
  unfolding add_address note_gateway
  add_address-noted g g' ipc s s' e =
      let needed = not g.has_enabled_ipv6 && is_v6 ipc.version in
      let new =
        note_gateway (if needed then record g { has_enabled_ipv6 = true } else g) ipc.gateway in
      let (u, s1, enabled, e1) =
        succeeds (enable_for h ns if_name needed)
          (λ _. h.addr_add ns if_name ipc.address >>= λ _. pure new) s s' g' e in
      let (w, s2, added, e2) =
        succeeds (h.addr_add ns if_name ipc.address) (λ _. pure new) s1 s' g' e1 in
      (ground (arith, e2), ground (arith, e2))

  -- The loop over the addresses, from gateways that are noted already.
  add_addresses-Extends :
      (infs : List Interface) (g g' : Gateways) (ipcs : List IpConfig) (s s' : S)
      → add_addresses h ns if_name infs g ipcs s ≡ (ok g', s')
      → Extends g ipcs g'
  unfolding add_addresses Extends
  add_addresses-Extends infs g g' [] s s' e = (ground (arith, e), ground (arith, e))
  add_addresses-Extends infs g g' (ipc ∷ ipcs) s s' e = elim (Option-cases ipc.interface) [
    | inl q ↦
        let (a, b) = add_addresses-Extends infs g g' ipcs s s' (rw (q, add_addresses) at e) in
        (ground (arith, q, a), ground (arith, q, b))
    | inr (i, q) ↦ elim (Option-cases (name_at infs i)) [
      | inl n ↦ absurd (ground (arith, q, n, e))
      | inr (name, n) ↦ elim (Bool-cases (text_eq name if_name)) [
        | inl t ↦
            let (mid, s1, one, rest) =
              succeeds (add_address h ns if_name g ipc)
                (λ g1. add_addresses h ns if_name infs g1 ipcs) s s' g'
                (rw (q, n, t, add_addresses) at e) in
            let (a, b) = add_addresses-Extends infs mid g' ipcs s1 s' rest in
            let (c, d) = add_address-noted g mid ipc s s1 one in
            note_gateway-Extends g g' ipc i ipcs q (rw c at a, rw d at b)
        | inr f ↦ absurd (ground (arith, q, n, f, e))
      ]
    ]
  ]

  -- Where ConfigureIface has added all addresses, a route without a gateway is given the first
  -- gateway of its own family among the addresses that refer to an interface, or none if there is
  -- none, and a route with a gateway keeps it.
  pub route_gateway-first_gateway :
      (infs : List Interface) (g : Gateways) (ipcs : List IpConfig) (r : Route) (s s' : S)
      → add_addresses h ns if_name infs no_gateways ipcs s ≡ (ok g, s')
      → route_gateway g r ≡ (if is_nil r.gw then first_gateway (is_v4 r.dst.ip) ipcs else r.gw)
  unfolding route_gateway Extends
  route_gateway-first_gateway infs g ipcs r s s' e =
      let (a, b) = add_addresses-Extends infs no_gateways g ipcs s s' e in ground (arith, a, b)
