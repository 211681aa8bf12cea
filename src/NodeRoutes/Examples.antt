-- ===== src/NodeRoutes/Examples.antt =====
-- The routes of a host to two other nodes, one of them recorded and the other announced. A network is
-- written as its address.
use village_net.Common.{
  ◌≡◌, refl, Bool, true, false, if◌then◌else◌, List, [], ◌∷◌, Option, none, some, ok, text_eq,
  text_eq_refl, codes, arith, ok, err, Bool-cases, inl, inr,
}
use village_net.Net.{Ip, IpNet}
use village_net.Cni.Effects.{Eff, exists, failed, ignore}
use village_net.HostLocal.Store.{Text}
use village_net.NodeRoutes.{NodeNetInfo, HostGw, ControllerHost, sync_route}
use village_net.NodeRoutes.Reached.{first, later, RouteLaws, IsTaken, sync_route-reached}

abbrev listed : Text → List Text → Bool
listed t [] = false
listed t (u ∷ us) = if text_eq u t then true else listed t us

abbrev routed : List Text → IpNet → Bool
routed s n = listed n.ip s

abbrev node_info : Text → Text → Option NodeNetInfo
node_info name cidr =
    some (record { hostname = name; public_ip = []; cidr = cidr; bridge_if = []; macvlan_if = [] })

-- A route without a gateway is refused, and so is one that exists.
abbrev add_route : IpNet → Ip → Eff (List Text) (Unit {0})
add_route n [] s = (err failed, s)
add_route n (c ∷ cs) s = if listed n.ip s then (err exists, s) else (ok tt, n.ip ∷ s)

abbrev host : ControllerHost (List Text)
host = record {
  host_name = codes "a";
  bridge_parent = codes "eth0";
  macvlan_parent = codes "eth1";
  parse_cidr = λ t. some (record { ip = t; mask = [] });
  parse_ip = λ t. t;
  link_by_name = λ n s. (ok tt, s);
  route_add = λ n gw link. add_route n gw;
  bridge_public_ip = λ s. (ok [], s);
  get_node = λ n s. (ok none, s);
  update_node = λ n s. (ok tt, s);
  etcd_get = λ k s. (ok (node_info (codes "b") (codes "10.1") ∷ []), s);
  etcd_put = λ k v s. (ok tt, s);
}

listed-kept : (t u : Text) (us : List Text) → listed t us ≡ true → listed t (u ∷ us) ≡ true
listed-kept t u us e = ground (arith, e)

add_route-added :
    (s s' : List Text) (n : IpNet) (gw : Ip) → add_route n gw s ≡ (ok tt, s') → routed s' n ≡ true
add_route-added s s' n [] e = absurd (ground (arith, e))
add_route-added s s' n (c ∷ cs) e = elim (Bool-cases (listed n.ip s)) [
  | inl q ↦ absurd (ground (arith, q, e))
  | inr q ↦
      let same : n.ip ∷ s ≡ s' = ground (arith, q, e) in
      rw (← same) (ground (arith, text_eq_refl n.ip))
]

add_route-existing :
    (s s' : List Text) (n : IpNet) (gw : Ip)
    → add_route n gw s ≡ (err exists, s')
    → routed s' n ≡ true
add_route-existing s s' n [] e = absurd (ground (arith, e))
add_route-existing s s' n (c ∷ cs) e = elim (Bool-cases (listed n.ip s)) [
  | inl q ↦ let same : s ≡ s' = ground (arith, q, e) in rw (← same) q
  | inr q ↦ absurd (ground (arith, q, e))
]

add_route-kept :
    (s : List Text) (n m : IpNet) (gw : Ip)
    → routed s m ≡ true
    → routed (add_route n gw s).1 m ≡ true
add_route-kept s n m [] e = e
add_route-kept s n m (c ∷ cs) e = elim (Bool-cases (listed n.ip s)) [
  | inl q ↦ rw q e
  | inr q ↦ rw q (listed-kept m.ip n.ip s e)
]

add_route-returns : (s : List Text) (n : IpNet) (gw : Ip) → (ignore (add_route n gw) s).0 ≡ ok tt
add_route-returns s n [] = refl
add_route-returns s n (c ∷ cs) = elim (Bool-cases (listed n.ip s)) [
  | inl q ↦ rw q refl
  | inr q ↦ rw q refl
]

host-RouteLaws : RouteLaws host routed
host-RouteLaws = record {
  added = λ s s' n gw link. add_route-added s s' n gw;
  existing = λ s s' n gw link. add_route-existing s s' n gw;
  kept = λ s n m gw link. add_route-kept s n m gw;
  returns = λ s n gw link. add_route-returns s n gw;
}

abbrev gateway : HostGw
gateway = record { hostname = codes "a"; link = codes "eth0" }

-- A value that cannot be read and a node without an address are announced in front of it.
abbrev node_c : NodeNetInfo
node_c = record {
  hostname = codes "c";
  public_ip = codes "192.168.0.3";
  cidr = codes "10.2";
  bridge_if = [];
  macvlan_if = [];
}

abbrev announced : List (List (Option NodeNetInfo))
announced = [] ∷ (none ∷ node_info (codes "d") (codes "10.3") ∷ some node_c ∷ []) ∷ []

node_c-IsTaken :
    IsTaken host routed host-RouteLaws gateway (record { ip = codes "10.2"; mask = [] }) node_c
node_c-IsTaken s = elim (Bool-cases (listed (codes "10.2") s)) [
  | inl q ↦ inr (rw q refl)
  | inr q ↦ inl (rw q refl)
]

sync_route-reached_example :
    routed (sync_route host gateway announced []).1 (record { ip = codes "10.2"; mask = [] }) ≡ true
unfolding text_eq
sync_route-reached_example =
    sync_route-reached host routed host-RouteLaws gateway (record { ip = codes "10.2"; mask = [] })
      node_c (node_info (codes "b") (codes "10.1") ∷ []) announced [] [] refl refl node_c-IsTaken
      refl
      (inr (
        none ∷ node_info (codes "d") (codes "10.3") ∷ some node_c ∷ [],
        later first,
        later (later first),
      ))
