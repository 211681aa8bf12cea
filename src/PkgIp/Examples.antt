-- ===== src/PkgIp/Examples.antt =====
-- Pairs of interfaces on a host whose state counts the names that were drawn; the first two are taken.
use village_net.Common.{
  ℕ, suc, ◌≡◌, refl, true, ltb, if◌then◌else◌, [], ◌∷◌, none, ok, err, codes, arith,
}
use village_net.HostLocal.Store.{Text}
use village_net.Cni.Effects.{Eff, exists}
use village_net.PkgIp.Veth.{VethLink, VethHost, make_veth}
use village_net.PkgIp.VethLaws.{Collides, none_yet, taken, IsMade, make_veth-first_free}

abbrev link : Text → VethLink
link name = record {
  name = name;
  index = 3;
  mac = [];
  mtu = 1500;
  is_veth = true;
  parent_index = 4;
}

abbrev add_pair : Text → Eff ℕ (Unit {0})
add_pair [] s = (ok tt, s)
add_pair (c ∷ cs) s = if ltb c 2 then (err exists, s) else (ok tt, s)

abbrev host : VethHost ℕ
host = record {
  random_name = λ s. (ok (s ∷ []), suc s);
  link_add = λ name peer mtu. add_pair peer;
  link_by_name = λ in_host name s. (ok (link name), s);
  link_del = λ name s. (ok tt, s);
  link_set_up = λ in_host name s. (ok tt, s);
  link_set_ns = λ name s. (ok tt, s);
  enter_host = λ s. (ok tt, s);
  sysctl_set = λ name value s. (ok tt, s);
  set_hardware_addr = λ name hw s. (ok tt, s);
  open_ethtool = λ s. (ok tt, s);
  peer_statistic = λ name s. (ok none, s);
}

two_taken : Collides host (codes "eth0") 1500 2 0 2
two_taken = taken refl refl refl (taken refl refl refl none_yet)

third-IsMade : IsMade host (codes "eth0") 1500 2 3 (2 ∷ []) (link (codes "eth0"))
third-IsMade = record {
  drawn_state = 3;
  added_state = 3;
  drawn = refl;
  added = refl;
  fetched = refl;
}

make_veth-first_free_example :
    make_veth host (codes "eth0") [] 1500 0 ≡ (ok (2 ∷ [], link (codes "eth0")), 3)
make_veth-first_free_example =
    make_veth-first_free host (codes "eth0") 1500 2 0 2 3 (2 ∷ []) (link (codes "eth0"))
      (omega arith) two_taken third-IsMade
