-- ===== src/Vrf/Examples.antt =====
-- The VRF plugin on a host without links.
use village_net.Common.{ℕ, ◌≡◌, refl, true, List, [], ◌∷◌, none, some, ok, err, codes}
use village_net.Cni.Effects.{link_not_found}
use village_net.Vrf.{
  VrfLink, VrfNetConf, VrfHost, find_free_routing_table_id, free_from, taken_table,
}
use village_net.Vrf.Laws.{IsFirstFree, find_free_routing_table_id-IsFirstFree}

abbrev vrf : ℕ → VrfLink
vrf t = record { name = codes "vrf"; index = t; master = 0; table = some t }

abbrev eth0 : VrfLink
eth0 = record { name = codes "eth0"; index = 9; master = 0; table = none }

abbrev links : List VrfLink
links = vrf 2 ∷ eth0 ∷ vrf 1 ∷ vrf 4 ∷ []

find_free_routing_table_id-third : find_free_routing_table_id links ≡ some 3
unfolding find_free_routing_table_id free_from taken_table
find_free_routing_table_id-third = refl

find_free_routing_table_id-IsFirstFree_example :
    IsFirstFree links 1 4294967295 (find_free_routing_table_id links)
find_free_routing_table_id-IsFirstFree_example = find_free_routing_table_id-IsFirstFree links

abbrev no_links : VrfHost (Unit {0})
no_links = record {
  get_ns = λ path s. (ok tt, s);
  link_by_name = λ name s. (err link_not_found, s);
  link_by_index = λ i s. (err link_not_found, s);
  link_list = λ s. (ok [], s);
  link_add = λ name t s. (ok (vrf t), s);
  link_set_up = λ name s. (ok tt, s);
  link_del = λ name s. (ok tt, s);
  set_master = λ name i s. (ok tt, s);
  set_no_master = λ name s. (ok tt, s);
  addr_list_v6 = λ name s. (ok [], s);
  addr_add = λ name a s. (ok tt, s);
}

abbrev conf : VrfNetConf
conf = record { vrf_name = codes "vrf"; table = 0; has_prev_result = true }
