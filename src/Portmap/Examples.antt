-- ===== src/Portmap/Examples.antt =====
-- The port mappings over tables that are lists.
use village_net.Common.{
  ℕ, ◌+◌, ◌*◌, ◌<◌, ◌≡◌, refl, false, List, [], ◌∷◌, map, ok, All, text_eq, codes, length,
}
use village_net.HostLocal.Store.{Text}
use village_net.Portmap.Texts.{concat, join, FitsMultiport, split_port_list, split_port_list-groups}
use village_net.IpTables.{chain_exists, ensure_chain}
use village_net.Portmap.Chain.{Chain, setup, check, insert_unique}
use village_net.IpTables.Lists.{Tables, chains, has_rule, tables, tables-IpTablesLaws, empty}
use village_net.Portmap.CheckLaws.{check-setup}

abbrev dnat : Chain
dnat = record {
  table = codes "nat";
  name = codes "CNI-DN-1";
  entry_chains = codes "CNI-HOSTPORT-DNAT" ∷ [];
  entry_rules = (codes "-p" ∷ codes "tcp" ∷ []) ∷ [];
  rules = (codes "--dport" ∷ codes "80" ∷ []) ∷ (codes "--dport" ∷ codes "81" ∷ []) ∷ [];
  prepend_entry = false;
}

abbrev set_up : Tables
set_up = (setup tables dnat empty).1

setup_runs : setup tables dnat empty ≡ (ok tt, set_up)
unfolding setup insert_unique ensure_chain chain_exists text_eq
setup_runs = refl

check-setup_example :
    (check tables dnat set_up ≡ (ok tt, set_up)) × (setup tables dnat set_up ≡ (ok tt, set_up))
check-setup_example =
    check-setup chains has_rule tables tables-IpTablesLaws dnat empty set_up setup_runs

abbrev seventeen : List ℕ
seventeen = 1 ∷ 2 ∷ 3 ∷ 4 ∷ 5 ∷ 6 ∷ 7 ∷ 8 ∷ 9 ∷ 10 ∷ 11 ∷ 12 ∷ 13 ∷ 14 ∷ 15 ∷ 16 ∷ 17 ∷ []

split_port_list-groups_example :
    (gs : List (List Text)) × (split_port_list (λ n. n ∷ []) seventeen ≡ map (join (codes ",")) gs)
    × (concat gs ≡ map (λ n. n ∷ []) seventeen)
    × All FitsMultiport gs
    × (15 * length gs < length {A = Text} (map (λ n. n ∷ []) seventeen) + 15)
split_port_list-groups_example = split_port_list-groups (λ n. n ∷ []) seventeen
