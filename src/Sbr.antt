-- ===== src/Sbr.antt =====
-- plugins/meta/sbr/main.go: routing by source, over the rules and routes of a namespace. The lock on
-- the namespace is left out.
use village_net.Common.{
  ℕ, zero, suc, ◌+◌, Bool, true, false, not, ◌&&◌, ◌||◌, ◌==◌, ltb, if◌then◌else◌, List, [], ◌∷◌,
  ◌++◌, map, Option, none, some, Result, ok, err, text_eq, length, get_or,
}
use village_net.Net.{Ip, IpNet, is_nil, ip_equal}
use village_net.HostLocal.Store.{Text}
use village_net.HostLocal.Allocator.{Version, v4, v6}
use village_net.Cni.{CniResult, Interface, IpConfig, Route}
use village_net.Cni.Effects.{
  Error, Eff, failed, panic, no_prev_result, missing_ip_config, pure, raise, attempt, failing_as,
  for_each, ◌>>=◌, ◌>>◌,
}
pub mod Tables

-- A rule with its source, if it has one, and a route: the destination, the gateway and its flags.
pub record IpRule : Type 0 where
  pub src : Option IpNet
  pub table : ℕ

pub record HostRoute : Type 0 where
  pub dst : IpNet
  pub gw : Ip
  pub table : ℕ
  pub link_index : ℕ
  pub flags : ℕ

-- The host in the namespace; the routes are all, or those of a link.
pub record SbrHost (S : Type 0) : Type 0 where
  pub get_ns : Text → Eff S (Unit {0})
  pub rule_list : Eff S (List IpRule)
  pub rule_add : IpRule → Eff S (Unit {0})
  pub rule_del : IpRule → Eff S (Unit {0})
  pub route_list : Option ℕ → Eff S (List HostRoute)
  pub route_add : HostRoute → Eff S (Unit {0})
  pub route_del : HostRoute → Eff S (Unit {0})
  pub route_replace : HostRoute → Eff S (Unit {0})
  pub link_index : Text → Eff S ℕ
  pub addr_list : ℕ → Eff S (List Ip)

-- Whether an address is of another interface.
unfoldable pub other_interface : Text → List Interface → Option ℕ → Bool
other_interface iface intfs none = false
other_interface iface intfs (some idx) =
    ltb idx (length intfs)
    && not (text_eq (get_or intfs idx (record { name = []; mac = []; sandbox = [] })).name iface)

unfoldable pub filter_ips : Text → List Interface → List IpConfig → List IpConfig
unfolding other_interface
filter_ips iface intfs [] = []
filter_ips iface intfs (ip ∷ ips) =
    let rest = filter_ips iface intfs ips in
    if other_interface iface intfs ip.interface then rest else ip ∷ rest

abbrev pub one_of_tables : ℕ → List ℕ → Bool
one_of_tables t [] = false
one_of_tables t (u ∷ us) = u == t || one_of_tables t us

-- The loop that looks for a table without rules and routes; none where the fuel runs out.
unfoldable pub pick_table : ℕ → ℕ → List ℕ → Option ℕ
pick_table zero t taken = none
pick_table (suc f) t taken = elim (one_of_tables t taken) [
  | true ↦ pick_table f (t + 1) taken
  | false ↦ some t
]

abbrev pub first_table_id : ℕ
first_table_id = 100

-- The first free table: as much fuel as there are rules and routes, and one.
unfoldable pub free_table : List IpRule → List HostRoute → Option ℕ
unfolding pick_table
free_table rules routes =
    let taken = map (λ r. r.table) rules ++ map (λ r. r.table) routes in
    pick_table (suc (length taken)) first_table_id taken

abbrev zeros : ℕ → List ℕ
zeros zero = []
zeros (suc n) = 0 ∷ zeros n

abbrev ones : ℕ → List ℕ
ones zero = []
ones (suc n) = 255 ∷ ones n

abbrev full_mask : Version → List ℕ
full_mask v4 = ones 4
full_mask v6 = ones 16

-- IPv4zero of Go has 16 bytes.
abbrev default_dst : Version → IpNet
default_dst v4 = record {
  ip = 0 ∷ 0 ∷ 0 ∷ 0 ∷ 0 ∷ 0 ∷ 0 ∷ 0 ∷ 0 ∷ 0 ∷ 255 ∷ 255 ∷ 0 ∷ 0 ∷ 0 ∷ 0 ∷ [];
  mask = zeros 4;
}
default_dst v6 = record { ip = zeros 16; mask = zeros 16 }

module _ {S : Type 0} (h : SbrHost S) where
  unfoldable pub get_ip_cfgs : Text → CniResult → Eff S (List IpConfig)
  unfolding filter_ips
  get_ip_cfgs iface r = elim r.ips [
    | [] ↦ raise missing_ip_config
    | ip ∷ ips ↦ pure (filter_ips iface r.interfaces (ip ∷ ips))
  ]

  -- The rule of an address, and a default route by its gateway.
  unfoldable pub add_source : ℕ → ℕ → IpConfig → Eff S (Unit {0})
  add_source table link ip = do
    failing_as failed (
        h.rule_add (record {
          src = some (record { ip = ip.address.ip; mask = full_mask ip.version });
          table = table;
        }))
    if is_nil ip.gateway
        then pure tt
        else failing_as failed (
            h.route_add (record {
              dst = default_dst ip.version;
              gw = ip.gateway;
              table = table;
              link_index = link;
              flags = 0;
            }))

  unfoldable pub move_route : ℕ → HostRoute → Eff S (Unit {0})
  move_route table r = do
    failing_as failed (h.route_del r)
    failing_as failed (h.route_replace (record r { table = table; flags = 0 }))

  -- The loop of the source has no end of its own; `panic` stands for fuel that runs out.
  abbrev the_table : Option ℕ → Eff S ℕ
  the_table none = raise panic
  the_table (some t) = pure t

  unfoldable pub do_routes : List IpConfig → Text → Eff S (Unit {0})
  unfolding free_table add_source move_route
  do_routes ips iface = do
    rules ← failing_as failed h.rule_list
    routes ← failing_as failed (h.route_list none)
    table ← the_table (free_table rules routes)
    link ← failing_as failed (h.link_index iface)
    for_each ips (add_source table link)
    own ← failing_as failed (h.route_list (some link))
    for_each own (move_route table)

  unfoldable pub cmd_add : Text → Text → Option CniResult → Eff S (Unit {0})
  unfolding get_ip_cfgs do_routes
  cmd_add netns iface none = raise no_prev_result
  cmd_add netns iface (some r) = do ips ← get_ip_cfgs iface r; h.get_ns netns; do_routes ips iface

  abbrev from_addr : Option IpNet → List Ip → Bool
  from_addr none addrs = false
  from_addr (some src) [] = false
  from_addr (some src) (a ∷ addrs) = ip_equal src.ip a || from_addr (some src) addrs

  abbrev keep_failure : Bool → Result Error (Unit {0}) → Bool
  keep_failure b (ok u) = b
  keep_failure b (err e) = true

  -- The loop of tidyRules goes on where a deletion fails; the last failure is returned.
  unfoldable pub tidy_loop : Bool → List Ip → List IpRule → Eff S (Unit {0})
  tidy_loop failure addrs [] = if failure then raise failed else pure tt
  tidy_loop failure addrs (r ∷ rules) =
      if not (from_addr r.src addrs)
      then tidy_loop failure addrs rules
      else attempt (h.rule_del r) >>= λ x. tidy_loop (keep_failure failure x) addrs rules

  unfoldable pub tidy_rules : Text → Eff S (Unit {0})
  unfolding tidy_loop
  tidy_rules iface = do
    rules ← failing_as failed h.rule_list
    link ← failing_as failed (h.link_index iface)
    addrs ← failing_as failed (h.addr_list link)
    tidy_loop false addrs rules

  unfoldable pub cmd_del : Text → Text → Eff S (Unit {0})
  unfolding tidy_rules
  cmd_del netns iface = h.get_ns netns >> tidy_rules iface

  unfoldable pub cmd_check : Eff S (Unit {0})
  cmd_check = pure tt
