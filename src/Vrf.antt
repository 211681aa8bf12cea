-- ===== src/Vrf.antt =====
-- plugins/meta/vrf: main.go and vrf.go, over the operations on the links of a namespace.
use village_net.Common.{
  ℕ, zero, suc, ◌+◌, Bool, true, false, not, ◌&&◌, ◌==◌, if◌then◌else◌, List, [], ◌∷◌, Option, none,
  some, Result, ok, err, text_eq, ltb, length,
}
use village_net.Net.{IpNet}
use village_net.HostLocal.Store.{Text}
use village_net.Cni.{CniResult}
use village_net.Cni.Effects.{
  Error, Eff, failed, link_not_found, no_prev_result, missing_name, exists, not_found, pure, raise,
  attempt, ignore, failing_as, ◌>>=◌, ◌>>◌,
}
pub mod Laws
pub mod Examples

-- A link; a VRF has a table.
pub record VrfLink : Type 0 where
  pub name : Text
  pub index : ℕ
  pub master : ℕ
  pub table : Option ℕ

-- VRFNetConf; a previous result that is there can be parsed, and nothing here reads it.
pub record VrfNetConf : Type 0 where
  pub vrf_name : Text
  pub table : ℕ
  pub has_prev_result : Bool

-- LinkAdd gives the new link its index.
pub record VrfHost (S : Type 0) : Type 0 where
  pub get_ns : Text → Eff S (Unit {0})
  pub link_by_name : Text → Eff S VrfLink
  pub link_by_index : ℕ → Eff S VrfLink
  pub link_list : Eff S (List VrfLink)
  pub link_add : Text → ℕ → Eff S VrfLink
  pub link_set_up : Text → Eff S (Unit {0})
  pub link_del : Text → Eff S (Unit {0})
  pub set_master : Text → ℕ → Eff S (Unit {0})
  pub set_no_master : Text → Eff S (Unit {0})
  pub addr_list_v6 : Text → Eff S (List IpNet)
  pub addr_add : Text → IpNet → Eff S (Unit {0})

abbrev table_is : ℕ → Option ℕ → Bool
table_is n none = false
table_is n (some t) = t == n

-- Whether a table is taken by one of the links.
unfoldable pub taken_table : ℕ → List VrfLink → Bool
taken_table n [] = false
taken_table n (l ∷ ls) = if table_is n l.table then true else taken_table n ls

-- The loop of findFreeRoutingTableID: as many rounds as there are numbers from `res` to 2 ^ 32 - 2.
unfoldable pub free_from : ℕ → ℕ → List VrfLink → Option ℕ
free_from zero res ls = none
free_from (suc rounds) res ls = elim (taken_table res ls) [
  | true ↦ free_from rounds (res + 1) ls
  | false ↦ some res
]

unfoldable pub find_free_routing_table_id : List VrfLink → Option ℕ
unfolding free_from
find_free_routing_table_id ls = free_from 4294967294 1 ls

abbrev pub with_master : ℕ → List VrfLink → List VrfLink
with_master index [] = []
with_master index (l ∷ ls) =
    let rest = with_master index ls in if l.master == index then l ∷ rest else rest

abbrev pub has_link : Text → List VrfLink → Bool
has_link name [] = false
has_link name (l ∷ ls) = if text_eq l.name name then true else has_link name ls

module _ {S : Type 0} (h : VrfHost S) (addr_equal : IpNet → IpNet → Bool) where
  abbrev pub Found : Type 0
  Found = VrfLink × ℕ

  -- findVRF: the link and its table.
  abbrev as_vrf : VrfLink → Eff S Found
  as_vrf l = elim l.table [ none ↦ raise failed | some t ↦ pure (l, t) ]

  unfoldable pub find_vrf : Text → Eff S Found
  find_vrf name = h.link_by_name name >>= as_vrf

  abbrev table_or_free : ℕ → List VrfLink → Eff S ℕ
  table_or_free zero ls = elim (find_free_routing_table_id ls) [
    | none ↦ raise failed
    | some t ↦ pure t
  ]
  table_or_free t ls = pure t

  unfoldable pub create_vrf : Text → ℕ → Eff S VrfLink
  create_vrf name table_id = do
    links ← failing_as failed h.link_list
    t ← table_or_free table_id links
    vrf ← failing_as failed (h.link_add name t)
    failing_as failed (h.link_set_up name)
    pure vrf

  unfoldable pub assigned_interfaces : VrfLink → Eff S (List VrfLink)
  assigned_interfaces vrf =
      failing_as failed h.link_list >>= λ links. pure (with_master vrf.index links)

  abbrev has_addr : IpNet → List IpNet → Bool
  has_addr a [] = false
  has_addr a (b ∷ bs) = if addr_equal a b then true else has_addr a bs

  -- The addresses that are gone are added again.
  unfoldable pub restore : Text → List IpNet → List IpNet → Eff S (Unit {0})
  restore intf [] after = pure tt
  restore intf (a ∷ before) after =
      let rest = restore intf before after in
      if has_addr a after then rest else failing_as failed (h.addr_add intf a) >> rest

  unfoldable pub add_interface : VrfLink → Text → Eff S (Unit {0})
  unfolding restore
  add_interface vrf intf = do
    i ← failing_as failed (h.link_by_name intf)
    if i.master == 0 then pure tt else (ignore (h.link_by_index i.master) >> raise exists)
    before ← failing_as failed (h.addr_list_v6 intf)
    failing_as failed (h.set_master intf vrf.index)
    after ← failing_as failed (h.addr_list_v6 intf)
    restore intf before after

  unfoldable pub reset_master : Text → Eff S (Unit {0})
  reset_master intf = do
    i ← failing_as failed (h.link_by_name intf)
    failing_as failed (h.set_no_master i.name)

  -- The VRF of ADD: the one of the name, with the wanted table if one is wanted, or a new one.
  unfoldable pub find_or_create : VrfNetConf → Eff S VrfLink
  unfolding find_vrf create_vrf
  find_or_create conf = attempt (find_vrf conf.vrf_name) >>= λ r. elim r [
    | ok (vrf, t) ↦
        if not (conf.table == 0) && not (t == conf.table) then raise failed else pure vrf
    | err link_not_found ↦ create_vrf conf.vrf_name conf.table
    | err e ↦ raise e
  ]

  -- parseConf on a decoded configuration: only the name is checked.
  abbrev parse_conf : VrfNetConf → Eff S (Unit {0})
  parse_conf conf = if text_eq conf.vrf_name [] then raise missing_name else pure tt

  unfoldable pub cmd_add : Text → Text → VrfNetConf → Eff S (Unit {0})
  unfolding find_or_create add_interface
  cmd_add netns if_name conf = do
    parse_conf conf
    if conf.has_prev_result then pure tt else raise no_prev_result
    failing_as failed (do h.get_ns netns; vrf ← find_or_create conf; add_interface vrf if_name)

  abbrev delete_empty : VrfLink → List VrfLink → Eff S (Unit {0})
  delete_empty vrf [] = h.link_del vrf.name
  delete_empty vrf (l ∷ ls) = pure tt

  unfoldable pub release_interface : Text → VrfNetConf → Eff S (Unit {0})
  unfolding find_vrf reset_master assigned_interfaces
  release_interface if_name conf = attempt (find_vrf conf.vrf_name) >>= λ r. elim r [
    | err link_not_found ↦ pure tt
    | err e ↦ raise e
    | ok (vrf, t) ↦ do reset_master if_name; intfs ← assigned_interfaces vrf; delete_empty vrf intfs
  ]

  unfoldable pub cmd_del : Text → Text → VrfNetConf → Eff S (Unit {0})
  unfolding release_interface
  cmd_del netns if_name conf = do
    parse_conf conf
    failing_as failed (h.get_ns netns >> release_interface if_name conf)

  -- What cmdCheck runs in the namespace; an error of the list of links stands for no links.
  unfoldable pub check_vrf : Text → VrfNetConf → Eff S (Unit {0})
  unfolding find_vrf assigned_interfaces
  check_vrf if_name conf = do
    found ← find_vrf conf.vrf_name
    intfs ← attempt (assigned_interfaces found.0)
    elim intfs [
      | err e ↦ raise not_found
      | ok ls ↦ if has_link if_name ls then pure tt else raise not_found
    ]

  unfoldable pub cmd_check : Text → Text → VrfNetConf → Eff S (Unit {0})
  unfolding check_vrf
  cmd_check netns if_name conf = do
    parse_conf conf
    if conf.has_prev_result then pure tt else raise no_prev_result
    ignore (h.get_ns netns >> check_vrf if_name conf)
