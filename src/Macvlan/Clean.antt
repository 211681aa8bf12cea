-- ===== src/Macvlan/Clean.antt =====
-- What the controller of pkg/macvlan/ctrl.go leaves where it fails, and its Check in cmdCheck of
-- plugins/main/village/village.go.
use village_net.Common.{
  ◌≡◌, refl, inl, inr, Bool, true, false, ◌&&◌, ◌||◌, List, [], ◌∷◌, Option, none, some, arith,
  length, ltb, text_eq, ok, err, Bool-cases,
}
use village_net.HostLocal.Store.{Text}
use village_net.Cni.{Host, Ns, MacVlanConf, NetConf, Interface, CniResult}
use village_net.Cni.Effects.{panic, missing_ip_config}
use village_net.Macvlan.{add, add_created, create_macvlan, find_interface, no_interface, check}
use village_net.Village.{Parts, cmd_check}

-- Whether a result lists the interface of a name in a namespace.
abbrev pub lists : Text → Ns → List Interface → Bool
lists if_name netns [] = false
lists if_name netns (intf ∷ intfs) =
    (text_eq if_name intf.name && text_eq netns intf.sandbox) || lists if_name netns intfs

find_interface-keeps :
    (if_name : Text) (netns : Ns) (found : Interface) (intfs : List Interface)
    → text_eq netns found.sandbox ≡ true
    → text_eq netns (find_interface if_name netns found intfs).sandbox ≡ true
unfolding find_interface
find_interface-keeps if_name netns found [] h = h
find_interface-keeps if_name netns found (intf ∷ intfs) h =
    elim (Bool-cases (text_eq if_name intf.name && text_eq netns intf.sandbox)) [
      | inl t ↦
          rw (t, find_interface) (find_interface-keeps if_name netns intf intfs (ground (arith, t)))
      | inr f ↦ rw (f, find_interface) (find_interface-keeps if_name netns found intfs h)
    ]

find_interface-lists :
    (if_name : Text) (netns : Ns) (found : Interface) (intfs : List Interface)
    → lists if_name netns intfs ≡ true
    → text_eq netns (find_interface if_name netns found intfs).sandbox ≡ true
unfolding find_interface
find_interface-lists if_name netns found [] h = cc
find_interface-lists if_name netns found (intf ∷ intfs) h =
    elim (Bool-cases (text_eq if_name intf.name && text_eq netns intf.sandbox)) [
      | inl t ↦
          rw (t, find_interface) (find_interface-keeps if_name netns intf intfs (ground (arith, t)))
      | inr f ↦ rw (f, find_interface) (find_interface-lists if_name netns found intfs (rw f at h))
    ]

module _ {S : Type 0} (h : Host S) (parse_mac : Text → Option Text) where
  -- Where the namespace can be opened and the macvlan interface is created, Add with a result
  -- that has no address reports the missing address and leaves the interface in the container.
  pub add-leaks :
      (HasLink : S → Type 0) (conf : MacVlanConf) (if_name : Text) (netns : Ns) (r : CniResult)
      (intf : Interface) (s s1 s2 : S)
      → h.get_ns netns s ≡ (ok tt, s1)
      → create_macvlan h parse_mac conf if_name netns s1 ≡ (ok intf, s2)
      → HasLink s2
      → length r.ips ≡ 0
      → ((add h parse_mac (some conf) if_name netns (some r) s).0 ≡ err missing_ip_config)
        × HasLink (add h parse_mac (some conf) if_name netns (some r) s).1
  unfolding add add_created
  add-leaks HasLink conf if_name netns r intf s s1 s2 g c has z =
      let few : ltb 0 (length r.ips) ≡ false = ground (arith, z) in
      let all : add h parse_mac (some conf) if_name netns (some r) s ≡ (err missing_ip_config, s2) =
        rw (g, c, few) refl in
      rw all (refl, has)

  -- For a configuration with an IPAM plugin and no macvlan section, where the plugin's check
  -- passes, the macvlan part is the controller's Check, the namespace can be opened and the
  -- previous result lists the container's interface in it, cmdCheck panics.
  pub cmd_check-panics :
      (p : Parts S) (conf : NetConf) (ipam_type if_name : Text) (netns : Ns) (result : CniResult)
      (s s1 s2 : S)
      → p.macvlan_check if_name conf
        ≡ check h parse_mac conf.mac_vlan if_name netns (some (ok result))
      → conf.mac_vlan ≡ none
      → conf.ipam_type ≡ some ipam_type
      → p.exec_check ipam_type s ≡ (ok tt, s1)
      → h.get_ns netns s1 ≡ (ok tt, s2)
      → lists if_name netns result.interfaces ≡ true
      → cmd_check p conf if_name s ≡ (err panic, s2)
  unfolding cmd_check check
  cmd_check-panics p conf ipam_type if_name netns result s s1 s2 m v t x g l =
      let same = find_interface-lists if_name netns no_interface result.interfaces l in
      let inner : check h parse_mac none if_name netns (some (ok result)) s1 ≡ (err panic, s2) =
        rw (g, same) refl in
      let called : p.macvlan_check if_name conf s1 ≡ (err panic, s2) = rw (m, v) inner in
      ground (arith, t, x, called)
