-- ===== src/Macvlan.antt =====
-- pkg/macvlan: macvlan.go, the modes and the creation of an interface, and ctrl.go, the controller
-- that the plugin calls with the name mv0.
pub mod Modes
pub mod Clean
pub mod Examples
use village_net.Common.{
  ℕ, Bool, true, false, not, ◌&&◌, ◌||◌, List, [], ◌∷◌, Option, none, some, if◌then◌else◌, length,
  ltb, text_eq, codes, Result, ok, err,
}
use village_net.Net.{Ip}
use village_net.HostLocal.Store.{Text}
use village_net.HostLocal.Allocator.{v4}
use village_net.Cni.{
  Host, Ns, own, Link, LinkKind, macvlan_link, MacvlanMode, bridge, private, vepa, passthru,
  MacvlanAttrs, MacVlanConf, NetConf, Interface, IpConfig, CniResult,
}
use village_net.Cni.Effects.{
  Eff, Error, panic, link_not_found, unknown_mode, bad_mac, missing_ip_config, missing_name,
  missing_sandbox, not_macvlan, mode_mismatch, mac_mismatch, no_prev_result, sandbox_mismatch,
  failed, pure, raise, attempt, ignore, on_error, failing_as, for_each, ◌>>=◌, ◌>>◌,
}
use village_net.Cni.Links.{in_ns, rename_link, del_link_by_name}
use village_net.Cni.Configure.{configure_iface, is_v6}
use Modes.{mode_from_string, eq_mode}

-- current.Interface{}: what is looked for and not found.
abbrev pub no_interface : Interface
no_interface = record { name = []; mac = []; sandbox = [] }

-- The loop of Check: the last interface with the name and the namespace.
unfoldable pub find_interface : Text → Ns → Interface → List Interface → Interface
find_interface if_name netns found [] = found
find_interface if_name netns found (intf ∷ intfs) =
    find_interface if_name netns
      (if text_eq if_name intf.name && text_eq netns intf.sandbox then intf else found) intfs

-- All addresses are set to the result's one interface.
abbrev set_interface : ℕ → List IpConfig → List IpConfig
set_interface i [] = []
set_interface i (ip ∷ ips) = record ip { interface = some i } ∷ set_interface i ips

-- net.ParseMAC
module _ {S : Type 0} (h : Host S) (parse_mac : Text → Option Text) where
  -- conf.Mac, read if it is not empty.
  abbrev mac_of : MacVlanConf → Eff S Text
  mac_of conf =
      if text_eq conf.mac []
      then pure []
      else elim (parse_mac conf.mac) [ none ↦ raise bad_mac | some addr ↦ pure addr ]

  -- createMacvlan, in the container's namespace: the new link is removed where it cannot be set up or
  -- renamed, and stays where it is not found under its new name.
  unfoldable pub settle_macvlan : Text → Text → Ns → Eff S Interface
  settle_macvlan tmp_name if_name netns = do
    on_error (failing_as failed (h.sysctl_set netns tmp_name (codes "proxy_arp") (codes "1")))
        (ignore (h.link_del netns tmp_name))
    on_error (failing_as failed (rename_link h netns tmp_name if_name))
        (ignore (h.link_del netns tmp_name))
    cont ← failing_as failed (h.link_by_name netns if_name)
    pure (record { name = if_name; mac = cont.mac; sandbox = netns })

  unfoldable pub create_macvlan : MacVlanConf → Text → Ns → Eff S Interface
  create_macvlan conf if_name netns = elim (mode_from_string conf.mode) [
    | err e ↦ raise e
    | ok mode ↦ do
      m ← failing_as failed (h.link_by_name own conf.master)
      tmp_name ← h.random_veth_name
      addr ← mac_of conf
      failing_as failed (
          h.link_add_macvlan netns (record {
            name = tmp_name;
            mtu = conf.mtu;
            parent_index = m.index;
            mac = addr;
            mode = mode;
          }))
      in_ns h netns (settle_macvlan tmp_name if_name netns)
  ]

  -- Add with a result: addresses, routes, and an announcement of the IPv4 addresses.
  unfoldable pub add_layer3 : Text → Ns → CniResult → Eff S (Unit {0})
  add_layer3 if_name netns result = in_ns h netns (do
    configure_iface h netns if_name result
    failing_as failed (h.interface_by_name netns if_name)
    for_each result.ips (λ ipc.
        if is_v6 ipc.version
        then pure tt
        else ignore (h.gratuitous_arp netns ipc.address.ip if_name)))

  -- Add without a result: the interface is set up.
  unfoldable pub add_layer2 : Text → Ns → Eff S (Unit {0})
  add_layer2 if_name netns = in_ns h netns (do
    link ← failing_as failed (h.link_by_name netns if_name)
    failing_as failed (h.link_set_up netns link.name))

  -- Add from the new interface on. The deferred clean-up sees the errors of the two ways to configure
  -- the interface, not that of an empty result and not that of the printing.
  unfoldable pub add_created : Text → Ns → Option CniResult → Interface → Eff S (Unit {0})
  add_created if_name netns none intf = do
    on_error (add_layer2 if_name netns) (ignore (in_ns h netns (del_link_by_name h netns if_name)))
    h.print_result (record { interfaces = intf ∷ []; ips = []; routes = [] })
  add_created if_name netns (some r) intf =
      if ltb 0 (length r.ips)
      then (do
        on_error
            (add_layer3 if_name netns
              (record { interfaces = intf ∷ []; ips = set_interface 0 r.ips; routes = r.routes }))
            (ignore (in_ns h netns (del_link_by_name h netns if_name)))
        h.print_result
            (record { interfaces = intf ∷ []; ips = set_interface 0 r.ips; routes = r.routes }))
      else raise missing_ip_config

  -- Add: a configuration without a macvlan section is a nil pointer.
  unfoldable pub add : Option MacVlanConf → Text → Ns → Option CniResult → Eff S (Unit {0})
  add mac_vlan if_name netns result = do
    failing_as failed (h.get_ns netns)
    elim mac_vlan [
      | none ↦ raise panic
      | some conf ↦ create_macvlan conf if_name netns >>= add_created if_name netns result
    ]

  abbrev unless_missing : Result Error (Unit {0}) → Eff S (Unit {0})
  unless_missing (ok u) = pure tt
  unless_missing (err link_not_found) = pure tt
  unless_missing (err e) = raise e

  -- Del: without a namespace there is nothing to do, and a link that is gone is no error.
  unfoldable pub del : Text → Ns → Eff S (Unit {0})
  del if_name netns = if text_eq netns [] then pure tt else (do
    h.get_ns netns
    in_ns h netns (do done ← attempt (del_link_by_name h netns if_name); unless_missing done))

  abbrev macvlan_mode : LinkKind → Option MacvlanMode
  macvlan_mode (macvlan_link m) = some m
  macvlan_mode _ = none

  -- validateCniContainerInterface. The error of an unknown expected mode is dropped; its zero value is
  -- no mode of a link, and has no name, which is the error then.
  unfoldable pub validate_interface : Ns → Interface → Text → Eff S (Unit {0})
  validate_interface netns intf mode_expected =
      if text_eq intf.name [] then raise missing_name else (do
        link ← failing_as failed (h.link_by_name netns intf.name)
        if text_eq intf.sandbox [] then raise missing_sandbox else elim (macvlan_mode link.kind) [
          | none ↦ raise not_macvlan
          | some mode ↦ elim (mode_from_string mode_expected) [
            | err e ↦ raise unknown_mode
            | ok expected ↦
                if not (eq_mode mode expected)
                then raise mode_mismatch
                else if not (text_eq intf.mac []) && not (text_eq intf.mac link.mac)
                then raise mac_mismatch
                else pure tt
          ]
        ])

  -- Check: the previous result is none where it is missing, and an error where it is malformed.
  unfoldable pub check :
      Option MacVlanConf → Text → Ns → Option (Result Error CniResult) → Eff S (Unit {0})
  check mac_vlan if_name netns prev = do
    failing_as failed (h.get_ns netns)
    elim prev [
      | none ↦ raise no_prev_result
      | some (err e) ↦ raise e
      | some (ok result) ↦
          let cont = find_interface if_name netns no_interface result.interfaces in
          if not (text_eq netns cont.sandbox) then raise sandbox_mismatch else elim mac_vlan [
            | none ↦ raise panic
            | some conf ↦ do
              m ← failing_as failed (h.link_by_name own conf.master)
              in_ns h netns (do
                validate_interface netns cont conf.mode
                h.validate_ips netns if_name result.ips
                h.validate_routes netns result.routes)
          ]
    ]
