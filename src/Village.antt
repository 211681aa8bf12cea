-- ===== src/Village.antt =====
-- plugins/main/village/village.go: the plugin that gives a container an interface on the bridge
-- and, for the addresses of interfaces named mv…, a macvlan interface.
pub mod Cleanup
pub mod Division
pub mod Examples
use village_net.Common.{
  ℕ, zero, suc, ◌+◌, ◌-◌, Bool, true, false, not, ◌&&◌, List, [], ◌∷◌, ◌++◌, Option, none, some,
  ◌==◌, ltb, if◌then◌else◌, length, take, text_eq, codes, Result, ok, err,
}
use village_net.HostLocal.Store.{Text}
use village_net.Cni.{NetConf, Interface, IpConfig, CniResult}
use village_net.Cni.Effects.{Error, panic, Eff, pure, raise, ignore, on_error, ◌>>=◌, ◌>>◌}

-- What the plugin calls: the delegated IPAM plugin, and the controllers of pkg/bridge and
-- pkg/macvlan, which read the interface's name where they are called.
pub record Parts (S : Type 0) : Type 0 where
  pub exec_add : Text → Eff S CniResult
  pub exec_del : Text → Eff S (Unit {0})
  pub exec_check : Text → Eff S (Unit {0})
  pub bridge_add : Text → NetConf → Option CniResult → Eff S (Unit {0})
  pub bridge_del : Text → NetConf → Eff S (Unit {0})
  pub bridge_check : Text → NetConf → Eff S (Unit {0})
  pub macvlan_add : Text → NetConf → CniResult → Eff S (Unit {0})
  pub macvlan_del : Text → NetConf → Eff S (Unit {0})
  pub macvlan_check : Text → NetConf → Eff S (Unit {0})

abbrev pub mv0 : Text
mv0 = codes "mv0"

-- strings.HasPrefix(name, "mv")
abbrev pub is_mv : Text → Bool
is_mv name = text_eq (take 2 name) (codes "mv")

abbrev pub nth? : List Interface → ℕ → Option Interface
nth? [] i = none
nth? (x ∷ xs) zero = some x
nth? (x ∷ xs) (suc i) = nth? xs i

-- The results for the bridge and for the macvlan interface.
pub record Split : Type 0 where
  pub br : CniResult
  pub mv : CniResult

-- An interface and its address, appended: the address refers to the interface by its new index.
unfoldable pub append_both : CniResult → Interface → IpConfig → CniResult
append_both r inf ip = record r {
  interfaces = r.interfaces ++ (inf ∷ []);
  ips = r.ips ++ (record ip { interface = some (length r.interfaces) } ∷ []);
}

-- One round of the loop over the addresses: an index out of range is a panic.
unfoldable pub split_one : List Interface → Split → IpConfig → Result Error Split
split_one infs sp ip = elim ip.interface [
  | none ↦ ok (record sp { br = record sp.br { ips = sp.br.ips ++ (ip ∷ []) } })
  | some idx ↦ elim (nth? infs idx) [
    | none ↦ err panic
    | some inf ↦
        if is_mv inf.name
        then ok (record sp { mv = append_both sp.mv inf ip })
        else ok (record sp { br = append_both sp.br inf ip })
  ]
]

unfoldable pub split_all : List Interface → Split → List IpConfig → Result Error Split
split_all infs sp [] = ok sp
split_all infs sp (ip ∷ ips) = elim (split_one infs sp ip) [
  | err e ↦ err e
  | ok sp' ↦ split_all infs sp' ips
]

unfoldable pub split_result : CniResult → Result Error Split
split_result r =
    split_all r.interfaces
      (record {
        br = record { interfaces = []; ips = []; routes = r.routes };
        mv = record { interfaces = []; ips = []; routes = [] };
      })
      r.ips

abbrev is_some {ℓ} : {A : Type ℓ} → Option A → Bool
is_some none = false
is_some (some a) = true

module _ {S : Type 0} (p : Parts S) (conf : NetConf) where
  -- Whether a macvlan interface is asked for.
  abbrev pub wants_macvlan : Split → Bool
  wants_macvlan sp = ltb 0 (length sp.mv.interfaces) && is_some conf.mac_vlan

  -- cmdAdd from the bridge on. The deferred Del of the bridge reads the interface's name when it
  -- runs; by then it is mv0, for the arguments are shared with the macvlan controller.
  unfoldable pub add_interfaces : Text → Split → Eff S (Unit {0})
  add_interfaces if_name sp = do
    p.bridge_add if_name conf (some sp.br)
    if wants_macvlan sp
        then on_error (p.macvlan_add mv0 conf sp.mv) (p.bridge_del mv0 conf)
        else pure tt

  -- cmdAdd from the assigned addresses on.
  unfoldable pub add_assigned : Text → CniResult → Eff S (Unit {0})
  add_assigned if_name r s = elim (split_result r) [
    | err e ↦ (err e, s)
    | ok sp ↦ add_interfaces if_name sp s
  ]

  -- cmdAdd with the type of the IPAM plugin: what follows ExecAdd is undone by ExecDel.
  unfoldable pub add_layer3 : Text → Text → Eff S (Unit {0})
  add_layer3 ipam_type if_name = do
    r ← p.exec_add ipam_type
    on_error (add_assigned if_name r) (p.exec_del ipam_type)

  -- cmdAdd. A configuration with no ipam section is a nil pointer.
  unfoldable pub cmd_add : Text → Eff S (Unit {0})
  cmd_add if_name = elim conf.ipam_type [
    | none ↦ raise panic
    | some ipam_type ↦
        if text_eq ipam_type []
        then p.bridge_add if_name conf none
        else add_layer3 ipam_type if_name
  ]

  unfoldable pub cmd_del : Text → Eff S (Unit {0})
  cmd_del if_name = elim conf.ipam_type [
    | none ↦ raise panic
    | some ipam_type ↦ do
      if text_eq ipam_type [] then pure tt else p.exec_del ipam_type
      ignore (p.macvlan_del mv0 conf)
      p.bridge_del if_name conf
  ]

  unfoldable pub cmd_check : Text → Eff S (Unit {0})
  cmd_check if_name = elim conf.ipam_type [
    | none ↦ raise panic
    | some ipam_type ↦ do
      p.exec_check ipam_type
      ignore (p.macvlan_check if_name conf)
      p.bridge_check if_name conf
  ]
