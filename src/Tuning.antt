-- ===== src/Tuning.antt =====
-- plugins/meta/tuning/tuning.go: the configuration, and what the plugin asks of the host. A map is the
-- list of its entries in the order in which Go visits them.
pub mod Paths
pub mod Backup
pub mod Commands
pub mod Laws
pub mod RestoreLaws
pub mod TuneLaws
pub mod Undone
pub mod CheckLaws
pub mod Examples
use village_net.Common.{
  ℕ, Bool, true, false, if◌then◌else◌, List, [], ◌∷◌, Option, none, some, Result, ok, err, text_eq,
  codes, insert,
}
use village_net.Net.{Ip}
use village_net.Net.HardwareAddr.{HardwareAddr}
use village_net.HostLocal.Store.{Text}
use village_net.Cni.Effects.{Error, Eff, panic, failed}

-- IPAMArgs, the arguments under `args.cni`.
pub record IpamArgs : Type 0 where
  pub sys_ctl : Option (List (Text × Text))
  pub mac : Option Text
  pub promisc : Option Bool
  pub mtu : Option ℕ

-- A configuration without `sysctl` has no map.
pub record TuningConf : Type 0 where
  pub data_dir : Text
  pub sys_ctl : Option (List (Text × Text))
  pub mac : Text
  pub promisc : Bool
  pub mtu : ℕ
  pub runtime_mac : Text
  pub args : Option IpamArgs

-- configToRestore
pub record ConfigToRestore : Type 0 where
  pub mac : Text
  pub promisc : Option Bool
  pub mtu : ℕ

-- The attributes of a link: its hardware address as text, the count of its promiscuous users, its MTU.
pub record TunedLink : Type 0 where
  pub mac : Text
  pub promisc : ℕ
  pub mtu : ℕ

-- The host. Files are named by their paths; a backup that is no JSON is read as none.
pub record TuningHost (S : Type 0) : Type 0 where
  pub enter_ns : Text → Eff S (Unit {0})
  pub write_sysctl : Text → Text → Eff S (Unit {0})
  pub read_sysctl : Text → Eff S Text
  pub link_by_name : Text → Eff S TunedLink
  pub set_hardware_addr : Text → HardwareAddr → Eff S (Unit {0})
  pub set_promisc : Text → Bool → Eff S (Unit {0})
  pub set_mtu : Text → ℕ → Eff S (Unit {0})
  pub gratuitous_arp : Ip → Text → Eff S (Unit {0})
  pub is_missing : Text → Eff S Bool
  pub mkdir_all : Text → Eff S (Unit {0})
  pub write_backup : Text → ConfigToRestore → Eff S (Unit {0})
  pub read_backup : Text → Eff S (Option ConfigToRestore)
  pub remove_file : Text → Eff S (Unit {0})

module _ {A : Type 0} where
  abbrev pub or_else : Option A → A → A
  or_else none a = a
  or_else (some b) a = b

abbrev insert_all : List (Text × Text) → List (Text × Text) → List (Text × Text)
insert_all [] m = m
insert_all ((k, v) ∷ kvs) m = insert_all kvs (insert k v m)

-- An assignment to the map that is not there panics.
abbrev add_sys_ctl :
    Option (List (Text × Text))
    → Option (List (Text × Text))
    → Result Error (Option (List (Text × Text)))
add_sys_ctl none m = ok m
add_sys_ctl (some []) m = ok m
add_sys_ctl (some (kv ∷ kvs)) none = err panic
add_sys_ctl (some (kv ∷ kvs)) (some m) = ok (some (insert_all (kv ∷ kvs) m))

abbrev with_sys_ctl :
    TuningConf → Result Error (Option (List (Text × Text))) → Result Error TuningConf
with_sys_ctl conf (err e) = err e
with_sys_ctl conf (ok m) = ok (record conf { sys_ctl = m })

unfoldable pub apply_args : TuningConf → Option IpamArgs → Result Error TuningConf
apply_args conf none = ok conf
apply_args conf (some a) =
    with_sys_ctl
      (record conf {
        mac = or_else a.mac conf.mac;
        promisc = or_else a.promisc conf.promisc;
        mtu = or_else a.mtu conf.mtu;
      })
      (add_sys_ctl a.sys_ctl conf.sys_ctl)

abbrev pub unless_empty : Text → Text → Text
unless_empty t u = if text_eq t [] then u else t

-- The MAC of CNI_ARGS comes first, none where they cannot be loaded, then the configuration that was read.
unfoldable pub parse_conf : Option Text → TuningConf → Result Error TuningConf
unfolding apply_args
parse_conf none conf = err failed
parse_conf (some env_mac) conf =
    apply_args
      (record conf {
        data_dir = unless_empty conf.data_dir (codes "/run/cni/tuning");
        mac = unless_empty conf.runtime_mac (unless_empty env_mac conf.mac);
      })
      conf.args
