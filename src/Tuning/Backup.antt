-- ===== src/Tuning/Backup.antt =====
-- plugins/meta/tuning/tuning.go: the changes of a link, and the backup of what they replace.
use village_net.Common.{
  ℕ, Bool, true, false, not, ◌==◌, ◌&&◌, if◌then◌else◌, [], Option, none, some, Result, ok, err,
  text_eq,
}
use village_net.Net.HardwareAddr.{HardwareAddr, parse_mac}
use village_net.HostLocal.Store.{Text}
use village_net.Cni.Effects.{
  Error, Eff, failed, bad_mac, when, pure, raise, attempt, failing_as, ◌>>=◌, ◌>>◌,
}
use village_net.Tuning.{TuningConf, ConfigToRestore, TunedLink, TuningHost}
use village_net.Tuning.Paths.{backup_file}

abbrev pub wants_mac : TuningConf → Bool
wants_mac conf = not (text_eq conf.mac [])

abbrev pub wants_mtu : TuningConf → Bool
wants_mtu conf = not (conf.mtu == 0)

-- What of a link a configuration changes.
abbrev pub config_of_link : TuningConf → TunedLink → ConfigToRestore
config_of_link conf link = record {
  mac = if wants_mac conf then link.mac else [];
  promisc = if conf.promisc then some (not (link.promisc == 0)) else none;
  mtu = if wants_mtu conf then link.mtu else 0;
}

abbrev pub is_ok : Result Error (Unit {0}) → Bool
is_ok (ok u) = true
is_ok (err e) = false

module _ {S : Type 0} (h : TuningHost S) (if_name : Text) where
  abbrev pub set_parsed_mac : Option HardwareAddr → Eff S (Unit {0})
  set_parsed_mac none = raise bad_mac
  set_parsed_mac (some addr) = do
    failing_as failed (h.link_by_name if_name)
    h.set_hardware_addr if_name addr

  unfoldable pub change_mac_addr : Text → Eff S (Unit {0})
  unfolding parse_mac
  change_mac_addr new_mac_addr = set_parsed_mac (parse_mac new_mac_addr)

  unfoldable pub change_promisc : Bool → Eff S (Unit {0})
  change_promisc val = do failing_as failed (h.link_by_name if_name); h.set_promisc if_name val

  unfoldable pub change_mtu : ℕ → Eff S (Unit {0})
  change_mtu mtu = do failing_as failed (h.link_by_name if_name); h.set_mtu if_name mtu

  unfoldable pub create_backup : Text → Text → TuningConf → Eff S (Unit {0})
  unfolding backup_file
  create_backup container_id backup_path conf = do
    link ← failing_as failed (h.link_by_name if_name)
    missing ← h.is_missing backup_path
    when missing (failing_as failed (h.mkdir_all backup_path))
    failing_as failed
        (h.write_backup (backup_file backup_path container_id if_name) (config_of_link conf link))

  -- Whether the attributes could be set again, each of them tried in turn.
  abbrev pub restore_mtu : ConfigToRestore → Eff S Bool
  restore_mtu config =
      if config.mtu == 0
      then pure true
      else (attempt (change_mtu config.mtu) >>= λ r. pure (is_ok r))

  abbrev pub restore_mac : ConfigToRestore → Eff S Bool
  restore_mac config =
      if text_eq config.mac []
      then pure true
      else (attempt (change_mac_addr config.mac) >>= λ r. pure (is_ok r))

  abbrev pub restore_promisc : Option Bool → Eff S Bool
  restore_promisc none = pure true
  restore_promisc (some val) = attempt (change_promisc val) >>= λ r. pure (is_ok r)

  unfoldable pub restore_attributes : ConfigToRestore → Eff S Bool
  unfolding change_mtu change_mac_addr change_promisc
  restore_attributes config = do
    mtu_ok ← restore_mtu config
    mac_ok ← restore_mac config
    promisc_ok ← restore_promisc config.promisc
    pure (mtu_ok && (mac_ok && promisc_ok))

  abbrev pub remove_restored : Text → Bool → Eff S (Unit {0})
  remove_restored path true = failing_as failed (h.remove_file path)
  remove_restored path false = raise failed

  -- A backup that is no JSON, or the backup of a link that is gone, is left where it is.
  abbrev pub restore_from : Text → Option ConfigToRestore → Eff S (Unit {0})
  restore_from path none = pure tt
  restore_from path (some config) = attempt (h.link_by_name if_name) >>= λ l. elim l [
    | err e ↦ pure tt
    | ok link ↦ restore_attributes config >>= remove_restored path
  ]

  unfoldable pub restore_backup : Text → Text → Eff S (Unit {0})
  unfolding restore_attributes backup_file
  restore_backup container_id backup_path =
      let path = backup_file backup_path container_id if_name in
      h.is_missing path >>= λ missing.
      if missing then pure tt else (failing_as failed (h.read_backup path) >>= restore_from path)
