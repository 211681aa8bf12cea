-- ===== src/Tuning/Commands.antt =====
-- plugins/meta/tuning/tuning.go: the commands.
use village_net.Common.{
  Bool, true, false, not, ◌==◌, ◌||◌, ◌&&◌, if◌then◌else◌, List, [], ◌∷◌, Option, none, some,
  Result, ok, err, text_eq, codes,
}
use village_net.HostLocal.Store.{Text}
use village_net.HostLocal.Allocator.{Version, v4, v6}
use village_net.Cni.{CniResult, Interface, IpConfig, PrevResult, no_result, malformed, result}
use village_net.Cni.Effects.{
  Error, Eff, failed, no_prev_result, mac_mismatch, promisc_mismatch, mode_mismatch, when, pure,
  raise, failing_as, ignore, for_each, ◌>>=◌, ◌>>◌,
}
use village_net.Tuning.{TuningConf, TunedLink, TuningHost, parse_conf}
use village_net.Tuning.Paths.{sysctl_file, has_prefix}
use village_net.Tuning.Backup.{
  wants_mac, wants_mtu, change_mac_addr, change_promisc, change_mtu, create_backup, restore_backup,
}

abbrev pub entries : Option (List (Text × Text)) → List (Text × Text)
entries none = []
entries (some kvs) = kvs

abbrev is_v4 : Version → Bool
is_v4 v4 = true
is_v4 v6 = false

abbrev set_macs : Text → Text → List Interface → List Interface
set_macs if_name mac [] = []
set_macs if_name mac (i ∷ is) =
    (if text_eq i.name if_name then record i { mac = mac } else i) ∷ set_macs if_name mac is

-- updateResultsMacAddr; the interfaces of the previous result are shared with the one that is printed.
unfoldable pub update_results_mac_addr : CniResult → Text → Text → CniResult
update_results_mac_addr r if_name new_mac_addr = record r {
  interfaces = set_macs if_name new_mac_addr r.interfaces;
}

abbrev pub tunes_link : TuningConf → Bool
tunes_link conf = wants_mac conf || (wants_mtu conf || conf.promisc)

-- The end of a line at the end of a file.
abbrev pub trim_newline : Text → Text
trim_newline [] = []
trim_newline (c ∷ []) = if c == 10 then [] else c ∷ []
trim_newline (c ∷ d ∷ cs) = c ∷ trim_newline (d ∷ cs)

abbrev pub same_bool : Bool → Bool → Bool
same_bool true b = b
same_bool false b = not b

abbrev prev_of : {S : Type 0} → PrevResult → Eff S CniResult
prev_of no_result = raise no_prev_result
prev_of malformed = raise failed
prev_of (result r) = pure r

abbrev lift : {S A : Type 0} → Result Error A → Eff S A
lift (ok a) = pure a
lift (err e) = raise e

module _ {S : Type 0} where
  unfoldable pub check_link : TuningConf → TunedLink → Eff S (Unit {0})
  check_link conf link = do
    when (wants_mac conf && not (text_eq conf.mac link.mac)) (raise mac_mismatch)
    when (not (same_bool conf.promisc (not (link.promisc == 0)))) (raise promisc_mismatch)
    when (wants_mtu conf && not (conf.mtu == link.mtu)) (raise mode_mismatch)

module _ {S : Type 0} (h : TuningHost S) where
  unfoldable pub write_entry : Text × Text → Eff S (Unit {0})
  write_entry (key, value) =
      let file_name = sysctl_file key in
      if has_prefix file_name (codes "/proc/sys/net/")
      then h.write_sysctl file_name value
      else raise failed

  unfoldable pub check_entry : Text × Text → Eff S (Unit {0})
  check_entry (key, value) = do
    contents ← h.read_sysctl (sysctl_file key)
    if text_eq value (trim_newline contents) then pure tt else raise failed

  -- The interface of the command.
  module _ (if_name : Text) where
    abbrev pub send_arp : IpConfig → Eff S (Unit {0})
    send_arp ip = when (is_v4 ip.version) (ignore (h.gratuitous_arp ip.address.ip if_name))

    abbrev pub change_mac : TuningConf → CniResult → Eff S (Unit {0})
    change_mac conf r = change_mac_addr h if_name conf.mac >> for_each r.ips send_arp

    unfoldable pub check_tuned : TuningConf → Eff S (Unit {0})
    unfolding check_link check_entry
    check_tuned conf = do
      for_each (entries conf.sys_ctl) check_entry
      link ← failing_as failed (h.link_by_name if_name)
      check_link conf link

    unfoldable pub cmd_check : Option Text → TuningConf → Text → PrevResult → Eff S (Unit {0})
    unfolding check_tuned parse_conf
    cmd_check env_mac input netns prev = do
      conf ← lift (parse_conf env_mac input)
      r ← prev_of prev
      h.enter_ns netns
      check_tuned conf

  -- The command of an interface of a container.
  module _ (container_id if_name : Text) where
    -- The link, the function of cmdAdd behind the loop over `sysctl`.
    unfoldable pub tune_link : TuningConf → CniResult → Eff S (Unit {0})
    unfolding change_mac_addr change_promisc change_mtu create_backup
    tune_link conf r = do
      when (tunes_link conf) (create_backup h if_name container_id conf.data_dir conf)
      when (wants_mac conf) (change_mac if_name conf r)
      when conf.promisc (change_promisc h if_name true)
      when (wants_mtu conf) (change_mtu h if_name conf.mtu)

    unfoldable pub tune : TuningConf → CniResult → Eff S (Unit {0})
    unfolding tune_link write_entry
    tune conf r = for_each (entries conf.sys_ctl) write_entry >> tune_link conf r

    abbrev printed : TuningConf → CniResult → CniResult
    printed conf r = if wants_mac conf then update_results_mac_addr r if_name conf.mac else r

    -- The result that it gives is what it prints.
    unfoldable pub cmd_add : Option Text → TuningConf → Text → PrevResult → Eff S CniResult
    unfolding tune parse_conf update_results_mac_addr
    cmd_add env_mac input netns prev = do
      conf ← lift (parse_conf env_mac input)
      r ← prev_of prev
      h.enter_ns netns
      tune conf r
      pure (printed conf r)

    -- The error of the function that restores is dropped, but not that of parseConf.
    unfoldable pub cmd_del : Option Text → TuningConf → Text → Eff S (Unit {0})
    unfolding restore_backup parse_conf
    cmd_del env_mac input netns = do
      conf ← lift (parse_conf env_mac input)
      ignore (h.enter_ns netns >> restore_backup h if_name container_id conf.data_dir)
