-- ===== src/Tuning/Examples.antt =====
-- The tuning of a link that is the state itself.
use village_net.Common.{
  ◌<◌, ◌≡◌, refl, inl, ap, true, [], ◌∷◌, Option, none, some, ok, arith, codes, All, text_eq,
}
use village_net.Net.HardwareAddr.{HardwareAddr, mac_string, parse_mac}
use village_net.Net.HardwareAddr.RoundTrip.{parse_mac-mac_string}
use village_net.HostLocal.Store.{Text}
use village_net.Cni.{CniResult}
use village_net.Tuning.{TuningConf, ConfigToRestore, TuningHost}
use village_net.Tuning.Paths.{sysctl_file}
use village_net.Tuning.Backup.{restore_backup}
use village_net.Tuning.Commands.{tune, tune_link, check_link}
use village_net.Tuning.Laws.{View, TuningLaws, is_none, put_mac, put_promisc, put_mtu}
use village_net.Tuning.Undone.{IsLike, restore_backup-tune}
use village_net.Tuning.CheckLaws.{check_link-tune_link}

abbrev put_backup : Option ConfigToRestore → View → View
put_backup c v = record v { backup = c }

abbrev host : TuningHost View
host = record {
  enter_ns = λ ns s. (ok tt, s);
  write_sysctl = λ f t s. (ok tt, s);
  read_sysctl = λ f s. (ok [], s);
  link_by_name = λ n s. (ok s.link, s);
  set_hardware_addr = λ n hw s. (ok tt, put_mac hw s);
  set_promisc = λ n b s. (ok tt, put_promisc b s);
  set_mtu = λ n m s. (ok tt, put_mtu m s);
  gratuitous_arp = λ ip n s. (ok tt, s);
  is_missing = λ p s. (ok (is_none s.backup), s);
  mkdir_all = λ p s. (ok tt, s);
  write_backup = λ p c s. (ok tt, put_backup (some c) s);
  read_backup = λ p s. (ok s.backup, s);
  remove_file = λ p s. (ok tt, put_backup none s);
}

host-TuningLaws : (n path : Text) → TuningLaws (λ s. s) host n path
host-TuningLaws n path = record {
  link_read = λ s. refl;
  mac_set = λ hw s. inl (refl, refl);
  promisc_set = λ b s. inl (refl, refl);
  mtu_set = λ m s. inl (refl, refl);
  backup_set = λ c s. inl (refl, refl);
  backup_removed = λ s. inl (refl, refl);
  missing_read = λ s. refl;
  backup_read = λ s c e. ap (λ b. (ok b, s)) e;
  is_missing_same = λ dir s. refl;
  mkdir_all_same = λ dir s. refl;
  write_sysctl_same = λ f t s. refl;
  gratuitous_arp_same = λ ip m s. refl;
}

abbrev old_mac : HardwareAddr
old_mac = 2 ∷ 66 ∷ 172 ∷ 17 ∷ 0 ∷ 2 ∷ []

abbrev new_mac : HardwareAddr
new_mac = 2 ∷ 66 ∷ 172 ∷ 17 ∷ 0 ∷ 255 ∷ []

old_bytes : All (λ b. b < 256) old_mac
old_bytes =
    (omega arith, (omega arith, (omega arith, (omega arith, (omega arith, (omega arith, tt))))))

new_bytes : All (λ b. b < 256) new_mac
new_bytes =
    (omega arith, (omega arith, (omega arith, (omega arith, (omega arith, (omega arith, tt))))))

abbrev conf : TuningConf
conf = record {
  data_dir = codes "/run/cni/tuning";
  sys_ctl = some ((codes "net.core.somaxconn", codes "500") ∷ []);
  mac = mac_string new_mac;
  promisc = true;
  mtu = 1400;
  runtime_mac = [];
  args = none;
}

abbrev fresh : View
fresh = record {
  link = record { mac = mac_string old_mac; promisc = 0; mtu = 1500 };
  backup = none;
}

abbrev no_addresses : CniResult
no_addresses = record { interfaces = []; ips = []; routes = [] }

abbrev tuned : View
tuned = (tune host (codes "c") (codes "eth0") conf no_addresses fresh).1

abbrev undone : View
undone = (restore_backup host (codes "eth0") (codes "c") conf.data_dir tuned).1

parse_mac-mac_string_example : parse_mac (mac_string new_mac) ≡ some new_mac
parse_mac-mac_string_example = parse_mac-mac_string new_mac new_bytes refl

undone_runs : restore_backup host (codes "eth0") (codes "c") conf.data_dir tuned ≡ (ok tt, undone)
unfolding restore_backup tune sysctl_file text_eq
undone_runs = refl

restore_backup-tune_example : IsLike fresh.link undone.link × (undone.backup ≡ none)
restore_backup-tune_example =
    restore_backup-tune (λ s. s) host (codes "eth0") (codes "c") conf
      (host-TuningLaws (codes "eth0") _) no_addresses fresh undone refl
      (old_mac, refl, old_bytes, refl) refl undone_runs

abbrev tuned_link : View
tuned_link = (tune_link host (codes "c") (codes "eth0") conf no_addresses fresh).1

tune_link_runs :
    tune_link host (codes "c") (codes "eth0") conf no_addresses fresh ≡ (ok tt, tuned_link)
unfolding tune_link text_eq
tune_link_runs = refl

check_link-tune_link_example : check_link conf tuned_link.link tuned_link ≡ (ok tt, tuned_link)
check_link-tune_link_example =
    check_link-tune_link (λ s. s) host (codes "eth0") (codes "c") conf
      (host-TuningLaws (codes "eth0") _) no_addresses fresh tuned_link
      (λ e. (new_mac, refl, new_bytes, refl)) (λ e. absurd (ground (arith, e))) tune_link_runs
