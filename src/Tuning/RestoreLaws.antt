-- ===== src/Tuning/RestoreLaws.antt =====
-- That restoreBackup of plugins/meta/tuning/tuning.go undoes what cmdAdd has done to the link.
use village_net.Common.{
  ℕ, ◌<◌, ◌≡◌, refl, inl, inr, ap, ◌∙◌, sym, Bool, true, false, ◌&&◌, ◌==◌, if◌then◌else◌, [],
  Option, none, some, ok, arith, All, Bool-cases, text_eq, length,
}
use village_net.Net.HardwareAddr.{HardwareAddr, mac_string, is_mac_size, parse_mac}
use village_net.Net.HardwareAddr.RoundTrip.{parse_mac-mac_string}
use village_net.HostLocal.Store.{Text}
use village_net.Cni.Effects.{failing_as, failed, succeeds, ◌>>=◌}
use village_net.Tuning.{ConfigToRestore, TunedLink, TuningHost}
use village_net.Tuning.Paths.{backup_file}
use village_net.Tuning.Backup.{
  change_mac_addr, change_promisc, change_mtu, restore_mtu, restore_mac, restore_promisc,
  restore_attributes, remove_restored, restore_backup,
}
use village_net.Tuning.Laws.{
  View, put_mac, put_promisc, put_mtu, with_promisc, TuningLaws, Sets-ok, tried-true, failing_as-ok,
  all_three,
}

abbrev pub back : Option Bool → ℕ → ℕ
back none n = n
back (some b) n = with_promisc b n

all_true : (a b c : Bool) → a && (b && c) ≡ true → (a ≡ true) × (b ≡ true) × (c ≡ true)
all_true true true true e = (refl, refl, refl)
all_true true true false e = absurd (ground (arith, e))
all_true true false c e = absurd (ground (arith, e))
all_true false b c e = absurd (ground (arith, e))

abbrev put_back_mac : ConfigToRestore → View → View
put_back_mac c v = record v {
  link = record v.link { mac = if text_eq c.mac [] then v.link.mac else c.mac };
}

abbrev put_back_mtu : ConfigToRestore → View → View
put_back_mtu c v = record v {
  link = record v.link { mtu = if c.mtu == 0 then v.link.mtu else c.mtu };
}

abbrev put_back_promisc : Option Bool → View → View
put_back_promisc o v = record v { link = record v.link { promisc = back o v.link.promisc } }

abbrev drop_backup : View → View
drop_backup v = record v { backup = none }

-- What restoring a backup makes of a link.
abbrev pub restored : ConfigToRestore → TunedLink → TunedLink
restored c l = record {
  mac = if text_eq c.mac [] then l.mac else c.mac;
  promisc = back c.promisc l.promisc;
  mtu = if c.mtu == 0 then l.mtu else c.mtu;
}

-- A text that HardwareAddr.String gives.
abbrev pub IsMac : Text → Type 0
IsMac t =
    (hw : HardwareAddr) × (t ≡ mac_string hw)
    × All (λ b. b < 256) hw
    × (is_mac_size (length hw) ≡ true)

module _ {S : Type 0} (view : S → View) (h : TuningHost S) (if_name path : Text)
    (laws : TuningLaws view h if_name path) where
  pub change_mtu-sets : (n : ℕ) (s : S) → change_mtu h if_name n s ≡ h.set_mtu if_name n s
  unfolding change_mtu
  change_mtu-sets n s = rw (laws.link_read s) refl

  pub change_promisc-sets :
      (b : Bool) (s : S) → change_promisc h if_name b s ≡ h.set_promisc if_name b s
  unfolding change_promisc
  change_promisc-sets b s = rw (laws.link_read s) refl

  pub change_mac_addr-sets :
      (t : Text) (hw : HardwareAddr) (s : S)
      → parse_mac t ≡ some hw
      → change_mac_addr h if_name t s ≡ h.set_hardware_addr if_name hw s
  unfolding change_mac_addr
  change_mac_addr-sets t hw s e = rw (e, laws.link_read s) refl

  restore_mtu-sets :
      (c : ConfigToRestore) (s s' : S)
      → restore_mtu h if_name c s ≡ (ok true, s')
      → view s' ≡ put_back_mtu c (view s)
  restore_mtu-sets c s s' e = elim (Bool-cases (c.mtu == 0)) [
    | inl z ↦ let same : s ≡ s' = ground (arith, z, e) in rw z (ap view (sym same))
    | inr z ↦
        let run : change_mtu h if_name c.mtu s ≡ (ok tt, s') =
          tried-true (change_mtu h if_name c.mtu) s s' (rw z at e) in
        rw z (
          Sets-ok view (h.set_mtu if_name c.mtu) (put_mtu c.mtu) (laws.mtu_set c.mtu) s s'
            (sym (change_mtu-sets c.mtu s) ∙ run))
  ]

  restore_mac-sets :
      (c : ConfigToRestore) (s s' : S)
      → (text_eq c.mac [] ≡ false → IsMac c.mac)
      → restore_mac h if_name c s ≡ (ok true, s')
      → view s' ≡ put_back_mac c (view s)
  restore_mac-sets c s s' is_mac e = elim (Bool-cases (text_eq c.mac [])) [
    | inl z ↦ let same : s ≡ s' = ground (arith, z, e) in rw z (ap view (sym same))
    | inr z ↦
        let (hw, written, bytes, size) = is_mac z in
        let run : change_mac_addr h if_name c.mac s ≡ (ok tt, s') =
          tried-true (change_mac_addr h if_name c.mac) s s' (rw z at e) in
        let parsed : parse_mac c.mac ≡ some hw =
          ap parse_mac written ∙ parse_mac-mac_string hw bytes size in
        let set =
          Sets-ok view (h.set_hardware_addr if_name hw) (put_mac hw) (laws.mac_set hw) s s'
            (sym (change_mac_addr-sets c.mac hw s parsed) ∙ run) in
        rw z (
          set ∙ ap (λ t. record (view s) { link = record (view s).link { mac = t } }) (sym written))
  ]

  restore_promisc-sets :
      (o : Option Bool) (s s' : S)
      → restore_promisc h if_name o s ≡ (ok true, s')
      → view s' ≡ put_back_promisc o (view s)
  restore_promisc-sets none s s' e = ap (λ r. view r.1) (sym e)
  restore_promisc-sets (some b) s s' e =
      let run = tried-true (change_promisc h if_name b) s s' e in
      Sets-ok view (h.set_promisc if_name b) (put_promisc b) (laws.promisc_set b) s s'
        (sym (change_promisc-sets b s) ∙ run)

  restore_attributes-sets :
      (c : ConfigToRestore) (s s' : S)
      → (text_eq c.mac [] ≡ false → IsMac c.mac)
      → restore_attributes h if_name c s ≡ (ok true, s')
      → view s' ≡ record (view s) { link = restored c (view s).link }
  unfolding restore_attributes
  restore_attributes-sets c s s' is_mac e =
      let (s1, s2, q1, q2, q3) =
        all_three (restore_mtu h if_name c) (restore_mac h if_name c)
          (restore_promisc h if_name c.promisc) s s' e in
      restore_promisc-sets c.promisc s2 s' q3
      ∙ ap (put_back_promisc c.promisc)
          (restore_mac-sets c s1 s2 is_mac q2 ∙ ap (put_back_mac c) (restore_mtu-sets c s s1 q1))

  module _ (container_id backup_path : Text)
      (is_path : path ≡ backup_file backup_path container_id if_name) where
    pub restore_backup-none :
        (s : S)
        → (view s).backup ≡ none
        → restore_backup h if_name container_id backup_path s ≡ (ok tt, s)
    unfolding restore_backup
    restore_backup-none s e = rw (← is_path, laws.missing_read s, e) refl

    pub restore_backup-some :
        (c : ConfigToRestore) (s s' : S)
        → (view s).backup ≡ some c
        → (text_eq c.mac [] ≡ false → IsMac c.mac)
        → restore_backup h if_name container_id backup_path s ≡ (ok tt, s')
        → view s' ≡ record { link = restored c (view s).link; backup = none }
    unfolding restore_backup
    restore_backup-some c s s' has is_mac e =
        let run : (restore_attributes h if_name c >>= remove_restored h if_name path) s
            ≡ (ok tt, s') =
          rw (← is_path, laws.missing_read s, has, laws.backup_read s c has, laws.link_read s) at
            e in
        let (b, s1, q, r) =
          succeeds (restore_attributes h if_name c) (remove_restored h if_name path) s s' tt run in
        elim (Bool-cases b) [
          | inl z ↦
              let removed : failing_as failed (h.remove_file path) s1 ≡ (ok tt, s') = rw z at r in
              Sets-ok view (h.remove_file path) drop_backup laws.backup_removed s1 s'
                (failing_as-ok (h.remove_file path) failed s1 s' removed)
              ∙ ap drop_backup (restore_attributes-sets c s s1 is_mac (rw z at q))
          | inr z ↦ absurd (ground (arith, rw z at r))
        ]
