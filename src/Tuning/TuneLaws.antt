-- ===== src/Tuning/TuneLaws.antt =====
-- That cmdAdd of plugins/meta/tuning/tuning.go changes a link only behind a backup of what it changes,
-- and that restoreBackup undoes the changes.
use village_net.Common.{
  ◌≡◌, refl, ◌⊎◌, inl, inr, ap, ◌∙◌, sym, subst, Bool, true, false, ◌||◌, Option, none, some,
  Result, ok, err, arith, Bool-cases,
}
use village_net.Net.HardwareAddr.{HardwareAddr, parse_mac}
use village_net.HostLocal.Store.{Text}
use village_net.Cni.{CniResult, IpConfig}
use village_net.Cni.Effects.{
  Error, Eff, panic, raise, rename_error, failing_as, failed, ignore, for_each, when, ◌>>=◌, ◌>>◌,
}
use village_net.Cni.Within.{Within, bind-Within, for_each-Within, when-Within, if-Within, bind-ends}
use village_net.Tuning.{TuningConf, TunedLink, TuningHost}
use village_net.Tuning.Paths.{sysctl_file, backup_file}
use village_net.Tuning.Backup.{
  wants_mac, wants_mtu, config_of_link, set_parsed_mac, change_mac_addr, change_promisc, change_mtu,
  create_backup,
}
use village_net.Tuning.Commands.{
  tunes_link, entries, write_entry, send_arp, change_mac, tune_link, tune,
}
use village_net.Tuning.Laws.{View, put_mac, put_promisc, put_mtu, Same, Sets, TuningLaws}

none_wanted : (a b c : Bool) → a || (b || c) ≡ false → (a ≡ false) × (b ≡ false) × (c ≡ false)
none_wanted false false false e = (refl, refl, refl)
none_wanted false false true e = absurd (ground (arith, e))
none_wanted false true c e = absurd (ground (arith, e))
none_wanted true b c e = absurd (ground (arith, e))

-- A link as it was, without a backup.
abbrev pub IsUnsaved : TunedLink → View → Type 0
IsUnsaved o v = (v.link ≡ o) × (v.backup ≡ none)

-- A link of which only what is in the backup may have changed.
pub record IsSaved (conf : TuningConf) (o : TunedLink) (v : View) : Type 0 where
  pub has : v.backup ≡ some (config_of_link conf o)
  pub mac_kept : wants_mac conf ≡ false → v.link.mac ≡ o.mac
  pub promisc_kept : conf.promisc ≡ false → v.link.promisc ≡ o.promisc
  pub mtu_kept : wants_mtu conf ≡ false → v.link.mtu ≡ o.mtu

module _ {S : Type 0} (view : S → View) (h : TuningHost S) (if_name container_id : Text)
    (conf : TuningConf)
    (laws : TuningLaws view h if_name (backup_file conf.data_dir container_id if_name))
    (o : TunedLink) where
  -- A backup that has been made stays, and the link stays within it.
  abbrev Safe : S → S → Type 0
  Safe s s' = IsSaved conf o (view s) → IsSaved conf o (view s')

  Safe-refl : (s : S) → Safe s s
  Safe-refl s w = w

  Safe-trans : (s s1 s2 : S) → Safe s s1 → Safe s1 s2 → Safe s s2
  Safe-trans s s1 s2 v w x = w (v x)

  Same-Safe : {A : Type 0} → (m : Eff S A) → Within (Same view) m → Within Safe m
  Same-Safe m w s saved = subst (IsSaved conf o) (sym (w s)) saved

  Sets-Safe :
      (m : Eff S (Unit {0})) (f : View → View)
      → Sets view m f
      → ((v : View) → IsSaved conf o v → IsSaved conf o (f v))
      → Within Safe m
  Sets-Safe m f sets keeps s saved = elim (sets s) [
    | inl (q, v) ↦ subst (IsSaved conf o) (sym v) (keeps (view s) saved)
    | inr (e, q, v) ↦ subst (IsSaved conf o) (sym v) saved
  ]

  read-Safe : Within Safe (failing_as failed (h.link_by_name if_name))
  read-Safe s saved =
      subst (λ x. IsSaved conf o (view x)) (sym (ap (λ r. r.1) (laws.link_read s))) saved

  set_parsed_mac-Safe :
      wants_mac conf ≡ true → (a : Option HardwareAddr) → Within Safe (set_parsed_mac h if_name a)
  set_parsed_mac-Safe wants none = Safe-refl
  set_parsed_mac-Safe wants (some hw) =
      bind-Within Safe Safe-refl Safe-trans (failing_as failed (h.link_by_name if_name))
        (λ l. h.set_hardware_addr if_name hw) read-Safe
        (λ l. Sets-Safe (h.set_hardware_addr if_name hw) (put_mac hw) (laws.mac_set hw) (λ v w.
          record {
            has = w.has;
            mac_kept = λ n. absurd (ground (arith, wants, n));
            promisc_kept = w.promisc_kept;
            mtu_kept = w.mtu_kept;
          }))

  pub send_arp-Same : (ip : IpConfig) → Within (Same view) (send_arp h if_name ip)
  send_arp-Same ip =
      when-Within (Same view) (λ s. refl) (λ s s1 s2 a b. b ∙ a) _
        (ignore (h.gratuitous_arp ip.address.ip if_name))
        (λ e. laws.gratuitous_arp_same ip.address.ip if_name)

  change_mac-Safe :
      (r : CniResult) → wants_mac conf ≡ true → Within Safe (change_mac h if_name conf r)
  unfolding change_mac_addr
  change_mac-Safe r wants =
      bind-Within Safe Safe-refl Safe-trans (change_mac_addr h if_name conf.mac)
        (λ u. for_each r.ips (send_arp h if_name)) (set_parsed_mac-Safe wants (parse_mac conf.mac))
        (λ u. Same-Safe (for_each r.ips (send_arp h if_name)) (
          for_each-Within (Same view) (λ s. refl) (λ s s1 s2 a b. b ∙ a) r.ips (send_arp h if_name)
            send_arp-Same))

  change_promisc-Safe : conf.promisc ≡ true → Within Safe (change_promisc h if_name true)
  unfolding change_promisc
  change_promisc-Safe wants =
      bind-Within Safe Safe-refl Safe-trans (failing_as failed (h.link_by_name if_name))
        (λ l. h.set_promisc if_name true) read-Safe
        (λ l.
          Sets-Safe (h.set_promisc if_name true) (put_promisc true) (laws.promisc_set true) (λ v w.
            record {
              has = w.has;
              mac_kept = w.mac_kept;
              promisc_kept = λ n. absurd (ground (arith, wants, n));
              mtu_kept = w.mtu_kept;
            }))

  change_mtu-Safe : wants_mtu conf ≡ true → Within Safe (change_mtu h if_name conf.mtu)
  unfolding change_mtu
  change_mtu-Safe wants =
      bind-Within Safe Safe-refl Safe-trans (failing_as failed (h.link_by_name if_name))
        (λ l. h.set_mtu if_name conf.mtu) read-Safe
        (λ l.
          Sets-Safe (h.set_mtu if_name conf.mtu) (put_mtu conf.mtu) (laws.mtu_set conf.mtu) (λ v w.
            record {
              has = w.has;
              mac_kept = w.mac_kept;
              promisc_kept = w.promisc_kept;
              mtu_kept = λ n. absurd (ground (arith, wants, n));
            }))

  abbrev changes : CniResult → Eff S (Unit {0})
  changes r =
      when (wants_mac conf) (change_mac h if_name conf r)
      >> (when conf.promisc (change_promisc h if_name true)
          >> when (wants_mtu conf) (change_mtu h if_name conf.mtu))

  changes-Safe : (r : CniResult) → Within Safe (changes r)
  changes-Safe r =
      bind-Within Safe Safe-refl Safe-trans (when (wants_mac conf) (change_mac h if_name conf r)) _
        (when-Within Safe Safe-refl Safe-trans (wants_mac conf) _ (change_mac-Safe r))
        (λ u.
          bind-Within Safe Safe-refl Safe-trans (when conf.promisc (change_promisc h if_name true))
            _ (when-Within Safe Safe-refl Safe-trans conf.promisc _ change_promisc-Safe)
            (λ u. when-Within Safe Safe-refl Safe-trans (wants_mtu conf) _ change_mtu-Safe))

  -- The ends of createBackup.
  abbrev Saves : Result Error (Unit {0}) → S → Type 0
  Saves (ok u) s = IsSaved conf o (view s)
  Saves (err e) s = IsUnsaved o (view s)

  Saves-renamed :
      (x : Error) (r : Result Error (Unit {0})) (s : S) → Saves r s → Saves (rename_error x r) s
  Saves-renamed x (ok u) s w = w
  Saves-renamed x (err panic) s w = w
  Saves-renamed x (err _) s w = w

  abbrev save : Eff S (Unit {0})
  save =
      failing_as failed
        (h.write_backup (backup_file conf.data_dir container_id if_name) (config_of_link conf o))

  IsUnsaved-Same : (s s' : S) → Same view s s' → IsUnsaved o (view s) → IsUnsaved o (view s')
  IsUnsaved-Same s s' e w = subst (IsUnsaved o) (sym e) w

  save-Saves : (s : S) → IsUnsaved o (view s) → Saves (save s).0 (save s).1
  save-Saves s (same, no_backup) =
      let write =
        h.write_backup (backup_file conf.data_dir container_id if_name) (config_of_link conf o) in
      Saves-renamed failed (write s).0 (write s).1
        (elim (laws.backup_set (config_of_link conf o) s) [
          | inl (q, v) ↦
              let link : (view (write s).1).link ≡ o = ap (λ x. x.link) v ∙ same in
              subst (λ x. Saves x (write s).1) (sym q)
                (record {
                  has = ap (λ x. x.backup) v;
                  mac_kept = λ n. ap (λ l. l.mac) link;
                  promisc_kept = λ n. ap (λ l. l.promisc) link;
                  mtu_kept = λ n. ap (λ l. l.mtu) link;
                })
          | inr (e, q, v) ↦
              subst (λ x. Saves x (write s).1) (sym q)
                (IsUnsaved-Same s (write s).1 v (same, no_backup))
        ])

  -- What may be left behind the command.
  abbrev Ends : S → Type 0
  Ends s = IsUnsaved o (view s) ⊎ IsSaved conf o (view s)

  write_entry-Same : (kv : Text × Text) → Within (Same view) (write_entry h kv)
  unfolding write_entry
  write_entry-Same (key, value) =
      if-Within (Same view) (λ s. refl) (λ s s1 s2 a b. b ∙ a) _
        (h.write_sysctl (sysctl_file key) value) (raise failed)
        (laws.write_sysctl_same (sysctl_file key) value) (λ s. refl)

  create_backup-Saves :
      (s : S)
      → IsUnsaved o (view s)
      → Saves
          (create_backup h if_name container_id conf.data_dir conf s).0
          (create_backup h if_name container_id conf.data_dir conf s).1
  unfolding create_backup
  create_backup-Saves s w =
      let make_dir =
        λ (missing : Bool). when missing (failing_as failed (h.mkdir_all conf.data_dir)) in
      let write = λ (l : TunedLink).
        failing_as failed (
          h.write_backup (backup_file conf.data_dir container_id if_name)
            (config_of_link conf l)) in
      let rest =
        λ (l : TunedLink). h.is_missing conf.data_dir >>= λ missing. make_dir missing >> write l in
      let s1 = (h.is_missing conf.data_dir s).1 in
      let w1 = IsUnsaved-Same s s1 (laws.is_missing_same conf.data_dir s) w in
      let made : (missing : Bool) → IsUnsaved o (view (make_dir missing s1).1) = λ missing.
        IsUnsaved-Same s1 (make_dir missing s1).1
          (when-Within (Same view) (λ s. refl) (λ s s1 s2 a b. b ∙ a) missing _
            (λ e. laws.mkdir_all_same conf.data_dir) s1)
          w1 in
      let at_o : Saves (rest o s).0 (rest o s).1 =
        bind-ends Saves (λ missing. make_dir missing >> write o) (h.is_missing conf.data_dir) s
          (λ e q. w1)
          (λ missing q.
            bind-ends Saves (λ u. write o) (make_dir missing) s1 (λ e q. made missing)
              (λ u q. save-Saves (make_dir missing s1).1 (made missing))) in
      rw (laws.link_read s) (subst (λ l. Saves (rest l s).0 (rest l s).1) (sym w.0) at_o)

  tune_link-Safe :
      (r : CniResult) (s : S)
      → IsUnsaved o (view s)
      → Ends (tune_link h container_id if_name conf r s).1
  unfolding tune_link
  tune_link-Safe r s w = elim (Bool-cases (tunes_link conf)) [
    | inl t ↦
        let create = create_backup h if_name container_id conf.data_dir conf in
        let saves = create_backup-Saves s w in
        rw t (
          bind-ends (λ x s. Ends s) (λ u. changes r) create s
            (λ e q. inl (subst (λ x. Saves x (create s).1) q saves))
            (λ u q. inr (changes-Safe r (create s).1 (subst (λ x. Saves x (create s).1) q saves))))
    | inr f ↦
        let (no_mac, no_mtu, no_promisc) =
          none_wanted (wants_mac conf) (wants_mtu conf) conf.promisc f in
        rw (no_mac, no_mtu, no_promisc) (inl w)
  ]

  pub tune-Ends :
      (r : CniResult) (s : S) → IsUnsaved o (view s) → Ends (tune h container_id if_name conf r s).1
  unfolding tune
  tune-Ends r s w =
      let loop = for_each (entries conf.sys_ctl) (write_entry h) in
      let kept =
        IsUnsaved-Same s (loop s).1
          (for_each-Within (Same view) (λ s. refl) (λ s s1 s2 a b. b ∙ a) (entries conf.sys_ctl)
            (write_entry h) write_entry-Same s)
          w in
      bind-ends (λ x s. Ends s) (λ u. tune_link h container_id if_name conf r) loop s
        (λ e q. inl kept) (λ u q. tune_link-Safe r (loop s).1 kept)
