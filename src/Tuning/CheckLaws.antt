-- ===== src/Tuning/CheckLaws.antt =====
-- That cmdCheck of plugins/meta/tuning/tuning.go accepts the link that cmdAdd has tuned.
use village_net.Common.{
  ◌≡◌, refl, ◌⊎◌, inl, inr, ap, ◌∙◌, sym, Bool, true, false, not, ◌&&◌, ◌==◌, some, ok, arith,
  text_eq, text_eq_refl,
}
use village_net.Net.HardwareAddr.{parse_mac}
use village_net.Net.HardwareAddr.RoundTrip.{parse_mac-mac_string}
use village_net.HostLocal.Store.{Text}
use village_net.Cni.{CniResult}
use village_net.Cni.Effects.{Eff, succeeds, failing_as, failed, for_each, when, ◌>>◌}
use village_net.Cni.Within.{Within, bind-Within, for_each-Within, when-Within}
use village_net.Tuning.{TuningConf, TunedLink, TuningHost}
use village_net.Tuning.Paths.{backup_file}
use village_net.Tuning.Backup.{
  wants_mac, wants_mtu, config_of_link, change_mac_addr, change_promisc, change_mtu, create_backup,
}
use village_net.Tuning.Commands.{tunes_link, send_arp, change_mac, tune_link, check_link, same_bool}
use village_net.Tuning.Laws.{View, put_mac, put_promisc, put_mtu, Same, TuningLaws, Sets-ok}
use village_net.Tuning.RestoreLaws.{
  IsMac, change_mac_addr-sets, change_promisc-sets, change_mtu-sets,
}
use village_net.Tuning.TuneLaws.{send_arp-Same}

module _ {S : Type 0} where
  when-ok :
      (b : Bool) (m : Eff S (Unit {0})) (s s' : S)
      → when b m s ≡ (ok tt, s')
      → ((b ≡ true) × (m s ≡ (ok tt, s'))) ⊎ ((b ≡ false) × (s ≡ s'))
  when-ok true m s s' e = inl (refl, e)
  when-ok false m s s' e = inr (refl, ap (λ p. p.1) e)

asked : (b c : Bool) → (b ≡ true → c ≡ true) → b && not c ≡ false
asked true true f = refl
asked true false f = absurd (ground (arith, f refl))
asked false c f = refl

same_bool-not : (b : Bool) → not (same_bool b (not (not b))) ≡ false
same_bool-not true = refl
same_bool-not false = refl

-- What a configuration asks of a link.
pub record Tuned (conf : TuningConf) (l : TunedLink) : Type 0 where
  pub mac : wants_mac conf ≡ true → l.mac ≡ conf.mac
  pub promisc : (l.promisc == 0) ≡ not conf.promisc
  pub mtu : wants_mtu conf ≡ true → l.mtu ≡ conf.mtu

module _ {S : Type 0} (view : S → View) (h : TuningHost S) (if_name container_id : Text)
    (conf : TuningConf)
    (laws : TuningLaws view h if_name (backup_file conf.data_dir container_id if_name)) where
  abbrev SameLink : S → S → Type 0
  SameLink s s' = (view s').link ≡ (view s).link

  create_backup-SameLink : Within SameLink (create_backup h if_name container_id conf.data_dir conf)
  unfolding create_backup
  create_backup-SameLink =
      let refl_link : (s : S) → SameLink s s = λ s. refl in
      let trans_link : (s s1 s2 : S) → SameLink s s1 → SameLink s1 s2 → SameLink s s2 =
        λ s s1 s2 a b. b ∙ a in
      bind-Within SameLink refl_link trans_link (failing_as failed (h.link_by_name if_name)) _
        (λ s. ap (λ r. (view r.1).link) (laws.link_read s))
        (λ l.
          bind-Within SameLink refl_link trans_link (h.is_missing conf.data_dir) _
            (λ s. ap (λ v. v.link) (laws.is_missing_same conf.data_dir s))
            (λ missing.
              bind-Within SameLink refl_link trans_link
                (when missing (failing_as failed (h.mkdir_all conf.data_dir))) _
                (when-Within SameLink refl_link trans_link missing _
                  (λ e s. ap (λ v. v.link) (laws.mkdir_all_same conf.data_dir s)))
                (λ u s. elim (laws.backup_set (config_of_link conf l) s) [
                  | inl (q, v) ↦ ap (λ v. v.link) v
                  | inr (e, q, v) ↦ ap (λ v. v.link) v
                ])))

  change_mac-ok :
      (r : CniResult) (s s' : S)
      → IsMac conf.mac
      → change_mac h if_name conf r s ≡ (ok tt, s')
      → view s' ≡ record (view s) { link = record (view s).link { mac = conf.mac } }
  change_mac-ok r s s' (hw, written, bytes, size) e =
      let (u, s1, q, q') =
        succeeds (change_mac_addr h if_name conf.mac) (λ u. for_each r.ips (send_arp h if_name)) s
          s' tt e in
      let parsed : parse_mac conf.mac ≡ some hw =
        ap parse_mac written ∙ parse_mac-mac_string hw bytes size in
      let set =
        Sets-ok view (h.set_hardware_addr if_name hw) (put_mac hw) (laws.mac_set hw) s s1
          (sym (change_mac_addr-sets view h if_name _ laws conf.mac hw s parsed) ∙ q) in
      let told =
        for_each-Within (Same view) (λ s. refl) (λ s s1 s2 a b. b ∙ a) r.ips (send_arp h if_name)
          (send_arp-Same view h if_name container_id conf laws (view s).link) s1 in
      ap (λ p. view p.1) (sym q')
      ∙ told
      ∙ set
      ∙ ap (λ t. record (view s) { link = record (view s).link { mac = t } }) (sym written)

  mac_step :
      (r : CniResult) (s s' : S)
      → (wants_mac conf ≡ true → IsMac conf.mac)
      → when (wants_mac conf) (change_mac h if_name conf r) s ≡ (ok tt, s')
      → (wants_mac conf ≡ true → (view s').link.mac ≡ conf.mac)
        × ((view s').link.promisc ≡ (view s).link.promisc)
  mac_step r s s' is_mac e = elim (when-ok (wants_mac conf) (change_mac h if_name conf r) s s' e) [
    | inl (t, q) ↦
        let v = change_mac-ok r s s' (is_mac t) q in
        (λ w. ap (λ v. v.link.mac) v, ap (λ v. v.link.promisc) v)
    | inr (f, same) ↦
        (λ w. absurd (ground (arith, w, f)), ap (λ s. (view s).link.promisc) (sym same))
  ]

  promisc_step :
      (s s' : S)
      → (conf.promisc ≡ false → (view s).link.promisc ≡ 0)
      → when conf.promisc (change_promisc h if_name true) s ≡ (ok tt, s')
      → (((view s').link.promisc == 0) ≡ not conf.promisc)
        × ((view s').link.mac ≡ (view s).link.mac)
  promisc_step s s' quiet e = elim (when-ok conf.promisc (change_promisc h if_name true) s s' e) [
    | inl (t, q) ↦
        let v =
          Sets-ok view (h.set_promisc if_name true) (put_promisc true) (laws.promisc_set true) s s'
            (sym (change_promisc-sets view h if_name _ laws true s) ∙ q) in
        (ap (λ v. v.link.promisc == 0) v ∙ ground (arith, t), ap (λ v. v.link.mac) v)
    | inr (f, same) ↦
        let kept = ap (λ s. (view s).link.promisc) (sym same) ∙ quiet f in
        (ground (arith, kept, f), ap (λ s. (view s).link.mac) (sym same))
  ]

  mtu_step :
      (s s' : S)
      → when (wants_mtu conf) (change_mtu h if_name conf.mtu) s ≡ (ok tt, s')
      → (wants_mtu conf ≡ true → (view s').link.mtu ≡ conf.mtu)
        × ((view s').link.mac ≡ (view s).link.mac)
        × ((view s').link.promisc ≡ (view s).link.promisc)
  mtu_step s s' e = elim (when-ok (wants_mtu conf) (change_mtu h if_name conf.mtu) s s' e) [
    | inl (t, q) ↦
        let v =
          Sets-ok view (h.set_mtu if_name conf.mtu) (put_mtu conf.mtu) (laws.mtu_set conf.mtu) s s'
            (sym (change_mtu-sets view h if_name _ laws conf.mtu s) ∙ q) in
        (λ w. ap (λ v. v.link.mtu) v, ap (λ v. v.link.mac) v, ap (λ v. v.link.promisc) v)
    | inr (f, same) ↦ (
      λ w. absurd (ground (arith, w, f)),
      ap (λ s. (view s).link.mac) (sym same),
      ap (λ s. (view s).link.promisc) (sym same),
    )
  ]

  check_link-Tuned : (l : TunedLink) (s : S) → Tuned conf l → check_link conf l s ≡ (ok tt, s)
  unfolding check_link
  check_link-Tuned l s w =
      let mac : wants_mac conf && not (text_eq conf.mac l.mac) ≡ false =
        asked (wants_mac conf) (text_eq conf.mac l.mac)
          (λ t. ap (text_eq conf.mac) (w.mac t) ∙ text_eq_refl conf.mac) in
      let promisc : not (same_bool conf.promisc (not (l.promisc == 0))) ≡ false =
        ap (λ b. not (same_bool conf.promisc (not b))) w.promisc ∙ same_bool-not conf.promisc in
      let mtu : wants_mtu conf && not (conf.mtu == l.mtu) ≡ false =
        asked (wants_mtu conf) (conf.mtu == l.mtu) (λ t. let m = w.mtu t in ground (arith, m)) in
      rw (mac, promisc, mtu) refl

  -- On such a host, with a configured address, if there is one, that is written as
  -- HardwareAddr.String writes it, and a link that is not promiscuous already where that is not
  -- configured: where the link has been tuned without an error, what cmdCheck asks of it is what
  -- it is.
  pub check_link-tune_link :
      (r : CniResult) (s s' : S)
      → (wants_mac conf ≡ true → IsMac conf.mac)
      → (conf.promisc ≡ false → (view s).link.promisc ≡ 0)
      → tune_link h container_id if_name conf r s ≡ (ok tt, s')
      → check_link conf (view s').link s' ≡ (ok tt, s')
  unfolding tune_link
  check_link-tune_link r s s' is_mac quiet e =
      let create =
        when (tunes_link conf) (create_backup h if_name container_id conf.data_dir conf) in
      let mac = when (wants_mac conf) (change_mac h if_name conf r) in
      let promisc = when conf.promisc (change_promisc h if_name true) in
      let mtu = when (wants_mtu conf) (change_mtu h if_name conf.mtu) in
      let (u, s1, q1, e1) = succeeds create (λ u. mac >> (promisc >> mtu)) s s' tt e in
      let (u, s2, q2, e2) = succeeds mac (λ u. promisc >> mtu) s1 s' tt e1 in
      let (u, s3, q3, e3) = succeeds promisc (λ u. mtu) s2 s' tt e2 in
      let kept : (view s1).link ≡ (view s).link =
        ap (λ p. (view p.1).link) (sym q1)
        ∙ when-Within SameLink (λ s. refl) (λ s s1 s2 a b. b ∙ a) (tunes_link conf) _
            (λ t. create_backup-SameLink) s in
      let (mac2, promisc2) = mac_step r s1 s2 is_mac q2 in
      let (promisc3, mac3) =
        promisc_step s2 s3 (λ f. promisc2 ∙ ap (λ l. l.promisc) kept ∙ quiet f) q3 in
      let (mtu4, mac4, promisc4) = mtu_step s3 s' e3 in
      check_link-Tuned (view s').link s' (record {
        mac = λ t. mac4 ∙ mac3 ∙ mac2 t;
        promisc = ap (λ n. n == 0) promisc4 ∙ promisc3;
        mtu = mtu4;
      })
