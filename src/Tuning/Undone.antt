-- ===== src/Tuning/Undone.antt =====
-- That restoreBackup of plugins/meta/tuning/tuning.go undoes what cmdAdd has done to the link, however
-- cmdAdd has ended.
use village_net.Common.{
  ℕ, ◌≡◌, refl, inl, inr, ap, ◌∙◌, sym, subst, false, not, ◌==◌, [], ◌∷◌, none, ok, arith,
  Bool-cases, text_eq,
}
use village_net.HostLocal.Store.{Text}
use village_net.Cni.{CniResult}
use village_net.Tuning.{TuningConf, TunedLink, TuningHost}
use village_net.Tuning.Paths.{backup_file}
use village_net.Tuning.Backup.{wants_mac, wants_mtu, config_of_link, restore_backup}
use village_net.Tuning.Commands.{tune}
use village_net.Tuning.Laws.{View, TuningLaws, with_promisc}
use village_net.Tuning.RestoreLaws.{IsMac, restored, restore_backup-none, restore_backup-some}
use village_net.Tuning.TuneLaws.{IsSaved, tune-Ends}

-- A link that is as another was; what counts of the promiscuous users is whether there is one.
pub record IsLike (o l : TunedLink) : Type 0 where
  pub mac : l.mac ≡ o.mac
  pub promisc : (l.promisc == 0) ≡ (o.promisc == 0)
  pub mtu : l.mtu ≡ o.mtu

IsMac-nonempty : (t : Text) → IsMac t → text_eq t [] ≡ false
unfolding text_eq
IsMac-nonempty t ([], written, bytes, size) = absurd (ground (arith, size))
IsMac-nonempty t (b ∷ [], written, bytes, size) = rw written refl
IsMac-nonempty t (b ∷ c ∷ bs, written, bytes, size) = rw written refl

saved-IsMac :
    (conf : TuningConf) (o : TunedLink)
    → IsMac o.mac
    → text_eq (config_of_link conf o).mac [] ≡ false
    → IsMac (config_of_link conf o).mac
unfolding text_eq
saved-IsMac conf o is_mac e = elim (Bool-cases (wants_mac conf)) [
  | inl t ↦ rw t is_mac
  | inr f ↦ absurd (ground (arith, f, e))
]

with_promisc-back : (m n : ℕ) → (with_promisc (not (m == 0)) n == 0) ≡ (m == 0)
with_promisc-back m n = ground arith

restored-mac :
    (conf : TuningConf) (o l : TunedLink)
    → text_eq o.mac [] ≡ false
    → (wants_mac conf ≡ false → l.mac ≡ o.mac)
    → (restored (config_of_link conf o) l).mac ≡ o.mac
unfolding text_eq
restored-mac conf o l some_mac kept = elim (Bool-cases (wants_mac conf)) [
  | inl t ↦ rw (t, some_mac) refl
  | inr f ↦ rw f (kept f)
]

restored-IsLike :
    (conf : TuningConf) (o : TunedLink) (v : View)
    → text_eq o.mac [] ≡ false
    → (o.mtu == 0) ≡ false
    → IsSaved conf o v
    → IsLike o (restored (config_of_link conf o) v.link)
restored-IsLike conf o v some_mac has_mtu w = record {
  mac = restored-mac conf o v.link some_mac w.mac_kept;
  promisc = elim (Bool-cases conf.promisc) [
    | inl t ↦ rw t (with_promisc-back o.promisc v.link.promisc)
    | inr f ↦ rw f (ap (λ n. n == 0) (w.promisc_kept f))
  ];
  mtu = elim (Bool-cases (wants_mtu conf)) [
    | inl t ↦ rw (t, has_mtu) refl
    | inr f ↦ rw f (w.mtu_kept f)
  ];
}

module _ {S : Type 0} (view : S → View) (h : TuningHost S) (if_name container_id : Text)
    (conf : TuningConf)
    (laws : TuningLaws view h if_name (backup_file conf.data_dir container_id if_name)) where
  -- On a host whose operations set the attribute or the backup that they name, or fail and leave
  -- both, and whose reads answer what is there: where the link had a hardware address of a size
  -- and bytes that ParseMAC reads, an MTU other than 0 and no backup, then however the function
  -- that cmdAdd runs in the namespace has ended, restoreBackup, where it succeeds behind it,
  -- gives the link its address and MTU again, has it promiscuous just where it was, and leaves no
  -- backup.
  pub restore_backup-tune :
      (r : CniResult) (s s' : S)
      → (view s).backup ≡ none
      → IsMac (view s).link.mac
      → ((view s).link.mtu == 0) ≡ false
      → restore_backup h if_name container_id conf.data_dir (tune h container_id if_name conf r s).1
        ≡ (ok tt, s')
      → IsLike (view s).link (view s').link × ((view s').backup ≡ none)
  restore_backup-tune r s s' fresh is_mac has_mtu e =
      let o = (view s).link in
      let s1 = (tune h container_id if_name conf r s).1 in
      let path = backup_file conf.data_dir container_id if_name in
      elim (tune-Ends view h if_name container_id conf laws o r s (refl, fresh)) [
        | inl (same, none_yet) ↦
            let unmoved =
              restore_backup-none view h if_name path laws container_id conf.data_dir refl s1
                none_yet in
            let kept : view s' ≡ view s1 = ap (λ p. view p.1) (sym e ∙ unmoved) in
            let link = ap (λ v. v.link) kept ∙ same in
            (
              record {
                mac = ap (λ l. l.mac) link;
                promisc = ap (λ l. l.promisc == 0) link;
                mtu = ap (λ l. l.mtu) link;
              },
              ap (λ v. v.backup) kept ∙ none_yet,
            )
        | inr w ↦
            let back =
              restore_backup-some view h if_name path laws container_id conf.data_dir refl
                (config_of_link conf o) s1 s' w.has (saved-IsMac conf o is_mac) e in
            (
              subst (λ v. IsLike o v.link) (sym back)
                  (restored-IsLike conf o (view s1) (IsMac-nonempty o.mac is_mac) has_mtu w),
              ap (λ v. v.backup) back,
            )
      ]
