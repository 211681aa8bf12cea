-- ===== src/Tuning/Laws.antt =====
-- What the host promises, for the interface and the backup of one container: what it shows of them is
-- a view, and an operation sets a part of it or fails and leaves it.
use village_net.Common.{
  ℕ, ◌≡◌, refl, ◌⊎◌, inl, inr, ap, ◌∙◌, sym, Bool, true, false, ◌==◌, ◌&&◌, if◌then◌else◌, Option,
  none, some, Result, ok, err, arith,
}
use village_net.Net.{Ip}
use village_net.Net.HardwareAddr.{HardwareAddr, mac_string}
use village_net.HostLocal.Store.{Text}
use village_net.Cni.Effects.{
  Error, Eff, panic, attempt, as_value, bind_result, rename_error-ok, succeeds, pure, failing_as,
  ◌>>=◌,
}
use village_net.Cni.Within.{Within}
use village_net.Tuning.{ConfigToRestore, TunedLink, TuningHost}
use village_net.Tuning.Backup.{is_ok}

-- The link and its backup.
pub record View : Type 0 where
  pub link : TunedLink
  pub backup : Option ConfigToRestore

abbrev pub is_none : Option ConfigToRestore → Bool
is_none none = true
is_none (some c) = false

abbrev pub with_promisc : Bool → ℕ → ℕ
with_promisc true n = if n == 0 then 1 else n
with_promisc false n = 0

abbrev pub put_mac : HardwareAddr → View → View
put_mac hw v = record v { link = record v.link { mac = mac_string hw } }

abbrev pub put_promisc : Bool → View → View
put_promisc b v = record v { link = record v.link { promisc = with_promisc b v.link.promisc } }

abbrev pub put_mtu : ℕ → View → View
put_mtu n v = record v { link = record v.link { mtu = n } }

module _ {S : Type 0} (view : S → View) where
  abbrev pub Same : S → S → Type 0
  Same s s' = view s' ≡ view s

  abbrev pub Sets : Eff S (Unit {0}) → (View → View) → Type 0
  Sets m f =
      (s : S)
      → (((m s).0 ≡ ok tt) × (view (m s).1 ≡ f (view s)))
        ⊎ ((e : Error) × ((m s).0 ≡ err e) × (view (m s).1 ≡ view s))

  pub record TuningLaws (h : TuningHost S) (if_name path : Text) : Type 0 where
    pub link_read : (s : S) → h.link_by_name if_name s ≡ (ok (view s).link, s)
    pub mac_set : (hw : HardwareAddr) → Sets (h.set_hardware_addr if_name hw) (put_mac hw)
    pub promisc_set : (b : Bool) → Sets (h.set_promisc if_name b) (put_promisc b)
    pub mtu_set : (n : ℕ) → Sets (h.set_mtu if_name n) (put_mtu n)
    pub backup_set :
        (c : ConfigToRestore) → Sets (h.write_backup path c) (λ v. record v { backup = some c })
    pub backup_removed : Sets (h.remove_file path) (λ v. record v { backup = none })
    pub missing_read : (s : S) → h.is_missing path s ≡ (ok (is_none (view s).backup), s)
    pub backup_read :
        (s : S) (c : ConfigToRestore)
        → (view s).backup ≡ some c
        → h.read_backup path s ≡ (ok (some c), s)
    pub is_missing_same : (dir : Text) → Within Same (h.is_missing dir)
    pub mkdir_all_same : (dir : Text) → Within Same (h.mkdir_all dir)
    pub write_sysctl_same : (f t : Text) → Within Same (h.write_sysctl f t)
    pub gratuitous_arp_same : (ip : Ip) (n : Text) → Within Same (h.gratuitous_arp ip n)

  pub Sets-ok :
      (m : Eff S (Unit {0})) (f : View → View)
      → Sets m f
      → (s s' : S) → m s ≡ (ok tt, s')
      → view s' ≡ f (view s)
  Sets-ok m f sets s s' e = elim (sets s) [
    | inl (q, v) ↦ ap (λ r. view r.1) (sym e) ∙ v
    | inr (x, q, v) ↦ absurd (ground (arith, q, e))
  ]

all_true : (a b c : Bool) → a && (b && c) ≡ true → (a ≡ true) × (b ≡ true) × (c ≡ true)
all_true true true true e = (refl, refl, refl)
all_true true true false e = absurd (ground (arith, e))
all_true true false c e = absurd (ground (arith, e))
all_true false b c e = absurd (ground (arith, e))

module _ {S : Type 0} where
  tried-result :
      (r : Result Error (Unit {0})) (s s' : S)
      → bind_result (as_value r) (λ r. pure (is_ok r)) s ≡ (ok true, s')
      → ◌≡◌ {A = Result Error (Unit {0}) × S} (r, s) (ok tt, s')
  tried-result (ok u) s s' e = ap (λ x. (ok tt, x.1)) e
  tried-result (err panic) s s' e = absurd (ground (arith, e))
  tried-result (err _) s s' e = absurd (ground (arith, e))

  -- An action that is tried, and whose success is what the trial gives.
  pub tried-true :
      (m : Eff S (Unit {0})) (s s' : S)
      → (attempt m >>= λ r. pure (is_ok r)) s ≡ (ok true, s')
      → m s ≡ (ok tt, s')
  tried-true m s s' e = tried-result (m s).0 (m s).1 s' e

  pub failing_as-ok :
      (m : Eff S (Unit {0})) (x : Error) (s s' : S)
      → failing_as x m s ≡ (ok tt, s')
      → m s ≡ (ok tt, s')
  failing_as-ok m x s s' e =
      ap (λ r. (r, (m s).1)) (rename_error-ok x (m s).0 tt (ap (λ p. p.0) e))
      ∙ ap (λ p. (ok tt, p.1)) e

  -- Three trials in turn, all of them successful.
  pub all_three :
      (m1 m2 m3 : Eff S Bool) (s s' : S)
      → (m1 >>= λ a. m2 >>= λ b. m3 >>= λ c. pure (a && (b && c))) s ≡ (ok true, s')
      → (s1 s2 : S) × (m1 s ≡ (ok true, s1)) × (m2 s1 ≡ (ok true, s2)) × (m3 s2 ≡ (ok true, s'))
  all_three m1 m2 m3 s s' e =
      let (a, s1, q1, r1) =
        succeeds m1 (λ a. m2 >>= λ b. m3 >>= λ c. pure (a && (b && c))) s s' true e in
      let (b, s2, q2, r2) = succeeds m2 (λ b. m3 >>= λ c. pure (a && (b && c))) s1 s' true r1 in
      let (c, s3, q3, r3) = succeeds m3 (λ c. pure (a && (b && c))) s2 s' true r2 in
      let (ta, tb, tc) = all_true a b c (ground (arith, r3)) in
      let same : ◌≡◌ {A = Result Error Bool × S} (ok c, s3) (ok true, s') =
        ap (λ t. (ok t, s3)) tc ∙ ap (λ p. (ok true, p.1)) r3 in
      (s1, s2, rw ta at q1, rw tb at q2, q3 ∙ same)
