-- ===== src/Macvlan/Modes.antt =====
-- pkg/macvlan/macvlan.go: the modes and their names.
use village_net.Common.{
  ◌≡◌, ◌⊎◌, refl, Bool, true, false, [], if◌then◌else◌, text_eq, text_eq_iff, codes, arith, Result,
  ok, err,
}
use village_net.HostLocal.Store.{Text}
use village_net.Cni.{MacvlanMode, bridge, private, vepa, passthru}
use village_net.Cni.Effects.{Error, unknown_mode}

unfoldable pub mode_from_string : Text → Result Error MacvlanMode
mode_from_string s =
    if text_eq s []
    then ok bridge
    else if text_eq s (codes "bridge")
    then ok bridge
    else if text_eq s (codes "private")
    then ok private
    else if text_eq s (codes "vepa")
    then ok vepa
    else if text_eq s (codes "passthru")
    then ok passthru
    else err unknown_mode

unfoldable pub mode_to_string : MacvlanMode → Text
mode_to_string bridge = codes "bridge"
mode_to_string private = codes "private"
mode_to_string vepa = codes "vepa"
mode_to_string passthru = codes "passthru"

abbrev pub eq_mode : MacvlanMode → MacvlanMode → Bool
eq_mode bridge bridge = true
eq_mode private private = true
eq_mode vepa vepa = true
eq_mode passthru passthru = true
eq_mode _ _ = false

read_name :
    (m : MacvlanMode) (s : Text) → mode_from_string s ≡ ok m → (s ≡ []) ⊎ (s ≡ mode_to_string m)
unfolding mode_from_string mode_to_string
read_name bridge s e = ground (arith, e, text_eq_iff s [], text_eq_iff s (codes "bridge"))
read_name private s e = ground (arith, e, text_eq_iff s (codes "private"))
read_name vepa s e = ground (arith, e, text_eq_iff s (codes "vepa"))
read_name passthru s e = ground (arith, e, text_eq_iff s (codes "passthru"))

-- The name of each macvlan mode is read as that mode, and a text that is read as a mode is the
-- mode's name or empty.
pub mode_from_string-mode_to_string :
    (m : MacvlanMode) (s : Text)
    → (mode_from_string (mode_to_string m) ≡ ok m)
      × (mode_from_string s ≡ ok m → (s ≡ []) ⊎ (s ≡ mode_to_string m))
unfolding mode_from_string mode_to_string text_eq
mode_from_string-mode_to_string bridge s = (refl, read_name bridge s)
mode_from_string-mode_to_string private s = (refl, read_name private s)
mode_from_string-mode_to_string vepa s = (refl, read_name vepa s)
mode_from_string-mode_to_string passthru s = (refl, read_name passthru s)
