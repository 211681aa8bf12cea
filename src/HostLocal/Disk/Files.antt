-- ===== src/HostLocal/Disk/Files.antt =====
-- A directory of files, and `strings.TrimSpace` on the bytes of a text (ASCII white space).
use mathlib.Core.List.{reverse}
use village_net.Common.{
  ℕ, ◌≡◌, refl, Bool, ◌||◌, ◌&&◌, List, [], ◌∷◌, Option, none, some, ◌==◌, leb, arith,
  if◌then◌else◌, text_eq, text_eq_iff,
}
use village_net.HostLocal.Store.{Text}

abbrev pub Dir : Type 0
Dir = List (Text × Text)

unfoldable pub lookup_file : Text → Dir → Option Text
lookup_file name [] = none
lookup_file name ((n, content) ∷ d) = if text_eq n name then some content else lookup_file name d

-- Creates the file, or replaces its contents.
unfoldable pub put_file : Text → Text → Dir → Dir
put_file name content [] = (name, content) ∷ []
put_file name content ((n, old) ∷ d) =
    if text_eq n name then (n, content) ∷ d else (n, old) ∷ put_file name content d

unfoldable pub remove_file : Text → Dir → Dir
remove_file name [] = []
remove_file name ((n, content) ∷ d) =
    let rest = remove_file name d in if text_eq n name then rest else (n, content) ∷ rest

abbrev pub is_space : ℕ → Bool
is_space c = c == b' ' || (leb 9 c && leb c 13)

unfoldable pub trim_left : Text → Text
trim_left [] = []
trim_left (c ∷ s) = let rest = trim_left s in if is_space c then rest else c ∷ s

unfoldable pub trim_space : Text → Text
unfolding trim_left
trim_space s = reverse (trim_left (reverse (trim_left s)))

pub lookup_file-put_file :
    (k j : Text) (v : Text) (d : Dir)
    → lookup_file j (put_file k v d) ≡ (if text_eq k j then some v else lookup_file j d)
unfolding lookup_file put_file
lookup_file-put_file k j v [] = refl
lookup_file-put_file k j v ((i, w) ∷ d) =
    ground (arith, text_eq_iff k j, text_eq_iff i k, text_eq_iff i j, lookup_file-put_file k j v d)

pub lookup_file-remove_file :
    (k j : Text) (d : Dir)
    → lookup_file j (remove_file k d) ≡ (if text_eq k j then none else lookup_file j d)
unfolding lookup_file remove_file
lookup_file-remove_file k j [] = ground arith
lookup_file-remove_file k j ((i, w) ∷ d) =
    ground (arith, text_eq_iff k j, text_eq_iff i k, text_eq_iff i j, lookup_file-remove_file k j d)
