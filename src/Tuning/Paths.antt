-- ===== src/Tuning/Paths.antt =====
-- Paths of files: path.Clean and path.Join of Go's library, and the names that tuning.go makes with them.
use village_net.Common.{
  ℕ, Bool, true, false, ◌==◌, if◌then◌else◌, List, [], ◌∷◌, ◌++◌, text_eq, codes, map,
}
use village_net.HostLocal.Store.{Text}
use village_net.Portmap.Texts.{join}

abbrev onto_first : ℕ → List Text → List Text
onto_first c [] = (c ∷ []) ∷ []
onto_first c (t ∷ ts) = (c ∷ t) ∷ ts

abbrev pub split_slash : Text → List Text
split_slash [] = [] ∷ []
split_slash (c ∷ cs) = let rest = split_slash cs in if c == 47 then [] ∷ rest else onto_first c rest

abbrev pub up : Text
up = 46 ∷ 46 ∷ []

-- The elements that are kept, the last one first.
abbrev step_up : Bool → List Text → List Text
step_up true [] = []
step_up false [] = up ∷ []
step_up rooted (t ∷ ts) = if text_eq t up then up ∷ t ∷ ts else ts

abbrev pub clean_onto : Bool → List Text → List Text → List Text
clean_onto rooted kept [] = kept
clean_onto rooted kept (t ∷ ts) =
    let next =
      if text_eq t []
      then kept
      else if text_eq t (46 ∷ [])
      then kept
      else if text_eq t up
      then step_up rooted kept
      else t ∷ kept in
    clean_onto rooted next ts

abbrev reverse_onto : List Text → List Text → List Text
reverse_onto acc [] = acc
reverse_onto acc (t ∷ ts) = reverse_onto (t ∷ acc) ts

abbrev is_rooted : Text → Bool
is_rooted [] = false
is_rooted (c ∷ cs) = c == 47

abbrev or_dot : List Text → Text
or_dot [] = 46 ∷ []
or_dot ts = join (codes "/") ts

-- path.Clean
unfoldable pub clean : Text → Text
clean p =
    let parts = reverse_onto [] (clean_onto (is_rooted p) [] (split_slash p)) in
    if is_rooted p then 47 ∷ join (codes "/") parts else or_dot parts

-- path.Join of two elements, those that are empty left out.
unfoldable pub path_join : Text → Text → Text
unfolding clean
path_join [] [] = []
path_join [] b = clean b
path_join a [] = clean a
path_join a b = clean (a ++ 47 ∷ b)

abbrev pub has_prefix : Text → Text → Bool
has_prefix t [] = true
has_prefix [] (c ∷ cs) = false
has_prefix (d ∷ ds) (c ∷ cs) = if d == c then has_prefix ds cs else false

-- The file of a key of `sysctl`.
unfoldable pub sysctl_file : Text → Text
unfolding path_join
sysctl_file key = clean (path_join (codes "/proc/sys") (map (λ c. if c == 46 then 47 else c) key))

-- The file of the backup of an interface.
unfoldable pub backup_file : Text → Text → Text → Text
unfolding path_join
backup_file backup_path container_id if_name =
    path_join backup_path (container_id ++ 95 ∷ if_name ++ codes ".json")
