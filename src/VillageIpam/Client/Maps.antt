-- ===== src/VillageIpam/Client/Maps.antt =====
-- The map from addresses to containers that the config map holds; Go's maps have no order.
use village_net.Common.{
  ◌≡◌, refl, Bool, true, false, ◌||◌, List, [], ◌∷◌, Option, none, some, arith, if◌then◌else◌,
  text_eq, text_eq_iff,
}
use village_net.HostLocal.Store.{Text}

abbrev pub Bindings : Type 0
Bindings = List (Text × Text)

unfoldable pub lookup : Text → Bindings → Option Text
lookup k [] = none
lookup k ((j, c) ∷ m) = if text_eq j k then some c else lookup k m

unfoldable pub bind : Text → Text → Bindings → Bindings
bind k c [] = (k, c) ∷ []
bind k c ((j, d) ∷ m) = if text_eq j k then (k, c) ∷ m else (j, d) ∷ bind k c m

-- The loop of DeleteIp: the bindings of other containers.
unfoldable pub remove_container : Text → Bindings → Bindings
remove_container container [] = []
remove_container container ((k, c) ∷ m) =
    let rest = remove_container container m in if text_eq c container then rest else (k, c) ∷ rest

-- The loop of Check.
unfoldable pub has_container : Text → Bindings → Bool
has_container container [] = false
has_container container ((k, c) ∷ m) = text_eq c container || has_container container m

pub lookup-bind :
    (k j c : Text) (m : Bindings)
    → lookup j (bind k c m) ≡ (if text_eq k j then some c else lookup j m)
unfolding lookup bind
lookup-bind k j c [] = refl
lookup-bind k j c ((i, d) ∷ m) =
    ground (arith, text_eq_iff k j, text_eq_iff i j, text_eq_iff i k, lookup-bind k j c m)

pub has_container-bind : (k c : Text) (m : Bindings) → has_container c (bind k c m) ≡ true
unfolding has_container bind
has_container-bind k c [] = ground (arith, text_eq_iff c c)
has_container-bind k c ((i, d) ∷ m) = ground (arith, text_eq_iff c c, has_container-bind k c m)

pub has_container-remove :
    (c : Text) (m : Bindings) → has_container c (remove_container c m) ≡ false
unfolding has_container remove_container
has_container-remove c [] = refl
has_container-remove c ((k, d) ∷ m) = ground (arith, has_container-remove c m)

-- The bindings of another container stay.
pub lookup-remove_container :
    (c k d : Text) (m : Bindings)
    → lookup k m ≡ some d
    → text_eq d c ≡ false
    → lookup k (remove_container c m) ≡ some d
unfolding lookup remove_container
lookup-remove_container c k d [] e ne = cc
lookup-remove_container c k d ((j, x) ∷ m) e ne = ground (arith, lookup-remove_container c k d m)
