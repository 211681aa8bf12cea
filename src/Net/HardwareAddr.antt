-- ===== src/Net/HardwareAddr.antt =====
-- The hardware addresses of Go's `net` package: net.ParseMAC and HardwareAddr.String.
pub mod RoundTrip
use village_net.Common.{
  ℕ, ◌+◌, ◌-◌, ◌*◌, ◌/◌, ◌%◌, Bool, ◌&&◌, ◌||◌, ◌==◌, ltb, leb, if◌then◌else◌, List, [], ◌∷◌,
  Option, none, some, length, get_or,
}

abbrev pub HardwareAddr : Type 0
HardwareAddr = List ℕ

abbrev pub hex_digit : ℕ → ℕ
hex_digit n = if ltb n 10 then 48 + n else 87 + n

-- HardwareAddr.String
abbrev pub mac_string : HardwareAddr → List ℕ
mac_string [] = []
mac_string (b ∷ []) = hex_digit (b / 16) ∷ hex_digit (b % 16) ∷ []
mac_string (b ∷ c ∷ bs) = hex_digit (b / 16) ∷ hex_digit (b % 16) ∷ 58 ∷ mac_string (c ∷ bs)

abbrev pub hex_value : ℕ → Option ℕ
hex_value c =
    if leb 48 c && leb c 57
    then some (c - 48)
    else if leb 97 c && leb c 102
    then some (c - 87)
    else if leb 65 c && leb c 70
    then some (c - 55)
    else none

abbrev pub byte_value : Option ℕ → Option ℕ → Option ℕ
byte_value (some h) (some l) = some (h * 16 + l)
byte_value _ _ = none

abbrev pub put : Option ℕ → Option (List ℕ) → Option (List ℕ)
put (some b) (some bs) = some (b ∷ bs)
put _ _ = none

-- Bytes of two digits between separators.
abbrev pub parse_pairs : ℕ → List ℕ → Option (List ℕ)
parse_pairs sep (h ∷ l ∷ []) = put (byte_value (hex_value h) (hex_value l)) (some [])
parse_pairs sep (h ∷ l ∷ c ∷ rest) =
    let bs = parse_pairs sep rest in
    if c == sep then put (byte_value (hex_value h) (hex_value l)) bs else none
parse_pairs sep _ = none

-- Two bytes of two digits each between dots.
abbrev pub parse_quads : List ℕ → Option (List ℕ)
parse_quads (h ∷ l ∷ h' ∷ l' ∷ []) =
    put (byte_value (hex_value h) (hex_value l))
      (put (byte_value (hex_value h') (hex_value l')) (some []))
parse_quads (h ∷ l ∷ h' ∷ l' ∷ c ∷ rest) =
    let bs = parse_quads rest in
    if c == 46
    then put (byte_value (hex_value h) (hex_value l))
        (put (byte_value (hex_value h') (hex_value l')) bs)
    else none
parse_quads _ = none

abbrev pub is_mac_size : ℕ → Bool
is_mac_size n = (n == 6) || ((n == 8) || (n == 20))

-- net.ParseMAC
unfoldable pub parse_mac : List ℕ → Option HardwareAddr
parse_mac s =
    let c = get_or s 2 0 in
    if ltb (length s) 14
    then none
    else if (c == 58) || (c == 45)
    then (if ((length s + 1) % 3 == 0) && is_mac_size ((length s + 1) / 3)
        then parse_pairs c s
        else none)
    else if get_or s 4 0 == 46
    then (if ((length s + 1) % 5 == 0) && is_mac_size (2 * (length s + 1) / 5)
        then parse_quads s
        else none)
    else none
