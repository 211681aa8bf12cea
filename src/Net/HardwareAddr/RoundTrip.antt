-- ===== src/Net/HardwareAddr/RoundTrip.antt =====
-- That net.ParseMAC reads what HardwareAddr.String writes.
use village_net.Common.{
  ℕ, ◌+◌, ◌*◌, ◌/◌, ◌%◌, ◌<◌, ◌≡◌, refl, ap, true, false, ◌==◌, ltb, List, [], ◌∷◌, some, length,
  All, arith,
}
use village_net.Net.HardwareAddr.{
  HardwareAddr, hex_digit, mac_string, hex_value, byte_value, parse_pairs, is_mac_size, parse_mac,
}

hex_value-hex_digit : (n : ℕ) → n < 16 → hex_value (hex_digit n) ≡ some n
hex_value-hex_digit n w = ground (arith, w)

byte_value-digits :
    (b : ℕ)
    → b < 256
    → byte_value (hex_value (hex_digit (b / 16))) (hex_value (hex_digit (b % 16))) ≡ some b
byte_value-digits b w =
    rw (hex_value-hex_digit (b / 16) (omega arith), hex_value-hex_digit (b % 16) (omega arith))
      (ap some (omega arith))

parse_pairs-mac_string :
    (b : ℕ) (bs : List ℕ)
    → All (λ b. b < 256) (b ∷ bs)
    → parse_pairs 58 (mac_string (b ∷ bs)) ≡ some (b ∷ bs)
parse_pairs-mac_string b [] (w, v) = rw (byte_value-digits b w) refl
parse_pairs-mac_string b (c ∷ bs) (w, v) =
    rw (byte_value-digits b w, parse_pairs-mac_string c bs v) refl

length-mac_string : (b : ℕ) (bs : List ℕ) → length (mac_string (b ∷ bs)) ≡ 2 + 3 * length bs
length-mac_string b [] = refl
length-mac_string b (c ∷ bs) = let rest = length-mac_string c bs in omega arith

pub parse_mac-mac_string :
    (hw : HardwareAddr)
    → All (λ b. b < 256) hw
    → is_mac_size (length hw) ≡ true
    → parse_mac (mac_string hw) ≡ some hw
unfolding parse_mac
parse_mac-mac_string [] w size = ground (arith, size)
parse_mac-mac_string (b ∷ []) w size = ground (arith, size)
parse_mac-mac_string (b ∷ c ∷ bs) w size =
    let len = length-mac_string b (c ∷ bs) in
    let n = length (mac_string (b ∷ c ∷ bs)) in
    let thirds : (n + 1) / 3 ≡ length (b ∷ c ∷ bs) = omega arith in
    let multiple : ((n + 1) % 3 == 0) ≡ true = ground (arith, len) in
    let long : ltb n 14 ≡ false = ground (arith, len, size) in
    let sized : is_mac_size ((n + 1) / 3) ≡ true = rw thirds size in
    rw (long, multiple, sized) (parse_pairs-mac_string b (c ∷ bs) w)
