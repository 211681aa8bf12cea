-- ===== src/Cidr/Steps.antt =====
-- The successor of pkg/ip/cidr.go on the addresses of one family.
use village_net.Common.{
  ℕ, zero, suc, ◌+◌, ◌-◌, ◌*◌, ◌/◌, ◌%◌, ◌≤◌, ◌<◌, ◌≡◌, ◌⊎◌, inl, inr, ap, false, List, [], ◌∷◌,
  arith, length, ◌==◌, if◌then◌else◌, text_eq→eq, text_eq_refl, text_ne, take, Bool-cases, ==_iff,
  ◌∙◌, sym,
}
use village_net.Net.{Ip, to4, to16, ip_equal, v4_in_v6_prefix}
use village_net.Net.Bytes.{
  IsBytes, base, set_bytes, set_bytes-lt, set_bytes_inj, bytes_loop, bytes_loop_lem,
  bytes_loop-IsBytes,
}
use village_net.Cidr.{ip_to_int, int_to_ip, next_ip, prev_ip}

-- An address of the family of n + 1 bytes whose leading byte is not zero.
pub record IsAddr (n : ℕ) (a : Ip) : Type 0 where
  pub family : (n ≡ 3) ⊎ (n ≡ 15)
  pub len : length a ≡ suc n
  pub bytes : IsBytes a
  pub leading : base n ≤ set_bytes a

-- A mapped IPv6 address has ten leading zeros.
mapped_lt :
    (a : Ip) → take 12 a ≡ v4_in_v6_prefix → length a ≡ 16 → IsBytes a → set_bytes a < base 15
unfolding set_bytes
mapped_lt [] e l b = ground arith
mapped_lt (x ∷ xs) e l b =
    let z : x ≡ 0 = ground arith in
    let k : length xs ≡ 15 = omega arith in
    grind (arith, set_bytes-lt xs b.1, ap base k, ap (λ (t : ℕ). t * base (length xs)) z)

module _ {n : ℕ} {a : Ip} (v : IsAddr n a) where
  pub to4-IsAddr : to4 a ≡ (if n == 3 then a else [])
  unfolding to4
  to4-IsAddr = ground (
    arith,
    text_eq→eq (take 12 a) v4_in_v6_prefix,
    mapped_lt a,
    v.family,
    v.len,
    v.leading,
    v.bytes,
  )

  pub ip_to_int-IsAddr : ip_to_int a ≡ set_bytes a
  unfolding ip_to_int to16
  ip_to_int-IsAddr = ground (arith, to4-IsAddr, v.family, v.len)

  pub next_ip-IsAddr :
      set_bytes a + 1 < base (suc n)
      → IsAddr n (next_ip a) × (set_bytes (next_ip a) ≡ set_bytes a + 1)
  unfolding next_ip int_to_ip set_bytes
  next_ip-IsAddr room =
      let up = set_bytes a + 1 in
      let step : ip_to_int a + 1 ≡ up = ap (λ (t : ℕ). t + 1) ip_to_int-IsAddr in
      let small : n < 17 = ground (arith, v.family) in
      let (l, w) = bytes_loop_lem 17 n up [] small (omega (arith, v.leading)) room in
      rw step (
        record {
          family = v.family;
          len = omega (arith, l);
          bytes = bytes_loop-IsBytes 17 up [] tt;
          leading = omega (arith, w, v.leading);
        },
        omega (arith, w),
      )

  pub IsAddr-lt : set_bytes a < base (suc n)
  IsAddr-lt = omega (arith, set_bytes-lt a v.bytes, ap base v.len)

  prev_ip_lem : base n < set_bytes a → prev_ip a ≡ bytes_loop 17 (set_bytes a - 1) []
  unfolding prev_ip int_to_ip
  prev_ip_lem room = ground (arith, ip_to_int-IsAddr)

  pub prev_ip-IsAddr :
      base n < set_bytes a → IsAddr n (prev_ip a) × (set_bytes (prev_ip a) + 1 ≡ set_bytes a)
  unfolding set_bytes
  prev_ip-IsAddr room =
      let down = set_bytes a - 1 in
      let small : n < 17 = ground (arith, v.family) in
      let (l, w) = bytes_loop_lem 17 n down [] small (omega arith) (omega (arith, IsAddr-lt)) in
      rw (prev_ip_lem room) (
        record {
          family = v.family;
          len = omega (arith, l);
          bytes = bytes_loop-IsBytes 17 down [] tt;
          leading = omega (arith, w);
        },
        omega (arith, w),
      )

module _ {n : ℕ} {a b : Ip} (v : IsAddr n a) (w : IsAddr n b) where
  pub IsAddr-eq : set_bytes a ≡ set_bytes b → a ≡ b
  IsAddr-eq e = set_bytes_inj a b v.bytes w.bytes (v.len ∙ sym w.len) e

  pub ip_equal-IsAddr : ip_equal a b ≡ (set_bytes a == set_bytes b)
  unfolding ip_equal
  ip_equal-IsAddr = elim (Bool-cases (set_bytes a == set_bytes b)) [
    | inl e ↦ rw (IsAddr-eq ((==_iff _ _).0 e)) (ground (arith, text_eq_refl b))
    | inr e ↦ rw e (ground (arith, v.len, w.len, text_ne a b (λ p. ne (ap set_bytes p) e)))
  ]
    where
      ne : set_bytes a ≡ set_bytes b → (set_bytes a == set_bytes b) ≡ false → ⊥
      ne p q = ground arith

-- The successor of the predecessor of an address of 4 or 16 bytes is the address itself, if its
-- leading byte is not zero and it is not the least such address.
pub next_ip-prev_ip :
    {n : ℕ} {a : Ip} (v : IsAddr n a) → base n < set_bytes a → next_ip (prev_ip a) ≡ a
next_ip-prev_ip {n} {a} v room =
    let (p, e) = prev_ip-IsAddr v room in
    let (q, f) = next_ip-IsAddr p (omega (arith, IsAddr-lt v, e)) in
    IsAddr-eq q v (omega (arith, e, f))

bytes_loop-length :
    (f k n : ℕ) (acc : List ℕ) → n < base k → length (bytes_loop f n acc) ≤ k + length acc
unfolding bytes_loop
bytes_loop-length zero k n acc h = omega arith
bytes_loop-length (suc f) zero n acc h = ground arith
bytes_loop-length (suc f) (suc k) n acc h =
    ground (arith, bytes_loop-length f k (n / 256) ((n % 256) ∷ acc) (omega arith))

ip_to_int_four : (a : Ip) → length a ≡ 4 → ip_to_int a ≡ set_bytes a
unfolding ip_to_int to4
ip_to_int_four [] l = ground arith
ip_to_int_four (x ∷ xs) l = ground arith

to16_short : (a : Ip) → length a ≤ 3 → to16 a ≡ []
unfolding to16
to16_short a h = ground arith

-- The successor of an address of 4 bytes whose number is below 0.255.255.255 has at most 3 bytes,
-- and no 16-byte form.
pub next_ip_short :
    (a : Ip)
    → length a ≡ 4
    → set_bytes a + 1 < base 3
    → (length (next_ip a) ≤ 3) × (to16 (next_ip a) ≡ [])
unfolding next_ip int_to_ip
next_ip_short a l h = rw (ip_to_int_four a l) (short, to16_short _ short)
  where
    short : length (bytes_loop 17 (set_bytes a + 1) []) ≤ 3
    short = bytes_loop-length 17 3 (set_bytes a + 1) [] h
