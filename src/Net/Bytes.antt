-- ===== src/Net/Bytes.antt =====
-- Byte strings as big-endian numbers, as `big.Int` reads and writes them, and the addresses of one
-- family as an interval of numbers.
use village_net.Common.{
  ℕ, zero, suc, ◌+◌, ◌*◌, ◌/◌, ◌%◌, ◌≤◌, ◌<◌, ◌≡◌, refl, ap, List, [], ◌∷◌, arith, length, All,
  ◌==◌, if◌then◌else◌,
}

-- 256 to the power of k.
abbrev pub base : ℕ → ℕ
base zero = 1
base (suc k) = 256 * base k

-- big.Int.SetBytes
unfoldable pub set_bytes : List ℕ → ℕ
set_bytes [] = 0
set_bytes (x ∷ xs) = x * base (length xs) + set_bytes xs

-- big.Int.Bytes writes no leading zero; the fuel bounds the number of bytes.
unfoldable pub bytes_loop : ℕ → ℕ → List ℕ → List ℕ
bytes_loop zero n acc = acc
bytes_loop (suc f) n acc =
    let rest = bytes_loop f (n / 256) ((n % 256) ∷ acc) in if n == 0 then acc else rest

abbrev pub IsBytes : List ℕ → Type 0
IsBytes = All (λ x. x < 256)

pub base_pos : (k : ℕ) → 1 ≤ base k
base_pos zero = omega arith
base_pos (suc k) = omega (arith, base_pos k)

pub set_bytes-lt : (xs : List ℕ) → IsBytes xs → set_bytes xs < base (length xs)
unfolding set_bytes
set_bytes-lt [] h = omega arith
set_bytes-lt (x ∷ xs) h = grind (arith, set_bytes-lt xs h.1)

-- The leading byte decides: digits in base b.
pub digit_le : (b x y u v : ℕ) → v < b → x * b + u ≤ y * b + v → x ≤ y
digit_le b x y u v q e = grind arith

digit_eq : (b x y u v : ℕ) → u < b → v < b → x * b + u ≡ y * b + v → (x ≡ y) × (u ≡ v)
digit_eq b x y u v p q e =
    let same : x ≡ y =
      omega (arith, digit_le b x y u v q (omega arith), digit_le b y x v u p (omega arith)) in
    (same, grind arith)

-- Splitting off the last byte.
recombine : (n b : ℕ) → n / 256 * (256 * b) + n % 256 * b ≡ n * b
recombine n b =
    let split : n ≡ n / 256 * 256 + n % 256 = omega arith in
    omega (arith, ap (λ (t : ℕ). t * b) split)

bytes_loop-zero : (f : ℕ) (acc : List ℕ) → bytes_loop f 0 acc ≡ acc
unfolding bytes_loop
bytes_loop-zero zero acc = refl
bytes_loop-zero (suc f) acc = refl

pub set_bytes_inj :
    (xs ys : List ℕ)
    → IsBytes xs
    → IsBytes ys
    → length xs ≡ length ys
    → set_bytes xs ≡ set_bytes ys
    → xs ≡ ys
unfolding set_bytes
set_bytes_inj [] [] hx hy l e = refl
set_bytes_inj [] (y ∷ ys) hx hy l e = ground arith
set_bytes_inj (x ∷ xs) [] hx hy l e = ground arith
set_bytes_inj (x ∷ xs) (y ∷ ys) hx hy l e =
    let l' : length xs ≡ length ys = omega arith in
    let e' : x * base (length ys) + set_bytes xs ≡ y * base (length ys) + set_bytes ys =
      cc (e, ap base l') in
    let (p, q) =
      digit_eq (base (length ys)) x y (set_bytes xs) (set_bytes ys)
        (rw (← l') (set_bytes-lt xs hx.1)) (set_bytes-lt ys hy.1) e' in
    cc (p, set_bytes_inj xs ys hx.1 hy.1 l' q)

-- A number of k + 1 digits is written with k + 1 bytes, and read back as itself.
pub bytes_loop_lem :
    (f k n : ℕ) (acc : List ℕ)
    → k < f
    → base k ≤ n
    → n < base (suc k)
    → (length (bytes_loop f n acc) ≡ suc k + length acc)
      × (set_bytes (bytes_loop f n acc) ≡ n * base (length acc) + set_bytes acc)
unfolding bytes_loop set_bytes
bytes_loop_lem zero k n acc h lo hi = absurd (omega arith)
bytes_loop_lem (suc f) zero n acc h lo hi = ground (
  arith,
  bytes_loop-zero f ((n % 256) ∷ acc),
  ap (λ (t : ℕ). bytes_loop f t ((n % 256) ∷ acc)) small,
)
  where
    small : n / 256 ≡ 0
    small = omega arith
bytes_loop_lem (suc f) (suc k) n acc h lo hi = ground (
  arith,
  bytes_loop_lem f k (n / 256) ((n % 256) ∷ acc) (omega arith) (omega arith) (omega arith),
  recombine n (base (length acc)),
)

pub bytes_loop-IsBytes : (f n : ℕ) (acc : List ℕ) → IsBytes acc → IsBytes (bytes_loop f n acc)
unfolding bytes_loop
bytes_loop-IsBytes zero n acc h = h
bytes_loop-IsBytes (suc f) n acc h =
    ground (arith, bytes_loop-IsBytes f (n / 256) ((n % 256) ∷ acc) (omega arith, h))
