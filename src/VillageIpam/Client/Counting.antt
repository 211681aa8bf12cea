-- ===== src/VillageIpam/Client/Counting.antt =====
-- The function inc of plugins/ipam/village-ipam/client.go on addresses read as numbers.
use village_net.Common.{
  ℕ, ◌+◌, ◌%◌, ◌<◌, ◌≡◌, refl, ap, List, [], ◌∷◌, length, arith, inl, inr, Bool-cases,
  if◌then◌else◌, ◌==◌,
}
use village_net.Net.{Ip}
use village_net.Net.Bytes.{IsBytes, base, set_bytes}
use village_net.VillageIpam.Client.{inc_carry, inc}

-- What the bytes of inc are, with the carry that is left in front of them.
inc_carry_lem :
    (bs : List ℕ)
    → IsBytes bs
    → (length (inc_carry bs).1 ≡ length bs)
      × IsBytes (inc_carry bs).1
      × ((if (inc_carry bs).0 then base (length bs) else 0) + set_bytes (inc_carry bs).1
          ≡ set_bytes bs + 1)
unfolding inc_carry set_bytes
inc_carry_lem [] h = (refl, tt, refl)
inc_carry_lem (b ∷ bs) h =
    let (len, bytes, sum) = inc_carry_lem bs h.1 in
    let wide = ap base len in
    elim (Bool-cases (inc_carry bs).0) [
      | inl c ↦
          let sum' : base (length bs) + set_bytes (inc_carry bs).1 ≡ set_bytes bs + 1 =
            ground (arith, c, sum) in
          elim (Bool-cases ((b + 1) % 256 == 0)) [
            | inl z ↦
                let wraps : (b + 1) % 256 ≡ 0 = ground (arith, z) in
                let full : b ≡ 255 = omega (arith, h.0, wraps) in
                rw (c, z, wraps, full)
                  (omega (arith, len), (omega arith, bytes), omega (arith, sum'))
            | inr z ↦
                let stays : (b + 1) % 256 ≡ b + 1 =
                  (let wraps : ¬ ((b + 1) % 256 ≡ 0) = λ e. ground (arith, z, e) in
                    omega (arith, h.0, wraps)) in
                rw (c, z, stays, wide)
                  (omega (arith, len), (omega (arith, h.0, stays), bytes), omega (arith, sum'))
          ]
      | inr c ↦
          let sum' : set_bytes (inc_carry bs).1 ≡ set_bytes bs + 1 = ground (arith, c, sum) in
          rw (c, wide) (omega (arith, len), (h.0, bytes), omega (arith, sum'))
    ]

-- Below the last number of its length, inc counts on by one.
pub set_bytes-inc :
    (ip : Ip)
    → IsBytes ip
    → set_bytes ip + 1 < base (length ip)
    → (length (inc ip) ≡ length ip) × IsBytes (inc ip) × (set_bytes (inc ip) ≡ set_bytes ip + 1)
unfolding inc
set_bytes-inc ip h l =
    let (len, bytes, sum) = inc_carry_lem ip h in
    elim (Bool-cases (inc_carry ip).0) [
      | inl c ↦ absurd (ground (arith, c, sum, l))
      | inr c ↦ (len, bytes, ground (arith, c, sum))
    ]
