-- ===== src/VillageIpam/Client/Scan.antt =====
-- The loop over the addresses of a range in AssignIp of plugins/ipam/village-ipam/client.go.
use village_net.Common.{
  ℕ, zero, suc, ◌+◌, ◌≤◌, ◌<◌, ◌≡◌, ◌⊎◌, inl, inr, true, false, [], none, some, arith, Bool-cases,
  if◌then◌else◌, length, ltb, refl, ap,
}
use village_net.Net.{Ip, IpNet, net_contains}
use village_net.Net.Bytes.{IsBytes, base, set_bytes, set_bytes-lt, set_bytes_inj}
use village_net.HostLocal.Store.{Text}
use village_net.VillageIpam.Client.Maps.{Bindings, lookup}
use village_net.VillageIpam.Client.{NetText, inc, scan}
use village_net.VillageIpam.Client.Counting.{set_bytes-inc}

module _ (t : NetText) (net : IpNet) (bound : Bindings) where
  -- The loop ends at an address that is outside the network, or bound to nothing.
  scan-ends :
      (f : ℕ) (a : Ip)
      → (net_contains net a ≡ false) ⊎ (lookup (t.format a) bound ≡ none)
      → scan t (suc f) net bound a ≡ some (if net_contains net a then a else [])
  unfolding scan
  scan-ends f a (inl e) = rw e refl
  scan-ends f a (inr e) = elim (Bool-cases (net_contains net a)) [
    | inl q ↦ rw (q, e) refl
    | inr q ↦ rw q refl
  ]

  -- For an address a of the same length as the one that the loop over a range starts at, and with
  -- a number (its bytes, the first one the highest) not below the start's: where every address of
  -- that length with a number from the start's on and below a's lies in the network and is bound,
  -- and a lies outside the network or is bound to nothing, fuel above the distance of the two
  -- numbers is enough, and the loop returns a if it lies in the network, and the nil address if
  -- not.
  pub scan-first :
      (f : ℕ) (ip a : Ip)
      → IsBytes ip
      → IsBytes a
      → length a ≡ length ip
      → set_bytes ip ≤ set_bytes a
      → set_bytes a < set_bytes ip + f
      → ((b : Ip)
          → IsBytes b
          → length b ≡ length ip
          → set_bytes ip ≤ set_bytes b
          → set_bytes b < set_bytes a
          → (net_contains net b ≡ true) × (c : Text) × (lookup (t.format b) bound ≡ some c))
      → (net_contains net a ≡ false) ⊎ (lookup (t.format a) bound ≡ none)
      → scan t f net bound ip ≡ some (if net_contains net a then a else [])
  unfolding scan
  scan-first zero ip a hi ha len low high passed ends = absurd (omega (arith, low, high))
  scan-first (suc f) ip a hi ha len low high passed ends =
      elim (Bool-cases (ltb (set_bytes ip) (set_bytes a))) [
        | inl e ↦
            let l : set_bytes ip < set_bytes a = ground (arith, e) in
            let (inside, c, taken) = passed ip hi refl (omega arith) l in
            let most : set_bytes ip + 1 < base (length ip) =
              omega (arith, l, set_bytes-lt a ha, ap base len) in
            let (len', hi', next) = set_bytes-inc ip hi most in
            rw (inside, taken)
              (scan-first f (inc ip) a hi' ha (omega (arith, len, len')) (omega (arith, next, l))
                (omega (arith, next, high))
                (λ b hb lb from below.
                  passed b hb (omega (arith, lb, len')) (omega (arith, next, from)) below)
                ends)
        | inr e ↦
            let m : set_bytes a ≤ set_bytes ip = ground (arith, e) in
            let same : ip ≡ a =
              set_bytes_inj ip a hi ha (omega (arith, len)) (omega (arith, m, low)) in
            cc (ap (λ x. scan t (suc f) net bound x) same, scan-ends f a ends)
      ]
