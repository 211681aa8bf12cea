-- ===== src/HostLocal/Allocator/Reference.antt =====
-- IPAllocator.Get against its description: the first free address, in the order of the iterator.
use village_net.Common.{
  ℕ, zero, suc, ◌≤◌, ◌<◌, ◌≡◌, inl, inr, ap, Bool, true, false, ◌||◌, List, [], ◌∷◌, Option, none,
  some, arith, if◌then◌else◌, length, Bool-cases, Result, ok, err,
}
use village_net.Net.{Ip, IpNet, ip_equal}
use village_net.HostLocal.Range.{Range}
use village_net.HostLocal.Store.{Store, StoreLaws, Text, IoError}
use village_net.HostLocal.Iter.{RangeIter, exhausted, skip, yield, candidate, advance, next}
use village_net.HostLocal.Iter.Visits.{Visits}
use village_net.HostLocal.Allocator.{
  IpAllocator, IpConfig, Error, none_available, config_of, round, get_loop,
}

-- The first address that is neither its range's gateway nor taken.
unfoldable pub first_free : (Ip → Bool) → List (Range × Ip) → Option (Range × Ip)
first_free taken [] = none
first_free taken ((r, x) ∷ rest) =
    if ip_equal x r.gateway || taken x then first_free taken rest else some (r, x)

module _ {S : Type 0} (st : Store S) (a : IpAllocator) (id ifname : Text) where
  -- What Get does with that address: it is reserved and returned with its range's mask and gateway.
  unfoldable pub allocation : S → Option (Range × Ip) → Result Error IpConfig × S
  allocation s none = (err none_available, s)
  allocation s (some (r, x)) = (
    ok (config_of (record { ip = x; mask = r.subnet.mask }) r.gateway),
    (st.reserve id ifname x a.range_id s).1,
  )

pub next_exhausted :
    (f : ℕ) (i : RangeIter)
    → (advance i).0 ≡ exhausted
    → next (suc f) i ≡ some (none, (advance i).1)
unfolding next
next_exhausted f i e = rw (e, next)

pub next_skip :
    (f : ℕ) (i : RangeIter) → (advance i).0 ≡ skip → next (suc f) i ≡ next f (advance i).1
unfolding next
next_skip f i e = rw (e, next)

pub next_yield :
    (f : ℕ) (i : RangeIter) (net : IpNet) (gw : Ip)
    → (advance i).0 ≡ yield net gw
    → next (suc f) i ≡ some (some (net, gw), (advance i).1)
unfolding next
next_yield f i net gw e = rw (e, next)

abbrev net_of : Range → Ip → IpNet
net_of r x = record { ip = x; mask = r.subnet.mask }

module _ {S : Type 0} (st : Store S) (a : IpAllocator) (id ifname : Text) {taken : S → Ip → Bool}
    (laws : StoreLaws st taken) where
  -- One round on a free address, and on a taken one.
  round-free :
      (loop : RangeIter → S → Option (Result Error IpConfig × S)) (i : RangeIter) (s : S)
      (net : IpNet) (gw : Ip)
      → taken s net.ip ≡ false
      → round st a id ifname loop (some (some (net, gw), i)) s
        ≡ some (ok (config_of net gw), (st.reserve id ifname net.ip a.range_id s).1)
  round-free loop i s net gw e = rw (laws.reserve_free id ifname net.ip a.range_id s e, round)

  pub round-taken :
      (loop : RangeIter → S → Option (Result Error IpConfig × S)) (i : RangeIter) (s : S)
      (net : IpNet) (gw : Ip)
      → taken s net.ip ≡ true
      → round st a id ifname loop (some (some (net, gw), i)) s ≡ loop i s
  round-taken loop i s net gw e =
      let held = laws.reserve_taken id ifname net.ip a.range_id s e in
      rw (held, round) (ap (λ (t : Result IoError Bool × S). loop i t.1) held)

  round-first_free :
      (g f : ℕ) (i : RangeIter) (s : S) (rest : List (Range × Ip))
      → Visits i rest
      → length rest < g
      → length rest ≤ f
      → round st a id ifname (get_loop st a id ifname f) (next g i) s
        ≡ some (allocation st a id ifname s (first_free (taken s) rest))
  unfolding get_loop first_free allocation candidate
  round-first_free zero f i s rest v h k = absurd (omega arith)
  round-first_free (suc g) f i s [] v h k = rw (next_exhausted g i v)
  round-first_free (suc g) zero i s ((r, x) ∷ rest) v h k = absurd (omega arith)
  round-first_free (suc g) (suc f) i s ((r, x) ∷ rest) v h k =
      elim (Bool-cases (ip_equal x r.gateway)) [
        | inl gw ↦
            rw (next_skip g i (rw gw at v.0), gw)
              (round-first_free g (suc f) (advance i).1 s rest v.1 (omega arith) (omega arith))
        | inr other ↦
            rw (next_yield g i (net_of r x) r.gateway (rw other at v.0), other)
              (elim (Bool-cases (taken s x)) [
                | inl held ↦
                    rw
                      (
                        round-taken (get_loop st a id ifname (suc f)) (advance i).1 s (net_of r x)
                            r.gateway held,
                        held,
                      )
                      (round-first_free (suc f) f (advance i).1 s rest v.1 (omega arith)
                        (omega arith))
                | inr free ↦ rw (
                  round-free (get_loop st a id ifname (suc f)) (advance i).1 s (net_of r x)
                      r.gateway free,
                  free,
                )
              ])
      ]

  -- The loop of Get over an iterator that visits a list of addresses.
  pub get_loop-first_free :
      (f : ℕ) (i : RangeIter) (s : S) (rest : List (Range × Ip))
      → Visits i rest
      → length rest < f
      → get_loop st a id ifname f i s
        ≡ some (allocation st a id ifname s (first_free (taken s) rest))
  unfolding get_loop
  get_loop-first_free zero i s rest v h = absurd (omega arith)
  get_loop-first_free (suc f) i s rest v h = round-first_free (suc f) f i s rest v h (omega arith)
