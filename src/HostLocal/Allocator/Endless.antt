-- ===== src/HostLocal/Allocator/Endless.antt =====
-- IPAllocator.Get where the last reserved address is the end of its range and the set has another
-- range: the place where the iteration began is remembered with the wrong range.
use village_net.Common.{
  ℕ, zero, suc, ◌+◌, ◌%◌, ◌≤◌, ◌<◌, ◌≡◌, ◌⊎◌, ◌||◌, inl, inr, refl, ap, Bool, true, false, [],
  Option, none, some, arith, length, Bool-cases, ◌==◌, ==_iff, ok,
}
use village_net.Net.{Ip, IpNet, is_nil, ip_equal}
use village_net.Net.Bytes.{set_bytes}
use village_net.Cidr.{next_ip}
use village_net.Cidr.Steps.{IsAddr}
use village_net.HostLocal.Range.{Range}
use village_net.HostLocal.RangeSet
use village_net.HostLocal.RangeSet.{RangeSet}
use village_net.HostLocal.Store.{Store, StoreLaws, Text}
use village_net.HostLocal.Iter.{
  RangeIter, advance, arrive, candidate, nth, next, at_last, get_iter, find_index,
}
use village_net.HostLocal.Iter.Visits.{
  IsUsable, IsApart, advance_inside, advance_end, move_on_end, not-is_nil,
}
use village_net.HostLocal.Allocator.{IpAllocator, holds_one, get_loop, get}
use village_net.HostLocal.Allocator.Reference.{next_skip, next_yield, round-taken}

-- Every address of every range of a set is its range's gateway or taken.
abbrev pub IsFull : (Ip → Bool) → ℕ → RangeSet → Type 0
IsFull P n rs =
    (j : ℕ) (x : Ip)
    → j < length rs
    → IsAddr n x
    → set_bytes (nth rs j).range_start ≤ set_bytes x
    → set_bytes x ≤ set_bytes (nth rs j).range_end
    → (ip_equal x (nth rs j).gateway || P x) ≡ true

-- The cursor stands in its range; the iteration began outside the range `start_range`.
record IsCircling (P : Ip → Bool) (n : ℕ) (i : RangeIter) : Type 0 where
  holds : IsFull P n i.rangeset
  usable : (j : ℕ) → j < length i.rangeset → IsUsable n (nth i.rangeset j)
  within : i.range_idx < length i.rangeset
  cursor : IsAddr n i.cur
  low : set_bytes (nth i.rangeset i.range_idx).range_start ≤ set_bytes i.cur
  high : set_bytes i.cur ≤ set_bytes (nth i.rangeset i.range_idx).range_end
  began : IsAddr n i.start_ip
  outside :
      (set_bytes i.start_ip < set_bytes (nth i.rangeset i.start_range).range_start)
      ⊎ (set_bytes (nth i.rangeset i.start_range).range_end < set_bytes i.start_ip)

-- An address of the range `k` is not where the iteration began.
circling-IsApart :
    {P : Ip → Bool} {n : ℕ} (i : RangeIter) (k t : ℕ)
    → IsCircling P n i
    → set_bytes (nth i.rangeset k).range_start ≤ t
    → t ≤ set_bytes (nth i.rangeset k).range_end
    → IsApart n i k t
circling-IsApart i k t c lo hi = elim (Bool-cases (k == i.start_range)) [
  | inl e ↦
      let same : k ≡ i.start_range = (==_iff _ _).0 e in
      let lo' = ap (λ (j : ℕ). set_bytes (nth i.rangeset j).range_start) same in
      let hi' = ap (λ (j : ℕ). set_bytes (nth i.rangeset j).range_end) same in
      (not-is_nil c.began, inr (c.began, (λ q. omega (arith, c.outside, lo', hi'))))
  | inr ne ↦ (not-is_nil c.began, inl ne)
]

-- Each activation comes to an address, and the iterator goes on circling.
advance-IsCircling :
    {P : Ip → Bool} {n : ℕ} (i : RangeIter)
    → IsCircling P n i
    → (r : Range) × (x : Ip) × ((advance i).0 ≡ candidate r x)
      × ((ip_equal x r.gateway || P x) ≡ true)
      × IsCircling P n (advance i).1
advance-IsCircling {P} {n} i c = elim (Bool-cases (set_bytes i.cur == set_bytes r.range_end)) [
  | inl e ↦
      let moved =
        advance_end i r refl u c.cursor k (nth i.rangeset k) u' ((==_iff _ _).0 e) refl refl
          (circling-IsApart i k _ c (omega arith) u'.ordered) in
      (
        nth i.rangeset k,
        (nth i.rangeset k).range_start,
        ap (λ t. t.0) moved,
        c.holds k _ k_lt u'.starts (omega arith) u'.ordered,
        rw moved (record {
          holds = c.holds;
          usable = c.usable;
          within = k_lt;
          cursor = u'.starts;
          low = omega arith;
          high = u'.ordered;
          began = c.began;
          outside = c.outside;
        }),
      )
  | inr ne ↦
      let (moved, w, up) =
        advance_inside i r refl u c.cursor (ground (arith, c.high))
          (circling-IsApart i i.range_idx _ c (omega (arith, c.low)) (ground (arith, c.high))) in
      (
        r,
        next_ip i.cur,
        ap (λ t. t.0) moved,
        c.holds i.range_idx (next_ip i.cur) c.within w (omega (arith, up, c.low))
            (ground (arith, up, c.high)),
        rw moved (record {
          holds = c.holds;
          usable = c.usable;
          within = c.within;
          cursor = w;
          low = omega (arith, up, c.low);
          high = ground (arith, up, c.high);
          began = c.began;
          outside = c.outside;
        }),
      )
]
  where
    r : Range
    r = nth i.rangeset i.range_idx

    u : IsUsable n r
    u = c.usable i.range_idx c.within

    k : ℕ
    k = (i.range_idx + 1) % length i.rangeset

    k_lt : k < length i.rangeset
    k_lt = omega (arith, c.within)

    u' : IsUsable n (nth i.rangeset k)
    u' = c.usable k k_lt

-- The next activation comes to an address and leaves a circling iterator.
abbrev IsReady : (Ip → Bool) → ℕ → RangeIter → Type 0
IsReady P n i =
    (r : Range) × (x : Ip) × ((advance i).0 ≡ candidate r x)
    × ((ip_equal x r.gateway || P x) ≡ true)
    × IsCircling P n (advance i).1

-- Next runs out of fuel or yields; it does not give up.
abbrev Goes : (Ip → Bool) → ℕ → Option (Option (IpNet × Ip) × RangeIter) → Type 0
Goes P n o =
    (o ≡ none)
    ⊎ ((net : IpNet) × (gw : Ip) × (j : RangeIter) × (o ≡ some (some (net, gw), j))
        × (P net.ip ≡ true)
        × IsCircling P n j)

next-Goes : {P : Ip → Bool} {n : ℕ} (f : ℕ) (i : RangeIter) → IsReady P n i → Goes P n (next f i)
unfolding next candidate
next-Goes zero i c = inl refl
next-Goes (suc f) i (r, x, e, p, c) = elim (Bool-cases (ip_equal x r.gateway)) [
  | inl gw ↦
      rw (next_skip f i (rw gw at e))
        (next-Goes f (advance i).1 (advance-IsCircling (advance i).1 c))
  | inr other ↦ inr (
    record { ip = x; mask = r.subnet.mask },
    r.gateway,
    (advance i).1,
    next_yield f i (record { ip = x; mask = r.subnet.mask }) r.gateway (rw other at e),
    rw other at p,
    c,
  )
]

-- The first activation from the end of a range.
first_move :
    (rs : RangeSet) (cur : Ip) (idx : ℕ)
    → is_nil cur ≡ false
    → ip_equal cur (nth rs idx).range_end ≡ true
    → let k = (idx + 1) % length rs in
      advance (at_last rs cur (some idx)) ≡ (
        candidate (nth rs k) (nth rs k).range_start,
        record {
          rangeset = rs;
          range_idx = k;
          cur = (nth rs k).range_start;
          start_ip = (nth rs k).range_start;
          start_range = idx;
        },
      )
unfolding advance arrive
first_move rs cur idx known at_end =
    rw (known, move_on_end (at_last rs cur (some idx)) ((idx + 1) % length rs) at_end refl)

module _ {S : Type 0} (st : Store S) (a : IpAllocator) (id ifname : Text) {taken : S → Ip → Bool}
    (laws : StoreLaws st taken) (s : S) where
  get_loop-endless :
      {n : ℕ} (f : ℕ) (i : RangeIter) → IsReady (taken s) n i → get_loop st a id ifname f i s ≡ none
  unfolding get_loop
  get_loop-endless zero i c = refl
  get_loop-endless (suc f) i c = elim (next-Goes (suc f) i c) [
    | inl e ↦ rw e
    | inr (net, gw, j, e, held, c') ↦
        rw (e, round-taken st a id ifname laws (get_loop st a id ifname f) j s net gw held)
          (get_loop-endless f j (advance-IsCircling j c'))
  ]

  -- Where each address of the set is a gateway or taken, the last reserved address is the end of
  -- its range and the next range (round the set) begins outside that range, Get returns for no
  -- amount of fuel: its loop does not end.
  pub get-endless :
      {n : ℕ} (f : ℕ) (cur : Ip) (idx : ℕ)
      → ((j : ℕ) → j < length a.rangeset → IsUsable n (nth a.rangeset j))
      → IsFull (taken s) n a.rangeset
      → idx < length a.rangeset
      → holds_one st a id ifname (st.get_by_id id ifname s) ≡ false
      → st.last_reserved_ip a.range_id s ≡ ok cur
      → RangeSet.contains a.rangeset cur ≡ true
      → find_index 0 a.rangeset cur ≡ some idx
      → is_nil cur ≡ false
      → ip_equal cur (nth a.rangeset idx).range_end ≡ true
      → (set_bytes (nth a.rangeset ((idx + 1) % length a.rangeset)).range_start
          < set_bytes (nth a.rangeset idx).range_start)
        ⊎ (set_bytes (nth a.rangeset idx).range_end
            < set_bytes (nth a.rangeset ((idx + 1) % length a.rangeset)).range_start)
      → get st a id ifname f [] s ≡ none
  unfolding get get_iter
  get-endless {n} f cur idx us full within new last member index known at_end apart =
      rw (new, last, known, member, index)
        (get_loop-endless f (at_last a.rangeset cur (some idx)) ready)
    where
      k : ℕ
      k = (idx + 1) % length a.rangeset

      k_lt : k < length a.rangeset
      k_lt = omega arith

      u : IsUsable n (nth a.rangeset k)
      u = us k k_lt

      moved : advance (at_last a.rangeset cur (some idx)) ≡ (
        candidate (nth a.rangeset k) (nth a.rangeset k).range_start,
        record {
          rangeset = a.rangeset;
          range_idx = k;
          cur = (nth a.rangeset k).range_start;
          start_ip = (nth a.rangeset k).range_start;
          start_range = idx;
        },
      )
      moved = first_move a.rangeset cur idx known at_end

      ready : IsReady (taken s) n (at_last a.rangeset cur (some idx))
      ready = (
        nth a.rangeset k,
        (nth a.rangeset k).range_start,
        ap (λ t. t.0) moved,
        full k _ k_lt u.starts (omega arith) u.ordered,
        rw moved (record {
          holds = full;
          usable = us;
          within = k_lt;
          cursor = u.starts;
          low = omega arith;
          high = u.ordered;
          began = u.starts;
          outside = apart;
        }),
      )
