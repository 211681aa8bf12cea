-- ===== src/HostLocal/Iter/Rounds.antt =====
-- The iterator goes round the addresses of a canonical range set: from the first range, or from
-- the address after the one that was reserved last.
use native.Mathlib.Nat.{mod-eq_of_lt, mod_self}
use village_net.Common.{
  ℕ, zero, suc, ◌+◌, ◌-◌, ◌%◌, ◌≤◌, ◌<◌, ◌≡◌, ◌⊎◌, inl, inr, refl, ap, sym, ◌∙◌, false, List, [],
  ◌∷◌, ◌++◌, arith, ◌==◌, length, All, length-append, get_or-append, append_assoc, append-nil,
}
use village_net.Net.{Ip, is_nil}
use village_net.Net.Bytes.{set_bytes}
use village_net.Cidr.{next_ip}
use village_net.Cidr.Steps.{IsAddr, ip_equal-IsAddr}
use village_net.HostLocal.Range.{Range}
use village_net.HostLocal.RangeSet.{RangeSet}
use village_net.HostLocal.Iter.{RangeIter, nth, advance, at_start}
use village_net.HostLocal.Iter.Visits.{
  Visits, interval, addresses, all_addresses, IsUsable, IsApart, advance_inside, advance_end,
  advance-back, move_on_end, not-is_nil,
}

module _ {n : ℕ} (rest : List (Range × Ip)) where
  -- The addresses after the cursor, in its range.
  pub segment :
      (k : ℕ) (i : RangeIter) (r : Range)
      → nth i.rangeset i.range_idx ≡ r
      → IsUsable n r
      → IsAddr n i.cur
      → set_bytes i.cur + k ≤ set_bytes r.range_end
      → ((t : ℕ) → set_bytes i.cur < t → t ≤ set_bytes i.cur + k → IsApart n i i.range_idx t)
      → ((a : Ip)
          → IsAddr n a
          → set_bytes a ≡ set_bytes i.cur + k
          → Visits (record i { cur = a }) rest)
      → Visits i (interval r k i.cur ++ rest)
  unfolding interval
  segment zero i r here u v room apart go = go i.cur v (omega arith)
  segment (suc k) i r here u v room apart go =
      let (e, w, up) =
        advance_inside i r here u v (omega arith)
          (apart (set_bytes i.cur + 1) (omega arith) (omega arith)) in
      let later =
        segment k (record i { cur = next_ip i.cur }) r here u w (omega arith)
          (λ t lo hi. apart t (omega arith) (omega arith)) (λ a x y. go a x (omega arith)) in
      rw e (refl, later)

  -- A whole range, from the end of the range before it.
  pub enter :
      (i : RangeIter) (r : Range)
      → nth i.rangeset i.range_idx ≡ r
      → IsUsable n r
      → IsAddr n i.cur
      → set_bytes i.cur ≡ set_bytes r.range_end
      → (k : ℕ) (r' : Range) → IsUsable n r'
      → (i.range_idx + 1) % length i.rangeset ≡ k
      → nth i.rangeset k ≡ r'
      → ((t : ℕ) → set_bytes r'.range_start ≤ t → t ≤ set_bytes r'.range_end → IsApart n i k t)
      → ((a : Ip)
          → IsAddr n a
          → set_bytes a ≡ set_bytes r'.range_end
          → Visits (record i { range_idx = k; cur = a }) rest)
      → Visits i (addresses r' ++ rest)
  unfolding addresses
  enter i r here u v at_end k r' u' q there apart go =
      let e =
        advance_end i r here u v k r' u' at_end q there
          (apart (set_bytes r'.range_start) (omega arith) u'.ordered) in
      let later =
        segment (set_bytes r'.range_end - set_bytes r'.range_start)
          (record i { range_idx = k; cur = r'.range_start }) r' there u' u'.starts
          (omega (arith, u'.ordered)) (λ t lo hi. apart t (omega arith) (omega (arith, u'.ordered)))
          (λ a x y. go a x (omega (arith, u'.ordered))) in
      rw e (refl, later)

pub nth-append :
    (pre post : RangeSet) (r : Range) (s : RangeSet) → s ≡ pre ++ r ∷ post → nth s (length pre) ≡ r
nth-append pre post r s e = rw e (get_or-append pre post r _)

pub next_of : (i p l k : ℕ) → i ≡ p → p + 1 < l → k ≡ p + 1 → (i + 1) % l ≡ k
next_of i p l k e h q = rw (e, q) (mod-eq_of_lt h)

module _ {n : ℕ} (rest : List (Range × Ip)) where
  -- The ranges `mid` that follow the range of the cursor, none of them the starting one.
  pub pass :
      (mid pre post : RangeSet) (i : RangeIter) (r : Range)
      → i.rangeset ≡ pre ++ r ∷ (mid ++ post)
      → i.range_idx ≡ length pre
      → IsUsable n r
      → All (IsUsable n) mid
      → is_nil i.start_ip ≡ false
      → (i.start_range ≤ length pre) ⊎ (length pre + length mid < i.start_range)
      → IsAddr n i.cur
      → set_bytes i.cur ≡ set_bytes r.range_end
      → ((j : ℕ) (a : Ip) (last : Range)
          → j ≡ length pre + length mid
          → nth i.rangeset j ≡ last
          → IsUsable n last
          → IsAddr n a
          → set_bytes a ≡ set_bytes last.range_end
          → Visits (record i { range_idx = j; cur = a }) rest)
      → Visits i (all_addresses mid ++ rest)
  unfolding all_addresses
  pass [] pre post i r e at u us known other v at_end go =
      go i.range_idx i.cur r (omega (arith, at)) (rw at (nth-append pre post r i.rangeset e)) u v
        at_end
  pass (m ∷ mid) pre post i r e at u us known other v at_end go = rw append_assoc (
      enter (all_addresses mid ++ rest) i r
        (rw at (nth-append pre (m ∷ (mid ++ post)) r i.rangeset e)) u v at_end k m us.0 next_index
        (nth-append pre' (mid ++ post) m i.rangeset e'') (λ t lo hi. (known, inl not_start))
        (λ a x y.
          pass mid pre' post (record i { range_idx = k; cur = a }) m e'' refl us.0 us.1 known other'
            x y (λ j b last jj there ul z w. go j b last (omega (arith, jj, len')) there ul z w)))
    where
      pre' : RangeSet
      pre' = pre ++ r ∷ []

      k : ℕ
      k = length pre'

      len' : k ≡ length pre + 1
      len' = omega (arith, length-append pre (r ∷ []))

      e'' : i.rangeset ≡ pre' ++ m ∷ (mid ++ post)
      e'' = e ∙ sym (append_assoc pre (r ∷ []) (m ∷ (mid ++ post)))

      next_index : (i.range_idx + 1) % length i.rangeset ≡ k
      next_index =
          next_of i.range_idx (length pre) (length i.rangeset) k at
            (omega (arith, ap length e, length-append pre (r ∷ (m ∷ (mid ++ post))))) len'

      not_start : (k == i.start_range) ≡ false
      not_start = ground (arith, len', other)

      other' : (i.start_range ≤ length pre') ⊎ (length pre' + length mid < i.start_range)
      other' = ground (arith, len', other)

pub wrap_index : (j l : ℕ) → j ≡ l → (j + 1) % suc l ≡ 0
wrap_index j l e = let up : j + 1 ≡ suc l = omega arith in rw up (mod_self (suc l))

module _ {n : ℕ} (r : Range) (s : RangeSet) (us : All (IsUsable n) (r ∷ s)) where
  -- The iterator that stands on the first address.
  first_iter : RangeIter
  first_iter = record {
    rangeset = r ∷ s;
    range_idx = 0;
    cur = r.range_start;
    start_ip = r.range_start;
    start_range = 0;
  }

  -- Behind the last range comes the address where the iteration began.
  wraps :
      (j : ℕ) (a : Ip) (last : Range)
      → j ≡ length s
      → nth (r ∷ s) j ≡ last
      → IsUsable n last
      → IsAddr n a
      → set_bytes a ≡ set_bytes last.range_end
      → Visits (record first_iter { range_idx = j; cur = a }) []
  unfolding first_iter
  wraps j a last e there u v at_end =
      advance-back _ 0 r.range_start (not-is_nil v) (not-is_nil us.0.starts)
        (move_on_end _ 0 (rw there (rw (ip_equal-IsAddr v u.ends) (ground arith)))
          (wrap_index j (length s) e))
        (rw (ip_equal-IsAddr us.0.starts us.0.starts) (ground arith))

  rest_of_round : Visits first_iter (
      interval r (set_bytes r.range_end - set_bytes r.range_start) r.range_start
      ++ (all_addresses s ++ []))
  unfolding first_iter
  rest_of_round =
      segment (all_addresses s ++ []) (set_bytes r.range_end - set_bytes r.range_start) first_iter r
        refl us.0 us.0.starts (omega (arith, us.0.ordered))
        (λ t lo hi. (not-is_nil us.0.starts, inr (us.0.starts, (λ e. omega arith))))
        (λ a x y.
          pass [] s [] [] (record first_iter { cur = a }) r (rw append-nil) refl us.0 us.1
            (not-is_nil us.0.starts) (inl (omega arith)) x (omega (arith, y, us.0.ordered))
            (λ j b last q there ul z w. wraps j b last (omega (arith, q)) there ul z w))

  -- With no address reserved before, the iteration is through all addresses, in order.
  pub at_start-visits : Visits (at_start (r ∷ s)) (all_addresses (r ∷ s))
  unfolding advance all_addresses addresses first_iter
  at_start-visits = (refl, rw append-nil at rest_of_round)
