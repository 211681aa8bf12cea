-- ===== src/HostLocal/Iter/Resumed.antt =====
-- The iterator that resumes after the address that was reserved last.
use village_net.Common.{
  ℕ, zero, suc, ◌+◌, ◌-◌, ◌%◌, ◌≤◌, ◌<◌, ◌≡◌, inl, inr, refl, ap, sym, ◌∙◌, false, List, [], ◌∷◌,
  ◌++◌, arith, ◌==◌, length, All, length-append, append_assoc, append-nil, some, subst,
}
use village_net.Net.{Ip, is_nil, ip_equal}
use village_net.Net.Bytes.{base, set_bytes}
use village_net.Cidr.{next_ip}
use village_net.Cidr.Steps.{IsAddr, IsAddr-lt, IsAddr-eq, ip_equal-IsAddr, next_ip-IsAddr}
use village_net.HostLocal.Range.{Range}
use village_net.HostLocal.RangeSet.{RangeSet}
use village_net.HostLocal.Iter.{RangeIter, candidate, nth, arrive, advance, at_last}
use village_net.HostLocal.Iter.Visits.{
  Visits, interval, addresses, all_addresses, IsUsable, advance_end, advance-back, move_on_inside,
  not-is_nil,
}
use village_net.HostLocal.Iter.Rounds.{segment, enter, pass, nth-append, wrap_index, next_of}

-- A range's addresses up to `a`, and those after it.
interval-append :
    (r : Range) (k m : ℕ) {n : ℕ} (a b : Ip)
    → IsAddr n a
    → IsAddr n b
    → set_bytes b ≡ set_bytes a + k
    → set_bytes b + m < base (suc n)
    → interval r (k + m) a ≡ interval r k a ++ interval r m b
unfolding interval
interval-append r zero m a b v w e room =
    let same : b ≡ a = IsAddr-eq w v (omega (arith, e)) in
    rw same (ap (λ (t : ℕ). interval r t a) (omega arith))
interval-append r (suc k) m a b v w e room =
    let (x, up) = next_ip-IsAddr v (omega (arith, e)) in
    let split : suc k + m ≡ suc (k + m) = omega arith in
    rw split (
      ap (λ l. (r, next_ip a) ∷ l)
        (interval-append r k m (next_ip a) b x w (omega (arith, up, e)) room))

all_addresses-append :
    (xs ys : RangeSet) → all_addresses (xs ++ ys) ≡ all_addresses xs ++ all_addresses ys
unfolding all_addresses
all_addresses-append [] ys = refl
all_addresses-append (x ∷ xs) ys = simp (all_addresses-append xs ys, append_assoc)

-- The addresses of the range of `a` up to `a`, and those behind `a` in the set.
abbrev pub before : Range → Ip → List (Range × Ip)
before r a = (r, r.range_start) ∷ interval r (set_bytes a - set_bytes r.range_start) r.range_start

abbrev pub after : Range → RangeSet → Ip → List (Range × Ip)
after r post a = interval r (set_bytes r.range_end - set_bytes a) a ++ all_addresses post

-- The range set around the range that holds the last reserved address `a`, below its end. `cur`
-- is that address as the store returned it.
module _ {n : ℕ} (pre post : RangeSet) (r : Range) (us : All (IsUsable n) pre) (u : IsUsable n r)
    (ws : All (IsUsable n) post) (a : Ip) (v : IsAddr n a)
    (low : set_bytes r.range_start ≤ set_bytes a) (high : set_bytes a < set_bytes r.range_end) where
  s : RangeSet
  s = pre ++ r ∷ post

  -- The state (after r post a) the first activation.
  second : RangeIter
  second = record {
    rangeset = s;
    range_idx = length pre;
    cur = next_ip a;
    start_ip = next_ip a;
    start_range = length pre;
  }

  here : nth s (length pre) ≡ r
  unfolding s
  here = nth-append pre post r _ refl

  up : IsAddr n (next_ip a) × (set_bytes (next_ip a) ≡ set_bytes a + 1)
  up = next_ip-IsAddr v (omega (arith, IsAddr-lt u.ends))

  -- At the last reserved address the round is over.
  closes : Visits (record second { cur = a }) []
  unfolding second
  closes =
      advance-back _ (length pre) (next_ip a) (not-is_nil v) (not-is_nil up.0)
        (move_on_inside _ (rw (here, ip_equal-IsAddr v u.ends) (ground arith)))
        (rw (ip_equal-IsAddr up.0 up.0) (ground arith))

  -- From the end of the range before it, through the first part of the range of `a`.
  first_part :
      (j : ℕ) (b : Ip) (q : Range)
      → nth s j ≡ q
      → IsUsable n q
      → IsAddr n b
      → set_bytes b ≡ set_bytes q.range_end
      → (j + 1) % length s ≡ length pre
      → Visits (record second { range_idx = j; cur = b }) (before r a)
  unfolding second
  first_part j b q there uq w at_end next_index =
      let e =
        advance_end (record second { range_idx = j; cur = b }) q there uq w (length pre) r u at_end
          next_index here (not-is_nil up.0, inr (up.0, (λ e. omega (arith, up.1)))) in
      rw e (refl, rw append-nil at part)
    where
      part :
          Visits
            (record second { cur = r.range_start })
            (interval r (set_bytes a - set_bytes r.range_start) r.range_start ++ [])
      part =
          segment [] (set_bytes a - set_bytes r.range_start) (record second { cur = r.range_start })
            r here u u.starts (omega arith)
            (λ t lo hi. (not-is_nil up.0, inr (up.0, (λ e. omega (arith, up.1)))))
            (λ x y z. let same : x ≡ a = IsAddr-eq y v (omega (arith, z)) in rw same closes)

  -- The ranges (before r a) the one of `a`, from the end of the last range of the set.
  wrapped :
      (fst : RangeSet)
      → fst ≡ pre
      → (j : ℕ) (b : Ip) (q : Range) → nth s j ≡ q
      → IsUsable n q
      → IsAddr n b
      → set_bytes b ≡ set_bytes q.range_end
      → (j + 1) % length s ≡ 0
      → Visits (record second { range_idx = j; cur = b }) (all_addresses fst ++ (before r a))
  unfolding second s all_addresses
  wrapped [] e j b q there uq w at_end next_index =
      first_part j b q there uq w at_end (next_index ∙ ap length e)
  wrapped (p ∷ ps) e j b q there uq w at_end next_index = rw append_assoc (
      enter (all_addresses ps ++ (before r a)) (record second { range_idx = j; cur = b }) q there uq
        w at_end 0 p ups.0 next_index at_zero (λ t lo hi. (not-is_nil up.0, inl not_start))
        (λ x y z.
          pass (before r a) ps [] (r ∷ post) (record second { range_idx = 0; cur = x }) p set_eq
            refl ups.0 ups.1 (not-is_nil up.0) (inr (omega (arith, ap length e))) y z
            (λ k c l kk lh ul cw cl. first_part k c l lh ul cw cl (
              next_of k (length ps) (length s) (length pre) (omega (arith, kk))
                (omega (arith, length-append pre (r ∷ post), ap length e))
                (omega (arith, ap length e))))))
    where
      ups : All (IsUsable n) (p ∷ ps)
      ups = subst (All (IsUsable n)) (sym e) us

      set_eq : s ≡ [] ++ p ∷ (ps ++ r ∷ post)
      set_eq = ap (λ l. l ++ r ∷ post) (sym e)

      at_zero : nth s 0 ≡ p
      at_zero = nth-append [] (ps ++ r ∷ post) p s set_eq

      not_start : (0 == length pre) ≡ false
      not_start = ground (arith, ap length e)

  wrap_at : (j : ℕ) → j ≡ length pre + length post → (j + 1) % length s ≡ 0
  unfolding s
  wrap_at j e =
      let size : length s ≡ suc (length pre + length post) =
        omega (arith, length-append pre (r ∷ post)) in
      rw size (wrap_index j (length pre + length post) e)

  round : Visits second (
      interval r (set_bytes r.range_end - set_bytes (next_ip a)) (next_ip a)
      ++ (all_addresses post ++ (all_addresses pre ++ (before r a))))
  unfolding second s
  round =
      segment (all_addresses post ++ (all_addresses pre ++ (before r a)))
        (set_bytes r.range_end - set_bytes (next_ip a)) second r here u up.0 (omega (arith, up.1))
        (λ t lo hi. (not-is_nil up.0, inr (up.0, (λ e. omega arith))))
        (λ x y z.
          pass (all_addresses pre ++ (before r a)) post pre [] (record second { cur = x }) r
            (rw append-nil) refl u ws (not-is_nil up.0) (inl (omega arith)) y
            (omega (arith, z, up.1))
            (λ j b q jj there uq w at_end.
              wrapped pre refl j b q there uq w at_end (wrap_at j (omega (arith, jj)))))

  all_addresses-s : all_addresses s ≡ (all_addresses pre ++ (before r a)) ++ (after r post a)
  unfolding s all_addresses addresses
  all_addresses-s =
      let split =
        interval-append r (set_bytes a - set_bytes r.range_start)
          (set_bytes r.range_end - set_bytes a) r.range_start a u.starts v (omega arith)
          (omega (arith, IsAddr-lt u.ends)) in
      let sum : set_bytes a - set_bytes r.range_start + (set_bytes r.range_end - set_bytes a)
          ≡ set_bytes r.range_end - set_bytes r.range_start =
        omega arith in
      rw all_addresses-append (rw (rw sum at split) (simp append_assoc))

  resumes :
      (cur : Ip)
      → is_nil cur ≡ false
      → ip_equal cur r.range_end ≡ ip_equal a r.range_end
      → next_ip cur ≡ next_ip a
      → advance (at_last (pre ++ r ∷ post) cur (some (length pre)))
        ≡ (candidate r (next_ip a), second)
  unfolding advance arrive second s
  resumes cur c e q =
      let i = at_last (pre ++ r ∷ post) cur (some (length pre)) in
      let unequal : ip_equal cur (nth (pre ++ r ∷ post) (length pre)).range_end ≡ false =
        rw (here, e, ip_equal-IsAddr v u.ends) (ground arith) in
      rw (c, move_on_inside i unequal, q) (rw here)

  -- The iteration that resumes behind `a` is through all addresses, those behind `a` first.
  pub at_last-visits :
      (cur : Ip)
      → is_nil cur ≡ false
      → ip_equal cur r.range_end ≡ ip_equal a r.range_end
      → next_ip cur ≡ next_ip a
      → Visits
          (at_last (pre ++ r ∷ post) cur (some (length pre)))
          ((after r post a) ++ (all_addresses pre ++ (before r a)))
  unfolding interval
  at_last-visits cur c e q =
      let count : set_bytes r.range_end - set_bytes a
          ≡ suc (set_bytes r.range_end - set_bytes (next_ip a)) =
        omega (arith, up.1) in
      let first = resumes cur c e q in rw (count, first) (refl, rw (← append_assoc) at round)
