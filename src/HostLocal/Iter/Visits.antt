-- ===== src/HostLocal/Iter/Visits.antt =====
-- What the iterator visits, as a list: one activation of Next for each address.
use village_net.Common.{
  ℕ, zero, suc, ◌+◌, ◌-◌, ◌%◌, ◌≤◌, ◌<◌, ◌≡◌, ◌≢◌, ◌⊎◌, inl, inr, refl, Bool, true, false, ◌&&◌,
  List, [], ◌∷◌, ◌++◌, arith, ◌==◌, length,
}
use village_net.Net.{Ip, is_nil, ip_equal}
use village_net.Net.Bytes.{set_bytes}
use village_net.Cidr.{next_ip}
use village_net.Cidr.Steps.{IsAddr, IsAddr-lt, ip_equal-IsAddr, next_ip-IsAddr}
use village_net.HostLocal.Range.{Range}
use village_net.HostLocal.RangeSet.{RangeSet}
use village_net.HostLocal.Iter.{RangeIter, exhausted, candidate, nth, move_on, arrive, advance}

-- From `i` on, Next comes by these addresses and then gives up.
abbrev pub Visits : RangeIter → List (Range × Ip) → Type 0
Visits i [] = (advance i).0 ≡ exhausted
Visits i ((r, a) ∷ rest) = ((advance i).0 ≡ candidate r a) × Visits (advance i).1 rest

-- The k addresses after `a`, in the range `r`.
unfoldable pub interval : Range → ℕ → Ip → List (Range × Ip)
interval r zero a = []
interval r (suc k) a = (r, next_ip a) ∷ interval r k (next_ip a)

-- Every address of a range, in order.
unfoldable pub addresses : Range → List (Range × Ip)
addresses r =
    (r, r.range_start) ∷ interval r (set_bytes r.range_end - set_bytes r.range_start) r.range_start

unfoldable pub all_addresses : RangeSet → List (Range × Ip)
all_addresses [] = []
all_addresses (r ∷ s) = addresses r ++ all_addresses s

-- A range whose bounds are addresses of one family, in order.
pub record IsUsable (n : ℕ) (r : Range) : Type 0 where
  pub starts : IsAddr n r.range_start
  pub ends : IsAddr n r.range_end
  pub ordered : set_bytes r.range_start ≤ set_bytes r.range_end

pub not-is_nil : {n : ℕ} {a : Ip} → IsAddr n a → is_nil a ≡ false
not-is_nil {n} {a = []} v = absurd (omega (arith, v.len))
not-is_nil {n} {a = x ∷ xs} v = refl

-- The iteration is back at the address where it began.
abbrev pub back : RangeIter → Bool
back i = i.range_idx == i.start_range && ip_equal i.cur i.start_ip

-- An activation that moves the cursor to the address `a` of the range `k`.
advance-to :
    (i : RangeIter) (k : ℕ) (a : Ip)
    → is_nil i.cur ≡ false
    → is_nil i.start_ip ≡ false
    → move_on i ≡ (k, a)
    → back (record i { range_idx = k; cur = a }) ≡ false
    → advance i ≡ (candidate (nth i.rangeset k) a, record i { range_idx = k; cur = a })
unfolding advance arrive
advance-to i k a c s m b = rw (c, m) (rw (s, b))

pub advance-back :
    (i : RangeIter) (k : ℕ) (a : Ip)
    → is_nil i.cur ≡ false
    → is_nil i.start_ip ≡ false
    → move_on i ≡ (k, a)
    → back (record i { range_idx = k; cur = a }) ≡ true
    → (advance i).0 ≡ exhausted
unfolding advance arrive
advance-back i k a c s m b = rw (c, m) (rw (s, b))

pub move_on_inside :
    (i : RangeIter)
    → ip_equal i.cur (nth i.rangeset i.range_idx).range_end ≡ false
    → move_on i ≡ (i.range_idx, next_ip i.cur)
unfolding move_on
move_on_inside i e = rw e

pub move_on_end :
    (i : RangeIter) (k : ℕ)
    → ip_equal i.cur (nth i.rangeset i.range_idx).range_end ≡ true
    → (i.range_idx + 1) % length i.rangeset ≡ k
    → move_on i ≡ (k, (nth i.rangeset k).range_start)
unfolding move_on
move_on_end i k e q = rw (e, q)

-- A value is not where the iteration began: it stands in another range, or it is another address.
abbrev pub IsApart : ℕ → RangeIter → ℕ → ℕ → Type 0
IsApart n i k v =
    (is_nil i.start_ip ≡ false)
    × (((k == i.start_range) ≡ false) ⊎ (IsAddr n i.start_ip × (v ≢ set_bytes i.start_ip)))

not-back :
    {n : ℕ} (i : RangeIter) (k : ℕ) (a : Ip)
    → IsAddr n a
    → ((k == i.start_range) ≡ false) ⊎ (IsAddr n i.start_ip × (set_bytes a ≢ set_bytes i.start_ip))
    → back (record i { range_idx = k; cur = a }) ≡ false
not-back i k a v (inl e) = rw e
not-back i k a v (inr (w, ne)) = rw (ip_equal-IsAddr v w) (ground arith)

module _ {n : ℕ} (i : RangeIter) (r : Range) (here : nth i.rangeset i.range_idx ≡ r)
    (u : IsUsable n r) (v : IsAddr n i.cur) where
  -- Inside a range the cursor moves to the next address.
  pub advance_inside :
      set_bytes i.cur < set_bytes r.range_end
      → IsApart n i i.range_idx (set_bytes i.cur + 1)
      → (advance i ≡ (candidate r (next_ip i.cur), record i { cur = next_ip i.cur }))
        × IsAddr n (next_ip i.cur)
        × (set_bytes (next_ip i.cur) ≡ set_bytes i.cur + 1)
  advance_inside below p =
      let (w, e) = next_ip-IsAddr v (omega (arith, IsAddr-lt u.ends)) in
      let unequal : ip_equal i.cur (nth i.rangeset i.range_idx).range_end ≡ false =
        rw (here, ip_equal-IsAddr v u.ends) (ground arith) in
      let move =
        advance-to i i.range_idx (next_ip i.cur) (not-is_nil v) p.0 (move_on_inside i unequal)
          (not-back i i.range_idx (next_ip i.cur) w (rw e p.1)) in
      (rw here at move, w, e)

  -- From the end of a range it moves to the start of another.
  pub advance_end :
      (k : ℕ) (r' : Range)
      → IsUsable n r'
      → set_bytes i.cur ≡ set_bytes r.range_end
      → (i.range_idx + 1) % length i.rangeset ≡ k
      → nth i.rangeset k ≡ r'
      → IsApart n i k (set_bytes r'.range_start)
      → advance i ≡ (candidate r' r'.range_start, record i { range_idx = k; cur = r'.range_start })
  advance_end k r' u' at_end q there p =
      let equal : ip_equal i.cur (nth i.rangeset i.range_idx).range_end ≡ true =
        rw (here, ip_equal-IsAddr v u.ends) (ground arith) in
      let moved : move_on i ≡ (k, r'.range_start) = rw there at (move_on_end i k equal q) in
      let move =
        advance-to i k r'.range_start (not-is_nil v) p.0 moved
          (not-back i k r'.range_start u'.starts p.1) in
      rw there at move
