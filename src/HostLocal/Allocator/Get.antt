-- ===== src/HostLocal/Allocator/Get.antt =====
-- IPAllocator.Get on a request for any address.
use village_net.Common.{
  ℕ, zero, suc, ◌+◌, ◌≤◌, ◌<◌, ◌≡◌, inl, inr, ap, sym, ◌∙◌, Bool, true, false, ◌||◌, List, [], ◌∷◌,
  ◌++◌, none, some, arith, length, All, Bool-cases, Option-cases, ◌==◌, ==_iff, ok, err,
}
use village_net.Net.{Ip, is_nil, ip_equal}
use village_net.Net.Bytes.{set_bytes}
use village_net.Cidr.{next_ip}
use village_net.Cidr.Steps.{IsAddr, IsAddr-eq, IsAddr-lt, next_ip-IsAddr}
use village_net.HostLocal.Range.{Range}
use village_net.HostLocal.RangeSet
use village_net.HostLocal.RangeSet.{RangeSet}
use village_net.HostLocal.Store.{Store, StoreLaws, Text, IoError}
use village_net.HostLocal.Iter.{RangeIter, at_start, at_last, get_iter, find_index}
use village_net.HostLocal.Iter.Visits.{interval, addresses, all_addresses, IsUsable}
use village_net.HostLocal.Iter.Rounds.{at_start-visits}
use village_net.HostLocal.Iter.Resumed.{at_last-visits, after, before}
use village_net.HostLocal.Allocator.{
  IpAllocator, IpConfig, none_available, holds_one, get_loop, get,
}
use village_net.HostLocal.Allocator.Reference.{first_free, allocation, get_loop-first_free}

-- Each address on which `first_free` finds nothing is a gateway or taken.
first_free-none :
    (taken : Ip → Bool) (l : List (Range × Ip))
    → first_free taken l ≡ none
    → All (λ (p : Range × Ip). (ip_equal p.1 p.0.gateway || taken p.1) ≡ true) l
unfolding first_free
first_free-none taken [] e = tt
first_free-none taken ((r, x) ∷ l) e = ground (arith, first_free-none taken l)

All-interval :
    {n : ℕ} (P : Range × Ip → Type 0) (r : Range) (k : ℕ) (a x : Ip)
    → IsAddr n a
    → IsAddr n x
    → All P (interval r k a)
    → set_bytes a < set_bytes x
    → set_bytes x ≤ set_bytes a + k
    → P (r, x)
unfolding interval
All-interval P r zero a x v w h lo hi = absurd (omega arith)
All-interval {n} P r (suc k) a x v w h lo hi =
    let (y, up) = next_ip-IsAddr v (omega (arith, IsAddr-lt w)) in
    elim (Bool-cases (set_bytes x == set_bytes a + 1)) [
      | inl e ↦
          let same : next_ip a ≡ x = IsAddr-eq y w (omega (arith, up, (==_iff _ _).0 e)) in
          rw (← same) h.0
      | inr ne ↦ All-interval P r k (next_ip a) x y w h.1 (ground (arith, up)) (omega (arith, up))
    ]

-- A property of all addresses of a range holds of each address between its bounds.
All-addresses :
    {n : ℕ} (P : Range × Ip → Type 0) (r : Range) (x : Ip)
    → IsUsable n r
    → IsAddr n x
    → All P (addresses r)
    → set_bytes r.range_start ≤ set_bytes x
    → set_bytes x ≤ set_bytes r.range_end
    → P (r, x)
unfolding addresses
All-addresses P r x u w h lo hi = elim (Bool-cases (set_bytes x == set_bytes r.range_start)) [
  | inl e ↦
      let same : r.range_start ≡ x = IsAddr-eq u.starts w (sym ((==_iff _ _).0 e)) in
      rw (← same) h.0
  | inr ne ↦
      All-interval P r _ r.range_start x u.starts w h.1 (ground arith) (omega (arith, u.ordered))
]

All-append-left {ℓ κ} : {A : Type ℓ} (P : A → Type κ) (xs ys : List A) → All P (xs ++ ys) → All P xs
All-append-left P [] ys h = tt
All-append-left P (x ∷ xs) ys h = (h.0, All-append-left P xs ys h.1)

All-append-right {ℓ κ} :
    {A : Type ℓ} (P : A → Type κ) (xs ys : List A) → All P (xs ++ ys) → All P ys
All-append-right P [] ys h = h
All-append-right P (x ∷ xs) ys h = All-append-right P xs ys h.1

All-all_addresses :
    (n : ℕ) (P : Range × Ip → Type 0) (s : RangeSet)
    → All (IsUsable n) s
    → All P (all_addresses s)
    → All
        (λ (r : Range).
          (x : Ip)
          → IsAddr n x
          → set_bytes r.range_start ≤ set_bytes x
          → set_bytes x ≤ set_bytes r.range_end
          → P (r, x))
        s
unfolding all_addresses
All-all_addresses n P [] us h = tt
All-all_addresses n P (r ∷ s) us h = (
  (λ x w lo hi.
      All-addresses P r x us.0 w (All-append-left P (addresses r) (all_addresses s) h) lo hi),
  All-all_addresses n P s us.1 (All-append-right P (addresses r) (all_addresses s) h),
)

module _ {S : Type 0} (st : Store S) (a : IpAllocator) (id ifname : Text) {taken : S → Ip → Bool}
    (laws : StoreLaws st taken) where
  get_loop_of :
      (f : ℕ) (s : S) (i : RangeIter)
      → holds_one st a id ifname (st.get_by_id id ifname s) ≡ false
      → get_iter a.rangeset (st.last_reserved_ip a.range_id s) ≡ i
      → get st a id ifname f [] s ≡ get_loop st a id ifname f i s
  unfolding get
  get_loop_of f s i e q = rw (e, q)

  -- For a range set whose bounds are ordered addresses of one family with a non-zero leading
  -- byte, over a store that keeps the allocator's laws, with no address of the set held by the
  -- container, no readable last address and fuel above the number of addresses, Get without a
  -- requested address reserves and returns the first address of the ranges, in order, that is
  -- neither its range's gateway nor taken, and reports that none is available if there is none.
  pub get-first_free :
      {n : ℕ} (f : ℕ) (s : S) (r : Range) (rs : RangeSet) (e : IoError)
      → a.rangeset ≡ r ∷ rs
      → All (IsUsable n) (r ∷ rs)
      → holds_one st a id ifname (st.get_by_id id ifname s) ≡ false
      → st.last_reserved_ip a.range_id s ≡ err e
      → length (all_addresses (r ∷ rs)) < f
      → get st a id ifname f [] s
        ≡ some (allocation st a id ifname s (first_free (taken s) (all_addresses (r ∷ rs))))
  unfolding get_iter
  get-first_free f s r rs e set us new last room =
      get_loop_of f s (at_start (r ∷ rs)) new (rw (last, set))
      ∙ get_loop-first_free st a id ifname laws f (at_start (r ∷ rs)) s (all_addresses (r ∷ rs))
          (at_start-visits r rs us) room

  -- Under the same conditions, where the last reserved address lies in a range of the set and
  -- below its end, Get reserves and returns the first free address of the order that begins
  -- behind that address, goes through the later ranges and then the earlier ones, and ends with
  -- that address itself.
  pub get-resumed :
      {n : ℕ} (f : ℕ) (s : S) (pre post : RangeSet) (r : Range) (cur x : Ip)
      → a.rangeset ≡ pre ++ r ∷ post
      → All (IsUsable n) pre
      → IsUsable n r
      → All (IsUsable n) post
      → holds_one st a id ifname (st.get_by_id id ifname s) ≡ false
      → st.last_reserved_ip a.range_id s ≡ ok cur
      → RangeSet.contains a.rangeset cur ≡ true
      → find_index 0 a.rangeset cur ≡ some (length pre)
      → is_nil cur ≡ false
      → IsAddr n x
      → next_ip cur ≡ next_ip x
      → ip_equal cur r.range_end ≡ ip_equal x r.range_end
      → set_bytes r.range_start ≤ set_bytes x
      → set_bytes x < set_bytes r.range_end
      → length (after r post x ++ (all_addresses pre ++ before r x)) < f
      → get st a id ifname f [] s
        ≡ some (
            allocation st a id ifname s
              (first_free (taken s) (after r post x ++ (all_addresses pre ++ before r x))))
  unfolding get_iter
  get-resumed f s pre post r cur x set us u ws new last member index full v same_next same_end lo hi
        room =
      let i = at_last (pre ++ r ∷ post) cur (some (length pre)) in
      get_loop_of f s i new (rw (last, full, member, index, set))
      ∙ get_loop-first_free st a id ifname laws f i s
          (after r post x ++ (all_addresses pre ++ before r x))
          (at_last-visits pre post r us u ws x v lo hi cur full same_end same_next) room

  allocation-none :
      (s s' : S) (l : List (Range × Ip))
      → allocation st a id ifname s (first_free (taken s) l) ≡ (err none_available, s')
      → first_free (taken s) l ≡ none
  unfolding allocation
  allocation-none s s' l e = elim (Option-cases (first_free (taken s) l)) [
    | inl q ↦ q
    | inr (p, q) ↦ absurd (clash (ap (λ t. t.0) (rw (q, allocation) at e)))
  ]
    where
      clash : {c : IpConfig} → ok c ≡ err none_available → ⊥
      clash q = cc

  -- Under the conditions of get-first_free, Get reports that no address is available only if each
  -- address between the bounds of each range is its range's gateway or taken.
  pub get-none_available :
      {n : ℕ} (f : ℕ) (s s' : S) (r : Range) (rs : RangeSet) (e : IoError)
      → a.rangeset ≡ r ∷ rs
      → All (IsUsable n) (r ∷ rs)
      → holds_one st a id ifname (st.get_by_id id ifname s) ≡ false
      → st.last_reserved_ip a.range_id s ≡ err e
      → length (all_addresses (r ∷ rs)) < f
      → get st a id ifname f [] s ≡ some (err none_available, s')
      → All
          (λ (q : Range).
            (x : Ip)
            → IsAddr n x
            → set_bytes q.range_start ≤ set_bytes x
            → set_bytes x ≤ set_bytes q.range_end
            → (ip_equal x q.gateway || taken s x) ≡ true)
          (r ∷ rs)
  get-none_available {n} f s s' r rs e set us new last room res =
      All-all_addresses n (λ p. (ip_equal p.1 p.0.gateway || taken s p.1) ≡ true) (r ∷ rs) us
        (first_free-none (taken s) (all_addresses (r ∷ rs)) (
          allocation-none s s' (all_addresses (r ∷ rs))
            (cc (get-first_free f s r rs e set us new last room, res))))
