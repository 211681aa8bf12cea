-- ===== src/HostLocal/RangeSet.antt =====
-- plugins/ipam/host-local/backend/allocator/range_set.go: a list of ranges of one family.
use village_net.Common.{
  ℕ, Bool, true, false, not, ◌&&◌, ◌||◌, List, [], ◌∷◌, Option, none, some, ◌==◌, if◌then◌else◌,
  length, Result, ok, err, ◌>>=◌,
}
use village_net.Net.{Ip}
use village_net.HostLocal.Range
use village_net.HostLocal.Range.{
  Range, Error, canonicalize_ip, empty_range_set, mixed_families, overlapping, not_in_range_set,
}

abbrev pub RangeSet : Type 0
RangeSet = List Range

-- The first range of the set that contains the address.
unfoldable pub find_range : RangeSet → Ip → Option Range
find_range [] a = none
find_range (r ∷ s) a = if Range.contains r a then some r else find_range s a

unfoldable pub range_for : RangeSet → Ip → Result Error Range
unfolding find_range
range_for s addr = do
  a ← canonicalize_ip addr
  elim (find_range s a) [ none ↦ err not_in_range_set | some r ↦ ok r ]

unfoldable pub contains : RangeSet → Ip → Bool
contains s addr = elim (range_for s addr) [ err e ↦ false | ok r ↦ true ]

-- Whether a range overlaps with one of a set.
unfoldable pub range_overlaps : Range → RangeSet → Bool
range_overlaps r [] = false
range_overlaps r (r1 ∷ s) = Range.overlaps r r1 || range_overlaps r s

unfoldable pub overlaps : RangeSet → RangeSet → Bool
unfolding range_overlaps
overlaps [] p1 = false
overlaps (r ∷ s) p1 = range_overlaps r p1 || overlaps s p1

abbrev family_or : Option ℕ → ℕ → ℕ
family_or none len = len
family_or (some n) len = n

-- The first loop of RangeSet.Canonicalize: `fam` is `none` before the first range.
unfoldable pub canonicalize_ranges : Option ℕ → RangeSet → Result Error RangeSet
canonicalize_ranges fam [] = ok []
canonicalize_ranges fam (r ∷ s) = do
  r' ← Range.canonicalize r
  let len = length r'.range_start
  let known = family_or fam len
  if known == len
      then (do s' ← canonicalize_ranges (some known) s; ok (r' ∷ s'))
      else err mixed_families

-- The second loop: no range overlaps with a later one.
unfoldable pub disjoint : RangeSet → Bool
unfolding range_overlaps
disjoint [] = true
disjoint (r ∷ s) = not (range_overlaps r s) && disjoint s

unfoldable pub canonicalize : RangeSet → Result Error RangeSet
unfolding canonicalize_ranges disjoint
canonicalize [] = err empty_range_set
canonicalize (r ∷ s) = do
  s' ← canonicalize_ranges none (r ∷ s)
  if disjoint s' then ok s' else err overlapping
