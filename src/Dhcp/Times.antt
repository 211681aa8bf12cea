-- ===== src/Dhcp/Times.antt =====
-- The times that commit of plugins/ipam/dhcp/lease.go gives a lease, and the retries of backoffRetry.
use village_net.Common.{
  ℕ, zero, suc, ◌+◌, ◌*◌, ◌<◌, ◌≤◌, ◌≡◌, List, [], ◌∷◌, Option, none, some, arith, inl, inr,
  Option-cases, subst, length,
}
use village_net.Dhcp.Options.{
  Opts, option_lease_time, option_renewal_time, option_rebinding_time, second, parse_duration,
}
use village_net.Dhcp.Lease.{
  int64_limit, uint64_limit, mul64, div64, lt64, time_add, Lease, Packet, rebinding_of, renewal_of,
  commit, resend_delay0, resend_delay_max, backoff_loop, backoff_retry,
}

-- The longest lease whose 85 parts still fit an int64 of nanoseconds: 108,510,259 seconds.
abbrev pub longest : ℕ
longest = 108510259

-- An option's time is at least half of the lease's, if the option is there, and fits an int64.
abbrev pub AtLeastHalf : ℕ → Option ℕ → Type 0
AtLeastHalf lease none = Unit
AtLeastHalf lease (some d) = (d < int64_limit) × (lease ≤ 2 * d)

abbrev pub Fits : Option ℕ → Type 0
Fits none = Unit
Fits (some d) = d < int64_limit

rebinding_bounds :
    (opts : Opts) (secs : ℕ)
    → secs ≤ longest
    → AtLeastHalf (secs * second) (parse_duration opts option_rebinding_time)
    → (rebinding_of opts (secs * second) ≤ secs * second)
      × (secs * second ≤ 2 * rebinding_of opts (secs * second) + 1)
unfolding rebinding_of mul64 div64 lt64
rebinding_bounds opts secs h small =
    elim (Option-cases (parse_duration opts option_rebinding_time)) [
      | inl q ↦ ground (arith, q)
      | inr (d, q) ↦ ground (arith, q, subst (AtLeastHalf (secs * second)) q small)
    ]

renewal_bounds :
    (opts : Opts) (secs rebinding : ℕ)
    → secs ≤ longest
    → rebinding ≤ secs * second
    → secs * second ≤ 2 * rebinding + 1
    → Fits (parse_duration opts option_renewal_time)
    → renewal_of opts (secs * second) rebinding ≤ rebinding
unfolding renewal_of div64 lt64
renewal_bounds opts secs rebinding h r half small =
    elim (Option-cases (parse_duration opts option_renewal_time)) [
      | inl q ↦ ground (arith, q)
      | inr (d, q) ↦ ground (arith, q, subst Fits q small)
    ]

-- For a lease of at most 108,510,259 seconds, a rebinding time from the server, if any, of at
-- least half of that and below the limit of an int64, and a renewal time, if any, below that
-- limit, commit gives times in order: now, renewal, rebinding, and the end, which is now and the
-- lease's seconds.
pub commit_in_order :
    (ack : Packet) (now secs : ℕ) (l : Lease)
    → parse_duration ack.options option_lease_time ≡ some (secs * second)
    → secs ≤ longest
    → AtLeastHalf (secs * second) (parse_duration ack.options option_rebinding_time)
    → Fits (parse_duration ack.options option_renewal_time)
    → commit ack now ≡ some l
    → (now ≤ l.renewal_time)
      × (l.renewal_time ≤ l.rebinding_time)
      × (l.rebinding_time ≤ l.expire_time)
      × (l.expire_time ≡ now + secs * second)
unfolding commit time_add
commit_in_order ack now secs l q h half small e =
    let (short, long) = rebinding_bounds ack.options secs h half in
    let early =
      renewal_bounds ack.options secs (rebinding_of ack.options (secs * second)) h short long
        small in
    ground (arith, q, e, short, early)

-- For a lease of more than 108,510,259 and at most twice as many seconds and no rebinding time
-- from the server, from an instant 2^64 nanoseconds behind the zero time on, commit gives a
-- rebinding time that lies before now.
pub commit_overflow :
    (ack : Packet) (now secs : ℕ) (l : Lease)
    → parse_duration ack.options option_lease_time ≡ some (secs * second)
    → parse_duration ack.options option_rebinding_time ≡ none
    → longest < secs
    → secs ≤ 2 * longest
    → uint64_limit ≤ now
    → commit ack now ≡ some l
    → l.rebinding_time < now
unfolding commit time_add rebinding_of mul64 div64
commit_overflow ack now secs l q r h k n e = ground (arith, q, r, e)

-- A rebinding time below half of the lease and no renewal time: the rebinding time lies before the
-- renewal time.
pub commit_out_of_order :
    (ack : Packet) (now secs d : ℕ) (l : Lease)
    → parse_duration ack.options option_lease_time ≡ some (secs * second)
    → secs ≤ longest
    → parse_duration ack.options option_rebinding_time ≡ some d
    → parse_duration ack.options option_renewal_time ≡ none
    → 2 * d + 1 < secs * second
    → commit ack now ≡ some l
    → l.rebinding_time < l.renewal_time
unfolding commit time_add rebinding_of renewal_of div64 lt64
commit_out_of_order ack now secs d l q h r w k e = ground (arith, q, r, w, e)

module _ {ℓ} {P : Type ℓ} (try : ℕ → Option P) where
  -- The first of a number of tries that succeeds.
  unfoldable pub first_success : ℕ → ℕ → Option P
  first_success zero k = none
  first_success (suc n) k = elim (try k) [ some pkt ↦ some pkt | none ↦ first_success n (k + 1) ]

  -- From a base delay on, this many tries are left.
  abbrev TriesLeft : ℕ → ℕ → Type 0
  TriesLeft zero b = ⊥
  TriesLeft (suc zero) b = resend_delay_max ≤ b
  TriesLeft (suc (suc k)) b = (b < resend_delay_max) × TriesLeft (suc k) (b * 2)

  backoff_loop-first_success :
      (k f n b : ℕ)
      → TriesLeft k b
      → k ≤ f
      → (ds : List ℕ) × (backoff_loop try f n b ≡ some (first_success k n, ds)) × (length ds ≤ k)
  unfolding backoff_loop first_success
  backoff_loop-first_success zero f n b l h = absurd l
  backoff_loop-first_success (suc k) zero n b l h = absurd (omega (arith, h))
  backoff_loop-first_success (suc zero) (suc f) n b l h = elim (Option-cases (try n)) [
    | inl q ↦ (b ∷ [], ground (arith, q, l), omega arith)
    | inr (pkt, q) ↦ ([], ground (arith, q), omega arith)
  ]
  backoff_loop-first_success (suc (suc k)) (suc f) n b (lt, l) h =
      let (ds, e, c) = backoff_loop-first_success (suc k) f (n + 1) (b * 2) l (omega (arith, h)) in
      elim (Option-cases (try n)) [
        | inl q ↦ (b ∷ ds, ground (arith, q, lt, e), omega (arith, c))
        | inr (pkt, q) ↦ ([], ground (arith, q), omega arith)
      ]

  -- BackoffRetry ends within five tries, five steps of fuel or more being enough, with the packet
  -- of the first try that succeeds, or none, and sleeps five times at most.
  pub backoff_retry-first_success :
      (f : ℕ)
      → 5 ≤ f
      → (ds : List ℕ) × (backoff_retry try f ≡ some (first_success 5 0, ds)) × (length ds ≤ 5)
  unfolding backoff_retry
  backoff_retry-first_success f h = backoff_loop-first_success 5 f 0 resend_delay0 (omega arith) h
