-- ===== src/Dhcp/Lease.antt =====
-- plugins/ipam/dhcp/lease.go: a lease, its times, and the retries of a request. A duration is an
-- int64 of nanoseconds by its bit pattern, and an instant a number of nanoseconds since the year 1.
use village_net.Common.{
  ℕ, zero, suc, ◌+◌, ◌-◌, ◌*◌, ◌/◌, ◌%◌, ltb, Bool, true, false, List, [], ◌∷◌, ◌++◌, Option, none,
  some, if◌then◌else◌, length,
}
use village_net.Net.{Ip, IpNet, is_nil}
use village_net.Cni.{Route}
use village_net.Dhcp.Options.{
  Opts, option_lease_time, option_renewal_time, option_rebinding_time, parse_duration, parse_router,
  parse_routes, parse_cidr_routes, parse_subnet_mask,
}

-- 2 ^ 63 and 2 ^ 64
abbrev pub int64_limit : ℕ
int64_limit = 9223372036854775808

abbrev pub uint64_limit : ℕ
uint64_limit = 18446744073709551616

-- a * k and a / k, for a positive k
unfoldable pub mul64 : ℕ → ℕ → ℕ
mul64 a k = (a * k) % uint64_limit

unfoldable pub div64 : ℕ → ℕ → ℕ
div64 a k =
    if ltb a int64_limit then a / k else (uint64_limit - (uint64_limit - a) / k) % uint64_limit

-- a < b as signed numbers
unfoldable pub lt64 : ℕ → ℕ → Bool
lt64 a b = ltb ((a + int64_limit) % uint64_limit) ((b + int64_limit) % uint64_limit)

-- Time.Add
unfoldable pub time_add : ℕ → ℕ → ℕ
time_add now d = if ltb d int64_limit then now + d else now - (uint64_limit - d)

-- DHCPLease; the packet's own address is kept beside its options.
pub record Lease : Type 0 where
  pub opts : Opts
  pub your_ip : Ip
  pub renewal_time : ℕ
  pub rebinding_time : ℕ
  pub expire_time : ℕ

-- A packet: its options and the address that it offers.
pub record Packet : Type 0 where
  pub options : Opts
  pub yi_addr : Ip

abbrev default_if : Option ℕ → ℕ → ℕ → ℕ
default_if none most otherwise = otherwise
default_if (some d) most otherwise = if lt64 most d then otherwise else d

-- The two times of commit, which default to 85% and to a half of the lease's.
unfoldable pub rebinding_of : Opts → ℕ → ℕ
rebinding_of opts lease_time =
    default_if (parse_duration opts option_rebinding_time) lease_time
      (div64 (mul64 lease_time 85) 100)

unfoldable pub renewal_of : Opts → ℕ → ℕ → ℕ
renewal_of opts lease_time rebinding =
    default_if (parse_duration opts option_renewal_time) rebinding (div64 lease_time 2)

-- commit: a packet without the lease's time is an error.
unfoldable pub commit : Packet → ℕ → Option Lease
commit ack now = elim (parse_duration ack.options option_lease_time) [
  | none ↦ none
  | some lease_time ↦
      let rebinding = rebinding_of ack.options lease_time in
      let renewal = renewal_of ack.options lease_time rebinding in
      some (record {
        opts = ack.options;
        your_ip = ack.yi_addr;
        renewal_time = time_add now renewal;
        rebinding_time = time_add now rebinding;
        expire_time = time_add now lease_time;
      })
]

-- renew: the error of commit is dropped, and the lease is left as it was.
unfoldable pub renew : Lease → Option Packet → ℕ → Lease × Bool
renew l none now = (l, false)
renew l (some ack) now = elim (commit ack now) [ none ↦ (l, true) | some l' ↦ (l', true) ]

-- acquire, for a lease that there is already.
unfoldable pub acquire : Lease → Option Packet → ℕ → Lease × Bool
acquire l none now = (l, false)
acquire l (some ack) now = elim (commit ack now) [ none ↦ (l, false) | some l' ↦ (l', true) ]

abbrev pub resend_delay0 : ℕ
resend_delay0 = 4

abbrev pub resend_delay_max : ℕ
resend_delay_max = 62

-- The loop of backoffRetry: the packet or no more tries, and the base delays in seconds that were
-- slept, each with its jitter of a second at most. The n-th try is the environment's.
module _ {ℓ} {P : Type ℓ} where
  abbrev slept : ℕ → Option (Option P × List ℕ) → Option (Option P × List ℕ)
  slept d none = none
  slept d (some (r, ds)) = some (r, d ∷ ds)

module _ {ℓ} {P : Type ℓ} (try : ℕ → Option P) where
  unfoldable pub backoff_loop : ℕ → ℕ → ℕ → Option (Option P × List ℕ)
  backoff_loop zero n base_delay = none
  backoff_loop (suc f) n base_delay =
      let rest = backoff_loop f (n + 1) (base_delay * 2) in
      elim (try n) [
        | some pkt ↦ some (some pkt, [])
        | none ↦
            if ltb base_delay resend_delay_max
            then slept base_delay rest
            else some (none, base_delay ∷ [])
      ]

  unfoldable pub backoff_retry : ℕ → Option (Option P × List ℕ)
  unfolding backoff_loop
  backoff_retry fuel = backoff_loop fuel 0 resend_delay0

-- IPNet, Gateway and Routes of a lease.
unfoldable pub lease_ip_net : Lease → Option IpNet
lease_ip_net l = elim (parse_subnet_mask l.opts) [
  | none ↦ none
  | some mask ↦ some (record { ip = l.your_ip; mask = mask })
]

unfoldable pub lease_gateway : Lease → Ip
lease_gateway l = parse_router l.opts

-- 0.0.0.0/0
abbrev pub default_net : IpNet
default_net = record { ip = 0 ∷ 0 ∷ 0 ∷ 0 ∷ []; mask = 0 ∷ 0 ∷ 0 ∷ 0 ∷ [] }

unfoldable pub lease_routes : Lease → List Route
lease_routes l =
    let classless = parse_cidr_routes l.opts in
    if ltb 0 (length classless)
    then classless
    else let gw = lease_gateway l in
      parse_routes l.opts ++ (if is_nil gw then [] else record { dst = default_net; gw = gw } ∷ [])
