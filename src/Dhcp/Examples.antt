-- ===== src/Dhcp/Examples.antt =====
-- The DHCP plugin at concrete options, times and clients.
use village_net.Common.{
  ℕ, ◌+◌, ◌-◌, ◌*◌, ◌<◌, ◌≤◌, ◌≡◌, inl, refl, ◌==◌, true, false, List, [], ◌∷◌, Option, none, some,
  arith, if◌then◌else◌, length, codes, text_eq, find,
}
use village_net.Net.{IpNet}
use village_net.HostLocal.Store.{Text}
use village_net.Dhcp.Options.{
  Opts, option_classless_route_format, option_subnet_mask, option_lease_time, second,
  parse_duration, parse_subnet_mask, parse_cidr_routes,
}
use village_net.Dhcp.Routes.{
  Classless, IsClassless, encode_all, routes_of, parse_cidr_routes-encode_all,
}
use village_net.Dhcp.Lease.{
  Lease, Packet, commit, rebinding_of, renewal_of, mul64, div64, lt64, time_add, lease_ip_net,
  backoff_loop, backoff_retry,
}
use village_net.Dhcp.Times.{
  commit_in_order, commit_overflow, first_success, backoff_retry-first_success,
}
use village_net.Dhcp.Maintain.{
  Machine, Step, IsTimely, bound, renewing, running, turn, further, here, round, round_bound,
  rounds, Reach-IsTimely, rounds_without_time,
}
use village_net.Dhcp.Daemon.{
  Daemon, maintains, cmd_add, cmd_check, cmd_del, cmd_del-cmd_add, cmd_check-leaks,
}

-- A lease of some seconds, by the four bytes of the option.
abbrev lasting : List ℕ → Opts
lasting t option_lease_time = some t
lasting t option_subnet_mask = some (255 ∷ 255 ∷ 255 ∷ 0 ∷ [])
lasting t _ = none

abbrev hour : Packet
hour = record { options = lasting (0 ∷ 0 ∷ 14 ∷ 16 ∷ []); yi_addr = 10 ∷ 0 ∷ 0 ∷ 7 ∷ [] }

-- 2 ^ 27 seconds
abbrev years : Packet
years = record { options = lasting (8 ∷ 0 ∷ 0 ∷ 0 ∷ []); yi_addr = 10 ∷ 0 ∷ 0 ∷ 7 ∷ [] }

abbrev lease_hour : Lease
lease_hour = record {
  opts = hour.options;
  your_ip = hour.yi_addr;
  renewal_time = 1000 + 1800000000000;
  rebinding_time = 1000 + 3060000000000;
  expire_time = 1000 + 3600000000000;
}

commit-hour : commit hour 1000 ≡ some lease_hour
unfolding commit rebinding_of renewal_of mul64 div64 lt64 time_add parse_duration
commit-hour = refl

commit_in_order_example :
    (1000 ≤ lease_hour.renewal_time)
    × (lease_hour.renewal_time ≤ lease_hour.rebinding_time)
    × (lease_hour.rebinding_time ≤ lease_hour.expire_time)
    × (lease_hour.expire_time ≡ 1000 + 3600 * second)
unfolding parse_duration
commit_in_order_example =
    commit_in_order hour 1000 3600 lease_hour refl (omega arith) tt tt commit-hour

abbrev since_year_one : ℕ
since_year_one = 63800000000000000000

abbrev lease_years : Lease
lease_years = record {
  opts = years.options;
  your_ip = years.yi_addr;
  renewal_time = since_year_one + 67108864000000000;
  rebinding_time = since_year_one - 70382371937095516;
  expire_time = since_year_one + 134217728000000000;
}

commit-years : commit years since_year_one ≡ some lease_years
unfolding commit rebinding_of renewal_of mul64 div64 lt64 time_add parse_duration
commit-years = refl

commit_overflow_example : lease_years.rebinding_time < since_year_one
unfolding parse_duration
commit_overflow_example =
    commit_overflow years since_year_one 134217728 lease_years refl refl (omega arith) (omega arith)
      (omega arith) commit-years

-- A server that answers the third request, and one that never answers.
abbrev third_time : ℕ → Option Packet
third_time n = if n == 2 then some hour else none

backoff_retry-first_success_example :
    (ds : List ℕ) × (backoff_retry third_time 5 ≡ some (first_success third_time 5 0, ds))
    × (length ds ≤ 5)
backoff_retry-first_success_example = backoff_retry-first_success third_time 5 (omega arith)

retried : backoff_retry third_time 5 ≡ some (some hour, 4 ∷ 8 ∷ [])
unfolding backoff_retry backoff_loop
retried = refl

given_up : backoff_retry {P = Packet} (λ n. none) 5 ≡ some (none, 4 ∷ 8 ∷ 16 ∷ 32 ∷ 64 ∷ [])
unfolding backoff_retry backoff_loop
given_up = refl

-- Two classless routes, and a byte that is left over.
abbrev default_route : Classless
default_route = record { width = 0; prefix = []; gateway = 10 ∷ 0 ∷ 0 ∷ 1 ∷ [] }

abbrev private_route : Classless
private_route = record { width = 12; prefix = 172 ∷ 16 ∷ []; gateway = 10 ∷ 0 ∷ 0 ∷ 2 ∷ [] }

abbrev with_routes : Opts
with_routes option_classless_route_format =
    some (encode_all (default_route ∷ private_route ∷ []) (9 ∷ []))
with_routes _ = none

default_route-IsClassless : IsClassless default_route
default_route-IsClassless = record {
  narrow = omega arith;
  covers = omega arith;
  compact = omega arith;
  gateway_size = refl;
}

private_route-IsClassless : IsClassless private_route
private_route-IsClassless = record {
  narrow = omega arith;
  covers = omega arith;
  compact = omega arith;
  gateway_size = refl;
}

parse_cidr_routes-encode_all_example :
    parse_cidr_routes with_routes ≡ routes_of (default_route ∷ private_route ∷ [])
parse_cidr_routes-encode_all_example =
    parse_cidr_routes-encode_all with_routes (default_route ∷ private_route ∷ []) (9 ∷ []) refl
      (default_route-IsClassless, (private_route-IsClassless, tt)) (omega arith)

-- A lease that has just been acquired, and the round that begins to renew it.
abbrev fresh : Machine
fresh = record { state = bound; lease = lease_hour; clock = 1000; phase = running }

abbrev due : Machine
due = record fresh { clock = 1000 + 1800000000000 }

fresh-IsTimely : IsTimely fresh
fresh-IsTimely = record {
  renews_late = λ e. absurd (ground (arith, e));
  rebinds_late = λ e. absurd (ground (arith, e));
  expires_late = λ e. absurd (ground (arith, e));
}

fresh-due : Step fresh due
unfolding round round_bound
fresh-due = turn none 1000 (1000 + 1800000000000) refl (omega arith) (omega arith) refl

due-renewing : Step due (record due { state = renewing })
unfolding round round_bound
due-renewing =
    turn none (1000 + 1800000000000) (1000 + 1800000000000) refl (omega arith) (omega arith) refl

Reach-IsTimely_example : IsTimely (record due { state = renewing })
Reach-IsTimely_example =
    Reach-IsTimely (further (further here fresh-due) due-renewing) fresh-IsTimely

-- Acknowledgements without the time of the lease.
abbrev timeless : Packet
timeless = record { options = λ code. none; yi_addr = hour.yi_addr }

rounds_without_time_example :
    ((rounds timeless due (5000000000000 ∷ 9000000000000 ∷ [])).lease ≡ lease_hour)
    × ((rounds timeless due (5000000000000 ∷ 9000000000000 ∷ [])).phase ≡ running)
unfolding parse_duration
rounds_without_time_example =
    rounds_without_time timeless due (5000000000000 ∷ 9000000000000 ∷ []) refl (inl refl)

abbrev idle : Daemon
idle = record { leases = (codes "c0/n/eth0", 7) ∷ []; maintained = 7 ∷ [] }

abbrev net_hour : IpNet
net_hour = record { ip = hour.yi_addr; mask = 255 ∷ 255 ∷ 255 ∷ 0 ∷ [] }

lease_ip_net_hour : lease_ip_net lease_hour ≡ some net_hour
unfolding lease_ip_net parse_subnet_mask
lease_ip_net_hour = refl

abbrev client : Text
client = codes "c1/n/eth0"

cmd_del-cmd_add_example :
    let d' = cmd_del client (cmd_add client (some (8, lease_hour)) idle).1 in
    (find client d'.leases ≡ none)
    × (find (codes "c0/n/eth0") d'.leases ≡ find (codes "c0/n/eth0") idle.leases)
    × (maintains 8 d'.maintained ≡ false)
    × ((t : ℕ) → (t == 8) ≡ false → maintains t d'.maintained ≡ maintains t idle.maintained)
unfolding text_eq
cmd_del-cmd_add_example =
    cmd_del-cmd_add client (codes "c0/n/eth0") 8 lease_hour net_hour idle lease_ip_net_hour refl
      refl

cmd_check-leaks_example :
    let d' =
      cmd_del client
        (cmd_check client
          (some (9, lease_hour))
          (cmd_add client (some (8, lease_hour)) idle).1).1 in
    (find client d'.leases ≡ none) × (maintains 8 d'.maintained ≡ true)
cmd_check-leaks_example =
    cmd_check-leaks client 8 9 lease_hour lease_hour net_hour net_hour idle lease_ip_net_hour
      lease_ip_net_hour refl
