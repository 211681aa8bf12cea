-- ===== src/Dhcp/Maintain.antt =====
-- maintain of plugins/ipam/dhcp/lease.go: the loop that renews a lease, as steps of a machine whose
-- clock and network the environment chooses.
use village_net.Common.{
  ℕ, ◌+◌, ◌-◌, ◌<◌, ◌≤◌, ◌≡◌, ◌⊎◌, refl, ◌∙◌, ltb, leb, List, [], ◌∷◌, Option, none, some, arith,
  if◌then◌else◌,
}
use village_net.Dhcp.Options.{option_lease_time, parse_duration}
use village_net.Dhcp.Lease.{Lease, Packet, commit, renew, acquire}

pub data LeaseState : Type 0 where
  bound renewing rebinding : LeaseState

-- Whether the loop goes on, has brought the interface down, or has released the lease.
pub data Phase : Type 0 where
  running down released : Phase

pub record Machine : Type 0 where
  pub state : LeaseState
  pub lease : Lease
  pub clock : ℕ
  pub phase : Phase

-- What a round of the loop ends with: another round at once, a return, or a sleep.
pub data Outcome : Type 0 where
  again finished : Outcome
  sleep : ℕ → Outcome

-- A round in each state, with the answer of the network, if there is one, and the time behind it.
unfoldable pub round_bound : Machine → Machine × Outcome
round_bound m =
    if leb m.lease.renewal_time m.clock
    then (record m { state = renewing }, again)
    else (m, sleep (m.lease.renewal_time - m.clock))

unfoldable pub round_renewing : Machine → Option Packet → ℕ → Machine × Outcome
round_renewing m answer now =
    let (l, renewed) = renew m.lease answer now in
    let m' = record m { lease = l; clock = now } in
    if renewed
    then (record m' { state = bound }, sleep 0)
    else if ltb l.rebinding_time now
    then (record m' { state = rebinding }, sleep 0)
    else (m', sleep 0)

unfoldable pub round_rebinding : Machine → Option Packet → ℕ → Machine × Outcome
round_rebinding m answer now =
    let (l, rebound) = acquire m.lease answer now in
    let m' = record m { lease = l; clock = now } in
    if rebound
    then (record m' { state = bound }, sleep 0)
    else if ltb l.expire_time now
    then (record m' { phase = down }, finished)
    else (m', sleep 0)

abbrev round_in : LeaseState → Machine → Option Packet → ℕ → Machine × Outcome
round_in bound m answer now = round_bound m
round_in renewing m answer now = round_renewing m answer now
round_in rebinding m answer now = round_rebinding m answer now

unfoldable pub round : Machine → Option Packet → ℕ → Machine × Outcome
unfolding round_bound round_renewing round_rebinding
round m answer now = round_in m.state m answer now

-- How long a round sleeps.
abbrev pub pause : Outcome → ℕ
pause (sleep d) = d
pause _ = 0

-- The loop's steps: a round with its sleep, and a stop while it sleeps, which releases the lease.
pub data Step (m : Machine) (m' : Machine) : Type 0 where
  turn :
      (answer : Option Packet) (now later : ℕ)
      → m.phase ≡ running
      → m.clock ≤ now
      → (round m answer now).0.clock + pause (round m answer now).1 ≤ later
      → m' ≡ record (round m answer now).0 { clock = later }
      → Step m m'
  stop :
      (answer : Option Packet) (now d : ℕ)
      → m.phase ≡ running
      → m.clock ≤ now
      → (round m answer now).1 ≡ sleep d
      → m' ≡ record (round m answer now).0 { phase = released }
      → Step m m'

pub data Reach (m : Machine) : Machine → Type 0 where
  here : Reach m m
  further : {m' m'' : Machine} → Reach m m' → Step m' m'' → Reach m m''

-- A lease is renewed behind its renewal time, rebound behind its rebinding time, and the interface
-- is down only behind its end.
pub record IsTimely (m : Machine) : Type 0 where
  pub renews_late : m.state ≡ renewing → m.lease.renewal_time ≤ m.clock
  pub rebinds_late : m.state ≡ rebinding → m.lease.rebinding_time < m.clock
  pub expires_late : m.phase ≡ down → m.lease.expire_time < m.clock

turn-IsTimely :
    (m : Machine) (answer : Option Packet) (now later : ℕ)
    → IsTimely m
    → m.phase ≡ running
    → m.clock ≤ now
    → (round m answer now).0.clock ≤ later
    → IsTimely (record (round m answer now).0 { clock = later })
unfolding round renew acquire
turn-IsTimely m answer now later w p c l = ground arith

stop-IsTimely :
    (m : Machine) (answer : Option Packet) (now : ℕ)
    → IsTimely m
    → m.phase ≡ running
    → m.clock ≤ now
    → IsTimely (record (round m answer now).0 { phase = released })
unfolding round renew acquire
stop-IsTimely m answer now w p c = ground arith

Step-IsTimely : (m m' : Machine) → Step m m' → IsTimely m → IsTimely m'
Step-IsTimely m m' (turn answer now later p c l e) w =
    rw e (turn-IsTimely m answer now later w p c (omega (arith, l)))
Step-IsTimely m m' (stop answer now d p c q e) w = rw e (stop-IsTimely m answer now w p c)

-- From a state of the loop of maintain in which this holds, every state that its steps reach is
-- one in which a lease is being renewed only from its renewal time on, rebound only behind its
-- rebinding time, and the interface is down only behind the lease's end.
pub Reach-IsTimely : {m m' : Machine} → Reach m m' → IsTimely m → IsTimely m'
Reach-IsTimely here w = w
Reach-IsTimely (further {m'} {m''} r st) w = Step-IsTimely m' m'' st (Reach-IsTimely r w)

-- Rounds that are each answered by one packet, at the times of a list.
unfoldable pub rounds : Packet → Machine → List ℕ → Machine
rounds ack m [] = m
rounds ack m (now ∷ times) = rounds ack (round m (some ack) now).0 times

round_without_time :
    (ack : Packet) (m : Machine) (now : ℕ)
    → parse_duration ack.options option_lease_time ≡ none
    → (m.state ≡ bound) ⊎ (m.state ≡ renewing)
    → ((round m (some ack) now).0.lease ≡ m.lease)
      × ((round m (some ack) now).0.phase ≡ m.phase)
      × (((round m (some ack) now).0.state ≡ bound) ⊎ ((round m (some ack) now).0.state ≡ renewing))
unfolding round renew commit
round_without_time ack m now q s = ground (arith, q)

-- Where every renewal is answered by a packet without a lease time, the rounds of maintain from
-- the bound or the renewing state never change the lease nor bring the interface down, however
-- late it is.
pub rounds_without_time :
    (ack : Packet) (m : Machine) (times : List ℕ)
    → parse_duration ack.options option_lease_time ≡ none
    → (m.state ≡ bound) ⊎ (m.state ≡ renewing)
    → ((rounds ack m times).lease ≡ m.lease) × ((rounds ack m times).phase ≡ m.phase)
unfolding rounds
rounds_without_time ack m [] q s = (refl, refl)
rounds_without_time ack m (now ∷ times) q s =
    let (l, p, s') = round_without_time ack m now q s in
    let (l', p') = rounds_without_time ack (round m (some ack) now).0 times q s' in (l' ∙ l, p' ∙ p)
