-- ===== src/Dhcp/Daemon.antt =====
-- plugins/ipam/dhcp/daemon.go and main.go: the daemon's leases by client, and the plugin's commands.
-- A lease that was acquired is maintained by a task of its own until it is stopped; tasks have
-- numbers here. Whether a lease is acquired is the network's choice.
use village_net.Common.{
  ℕ, ◌≡◌, ◌==◌, Bool, true, false, ◌||◌, List, [], ◌∷◌, ◌++◌, Option, none, some, arith,
  if◌then◌else◌, text_eq, text_eq_refl, find, insert, erase, find-insert, find-erase, codes, Result,
  ok, err,
}
use village_net.Net.{Ip, IpNet}
use village_net.HostLocal.Store.{Text}
use village_net.Cni.{Route}
use village_net.Dhcp.Lease.{Lease, lease_ip_net, lease_gateway, lease_routes}

pub record Daemon : Type 0 where
  pub leases : List (Text × ℕ)
  pub maintained : List ℕ

pub record Allocated : Type 0 where
  pub address : IpNet
  pub gateway : Ip
  pub routes : List Route

pub data Error : Type 0 where
  not_acquired no_subnet_mask : Error

abbrev pub maintains : ℕ → List ℕ → Bool
maintains t [] = false
maintains t (u ∷ us) = t == u || maintains t us

abbrev pub stop_task : ℕ → List ℕ → List ℕ
stop_task t [] = []
stop_task t (u ∷ us) = let rest = stop_task t us in if t == u then rest else u ∷ rest

-- generateClientID
unfoldable pub generate_client_id : Text → Text → Text → Text
generate_client_id container net_name if_name =
    container ++ (codes "/" ++ (net_name ++ (codes "/" ++ if_name)))

-- Allocate, with the task and the lease that AcquireLease returns, if it does.
unfoldable pub allocate : Text → Option (ℕ × Lease) → Daemon → Result Error Allocated × Daemon
allocate client none d = (err not_acquired, d)
allocate client (some (task, l)) d = elim (lease_ip_net l) [
  | none ↦ (err no_subnet_mask, d)
  | some ipn ↦ (
    ok (record { address = ipn; gateway = lease_gateway l; routes = lease_routes l }),
    record { leases = insert client task d.leases; maintained = task ∷ d.maintained },
  )
]

-- Release: a client without a lease is no error.
unfoldable pub release : Text → Daemon → Daemon
release client d = elim (find client d.leases) [
  | none ↦ d
  | some task ↦ record { leases = erase client d.leases; maintained = stop_task task d.maintained }
]

-- The plugin's commands, which call the daemon; CHECK allocates as ADD does.
unfoldable pub cmd_add : Text → Option (ℕ × Lease) → Daemon → Result Error Allocated × Daemon
unfolding allocate
cmd_add client acquired d = allocate client acquired d

unfoldable pub cmd_check : Text → Option (ℕ × Lease) → Daemon → Result Error Allocated × Daemon
unfolding allocate
cmd_check client acquired d = allocate client acquired d

unfoldable pub cmd_del : Text → Daemon → Daemon
unfolding release
cmd_del client d = release client d

maintains-stop_task :
    (t u : ℕ) (us : List ℕ)
    → maintains t (stop_task u us) ≡ (if t == u then false else maintains t us)
maintains-stop_task t u [] = ground arith
maintains-stop_task t u (x ∷ us) = ground (arith, maintains-stop_task t u us)

-- Where a lease with a subnet mask is acquired by a task that is not running yet, DEL behind ADD
-- leaves the client without a lease, another client's as it was, that task stopped, and every
-- other task as it was.
pub cmd_del-cmd_add :
    (client other : Text) (task : ℕ) (l : Lease) (ipn : IpNet) (d : Daemon)
    → lease_ip_net l ≡ some ipn
    → maintains task d.maintained ≡ false
    → text_eq client other ≡ false
    → let d' = cmd_del client (cmd_add client (some (task, l)) d).1 in
      (find client d'.leases ≡ none)
      × (find other d'.leases ≡ find other d.leases)
      × (maintains task d'.maintained ≡ false)
      × ((t : ℕ) → (t == task) ≡ false → maintains t d'.maintained ≡ maintains t d.maintained)
unfolding cmd_del cmd_add
cmd_del-cmd_add client other task l ipn d q n ne =
    let there : find client (insert client task d.leases) ≡ some task =
      ground (arith, find-insert client client task d.leases, text_eq_refl client) in
    (
      ground (
        arith,
        q,
        there,
        find-erase client client (insert client task d.leases),
        text_eq_refl client,
      ),
      ground (
        arith,
        q,
        there,
        find-erase other client (insert client task d.leases),
        find-insert other client task d.leases,
        ne,
      ),
      ground (arith, q, there, maintains-stop_task task task (task ∷ d.maintained)),
      λ t e. ground (arith, q, there, e, maintains-stop_task t task (task ∷ d.maintained)),
    )

-- Where ADD and CHECK each acquire a lease with a subnet mask, by different tasks, DEL behind
-- them leaves the client without a lease and the task of ADD still maintaining its own.
pub cmd_check-leaks :
    (client : Text) (task task' : ℕ) (l l' : Lease) (ipn ipn' : IpNet) (d : Daemon)
    → lease_ip_net l ≡ some ipn
    → lease_ip_net l' ≡ some ipn'
    → (task == task') ≡ false
    → let d' =
        cmd_del client
          (cmd_check client (some (task', l')) (cmd_add client (some (task, l)) d).1).1 in
      (find client d'.leases ≡ none) × (maintains task d'.maintained ≡ true)
unfolding cmd_del cmd_check cmd_add
cmd_check-leaks client task task' l l' ipn ipn' d q q' ne =
    let m = insert client task d.leases in
    let there : find client (insert client task' m) ≡ some task' =
      ground (arith, find-insert client client task' m, text_eq_refl client) in
    (
      ground (
        arith,
        q,
        q',
        there,
        find-erase client client (insert client task' m),
        text_eq_refl client,
      ),
      ground
          (arith, q, q', there, ne, maintains-stop_task task task' (task' ∷ task ∷ d.maintained)),
    )
