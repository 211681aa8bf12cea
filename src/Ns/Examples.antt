-- ===== src/Ns/Examples.antt =====
-- A thread of a process in the namespace h, and a function that runs in the namespace c.
use village_net.Common.{◌≡◌, refl, List, [], ◌∷◌, ok, codes, false}
use village_net.HostLocal.Store.{Text}
use village_net.Cni.Effects.{Eff}
use village_net.Ns.{Thread, NetNs, NsHost, nsfs, W, moved, run_worker, run_in}
use village_net.Ns.Safe.{IsSafe, run_in-IsSafe}

abbrev host : NsHost (List Text)
host = record {
  thread_path = codes "/proc/1/task/1/ns/net";
  ns_of = λ path s. path;
  statfs = λ path s. (ok nsfs, s);
  open_file = λ path s. (ok tt, path ∷ s);
  close_file = λ path s. (ok tt, s);
  setns = λ ns s. (ok tt, s);
}

-- The function leaves the thread in a third namespace.
abbrev wander : NetNs → Eff (W host) (Unit {0})
wander n = moved host (codes "elsewhere")

abbrev container : NetNs
container = record { path = codes "/c"; ns = codes "c"; closed = false }

abbrev process : Thread
process = record { ns = codes "h"; locks = 0 }

run_in-IsSafe_example :
    IsSafe (codes "h") (run_worker host wander container container (process, [])).1.0
    × ((run_in host wander container process (process, [])).1.0 ≡ process)
run_in-IsSafe_example =
    run_in-IsSafe host wander (λ n w. refl) container container process (process, []) refl
