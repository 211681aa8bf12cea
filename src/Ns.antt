-- ===== src/Ns.antt =====
-- pkg/ns/ns_linux.go: functions that run in a network namespace, on a thread of their own. The state is
-- the thread and the rest of the host.
pub mod Safe
pub mod Examples
use village_net.Common.{
  ℕ, ◌+◌, ◌-◌, Bool, true, false, if◌then◌else◌, List, [], ◌∷◌, Result, ok, err,
}
use village_net.HostLocal.Store.{Text}
use village_net.Cni.Effects.{
  Error, Eff, failed, not_found, pure, raise, attempt, ignore, failing_as, ◌>>=◌, ◌>>◌,
}

-- A thread of the operating system: its namespace, and how often its goroutine has locked it. A thread
-- whose goroutine ends while it is locked is not used again.
pub record Thread : Type 0 where
  pub ns : Text
  pub locks : ℕ

-- netNS: the namespace of its file.
pub record NetNs : Type 0 where
  pub path : Text
  pub ns : Text
  pub closed : Bool

pub data FsMagic : Type 0 where
  nsfs procfs other_fs : FsMagic

-- `thread_path` is the file of the thread's own namespace, `ns_of` the namespace that another file is of.
pub record NsHost (S : Type 0) : Type 0 where
  pub thread_path : Text
  pub ns_of : Text → S → Text
  pub statfs : Text → Eff S FsMagic
  pub open_file : Text → Eff S (Unit {0})
  pub close_file : Text → Eff S (Unit {0})
  pub setns : Text → Eff S (Unit {0})

abbrev pub is_ns_magic : FsMagic → Bool
is_ns_magic nsfs = true
is_ns_magic procfs = true
is_ns_magic other_fs = false

module _ {S : Type 0} (h : NsHost S) where
  -- A missing path keeps its error.
  abbrev pub statfs_error : Result Error FsMagic → Eff S FsMagic
  statfs_error (ok m) = pure m
  statfs_error (err not_found) = raise not_found
  statfs_error (err e) = raise failed

  unfoldable pub is_ns_or_err : Text → Eff S (Unit {0})
  is_ns_or_err nspath = do
    r ← attempt (h.statfs nspath)
    magic ← statfs_error r
    if is_ns_magic magic then pure tt else raise failed

  abbrev pub opened : Text → Eff S (Unit {0})
  opened nspath = is_ns_or_err nspath >> h.open_file nspath

  unfoldable pub get_ns : Text → Eff S NetNs
  unfolding is_ns_or_err
  get_ns nspath s =
      (opened nspath >> pure (record { path = nspath; ns = h.ns_of nspath s; closed = false })) s

  abbrev pub W : Type 0
  W = Thread × S

  abbrev pub on_host : {A : Type 0} → Eff S A → Eff W A
  on_host m (t, s) = let (r, s') = m s in (r, (t, s'))

  abbrev pub lock_thread : Eff W (Unit {0})
  lock_thread (t, s) = (ok tt, (record t { locks = t.locks + 1 }, s))

  abbrev pub unlock_thread : Eff W (Unit {0})
  unlock_thread (t, s) = (ok tt, (record t { locks = t.locks - 1 }, s))

  -- Deferred calls run however the function ends.
  abbrev pub finally : {A : Type 0} → Eff W A → Eff W (Unit {0}) → Eff W A
  finally m clean w = let (r, w') = m w in (r, (clean w').1)

  abbrev pub own_ns : Eff W NetNs
  own_ns (t, s) =
      (on_host (opened h.thread_path)
          >> pure (record { path = h.thread_path; ns = t.ns; closed = false }))
        (t, s)

  unfoldable pub get_current_ns : Eff W NetNs
  unfolding is_ns_or_err
  get_current_ns = lock_thread >> finally own_ns unlock_thread

  unfoldable pub close : NetNs → Eff S (Unit {0})
  close n = if n.closed then raise failed else failing_as failed (h.close_file n.path)

  abbrev pub moved : Text → Eff W (Unit {0})
  moved ns (t, s) = (ok tt, (record t { ns = ns }, s))

  unfoldable pub set : NetNs → Eff W (Unit {0})
  set n =
      if n.closed then raise failed else (failing_as failed (on_host (h.setns n.ns)) >> moved n.ns)

  module _ {A : Type 0} (to_run : NetNs → Eff W A) where
    -- The thread is unlocked only where it has gone back.
    abbrev pub unlock_behind : Result Error (Unit {0}) → Eff W (Unit {0})
    unlock_behind (ok u) = unlock_thread
    unlock_behind (err e) = pure tt

    abbrev pub switch_back : NetNs → Eff W (Unit {0})
    switch_back thread_ns w = let (r, w') = set thread_ns w in unlock_behind r w'

    abbrev pub contained_call : NetNs → NetNs → Eff W A
    contained_call n host_ns = failing_as failed get_current_ns >>= λ thread_ns.
        finally (failing_as failed (set n) >> finally (to_run host_ns) (switch_back thread_ns))
          (ignore (on_host (close thread_ns)))

    -- The goroutine of Do.
    unfoldable pub run_worker : NetNs → NetNs → Eff W A
    unfolding get_current_ns set close
    run_worker n host_ns = lock_thread >> contained_call n host_ns

    -- What the goroutine does to the thread that it runs on stays there.
    abbrev pub on_worker : Thread → Eff W A → Eff W A
    on_worker worker m (t, s) = let (r, w') = m (worker, s) in (r, (t, w'.1))

    unfoldable pub run_in : NetNs → Thread → Eff W A
    unfolding run_worker
    run_in n worker =
        if n.closed
        then raise failed
        else (failing_as failed get_current_ns >>= λ host_ns.
            finally (on_worker worker (run_worker n host_ns)) (ignore (on_host (close host_ns))))

    unfoldable pub with_net_ns_path : Text → Thread → Eff W A
    unfolding get_ns run_in
    with_net_ns_path nspath worker =
        on_host (get_ns nspath) >>= λ n. finally (run_in n worker) (ignore (on_host (close n)))
