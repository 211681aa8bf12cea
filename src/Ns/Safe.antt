-- ===== src/Ns/Safe.antt =====
-- That the threads of pkg/ns/ns_linux.go that are used again are in the namespace of the process.
use village_net.Common.{
  ◌+◌, ◌-◌, ◌≡◌, refl, ap, ◌∙◌, sym, subst, inl, inr, false, Bool-cases, Result-cases, ok, arith,
}
use village_net.HostLocal.Store.{Text}
use village_net.Cni.Effects.{Eff, failed, raise, failing_as, rename_error, rename_error-ok, ◌>>=◌}
use village_net.Cni.Within.{Within, bind-Within, if-Within, bind-ends}
use village_net.Ns.{
  Thread, NetNs, NsHost, W, opened, own_ns, get_current_ns, on_host, finally, moved, set,
  switch_back, contained_call, run_worker, run_in,
}

abbrev fewer_locks : Thread → Thread
fewer_locks t = record t { locks = t.locks - 1 }

-- A thread that is not locked is in the namespace of the process.
abbrev pub IsSafe : Text → Thread → Type 0
IsSafe home t = t.locks ≡ 0 → t.ns ≡ home

module _ {S : Type 0} (h : NsHost S) where
  -- The thread stays as it is, or only its locks do.
  abbrev SameThread : W h → W h → Type 0
  SameThread w w' = w'.0 ≡ w.0

  abbrev SameLocks : W h → W h → Type 0
  SameLocks w w' = w'.0.locks ≡ w.0.locks

  own_ns-SameThread : Within SameThread (own_ns h)
  own_ns-SameThread w =
      bind-Within SameThread (λ w. refl) (λ w w1 w2 a b. b ∙ a) (on_host h (opened h h.thread_path))
        _ (λ w. refl) (λ u w. refl) w

  relocked : (t : Thread) → record t { locks = t.locks + 1 - 1 } ≡ t
  relocked t =
      let same : t.locks + 1 - 1 ≡ t.locks = omega arith in ap (λ k. record t { locks = k }) same

  get_current_ns-SameThread : Within SameThread (get_current_ns h)
  unfolding get_current_ns
  get_current_ns-SameThread (t, s) =
      ap fewer_locks (own_ns-SameThread (record t { locks = t.locks + 1 }, s)) ∙ relocked t

  -- The namespace that is saved is that of the thread.
  get_current_ns-ok :
      (w : W h) (n : NetNs) → (get_current_ns h w).0 ≡ ok n → (n.ns ≡ w.0.ns) × (n.closed ≡ false)
  unfolding get_current_ns
  get_current_ns-ok (t, s) n e = elim (Result-cases (opened h h.thread_path s).0) [
    | inl (x, q) ↦ absurd (ground (arith, q, e))
    | inr (u, q) ↦
        let same : record { path = h.thread_path; ns = t.ns; closed = false } ≡ n =
          ground (arith, q, e) in
        (ap (λ m. m.ns) (sym same), ap (λ m. m.closed) (sym same))
  ]

  set-SameLocks : (n : NetNs) → Within SameLocks (set h n)
  unfolding set
  set-SameLocks n =
      if-Within SameLocks (λ w. refl) (λ w w1 w2 a b. b ∙ a) n.closed (raise failed) _ (λ w. refl)
        (bind-Within SameLocks (λ w. refl) (λ w w1 w2 a b. b ∙ a)
          (failing_as failed (on_host h (h.setns n.ns))) (λ u. moved h n.ns) (λ w. refl)
          (λ u w. refl))

  set-ok : (n : NetNs) (w : W h) → (set h n w).0 ≡ ok tt → (set h n w).1.0.ns ≡ n.ns
  unfolding set
  set-ok n w e = elim (Bool-cases n.closed) [
    | inl c ↦ absurd (ground (arith, c, e))
    | inr c ↦ elim (Result-cases (rename_error failed (h.setns n.ns w.1).0)) [
      | inl (x, q) ↦ absurd (ground (arith, c, q, e))
      | inr (u, q) ↦ rw (c, q) refl
    ]
  ]

  module _ {A : Type 0} (to_run : NetNs → Eff (W h) A)
      (balanced : (n : NetNs) → Within SameLocks (to_run n)) where
    locked-IsSafe : (home : Text) (t : Thread) → t.locks ≡ 1 → IsSafe home t
    locked-IsSafe home t one zero = absurd (omega arith)

    switch_back-IsSafe :
        (n : NetNs) (w : W h) → w.0.locks ≡ 1 → IsSafe n.ns (switch_back h to_run n w).1.0
    switch_back-IsSafe n w one = elim (Result-cases (set h n w).0) [
      | inl (x, q) ↦ rw q (locked-IsSafe n.ns (set h n w).1.0 (set-SameLocks n w ∙ one))
      | inr (u, q) ↦ rw q (λ z. set-ok n w q)
    ]

    contained_call-IsSafe :
        (n host_ns : NetNs) (w : W h)
        → w.0.locks ≡ 1
        → IsSafe w.0.ns (contained_call h to_run n host_ns w).1.0
    contained_call-IsSafe n host_ns w one =
        let current = failing_as failed (get_current_ns h) in
        let thread = get_current_ns-SameThread w in
        bind-ends (λ r w'. IsSafe w.0.ns w'.0) _ current w (λ e q z. ap (λ t. t.ns) thread)
          (λ thread_ns q.
            let (ns, still_open) =
              get_current_ns-ok w thread_ns
                (rename_error-ok failed (get_current_ns h w).0 thread_ns q) in
            let w1 = (get_current_ns h w).1 in
            let inner = failing_as failed (set h n) >>= λ u.
            finally h (to_run host_ns) (switch_back h to_run thread_ns) in
            let one1 = ap (λ t. t.locks) thread ∙ one in
            subst (λ home. IsSafe home (inner w1).1.0) ns
              (bind-ends (λ r w'. IsSafe thread_ns.ns w'.0)
                (λ u. finally h (to_run host_ns) (switch_back h to_run thread_ns))
                (failing_as failed (set h n)) w1
                (λ e q. locked-IsSafe thread_ns.ns (set h n w1).1.0 (set-SameLocks n w1 ∙ one1))
                (λ u q.
                  switch_back-IsSafe thread_ns (to_run host_ns (set h n w1).1).1
                    (balanced host_ns (set h n w1).1 ∙ set-SameLocks n w1 ∙ one1))))

    -- For a function that leaves the count of locks of its thread as it was, though perhaps in
    -- another namespace: a thread that is not locked and runs the goroutine of Do is afterwards,
    -- however the calls on the host and the function have ended, in the namespace that it was in
    -- or still locked, so that the runtime does not use it again; and the thread of the caller of
    -- Do is left as it was.
    pub run_in-IsSafe :
        (n host_ns : NetNs) (worker : Thread) (w : W h)
        → worker.locks ≡ 0
        → IsSafe worker.ns (run_worker h to_run n host_ns (worker, w.1)).1.0
          × ((run_in h to_run n worker w).1.0 ≡ w.0)
    unfolding run_worker run_in
    run_in-IsSafe n host_ns worker w free = (
      contained_call-IsSafe n host_ns (record worker { locks = worker.locks + 1 }, w.1)
          (omega arith),
      elim (Bool-cases n.closed) [
        | inl c ↦ rw c refl
        | inr c ↦ rw c (
            bind-Within SameThread (λ w. refl) (λ w w1 w2 a b. b ∙ a)
              (failing_as failed (get_current_ns h)) _ get_current_ns-SameThread (λ host_ns w. refl)
              w)
      ],
    )
