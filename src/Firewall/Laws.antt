-- ===== src/Firewall/Laws.antt =====
-- That the checks of plugins/meta/firewall/iptables.go accept what its additions have made.
use village_net.Common.{
  ◌≡◌, refl, Bool, true, List, [], ◌∷◌, arith, ok, All, Bool-cases, inl, inr, subst, ap,
}
use village_net.HostLocal.Store.{Text}
use village_net.Cni.Effects.{for_each, for_each-same, succeeds, on_error-cases, ◌>>=◌}
use village_net.IpTables.{IpTables, Rule, one_of, ensure_chain}
use village_net.IpTables.Laws.{
  IpTablesLaws, Keeps, Keeps-refl, Keeps-trans, All-Keeps, ensure_chain-adds, ensure_chain-there,
  for_each-adds,
}
use village_net.Firewall.Rules.{
  IptablesBackend, filter, forward, generate_filter_rule, generate_admin_rule,
  ensure_first_chain_rule, setup_chains, cleanup_rules, append_rules, add_rules, require_rule,
  check_rules,
}

module _ {S : Type 0} (chains : S → Text → List Text)
    (has_rule : S → Text → Text → Rule → Bool) where
  -- What the check of a family looks for.
  pub record IsInstalled (ib : IptablesBackend) (rules : List Rule) (s : S) : Type 0 where
    pub priv_there : one_of ib.priv_chain (chains s filter) ≡ true
    pub admin_there : one_of ib.admin_chain (chains s filter) ≡ true
    pub jump : has_rule s filter forward (generate_filter_rule ib.priv_chain) ≡ true
    pub admin_jump : has_rule s filter ib.priv_chain (generate_admin_rule ib.admin_chain) ≡ true
    pub own_rules : All (λ r. has_rule s filter ib.priv_chain r ≡ true) rules

  pub IsInstalled-Keeps :
      (ib : IptablesBackend) (rules : List Rule) (s s' : S)
      → Keeps chains has_rule s s'
      → IsInstalled ib rules s
      → IsInstalled ib rules s'
  IsInstalled-Keeps ib rules s s' k w = record {
    priv_there = k.chain filter ib.priv_chain w.priv_there;
    admin_there = k.chain filter ib.admin_chain w.admin_there;
    jump = k.rule filter forward (generate_filter_rule ib.priv_chain) w.jump;
    admin_jump = k.rule filter ib.priv_chain (generate_admin_rule ib.admin_chain) w.admin_jump;
    own_rules = All-Keeps chains has_rule filter ib.priv_chain (λ r. r) rules s s' k w.own_rules;
  }

  module _ (ipt : IpTables S) (laws : IpTablesLaws chains has_rule ipt) (ib : IptablesBackend) where
    ensure_first_chain_rule-adds :
        (c : Text) (r : Rule) (s s' : S)
        → ensure_first_chain_rule ipt c r s ≡ (ok tt, s')
        → (has_rule s' filter c r ≡ true) × Keeps chains has_rule s s'
    unfolding ensure_first_chain_rule
    ensure_first_chain_rule-adds c r s s' e = elim (Bool-cases (has_rule s filter c r)) [
      | inl h ↦
          let same : s ≡ s' = ground (arith, laws.rule_read s filter c r, h, e) in
          subst (λ x. (has_rule x filter c r ≡ true) × Keeps chains has_rule s x) same
            (h, Keeps-refl chains has_rule s)
      | inr h ↦
          let run : ipt.insert_first filter c r s ≡ (ok tt, s') =
            ground (arith, laws.rule_read s filter c r, h, e) in
          (
            laws.insert_adds s s' filter c r run,
            subst (Keeps chains has_rule s) (ap (λ x. x.1) run) (laws.insert_keeps s filter c r),
          )
    ]

    append_rules-adds :
        (rules : List Rule) (s s' : S)
        → append_rules ipt ib rules s ≡ (ok tt, s')
        → All (λ r. has_rule s' filter ib.priv_chain r ≡ true) rules × Keeps chains has_rule s s'
    unfolding append_rules
    append_rules-adds rules s s' e =
        let loop = for_each rules (ipt.append_unique filter ib.priv_chain) in
        elim (on_error-cases loop (cleanup_rules ipt ib.priv_chain rules) s) [
          | inl (x, s1, q, q') ↦ absurd (ground (arith, q', e))
          | inr (u, s1, q, q') ↦
              let run : loop s ≡ (ok tt, s') = ground (arith, q, q', e) in
              for_each-adds chains has_rule ipt laws filter ib.priv_chain (λ r. r)
                (ipt.append_unique filter ib.priv_chain)
                (λ r a b run. (
                  laws.append_unique_adds a b filter ib.priv_chain r run,
                  subst (Keeps chains has_rule a) (ap (λ x. x.1) run)
                      (laws.append_unique_keeps a filter ib.priv_chain r),
                ))
                rules s s' run
        ]

    pub add_rules-IsInstalled :
        (r : Rule) (rs : List Rule) (s s' : S)
        → add_rules ipt ib (r ∷ rs) s ≡ (ok tt, s')
        → IsInstalled ib (r ∷ rs) s'
    unfolding add_rules setup_chains
    add_rules-IsInstalled r rs s s' e =
        let (u, s5, q, q5) =
          succeeds (setup_chains ipt ib) (λ w. append_rules ipt ib (r ∷ rs)) s s' tt e in
        let admin = ensure_chain ipt filter ib.admin_chain in
        let first = ensure_first_chain_rule ipt forward (generate_filter_rule ib.priv_chain) in
        let second =
          ensure_first_chain_rule ipt ib.priv_chain (generate_admin_rule ib.admin_chain) in
        let (u1, s1, q1, r1) =
          succeeds (ensure_chain ipt filter ib.priv_chain)
            (λ w. admin >>= λ w. first >>= λ w. second) s s5 u q in
        let (u2, s2, q2, r2) = succeeds admin (λ w. first >>= λ w. second) s1 s5 u r1 in
        let (u3, s3, q3, r3) = succeeds first (λ w. second) s2 s5 u r2 in
        let (there, k1) = ensure_chain-adds chains has_rule ipt laws filter ib.priv_chain s s1 q1 in
        let (admin_there, k2) =
          ensure_chain-adds chains has_rule ipt laws filter ib.admin_chain s1 s2 q2 in
        let (jump, k3) =
          ensure_first_chain_rule-adds forward (generate_filter_rule ib.priv_chain) s2 s3 q3 in
        let (admin_jump, k4) =
          ensure_first_chain_rule-adds ib.priv_chain (generate_admin_rule ib.admin_chain) s3 s5
            r3 in
        let (own, k5) = append_rules-adds (r ∷ rs) s5 s' q5 in
        let k35 = Keeps-trans chains has_rule s3 s5 s' k4 k5 in
        let k25 = Keeps-trans chains has_rule s2 s3 s' k3 k35 in
        record {
          priv_there = k25.chain filter ib.priv_chain (k2.chain filter ib.priv_chain there);
          admin_there = k25.chain filter ib.admin_chain admin_there;
          jump = k35.rule filter forward (generate_filter_rule ib.priv_chain) jump;
          admin_jump = k5.rule filter ib.priv_chain (generate_admin_rule ib.admin_chain) admin_jump;
          own_rules = own;
        }

    require_rule-there :
        (c : Text) (r : Rule) (s : S)
        → has_rule s filter c r ≡ true
        → require_rule ipt c r s ≡ (ok tt, s)
    unfolding require_rule
    require_rule-there c r s h = ground (arith, laws.rule_read s filter c r, h)

    pub check_rules-IsInstalled :
        (rules : List Rule) (s : S)
        → IsInstalled ib rules s
        → check_rules ipt ib rules s ≡ (ok tt, s)
    unfolding check_rules
    check_rules-IsInstalled [] s w = refl
    check_rules-IsInstalled (r ∷ rs) s w =
        rw
          (
            ensure_chain-there chains has_rule ipt laws filter ib.priv_chain s w.priv_there,
            ensure_chain-there chains has_rule ipt laws filter ib.admin_chain s w.admin_there,
            require_rule-there forward (generate_filter_rule ib.priv_chain) s w.jump,
            require_rule-there ib.priv_chain (generate_admin_rule ib.admin_chain) s w.admin_jump,
          )
          (for_each-same (λ r. has_rule s filter ib.priv_chain r ≡ true)
            (require_rule ipt ib.priv_chain) s (r ∷ rs)
            (λ r' h. require_rule-there ib.priv_chain r' s h) w.own_rules)
