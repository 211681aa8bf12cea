-- ===== src/Portmap/ChainLaws.antt =====
-- That check of plugins/meta/portmap/chain.go accepts what setup has made.
use village_net.Common.{
  ◌≡◌, inl, inr, Bool, true, false, List, [], ◌∷◌, arith, ok, All, Bool-cases, subst, ap,
}
use village_net.Cni.Effects.{for_each, succeeds, ◌>>◌}
use village_net.HostLocal.Store.{Text}
use village_net.IpTables.{IpTables, Rule, one_of, ensure_chain}
use village_net.IpTables.Laws.{
  IpTablesLaws, Keeps, Keeps-refl, Keeps-trans, All-Keeps, ensure_chain-adds, for_each-adds,
}
use village_net.Portmap.Chain.{Chain, entry_rule, insert_unique, setup}

module _ {S : Type 0} (chains : S → Text → List Text)
    (has_rule : S → Text → Text → Rule → Bool) where
  -- What check looks for.
  pub record IsSetUp (c : Chain) (s : S) : Type 0 where
    pub there : one_of c.name (chains s c.table) ≡ true
    pub own_rules : All (λ r. has_rule s c.table c.name r ≡ true) c.rules
    pub entries :
        All
          (λ entry. All (λ r. has_rule s c.table entry (entry_rule c r) ≡ true) c.entry_rules)
          c.entry_chains

  module _ (ipt : IpTables S) (laws : IpTablesLaws chains has_rule ipt) where
    insert_unique-adds :
        (t c : Text) (p : Bool) (r : Rule) (s s' : S)
        → insert_unique ipt t c p r s ≡ (ok tt, s')
        → (has_rule s' t c r ≡ true) × Keeps chains has_rule s s'
    unfolding insert_unique
    insert_unique-adds t c p r s s' e = elim (Bool-cases (has_rule s t c r)) [
      | inl h ↦
          let same : s ≡ s' = ground (arith, laws.rule_read s t c r, h, e) in
          subst (λ x. (has_rule x t c r ≡ true) × Keeps chains has_rule s x) same
            (h, Keeps-refl chains has_rule s)
      | inr h ↦ elim (Bool-cases p) [
        | inl q ↦
            let run : ipt.insert_first t c r s ≡ (ok tt, s') =
              ground (arith, laws.rule_read s t c r, h, q, e) in
            (
              laws.insert_adds s s' t c r run,
              subst (Keeps chains has_rule s) (ap (λ x. x.1) run) (laws.insert_keeps s t c r),
            )
        | inr q ↦
            let run : ipt.append_rule t c r s ≡ (ok tt, s') =
              ground (arith, laws.rule_read s t c r, h, q, e) in
            (
              laws.append_adds s s' t c r run,
              subst (Keeps chains has_rule s) (ap (λ x. x.1) run) (laws.append_keeps s t c r),
            )
      ]
    ]

    insertions-add :
        (t c : Text) (p : Bool) (f : Rule → Rule) (rs : List Rule) (s s' : S)
        → for_each rs (λ r. insert_unique ipt t c p (f r)) s ≡ (ok tt, s')
        → All (λ r. has_rule s' t c (f r) ≡ true) rs × Keeps chains has_rule s s'
    insertions-add t c p f =
        for_each-adds chains has_rule ipt laws t c f (λ r. insert_unique ipt t c p (f r))
          (λ r. insert_unique-adds t c p (f r))

    entries-adds :
        (t : Text) (p : Bool) (f : Rule → Rule) (rs : List Rule) (entries : List Text) (s s' : S)
        → for_each entries (λ entry. for_each rs (λ r. insert_unique ipt t entry p (f r))) s
          ≡ (ok tt, s')
        → All (λ entry. All (λ r. has_rule s' t entry (f r) ≡ true) rs) entries
          × Keeps chains has_rule s s'
    entries-adds t p f rs [] s s' e =
        (tt, subst (Keeps chains has_rule s) (ap (λ x. x.1) e) (Keeps-refl chains has_rule s))
    entries-adds t p f rs (entry ∷ entries) s s' e =
        let (u, s1, q, q') =
          succeeds (for_each rs (λ r. insert_unique ipt t entry p (f r)))
            (λ w. for_each entries (λ entry. for_each rs (λ r. insert_unique ipt t entry p (f r))))
            s s' tt e in
        let (h, k) = insertions-add t entry p f rs s s1 q in
        let (hs, k') = entries-adds t p f rs entries s1 s' q' in
        (
          (All-Keeps chains has_rule t entry f rs s1 s' k' h, hs),
          Keeps-trans chains has_rule s s1 s' k k',
        )

    pub setup-IsSetUp :
        (c : Chain) (s s' : S)
        → setup ipt c s ≡ (ok tt, s')
        → IsSetUp c s' × Keeps chains has_rule s s'
    unfolding setup
    setup-IsSetUp c s s' e =
        let entry_loop = for_each c.entry_chains (λ entry.
          for_each c.entry_rules
            (λ rule. insert_unique ipt c.table entry c.prepend_entry (entry_rule c rule))) in
        let rule_loop = for_each c.rules (insert_unique ipt c.table c.name false) in
        let (u, s1, q, e1) =
          succeeds (ensure_chain ipt c.table c.name) (λ w. rule_loop >> entry_loop) s s' tt e in
        let (u', s2, q', e2) = succeeds rule_loop (λ w. entry_loop) s1 s' tt e1 in
        let (there, k) = ensure_chain-adds chains has_rule ipt laws c.table c.name s s1 q in
        let (own, k') = insertions-add c.table c.name false (λ r. r) c.rules s1 s2 q' in
        let (entries, k'') =
          entries-adds c.table c.prepend_entry (entry_rule c) c.entry_rules c.entry_chains s2 s'
            e2 in
        (
          record {
            there = k''.chain c.table c.name (k'.chain c.table c.name there);
            own_rules = All-Keeps chains has_rule c.table c.name (λ r. r) c.rules s2 s' k'' own;
            entries = entries;
          },
          Keeps-trans chains has_rule s s1 s' k (Keeps-trans chains has_rule s1 s2 s' k' k''),
        )
