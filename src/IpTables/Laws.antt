-- ===== src/IpTables/Laws.antt =====
-- What the tables of iptables promise, and what pkg/utils/iptables.go and its callers make of that.
use village_net.Common.{
  ℕ, ◌≡◌, ◌⊎◌, inl, inr, Bool, true, false, List, [], ◌∷◌, arith, ok, err, All, Bool-cases, subst,
  ap, ◌==◌, refl,
}
use village_net.Cni.Effects.{exit_status, for_each, succeeds, Eff}
use village_net.Cni.Within.{Within}
use village_net.HostLocal.Store.{Text}
use village_net.IpTables.{IpTables, Rule, one_of, chain_exists, ensure_chain}

-- The operations of a table that leave what another one holds.
module _ {S : Type 0} (R : S → S → Type 0) where
  pub record Leaves (ipt : IpTables S) : Type 0 where
    pub list_chains : (t : Text) → Within R (ipt.list_chains t)
    pub new_chain : (t c : Text) → Within R (ipt.new_chain t c)
    pub rule_exists : (t c : Text) (r : Rule) → Within R (ipt.rule_exists t c r)
    pub insert_first : (t c : Text) (r : Rule) → Within R (ipt.insert_first t c r)
    pub append_unique : (t c : Text) (r : Rule) → Within R (ipt.append_unique t c r)
    pub delete : (t c : Text) (r : Rule) → Within R (ipt.delete t c r)

-- What the tables promise: `chains` and `has_rule` are what the queries answer, an addition that
-- succeeds adds what it is given, and none removes anything. A chain that is not created is there, with
-- the status 1, or the error is another status.
module _ {S : Type 0} (chains : S → Text → List Text)
    (has_rule : S → Text → Text → Rule → Bool) where
  pub record Keeps (s s' : S) : Type 0 where
    pub chain : (t c : Text) → one_of c (chains s t) ≡ true → one_of c (chains s' t) ≡ true
    pub rule : (t c : Text) (r : Rule) → has_rule s t c r ≡ true → has_rule s' t c r ≡ true

  pub record IpTablesLaws (ipt : IpTables S) : Type 0 where
    pub chains_read : (s : S) (t : Text) → ipt.list_chains t s ≡ (ok (chains s t), s)
    pub rule_read :
        (s : S) (t c : Text) (r : Rule) → ipt.rule_exists t c r s ≡ (ok (has_rule s t c r), s)
    pub new_chain_adds :
        (s : S) (t c : Text)
        → (one_of c (chains (ipt.new_chain t c s).1 t) ≡ true)
          ⊎ ((n : ℕ) × ((ipt.new_chain t c s).0 ≡ err (exit_status n)) × ((n == 1) ≡ false))
    pub new_chain_keeps : (s : S) (t c : Text) → Keeps s (ipt.new_chain t c s).1
    pub append_adds :
        (s s' : S) (t c : Text) (r : Rule)
        → ipt.append_rule t c r s ≡ (ok tt, s')
        → has_rule s' t c r ≡ true
    pub append_keeps : (s : S) (t c : Text) (r : Rule) → Keeps s (ipt.append_rule t c r s).1
    pub append_unique_adds :
        (s s' : S) (t c : Text) (r : Rule)
        → ipt.append_unique t c r s ≡ (ok tt, s')
        → has_rule s' t c r ≡ true
    pub append_unique_keeps :
        (s : S) (t c : Text) (r : Rule) → Keeps s (ipt.append_unique t c r s).1
    pub insert_adds :
        (s s' : S) (t c : Text) (r : Rule)
        → ipt.insert_first t c r s ≡ (ok tt, s')
        → has_rule s' t c r ≡ true
    pub insert_keeps : (s : S) (t c : Text) (r : Rule) → Keeps s (ipt.insert_first t c r s).1

  pub Keeps-refl : (s : S) → Keeps s s
  Keeps-refl s = record { chain = λ t c e. e; rule = λ t c r e. e }

  pub Keeps-trans : (s s1 s2 : S) → Keeps s s1 → Keeps s1 s2 → Keeps s s2
  Keeps-trans s s1 s2 k l = record {
    chain = λ t c e. l.chain t c (k.chain t c e);
    rule = λ t c r e. l.rule t c r (k.rule t c r e);
  }

  pub All-Keeps :
      (t c : Text) (f : Rule → Rule) (rs : List Rule) (s s' : S)
      → Keeps s s'
      → All (λ r. has_rule s t c (f r) ≡ true) rs
      → All (λ r. has_rule s' t c (f r) ≡ true) rs
  All-Keeps t c f [] s s' k w = tt
  All-Keeps t c f (r ∷ rs) s s' k (h, w) = (k.rule t c (f r) h, All-Keeps t c f rs s s' k w)

  module _ (ipt : IpTables S) (laws : IpTablesLaws ipt) where
    pub ensure_chain-adds :
        (t c : Text) (s s' : S)
        → ensure_chain ipt t c s ≡ (ok tt, s')
        → (one_of c (chains s' t) ≡ true) × Keeps s s'
    unfolding ensure_chain chain_exists
    ensure_chain-adds t c s s' e = elim (Bool-cases (one_of c (chains s t))) [
      | inl h ↦
          let same : s ≡ s' = ground (arith, laws.chains_read s t, h, e) in
          subst (λ x. (one_of c (chains x t) ≡ true) × Keeps s x) same (h, Keeps-refl s)
      | inr h ↦ elim (laws.new_chain_adds s t c) [
        | inl added ↦
            let same : (ipt.new_chain t c s).1 ≡ s' = ground (arith, laws.chains_read s t, h, e) in
            subst (λ x. (one_of c (chains x t) ≡ true) × Keeps s x) same
              (added, laws.new_chain_keeps s t c)
        | inr (n, q, ne) ↦ absurd (ground (arith, laws.chains_read s t, h, q, ne, e))
      ]
    ]

    -- A loop whose rounds add their rules.
    pub for_each-adds :
        (t c : Text) (f : Rule → Rule) (body : Rule → Eff S (Unit {0}))
        → ((r : Rule) (s s' : S)
            → body r s ≡ (ok tt, s')
            → (has_rule s' t c (f r) ≡ true) × Keeps s s')
        → (rs : List Rule) (s s' : S) → for_each rs body s ≡ (ok tt, s')
        → All (λ r. has_rule s' t c (f r) ≡ true) rs × Keeps s s'
    for_each-adds t c f body adds [] s s' e = (tt, subst (Keeps s) (ap (λ x. x.1) e) (Keeps-refl s))
    for_each-adds t c f body adds (r ∷ rs) s s' e =
        let (u, s1, q, q') = succeeds (body r) (λ w. for_each rs body) s s' tt e in
        let (h, k) = adds r s s1 q in
        let (hs, k') = for_each-adds t c f body adds rs s1 s' q' in
        ((k'.rule t c (f r) h, hs), Keeps-trans s s1 s' k k')

    pub chain_exists-there :
        (t c : Text) (s : S) → one_of c (chains s t) ≡ true → chain_exists ipt t c s ≡ (ok true, s)
    unfolding chain_exists
    chain_exists-there t c s h = ground (arith, laws.chains_read s t, h)

    pub ensure_chain-there :
        (t c : Text) (s : S) → one_of c (chains s t) ≡ true → ensure_chain ipt t c s ≡ (ok tt, s)
    unfolding ensure_chain
    ensure_chain-there t c s h = rw (chain_exists-there t c s h) refl
