-- ===== src/Portmap/CheckLaws.antt =====
-- That check and setup of plugins/meta/portmap/chain.go accept what setup has made.
use village_net.Common.{◌≡◌, Bool, true, false, List, [], ◌∷◌, ◌++◌, arith, ok, All}
use village_net.Cni.Effects.{for_each, for_each-same}
use village_net.HostLocal.Store.{Text}
use village_net.IpTables.{IpTables, Rule, ensure_chain}
use village_net.Portmap.Chain.{
  Chain, entry_rule, reversed, insert_unique, setup, check_rule, require_rule, check,
}
use village_net.IpTables.Laws.{IpTablesLaws, chain_exists-there}
use village_net.Portmap.ChainLaws.{IsSetUp, setup-IsSetUp}

module _ {A : Type 0} (P : A → Type 0) where
  All-append : (xs ys : List A) → All P xs → All P ys → All P (xs ++ ys)
  All-append [] ys v w = w
  All-append (x ∷ xs) ys (p, v) w = (p, All-append xs ys v w)

All-reversed : (P : Rule → Type 0) (rs : List Rule) → All P rs → All P (reversed rs)
All-reversed P [] w = tt
All-reversed P (r ∷ rs) (p, w) = All-append P (reversed rs) (r ∷ []) (All-reversed P rs w) (p, tt)

module _ {S : Type 0} (chains : S → Text → List Text) (has_rule : S → Text → Text → Rule → Bool)
    (ipt : IpTables S) (laws : IpTablesLaws chains has_rule ipt) where
  require_rule-there :
      (t c : Text) (r : Rule) (s : S)
      → has_rule s t c r ≡ true
      → require_rule ipt t c r s ≡ (ok tt, s)
  unfolding check_rule
  require_rule-there t c r s h = ground (arith, laws.rule_read s t c r, h)

  insert_unique-there :
      (t c : Text) (p : Bool) (r : Rule) (s : S)
      → has_rule s t c r ≡ true
      → insert_unique ipt t c p r s ≡ (ok tt, s)
  unfolding insert_unique
  insert_unique-there t c p r s h = ground (arith, laws.rule_read s t c r, h)

  check-IsSetUp : (c : Chain) (s : S) → IsSetUp chains has_rule c s → check ipt c s ≡ (ok tt, s)
  unfolding check
  check-IsSetUp c s w =
      let own =
        for_each-same (λ r. has_rule s c.table c.name r ≡ true) (require_rule ipt c.table c.name) s
          (reversed c.rules) (λ r h. require_rule-there c.table c.name r s h)
          (All-reversed _ c.rules w.own_rules) in
      let entries =
        for_each-same
          (λ entry. All (λ r. has_rule s c.table entry (entry_rule c r) ≡ true) c.entry_rules)
          (λ entry.
            for_each (reversed c.entry_rules)
              (λ rule. require_rule ipt c.table entry (entry_rule c rule)))
          s c.entry_chains
          (λ entry v.
            for_each-same (λ r. has_rule s c.table entry (entry_rule c r) ≡ true)
              (λ rule. require_rule ipt c.table entry (entry_rule c rule)) s
              (reversed c.entry_rules)
              (λ r h. require_rule-there c.table entry (entry_rule c r) s h)
              (All-reversed _ c.entry_rules v))
          w.entries in
      rw (chain_exists-there chains has_rule ipt laws c.table c.name s w.there, own) entries

  setup-same : (c : Chain) (s : S) → IsSetUp chains has_rule c s → setup ipt c s ≡ (ok tt, s)
  unfolding setup ensure_chain
  setup-same c s w =
      let own =
        for_each-same (λ r. has_rule s c.table c.name r ≡ true)
          (insert_unique ipt c.table c.name false) s c.rules
          (λ r h. insert_unique-there c.table c.name false r s h) w.own_rules in
      let entries =
        for_each-same
          (λ entry. All (λ r. has_rule s c.table entry (entry_rule c r) ≡ true) c.entry_rules)
          (λ entry.
            for_each c.entry_rules
              (λ rule. insert_unique ipt c.table entry c.prepend_entry (entry_rule c rule)))
          s c.entry_chains
          (λ entry v.
            for_each-same (λ r. has_rule s c.table entry (entry_rule c r) ≡ true)
              (λ rule. insert_unique ipt c.table entry c.prepend_entry (entry_rule c rule)) s
              c.entry_rules
              (λ r h. insert_unique-there c.table entry c.prepend_entry (entry_rule c r) s h) v)
          w.entries in
      rw (chain_exists-there chains has_rule ipt laws c.table c.name s w.there, own) entries

  -- Over tables whose queries answer what is there and whose additions add what they are given
  -- and remove nothing, a chain that setup has made without an error passes check in the state
  -- that it leaves, and another setup succeeds there, both without a change.
  pub check-setup :
      (c : Chain) (s s' : S)
      → setup ipt c s ≡ (ok tt, s')
      → (check ipt c s' ≡ (ok tt, s')) × (setup ipt c s' ≡ (ok tt, s'))
  check-setup c s s' e =
      let (w, k) = setup-IsSetUp chains has_rule ipt laws c s s' e in
      (check-IsSetUp c s' w, setup-same c s' w)
