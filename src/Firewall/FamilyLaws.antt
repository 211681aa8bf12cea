-- ===== src/Firewall/FamilyLaws.antt =====
-- Both families of plugins/meta/firewall/iptables.go, and the commands of firewall.go over them.
use village_net.Common.{List, [], ◌∷◌, Result, err, ◌==◌}
use village_net.HostLocal.Store.{Text}
use village_net.Cni.Effects.{Error, for_each, exit_status, pure, raise, attempt, ignore}
use village_net.Cni.Within.{Within, bind-Within, for_each-Within, on_error-Within, if-Within}
use village_net.IpTables.{IpTables, Rule, ensure_chain, chain_exists, swallow_exists}
use village_net.IpTables.Laws.{Leaves}
use village_net.Firewall.Rules.{
  IptablesBackend, filter, forward, generate_filter_rule, generate_admin_rule,
  ensure_first_chain_rule, setup_chains, cleanup_rules, append_rules, add_rules,
}

module _ {S : Type 0} (R : S → S → Type 0) (R-refl : (s : S) → R s s)
    (R-trans : (s s1 s2 : S) → R s s1 → R s1 s2 → R s s2) (ipt : IpTables S)
    (leaves : Leaves R ipt) where
  swallow_exists-Within : (r : Result Error (Unit {0})) → Within R (swallow_exists ipt r)
  swallow_exists-Within (err (exit_status n)) =
      if-Within R R-refl R-trans (n == 1) (pure tt) (raise (exit_status n)) (λ s. R-refl s)
        (λ s. R-refl s)
  swallow_exists-Within _ = λ s. R-refl s

  ensure_chain-Within : (t c : Text) → Within R (ensure_chain ipt t c)
  unfolding ensure_chain chain_exists
  ensure_chain-Within t c =
      bind-Within R R-refl R-trans (chain_exists ipt t c) _
        (bind-Within R R-refl R-trans (ipt.list_chains t) _ (leaves.list_chains t)
          (λ cs s. R-refl s))
        (λ b.
          if-Within R R-refl R-trans b _ _ (λ s. R-refl s)
            (bind-Within R R-refl R-trans (attempt (ipt.new_chain t c)) (swallow_exists ipt)
              (leaves.new_chain t c) swallow_exists-Within))

  ensure_first_chain_rule-Within :
      (c : Text) (r : Rule) → Within R (ensure_first_chain_rule ipt c r)
  unfolding ensure_first_chain_rule
  ensure_first_chain_rule-Within c r =
      bind-Within R R-refl R-trans (ipt.rule_exists filter c r) _ (leaves.rule_exists filter c r)
        (λ b. if-Within R R-refl R-trans b _ _ (λ s. R-refl s) (leaves.insert_first filter c r))

  pub add_rules-Within :
      (ib : IptablesBackend) (rules : List Rule) → Within R (add_rules ipt ib rules)
  unfolding add_rules setup_chains append_rules cleanup_rules
  add_rules-Within ib [] = λ s. R-refl s
  add_rules-Within ib (r ∷ rs) =
      bind-Within R R-refl R-trans (setup_chains ipt ib) _
        (bind-Within R R-refl R-trans (ensure_chain ipt filter ib.priv_chain) _
          (ensure_chain-Within filter ib.priv_chain)
          (λ u.
            bind-Within R R-refl R-trans (ensure_chain ipt filter ib.admin_chain) _
              (ensure_chain-Within filter ib.admin_chain)
              (λ u.
                bind-Within R R-refl R-trans
                  (ensure_first_chain_rule ipt forward (generate_filter_rule ib.priv_chain)) _
                  (ensure_first_chain_rule-Within forward (generate_filter_rule ib.priv_chain))
                  (λ u.
                    ensure_first_chain_rule-Within ib.priv_chain
                      (generate_admin_rule ib.admin_chain)))))
        (λ u.
          on_error-Within R R-refl R-trans
            (for_each (r ∷ rs) (ipt.append_unique filter ib.priv_chain))
            (cleanup_rules ipt ib.priv_chain (r ∷ rs))
            (for_each-Within R R-refl R-trans (r ∷ rs) (ipt.append_unique filter ib.priv_chain)
              (leaves.append_unique filter ib.priv_chain))
            (for_each-Within R R-refl R-trans (r ∷ rs)
              (λ rule. ignore (ipt.delete filter ib.priv_chain rule))
              (leaves.delete filter ib.priv_chain)))
