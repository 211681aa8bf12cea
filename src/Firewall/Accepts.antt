-- ===== src/Firewall/Accepts.antt =====
-- That the commands of plugins/meta/firewall/firewall.go accept, with the backend of iptables, what
-- they have added.
use village_net.Common.{
  ◌≡◌, refl, Bool, true, false, not, List, [], ◌∷◌, ok, text_eq, codes, subst, ap, ◌∙◌,
}
use village_net.Net.{Ip}
use village_net.HostLocal.Store.{Text}
use village_net.Cni.{CniResult, result}
use village_net.Cni.Effects.{Eff, succeeds, ◌>>◌, pure}
use village_net.IpTables.{IpTables, Rule}
use village_net.IpTables.Laws.{Leaves, IpTablesLaws, Keeps, Keeps-refl, Keeps-trans}
use village_net.Firewall.Backend.{FirewallNetConf}
use village_net.Firewall.Rules.{
  IptablesBackend, Families, names_of, family_rules, add_rules, check_rules, add, check,
  new_iptables_backend,
}
use village_net.Firewall.Firewalld.{Bus}
use village_net.Firewall.Commands.{parse_conf, get_backend, cmd_add, cmd_check}
use village_net.Firewall.Laws.{
  IsInstalled, IsInstalled-Keeps, add_rules-IsInstalled, check_rules-IsInstalled,
}
use village_net.Firewall.FamilyLaws.{add_rules-Within}

without_result :
    {S A : Type 0}
    → (m : Eff S (Unit {0})) (a : A) (s s' : S) → (m >> pure a) s ≡ (ok a, s')
    → m s ≡ (ok tt, s')
without_result m a s s' e =
    let (u, s1, q, q') = succeeds m (λ w. pure a) s s' a e in q ∙ ap (λ x. (ok tt, x.1)) q'

both : (P : Bool → Type 0) (b : Bool) → P b → P (not b) → (c : Bool) → P c
both P true p q true = p
both P true p q false = q
both P false p q true = q
both P false p q false = p

module _ {S : Type 0} (tables : Bool → IpTables S) (chains : Bool → S → Text → List Text)
    (has_rule : Bool → S → Text → Text → Rule → Bool)
    (laws : (b : Bool) → IpTablesLaws (chains b) (has_rule b) (tables b))
    (apart : (b : Bool) → Leaves (Keeps (chains b) (has_rule b)) (tables (not b)))
    (ip_text : Ip → Text) where
  abbrev HoldsFor : Bool → IptablesBackend → List Rule → S → Type 0
  HoldsFor b ib [] s = Unit {0}
  HoldsFor b ib (r ∷ rs) s = IsInstalled (chains b) (has_rule b) ib (r ∷ rs) s

  HoldsFor-Keeps :
      (b : Bool) (ib : IptablesBackend) (rules : List Rule) (s s' : S)
      → Keeps (chains b) (has_rule b) s s'
      → HoldsFor b ib rules s
      → HoldsFor b ib rules s'
  HoldsFor-Keeps b ib [] s s' k w = tt
  HoldsFor-Keeps b ib (r ∷ rs) s s' k w =
      IsInstalled-Keeps (chains b) (has_rule b) ib (r ∷ rs) s s' k w

  add_rules-HoldsFor :
      (b : Bool) (ib : IptablesBackend) (rules : List Rule) (s s' : S)
      → add_rules (tables b) ib rules s ≡ (ok tt, s')
      → HoldsFor b ib rules s'
  add_rules-HoldsFor b ib [] s s' e = tt
  add_rules-HoldsFor b ib (r ∷ rs) s s' e =
      add_rules-IsInstalled (chains b) (has_rule b) (tables b) (laws b) ib r rs s s' e

  check_rules-HoldsFor :
      (b : Bool) (ib : IptablesBackend) (rules : List Rule) (s : S)
      → HoldsFor b ib rules s
      → check_rules (tables b) ib rules s ≡ (ok tt, s)
  unfolding check_rules
  check_rules-HoldsFor b ib [] s w = refl
  check_rules-HoldsFor b ib (r ∷ rs) s w =
      check_rules-IsInstalled (chains b) (has_rule b) (tables b) (laws b) ib (r ∷ rs) s w

  -- The families, the given one first.
  abbrev pub visit : Bool → Families S
  visit b = (b, tables b) ∷ (not b, tables (not b)) ∷ []

  add-HoldsFor :
      (b : Bool) (ib : IptablesBackend) (r : CniResult) (s s' : S)
      → add ip_text ib (visit b) r s ≡ (ok tt, s')
      → (c : Bool) → HoldsFor c ib (family_rules ip_text c r.ips) s'
  unfolding add
  add-HoldsFor b ib r s s' e =
      let rules : Bool → List Rule = λ c. family_rules ip_text c r.ips in
      let second = add_rules (tables (not b)) ib (rules (not b)) in
      let (u, s1, q, q1) =
        succeeds (add_rules (tables b) ib (rules b)) (λ w. second >> pure tt) s s' tt e in
      let (u2, s2, q2, q3) = succeeds second (λ w. pure tt) s1 s' tt q1 in
      let run : second s1 ≡ (ok tt, s') = q2 ∙ ap (λ x. (ok tt, x.1)) q3 in
      let kept : Keeps (chains b) (has_rule b) s1 s' =
        subst (Keeps (chains b) (has_rule b) s1) (ap (λ x. x.1) run) (
          add_rules-Within (Keeps (chains b) (has_rule b)) (Keeps-refl (chains b) (has_rule b))
            (Keeps-trans (chains b) (has_rule b)) (tables (not b)) (apart b) ib (rules (not b))
            s1) in
      both (λ c. HoldsFor c ib (rules c) s') b
        (HoldsFor-Keeps b ib (rules b) s1 s' kept (add_rules-HoldsFor b ib (rules b) s s1 q))
        (add_rules-HoldsFor (not b) ib (rules (not b)) s1 s' run)

  check-HoldsFor :
      (b : Bool) (ib : IptablesBackend) (r : CniResult) (s : S)
      → ((c : Bool) → HoldsFor c ib (family_rules ip_text c r.ips) s)
      → check ip_text ib (visit b) r s ≡ (ok tt, s)
  unfolding check
  check-HoldsFor b ib r s w =
      rw
        (
          check_rules-HoldsFor b ib (family_rules ip_text b r.ips) s (w b),
          check_rules-HoldsFor (not b) ib (family_rules ip_text (not b) r.ips) s (w (not b)),
        )
        refl

  -- Over tables of two families whose queries answer what is there, whose additions add what they
  -- are given and remove nothing, and that leave each other alone: with the backend iptables,
  -- where cmdAdd gives the previous result without an error, cmdCheck with the same configuration
  -- and result succeeds in the state that it leaves and changes nothing, in whatever order the
  -- two commands visit the families.
  pub cmd_check-cmd_add :
      (bus : Bus S) (open_tables : Bool → Eff S (IpTables S))
      (adds checks : Families S → Families S) (b c : Bool) (conf : FirewallNetConf) (r : CniResult)
      (s s' : S)
      → ((family : Bool) (s : S) → open_tables family s ≡ (ok (tables family), s))
      → adds (visit false) ≡ visit b
      → checks (visit false) ≡ visit c
      → text_eq conf.backend (codes "iptables") ≡ true
      → cmd_add open_tables adds bus ip_text conf (result r) s ≡ (ok r, s')
      → cmd_check open_tables checks bus ip_text conf (result r) s' ≡ (ok tt, s')
  unfolding cmd_add cmd_check get_backend new_iptables_backend parse_conf
  cmd_check-cmd_add bus open_tables adds checks b c conf r s s' opens visits_b visits_c is_iptables
        e =
      let ib = names_of (parse_conf conf) in
      let added : add ip_text ib (visit b) r s ≡ (ok tt, s') =
        without_result (add ip_text ib (visit b) r) r s s'
          (rw (is_iptables, opens false s, opens true s, visits_b) at e) in
      rw (is_iptables, opens false s', opens true s', visits_c)
        (check-HoldsFor c ib r s' (add-HoldsFor b ib r s s' added))
