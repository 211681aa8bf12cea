-- ===== src/IpTables/Lists.antt =====
-- Tables of iptables that are two lists, the chains, and the rules with their chains: all tables of
-- the kernel are one. They keep the laws, and the examples run over them.
use village_net.Common.{
  ◌≡◌, refl, inl, inr, Bool, true, false, ◌&&◌, if◌then◌else◌, List, [], ◌∷◌, arith, ok, err,
  text_eq, text_eq_refl, Bool-cases, subst,
}
use village_net.HostLocal.Store.{Text}
use village_net.Cni.Effects.{Eff, rule_not_found}
use village_net.IpTables.{IpTables, Rule}
use village_net.IpTables.Laws.{IpTablesLaws, Keeps, Keeps-refl}

abbrev pub rule_eq : Rule → Rule → Bool
rule_eq [] [] = true
rule_eq (t ∷ r) (u ∷ q) = text_eq t u && rule_eq r q
rule_eq _ _ = false

rule_eq_refl : (r : Rule) → rule_eq r r ≡ true
rule_eq_refl [] = refl
rule_eq_refl (t ∷ r) = ground (arith, text_eq_refl t, rule_eq_refl r)

pub record Tables : Type 0 where
  pub chain_names : List Text
  pub all_rules : List (Text × Rule)

abbrev pub holds : Text → Rule → List (Text × Rule) → Bool
holds c r [] = false
holds c r ((d, q) ∷ rs) = if text_eq d c && rule_eq q r then true else holds c r rs

abbrev pub chains : Tables → Text → List Text
chains s t = s.chain_names

abbrev pub has_rule : Tables → Text → Text → Rule → Bool
has_rule s t c r = holds c r s.all_rules

abbrev pub add_rule : Text → Text → Rule → Eff Tables (Unit {0})
add_rule t c r s = (ok tt, record s { all_rules = (c, r) ∷ s.all_rules })

abbrev pub add_missing : Text → Text → Rule → Eff Tables (Unit {0})
add_missing t c r s = if has_rule s t c r then (ok tt, s) else add_rule t c r s

abbrev pub tables : IpTables Tables
tables = record {
  list_chains = λ t s. (ok s.chain_names, s);
  new_chain = λ t c s. (ok tt, record s { chain_names = c ∷ s.chain_names });
  rule_exists = λ t c r s. (ok (has_rule s t c r), s);
  insert_first = add_rule;
  append_rule = add_rule;
  append_unique = add_missing;
  list_rules = λ t c s. (ok [], s);
  delete = λ t c r s. (err rule_not_found, s);
  clear = λ t c s. (err rule_not_found, s);
  remove_chain = λ t c s. (err rule_not_found, s);
}

holds-added : (c : Text) (r : Rule) (rs : List (Text × Rule)) → holds c r ((c, r) ∷ rs) ≡ true
holds-added c r rs = ground (arith, text_eq_refl c, rule_eq_refl r)

add_rule-Keeps : (s : Tables) (t c : Text) (r : Rule) → Keeps chains has_rule s (add_rule t c r s).1
add_rule-Keeps s t c r = record { chain = λ t' c' e. e; rule = λ t' c' r' e. ground (arith, e) }

add_rule-adds :
    (s s' : Tables) (t c : Text) (r : Rule)
    → add_rule t c r s ≡ (ok tt, s')
    → has_rule s' t c r ≡ true
add_rule-adds s s' t c r e =
    let same : record s { all_rules = (c, r) ∷ s.all_rules } ≡ s' = ground (arith, e) in
    rw (← same) (holds-added c r s.all_rules)

add_missing-Keeps :
    (s : Tables) (t c : Text) (r : Rule) → Keeps chains has_rule s (add_missing t c r s).1
add_missing-Keeps s t c r = elim (Bool-cases (has_rule s t c r)) [
  | inl h ↦ rw h (Keeps-refl chains has_rule s)
  | inr h ↦ rw h (add_rule-Keeps s t c r)
]

add_missing-adds :
    (s s' : Tables) (t c : Text) (r : Rule)
    → add_missing t c r s ≡ (ok tt, s')
    → has_rule s' t c r ≡ true
add_missing-adds s s' t c r e = elim (Bool-cases (has_rule s t c r)) [
  | inl h ↦ let same : s ≡ s' = ground (arith, h, e) in subst (λ x. has_rule x t c r ≡ true) same h
  | inr h ↦ add_rule-adds s s' t c r (rw h at e)
]

pub tables-IpTablesLaws : IpTablesLaws chains has_rule tables
tables-IpTablesLaws = record {
  chains_read = λ s t. refl;
  rule_read = λ s t c r. refl;
  new_chain_adds = λ s t c. inl (ground (arith, text_eq_refl c));
  new_chain_keeps = λ s t c. record { chain = λ t' c' e. ground (arith, e); rule = λ t' c' r e. e };
  append_adds = add_rule-adds;
  append_keeps = add_rule-Keeps;
  append_unique_adds = add_missing-adds;
  append_unique_keeps = add_missing-Keeps;
  insert_adds = add_rule-adds;
  insert_keeps = add_rule-Keeps;
}

abbrev pub empty : Tables
empty = record { chain_names = []; all_rules = [] }
