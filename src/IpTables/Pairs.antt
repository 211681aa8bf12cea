-- ===== src/IpTables/Pairs.antt =====
-- The tables of two families side by side, each of them tables of their own. They keep the laws where
-- the tables do, and leave each other alone.
use village_net.Common.{◌≡◌, refl, Bool, true, false, not, List, ok, inl, ap, arith, text_eq_refl}
use village_net.HostLocal.Store.{Text}
use village_net.Cni.Effects.{Eff}
use village_net.IpTables.{IpTables, Rule, one_of}
use village_net.IpTables.Laws.{IpTablesLaws, Leaves, Keeps}
use village_net.IpTables.Lists.{Tables, tables, chains, has_rule, tables-IpTablesLaws, empty}

abbrev pub Pair : Type 0
Pair = Tables × Tables

abbrev pub own_tables : Bool → Pair → Tables
own_tables false s = s.0
own_tables true s = s.1

abbrev with_own : Bool → Pair → Tables → Pair
with_own false s x = (x, s.1)
with_own true s x = (s.0, x)

module _ {A : Type 0} where
  abbrev pub on : Bool → Eff Tables A → Eff Pair A
  on b m s = let (r, x) = m (own_tables b s) in (r, with_own b s x)

abbrev pub family : Bool → IpTables Pair
family b = record {
  list_chains = λ t. on b (tables.list_chains t);
  new_chain = λ t c. on b (tables.new_chain t c);
  rule_exists = λ t c r. on b (tables.rule_exists t c r);
  insert_first = λ t c r. on b (tables.insert_first t c r);
  append_rule = λ t c r. on b (tables.append_rule t c r);
  append_unique = λ t c r. on b (tables.append_unique t c r);
  list_rules = λ t c. on b (tables.list_rules t c);
  delete = λ t c r. on b (tables.delete t c r);
  clear = λ t c. on b (tables.clear t c);
  remove_chain = λ t c. on b (tables.remove_chain t c);
}

abbrev pub chains_of : Bool → Pair → Text → List Text
chains_of b s = chains (own_tables b s)

abbrev pub has_rule_of : Bool → Pair → Text → Text → Rule → Bool
has_rule_of b s = has_rule (own_tables b s)

with_own_own : (b : Bool) (s : Pair) → with_own b s (own_tables b s) ≡ s
with_own_own false s = refl
with_own_own true s = refl

module _ {A : Type 0} (m : Eff Tables A) where
  on-Keeps :
      ((x : Tables) → Keeps chains has_rule x (m x).1)
      → (b : Bool) (s : Pair) → Keeps (chains_of b) (has_rule_of b) s (on b m s).1
  on-Keeps k false s = record { chain = (k s.0).chain; rule = (k s.0).rule }
  on-Keeps k true s = record { chain = (k s.1).chain; rule = (k s.1).rule }

  on-leaves : (b : Bool) (s : Pair) → Keeps (chains_of b) (has_rule_of b) s (on (not b) m s).1
  on-leaves false s = record { chain = λ t c e. e; rule = λ t c r e. e }
  on-leaves true s = record { chain = λ t c e. e; rule = λ t c r e. e }

  on-adds :
      (P : Tables → Type 0) (a : A)
      → ((x x' : Tables) → m x ≡ (ok a, x') → P x')
      → (b : Bool) (s s' : Pair) → on b m s ≡ (ok a, s')
      → P (own_tables b s')
  on-adds P a f false s s' e = f s.0 s'.0 (ap (λ x. (x.0, x.1.0)) e)
  on-adds P a f true s s' e = f s.1 s'.1 (ap (λ x. (x.0, x.1.1)) e)

added_chain :
    (b : Bool) (s : Pair) (t c : Text)
    → one_of c (chains_of b ((family b).new_chain t c s).1 t) ≡ true
added_chain false s t c = ground (arith, text_eq_refl c)
added_chain true s t c = ground (arith, text_eq_refl c)

abbrev single : IpTablesLaws chains has_rule tables
single = tables-IpTablesLaws

pub family-IpTablesLaws : (b : Bool) → IpTablesLaws (chains_of b) (has_rule_of b) (family b)
family-IpTablesLaws b = record {
  chains_read = λ s t. ap (λ x. (ok (chains_of b s t), x)) (with_own_own b s);
  rule_read = λ s t c r. ap (λ x. (ok (has_rule_of b s t c r), x)) (with_own_own b s);
  new_chain_adds = λ s t c. inl (added_chain b s t c);
  new_chain_keeps =
      λ s t c. on-Keeps (tables.new_chain t c) (λ x. single.new_chain_keeps x t c) b s;
  append_adds = λ s s' t c r.
      on-adds (tables.append_rule t c r) (λ x. has_rule x t c r ≡ true) tt
        (λ x x'. single.append_adds x x' t c r) b s s';
  append_keeps =
      λ s t c r. on-Keeps (tables.append_rule t c r) (λ x. single.append_keeps x t c r) b s;
  append_unique_adds = λ s s' t c r.
      on-adds (tables.append_unique t c r) (λ x. has_rule x t c r ≡ true) tt
        (λ x x'. single.append_unique_adds x x' t c r) b s s';
  append_unique_keeps = λ s t c r.
      on-Keeps (tables.append_unique t c r) (λ x. single.append_unique_keeps x t c r) b s;
  insert_adds = λ s s' t c r.
      on-adds (tables.insert_first t c r) (λ x. has_rule x t c r ≡ true) tt
        (λ x x'. single.insert_adds x x' t c r) b s s';
  insert_keeps =
      λ s t c r. on-Keeps (tables.insert_first t c r) (λ x. single.insert_keeps x t c r) b s;
}

pub family-Leaves : (b : Bool) → Leaves (Keeps (chains_of b) (has_rule_of b)) (family (not b))
family-Leaves b = record {
  list_chains = λ t. on-leaves (tables.list_chains t) b;
  new_chain = λ t c. on-leaves (tables.new_chain t c) b;
  rule_exists = λ t c r. on-leaves (tables.rule_exists t c r) b;
  insert_first = λ t c r. on-leaves (tables.insert_first t c r) b;
  append_unique = λ t c r. on-leaves (tables.append_unique t c r) b;
  delete = λ t c r. on-leaves (tables.delete t c r) b;
}

abbrev pub no_tables : Pair
no_tables = (empty, empty)
