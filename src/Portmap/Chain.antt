-- ===== src/Portmap/Chain.antt =====
-- plugins/meta/portmap/chain.go: a chain with the rules that lead to it.
use village_net.Common.{
  Bool, false, if◌then◌else◌, List, [], ◌∷◌, ◌++◌, Option, none, some, ok, err, text_eq, codes,
  length, drop, ltb, ◌-◌,
}
use village_net.Cni.Effects.{
  Eff, chain_not_found, rule_missing, failed, pure, raise, attempt, for_each, ◌>>=◌, ◌>>◌,
}
use village_net.HostLocal.Store.{Text}
use village_net.IpTables.{
  IpTables, Rule, chain_exists, ensure_chain, delete_rule, delete_chain, clear_chain,
}

pub record Chain : Type 0 where
  pub table : Text
  pub name : Text
  pub entry_chains : List Text
  pub entry_rules : List Rule
  pub rules : List Rule
  pub prepend_entry : Bool

abbrev pub entry_rule : Chain → Rule → Rule
entry_rule c rule = rule ++ (codes "-j" ∷ c.name ∷ [])

abbrev pub reversed : List Rule → List Rule
reversed [] = []
reversed (r ∷ rs) = reversed rs ++ (r ∷ [])

-- strings.HasSuffix
unfoldable pub has_suffix : Text → Text → Bool
has_suffix s suffix =
    if ltb (length s) (length suffix)
    then false
    else text_eq (drop (length s - length suffix) s) suffix

module _ {S : Type 0} (ipt : IpTables S) where
  unfoldable pub insert_unique : Text → Text → Bool → Rule → Eff S (Unit {0})
  insert_unique table chain prepend rule = do
    exists ← ipt.rule_exists table chain rule
    if exists
        then pure tt
        else if prepend
        then ipt.insert_first table chain rule
        else ipt.append_rule table chain rule

  unfoldable pub setup : Chain → Eff S (Unit {0})
  unfolding insert_unique
  setup c = do
    ensure_chain ipt c.table c.name
    for_each c.rules (insert_unique c.table c.name false)
    for_each c.entry_chains (λ entry.
        for_each c.entry_rules
          (λ rule. insert_unique c.table entry c.prepend_entry (entry_rule c rule)))

  -- checkRule: an error stands for a missing rule.
  unfoldable pub check_rule : Text → Text → Rule → Eff S Bool
  check_rule table chain rule = attempt (ipt.rule_exists table chain rule) >>= λ r. elim r [
    | ok exists ↦ pure exists
    | err e ↦ pure false
  ]

  abbrev pub require_rule : Text → Text → Rule → Eff S (Unit {0})
  require_rule table chain rule = do
    match ← check_rule table chain rule
    if match then pure tt else raise rule_missing

  unfoldable pub check : Chain → Eff S (Unit {0})
  unfolding check_rule
  check c = do
    exists ← chain_exists ipt c.table c.name
    if exists then pure tt else raise chain_not_found
    for_each (reversed c.rules) (require_rule c.table c.name)
    for_each c.entry_chains (λ entry.
        for_each (reversed c.entry_rules) (λ rule. require_rule c.table entry (entry_rule c rule)))

  -- The loop of teardown over the listed rules of an entry chain, but for the first. The parser of
  -- shell words is a parameter.
  unfoldable pub delete_entries :
      (Text → Option (List Text)) → Chain → Text → List Text → Eff S (Unit {0})
  delete_entries shell_words c entry rules = for_each rules (λ rule.
      if has_suffix rule (codes "-j " ++ c.name)
      then elim (shell_words rule) [
        | none ↦ raise failed
        | some parts ↦ delete_rule ipt c.table entry (drop 2 parts)
      ]
      else pure tt)

  unfoldable pub teardown : (Text → Option (List Text)) → Chain → Eff S (Unit {0})
  unfolding delete_entries
  teardown shell_words c = do
    clear_chain ipt c.table c.name
    for_each c.entry_chains (λ entry. attempt (ipt.list_rules c.table entry) >>= λ r. elim r [
      | ok (first ∷ rules) ↦ delete_entries shell_words c entry rules
      | ok [] ↦ pure tt
      | err e ↦ pure tt
    ])
    delete_chain ipt c.table c.name
