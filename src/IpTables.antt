-- ===== src/IpTables.antt =====
-- The tables of iptables, and pkg/utils/iptables.go over them. The library is a parameter: one
-- operation on a state for each of its calls. Its errors are an exit status, that of a missing chain
-- or rule (`rule_not_found`, with the status 1), and `not_run` for what is no error of iptables.
use village_net.Common.{
  Bool, true, false, ◌==◌, if◌then◌else◌, List, [], ◌∷◌, Result, ok, err, text_eq,
}
use village_net.Cni.Effects.{Error, Eff, rule_not_found, exit_status, pure, raise, attempt, ◌>>=◌}
use village_net.HostLocal.Store.{Text}
pub mod Laws
pub mod Lists
pub mod Pairs

abbrev pub Rule : Type 0
Rule = List Text

-- The table and the chain come first.
pub record IpTables (S : Type 0) : Type 0 where
  pub list_chains : Text → Eff S (List Text)
  pub new_chain : Text → Text → Eff S (Unit {0})
  pub rule_exists : Text → Text → Rule → Eff S Bool
  pub insert_first : Text → Text → Rule → Eff S (Unit {0})
  pub append_rule : Text → Text → Rule → Eff S (Unit {0})
  pub append_unique : Text → Text → Rule → Eff S (Unit {0})
  pub list_rules : Text → Text → Eff S (List Text)
  pub delete : Text → Text → Rule → Eff S (Unit {0})
  pub clear : Text → Text → Eff S (Unit {0})
  pub remove_chain : Text → Text → Eff S (Unit {0})

abbrev pub one_of : Text → List Text → Bool
one_of t [] = false
one_of t (u ∷ us) = if text_eq u t then true else one_of t us

module _ {S : Type 0} (ipt : IpTables S) where
  unfoldable pub chain_exists : Text → Text → Eff S Bool
  chain_exists table chain = do chains ← ipt.list_chains table; pure (one_of chain chains)

  -- The status 1 says that the chain exists already.
  abbrev pub swallow_exists : Result Error (Unit {0}) → Eff S (Unit {0})
  swallow_exists (err (exit_status n)) = if n == 1 then pure tt else raise (exit_status n)
  swallow_exists _ = pure tt

  unfoldable pub ensure_chain : Text → Text → Eff S (Unit {0})
  unfolding chain_exists
  ensure_chain table chain = do
    exists ← chain_exists table chain
    if exists then pure tt else (attempt (ipt.new_chain table chain) >>= swallow_exists)

  abbrev swallow_missing : Result Error (Unit {0}) → Eff S (Unit {0})
  swallow_missing (err rule_not_found) = pure tt
  swallow_missing (err e) = raise e
  swallow_missing (ok u) = pure tt

  abbrev swallow_status2 : Result Error (Unit {0}) → Eff S (Unit {0})
  swallow_status2 (err (exit_status n)) = if n == 2 then pure tt else raise (exit_status n)
  swallow_status2 r = swallow_missing r

  unfoldable pub delete_rule : Text → Text → Rule → Eff S (Unit {0})
  delete_rule table chain rule = attempt (ipt.delete table chain rule) >>= swallow_status2

  unfoldable pub delete_chain : Text → Text → Eff S (Unit {0})
  delete_chain table chain = attempt (ipt.remove_chain table chain) >>= swallow_missing

  abbrev create_missing : Text → Text → Result Error (Unit {0}) → Eff S (Unit {0})
  create_missing table chain (err rule_not_found) = ensure_chain table chain
  create_missing table chain (err e) = raise e
  create_missing table chain (ok u) = pure tt

  unfoldable pub clear_chain : Text → Text → Eff S (Unit {0})
  unfolding ensure_chain
  clear_chain table chain = attempt (ipt.clear table chain) >>= create_missing table chain
