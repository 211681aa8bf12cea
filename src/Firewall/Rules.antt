-- ===== src/Firewall/Rules.antt =====
-- plugins/meta/firewall/iptables.go: the backend of iptables. The families are Booleans, true for
-- IPv6.
use village_net.Common.{
  Bool, true, false, not, if◌then◌else◌, List, [], ◌∷◌, ◌++◌, Option, none, some, codes, text_eq,
}
use village_net.Net.{Ip, IpNet, is_nil, to4}
use village_net.HostLocal.Store.{Text}
use village_net.Cni.{CniResult, IpConfig}
use village_net.Cni.Effects.{
  Eff, failed, rule_missing, pure, raise, ignore, on_error, failing_as, for_each, ◌>>=◌, ◌>>◌,
}
use village_net.IpTables.{IpTables, Rule, ensure_chain}
use village_net.Firewall.Backend.{FirewallNetConf, FirewallBackend, ip_string}

abbrev pub filter : Text
filter = codes "filter"

abbrev pub forward : Text
forward = codes "FORWARD"

unfoldable pub get_priv_chain_rules : Text → List Rule
get_priv_chain_rules ip =
    (codes "-d"
      ∷ ip
      ∷ codes "-m"
      ∷ codes "conntrack"
      ∷ codes "--ctstate"
      ∷ codes "RELATED,ESTABLISHED"
      ∷ codes "-j"
      ∷ codes "ACCEPT"
      ∷ [])
    ∷ (codes "-s" ∷ ip ∷ codes "-j" ∷ codes "ACCEPT" ∷ [])
    ∷ []

unfoldable pub generate_filter_rule : Text → Rule
generate_filter_rule priv_chain =
    codes "-m"
    ∷ codes "comment"
    ∷ codes "--comment"
    ∷ codes "CNI firewall plugin rules"
    ∷ codes "-j"
    ∷ priv_chain
    ∷ []

unfoldable pub generate_admin_rule : Text → Rule
generate_admin_rule admin_chain =
    codes "-m"
    ∷ codes "comment"
    ∷ codes "--comment"
    ∷ codes "CNI firewall plugin admin overrides"
    ∷ codes "-j"
    ∷ admin_chain
    ∷ []

-- protoForIP
abbrev pub proto_for_ip : IpNet → Bool
proto_for_ip net = is_nil (to4 net.ip)

abbrev same_bool : Bool → Bool → Bool
same_bool true b = b
same_bool false b = not b

-- The rules of the addresses of a family.
unfoldable pub family_rules : (Ip → Text) → Bool → List IpConfig → List Rule
unfolding get_priv_chain_rules
family_rules ip_text is_v6 [] = []
family_rules ip_text is_v6 (ip ∷ ips) =
    let rest = family_rules ip_text is_v6 ips in
    if same_bool (proto_for_ip ip.address) is_v6
    then get_priv_chain_rules (ip_string ip_text ip.address) ++ rest
    else rest

-- findProtos; without a previous result, both.
unfoldable pub find_protos : Option CniResult → List Bool
find_protos none = false ∷ true ∷ []
find_protos (some r) = protos r.ips
  where
    protos : List IpConfig → List Bool
    protos [] = []
    protos (ip ∷ ips) = proto_for_ip ip.address ∷ protos ips

-- iptablesBackend, with one family's tables.
pub record IptablesBackend : Type 0 where
  pub priv_chain : Text
  pub admin_chain : Text

unfoldable pub names_of : FirewallNetConf → IptablesBackend
names_of conf = record {
  priv_chain = codes "CNI-FORWARD";
  admin_chain =
      if text_eq conf.admin_chain_name [] then codes "CNI-ADMIN" else conf.admin_chain_name;
}

module _ {S : Type 0} (ipt : IpTables S) where
  unfoldable pub cleanup_rules : Text → List Rule → Eff S (Unit {0})
  cleanup_rules priv_chain rules =
      for_each rules (λ rule. ignore (ipt.delete filter priv_chain rule))

  unfoldable pub ensure_first_chain_rule : Text → Rule → Eff S (Unit {0})
  ensure_first_chain_rule chain rule = do
    exists ← ipt.rule_exists filter chain rule
    if exists then pure tt else ipt.insert_first filter chain rule

  unfoldable pub require_rule : Text → Rule → Eff S (Unit {0})
  require_rule chain rule = do
    exists ← ipt.rule_exists filter chain rule
    if exists then pure tt else raise rule_missing

module _ {S : Type 0} (ipt : IpTables S) (ib : IptablesBackend) where
  unfoldable pub setup_chains : Eff S (Unit {0})
  unfolding ensure_first_chain_rule
  setup_chains = do
    ensure_chain ipt filter ib.priv_chain
    ensure_chain ipt filter ib.admin_chain
    ensure_first_chain_rule ipt forward (generate_filter_rule ib.priv_chain)
    ensure_first_chain_rule ipt ib.priv_chain (generate_admin_rule ib.admin_chain)

  -- The rules of addRules, with the clean-up where one of them fails.
  unfoldable pub append_rules : List Rule → Eff S (Unit {0})
  unfolding cleanup_rules
  append_rules rules =
      on_error (for_each rules (ipt.append_unique filter ib.priv_chain))
        (cleanup_rules ipt ib.priv_chain rules)

  unfoldable pub add_rules : List Rule → Eff S (Unit {0})
  unfolding setup_chains append_rules
  add_rules [] = pure tt
  add_rules (r ∷ rs) = setup_chains >> append_rules (r ∷ rs)

  unfoldable pub del_rules : List Rule → Eff S (Unit {0})
  unfolding cleanup_rules
  del_rules rules = cleanup_rules ipt ib.priv_chain rules

  unfoldable pub check_rules : List Rule → Eff S (Unit {0})
  unfolding require_rule
  check_rules [] = pure tt
  check_rules (r ∷ rs) = do
    ensure_chain ipt filter ib.priv_chain
    ensure_chain ipt filter ib.admin_chain
    require_rule ipt forward (generate_filter_rule ib.priv_chain)
    require_rule ipt ib.priv_chain (generate_admin_rule ib.admin_chain)
    for_each (r ∷ rs) (require_rule ipt ib.priv_chain)

abbrev pub Families : Type 0 → Type 0
Families S = List (Bool × IpTables S)

-- The backend over the families in the order in which Go visits its map.
module _ {S : Type 0} (ip_text : Ip → Text) (ib : IptablesBackend) where
  unfoldable pub add : Families S → CniResult → Eff S (Unit {0})
  unfolding add_rules
  add families r =
      for_each families (λ (is_v6, ipt). add_rules ipt ib (family_rules ip_text is_v6 r.ips))

  unfoldable pub del : Families S → CniResult → Eff S (Unit {0})
  unfolding del_rules
  del families r =
      for_each families
        (λ (is_v6, ipt). ignore (del_rules ipt ib (family_rules ip_text is_v6 r.ips)))

  unfoldable pub check : Families S → CniResult → Eff S (Unit {0})
  unfolding check_rules
  check families r =
      for_each families (λ (is_v6, ipt). check_rules ipt ib (family_rules ip_text is_v6 r.ips))

  abbrev backend_of : Families S → FirewallBackend S
  backend_of families = record { add = add families; del = del families; check = check families }

  -- newIptablesBackend: both families have to be usable.
  unfoldable pub new_iptables_backend :
      (Bool → Eff S (IpTables S)) → (Families S → Families S) → Eff S (FirewallBackend S)
  unfolding add del check
  new_iptables_backend open_tables visits = do
    ipt4 ← failing_as failed (open_tables false)
    ipt6 ← failing_as failed (open_tables true)
    pure (backend_of (visits ((false, ipt4) ∷ (true, ipt6) ∷ [])))
