-- ===== src/Static.antt =====
-- plugins/ipam/static/main.go: the addresses of a configuration, and the commands.
use village_net.Common.{
  ℕ, suc, ◌≡◌, refl, Bool, true, false, ◌&&◌, ◌||◌, ltb, if◌then◌else◌, List, [], ◌∷◌, ◌++◌, map,
  Option, none, some, Result, ok, err, ◌>>=◌,
}
use village_net.Net.{Ip, IpNet, is_nil, to4, ip_equal, net_contains}
use village_net.HostLocal.Store.{Text}
use village_net.HostLocal.Allocator.{Version, v4, v6}
use village_net.HostLocal.Range.{canonicalize_ip}
use village_net.Cni.{CniResult, IpConfig, Route}

pub data StaticError : Type 0 where
  nil_dereference bad_args bad_cidr bad_gateway missing_ipam bad_address too_many_addresses :
      StaticError
  no_prev_result no_match : StaticError

-- The version is set where the address is validated.
pub record Address : Type 0 where
  pub address_str : Text
  pub gateway : Ip
  pub address : IpNet
  pub version : Version

pub record IpamConfig : Type 0 where
  pub name : Text
  pub routes : List Route
  pub addresses : List Address

-- IPAMEnvArgs, cut at the commas and trimmed.
pub record EnvArgs : Type 0 where
  pub ips : List Text
  pub gateways : List Text

-- Net, and CNI_ARGS: malformed, empty, or read.
pub record NetInput : Type 0 where
  pub name : Text
  pub cni_version : Text
  pub ipam : Option IpamConfig
  pub runtime_ips : List Text
  pub args_ips : List Text

-- ParseCIDR gives the address and the mask; ParseIP gives nil for a malformed text.
pub record AddressTexts : Type 0 where
  pub parse_cidr : Text → Option (Ip × List ℕ)
  pub parse_ip : Text → Ip

abbrev by_text : Text → Address
by_text str = record {
  address_str = str;
  gateway = [];
  address = record { ip = []; mask = [] };
  version = v4;
}

abbrev same_version : Version → Version → Bool
same_version v4 v4 = true
same_version v6 v6 = true
same_version _ _ = false

abbrev pub count_version : Version → List Address → ℕ
count_version v [] = 0
count_version v (a ∷ addrs) =
    let rest = count_version v addrs in if same_version a.version v then suc rest else rest

module _ (x : AddressTexts) where
  unfoldable pub env_addresses : List Text → Result StaticError (List Address)
  env_addresses [] = ok []
  env_addresses (str ∷ strs) = elim (x.parse_cidr str) [
    | none ↦ err bad_cidr
    | some (ip, mask) ↦ do
      rest ← env_addresses strs
      ok (record (by_text str) { address = record { ip = ip; mask = mask } } ∷ rest)
  ]

  abbrev with_gateway : Ip → Address → Address
  with_gateway gw a = if net_contains a.address gw then record a { gateway = gw } else a

  unfoldable pub set_gateways : List Text → List Address → Result StaticError (List Address)
  set_gateways [] addrs = ok addrs
  set_gateways (g ∷ gs) addrs =
      let gw = x.parse_ip g in
      let rest = set_gateways gs (map (with_gateway gw) addrs) in
      if is_nil gw then err bad_gateway else rest

  -- The first use of CNI_ARGS without an ipam section is a nil pointer's.
  unfoldable pub load_env_nil : List Text → List Text → Result StaticError (Option IpamConfig)
  load_env_nil [] [] = ok none
  load_env_nil [] (g ∷ gs) = if is_nil (x.parse_ip g) then err bad_gateway else err nil_dereference
  load_env_nil (str ∷ strs) gs = elim (x.parse_cidr str) [
    | none ↦ err bad_cidr
    | some c ↦ err nil_dereference
  ]

  unfoldable pub load_env :
      Result (Unit {0}) (Option EnvArgs)
      → Option IpamConfig
      → Result StaticError (Option IpamConfig)
  unfolding env_addresses set_gateways load_env_nil
  load_env (err u) ipam = err bad_args
  load_env (ok none) ipam = ok ipam
  load_env (ok (some e)) none = load_env_nil e.ips e.gateways
  load_env (ok (some e)) (some ipam) = do
    addrs ← env_addresses e.ips
    all ← set_gateways e.gateways (ipam.addresses ++ addrs)
    ok (some (record ipam { addresses = all }))

  -- The addresses of the arguments and of the runtime take the place of the others.
  unfoldable pub overwrite : List Text → Option IpamConfig → Result StaticError (Option IpamConfig)
  overwrite [] ipam = ok ipam
  overwrite (str ∷ strs) none = err nil_dereference
  overwrite (str ∷ strs) (some ipam) =
      ok (some (record ipam { addresses = map by_text (str ∷ strs) }))

  unfoldable pub validate_address : Address → Result StaticError Address
  validate_address a = elim (x.parse_cidr a.address_str) [
    | none ↦ err bad_cidr
    | some (ip, mask) ↦ elim (canonicalize_ip ip) [
      | err e ↦ err bad_address
      | ok b ↦ ok (record a {
        address = record { ip = b; mask = mask };
        version = if is_nil (to4 b) then v6 else v4;
      })
    ]
  ]

  unfoldable pub validate_all : List Address → Result StaticError (List Address)
  unfolding validate_address
  validate_all [] = ok []
  validate_all (a ∷ addrs) = do b ← validate_address a; rest ← validate_all addrs; ok (b ∷ rest)

  unfoldable pub load_ipam_config :
      (Text → Bool) → NetInput → Result (Unit {0}) (Option EnvArgs) → Result StaticError IpamConfig
  unfolding load_env overwrite validate_all
  load_ipam_config is_old n env = do
    from_env ← load_env env n.ipam
    from_args ← overwrite n.args_ips from_env
    ipam ← overwrite n.runtime_ips from_args
    elim ipam [
      | none ↦ err missing_ipam
      | some conf ↦ do
        addrs ← validate_all conf.addresses
        if (ltb 1 (count_version v4 addrs) || ltb 1 (count_version v6 addrs))
              && is_old n.cni_version
            then err too_many_addresses
            else ok (record conf { name = n.name; addresses = addrs })
    ]

  abbrev ip_config : Address → IpConfig
  ip_config a = record {
    version = a.version;
    interface = none;
    address = a.address;
    gateway = a.gateway;
  }

  -- cmdAdd: the printed result.
  unfoldable pub cmd_add :
      (Text → Bool) → NetInput → Result (Unit {0}) (Option EnvArgs) → Result StaticError CniResult
  cmd_add is_old n env = do
    conf ← load_ipam_config is_old n env
    ok (record { interfaces = []; ips = map ip_config conf.addresses; routes = conf.routes })

  -- The inner loop of cmdCheck: the first address of the result that is the configured one.
  unfoldable pub check_address : Address → List IpConfig → Result StaticError (Unit {0})
  check_address a [] = ok tt
  check_address a (ip ∷ ips) =
      let rest = check_address a ips in
      if ip_equal a.address.ip ip.address.ip
      then if is_nil a.gateway || ip_equal a.gateway ip.gateway then ok tt else err no_match
      else rest

  unfoldable pub check_addresses : List Address → List IpConfig → Result StaticError (Unit {0})
  unfolding check_address
  check_addresses [] ips = ok tt
  check_addresses (a ∷ addrs) ips = do u ← check_address a ips; check_addresses addrs ips

  unfoldable pub cmd_check :
      (Text → Bool)
      → NetInput
      → Result (Unit {0}) (Option EnvArgs)
      → Option CniResult
      → Result StaticError (Unit {0})
  unfolding check_addresses
  cmd_check is_old n env prev = do
    conf ← load_ipam_config is_old n env
    elim prev [ none ↦ err no_prev_result | some r ↦ check_addresses conf.addresses r.ips ]

load_env-nil :
    (x : AddressTexts) (str : Text) (strs gs : List Text) (c : Ip × List ℕ)
    → x.parse_cidr str ≡ some c
    → load_env x (ok (some (record { ips = str ∷ strs; gateways = gs }))) none ≡ err nil_dereference
unfolding load_env load_env_nil
load_env-nil x str strs gs c p = rw (p, load_env, load_env_nil) refl

-- Without an ipam section an address in CNI_ARGS leads to a nil pointer.
pub load_ipam_config-panics :
    (x : AddressTexts) (is_old : Text → Bool) (n : NetInput) (str : Text) (strs gs : List Text)
    (c : Ip × List ℕ)
    → n.ipam ≡ none
    → x.parse_cidr str ≡ some c
    → load_ipam_config x is_old n (ok (some (record { ips = str ∷ strs; gateways = gs })))
      ≡ err nil_dereference
unfolding load_ipam_config
load_ipam_config-panics x is_old n str strs gs c q p = rw (q, load_env-nil x str strs gs c p) refl

check_none : (x : AddressTexts) (addrs : List Address) → check_addresses x addrs [] ≡ ok tt
unfolding check_addresses
check_none x [] = refl
check_none x (a ∷ addrs) = check_none x addrs

-- CHECK succeeds where the previous result has no address, whatever is configured.
pub cmd_check-no_addresses :
    (x : AddressTexts) (is_old : Text → Bool) (n : NetInput)
    (env : Result (Unit {0}) (Option EnvArgs)) (conf : IpamConfig) (r : CniResult)
    → load_ipam_config x is_old n env ≡ ok conf
    → r.ips ≡ []
    → cmd_check x is_old n env (some r) ≡ ok tt
unfolding cmd_check
cmd_check-no_addresses x is_old n env conf r q e = rw (q, e) (check_none x conf.addresses)
