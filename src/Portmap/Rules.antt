-- ===== src/Portmap/Rules.antt =====
-- plugins/meta/portmap/portmap.go: the chains and rules that a configuration gives.
use village_net.Common.{
  ℕ, ◌^◌, Bool, true, false, not, ◌&&◌, ◌||◌, if◌then◌else◌, List, [], ◌∷◌, ◌++◌, map, Option, none,
  some, text_eq, codes, ltb, find, insert,
}
use village_net.Net.{Ip, IpNet, is_nil, to4, ip_equal}
use village_net.HostLocal.Store.{Text}
use village_net.Portmap.Texts.{
  must_format_chain_name_with_prefix, fmt_ip_port, trim_comment, split_port_list,
}
use village_net.IpTables.{Rule}
use village_net.Portmap.Chain.{Chain}

-- A port that is not positive is 0.
pub record PortMapEntry : Type 0 where
  pub host_port : ℕ
  pub container_port : ℕ
  pub protocol : Text
  pub host_ip : Text

-- PortMapConf, once it is parsed.
pub record PortMapConf : Type 0 where
  pub name : Text
  pub snat : Bool
  pub conditions_v4 : Option (List Text)
  pub conditions_v6 : Option (List Text)
  pub mark_masq_bit : ℕ
  pub external_set_mark_chain : Option Text
  pub port_maps : List PortMapEntry
  pub container_id : Text
  pub cont_ipv4 : IpNet
  pub cont_ipv6 : IpNet

-- The texts of numbers and addresses, of Go's library: `hex` is the format %#x.
pub record PortTexts : Type 0 where
  pub hash : Text → Text
  pub itoa : ℕ → Text
  pub hex : ℕ → Text
  pub ip_text : Ip → Text
  pub net_text : IpNet → Text
  pub parse_ip : Text → Ip
  pub to_lower : Text → Text

abbrev pub top_level_dnat_chain_name : Text
top_level_dnat_chain_name = codes "CNI-HOSTPORT-DNAT"

abbrev pub set_mark_chain_name : Text
set_mark_chain_name = codes "CNI-HOSTPORT-SETMARK"

abbrev pub mark_masq_chain_name : Text
mark_masq_chain_name = codes "CNI-HOSTPORT-MASQ"

abbrev pub old_top_level_snat_chain_name : Text
old_top_level_snat_chain_name = codes "CNI-HOSTPORT-SNAT"

-- groupByProto
abbrev ports_or_none : Option (List ℕ) → List ℕ
ports_or_none none = []
ports_or_none (some ports) = ports

unfoldable pub group_by_proto : List (Text × List ℕ) → List PortMapEntry → List (Text × List ℕ)
group_by_proto out [] = out
group_by_proto out (e ∷ entries) =
    group_by_proto
      (insert e.protocol (ports_or_none (find e.protocol out) ++ (e.host_port ∷ [])) out) entries

-- sort.Strings on the keys, with what they stand for.
abbrev text_lt : Text → Text → Bool
text_lt [] [] = false
text_lt [] (y ∷ ys) = true
text_lt (x ∷ xs) [] = false
text_lt (x ∷ xs) (y ∷ ys) = if ltb x y then true else if ltb y x then false else text_lt xs ys

unfoldable pub insert_sorted : Text × List ℕ → List (Text × List ℕ) → List (Text × List ℕ)
insert_sorted p [] = p ∷ []
insert_sorted p (q ∷ qs) = if text_lt q.0 p.0 then q ∷ insert_sorted p qs else p ∷ q ∷ qs

abbrev pub sort_protos : List (Text × List ℕ) → List (Text × List ℕ)
sort_protos [] = []
sort_protos (p ∷ ps) = insert_sorted p (sort_protos ps)

abbrev extra : Option (List Text) → List Text
extra none = []
extra (some conditions) = conditions

abbrev pub is_v6_net : IpNet → Bool
is_v6_net net = is_nil (to4 net.ip)

-- The entry rules: one for each group of ports of a protocol.
unfoldable pub multiport_rules : PortTexts → Text → List Text → Text × List ℕ → List Rule
multiport_rules x comment conditions (proto, ports) =
    map
      (λ port_spec.
        codes "-m"
        ∷ codes "comment"
        ∷ codes "--comment"
        ∷ comment
        ∷ codes "-m"
        ∷ codes "multiport"
        ∷ codes "-p"
        ∷ proto
        ∷ codes "--destination-ports"
        ∷ port_spec
        ∷ conditions)
      (split_port_list x.itoa ports)

abbrev pub flat_map {ℓ κ} : {A : Type ℓ} {B : Type κ} → (A → List B) → List A → List B
flat_map f [] = []
flat_map f (x ∷ xs) = f x ++ flat_map f xs

-- IsUnspecified
abbrev is_unspecified : Ip → Bool
is_unspecified ip =
    ip_equal ip (0 ∷ 0 ∷ 0 ∷ 0 ∷ [])
    || ip_equal ip (0 ∷ 0 ∷ 0 ∷ 0 ∷ 0 ∷ 0 ∷ 0 ∷ 0 ∷ 0 ∷ 0 ∷ 0 ∷ 0 ∷ 0 ∷ 0 ∷ 0 ∷ 0 ∷ [])

abbrev same_bool : Bool → Bool → Bool
same_bool true b = b
same_bool false b = not b

-- Whether an entry is for the family, and the base of its rules.
abbrev pub for_family : PortTexts → Bool → PortMapEntry → Bool
for_family x is_v6 e =
    if text_eq e.host_ip [] then true else same_bool is_v6 (is_nil (to4 (x.parse_ip e.host_ip)))

abbrev rule_base : PortTexts → PortMapEntry → Rule
rule_base x e =
    codes "-p"
    ∷ e.protocol
    ∷ codes "--dport"
    ∷ x.itoa e.host_port
    ∷ (if text_eq e.host_ip [] || is_unspecified (x.parse_ip e.host_ip)
        then []
        else codes "-d" ∷ e.host_ip ∷ [])

abbrev mark_rule : Rule → Text → Text → Rule
mark_rule base from chain = base ++ (codes "-s" ∷ from ∷ codes "-j" ∷ chain ∷ [])

-- The rules of one entry: the marks for hairpin and for localhost, then the DNAT.
unfoldable pub entry_dnat_rules : PortTexts → PortMapConf → IpNet → Text → PortMapEntry → List Rule
entry_dnat_rules x config net mark_chain e =
    if not (for_family x (is_v6_net net) e)
    then []
    else (if config.snat then mark_rule (rule_base x e) (x.net_text net) mark_chain ∷ [] else [])
      ++ ((if config.snat && not (is_v6_net net)
            then mark_rule (rule_base x e) (codes "127.0.0.1") mark_chain ∷ []
            else [])
          ++ ((rule_base x e
                ++ (codes "-j"
                    ∷ codes "DNAT"
                    ∷ codes "--to-destination"
                    ∷ fmt_ip_port x.ip_text x.itoa net.ip e.container_port
                    ∷ []))
              ∷ []))

abbrev or_default : Option Text → Text
or_default none = set_mark_chain_name
or_default (some chain) = chain

abbrev dnat_comment : PortMapConf → Text
dnat_comment config = trim_comment (
    codes "dnat name: \""
    ++ (config.name ++ (codes "\" id: \"" ++ (config.container_id ++ codes "\""))))

-- fillDnatRules
unfoldable pub fill_dnat_rules : PortTexts → Chain → PortMapConf → IpNet → Chain
unfolding group_by_proto insert_sorted multiport_rules entry_dnat_rules
fill_dnat_rules x c config net =
    let conditions = extra (if is_v6_net net then config.conditions_v6 else config.conditions_v4) in
    let protos = sort_protos (group_by_proto [] config.port_maps) in
    record c {
      entry_rules =
          c.entry_rules ++ flat_map (multiport_rules x (dnat_comment config) conditions) protos;
      rules =
          flat_map (entry_dnat_rules x config net (or_default config.external_set_mark_chain))
            config.port_maps;
    }

unfoldable pub gen_toplevel_dnat_chain : Chain
gen_toplevel_dnat_chain = record {
  table = codes "nat";
  name = top_level_dnat_chain_name;
  entry_chains = codes "PREROUTING" ∷ codes "OUTPUT" ∷ [];
  entry_rules = (codes "-m" ∷ codes "addrtype" ∷ codes "--dst-type" ∷ codes "LOCAL" ∷ []) ∷ [];
  rules = [];
  prepend_entry = false;
}

-- A chain of a container, by the prefix of its name and its entry chain; none where the name panics.
abbrev container_chain : PortTexts → Text → Text → Text → Text → Option Chain
container_chain x net_name container_id prefix entry =
    elim (must_format_chain_name_with_prefix x.hash net_name container_id prefix) [
      | none ↦ none
      | some name ↦ some (record {
        table = codes "nat";
        name = name;
        entry_chains = entry ∷ [];
        entry_rules = [];
        rules = [];
        prepend_entry = false;
      })
    ]

unfoldable pub gen_dnat_chain : PortTexts → Text → Text → Option Chain
gen_dnat_chain x net_name container_id =
    container_chain x net_name container_id (codes "DN-") top_level_dnat_chain_name

unfoldable pub gen_old_snat_chain : PortTexts → Text → Text → Option Chain
gen_old_snat_chain x net_name container_id =
    container_chain x net_name container_id (codes "SN-") old_top_level_snat_chain_name

abbrev mark_def : PortTexts → ℕ → Text
mark_def x bit = x.hex (2 ^ bit) ++ (codes "/" ++ x.hex (2 ^ bit))

unfoldable pub gen_set_mark_chain : PortTexts → ℕ → Chain
gen_set_mark_chain x bit = record {
  table = codes "nat";
  name = set_mark_chain_name;
  entry_chains = [];
  entry_rules = [];
  rules =
      (codes "-m"
        ∷ codes "comment"
        ∷ codes "--comment"
        ∷ codes "CNI portfwd masquerade mark"
        ∷ codes "-j"
        ∷ codes "MARK"
        ∷ codes "--set-xmark"
        ∷ mark_def x bit
        ∷ [])
      ∷ [];
  prepend_entry = false;
}

unfoldable pub gen_mark_masq_chain : PortTexts → ℕ → Chain
gen_mark_masq_chain x bit = record {
  table = codes "nat";
  name = mark_masq_chain_name;
  entry_chains = codes "POSTROUTING" ∷ [];
  entry_rules =
      (codes "-m"
        ∷ codes "comment"
        ∷ codes "--comment"
        ∷ codes "CNI portfwd requiring masquerade"
        ∷ [])
      ∷ [];
  rules =
      (codes "-m"
        ∷ codes "mark"
        ∷ codes "--mark"
        ∷ mark_def x bit
        ∷ codes "-j"
        ∷ codes "MASQUERADE"
        ∷ [])
      ∷ [];
  prepend_entry = true;
}
