-- ===== src/VillageIpam/Client.antt =====
-- plugins/ipam/village-ipam/client.go: addresses bound to containers in one config map of the API
-- server. The server is a parameter: a call reads or replaces its state, or fails. A value under a
-- key of the config map is missing, malformed JSON, or what the JSON stands for.
pub mod Maps
pub mod Counting
pub mod Outcome
pub mod Scan
use village_net.Common.{
  ℕ, zero, suc, ◌+◌, ◌-◌, ◌%◌, Bool, true, false, not, ◌||◌, List, [], ◌∷◌, ◌++◌, Option, none,
  some, ◌==◌, if◌then◌else◌, length, get_or, set, text_eq, Result, ok, err, ◌>>=◌,
}
use village_net.Net.{Ip, IpNet, is_nil, to4, mask_ip, net_contains}
use village_net.HostLocal.Store.{Text}
use village_net.HostLocal.Allocator.{Version, v4, v6}
use Maps.{Bindings, lookup, bind, remove_container, has_container}

-- Go's text of addresses: IP.String, net.ParseIP and net.ParseCIDR.
pub record NetText : Type 0 where
  pub format : Ip → Text
  pub parse : Text → Ip
  pub parse_cidr : Text → Option (Ip × IpNet)

pub data Error : Type 0 where
  get_failed update_failed bad_interfaces bad_container_ips bad_range : Error

pub data Stored (A : Type 0) : Type 0 where
  missing malformed : Stored A
  decoded : A → Stored A

pub record IfConfig : Type 0 where
  pub name : Text
  pub range : Text
  pub gate_way : Text

pub record ConfigMap : Type 0 where
  pub interfaces : Stored (List IfConfig)
  pub container_ips : Stored Bindings

pub record Api (S : Type 0) : Type 0 where
  pub get_config_map : S → Result Error ConfigMap
  pub update_config_map : ConfigMap → S → Result Error (Unit {0}) × S

pub record IpConfig : Type 0 where
  pub version : Version
  pub interface : ℕ
  pub address : IpNet
  pub gateway : Ip

pub record Assigned : Type 0 where
  pub interfaces : List Text
  pub ips : List IpConfig

-- json.Unmarshal of a value: a missing one is empty text, which is no JSON.
abbrev pub unmarshal : {A : Type 0} → Error → Stored A → Result Error A
unmarshal e missing = err e
unmarshal e malformed = err e
unmarshal e (decoded a) = ok a

-- AssignIp stores an empty map first where there is none.
abbrev pub unmarshal_or_empty : Stored Bindings → Result Error Bindings
unmarshal_or_empty missing = ok []
unmarshal_or_empty s = unmarshal bad_container_ips s

-- getMin: the network's address, or the one behind it if its last byte is zero.
unfoldable pub get_min : Ip → IpNet → Ip
get_min ip net =
    let i = mask_ip ip net.mask in
    let last = length i - 1 in if get_or i last 0 == 0 then set i last 1 else i

-- The carry of inc, from the last byte on, and the bytes that it has not come to.
unfoldable pub inc_carry : List ℕ → Bool × List ℕ
inc_carry [] = (true, [])
inc_carry (b ∷ bs) =
    let (carry, rest) = inc_carry bs in
    if carry then ((b + 1) % 256 == 0, ((b + 1) % 256) ∷ rest) else (false, b ∷ rest)

-- inc: the next address, in place; behind the last address comes the first.
unfoldable pub inc : Ip → Ip
unfolding inc_carry
inc ip = (inc_carry ip).1

-- The two maps that AssignIp starts from.
abbrev pub start : ConfigMap → Result Error (List IfConfig × Bindings)
start cm = do
  devs ← unmarshal bad_interfaces cm.interfaces
  bound ← unmarshal_or_empty cm.container_ips
  ok (devs, bound)

module _ (t : NetText) where
  -- The loop over the addresses of a range: the first that is bound to nothing, nil if there is
  -- none. `none` where the fuel runs out.
  unfoldable pub scan : ℕ → IpNet → Bindings → Ip → Option Ip
  scan zero net bound ip = none
  scan (suc f) net bound ip =
      let rest = scan f net bound (inc ip) in
      if not (net_contains net ip)
      then some []
      else elim (lookup (t.format ip) bound) [ none ↦ some ip | some container ↦ rest ]

  abbrev pub config_of : IpNet → Ip → ℕ → IfConfig → IpConfig
  config_of net ip index dev = record {
    version = if is_nil (to4 ip) then v6 else v4;
    interface = index;
    address =
        if is_nil ip then record { ip = []; mask = [] } else record { ip = ip; mask = net.mask };
    gateway = t.parse dev.gate_way;
  }

  -- One round of the loop over the interfaces.
  unfoldable pub assign_one :
      ℕ → Text → ℕ → IfConfig → Assigned × Bindings → Option (Result Error (Assigned × Bindings))
  assign_one fuel container index dev (result, bound) = elim (t.parse_cidr dev.range) [
    | none ↦ some (err bad_range)
    | some (ip, net) ↦ elim (scan fuel net bound (get_min ip net)) [
      | none ↦ none
      | some free ↦ some (
          ok (
            record {
              interfaces = result.interfaces ++ (dev.name ∷ []);
              ips = result.ips ++ (config_of net free index dev ∷ []);
            },
            bind (t.format free) container bound,
          ))
    ]
  ]

  unfoldable pub assign_all :
      ℕ
      → Text
      → ℕ
      → List IfConfig
      → Assigned × Bindings
      → Option (Result Error (Assigned × Bindings))
  assign_all fuel container index [] acc = some (ok acc)
  assign_all fuel container index (dev ∷ devs) acc =
      elim (assign_one fuel container index dev acc) [
        | none ↦ none
        | some (err e) ↦ some (err e)
        | some (ok acc') ↦ assign_all fuel container (index + 1) devs acc'
      ]

  module _ {S : Type 0} (api : Api S) where
    -- AssignIp from the two maps on: the loop, and the update of the config map.
    unfoldable pub assign_from :
        ℕ → Text → ConfigMap → List IfConfig × Bindings → S → Option (Result Error Assigned × S)
    assign_from fuel container cm (devs, bound) s =
        elim (assign_all fuel container 0 devs (record { interfaces = []; ips = [] }, bound)) [
          | none ↦ none
          | some (err e) ↦ some (err e, s)
          | some (ok (result, bound')) ↦
              let (updated, s') =
                api.update_config_map (record cm { container_ips = decoded bound' }) s in
              some (elim updated [ err e ↦ err e | ok u ↦ ok result ], s')
        ]

    unfoldable pub assign_ip : ℕ → Text → S → Option (Result Error Assigned × S)
    assign_ip fuel container s = elim (api.get_config_map s) [
      | err e ↦ some (err e, s)
      | ok cm ↦ elim (start cm) [
        | err e ↦ some (err e, s)
        | ok maps ↦ assign_from fuel container cm maps s
      ]
    ]

    unfoldable pub check : Text → S → Result Error Bool
    check container s = do
      cm ← api.get_config_map s
      bound ← unmarshal bad_container_ips cm.container_ips
      ok (has_container container bound)

    unfoldable pub delete_ip : Text → S → Result Error (Unit {0}) × S
    delete_ip container s = elim (api.get_config_map s) [
      | err e ↦ (err e, s)
      | ok cm ↦ elim (unmarshal bad_container_ips cm.container_ips) [
        | err e ↦ (err e, s)
        | ok bound ↦
            api.update_config_map
              (record cm { container_ips = decoded (remove_container container bound) }) s
      ]
    ]
