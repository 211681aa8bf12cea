-- ===== src/VillageIpam/Examples.antt =====
-- The cluster's address management at a concrete config map.
use village_net.Common.{
  ℕ, ◌≤◌, ◌<◌, ◌≡◌, refl, true, false, [], ◌∷◌, ◌++◌, some, arith, ok, codes, text_eq, inl, inr,
  length, Bool-cases, ◌==◌,
}
use village_net.Net.{Ip, IpNet, to4, to16, mask_ip, net_contains}
use village_net.Net.Bytes.{IsBytes, set_bytes, set_bytes_inj}
use village_net.HostLocal.Store.{Text}
use village_net.VillageIpam.Client.Maps.{Bindings, lookup, bind, remove_container}
use village_net.VillageIpam.Client.{
  NetText, decoded, IfConfig, ConfigMap, Api, Assigned, get_min, inc, scan, config_of, assign_one,
  assign_all, assign_from, assign_ip, check, delete_ip,
}
use village_net.VillageIpam.Client.Scan.{scan-first}
use village_net.VillageIpam.Client.Outcome.{ApiLaws, assign_ip-keeps, check-delete_ip}

-- A network is written as its address's bytes, with a mask of 30 ones.
abbrev raw_text : NetText
raw_text = record {
  format = λ ip. ip;
  parse = to16;
  parse_cidr = λ s. some (to16 s, record { ip = s; mask = 255 ∷ 255 ∷ 255 ∷ 252 ∷ [] });
}

abbrev server : Api ConfigMap
server = record { get_config_map = λ cm. ok cm; update_config_map = λ cm s. (ok tt, cm) }

server-ApiLaws : ApiLaws server
server-ApiLaws = record { get_updated = λ cm s e. refl }

abbrev dev : IfConfig
dev = record { name = codes "br0"; range = 10 ∷ 0 ∷ 0 ∷ 0 ∷ []; gate_way = 10 ∷ 0 ∷ 0 ∷ 1 ∷ [] }

abbrev bindings : Bindings
bindings = (10 ∷ 0 ∷ 0 ∷ 1 ∷ [], codes "c1") ∷ []

abbrev cluster : ConfigMap
cluster = record { interfaces = decoded (dev ∷ []); container_ips = decoded bindings }

abbrev second : Ip
second = 10 ∷ 0 ∷ 0 ∷ 2 ∷ []

abbrev result : Assigned
result = record {
  interfaces = codes "br0" ∷ [];
  ips =
      config_of raw_text (record { ip = 10 ∷ 0 ∷ 0 ∷ 0 ∷ []; mask = 255 ∷ 255 ∷ 255 ∷ 252 ∷ [] })
        second 0 dev
      ∷ [];
}

abbrev after : ConfigMap
after = record cluster { container_ips = decoded (bindings ++ (second, codes "c2") ∷ []) }

assigned : assign_ip raw_text server 5 (codes "c2") cluster ≡ some (ok result, after)
unfolding assign_ip assign_from assign_all assign_one scan get_min mask_ip inc net_contains to4 to16
    bind lookup text_eq
assigned = refl

assign_ip-keeps_example :
    (bound' : Bindings) × (server.get_config_map after
      ≡ ok (record cluster { container_ips = decoded bound' }))
    × (lookup (10 ∷ 0 ∷ 0 ∷ 1 ∷ []) bound' ≡ some (codes "c1"))
    × (check raw_text server (codes "c2") after ≡ ok true)
unfolding lookup text_eq
assign_ip-keeps_example =
    assign_ip-keeps raw_text server server-ApiLaws 5 (codes "c2") cluster after cluster (dev ∷ [])
      bindings result (10 ∷ 0 ∷ 0 ∷ 1 ∷ []) (codes "c1") refl refl (omega arith) assigned refl refl

check-delete_ip_example :
    (check raw_text server (codes "c1") (delete_ip raw_text server (codes "c1") after).1 ≡ ok false)
    × ((k c : Text)
        → lookup k (bindings ++ (second, codes "c2") ∷ []) ≡ some c
        → text_eq c (codes "c1") ≡ false
        → lookup k (remove_container (codes "c1") (bindings ++ (second, codes "c2") ∷ [])) ≡ some c)
    × (server.get_config_map (delete_ip raw_text server (codes "c1") after).1
        ≡ ok (record after {
          container_ips =
              decoded (remove_container (codes "c1") (bindings ++ (second, codes "c2") ∷ []));
        }))
unfolding delete_ip
check-delete_ip_example =
    check-delete_ip raw_text server server-ApiLaws (codes "c1") after after
      (bindings ++ (second, codes "c2") ∷ []) refl refl refl

abbrev wide_net : IpNet
wide_net = record { ip = 10 ∷ 0 ∷ 0 ∷ 0 ∷ []; mask = 255 ∷ 255 ∷ 0 ∷ 0 ∷ [] }

-- The two addresses in front of the one that is free; the last byte of the second is full.
abbrev last_two : Bindings
last_two = (10 ∷ 0 ∷ 0 ∷ 254 ∷ [], codes "c1") ∷ (10 ∷ 0 ∷ 0 ∷ 255 ∷ [], codes "c2") ∷ []

IsBytes-last_two : (b : ℕ) → 253 < b → b < 256 → IsBytes (10 ∷ 0 ∷ 0 ∷ b ∷ [])
IsBytes-last_two b l h = (omega arith, (omega arith, (omega arith, (h, tt))))

last_two-taken :
    (b : Ip)
    → IsBytes b
    → length b ≡ 4
    → set_bytes (10 ∷ 0 ∷ 0 ∷ 254 ∷ []) ≤ set_bytes b
    → set_bytes b < set_bytes (10 ∷ 0 ∷ 1 ∷ 0 ∷ [])
    → (net_contains wide_net b ≡ true) × (c : Text) × (lookup b last_two ≡ some c)
unfolding set_bytes net_contains to4 to16 lookup text_eq
last_two-taken b hb len from below =
    elim (Bool-cases (set_bytes b == set_bytes (10 ∷ 0 ∷ 0 ∷ 254 ∷ []))) [
      | inl e ↦
          let same : b ≡ 10 ∷ 0 ∷ 0 ∷ 254 ∷ [] =
            set_bytes_inj b (10 ∷ 0 ∷ 0 ∷ 254 ∷ []) hb
              (IsBytes-last_two 254 (omega arith) (omega arith)) len (ground (arith, e)) in
          rw same (refl, codes "c1", refl)
      | inr e ↦
          let same : b ≡ 10 ∷ 0 ∷ 0 ∷ 255 ∷ [] =
            set_bytes_inj b (10 ∷ 0 ∷ 0 ∷ 255 ∷ []) hb
              (IsBytes-last_two 255 (omega arith) (omega arith)) len
              (ground (arith, e, from, below)) in
          rw same (refl, codes "c2", refl)
    ]

scan-first_example :
    scan raw_text 5 wide_net last_two (10 ∷ 0 ∷ 0 ∷ 254 ∷ []) ≡ some (10 ∷ 0 ∷ 1 ∷ 0 ∷ [])
unfolding net_contains to4 to16 lookup text_eq set_bytes
scan-first_example =
    scan-first raw_text wide_net last_two 5 (10 ∷ 0 ∷ 0 ∷ 254 ∷ []) (10 ∷ 0 ∷ 1 ∷ 0 ∷ [])
      (IsBytes-last_two 254 (omega arith) (omega arith))
      (omega arith, (omega arith, (omega arith, (omega arith, tt)))) refl (omega arith)
      (omega arith) last_two-taken (inr refl)
