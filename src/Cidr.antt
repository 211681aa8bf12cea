-- ===== src/Cidr.antt =====
-- pkg/ip/cidr.go: addresses as numbers, their successor and predecessor, and the network of an
-- address. An address that is not of 4 or 16 bytes has the number 0.
pub mod Steps
use village_net.Common.{ℕ, ◌+◌, ◌-◌, Bool, List, [], ◌==◌, ltb, if◌then◌else◌}
use village_net.Net.{Ip, IpNet, is_nil, to4, to16, mask_ip}
use village_net.Net.Bytes.{set_bytes, bytes_loop}

unfoldable pub ip_to_int : Ip → ℕ
ip_to_int ip = let v = to4 ip in if is_nil v then set_bytes (to16 ip) else set_bytes v

-- An address has at most 16 bytes, and its successor at most 17.
abbrev pub max_bytes : ℕ
max_bytes = 17

unfoldable pub int_to_ip : ℕ → Ip
int_to_ip i = bytes_loop max_bytes i []

unfoldable pub next_ip : Ip → Ip
next_ip ip = int_to_ip (ip_to_int ip + 1)

-- `big.Int.Bytes` writes the absolute value, so the predecessor of the address 0 is [1].
unfoldable pub prev_ip : Ip → Ip
prev_ip ip = let i = ip_to_int ip in if i == 0 then int_to_ip 1 else int_to_ip (i - 1)

-- The three values of Cmp.
pub data Cmp : Type 0 where
  less same greater : Cmp

unfoldable pub cmp : Ip → Ip → Cmp
cmp a b =
    let aa = ip_to_int a in
    let bb = ip_to_int b in if ltb aa bb then less else if ltb bb aa then greater else same

unfoldable pub network : IpNet → IpNet
network ipn = record { ip = mask_ip ipn.ip ipn.mask; mask = ipn.mask }
