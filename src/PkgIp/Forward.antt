-- ===== src/PkgIp/Forward.antt =====
-- pkg/ip/ipforward_linux.go and pkg/ip/addr_linux.go: forwarding, and addresses that settle.
use village_net.Common.{
  ℕ, zero, suc, Bool, true, false, if◌then◌else◌, List, [], ◌∷◌, Option, none, some, Result, ok,
  err, codes, text_eq,
}
use village_net.HostLocal.Store.{Text}
use village_net.HostLocal.Allocator.{Version, v4, v6}
use village_net.Cni.{IpConfig}
use village_net.Cni.Effects.{Error, Eff, failed, pure, raise, attempt, failing_as, ◌>>=◌, ◌>>◌}

-- A file is read trimmed, without the spaces around its text.
module _ {S : Type 0} (read_trimmed : Text → Eff S Text)
    (write_file : Text → Text → Eff S (Unit {0})) where
  abbrev write_unless_one : Text → Result Error Text → Eff S (Unit {0})
  write_unless_one f (ok content) =
      if text_eq content (codes "1") then pure tt else write_file f (codes "1")
  write_unless_one f (err e) = write_file f (codes "1")

  unfoldable pub echo1 : Text → Eff S (Unit {0})
  echo1 f = attempt (read_trimmed f) >>= write_unless_one f

  unfoldable pub enable_ip4_forward : Eff S (Unit {0})
  unfolding echo1
  enable_ip4_forward = echo1 (codes "/proc/sys/net/ipv4/ip_forward")

  unfoldable pub enable_ip6_forward : Eff S (Unit {0})
  unfolding echo1
  enable_ip6_forward = echo1 (codes "/proc/sys/net/ipv6/conf/all/forwarding")

  -- One address, with the families that have been enabled, and the rest of the loop.
  abbrev pub forward_one :
      Bool → Bool → Version → (Bool → Bool → Eff S (Unit {0})) → Eff S (Unit {0})
  forward_one false done6 v4 rest = enable_ip4_forward >> rest true done6
  forward_one true done6 v4 rest = rest true done6
  forward_one done4 false v6 rest = enable_ip6_forward >> rest done4 true
  forward_one done4 true v6 rest = rest done4 true

  abbrev pub forward_loop : List IpConfig → Bool → Bool → Eff S (Unit {0})
  forward_loop [] done4 done6 = pure tt
  forward_loop (ip ∷ ips) done4 done6 = forward_one done4 done6 ip.version (forward_loop ips)

  unfoldable pub enable_forward : List IpConfig → Eff S (Unit {0})
  unfolding enable_ip4_forward enable_ip6_forward
  enable_forward ips = forward_loop ips false false

-- SettleAddresses: whether an address is tentative or failed its detection of duplicates. The clock is
-- asked after each look at the addresses, and fuel counts the looks.
pub record SettleHost (S : Type 0) : Type 0 where
  pub link_index : Text → Eff S ℕ
  pub addr_flags : ℕ → Eff S (List Bool)
  pub is_past_deadline : Eff S Bool
  pub sleep : Eff S (Unit {0})

abbrev pub any_tentative : List Bool → Bool
any_tentative [] = false
any_tentative (b ∷ bs) = if b then true else any_tentative bs

module _ {S : Type 0} (h : SettleHost S) where
  abbrev pub settle_next : Eff S (Option (Unit {0})) → Bool → Eff S (Option (Unit {0}))
  settle_next again false = pure (some tt)
  settle_next again true =
      h.is_past_deadline >>= λ past. if past then raise failed else (h.sleep >> again)

  unfoldable pub settle_loop : ℕ → ℕ → Eff S (Option (Unit {0}))
  settle_loop zero index = pure none
  settle_loop (suc fuel) index = do
    addrs ← failing_as failed (h.addr_flags index)
    settle_next (settle_loop fuel index) (any_tentative addrs)

  unfoldable pub settle_addresses : ℕ → Text → Eff S (Option (Unit {0}))
  unfolding settle_loop
  settle_addresses fuel if_name = failing_as failed (h.link_index if_name) >>= settle_loop fuel
