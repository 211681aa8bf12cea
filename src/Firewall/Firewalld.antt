-- ===== src/Firewall/Firewalld.antt =====
-- plugins/meta/firewall/firewalld.go: the backend of firewalld, over its calls on the bus. The error
-- `exists` is ZONE_ALREADY_SET.
use village_net.Common.{Bool, true, false, ok, err}
use village_net.Net.{Ip}
use village_net.HostLocal.Store.{Text}
use village_net.Cni.{CniResult}
use village_net.Cni.Effects.{
  Eff, failed, not_found, exists, pure, raise, attempt, ignore, failing_as, for_each, ◌>>=◌, ◌>>◌,
}
use village_net.Firewall.Backend.{FirewallNetConf, FirewallBackend, ip_string}

-- The zone and the source.
pub record Bus (S : Type 0) : Type 0 where
  pub get_conn : Eff S (Unit {0})
  pub get_name_owner : Eff S (Unit {0})
  pub add_source : Text → Text → Eff S (Unit {0})
  pub remove_source : Text → Text → Eff S (Unit {0})
  pub query_source : Text → Text → Eff S Bool

module _ {S : Type 0} (bus : Bus S) (ip_text : Ip → Text) where
  unfoldable pub is_firewalld_running : Eff S Bool
  is_firewalld_running = attempt (bus.get_conn >> bus.get_name_owner) >>= λ r. elim r [
    | ok u ↦ pure true
    | err e ↦ pure false
  ]

  unfoldable pub fwd_add : Text → CniResult → Eff S (Unit {0})
  fwd_add zone r = for_each r.ips (λ ip.
      attempt (bus.add_source zone (ip_string ip_text ip.address)) >>= λ x. elim x [
        | ok u ↦ pure tt
        | err exists ↦ pure tt
        | err e ↦ raise failed
      ])

  unfoldable pub fwd_del : Text → CniResult → Eff S (Unit {0})
  fwd_del zone r =
      for_each r.ips (λ ip. ignore (bus.remove_source zone (ip_string ip_text ip.address)))

  -- The answer is stored and not looked at.
  unfoldable pub fwd_check : Text → CniResult → Eff S (Unit {0})
  fwd_check zone r = for_each r.ips (λ ip. do
    res ← failing_as not_found (bus.query_source zone (ip_string ip_text ip.address))
    pure tt)

  unfoldable pub new_firewalld_backend : FirewallNetConf → Eff S (FirewallBackend S)
  unfolding fwd_add fwd_del fwd_check
  new_firewalld_backend conf = do
    bus.get_conn
    pure (record {
      add = fwd_add conf.firewalld_zone;
      del = fwd_del conf.firewalld_zone;
      check = fwd_check conf.firewalld_zone;
    })
