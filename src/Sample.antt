-- ===== src/Sample.antt =====
-- plugins/sample/main.go, the plugin that others start from: it passes its previous result on.
use village_net.Common.{
  ℕ, zero, suc, Bool, false, not, ◌&&◌, ltb, if◌then◌else◌, List, [], ◌∷◌, Option, none, some,
  text_eq, codes, length,
}
use village_net.Net.{Ip}
use village_net.HostLocal.Store.{Text}
use village_net.Cni.{CniResult, Interface, IpConfig, PrevResult, no_result, malformed, result}
use village_net.Cni.Effects.{
  Eff, failed, no_prev_result, missing_name, missing_ip_config, pure, raise, ◌>>=◌, ◌>>◌,
}

pub record SampleConf : Type 0 where
  pub cni_version : Text
  pub another_awesome_arg : Text
  pub prev : PrevResult

abbrev name_at : List Interface → ℕ → Text
name_at [] n = []
name_at (i ∷ is) zero = i.name
name_at (i ∷ is) (suc n) = name_at is n

-- An address of an interface of another name is not the container's; an index is no negative number here.
abbrev is_ours : Text → List Interface → Option ℕ → Bool
is_ours if_name interfaces none = false
is_ours if_name interfaces (some i) =
    not (ltb i (length interfaces) && not (text_eq (name_at interfaces i) if_name))

unfoldable pub container_side_ips : Bool → Text → List Interface → List IpConfig → List Ip
container_side_ips checks_names if_name interfaces [] = []
container_side_ips checks_names if_name interfaces (ip ∷ ips) =
    let rest = container_side_ips checks_names if_name interfaces ips in
    if checks_names && not (is_ours if_name interfaces ip.interface)
    then rest
    else ip.address.ip ∷ rest

module _ {S : Type 0} where
  abbrev parsed_prev : PrevResult → Eff S (Option CniResult)
  parsed_prev no_result = pure none
  parsed_prev malformed = raise failed
  parsed_prev (result r) = pure (some r)

  -- The previous result, if there is one.
  unfoldable pub parse_config : SampleConf → Eff S (Option CniResult)
  parse_config conf = do
    prev ← parsed_prev conf.prev
    if text_eq conf.another_awesome_arg [] then raise missing_name else pure prev

  abbrev some_ip : List Ip → Eff S (Unit {0})
  some_ip [] = raise missing_ip_config
  some_ip (ip ∷ ips) = pure tt

  abbrev chained : Option CniResult → Eff S CniResult
  chained none = raise no_prev_result
  chained (some r) = pure r

  unfoldable pub cmd_add : SampleConf → Text → Eff S CniResult
  unfolding parse_config container_side_ips
  cmd_add conf if_name = do
    prev ← parse_config conf
    r ← chained prev
    some_ip
        (container_side_ips (text_eq conf.cni_version (codes "0.3.0")) if_name r.interfaces r.ips)
    pure r

  unfoldable pub cmd_del : SampleConf → Eff S (Unit {0})
  unfolding parse_config
  cmd_del conf = parse_config conf >> pure tt

  unfoldable pub cmd_check : Eff S (Unit {0})
  cmd_check = raise failed
