-- ===== src/Bandwidth.antt =====
-- plugins/meta/bandwidth: main.go and ifb_creator.go, over the operations on links and queues. The
-- sizes of buffers, which the source computes in floating point, are parameters.
use village_net.Common.{
  ℕ, ◌%◌, ◌/◌, ◌≡◌, refl, Bool, true, false, not, ◌&&◌, ◌||◌, ◌==◌, ltb, leb, if◌then◌else◌, List,
  [], ◌∷◌, ◌++◌, Option, none, some, arith, Result, ok, err, text_eq, codes,
}
use village_net.HostLocal.Store.{Text}
use village_net.Cni.{Interface}
use village_net.Cni.Effects.{
  Error, Eff, panic, failed, link_not_found, no_prev_result, no_interfaces, not_found, pure, raise,
  attempt, failing_as, ◌>>=◌, ◌>>◌,
}
use village_net.Portmap.Texts.{must_format_hash_with_prefix}
pub mod Checks

pub record BandwidthEntry : Type 0 where
  pub ingress_rate : ℕ
  pub ingress_burst : ℕ
  pub egress_rate : ℕ
  pub egress_burst : ℕ

-- PluginConf; the interfaces are those of the previous result, if there is one.
pub record PluginConf : Type 0 where
  pub name : Text
  pub runtime_bandwidth : Option BandwidthEntry
  pub bandwidth : Option BandwidthEntry
  pub prev_interfaces : Option (List Interface)

pub data Qdisc : Type 0 where
  tbf : ℕ → ℕ → ℕ → Qdisc
  pfifo_fast other_qdisc : Qdisc

pub record BwLink : Type 0 where
  pub index : ℕ
  pub mtu : ℕ
  pub mac : Text

-- The host. A queue of tokens is added with its rate, limit and buffer.
pub record BwHost (S : Type 0) : Type 0 where
  pub get_ns : Text → Eff S (Unit {0})
  pub veth_peer_index : Text → Text → Eff S ℕ
  pub name_by_index : ℕ → Eff S Text
  pub link_by_name : Text → Eff S BwLink
  pub add_ifb : Text → ℕ → Eff S (Unit {0})
  pub del_link_addr : Text → Eff S (Unit {0})
  pub qdisc_list : Text → Eff S (List Qdisc)
  pub add_tbf : ℕ → ℕ → ℕ → ℕ → Eff S (Unit {0})
  pub add_ingress : ℕ → Eff S (Unit {0})
  pub add_filter : ℕ → ℕ → Eff S (Unit {0})

-- The rate and the burst in bytes give the buffer and the limit.
pub record Sizes : Type 0 where
  pub buffer : ℕ → ℕ → ℕ
  pub limit : ℕ → ℕ → ℕ

unfoldable pub is_zero : BandwidthEntry → Bool
is_zero bw =
    bw.ingress_burst == 0 && bw.ingress_rate == 0 && bw.egress_burst == 0 && bw.egress_rate == 0

unfoldable pub get_bandwidth : PluginConf → Option BandwidthEntry
get_bandwidth conf = elim conf.bandwidth [ none ↦ conf.runtime_bandwidth | some bw ↦ some bw ]

-- validateRateAndBurst; the numbers are unsigned.
unfoldable pub validate_rate_and_burst : ℕ → ℕ → Bool
validate_rate_and_burst rate burst =
    if burst == 0 && not (rate == 0)
    then false
    else if rate == 0 && not (burst == 0)
    then false
    else ltb (burst / 8) 4294967295

unfoldable pub validate_conf : PluginConf → Bool
unfolding validate_rate_and_burst
validate_conf conf = elim (get_bandwidth conf) [
  | none ↦ true
  | some bw ↦
      validate_rate_and_burst bw.ingress_rate bw.ingress_burst
      && validate_rate_and_burst bw.egress_rate bw.egress_burst
]

abbrev pub limited : ℕ → ℕ → Bool
limited rate burst = ltb 0 rate && ltb 0 burst

module _ {S : Type 0} (h : BwHost S) (z : Sizes) (hash : Text → Text) where
  -- The name of the ifb device: 15 characters, which begin with "bwp".
  abbrev the_name : Option Text → Eff S Text
  the_name none = raise panic
  the_name (some name) = pure name

  unfoldable pub get_ifb_device_name : Text → Text → Eff S Text
  get_ifb_device_name network_name container_id =
      the_name (must_format_hash_with_prefix hash 15 (codes "bwp") (network_name ++ container_id))

  unfoldable pub get_mtu : Text → Eff S ℕ
  get_mtu device = h.link_by_name device >>= λ l. pure l.mtu

  abbrev find_host : Text → List Interface → Eff S Interface
  find_host name [] = raise not_found
  find_host name (i ∷ is) =
      if text_eq i.sandbox [] && text_eq i.name name then pure i else find_host name is

  abbrev index_or_zero : Result Error ℕ → Eff S ℕ
  index_or_zero (ok n) = pure n
  index_or_zero (err e) = pure 0

  unfoldable pub get_host_interface : List Interface → Text → Text → Eff S Interface
  get_host_interface [] if_name netns = raise no_interfaces
  get_host_interface (i ∷ is) if_name netns = do
    peer ← attempt (h.veth_peer_index netns if_name) >>= index_or_zero
    if peer == 0 then raise not_found else pure tt
    name ← failing_as not_found (h.name_by_index peer)
    find_host name (i ∷ is)

  unfoldable pub create_tbf : ℕ → ℕ → ℕ → Eff S (Unit {0})
  create_tbf rate burst index =
      if rate == 0 || burst == 0
      then raise failed
      else failing_as failed (
          h.add_tbf index (rate / 8) (z.limit (rate / 8) (burst / 8))
            (z.buffer (rate / 8) (burst / 8)))

  unfoldable pub create_ifb : Text → ℕ → Eff S (Unit {0})
  create_ifb name mtu = failing_as failed (h.add_ifb name mtu)

  unfoldable pub teardown_ifb : Text → Eff S (Unit {0})
  teardown_ifb name = attempt (h.del_link_addr name) >>= λ r. elim r [
    | ok u ↦ pure tt
    | err link_not_found ↦ pure tt
    | err e ↦ raise e
  ]

  unfoldable pub create_ingress_qdisc : ℕ → ℕ → Text → Eff S (Unit {0})
  unfolding create_tbf
  create_ingress_qdisc rate burst device = do
    l ← failing_as failed (h.link_by_name device)
    create_tbf rate burst l.index

  unfoldable pub create_egress_qdisc : ℕ → ℕ → Text → Text → Eff S (Unit {0})
  unfolding create_tbf
  create_egress_qdisc rate burst device ifb_device = do
    ifb ← failing_as failed (h.link_by_name ifb_device)
    l ← failing_as failed (h.link_by_name device)
    failing_as failed (h.add_ingress l.index)
    failing_as failed (h.add_filter l.index ifb.index)
    failing_as failed (create_tbf rate burst ifb.index)

  abbrev add_egress :
      PluginConf → BandwidthEntry → Text → Text → List Interface → Eff S (List Interface)
  add_egress conf bw container_id device intfs =
      if not (limited bw.egress_rate bw.egress_burst) then pure intfs else (do
        mtu ← get_mtu device
        name ← get_ifb_device_name conf.name container_id
        create_ifb name mtu
        l ← h.link_by_name name
        create_egress_qdisc bw.egress_rate bw.egress_burst device name
        pure (intfs ++ (record { name = name; mac = l.mac; sandbox = [] } ∷ [])))

  -- cmdAdd: the interfaces of the printed result, if there is a previous one.
  abbrev add_limits :
      PluginConf → BandwidthEntry → Text → Text → Text → List Interface → Eff S (List Interface)
  add_limits conf bw container_id if_name netns intfs = do
    failing_as failed (h.get_ns netns)
    host ← get_host_interface intfs if_name netns
    if limited bw.ingress_rate bw.ingress_burst
        then create_ingress_qdisc bw.ingress_rate bw.ingress_burst host.name
        else pure tt
    add_egress conf bw container_id host.name intfs

  unfoldable pub cmd_add : Text → Text → Text → PluginConf → Eff S (Option (List Interface))
  unfolding get_host_interface create_ingress_qdisc create_egress_qdisc get_mtu get_ifb_device_name
      create_ifb
  cmd_add container_id if_name netns conf =
      if not (validate_conf conf) then raise failed else elim (get_bandwidth conf) [
        | none ↦ pure conf.prev_interfaces
        | some bw ↦ if is_zero bw then pure conf.prev_interfaces else elim conf.prev_interfaces [
          | none ↦ raise no_prev_result
          | some intfs ↦ add_limits conf bw container_id if_name netns intfs >>= λ r. pure (some r)
        ]
      ]

  unfoldable pub cmd_del : Text → PluginConf → Eff S (Unit {0})
  unfolding get_ifb_device_name teardown_ifb
  cmd_del container_id conf =
      if not (validate_conf conf)
      then raise failed
      else get_ifb_device_name conf.name container_id >>= teardown_ifb

  -- SafeQdiscList
  abbrev without_pfifo : List Qdisc → List Qdisc
  without_pfifo [] = []
  without_pfifo (pfifo_fast ∷ qs) = without_pfifo qs
  without_pfifo (q ∷ qs) = q ∷ without_pfifo qs

  -- The queues up to the first that is no queue of tokens.
  unfoldable pub check_qdiscs : ℕ → ℕ → List Qdisc → Eff S (Unit {0})
  check_qdiscs rate burst (tbf r l b ∷ qs) =
      let rest = check_qdiscs rate burst qs in
      if r == rate / 8
        && (l == z.limit (rate / 8) (burst / 8) && b == z.buffer (rate / 8) (burst / 8))
      then rest
      else raise failed
  check_qdiscs rate burst _ = pure tt

  unfoldable pub check_device : ℕ → ℕ → Text → Eff S (Unit {0})
  unfolding check_qdiscs
  check_device rate burst device = do
    all ← h.qdisc_list device
    elim (without_pfifo all) [ [] ↦ raise not_found | q ∷ qs ↦ check_qdiscs rate burst (q ∷ qs) ]

  -- The part of cmdCheck that reads the bandwidth: a nil pointer where none is configured.
  abbrev check_limits : PluginConf → Text → Text → Option BandwidthEntry → Eff S (Unit {0})
  check_limits conf container_id device none = raise panic
  check_limits conf container_id device (some bw) = do
    if limited bw.ingress_rate bw.ingress_burst
        then check_device bw.ingress_rate bw.ingress_burst device
        else pure tt
    if not (limited bw.egress_rate bw.egress_burst) then pure tt else (do
      name ← get_ifb_device_name conf.name container_id
      failing_as failed (h.link_by_name name)
      check_device bw.egress_rate bw.egress_burst name)

  abbrev check_interfaces : PluginConf → Text → Text → Text → List Interface → Eff S (Unit {0})
  check_interfaces conf container_id if_name netns intfs = do
    failing_as failed (h.get_ns netns)
    host ← get_host_interface intfs if_name netns
    l ← h.link_by_name host.name
    check_limits conf container_id host.name (get_bandwidth conf)

  unfoldable pub cmd_check : Text → Text → Text → PluginConf → Eff S (Unit {0})
  unfolding get_host_interface check_device get_ifb_device_name
  cmd_check container_id if_name netns conf =
      if not (validate_conf conf) then raise failed else elim conf.prev_interfaces [
        | none ↦ raise no_prev_result
        | some intfs ↦ check_interfaces conf container_id if_name netns intfs
      ]
