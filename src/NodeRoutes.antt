-- ===== src/NodeRoutes.antt =====
-- pkg/controller: net.go and controller.go, the routes to the networks of the cluster's nodes. The API
-- server, etcd and the routing table are parameters; what the source only logs is left out.
pub mod Reached
pub mod Examples
use village_net.Common.{
  Bool, true, false, if◌then◌else◌, List, [], ◌∷◌, ◌++◌, Option, none, some, Result, ok, err,
  text_eq, codes, insert,
}
use village_net.Net.{Ip, IpNet}
use village_net.HostLocal.Store.{Text}
use village_net.Cni.Effects.{
  Error, Eff, panic, failed, not_found, pure, raise, attempt, ignore, for_each, ◌>>=◌, ◌>>◌,
}

pub record NodeNetInfo : Type 0 where
  pub hostname : Text
  pub public_ip : Text
  pub cidr : Text
  pub bridge_if : Text
  pub macvlan_if : Text

-- HostGw: the name of this host and its link to the other nodes.
pub record HostGw : Type 0 where
  pub hostname : Text
  pub link : Text

-- A node of the API server, with its annotations, a map that may be nil.
pub record Node : Type 0 where
  pub pod_cidr : Text
  pub annotations : Option (List (Text × Text))

-- A value of etcd that is no NodeNetInfo is read as none.
pub record ControllerHost (S : Type 0) : Type 0 where
  pub host_name : Text
  pub bridge_parent : Text
  pub macvlan_parent : Text
  pub parse_cidr : Text → Option IpNet
  pub parse_ip : Text → Ip
  pub link_by_name : Text → Eff S (Unit {0})
  pub route_add : IpNet → Ip → Text → Eff S (Unit {0})
  pub bridge_public_ip : Eff S Text
  pub get_node : Text → Eff S (Option Node)
  pub update_node : Node → Eff S (Unit {0})
  pub etcd_get : Text → Eff S (List (Option NodeNetInfo))
  pub etcd_put : Text → NodeNetInfo → Eff S (Unit {0})

module _ {S : Type 0} (h : ControllerHost S) where
  unfoldable pub get_node_net_info : Eff S NodeNetInfo
  get_node_net_info = do
    br_pub_ip ← h.bridge_public_ip
    pure (record {
      hostname = h.host_name;
      public_ip = br_pub_ip;
      cidr = [];
      bridge_if = h.bridge_parent;
      macvlan_if = h.macvlan_parent;
    })

  unfoldable pub new_host_gw : Eff S HostGw
  new_host_gw = do
    h.link_by_name h.bridge_parent
    pure (record { hostname = h.host_name; link = h.bridge_parent })

  abbrev pub route_to : HostGw → NodeNetInfo → Option IpNet → Eff S (Unit {0})
  route_to gw info none = raise failed
  route_to gw info (some cidr) = h.route_add cidr (h.parse_ip info.public_ip) gw.link

  unfoldable pub sync_node_route : HostGw → NodeNetInfo → Eff S (Unit {0})
  sync_node_route gw info =
      if text_eq gw.hostname info.hostname
      then pure tt
      else route_to gw info (h.parse_cidr info.cidr)

  -- A value of the snapshot or of an event; errors are logged, and the loop goes on.
  abbrev pub handle : HostGw → Option NodeNetInfo → Eff S (Unit {0})
  handle gw none = pure tt
  handle gw (some info) = ignore (sync_node_route gw info)

  abbrev nodes_key : Text
  nodes_key = codes "/village/nodes"

  -- The nodes that are recorded, then the batches of events that the watch brings until it is stopped.
  unfoldable pub sync_route : HostGw → List (List (Option NodeNetInfo)) → Eff S (Unit {0})
  unfolding sync_node_route
  sync_route gw batches = attempt (h.etcd_get nodes_key) >>= λ r. elim r [
    | err e ↦ pure tt
    | ok kvs ↦ for_each kvs (handle gw) >> for_each batches (λ events. for_each events (handle gw))
  ]

  -- An annotation of a node without a map panics.
  abbrev pub annotate :
      NodeNetInfo → Option (List (Text × Text)) → Result Error (Option (List (Text × Text)))
  annotate info none = err panic
  annotate info (some m) = ok (
      some (
        insert (codes "village.hdls.me/macvlan-if") info.macvlan_if (
          insert (codes "village.hdls.me/bridge-if") info.bridge_if (
            insert (codes "village.hdls.me/public-ip") info.public_ip
              (insert (codes "village.hdls.me/pod-cidr") info.cidr m)))))

  abbrev pub record_node : NodeNetInfo → Node → Eff S (Unit {0})
  record_node info node = elim (annotate info node.annotations) [
    | err e ↦ raise e
    | ok m ↦
        h.update_node (record node { annotations = m })
        >> h.etcd_put (codes "/village/nodes/" ++ info.hostname) info
  ]

  abbrev pub found_node : Option Node → Eff S Node
  found_node none = raise not_found
  found_node (some node) = pure node

  unfoldable pub init_node_info : Eff S (Unit {0})
  unfolding get_node_net_info
  init_node_info = do
    r ← h.get_node h.host_name
    node ← found_node r
    info ← get_node_net_info
    record_node (record info { cidr = node.pod_cidr }) node

  unfoldable pub service : HostGw → List (List (Option NodeNetInfo)) → Eff S (Unit {0})
  unfolding init_node_info sync_route
  service gw batches = init_node_info >> sync_route gw batches
