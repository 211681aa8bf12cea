-- ===== src/Lib.antt =====
-- Verification of village-net, a CNI plugin with its address management (Go).
--
-- The program. The container runtime calls the plugin village (plugins/main/village/village.go) to
-- add, delete or check a container's network. The plugin has an IPAM plugin assign addresses,
-- divides the result between a bridge interface (pkg/bridge) and a macvlan interface (pkg/macvlan),
-- and lets the two controllers set up links, addresses and routes on the host. Four IPAM plugins
-- are modelled: village-ipam, whose client keeps the addresses of a cluster in a config map of the
-- API server; host-local, which keeps those of one host in files; dhcp, whose daemon acquires
-- leases and keeps a task for each that renews it; and static, which gives the addresses of its
-- configuration. Of the chained plugins, portmap forwards ports of the host to a container by rules
-- of iptables, firewall lets its traffic pass by such rules or by firewalld, tuning sets attributes
-- of its interface and keeps a backup of the old ones, bandwidth limits its rates, sbr routes by its
-- addresses, and vrf puts the interface under a VRF. The ADD and DEL of village-ipam call a daemon (pkg/controller)
-- and not that client, whose Check is what its CHECK calls.
--
-- Which file models which code:
--   Common      Boolean tests, lists and results that the components share
--   Net         addresses, networks and hardware addresses of Go's package net, which the source
--               computes with
--   Cidr        pkg/ip/cidr.go: addresses as numbers, NextIP and PrevIP
--   HostLocal   plugins/ipam/host-local/backend: Range and RangeSet (allocator/range.go,
--               allocator/range_set.go), Iter and Allocator (allocator/allocator.go), Store
--               (store.go), Disk (disk/backend.go), Config (allocator/config.go) and Commands
--               (plugins/ipam/host-local/main.go; Rollback and Leak on what it leaves)
--   Dhcp        plugins/ipam/dhcp: Options (options.go), Lease and Maintain (lease.go), Daemon
--               (daemon.go and main.go)
--   Static      plugins/ipam/static/main.go
--   VillageIpam plugins/ipam/village-ipam/client.go: AssignIp, DeleteIp, Check
--   Cni         pkg/types/netconfig.go, the results of CNI plugins, actions on the host
--               (Cni/Effects), links by name (Cni/Links, pkg/ip/link_linux.go) and ConfigureIface
--               (Cni/Configure, pkg/ipam/ipam_linux.go)
--   PkgIp       pkg/ip: Masq (ipmasq_linux.go), Forward (ipforward_linux.go, addr_linux.go), Validate
--               (utils_linux.go, route_linux.go) and Veth (link_linux.go, pkg/utils/hwaddr)
--   Ns          pkg/ns/ns_linux.go: functions in a network namespace
--   Macvlan     pkg/macvlan: macvlan.go and ctrl.go
--   Bridge      pkg/bridge: bridge.go (Bridge/Gateways, Bridge/Links) and ctrl.go
--   Portmap     plugins/meta/portmap: Texts (utils.go and pkg/utils/utils.go), Chain
--               (chain.go), Rules and Ports (portmap.go), Config and Commands (main.go)
--   IpTables    the tables of iptables, and pkg/utils/iptables.go over them
--   Firewall    plugins/meta/firewall: Rules (iptables.go), Firewalld (firewalld.go), Backend and
--               Commands (firewall.go)
--   Tuning      plugins/meta/tuning/tuning.go: the configuration, Paths, Backup and Commands
--   Bandwidth   plugins/meta/bandwidth: main.go and ifb_creator.go
--   Sbr         plugins/meta/sbr/main.go
--   Vrf         plugins/meta/vrf: main.go and vrf.go
--   NodeRoutes  pkg/controller: net.go and controller.go, the routes between nodes
--   Sample      plugins/sample/main.go
--   Village     plugins/main/village/village.go: cmdAdd, cmdDel, cmdCheck
-- A function keeps its Go name in snake case (IPAllocator.Get is HostLocal.Allocator.get,
-- ensureBridge is Bridge.Links.ensure_bridge). The files named Examples run the code at concrete
-- values.
--
-- State and errors. The allocator works over any store with the operations of the interface Store
-- (HostLocal/Store); HostLocal/Disk is the store on disk, a list of files with their contents, and
-- StoreLaws is what the one promises to the other. The client of village-ipam works over a state of
-- the API server that a call reads, replaces, or fails on. The plugins work over a state of the
-- host with one operation for each call on it (the record Host of Cni). An action returns a result
-- or an error beside the new state: what was done before an error stays done. The texts of errors
-- are constructors, and an error that the source wraps in a text is one constructor. A Go panic is
-- the error panic, which nothing handles; deferred clean-ups run on it.
--
-- Numbers, loops and fuel. A byte is a natural number below 256 and an address a list of bytes, nil
-- the empty list. Addresses of up to 17 bytes are turned into numbers and back, one byte more than
-- the longest, for NextIP may carry. The iterator of host-local and its caller run on fuel: more
-- than the number of addresses in the ranges is enough, unless the iteration has no end. The loop
-- of AssignIp over a range runs on fuel too: more than the distance from the first address to the
-- one where it ends is enough. The loop that waits for the bridge's port makes the five attempts
-- of the source; its pauses are left out. makeVeth's loop has the ten tries of the source. The loop of SettleAddresses runs
-- on fuel, one step for a look at the addresses; its end depends on the clock. backoffRetry needs five steps of fuel, and the search of
-- sbr for a table one more than there are rules and routes. An instant is a number of nanoseconds
-- since Go's zero time, and a duration the bit pattern of an int64. The loop of maintain is a
-- relation, whose steps leave the times and the answers of the network open.
--
-- Parameters. The texts of addresses (IP.String, ParseIP, ParseCIDR, IPNet.String) and, but for
-- tuning, of hardware addresses, the API server, the host and the tables of iptables, and the sizes of buffers that
-- bandwidth computes in floating point. A hypothesis on one of them is named where it is used. The
-- helpers of pkg/ip (SetupVeth, GetVethPeerIfindex, the masquerading rules, the validation of
-- addresses and routes) are modelled in PkgIp, and are operations of the host for the bridge and the
-- macvlan interface. A namespace is entered by an operation of the host there; Ns models the threads
-- behind that.
--
-- Not modelled: the decoding of JSON (so that the value null under containerIps, which Go decodes to
-- a nil map, is no state of the client's config map), a write of host-local's last-address file that
-- fails half-way (Faults has one that leaves nothing behind), the parts of a result that nothing here reads (DNS, the CNI
-- version), the lock files (each call of the allocator runs with the lock held, so that calls do
-- not interleave), the commands of village-ipam around the client, the packets that dhcp exchanges,
-- and the RPC server of pkg/controller, whose methods are empty.
pub mod Bandwidth
pub mod Bridge
pub mod Cidr
pub mod Cni
pub mod Common
pub mod Dhcp
pub mod Firewall
pub mod HostLocal
pub mod IpTables
pub mod Macvlan
pub mod Net
pub mod NodeRoutes
pub mod Ns
pub mod PkgIp
pub mod Portmap
pub mod Sample
pub mod Sbr
pub mod Static
pub mod Tuning
pub mod Village
pub mod VillageIpam
pub mod Vrf
