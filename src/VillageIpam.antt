-- ===== src/VillageIpam.antt =====
-- plugins/ipam/village-ipam: the addresses of the cluster's containers in a config map.
pub mod Client
pub mod Examples
