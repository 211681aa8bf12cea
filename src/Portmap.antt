-- ===== src/Portmap.antt =====
-- plugins/meta/portmap: the chained plugin that forwards ports of the host, over the tables of iptables.
pub mod Texts
pub mod Chain
pub mod ChainLaws
pub mod CheckLaws
pub mod Rules
pub mod Ports
pub mod Config
pub mod Commands
pub mod Examples
