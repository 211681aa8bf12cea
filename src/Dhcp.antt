-- ===== src/Dhcp.antt =====
-- plugins/ipam/dhcp: the options of a DHCP packet, the lease that is kept up, and the daemon.
pub mod Options
pub mod Routes
pub mod Lease
pub mod Times
pub mod Maintain
pub mod Daemon
pub mod Examples
