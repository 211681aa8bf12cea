-- ===== src/Firewall.antt =====
-- plugins/meta/firewall: the chained plugin that lets the traffic of a container pass, by rules of
-- iptables or by a zone of firewalld.
pub mod Backend
pub mod Rules
pub mod Firewalld
pub mod Commands
pub mod Laws
pub mod Accepts
pub mod FamilyLaws
pub mod Examples
