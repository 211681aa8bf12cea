-- ===== src/PkgIp.antt =====
-- pkg/ip, the helpers that set up the host: Masq (ipmasq_linux.go), Forward (ipforward_linux.go and
-- addr_linux.go), Validate (utils_linux.go and route_linux.go), Veth (link_linux.go). What they call on
-- the host is a parameter.
pub mod Masq
pub mod Forward
pub mod Validate
pub mod Veth
pub mod VethLaws
pub mod Examples
