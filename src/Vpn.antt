-- ===== src/Vpn.antt =====
-- src/vpn: the accounts of OpenVPN servers, the tunnel that each keeps, and the pools they join.
pub mod Account
pub mod Provider
pub mod Supervise
