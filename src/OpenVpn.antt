-- ===== src/OpenVpn.antt =====
-- The OpenVPN client of src/openvpn/, from the wire formats up to the control session.
pub mod Error
pub mod Config
pub mod Framing
pub mod Replay
pub mod Packet
pub mod Keys
pub mod DataCipher
pub mod Push
pub mod Tls
pub mod Control
