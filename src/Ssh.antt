-- ===== src/Ssh.antt =====
-- src/ssh: tunnels over SSH accounts: the accounts, the SOCKS port of a tunnel, the
-- obfuscation of a session, and the pool of sessions.
pub mod Account
pub mod Socks
pub mod Ossh
pub mod Tunnel
