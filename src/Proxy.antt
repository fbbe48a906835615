-- ===== src/Proxy.antt =====
-- src/proxy: the HTTP proxy in front of the tunnels: the pools of tunnels, the cache of their
-- exits, the server and the requests to the targets.
pub mod Pool
pub mod Server
pub mod Exit
pub mod Upstream
