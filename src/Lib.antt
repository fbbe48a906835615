-- ===== src/Lib.antt =====
-- unroxy: an HTTP proxy that sends its traffic through tunnels, built on OpenVPN and SSH accounts.
--
-- The program's own OpenVPN client is the core of this library. A control session
-- (src/openvpn/control.rs) opens with a reset, runs a TLS handshake over packets that it numbers,
-- acknowledges and puts in order, exchanges key sources and derives the keys of the data channel;
-- data packets are then sealed, opened and kept from being replayed. An account (src/vpn/provider.rs)
-- opens its tunnel when it is used and closes it when it is idle, and is in the pool of its region
-- (src/vpn/mod.rs) while it is ready. The HTTP proxy (src/proxy/server.rs) reads the region and the
-- protocol of a request and picks a tunnel from pools (src/proxy/pool.rs).
--
-- Which file models which part:
--   Base             lists by native numbers, Boolean tests, bytes, bits, text, and panics as values
--   OpenVpn/Config   src/openvpn/config.rs: ciphers, digests, profiles
--   OpenVpn/Error    src/openvpn/error.rs
--   OpenVpn/Framing  src/openvpn/framing.rs: read_packet and write_packet on streams of bytes
--   OpenVpn/Replay   src/openvpn/crypto/replay.rs: ReplayWindow
--   OpenVpn/Packet   src/openvpn/control.rs: Packet::parse, the writers of packets, Reader
--   OpenVpn/Keys     src/openvpn/crypto/keys.rs: prf, p_hash, KeyMaterial::derive
--   OpenVpn/DataCipher  src/openvpn/crypto/aes.rs: DataCipher
--   OpenVpn/Tls      src/openvpn/tls.rs: what the session asks of TLS, and TlsState over a library
--   OpenVpn/Push     src/openvpn/control.rs: parse_push and take_message
--   OpenVpn/Control  src/openvpn/control.rs: the state of Control and what it sends; Receive holds
--                    pump, accept_control and recv_data, Handshake the way from connect to
--                    push_request
--   Proxy/Pool       src/proxy/pool.rs: ProxyPool
--   Proxy/Exit       src/proxy/exit.rs: the cache of exits
--   Proxy/Server     src/proxy/server.rs: Path reads targets and authorities, Headers strips headers
--                    and reads names, Regions holds the regions and routes of Proxy, Index the page
--                    on the pools, and Handle the answers to requests
--   Proxy/Upstream   src/upstream.rs: the request to a target and its retries
--   Vpn/Account      src/vpn/account.rs: the profile of an account's file
--   Vpn/Provider     src/vpn/provider.rs: the tunnel of an account, its backoff and its idle close
--   Vpn/Supervise    src/vpn/mod.rs: which accounts are in the pools
--   Ssh/Account      src/ssh/account.rs: the choice of accounts by region
--   Ssh/Socks        src/ssh/socks.rs: the SOCKS handshake of a local client
--   Ssh/Ossh         src/ssh/ossh.rs: RC4, its keys, the preamble and the padding of packets; Write
--                    holds process_write, and Read process_read
--   Ssh/Tunnel       src/ssh/mod.rs: the pool of sessions and the task that fills it
--   Tests            the theorems at concrete inputs
--
-- A method of Control is a function of the state that gives a result and the state after it, on an
-- error too. Waiting is an argument: the events that a receiving loop meets before its deadline are
-- a list, so that the end of the list is the end of the time. A Rust panic is a result of its own.
--
-- Bounds and fuel: the loops over bytes run on as many rounds as there are bytes, since each takes
-- one at least; the loops of the handshake run on one round more than there are events, since pump
-- takes one; reading from TLS runs on one round more than the bytes that can be read. Wrap-around of
-- 32 and 64 bits is written out, and a datagram is cut to the 2048 bytes of the buffer for it.
--
-- What is shared in memory has a number for its address: pools are in a heap, and the records of an
-- account's tunnels in a store, so that a stream that outlives its tunnel's slot changes its own.
-- Where tasks interleave, each read or change of a shared counter is a step of its own (Ssh/Tunnel).
--
-- Parameters stand for what is not in the repository: the ciphers and MACs of the crates, the TLS
-- library, the HTTP client, the header map and the URIs of the HTTP libraries, the cache of least
-- recently used entries, the random bytes and the decoding of Base64 and UTF-8. Not modelled: the
-- network stack around smoltcp (src/openvpn/stack.rs), the headers of a forwarded request
-- (src/forward.rs), what a session does over SSH (src/ssh/session.rs), the lookup of regions
-- (src/geo.rs). Start-up and logging are left out, and so is the copying of bytes between streams.
pub mod Base
pub mod OpenVpn
pub mod Proxy
pub mod Ssh
pub mod Tests
pub mod Vpn
