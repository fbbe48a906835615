-- ===== src/Tests.antt =====
-- The theorems at concrete inputs, and the parts outside the repository as small functions.
mod Toy
mod DataPath
mod Wire
mod Session
mod Pools
mod Ssh
mod Front
mod Routes
mod Vpn
mod Upstream
