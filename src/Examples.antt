-- ===== src/Examples.antt =====
-- src.
-- The components at concrete inputs.
mod Storage
mod Requests
mod Swarm
mod Wire
mod Process
mod Bencoding
mod Torrents
mod Files
mod Peering
mod Running
