-- ===== src/Tests.antt =====
-- The theorems at concrete packets, peers and buffers.
pub mod Samples
pub mod Packets
pub mod Peers
pub mod Transfers
pub mod Setup
pub mod Loops
pub mod Reached
pub mod Sessions
pub mod Suite
