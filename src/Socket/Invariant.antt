-- ===== src/Socket/Invariant.antt =====
-- src/socket.rs: what holds of every peer of a socket, whatever the socket has done and received.
pub mod Defs
pub mod AckHandler
pub mod Handler
pub mod Outgoing
pub mod Incoming
pub mod Reach
pub mod AckSafety
pub mod Safety
pub mod Answers
pub mod LoopSafety
