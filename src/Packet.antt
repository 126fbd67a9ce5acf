-- ===== src/Packet.antt =====
-- src/packet.rs: packets, from their bytes up.
pub mod Types
pub mod Words
pub mod Header
pub mod Fields
pub mod Wire
pub mod Fresh
pub mod Spread
pub mod Setters
pub mod Extensions
pub mod Chain
pub mod Validity
pub mod Parse
pub mod Reading
pub mod Sack
pub mod Extend
pub mod SetSack
pub mod GetSack
pub mod LongSack
