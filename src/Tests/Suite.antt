-- ===== src/Tests/Suite.antt =====
-- The test functions of the sources, and that they pass.
pub mod Asserts
pub mod PacketTests
pub mod EncodeTests
pub mod Passed
pub mod SmallTests
