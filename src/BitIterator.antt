-- ===== src/BitIterator.antt =====
-- src/bit_iterator.rs: the iterator over the bits of a vector of bytes.
pub mod Defs
pub mod Bits
