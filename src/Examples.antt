-- ===== src/Examples.antt =====
-- examples/: the programs that use the stream.
pub mod Server
