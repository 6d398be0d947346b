-- ===== src/Wire.antt =====
-- src/byte_buffer.cpp and src/include/oracle_scanner/byte_buffer.hpp: the readers and writers of TTC
-- fields that every message of the protocol is built from.
pub mod Reader
pub mod Writer
pub mod Universal
pub mod Chunks
pub mod Prefixed
pub mod Progress
pub mod Safe
pub mod Fixed
mod Tests
