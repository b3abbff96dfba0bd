-- ===== src/Hfe/File.antt =====
-- The HFE file as a whole, hfe/read.go and hfe/write.go: its opcodes, its header and track list, and
-- the reader and the writer of a disk.
pub mod Opcodes
pub mod Header
pub mod Write
pub mod Read
pub mod Aligned
pub mod Escapes
pub mod List
pub mod Tracks
pub mod Kept
pub mod RoundTrip
