-- ===== src/Hfe.antt =====
-- The hfe package.
pub mod Disk
pub mod Collect
pub mod Img
pub mod Bkd
pub mod Adf
pub mod Bits
pub mod Blocks
pub mod Verify
pub mod Imd
pub mod File
pub mod ImageFormat
pub mod Dispatch
