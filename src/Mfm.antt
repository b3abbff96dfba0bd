-- ===== src/Mfm.antt =====
-- The mfm package.
pub mod Crc16
pub mod Symbols
pub mod Writer
pub mod Reader
pub mod Format
pub mod Amiga
pub mod Decoder
pub mod Flux
