-- ===== src/Supercardpro.antt =====
-- The supercardpro package: a SuperCard Pro device.
pub mod Flux
pub mod Actions
pub mod Client
pub mod Transfer
pub mod Intervals
pub mod Holds
pub mod Refused
pub mod Session
pub mod Verified
