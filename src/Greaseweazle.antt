-- ===== src/Greaseweazle.antt =====
-- The greaseweazle package: the flux streams of a Greaseweazle device.
pub mod Stream
pub mod N28
pub mod Intervals
pub mod Rates
