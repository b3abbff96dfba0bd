-- ===== src/Kryoflux.antt =====
-- The kryoflux package: the stream of a KryoFlux device.
pub mod Stream
pub mod Flux
pub mod Blocks
pub mod Pulses
pub mod Transitions
pub mod Order
pub mod Cells
