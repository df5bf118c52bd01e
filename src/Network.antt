-- ===== src/Network.antt =====
-- The network crate (network/src/can.rs): CAN frames and the receive ring.
pub mod Can
pub mod Parse
pub mod Ring
pub mod Queue
mod Examples
