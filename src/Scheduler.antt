-- ===== src/Scheduler.antt =====
-- The scheduler crate (scheduler/src): task control blocks and the cyclic partition scheduler.
pub mod Tcb
pub mod Bitmap
pub mod Select
pub mod Ends
pub mod Swap
pub mod Invariant
pub mod Switch
pub mod Rotation
pub mod Expiry
mod Examples
