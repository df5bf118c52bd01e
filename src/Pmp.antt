-- ===== src/Pmp.antt =====
-- kernel/src/memory/pmp.rs: the physical memory protection driver.
pub mod Driver
pub mod Lanes
pub mod Guarded
pub mod Stacks
mod Examples
