-- ===== src/Spinlock.antt =====
-- kernel/src/kernel/spinlock.rs: the reentrant spinlock, as whole calls and as interleaved steps.
pub mod Lock
pub mod Calls
pub mod Harts
pub mod Exclusion
mod Examples
