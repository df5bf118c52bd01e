-- ===== src/Trap.antt =====
-- kernel/src/trap.rs and the kernel state that it works on (kernel/src/main.rs).
pub mod Memory
pub mod State
pub mod Switch
pub mod Mutex
pub mod Ipc
pub mod Recovery
pub mod Emulation
pub mod Handler
pub mod Entry
pub mod Calls
pub mod Capabilities
pub mod Roster
pub mod Bitmaps
pub mod Returns
pub mod Containment
pub mod Locks
pub mod Rights
pub mod Waiters
pub mod Words
pub mod Parties
pub mod Rendezvous
pub mod Examples
pub mod Tables
pub mod Partitions
pub mod Runs
pub mod Counters
pub mod Interrupts
