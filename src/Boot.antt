-- ===== src/Boot.antt =====
-- kernel/src/main.rs and scheduler/src/tcb.rs: from reset to the first task of each core.
pub mod Stack
pub mod Start
pub mod Image
pub mod Tasks
pub mod Cores
pub mod Safe
pub mod Ahead
pub mod Launch
pub mod Programs
pub mod Conduct
pub mod Watchdog
pub mod Rounds
pub mod Verdict
pub mod Life
pub mod Crew
pub mod Post
pub mod Restarts
pub mod Duty
mod Examples
mod DutyExamples
mod Alarms
