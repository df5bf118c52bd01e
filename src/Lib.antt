-- ===== src/Lib.antt =====
-- Cerberus-OS, a partitioning kernel for two RISC-V cores, modelled from its Rust sources.
--
-- Parts, and where they stand.
--
-- Scheduler: scheduler/src/tcb.rs (Scheduler/Tcb.antt) and scheduler/src/bitmap.rs
--   (Scheduler/Bitmap.antt). `schedule` answers with the new scheduler and, for a switch, the slot
--   whose `saved_sp` is to be written and the stack pointer to resume with. Its children are about
--   what is picked (Select), the two ways to end (Ends), what a swap does to the table (Swap), the
--   invariant (Invariant), what a switch hands out (Switch), rotation and frames (Rotation,
--   Expiry).
--
-- Network: network/src/can.rs. Parser (Can, Parse) and receive ring (Ring, Queue).
--
-- Spinlock: kernel/src/kernel/spinlock.rs, as whole calls (Lock, Calls) and as single accesses of
--   any number of harts in any order (Harts, Exclusion).
--
-- Pmp: kernel/src/memory/pmp.rs (Driver), the bytes of a configuration register (Lanes), what one
--   entry, what the five guards of the stacks, and what a switch to a task leave in the registers
--   (Guarded, Stacks).
--
-- Trap: kernel/src/trap.rs with the statics of kernel/src/main.rs. Memory has the raw reads and
--   writes, State the kernel state and the inputs of a trap, Switch `switch_task`, the interrupts
--   and system calls 1, 2 and 5, Mutex system calls 3 and 4, Ipc system calls 6 and 7, Recovery
--   system call 8 and the containment of faults, Emulation the reads of cycle counters, Handler
--   `trap_handler`. On these stand: Locks with its children (the two locks over a trap), Tables and
--   Partitions with its children (the schedulers of both cores over a trap), Runs (sequences of
--   traps), Interrupts (the traps that only reschedule), Rights (calls without the right), Waiters
--   (the search for the next owner of a mutex), Words (memory), Parties and Rendezvous (send and
--   receive), Bitmaps (the waiters of a mutex as a set), Capabilities and Roster (which slot holds
--   a task with which capabilities), Returns with its children (which traps return, and which
--   panic), Containment with its children (what a terminated task leaves behind), Counters (the
--   emulation, against the stores of the trap entry), Entry (the frame of kernel/src/trap_entry.s, from the registers by their RISC-V numbers, and
--   the wrappers of telemetry/src/syscalls.rs), Calls (a system call from its wrapper on).
--
-- Security: security/src. Bytes has strings and the comparison without early exit, Bootloader
--   bootloader.rs, Hmac the tag of a frame and Hsm the HSM task (hsm.rs) with the check of a frame
--   (hmac.rs), Authentic the two of them together.
--
-- Boot: kernel/src/main.rs from reset to the first tasks, and `initialize_stack` of
--   scheduler/src/tcb.rs. Stack has a task's first frame, Image the addresses that the linker
--   decides and `init_memory_protection`, Tasks the registration of the tasks, Start
--   `start_first_task`, Cores the boot path of each core as a function and the steps of both cores
--   with the barriers between them, Safe what holds at each stage, Ahead that each step keeps it,
--   Launch the boots from reset, Watchdog one round of `watchdog_task`, Verdict whom it blames,
--   Rounds what it keeps, Life a boot with the traps and rounds that follow. Crew has the roster of
--   the boot, Post the boots that put it in place, Restarts and Duty the traps and rounds of a
--   system that has booted so. Programs has the programs of Tasks A, B and C, Conduct the calls
--   that they and the HSM task make. Examples, Alarms and DutyExamples are concrete.
--
-- How the code is rendered. A trap is one function from the kernel state and the inputs of the trap
-- (`Env`: hart, cause, stack pointer, counters, link-time addresses) to an `Outcome`: the stack
-- pointer to resume with and the new state, a panic, or a wait on a lock that another hart holds.
-- Static arrays are functions of the index, and an index that the code does not keep in range is
-- tested and panics. Arithmetic is that of the release profile: it wraps at the width of the word.
-- Memory is a function from addresses to bytes. The statics of the kernel are fields of
-- the state and stand apart from that memory. So a write to memory never changes a static in the
-- model, though on the device it can: system calls 6 and 7 copy to an address that a task supplies
-- and write to saved frames (kernel/src/trap.rs), and the PMP entry for the SRAM (kernel/src/main.rs)
-- lets a task write to every static. A system that runs on after boot (Runs, Life) is therefore one
-- that leaves the bytes at the addresses of the statics, a parameter, alone; that the writes of a
-- single trap do so is assumed throughout. Loops run over the fixed bounds of the code (32
-- slots, 8 mutexes, 5 stacks), so no fuel is invented. While a trap holds the scheduler lock no
-- other hart touches the kernel state, so a trap is one step; the lock itself is modelled access by
-- access.
--
-- Code outside the repository is a parameter: SHA-256 (the crate sha2) is any function from bytes
-- to bytes, the layout of a frame in memory is any pair of an encoding and a decoding that agree,
-- and the addresses of stacks and functions are a record that the linker fills. The programs of the
-- tasks run over a record of system calls (`Port`, `Desk`) that any functions may fill.
--
-- Not modelled: logging and the print-out of the metrics, whose output changes no state; the
-- restore of a frame and `mret`; the busy loops of the tasks; the encoding of trace events, which a
-- library does; the CPU's own checks of the protection registers; a trap in the middle of a boot or
-- of a round of the watchdog.
mod Base
pub mod Scheduler
pub mod Network
pub mod Spinlock
pub mod Pmp
pub mod Trap
pub mod Security
pub mod Boot
