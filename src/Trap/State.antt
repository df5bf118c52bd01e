-- ===== src/Trap/State.antt =====
-- The kernel state: the statics of kernel/src/main.rs and kernel/src/trap.rs, the device registers
-- that the trap handler writes, and what the hardware hands to one trap.
use Prim.Native.Nat.{bit_and, bit_or}
use cerberus_os.Base.{
  ℕ, ◌-◌, ◌%◌, ◌^◌, Bool, true, false, not, Option, some, List, ◌∷◌, ◌==◌, if◌then◌else◌, update,
}
use cerberus_os.Base.Outcome.{Outcome, done, ◌>>=◌}
use cerberus_os.Scheduler.Tcb.{TaskState, TaskControlBlock}
use cerberus_os.Scheduler.Bitmap.{BitMapScheduler}
use cerberus_os.Spinlock.Lock.{Spinlock, lock, unlock}
use cerberus_os.Pmp.Driver.{PmpRegs, Layout}
use cerberus_os.Trap.Memory.{Memory, write_frame}

-- The two cores.
pub data Hart : Type 0 where
  hart0 hart1 : Hart

abbrev pub hart_id : Hart → ℕ
hart_id hart0 = 0
hart_id hart1 = 1

abbrev pub same_hart : Hart → Hart → Bool
same_hart hart0 hart0 = true
same_hart hart0 hart1 = false
same_hart hart1 hart0 = false
same_hart hart1 hart1 = true

-- `f[h] = v`
abbrev pub set_hart {ℓ} : {A : Type ℓ} → (Hart → A) → Hart → A → Hart → A
set_hart f h v j = if same_hart h j then v else f j

pub record KernelMutex : Type 0 where
  pub locked : Bool
  pub owner_task_idx : Option ℕ
  pub waiters_bitmap : ℕ

pub data TraceEvent : Type 0 where
  task_swap : (from to cycles : ℕ) → TraceEvent
  ipc_transfer : (endpoint bytes : ℕ) → TraceEvent
  fault_interception : (cause pc : ℕ) → TraceEvent

-- `SCHEDULERS`, `MUTEXES`, `TICK_COUNT`, `LAST_CHECKIN_TICK`, the two metrics that a trap updates,
-- memory, the CLINT and PMP registers of each hart, and the trace, newest event first. The statics are
-- fields, apart from `memory`: a raw write of the handler at an address that a task supplies, or a write
-- of a task, changes `memory` alone, and on the device it can hit a static.
pub record Core : Type 0 where
  pub scheds : Hart → BitMapScheduler
  pub mutexes : ℕ → Option KernelMutex
  pub tick_count : ℕ
  pub last_checkin : ℕ → ℕ
  pub trap_latency : ℕ
  pub pmp_violations : ℕ
  pub memory : Memory
  pub msip : Hart → ℕ
  pub mtimecmp : Hart → ℕ
  pub pmp : Hart → PmpRegs
  pub trace : List TraceEvent

pub record Kernel : Type 0 where
  pub core : Core
  pub sched_lock : Spinlock
  pub mutex_lock : Spinlock

-- What the hardware and the linker supply to one trap.
pub record Env : Type 0 where
  pub hart : Hart
  pub mcause : ℕ
  pub user_sp : ℕ
  pub start_cycle : ℕ
  pub end_cycle : ℕ  -- `mcycle` on entry to the handler
  pub mcycle : ℕ  -- `mcycle` in the emulation of a read
  pub cycle : ℕ  -- `cycle` after a partition swap
  pub mtime : ℕ
  pub layout : Layout

-- The stack pointer to resume with, and the new state.
abbrev pub Resumed : Type 0
Resumed = ℕ × Kernel

abbrev pub running_idx : Hart → Core → ℕ
running_idx h c = (c.scheds h).current_partition_idx

abbrev pub slot : Core → Hart → ℕ → Option TaskControlBlock
slot c h i = (c.scheds h).task_table i

abbrev pub set_slot : Core → Hart → ℕ → TaskControlBlock → Core
set_slot c h i t =
    let s = c.scheds h in
    record c {
      scheds = set_hart c.scheds h (record s { task_table = update s.task_table i (some t) });
    }

abbrev pub set_state : Core → Hart → ℕ → TaskControlBlock → TaskState → Core
set_state c h i t st = set_slot c h i (record t { state = st })

abbrev pub set_mutex : Core → ℕ → KernelMutex → Core
set_mutex c i m = record c { mutexes = update c.mutexes i (some m) }

abbrev pub write_reg : Core → ℕ → ℕ → ℕ → Core
write_reg c sp i v = record c { memory = write_frame c.memory sp i v }

abbrev pub emit : Core → TraceEvent → Core
emit c e = record c { trace = e ∷ c.trace }

-- A software interrupt for another core.
abbrev pub signal : Hart → Hart → Core → Core
signal from to c = if same_hart to from then c else record c { msip = set_hart c.msip to 1 }

-- `1 << i` on a `u32`; the bit tests of `waiters_bitmap`.
abbrev pub bit_at : ℕ → ℕ
bit_at i = 2 ^ (i % 32)

unfoldable pub has_waiter : ℕ → ℕ → Bool
has_waiter bitmap i = not (bit_and bitmap (bit_at i) == 0)

unfoldable pub add_waiter : ℕ → ℕ → ℕ
add_waiter bitmap i = bit_or bitmap (bit_at i)

-- `bitmap & !(1 << i)`
unfoldable pub remove_waiter : ℕ → ℕ → ℕ
remove_waiter bitmap i = bit_and bitmap (2 ^ 32 - 1 - bit_at i)

-- `MUTEX_LOCK.lock(hart_id)`, `MUTEX_LOCK.unlock()`
unfoldable pub take_mutex_lock : Hart → Kernel → Outcome Kernel
take_mutex_lock h k = lock (hart_id h) k.mutex_lock >>= λ l. done (record k { mutex_lock = l })

unfoldable pub drop_mutex_lock : Kernel → Kernel
drop_mutex_lock k = record k { mutex_lock = unlock k.mutex_lock }

-- `let _sched_guard = SCHED_LOCK.lock_guard(hart_id); …`, released at the end of the scope.
unfoldable pub with_sched_lock : Hart → (Kernel → Outcome Resumed) → Kernel → Outcome Resumed
with_sched_lock h body k = lock (hart_id h) k.sched_lock >>= λ l.
    body (record k { sched_lock = l }) >>= λ r.
    done (r.0, record (r.1) { sched_lock = unlock r.1.sched_lock })
