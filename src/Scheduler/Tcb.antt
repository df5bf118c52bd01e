-- ===== src/Scheduler/Tcb.antt =====
-- scheduler/src/tcb.rs: capabilities, task states and task control blocks.
use cerberus_os.Base.{ℕ, Bool, true, false, Option, List, String}

pub data Capability : Type 0 where
  no_cap : Capability
  mutex : (mutex_idx : ℕ) (can_lock can_unlock : Bool) → Capability
  ipc : (endpoint_idx : ℕ) (can_send can_recv : Bool) → Capability

pub data TaskState : Type 0 where
  ready running : TaskState
  blocked : (wake_tick : ℕ) → TaskState
  blocked_on_mutex : (mutex_idx : ℕ) → TaskState
  blocked_on_ipc_send : (endpoint_idx msg_addr msg_len : ℕ) → TaskState
  blocked_on_ipc_recv : (endpoint_idx buf_addr max_len : ℕ) → TaskState
  terminated : TaskState

pub record TaskControlBlock : Type 0 where
  pub saved_sp : ℕ
  pub priority : ℕ
  pub active_priority : ℕ
  pub state : TaskState
  pub name : String
  pub capabilities : List Capability

-- The derived `==` against the constant states that the code compares with.
abbrev pub eq_ready : TaskState → Bool
eq_ready ready = true
eq_ready _ = false

abbrev pub eq_running : TaskState → Bool
eq_running running = true
eq_running _ = false

abbrev pub eq_terminated : TaskState → Bool
eq_terminated terminated = true
eq_terminated _ = false

-- `[Option<TaskControlBlock>; MAX_PARTITIONS]`
abbrev pub TaskTable : Type 0
TaskTable = ℕ → Option TaskControlBlock
