-- ===== src/Trap/Recovery.antt =====
-- kernel/src/trap.rs: system call 8 (terminate a task), the containment of faults, and the recovery
-- of a terminated task's mutexes, which both share.
use cerberus_os.Base.{
  ℕ, zero, suc, ◌+◌, ◌%◌, ◌^◌, Bool, true, false, not, ◌||◌, Option, none, some, ltb, ◌==◌,
  if◌then◌else◌,
}
use cerberus_os.Base.Outcome.{Outcome, done, ◌>>=◌}
use cerberus_os.Scheduler.Tcb.{ready, terminated, TaskControlBlock}
use cerberus_os.Trap.Memory.{read_frame, reg_a0, reg_mepc, minus_one}
use cerberus_os.Trap.State.{
  Hart, hart0, hart1, same_hart, set_hart, fault_interception, KernelMutex, Core, Kernel, Env,
  Resumed, running_idx, slot, set_state, set_mutex, write_reg, emit, remove_waiter, take_mutex_lock,
  drop_mutex_lock, with_sched_lock,
}
use cerberus_os.Trap.Switch.{switch}
use cerberus_os.Trap.Mutex.{waiter_hart, highest_waiter, is_owner}

-- `if let Some(waiter_tcb) = … { waiter_tcb.state = Ready }`
abbrev pub ready_waiter : Core → Hart → ℕ → Core
ready_waiter c h w = elim (slot c h w) [ none ↦ c | some t ↦ set_state c h w t ready ]

-- The mutex is released, and goes to the waiter, if any.
unfoldable pub reassign : ℕ → KernelMutex → Option ℕ → Core → Core
reassign i m none c = set_mutex c i (record m { locked = false; owner_task_idx = none })
reassign i m (some w) c =
    ready_waiter
      (set_mutex c i (record m {
        locked = true;
        owner_task_idx = some (w % 256);
        waiters_bitmap = remove_waiter m.waiters_bitmap w;
      }))
      (waiter_hart w) w

-- One round of the loop over `MUTEXES`.
unfoldable pub recover_mutex : ℕ → ℕ → Core → Outcome Core
recover_mutex target i c = elim (c.mutexes i) [
  | none ↦ done c
  | some m ↦
      if is_owner m.owner_task_idx (target % 256)
      then (highest_waiter c m.waiters_bitmap >>= λ w. done (reassign i m w c))
      else done c
]

unfoldable pub recover_from : ℕ → ℕ → ℕ → Core → Outcome Core
recover_from target zero i c = done c
recover_from target (suc rounds) i c =
    recover_mutex target i c >>= λ c'. recover_from target rounds (i + 1) c'

-- `MUTEX_LOCK.lock(); for mutex in MUTEXES { … }; MUTEX_LOCK.unlock();`
unfoldable pub recover_mutexes : Env → ℕ → Kernel → Outcome Kernel
recover_mutexes env target k0 = take_mutex_lock env.hart k0 >>= λ k.
    recover_from target 8 0 k.core >>= λ c. done (drop_mutex_lock (record k { core = c }))

-- The core whose table has the target; core 0 is looked at first.
unfoldable pub find_target : ℕ → Core → Option (Hart × TaskControlBlock)
find_target target c =
    if ltb target 32
    then elim (slot c hart0 target) [
      | some t ↦ some (hart0, t)
      | none ↦ elim (slot c hart1 target) [ none ↦ none | some t ↦ some (hart1, t) ]
    ]
    else none

-- After the recovery: an interrupt for the other core, or a switch if the target is the caller.
unfoldable pub leave_target : Env → Hart → ℕ → Kernel → Outcome Resumed
leave_target env h target k =
    let answered = write_reg k.core env.user_sp reg_a0 0 in
    let k' = record k { core = answered } in
    if not (same_hart h env.hart)
    then done
        (env.user_sp, record k { core = record answered { msip = set_hart answered.msip h 1 } })
    else if target == running_idx env.hart answered
    then switch env false k'
    else done (env.user_sp, k')

unfoldable pub terminate_body : Env → Kernel → Outcome Resumed
terminate_body env k =
    let target = read_frame k.core.memory env.user_sp reg_a0 in
    elim (find_target target k.core) [
      | none ↦ done (env.user_sp, record k { core = write_reg k.core env.user_sp reg_a0 minus_one })
      | some (h, t) ↦
          recover_mutexes env target (record k { core = set_state k.core h target t terminated })
          >>= λ k'. leave_target env h target k'
    ]

-- System call 8.
unfoldable pub syscall_terminate : Env → Kernel → Outcome Resumed
syscall_terminate env k = with_sched_lock env.hart (terminate_body env) k

-- Scopes 1 and 2: terminate the running task, and recover its mutexes.
unfoldable pub terminate_running : Env → Kernel → Outcome Kernel
terminate_running env k =
    let h = env.hart in
    let i = running_idx h k.core in
    elim (slot k.core h i) [
      | none ↦ done k
      | some t ↦ recover_mutexes env i (record k { core = set_state k.core h i t terminated })
    ]

unfoldable pub fault_body : Env → Kernel → Outcome Resumed
fault_body env k = terminate_running env k >>= λ k'. switch env false k'

-- The trace event, the metric, and the three scopes.
unfoldable pub contain_fault : Env → Kernel → Outcome Resumed
contain_fault env k =
    let pc = read_frame k.core.memory env.user_sp reg_mepc in
    let traced = emit k.core (fault_interception env.mcause pc) in
    let counted = record traced {
      pmp_violations =
          if env.mcause == 2 then traced.pmp_violations else (traced.pmp_violations + 1) % 2 ^ 32;
    } in
    with_sched_lock env.hart (fault_body env) (record k { core = counted })

-- Causes 1, 2, 4, 5, 6 and 7.
abbrev pub is_contained : ℕ → Bool
is_contained cause =
    cause == 1 || (cause == 2 || (cause == 4 || (cause == 5 || (cause == 6 || cause == 7))))
