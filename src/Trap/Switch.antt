-- ===== src/Trap/Switch.antt =====
-- kernel/src/trap.rs: `switch_task`, the timer and software interrupts, and the system calls that
-- only reschedule (yield, sleep) or check in.
use cerberus_os.Base.{
  ℕ, ◌+◌, ◌%◌, ◌^◌, Bool, true, false, Option, none, some, ltb, leb, if◌then◌else◌, update,
}
use cerberus_os.Base.Outcome.{Outcome, done, ◌>>=◌, assert, unwrap}
use cerberus_os.Scheduler.Tcb.{TaskState, ready, blocked, TaskControlBlock, TaskTable}
use cerberus_os.Scheduler.Bitmap.{max_partitions, schedule}
use cerberus_os.Pmp.Driver.{reprogram_pmp_stack}
use cerberus_os.Trap.Memory.{read_frame, reg_a0}
use cerberus_os.Trap.State.{
  Hart, set_hart, task_swap, Core, Kernel, Env, Resumed, running_idx, slot, set_slot, set_state,
  emit, with_sched_lock,
}

-- Writing through the pointer to the old task's `saved_sp`.
abbrev pub save_sp : Core → Hart → ℕ → ℕ → Core
save_sp c h old sp = elim (slot c h old) [
  | none ↦ c
  | some t ↦ set_slot c h old (record t { saved_sp = sp })
]

-- `if let Some(new_tcb) = &sched.task_table[active_idx] { reprogram_pmp_stack(new_tcb.name) }`
unfoldable pub guard_active : Env → Core → Outcome Core
guard_active env c =
    let h = env.hart in
    elim (slot c h (running_idx h c)) [
      | none ↦ done c
      | some t ↦ reprogram_pmp_stack env.layout t.name (c.pmp h) >>= λ r.
          done (record c { pmp = set_hart c.pmp h r })
    ]

-- A switch from slot `from` to the stack pointer `new_sp`.
unfoldable pub resume : Env → ℕ → ℕ → ℕ → ℕ → Core → Outcome (ℕ × Core)
unfolding guard_active
resume env from old new_sp sp c =
    let traced = emit c (task_swap (from % 256) (running_idx env.hart c % 256) env.cycle) in
    guard_active env (save_sp traced env.hart old sp) >>= λ c'. done (new_sp, c')

unfoldable pub switch_task : Env → Bool → ℕ → Core → Outcome (ℕ × Core)
switch_task env is_tick sp c =
    let h = env.hart in
    schedule (c.scheds h) is_tick >>= λ (s, r).
    let c' = record c { scheds = set_hart c.scheds h s } in
    elim r [
      | none ↦ done (sp, c')
      | some (old, new_sp) ↦ resume env (running_idx h c) old new_sp sp c'
    ]

-- The same, keeping the locks.
unfoldable pub switch : Env → Bool → Kernel → Outcome Resumed
switch env is_tick k =
    switch_task env is_tick env.user_sp k.core >>= λ (sp, c). done (sp, record k { core = c })

-- A sleeper whose time has come; any other slot is left alone.
abbrev pub wake : ℕ → TaskControlBlock → TaskState → TaskControlBlock
wake tick t (blocked wake_tick) = if leb wake_tick tick then record t { state = ready } else t
wake tick t _ = t

abbrev pub wake_slot : ℕ → Option TaskControlBlock → Option TaskControlBlock
wake_slot tick none = none
wake_slot tick (some t) = some (wake tick t t.state)

-- The scan over the 32 slots.
unfoldable pub wake_sleepers : ℕ → TaskTable → TaskTable
wake_sleepers tick table i = if ltb i max_partitions then wake_slot tick (table i) else table i

unfoldable pub wake_core : Hart → ℕ → Core → Core
unfolding wake_sleepers
wake_core h tick c =
    let s = c.scheds h in
    record c {
      scheds = set_hart c.scheds h (record s { task_table = wake_sleepers tick s.task_table });
    }

-- `TICK_COUNT.fetch_add(1) + 1`, re-arm the timer, wake the sleepers, and give the tick to the
-- scheduler.
unfoldable pub timer_interrupt : Env → Kernel → Outcome Resumed
timer_interrupt env k =
    let h = env.hart in
    let tick = (k.core.tick_count + 1) % 2 ^ 32 in
    let armed = record (k.core) {
      tick_count = tick;
      mtimecmp = set_hart k.core.mtimecmp h ((env.mtime + 40000) % 2 ^ 64);
    } in
    with_sched_lock h (λ k'. switch env true (record k' { core = wake_core h tick k'.core }))
      (record k { core = armed })

-- Clear the pending bit and reschedule.
unfoldable pub software_interrupt : Env → Kernel → Outcome Resumed
software_interrupt env k =
    let c = k.core in
    with_sched_lock env.hart (switch env false)
      (record k { core = record c { msip = set_hart c.msip env.hart 0 } })

-- System call 1.
unfoldable pub syscall_yield : Env → Kernel → Outcome Resumed
syscall_yield env k = with_sched_lock env.hart (switch env false) k

unfoldable pub sleep_body : Env → ℕ → Kernel → Outcome Resumed
sleep_body env ticks k =
    let h = env.hart in
    let i = running_idx h k.core in
    let wake_tick = (k.core.tick_count + ticks) % 2 ^ 32 in
    unwrap (slot k.core h i) >>= λ t.
    switch env false (record k { core = set_state k.core h i t (blocked wake_tick) })

-- System call 2.
unfoldable pub syscall_sleep : Env → Kernel → Outcome Resumed
unfolding sleep_body
syscall_sleep env k =
    with_sched_lock env.hart (sleep_body env (read_frame k.core.memory env.user_sp reg_a0)) k

abbrev pub checkin_body : Env → Kernel → Outcome Resumed
checkin_body env k =
    let c = k.core in
    let i = running_idx env.hart c in
    assert (ltb i 32) (
      done (
        env.user_sp,
        record k { core = record c { last_checkin = update c.last_checkin i c.tick_count } },
      ))

-- System call 5.
unfoldable pub syscall_checkin : Env → Kernel → Outcome Resumed
syscall_checkin env k = with_sched_lock env.hart (checkin_body env) k
