-- ===== src/Boot/Watchdog.antt =====
-- kernel/src/main.rs: `watchdog_task`, one round of its loop after the sleep.
use cerberus_os.Base.{
  ℕ, ◌+◌, ◌-◌, ◌%◌, ◌^◌, ◌&&◌, Bool, Option, none, some, String, ltb, ◌==◌, if◌then◌else◌, update,
}
use cerberus_os.Base.Outcome.{Outcome, done, ◌>>=◌}
use cerberus_os.Scheduler.Tcb.{ready, TaskControlBlock, eq_terminated}
use cerberus_os.Spinlock.Lock.{lock, unlock}
use cerberus_os.Pmp.Driver.{str_eq}
use cerberus_os.Trap.State.{Hart, hart0, hart1, Core, Kernel, Env, slot, set_slot}
use cerberus_os.Trap.Entry.{Regs, trap_entry, sys_terminate_task}
use cerberus_os.Boot.Image.{Image}
use cerberus_os.Boot.Stack.{initialize_stack}
use cerberus_os.Boot.Tasks.{stack_size}

-- A last check-in at tick 0 stands for none yet.
unfoldable pub timed_out : ℕ → ℕ → Bool
timed_out last current =
    let elapsed = if last == 0 then current else (current + 2 ^ 32 - last) % 2 ^ 32 in
    let timeout = if last == 0 then 1000 else 200 in ltb timeout elapsed

-- One of the four checks: the name of the task, if it has timed out.
unfoldable pub check_task : Hart → ℕ → ℕ → Core → Option String → Option String
check_task h i current c failed = elim (slot c h i) [
  | none ↦ failed
  | some t ↦
      if eq_terminated t.state
      then failed
      else if timed_out (c.last_checkin i) current
      then some t.name
      else failed
]

-- Tasks A, B and C, and the HSM task; the last that timed out is the one that counts.
unfoldable pub check_tasks : ℕ → Core → Option String
check_tasks current c = check_task hart0 4 current c (
    check_task hart1 3 current c (check_task hart1 2 current c (check_task hart0 1 current c none)))

unfoldable pub failed_prio : String → ℕ
failed_prio name =
    if str_eq name "Task A"
    then 1
    else if str_eq name "Task B"
    then 2
    else if str_eq name "HSM Task"
    then 4
    else 3

-- The first frame again, and no check-in yet.
unfoldable pub restart : Hart → ℕ → ℕ → ℕ → TaskControlBlock → Core → Core
restart h i stack entry t c =
    let (sp, memory) = initialize_stack stack stack_size entry c.memory in
    record (set_slot c h i (record t { saved_sp = sp; state = ready })) {
      memory = memory;
      last_checkin = update c.last_checkin i 0;
    }

-- Task C, at most twice; `test_counter` is `TEST_COUNTER`.
unfoldable pub restart_task_c : Image → ℕ → Core → ℕ × Core
restart_task_c img test_counter c = elim (slot c hart1 3) [
  | none ↦ (test_counter, c)
  | some t ↦
      if eq_terminated t.state && ltb test_counter 2
      then (test_counter + 1, restart hart1 3 img.layout.c_stack img.task_c t c)
      else (test_counter, c)
]

-- The HSM task, whenever it is terminated.
unfoldable pub restart_hsm : Image → Core → Core
restart_hsm img c = elim (slot c hart0 4) [
  | none ↦ c
  | some t ↦
      if eq_terminated t.state then restart hart0 4 img.layout.hsm_stack img.hsm_task t c else c
]

-- `sys_terminate_task(failed_prio)`, through the trap entry, from the registers `r`.
unfoldable pub terminate_failed : Env → Regs → Option String → Kernel → Outcome Kernel
terminate_failed env r none k = done k
terminate_failed env r (some name) k =
    trap_entry env (sys_terminate_task (failed_prio name) r) k >>= λ (sp, k'). done k'

-- What the guard protects.
unfoldable pub round_body : Image → Env → Regs → ℕ → ℕ → Kernel → Outcome (ℕ × Kernel)
round_body img env r current test_counter k =
    terminate_failed env r (check_tasks current k.core) k >>= λ k'.
    let (count, c) = restart_task_c img test_counter k'.core in
    done (count, record k' { core = restart_hsm img c })

-- The round, with the tick that it read before it took the lock.
unfoldable pub watchdog_round : Image → Env → Regs → ℕ → Kernel → Outcome (ℕ × Kernel)
watchdog_round img env r test_counter k =
    let current = k.core.tick_count in
    lock 0 k.sched_lock >>= λ l.
    round_body img env r current test_counter (record k { sched_lock = l }) >>= λ (count, k').
    done (count, record k' { sched_lock = unlock k'.sched_lock })
