-- ===== src/Trap/Interrupts.antt =====
-- kernel/src/trap.rs: the traps that only reschedule always return.
use cerberus_os.Base.{ℕ, ◌%◌, ◌≡◌, refl, String, Bool, true, false, ltb}
use cerberus_os.Base.Outcome.{
  Outcome, Completes, completes, complete_bind, complete_if, complete_option,
}
use cerberus_os.Scheduler.Invariant.{schedule-IsWellFormed}
use cerberus_os.Pmp.Driver.{
  PmpRegs, Guard, Layout, configure_pmp, guard_stack, guard_stacks, reprogram_pmp_stack,
}
use cerberus_os.Spinlock.Calls.{IsOpen, lock-unlock}
use cerberus_os.Spinlock.Lock.{Spinlock}
use cerberus_os.Trap.State.{
  Hart, hart_id, Core, Kernel, Env, Resumed, slot, running_idx, emit, task_swap, with_sched_lock,
}
use cerberus_os.Trap.Switch.{
  save_sp, guard_active, resume, switch_task, switch, timer_interrupt, software_interrupt,
  syscall_yield,
}
use cerberus_os.Trap.Tables.{AllWellFormed, wake_core-AllWellFormed}

guard_stack-Completes :
    (active : String) (g : Guard) (r : PmpRegs)
    → ltb g.entry 7 ≡ true
    → Completes (guard_stack active g r)
unfolding guard_stack configure_pmp
guard_stack-Completes active g r e = rw e (complete_if _ completes completes)

pub reprogram_pmp_stack-Completes :
    (l : Layout) (active : String) (r : PmpRegs) → Completes (reprogram_pmp_stack l active r)
unfolding reprogram_pmp_stack guard_stacks
reprogram_pmp_stack-Completes l active r =
    complete_bind _ (guard_stack-Completes active _ r refl) (λ r1.
      complete_bind _ (guard_stack-Completes active _ r1 refl) (λ r2.
        complete_bind _ (guard_stack-Completes active _ r2 refl) (λ r3.
          complete_bind _ (guard_stack-Completes active _ r3 refl)
            (λ r4. complete_bind _ (guard_stack-Completes active _ r4 refl) (λ r5. completes)))))

guard_active-Completes : (env : Env) (c : Core) → Completes (guard_active env c)
unfolding guard_active
guard_active-Completes env c =
    complete_option (slot c env.hart (running_idx env.hart c)) completes (λ t.
      complete_bind (reprogram_pmp_stack env.layout t.name (c.pmp env.hart))
        (reprogram_pmp_stack-Completes env.layout t.name (c.pmp env.hart)) (λ r. completes))

resume-Completes :
    (env : Env) (from old new_sp sp : ℕ) (c : Core) → Completes (resume env from old new_sp sp c)
unfolding resume
resume-Completes env from old new_sp sp c =
    let traced = emit c (task_swap (from % 256) (running_idx env.hart c % 256) env.cycle) in
    complete_bind (guard_active env (save_sp traced env.hart old sp))
      (guard_active-Completes env (save_sp traced env.hart old sp)) (λ c'. completes)

switch_task-Completes :
    (env : Env) (is_tick : Bool) (sp : ℕ) (c : Core)
    → AllWellFormed c
    → Completes (switch_task env is_tick sp c)
unfolding switch_task
switch_task-Completes env is_tick sp c w =
    let scheduled = schedule-IsWellFormed (c.scheds env.hart) is_tick (w env.hart) in
    rw scheduled.1 (complete_option (scheduled.0.1) completes (λ x. resume-Completes env _ _ _ _ _))

switch-Completes :
    (env : Env) (is_tick : Bool) (k : Kernel)
    → AllWellFormed k.core
    → Completes (switch env is_tick k)
unfolding switch
switch-Completes env is_tick k w =
    complete_bind (switch_task env is_tick env.user_sp k.core)
      (switch_task-Completes env is_tick env.user_sp k.core w) (λ r. completes)

with_sched_lock-Completes :
    (h : Hart) (body : Kernel → Outcome Resumed) (k : Kernel)
    → IsOpen (hart_id h) k.sched_lock
    → ((l : Spinlock) → Completes (body (record k { sched_lock = l })))
    → Completes (with_sched_lock h body k)
unfolding with_sched_lock
with_sched_lock-Completes h body k o g =
    let opened = lock-unlock (hart_id h) k.sched_lock o in
    rw opened.1
      (complete_bind (body (record k { sched_lock = opened.0 })) (g opened.0) (λ r. completes))

-- With the schedulers of both cores well formed and the scheduler lock free or the hart's own, the
-- timer interrupt, the software interrupt and the call yield all return, without a panic and without
-- a wait.
pub switching-Completes :
    (env : Env) (k : Kernel)
    → IsOpen (hart_id env.hart) k.sched_lock
    → AllWellFormed k.core
    → Completes (timer_interrupt env k)
      × Completes (software_interrupt env k)
      × Completes (syscall_yield env k)
unfolding timer_interrupt software_interrupt syscall_yield
switching-Completes env k o w = (
  with_sched_lock-Completes env.hart _ _ o
      (λ l. switch-Completes env true _ (wake_core-AllWellFormed _ env.hart _ w)),
  with_sched_lock-Completes env.hart _ _ o (λ l. switch-Completes env false _ w),
  with_sched_lock-Completes env.hart _ _ o (λ l. switch-Completes env false _ w),
)
