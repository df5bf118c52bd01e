-- ===== src/Trap/Tables.antt =====
-- kernel/src/trap.rs: what the writes of the trap handler to the task tables keep of the schedulers.
use cerberus_os.Base.{
  ℕ, ◌%◌, ◌≡◌, refl, inl, inr, arith, ap, ◌∙◌, sym, subst, Option, some, none, ◌==◌, true, false,
  Bool, Bool-cases, if◌then◌else◌, update, ltb, ==_iff,
}
use cerberus_os.Base.Outcome.{Settles, returns, settle_bind, settle_option, settle_then}
use cerberus_os.Scheduler.Tcb.{
  TaskState, ready, running, blocked, blocked_on_mutex, blocked_on_ipc_send, blocked_on_ipc_recv,
  terminated, TaskControlBlock, eq_running,
}
use cerberus_os.Scheduler.Bitmap.{BitMapScheduler, max_partitions}
use cerberus_os.Scheduler.Swap.{is_running}
use cerberus_os.Scheduler.Invariant.{IsWellFormed, schedule-IsWellFormed}
use cerberus_os.Trap.State.{
  Hart, hart0, hart1, same_hart, set_hart, Core, Kernel, Env, Resumed, slot, running_idx, set_slot,
  set_state, emit, task_swap, signal,
}
use cerberus_os.Trap.Switch.{
  save_sp, guard_active, resume, switch_task, switch, wake, wake_slot, wake_sleepers, wake_core,
}
use cerberus_os.Trap.Locks.{reprogram_pmp_stack-Settles}
use cerberus_os.Pmp.Driver.{reprogram_pmp_stack}

-- The schedulers of both cores.
abbrev pub AllWellFormed : Core → Type 0
AllWellFormed c = (h : Hart) → IsWellFormed (c.scheds h)

-- The same of the kernel that a call returns.
abbrev pub Sound : Resumed → Type 0
Sound r = AllWellFormed (r.1).core

pub set_hart-AllWellFormed :
    (f : Hart → BitMapScheduler) (h : Hart) (s : BitMapScheduler)
    → ((j : Hart) → IsWellFormed (f j))
    → IsWellFormed s
    → (j : Hart) → IsWellFormed (set_hart f h s j)
set_hart-AllWellFormed f hart0 s w v hart0 = v
set_hart-AllWellFormed f hart0 s w v hart1 = w hart1
set_hart-AllWellFormed f hart1 s w v hart0 = w hart0
set_hart-AllWellFormed f hart1 s w v hart1 = v

-- A slot gets a task that runs only if the slot is the current one.
put-IsWellFormed :
    (s : BitMapScheduler) (i : ℕ) (t : TaskControlBlock)
    → IsWellFormed s
    → (eq_running t.state ≡ true → i ≡ s.current_partition_idx)
    → IsWellFormed (record s { task_table = update s.task_table i (some t) })
put-IsWellFormed s i t w e = record {
  in_range = w.in_range;
  occupied = elim (Bool-cases (i == s.current_partition_idx)) [
    | inl same ↦ rw same (t, refl)
    | inr other ↦ rw other w.occupied
  ];
  sole = λ j run. elim (Bool-cases (i == j)) [
    | inl same ↦
        sym ((==_iff i j).0 same)
        ∙ e (subst (λ b. is_running (if b then some t else s.task_table j) ≡ true) same run)
    | inr other ↦
        w.sole j (subst (λ b. is_running (if b then some t else s.task_table j) ≡ true) other run)
  ];
}

pub set_slot-AllWellFormed :
    (c : Core) (h : Hart) (i : ℕ) (t : TaskControlBlock)
    → AllWellFormed c
    → (eq_running t.state ≡ true → i ≡ running_idx h c)
    → AllWellFormed (set_slot c h i t)
set_slot-AllWellFormed c h i t w e =
    set_hart-AllWellFormed c.scheds h _ w (put-IsWellFormed (c.scheds h) i t (w h) e)

saved :
    (c : Core) (h : Hart) (old sp : ℕ) (o : Option TaskControlBlock)
    → slot c h old ≡ o
    → AllWellFormed c
    → AllWellFormed (elim o [ none ↦ c | some t ↦ set_slot c h old (record t { saved_sp = sp }) ])
saved c h old sp none e w = w
saved c h old sp (some t) e w = set_slot-AllWellFormed c h old _ w (λ r. (w h).sole old (rw e r))

pub save_sp-AllWellFormed :
    (c : Core) (h : Hart) (old sp : ℕ) → AllWellFormed c → AllWellFormed (save_sp c h old sp)
save_sp-AllWellFormed c h old sp w = saved c h old sp (slot c h old) refl w

wake-running :
    (tick : ℕ) (t : TaskControlBlock) (st : TaskState)
    → eq_running (wake tick t st).state ≡ true
    → eq_running t.state ≡ true
wake-running tick t ready e = e
wake-running tick t running e = e
wake-running tick t (blocked wake_tick) e = ground arith
wake-running tick t (blocked_on_mutex i) e = e
wake-running tick t (blocked_on_ipc_send i a n) e = e
wake-running tick t (blocked_on_ipc_recv i a n) e = e
wake-running tick t terminated e = e

woken-some :
    (tick : ℕ) (b : Bool) {o : Option TaskControlBlock} {t : TaskControlBlock}
    → o ≡ some t
    → (t' : TaskControlBlock) × ((if b then wake_slot tick o else o) ≡ some t')
woken-some tick true e = (_, ap (wake_slot tick) e)
woken-some tick false e = (_, e)

woken-running :
    (tick : ℕ) (b : Bool) (o : Option TaskControlBlock)
    → is_running (if b then wake_slot tick o else o) ≡ true
    → is_running o ≡ true
woken-running tick true none e = e
woken-running tick true (some t) e = wake-running tick t t.state e
woken-running tick false o e = e

wake_sleepers-IsWellFormed :
    (tick : ℕ) (s : BitMapScheduler)
    → IsWellFormed s
    → IsWellFormed (record s { task_table = wake_sleepers tick s.task_table })
unfolding wake_sleepers
wake_sleepers-IsWellFormed tick s w = record {
  in_range = w.in_range;
  occupied = woken-some tick (ltb s.current_partition_idx max_partitions) (w.occupied.1);
  sole = λ i run. w.sole i (woken-running tick (ltb i max_partitions) (s.task_table i) run);
}

pub wake_core-AllWellFormed :
    (c : Core) (h : Hart) (tick : ℕ) → AllWellFormed c → AllWellFormed (wake_core h tick c)
unfolding wake_core
wake_core-AllWellFormed c h tick w =
    set_hart-AllWellFormed c.scheds h _ w (wake_sleepers-IsWellFormed tick (c.scheds h) (w h))

guard_active-Sound :
    (env : Env) (c : Core) → AllWellFormed c → Settles AllWellFormed (guard_active env c)
unfolding guard_active
guard_active-Sound env c w =
    settle_option (slot c env.hart (running_idx env.hart c)) (returns w) (λ t.
      settle_then (reprogram_pmp_stack env.layout t.name (c.pmp env.hart))
        (reprogram_pmp_stack-Settles env.layout t.name (c.pmp env.hart)) (λ r. returns w))

resume-Sound :
    (env : Env) (from old new_sp sp : ℕ) (c : Core)
    → AllWellFormed c
    → Settles (λ r. AllWellFormed (r.1)) (resume env from old new_sp sp c)
unfolding resume
resume-Sound env from old new_sp sp c w =
    let traced = emit c (task_swap (from % 256) (running_idx env.hart c % 256) env.cycle) in
    let kept = save_sp-AllWellFormed traced env.hart old sp w in
    settle_bind (guard_active env (save_sp traced env.hart old sp))
      (guard_active-Sound env (save_sp traced env.hart old sp) kept) (λ c' w'. returns w')

switch_task-Sound :
    (env : Env) (is_tick : Bool) (sp : ℕ) (c : Core)
    → AllWellFormed c
    → Settles (λ r. AllWellFormed (r.1)) (switch_task env is_tick sp c)
unfolding switch_task
switch_task-Sound env is_tick sp c w =
    let scheduled = schedule-IsWellFormed (c.scheds env.hart) is_tick (w env.hart) in
    let w' = set_hart-AllWellFormed c.scheds env.hart (scheduled.0.0) w scheduled.2 in
    rw scheduled.1 (settle_option (scheduled.0.1) (returns w') (λ x. resume-Sound env _ _ _ _ _ w'))

pub switch-Sound :
    (env : Env) (is_tick : Bool) (k : Kernel)
    → AllWellFormed k.core
    → Settles Sound (switch env is_tick k)
unfolding switch
switch-Sound env is_tick k w =
    settle_bind (switch_task env is_tick env.user_sp k.core)
      (switch_task-Sound env is_tick env.user_sp k.core w) (λ r w'. returns w')

-- A task is set to a state other than running.
pub set_state-AllWellFormed :
    (c : Core) (h : Hart) (i : ℕ) (t : TaskControlBlock) (st : TaskState)
    → AllWellFormed c
    → eq_running st ≡ false
    → AllWellFormed (set_state c h i t st)
set_state-AllWellFormed c h i t st w e = set_slot-AllWellFormed c h i _ w (λ run. cc)

AllWellFormed-if :
    (b : Bool) (c d : Core) → AllWellFormed c → AllWellFormed d → AllWellFormed (if b then c else d)
AllWellFormed-if true c d w v = w
AllWellFormed-if false c d w v = v

pub signal-AllWellFormed :
    (from to : Hart) (c : Core) → AllWellFormed c → AllWellFormed (signal from to c)
signal-AllWellFormed from to c w = AllWellFormed-if (same_hart to from) c _ w w
