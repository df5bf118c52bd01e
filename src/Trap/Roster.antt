-- ===== src/Trap/Roster.antt =====
-- kernel/src/trap.rs: which slot holds a task with which capabilities, over the writes of a trap.
use cerberus_os.Base.{ℕ, ◌%◌, ◌<◌, ◌≡◌, refl, ◌∙◌, ap, Bool, true, false, Option, none, some, ltb}
use cerberus_os.Base.Ending.{Makes, makes, make_bind, make_option, make_of}
use cerberus_os.Scheduler.Tcb.{TaskState, TaskControlBlock, eq_running}
use cerberus_os.Scheduler.Bitmap.{BitMapScheduler, max_partitions}
use cerberus_os.Scheduler.Ends.{schedule-Scheduled}
use cerberus_os.Scheduler.Invariant.{IsWellFormed, Scheduled-IsWellFormed}
use cerberus_os.Trap.State.{
  Hart, hart0, hart1, set_hart, KernelMutex, Core, Kernel, Env, slot, running_idx, set_slot,
  set_state, emit, task_swap, has_waiter, signal,
}
use cerberus_os.Trap.Mutex.{waiter_hart}
use cerberus_os.Trap.Switch.{
  save_sp, guard_active, resume, switch_task, switch, wake_sleepers, wake_core,
}
use cerberus_os.Trap.Interrupts.{reprogram_pmp_stack-Completes}
use cerberus_os.Trap.Tables.{
  set_hart-AllWellFormed, set_slot-AllWellFormed, wake_core-AllWellFormed,
}
use cerberus_os.Pmp.Driver.{reprogram_pmp_stack}
use cerberus_os.Trap.Capabilities.{
  Roster, rights_of, is_some, updated-rights, Scheduled-rights, set_hart-rights, woken-rights,
}

-- Both schedulers are well formed, the slots hold the tasks of the roster, and every bit of a mutex
-- stands for a task where the release of the mutex looks for it.
pub record IsManned (R : Roster) (c : Core) : Type 0 where
  pub tables : (h : Hart) → IsWellFormed (c.scheds h)
  pub rights : (h : Hart) (i : ℕ) → rights_of ((c.scheds h).task_table i) ≡ R h i
  pub placed :
      (i w : ℕ) (m : KernelMutex)
      → c.mutexes i ≡ some m
      → w < 32
      → has_waiter m.waiters_bitmap w ≡ true
      → is_some (R (waiter_hart w) w) ≡ true

module _ (R : Roster) where
  pub set_slot-IsManned :
      (c : Core) (h : Hart) (i : ℕ) (t t' : TaskControlBlock)
      → slot c h i ≡ some t
      → t'.capabilities ≡ t.capabilities
      → (eq_running t'.state ≡ true → i ≡ running_idx h c)
      → IsManned R c
      → IsManned R (set_slot c h i t')
  set_slot-IsManned c h i t t' e same run m = record {
    tables = set_slot-AllWellFormed c h i t' m.tables run;
    rights = λ j k.
        set_hart-rights c.scheds h j _ (λ l. updated-rights (c.scheds h).task_table i l t t' e same)
          k
        ∙ m.rights j k;
    placed = m.placed;
  }

  pub set_state-IsManned :
      (c : Core) (h : Hart) (i : ℕ) (t : TaskControlBlock) (st : TaskState)
      → slot c h i ≡ some t
      → eq_running st ≡ false
      → IsManned R c
      → IsManned R (set_state c h i t st)
  set_state-IsManned c h i t st e off m =
      set_slot-IsManned c h i t _ e refl (λ run. absurd (cc (off, run))) m

  -- The roster's tasks are there.
  pub on_duty :
      (c : Core) (h : Hart) (i : ℕ)
      → IsManned R c
      → is_some (R h i) ≡ true
      → (t : TaskControlBlock) × (slot c h i ≡ some t)
  on_duty c h i m e = there (slot c h i) (ap is_some (m.rights h i) ∙ e)
    where
      there :
          (o : Option TaskControlBlock)
          → is_some (rights_of o) ≡ true
          → (t : TaskControlBlock) × (o ≡ some t)
      there none e = absurd (cc e)
      there (some t) e = (t, refl)

  -- A scheduler replaced by one with the same tasks.
  pub set_hart-IsManned :
      (c : Core) (h : Hart) (s : BitMapScheduler)
      → IsWellFormed s
      → ((i : ℕ) → rights_of (s.task_table i) ≡ rights_of (slot c h i))
      → IsManned R c
      → IsManned R (record c { scheds = set_hart c.scheds h s })
  set_hart-IsManned c h s w e m = record {
    tables = set_hart-AllWellFormed c.scheds h s m.tables w;
    rights = λ j k. set_hart-rights c.scheds h j s e k ∙ m.rights j k;
    placed = m.placed;
  }

  saved-IsManned :
      (c : Core) (h : Hart) (i sp : ℕ) (o : Option TaskControlBlock)
      → slot c h i ≡ o
      → IsManned R c
      → IsManned R (elim o [ none ↦ c | some t ↦ set_slot c h i (record t { saved_sp = sp }) ])
  saved-IsManned c h i sp none e m = m
  saved-IsManned c h i sp (some t) e m =
      set_slot-IsManned c h i t _ e refl (λ run. (m.tables h).sole i (rw e run)) m

  guard_active-IsManned :
      (env : Env) (c : Core) → IsManned R c → Makes (IsManned R) (guard_active env c)
  unfolding guard_active
  guard_active-IsManned env c m =
      make_option (slot c env.hart (running_idx env.hart c)) (λ e. makes m)
        (λ t e.
          make_bind (reprogram_pmp_stack env.layout t.name (c.pmp env.hart))
            (make_of _ (reprogram_pmp_stack-Completes env.layout t.name (c.pmp env.hart)))
            (λ r any. makes (record { tables = m.tables; rights = m.rights; placed = m.placed })))

  resume-IsManned :
      (env : Env) (from old new_sp sp : ℕ) (c : Core)
      → IsManned R c
      → Makes (λ r. IsManned R (r.1)) (resume env from old new_sp sp c)
  unfolding resume
  resume-IsManned env from old new_sp sp c m =
      let traced = emit c (task_swap (from % 256) (running_idx env.hart c % 256) env.cycle) in
      let kept' : IsManned R traced = record {
        tables = m.tables;
        rights = m.rights;
        placed = m.placed;
      } in
      make_bind (guard_active env (save_sp traced env.hart old sp))
        (guard_active-IsManned env (save_sp traced env.hart old sp)
          (saved-IsManned traced env.hart old sp (slot traced env.hart old) refl kept'))
        (λ c' m'. makes m')

  switch_task-IsManned :
      (env : Env) (is_tick : Bool) (sp : ℕ) (c : Core)
      → IsManned R c
      → Makes (λ r. IsManned R (r.1)) (switch_task env is_tick sp c)
  unfolding switch_task
  switch_task-IsManned env is_tick sp c m =
      let s = c.scheds env.hart in
      let (r, e, sched) = schedule-Scheduled s is_tick ((m.tables env.hart).in_range) in
      let m' =
        set_hart-IsManned c env.hart (r.0)
          (Scheduled-IsWellFormed s is_tick (m.tables env.hart) sched)
          (Scheduled-rights s is_tick sched) m in
      rw e (make_option (r.1) (λ none'. makes m') (λ x some'. resume-IsManned env _ _ _ _ _ m'))

  -- A switch of tasks returns, and the tasks are the same.
  pub switch-IsManned :
      (env : Env) (is_tick : Bool) (k : Kernel)
      → IsManned R k.core
      → Makes (λ r. IsManned R (r.1).core) (switch env is_tick k)
  unfolding switch
  switch-IsManned env is_tick k m =
      make_bind (switch_task env is_tick env.user_sp k.core)
        (switch_task-IsManned env is_tick env.user_sp k.core m) (λ r m'. makes m')

  pub wake_core-IsManned :
      (c : Core) (h : Hart) (tick : ℕ) → IsManned R c → IsManned R (wake_core h tick c)
  unfolding wake_core wake_sleepers
  wake_core-IsManned c h tick m = record {
    tables = wake_core-AllWellFormed c h tick m.tables;
    rights = λ j k.
        set_hart-rights c.scheds h j _ (λ i. woken-rights tick (ltb i max_partitions) (slot c h i))
          k
        ∙ m.rights j k;
    placed = m.placed;
  }

  pub signal-IsManned : (from to : Hart) (c : Core) → IsManned R c → IsManned R (signal from to c)
  signal-IsManned hart0 hart0 c m = m
  signal-IsManned hart0 hart1 c m = record {
    tables = m.tables;
    rights = m.rights;
    placed = m.placed;
  }
  signal-IsManned hart1 hart0 c m = record {
    tables = m.tables;
    rights = m.rights;
    placed = m.placed;
  }
  signal-IsManned hart1 hart1 c m = m
