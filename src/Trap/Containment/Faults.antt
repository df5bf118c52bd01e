-- ===== src/Trap/Containment/Faults.antt =====
-- kernel/src/trap.rs: what a contained fault leaves behind.
use cerberus_os.Base.{ℕ, ◌<◌, ◌≡◌, refl, ◌∙◌, sym, ap, ◌&&◌, true, false, ◌==◌, arith}
use cerberus_os.Base.Ending.{Makes, makes, make_bind, make_both, make_weaken, end_make, end_never}
use cerberus_os.Scheduler.Tcb.{terminated}
use cerberus_os.Spinlock.Calls.{IsOpen, lock-unlock}
use cerberus_os.Trap.State.{
  hart_id, Kernel, Env, slot, running_idx, drop_mutex_lock, with_sched_lock,
}
use cerberus_os.Trap.Recovery.{
  recover_from, recover_mutexes, terminate_running, fault_body, contain_fault, is_contained,
}
use cerberus_os.Trap.Memory.{read_word, read_frame, reg_mepc}
use cerberus_os.Trap.Emulation.{reads_counter}
use cerberus_os.Trap.Handler.{
  exception, dispatch, trap_handler, timer_cause, software_cause, ecall_cause,
}
use cerberus_os.Trap.Locks.Traps.{LocksOpen}
use cerberus_os.Trap.Roster.{IsManned, set_state-IsManned, switch-IsManned}
use cerberus_os.Trap.Capabilities.{Roster}
use cerberus_os.Trap.Returns.{IsFair, current, take_mutex_lock-Ends}
use cerberus_os.Trap.Containment.{
  is_gone, NotWaiting, IsFreed, IsRecovering, recover_from-IsRecovering,
}
use cerberus_os.Trap.Containment.Switches.{set_hart-here, put_here, switch-Left}

module _ (R : Roster) (fair : IsFair R) where
  recover_mutexes-Makes :
      (env : Env) (i : ℕ) (lt : i < 32) (k : Kernel)
      → IsOpen (hart_id env.hart) k.mutex_lock
      → IsRecovering R env.hart i lt 0 k.core
      → Makes (λ k'. IsRecovering R env.hart i lt 8 k'.core) (recover_mutexes env i k)
  unfolding recover_mutexes drop_mutex_lock
  recover_mutexes-Makes env i lt k o r = end_never (
      take_mutex_lock-Ends R fair env.hart _ k o (λ l. end_make (
        make_bind (recover_from i 8 0 k.core)
          (recover_from-IsRecovering R env.hart i lt 8 0 k.core r) (λ c r'. makes r'))))

  terminate_running-Makes :
      (env : Env) (k : Kernel) (m : IsManned R k.core)
      → IsOpen (hart_id env.hart) k.mutex_lock
      → NotWaiting (running_idx env.hart k.core) k.core
      → Makes
          (λ k'.
            IsRecovering R env.hart
              (running_idx env.hart k.core)
              ((m.tables env.hart).in_range)
              8
              k'.core)
          (terminate_running env k)
  unfolding terminate_running
  terminate_running-Makes env k m o free =
      let i = running_idx env.hart k.core in
      let (t, e, r) = current R fair k.core env.hart m in
      rw (e, terminate_running)
        (recover_mutexes-Makes env i ((m.tables env.hart).in_range) _ o (record {
          manned = set_state-IsManned R k.core env.hart i t terminated e refl m;
          gone =
              ap (λ s. is_gone (s.task_table i)) (set_hart-here k.core.scheds env.hart _)
              ∙ put_here (k.core.scheds env.hart).task_table i (record t { state = terminated });
          idle = free;
          freed = λ x n lt. absurd (omega arith);
        }))

  contain_fault-IsFreed :
      (env : Env) (k : Kernel)
      → LocksOpen env k
      → IsManned R k.core
      → NotWaiting (running_idx env.hart k.core) k.core
      → let i = running_idx env.hart k.core in
        Makes
          (λ r. (is_gone (slot ((r.1).core) env.hart i) ≡ true) × IsFreed i 8 ((r.1).core))
          (contain_fault env k)
  unfolding contain_fault fault_body with_sched_lock
  contain_fault-IsFreed env k (o, o') m free =
      let (l, taken, _, _, _) = lock-unlock (hart_id env.hart) k.sched_lock o in
      rw taken (
        make_bind _
          (make_bind (terminate_running env _)
            (terminate_running-Makes env _
              (record { tables = m.tables; rights = m.rights; placed = m.placed }) o' free)
            (λ k' r.
              make_weaken
                (make_both (switch-IsManned R env false k' r.manned)
                  (switch-Left env false _ k' ((r.manned.tables env.hart).in_range) r.gone))
                (λ x (left, manned).
                  (left.0, λ n mu lt at. r.freed n mu lt (ap (λ f. f n) (sym (left.1)) ∙ at)))))
          (λ r h. makes h))

  -- A trap for a fault that the kernel contains (causes 1, 2, 4, 5, 6 and 7, but for an emulated read of
  -- a counter), in a running task whose bit is set in no mutex, on a hart that can take both locks: it
  -- returns, the task is terminated, and it owns none of the eight mutexes. Before the trap the tasks of
  -- the roster are in place, each with eight capabilities, of which those for mutexes name one of the
  -- eight, and a task that may lock one sits on the core where a release looks for it.
  pub trap_handler-IsFreed :
      (env : Env) (k : Kernel)
      → is_contained env.mcause ≡ true
      → (env.mcause == 2
          && reads_counter
              (read_word k.core.memory (read_frame k.core.memory env.user_sp reg_mepc)))
        ≡ false
      → LocksOpen env k
      → IsManned R k.core
      → NotWaiting (running_idx env.hart k.core) k.core
      → let i = running_idx env.hart k.core in
        Makes
          (λ r. (is_gone (slot ((r.1).core) env.hart i) ≡ true) × IsFreed i 8 ((r.1).core))
          (trap_handler env k)
  unfolding trap_handler dispatch exception
  trap_handler-IsFreed env k contained no_read o m free =
      let timer : (env.mcause == timer_cause) ≡ false = ground (arith, contained) in
      let software : (env.mcause == software_cause) ≡ false = ground (arith, contained) in
      let call : (env.mcause == ecall_cause) ≡ false = ground (arith, contained) in
      rw timer (
        rw software (
          rw call (
            rw no_read (
              rw contained (
                contain_fault-IsFreed env _ o
                  (record { tables = m.tables; rights = m.rights; placed = m.placed }) free)))))
