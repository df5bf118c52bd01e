-- ===== src/Trap/Partitions/Traps.antt =====
-- kernel/src/trap.rs: the schedulers of both cores over a whole trap.
use cerberus_os.Base.{ℕ, ◌+◌, refl, ◌≡◌, ◌==◌, ◌%◌, ◌&&◌, ltb, false, true, ◌^◌}
use cerberus_os.Base.Outcome.{
  done, Settles, returns, halts, settle_unwrap, settle_assert, settle_if, settle_option,
  settle_then,
}
use cerberus_os.Scheduler.Tcb.{TaskState, ready, blocked, eq_running}
use cerberus_os.Trap.State.{Kernel, Env, slot, running_idx}
use cerberus_os.Trap.Memory.{read_frame, read_word, reg_a0, reg_a7, reg_mepc}
use cerberus_os.Trap.Switch.{
  sleep_body, timer_interrupt, software_interrupt, syscall_yield, syscall_sleep, syscall_checkin,
}
use cerberus_os.Trap.Mutex.{running_cap, syscall_lock, syscall_unlock}
use cerberus_os.Trap.Ipc.{
  send_right, recv_right, receives_on, sends_on, find_party, refuse, park, deliver, send, send_body,
  syscall_send, fetch, recv, recv_body, syscall_recv,
}
use cerberus_os.Trap.Recovery.{syscall_terminate, fault_body, contain_fault, is_contained}
use cerberus_os.Trap.Emulation.{reads_counter, emulate}
use cerberus_os.Trap.Handler.{
  syscall, ecall, exception, dispatch, trap_handler, timer_cause, software_cause, ecall_cause,
}
use cerberus_os.Trap.Locks.Mutex.{running_cap-Settles}
use cerberus_os.Trap.Locks.Traps.{LocksOpen}
use cerberus_os.Trap.Tables.{
  AllWellFormed, Sound, switch-Sound, set_state-AllWellFormed, wake_core-AllWellFormed,
  signal-AllWellFormed,
}
use cerberus_os.Trap.Partitions.Recovery.{terminate_body-Sound, fault_body-Sound}
use cerberus_os.Trap.Partitions.{with_sched_lock-Sound, lock_body-Sound, unlock_body-Sound}

park-Sound :
    (env : Env) (st : TaskState) (k : Kernel)
    → eq_running st ≡ false
    → AllWellFormed k.core
    → Settles Sound (park env st k)
unfolding park
park-Sound env st k e w =
    settle_unwrap (slot k.core env.hart (running_idx env.hart k.core))
      (λ t. switch-Sound env false _ (set_state-AllWellFormed k.core env.hart _ t st w e))

send-Sound : (env : Env) (e : ℕ) (k : Kernel) → AllWellFormed k.core → Settles Sound (send env e k)
unfolding send deliver
send-Sound env e k w =
    settle_option (find_party (receives_on e) k.core) (park-Sound env _ k refl w) (λ p. returns (
      signal-AllWellFormed env.hart p.hart _
        (set_state-AllWellFormed k.core p.hart p.idx p.tcb ready w refl)))

send_body-Sound : (env : Env) (k : Kernel) → AllWellFormed k.core → Settles Sound (send_body env k)
unfolding send_body refuse
send_body-Sound env k w =
    settle_then (running_cap env.hart _ k.core) (running_cap-Settles env.hart _ k.core)
      (λ cap. settle_option (send_right cap) (returns w) (λ e. send-Sound env e k w))

recv-Sound : (env : Env) (e : ℕ) (k : Kernel) → AllWellFormed k.core → Settles Sound (recv env e k)
unfolding recv fetch
recv-Sound env e k w =
    settle_option (find_party (sends_on e) k.core) (park-Sound env _ k refl w) (λ p. returns (
      signal-AllWellFormed env.hart p.hart _
        (set_state-AllWellFormed k.core p.hart p.idx p.tcb ready w refl)))

recv_body-Sound : (env : Env) (k : Kernel) → AllWellFormed k.core → Settles Sound (recv_body env k)
unfolding recv_body refuse
recv_body-Sound env k w =
    settle_then (running_cap env.hart _ k.core) (running_cap-Settles env.hart _ k.core)
      (λ cap. settle_option (recv_right cap) (returns w) (λ e. recv-Sound env e k w))

module _ (env : Env) where
  syscall-Sound :
      (id : ℕ) (k : Kernel)
      → LocksOpen env k
      → AllWellFormed k.core
      → Settles Sound (syscall id env k)
  unfolding syscall syscall_yield syscall_sleep sleep_body syscall_lock syscall_unlock
      syscall_checkin syscall_send syscall_recv syscall_terminate
  syscall-Sound id k (o, o') w =
      settle_if (id == 1) (with_sched_lock-Sound env.hart _ k o (λ l. switch-Sound env false _ w)) (
        settle_if (id == 2)
          (with_sched_lock-Sound env.hart _ k o (λ l.
            settle_unwrap (slot k.core env.hart (running_idx env.hart k.core)) (λ t.
              let tick =
                (k.core.tick_count + read_frame k.core.memory env.user_sp reg_a0) % 2 ^ 32 in
              switch-Sound env false _ (
                set_state-AllWellFormed k.core env.hart (running_idx env.hart k.core) t
                  (blocked tick) w refl))))
          (settle_if (id == 3)
            (with_sched_lock-Sound env.hart _ k o (λ l. lock_body-Sound env _ o' w))
            (settle_if (id == 4)
              (with_sched_lock-Sound env.hart _ k o (λ l. unlock_body-Sound env _ o' w))
              (settle_if (id == 5)
                (with_sched_lock-Sound env.hart _ k o
                  (λ l. settle_assert (ltb (running_idx env.hart k.core) 32) (returns w)))
                (settle_if (id == 6)
                  (with_sched_lock-Sound env.hart _ k o (λ l. send_body-Sound env _ w))
                  (settle_if (id == 7)
                    (with_sched_lock-Sound env.hart _ k o (λ l. recv_body-Sound env _ w))
                    (settle_if (id == 8)
                      (with_sched_lock-Sound env.hart _ k o (λ l. terminate_body-Sound env _ o' w))
                      (returns w))))))))

  contain_fault-Sound :
      (k : Kernel) → LocksOpen env k → AllWellFormed k.core → Settles Sound (contain_fault env k)
  unfolding contain_fault
  contain_fault-Sound k (o, o') w =
      with_sched_lock-Sound env.hart (fault_body env) _ o (λ l. fault_body-Sound env _ o' w)

  emulate-Sound :
      (instruction : ℕ) (k : Kernel)
      → AllWellFormed k.core
      → Settles Sound (done (env.user_sp, record k { core = emulate env instruction k.core }))
  unfolding emulate
  emulate-Sound instruction k w = returns w

  exception-Sound :
      (k : Kernel) → LocksOpen env k → AllWellFormed k.core → Settles Sound (exception env k)
  unfolding exception
  exception-Sound k o w =
      let instruction = read_word k.core.memory (read_frame k.core.memory env.user_sp reg_mepc) in
      settle_if (env.mcause == 2 && reads_counter instruction) (emulate-Sound instruction k w)
        (settle_if (is_contained env.mcause) (contain_fault-Sound k o w) halts)

  -- A trap, whatever its cause, that finds the schedulers of both cores well formed and its hart able
  -- to take both locks of the kernel leaves both schedulers well formed if it returns, and it does not
  -- wait for a lock. It may panic instead of returning.
  pub trap_handler-Sound :
      (k : Kernel) → LocksOpen env k → AllWellFormed k.core → Settles Sound (trap_handler env k)
  unfolding trap_handler dispatch ecall timer_interrupt software_interrupt
  trap_handler-Sound k (o, o') w =
      settle_if (env.mcause == timer_cause)
        (with_sched_lock-Sound env.hart _ _ o
          (λ l. switch-Sound env true _ (wake_core-AllWellFormed _ env.hart _ w)))
        (settle_if (env.mcause == software_cause)
          (with_sched_lock-Sound env.hart _ _ o (λ l. switch-Sound env false _ w))
          (settle_if (env.mcause == ecall_cause)
            (syscall-Sound (read_frame k.core.memory env.user_sp reg_a7) _ (o, o') w)
            (exception-Sound _ (o, o') w)))
