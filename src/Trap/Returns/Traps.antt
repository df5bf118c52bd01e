-- ===== src/Trap/Returns/Traps.antt =====
-- kernel/src/trap.rs: which traps return.
use cerberus_os.Base.{ℕ, ◌+◌, ◌-◌, ◌%◌, ◌^◌, ◌≡◌, refl, true, false, ◌&&◌, lt→ltb, ◌==◌}
use cerberus_os.Base.Ending.{Makes, Ends, end_if, end_make, end_weaken, fails, ends}
use cerberus_os.Scheduler.Tcb.{blocked}
use cerberus_os.Trap.Memory.{read_frame, read_word, reg_a0, reg_a7, reg_mepc}
use cerberus_os.Trap.State.{Core, Kernel, Env, running_idx, set_state, write_reg}
use cerberus_os.Trap.Switch.{
  switch, sleep_body, checkin_body, timer_interrupt, software_interrupt, syscall_yield,
  syscall_sleep, syscall_checkin,
}
use cerberus_os.Trap.Mutex.{running_cap}
use cerberus_os.Trap.Recovery.{is_contained}
use cerberus_os.Trap.Emulation.{reads_counter, emulate}
use cerberus_os.Trap.Handler.{
  syscall, ecall, exception, dispatch, trap_handler, timer_cause, software_cause, ecall_cause,
}
use cerberus_os.Trap.Locks.Traps.{LocksOpen}
use cerberus_os.Trap.Roster.{IsManned, set_state-IsManned, switch-IsManned, wake_core-IsManned}
use cerberus_os.Trap.Capabilities.{Roster}
use cerberus_os.Trap.Returns.{IsFair, Manned, current, with_sched_lock-Ends}
use cerberus_os.Trap.Returns.Mutex.{write_reg-IsManned, syscall_lock-Ends}
use cerberus_os.Trap.Returns.Unlock.{IsIntruder, syscall_unlock-Ends}
use cerberus_os.Trap.Returns.Ipc.{syscall_send-Ends, syscall_recv-Ends}
use cerberus_os.Trap.Returns.Recovery.{syscall_terminate-Ends, contain_fault-Ends}

-- The core once the saved program counter is past the `ecall`.
abbrev pub past_ecall : Env → Core → Core
past_ecall env c =
    write_reg c env.user_sp reg_mepc ((read_frame c.memory env.user_sp reg_mepc + 4) % 2 ^ 32)

-- Why a trap may panic: a cause that the kernel does not handle, or the release of a mutex by a task
-- that does not own it.
pub data MayPanic (env : Env) (c : Core) : Type 0 where
  unhandled :
      (env.mcause == timer_cause) ≡ false
      → (env.mcause == software_cause) ≡ false
      → (env.mcause == ecall_cause) ≡ false
      → (env.mcause == 2
          && reads_counter (read_word c.memory (read_frame c.memory env.user_sp reg_mepc)))
        ≡ false
      → is_contained env.mcause ≡ false
      → MayPanic env c
  intruder :
      (env.mcause == ecall_cause) ≡ true
      → (read_frame c.memory env.user_sp reg_a7 == 4) ≡ true
      → IsIntruder env (past_ecall env c)
      → MayPanic env c

module _ (R : Roster) (fair : IsFair R) (env : Env) where
  timer_interrupt-Ends :
      {Reason : Type 0} (k : Kernel)
      → LocksOpen env k
      → IsManned R k.core
      → Ends Reason (Manned R) (timer_interrupt env k)
  unfolding timer_interrupt
  timer_interrupt-Ends k (o, o') n = with_sched_lock-Ends R fair env.hart _ _ o (λ l. end_make (
      switch-IsManned R env true _ (
        wake_core-IsManned R _ env.hart _
          (record { tables = n.tables; rights = n.rights; placed = n.placed }))))

  software_interrupt-Ends :
      {Reason : Type 0} (k : Kernel)
      → LocksOpen env k
      → IsManned R k.core
      → Ends Reason (Manned R) (software_interrupt env k)
  unfolding software_interrupt
  software_interrupt-Ends k (o, o') n =
      with_sched_lock-Ends R fair env.hart (switch env false) _ o (λ l. end_make (
        switch-IsManned R env false _
          (record { tables = n.tables; rights = n.rights; placed = n.placed })))

  syscall_yield-Ends :
      {Reason : Type 0} (k : Kernel)
      → LocksOpen env k
      → IsManned R k.core
      → Ends Reason (Manned R) (syscall_yield env k)
  unfolding syscall_yield
  syscall_yield-Ends k (o, o') n =
      with_sched_lock-Ends R fair env.hart (switch env false) k o
        (λ l. end_make (switch-IsManned R env false (record k { sched_lock = l }) n))

  sleep_body-Makes :
      (ticks : ℕ) (k : Kernel) → IsManned R k.core → Makes (Manned R) (sleep_body env ticks k)
  unfolding sleep_body
  sleep_body-Makes ticks k n =
      let i = running_idx env.hart k.core in
      let (t, e, r) = current R fair k.core env.hart n in
      let st = blocked ((k.core.tick_count + ticks) % 2 ^ 32) in
      rw e (
        switch-IsManned R env false (record k { core = set_state k.core env.hart i t st })
          (set_state-IsManned R k.core env.hart i t st e refl n))

  syscall_sleep-Ends :
      {Reason : Type 0} (k : Kernel)
      → LocksOpen env k
      → IsManned R k.core
      → Ends Reason (Manned R) (syscall_sleep env k)
  unfolding syscall_sleep
  syscall_sleep-Ends k (o, o') n =
      with_sched_lock-Ends R fair env.hart
        (sleep_body env (read_frame k.core.memory env.user_sp reg_a0)) k o
        (λ l. end_make (sleep_body-Makes _ (record k { sched_lock = l }) n))

  syscall_checkin-Ends :
      {Reason : Type 0} (k : Kernel)
      → LocksOpen env k
      → IsManned R k.core
      → Ends Reason (Manned R) (syscall_checkin env k)
  unfolding syscall_checkin
  syscall_checkin-Ends k (o, o') n =
      with_sched_lock-Ends R fair env.hart (checkin_body env) k o (λ l.
        rw (lt→ltb (running_idx env.hart k.core) 32 ((n.tables env.hart).in_range))
          (ends (record { tables = n.tables; rights = n.rights; placed = n.placed })))

  syscall-Ends :
      {Reason : Type 0} (id : ℕ) (k : Kernel)
      → LocksOpen env k
      → ((id == 4) ≡ true → IsIntruder env k.core → Reason)
      → IsManned R k.core
      → Ends Reason (Manned R) (syscall id env k)
  unfolding syscall
  syscall-Ends id k (o, o') why n =
      end_if (id == 1) (λ e. syscall_yield-Ends k (o, o') n)
        (λ e.
          end_if (id == 2) (λ e. syscall_sleep-Ends k (o, o') n)
            (λ e.
              end_if (id == 3) (λ e. syscall_lock-Ends R fair env k o o' n)
                (λ e.
                  end_if (id == 4)
                    (λ e. end_weaken (syscall_unlock-Ends R fair env k o o' n) (why e) (λ r m. m))
                    (λ e.
                      end_if (id == 5) (λ e. syscall_checkin-Ends k (o, o') n)
                        (λ e.
                          end_if (id == 6) (λ e. syscall_send-Ends R env fair k o n)
                            (λ e.
                              end_if (id == 7) (λ e. syscall_recv-Ends R env fair k o n)
                                (λ e.
                                  end_if (id == 8) (λ e. syscall_terminate-Ends R fair env k o o' n)
                                    (λ e. ends n))))))))

  emulate-IsManned : (w : ℕ) (c : Core) → IsManned R c → IsManned R (emulate env w c)
  unfolding emulate
  emulate-IsManned w c n = record { tables = n.tables; rights = n.rights; placed = n.placed }

  -- How a trap ends.
  pub trap_handler-Ends :
      (k : Kernel)
      → LocksOpen env k
      → IsManned R k.core
      → Ends (MayPanic env k.core) (Manned R) (trap_handler env k)
  unfolding trap_handler dispatch ecall exception running_cap
  trap_handler-Ends k o n =
      let n' : IsManned R
          (record (k.core) { trap_latency = (env.end_cycle + 2 ^ 32 - env.start_cycle) % 2 ^ 32 }) =
        record { tables = n.tables; rights = n.rights; placed = n.placed } in
      let pc = read_frame k.core.memory env.user_sp reg_mepc in
      end_if (env.mcause == timer_cause) (λ e. timer_interrupt-Ends _ o n')
        (λ no_timer.
          end_if (env.mcause == software_cause) (λ e. software_interrupt-Ends _ o n')
            (λ no_signal.
              end_if (env.mcause == ecall_cause)
                (λ call.
                  syscall-Ends (read_frame k.core.memory env.user_sp reg_a7) _ o
                    (λ four why. intruder call four why)
                    (write_reg-IsManned R _ env.user_sp reg_mepc _ n'))
                (λ no_call.
                  end_if (env.mcause == 2 && reads_counter (read_word k.core.memory pc))
                    (λ e. ends (emulate-IsManned _ _ n'))
                    (λ no_read.
                      end_if (is_contained env.mcause)
                        (λ e. contain_fault-Ends R fair env _ o.0 o.1 n')
                        (λ uncontained.
                          fails (unhandled no_timer no_signal no_call no_read uncontained))))))
