-- ===== src/Trap/Locks/Traps.antt =====
-- kernel/src/trap.rs: the locks of the kernel over a whole trap.
use cerberus_os.Base.{ℕ, true, false, zero, suc, ◌+◌, refl, ◌==◌, ◌%◌, ◌∙◌, not, ◌&&◌, ltb}
use cerberus_os.Base.Outcome.{
  Settles, returns, halts, Anything, settle_bind, settle_unwrap, settle_assert, settle_if,
  settle_option, settle_then, settle_weaken,
}
use cerberus_os.Spinlock.Calls.{IsOpen}
use cerberus_os.Trap.State.{
  hart_id, Core, Kernel, Env, Hart, slot, running_idx, drop_mutex_lock, same_hart,
}
use cerberus_os.Trap.Memory.{read_frame, read_word, reg_a0, reg_a7}
use cerberus_os.Trap.Switch.{
  sleep_body, timer_interrupt, software_interrupt, syscall_yield, syscall_sleep, syscall_checkin,
}
use cerberus_os.Trap.Mutex.{running_cap, highest_waiter, is_owner, syscall_lock, syscall_unlock}
use cerberus_os.Trap.Ipc.{
  send_right, recv_right, receives_on, sends_on, find_party, refuse, park, send, send_body,
  syscall_send, recv, recv_body, syscall_recv,
}
use cerberus_os.Trap.Recovery.{
  recover_mutex, recover_from, recover_mutexes, leave_target, terminate_body, syscall_terminate,
  find_target, terminate_running, fault_body, contain_fault, is_contained,
}
use cerberus_os.Trap.Emulation.{reads_counter}
use cerberus_os.Trap.Handler.{
  syscall, ecall, exception, dispatch, trap_handler, timer_cause, software_cause, ecall_cause,
}
use cerberus_os.Trap.Locks.{Kept, switch-Settles, take_mutex_lock-Settles, with_sched_lock-Settles}
use cerberus_os.Trap.Locks.Mutex.{
  running_cap-Settles, highest_waiter-Settles, lock_body-Settles, unlock_body-Settles,
}

park-Settles : (env : Env) (st : _) (k : Kernel) → Settles (Kept k) (park env st k)
unfolding park
park-Settles env st k =
    settle_unwrap (slot k.core env.hart (running_idx env.hart k.core))
      (λ t. switch-Settles env false _)

send-Settles : (env : Env) (e : ℕ) (k : Kernel) → Settles (Kept k) (send env e k)
unfolding send
send-Settles env e k =
    settle_option (find_party (receives_on e) k.core) (park-Settles env _ k)
      (λ p. returns (refl, refl))

send_body-Settles : (env : Env) (k : Kernel) → Settles (Kept k) (send_body env k)
unfolding send_body refuse
send_body-Settles env k =
    settle_then (running_cap env.hart _ k.core) (running_cap-Settles env.hart _ k.core)
      (λ cap. settle_option (send_right cap) (returns (refl, refl)) (λ e. send-Settles env e k))

recv-Settles : (env : Env) (e : ℕ) (k : Kernel) → Settles (Kept k) (recv env e k)
unfolding recv
recv-Settles env e k =
    settle_option (find_party (sends_on e) k.core) (park-Settles env _ k)
      (λ p. returns (refl, refl))

recv_body-Settles : (env : Env) (k : Kernel) → Settles (Kept k) (recv_body env k)
unfolding recv_body refuse
recv_body-Settles env k =
    settle_then (running_cap env.hart _ k.core) (running_cap-Settles env.hart _ k.core)
      (λ cap. settle_option (recv_right cap) (returns (refl, refl)) (λ e. recv-Settles env e k))

recover_mutex-Settles : (target i : ℕ) (c : Core) → Settles Anything (recover_mutex target i c)
unfolding recover_mutex
recover_mutex-Settles target i c = settle_option (c.mutexes i) (returns tt) (λ m.
    settle_if (is_owner m.owner_task_idx (target % 256))
      (settle_then (highest_waiter c m.waiters_bitmap) (highest_waiter-Settles c m.waiters_bitmap)
        (λ w. returns tt))
      (returns tt))

recover_from-Settles :
    (target rounds i : ℕ) (c : Core) → Settles Anything (recover_from target rounds i c)
unfolding recover_from
recover_from-Settles target zero i c = returns tt
recover_from-Settles target (suc rounds) i c =
    settle_then (recover_mutex target i c) (recover_mutex-Settles target i c)
      (λ c'. recover_from-Settles target rounds (i + 1) c')

recover_mutexes-Settles :
    (env : Env) (target : ℕ) (k : Kernel)
    → IsOpen (hart_id env.hart) k.mutex_lock
    → Settles (λ k'. Kept k (0, k')) (recover_mutexes env target k)
unfolding recover_mutexes drop_mutex_lock
recover_mutexes-Settles env target k o =
    take_mutex_lock-Settles env.hart (λ k'. k') _ k o
      (λ l.
        settle_then (recover_from target 8 0 k.core) (recover_from-Settles target 8 0 k.core)
          (λ c. returns (refl, refl)))

leave_target-Settles :
    (env : Env) (h : Hart) (target : ℕ) (k : Kernel)
    → Settles (Kept k) (leave_target env h target k)
unfolding leave_target
leave_target-Settles env h target k =
    settle_if (not (same_hart h env.hart)) (returns (refl, refl)) (
      settle_if (target == running_idx env.hart k.core) (switch-Settles env false _)
        (returns (refl, refl)))

terminate_body-Settles :
    (env : Env) (k : Kernel)
    → IsOpen (hart_id env.hart) k.mutex_lock
    → Settles (Kept k) (terminate_body env k)
unfolding terminate_body
terminate_body-Settles env k o =
    let target = read_frame k.core.memory env.user_sp reg_a0 in
    settle_option (find_target target k.core) (returns (refl, refl)) (λ found.
      settle_bind (recover_mutexes env target _) (recover_mutexes-Settles env target _ o)
        (λ k' kept.
          settle_weaken (leave_target-Settles env (found.0) target k')
            (λ r kept'. (kept'.0 ∙ kept.0, kept'.1 ∙ kept.1))))

terminate_running-Settles :
    (env : Env) (k : Kernel)
    → IsOpen (hart_id env.hart) k.mutex_lock
    → Settles (λ k'. Kept k (0, k')) (terminate_running env k)
unfolding terminate_running
terminate_running-Settles env k o =
    settle_option (slot k.core env.hart (running_idx env.hart k.core)) (returns (refl, refl))
      (λ t. recover_mutexes-Settles env _ _ o)

fault_body-Settles :
    (env : Env) (k : Kernel)
    → IsOpen (hart_id env.hart) k.mutex_lock
    → Settles (Kept k) (fault_body env k)
unfolding fault_body
fault_body-Settles env k o =
    settle_bind (terminate_running env k) (terminate_running-Settles env k o) (λ k' kept.
      settle_weaken (switch-Settles env false k') (λ r kept'. (kept'.0 ∙ kept.0, kept'.1 ∙ kept.1)))

module _ (env : Env) where
  -- What every trap starts with: the hart can take both locks at once.
  abbrev pub LocksOpen : Kernel → Type 0
  LocksOpen k = IsOpen (hart_id env.hart) k.sched_lock × IsOpen (hart_id env.hart) k.mutex_lock

  syscall-Settles : (id : ℕ) (k : Kernel) → LocksOpen k → Settles (Kept k) (syscall id env k)
  unfolding syscall syscall_yield syscall_sleep sleep_body syscall_lock syscall_unlock
      syscall_checkin syscall_send syscall_recv syscall_terminate
  syscall-Settles id k (o, o') =
      settle_if (id == 1) (with_sched_lock-Settles env.hart _ k o (λ l. switch-Settles env false _))
        (settle_if (id == 2)
          (with_sched_lock-Settles env.hart _ k o (λ l.
            settle_unwrap (slot k.core env.hart (running_idx env.hart k.core))
              (λ t. switch-Settles env false _)))
          (settle_if (id == 3)
            (with_sched_lock-Settles env.hart _ k o (λ l. lock_body-Settles env _ o'))
            (settle_if (id == 4)
              (with_sched_lock-Settles env.hart _ k o (λ l. unlock_body-Settles env _ o'))
              (settle_if (id == 5)
                (with_sched_lock-Settles env.hart _ k o (λ l.
                  settle_assert (ltb (running_idx env.hart k.core) 32) (returns (refl, refl))))
                (settle_if (id == 6)
                  (with_sched_lock-Settles env.hart _ k o (λ l. send_body-Settles env _))
                  (settle_if (id == 7)
                    (with_sched_lock-Settles env.hart _ k o (λ l. recv_body-Settles env _))
                    (settle_if (id == 8)
                      (with_sched_lock-Settles env.hart _ k o
                        (λ l. terminate_body-Settles env _ o'))
                      (returns (refl, refl)))))))))

  exception-Settles : (k : Kernel) → LocksOpen k → Settles (Kept k) (exception env k)
  unfolding exception contain_fault
  exception-Settles k (o, o') =
      settle_if (env.mcause == 2 && reads_counter (read_word k.core.memory _))
        (returns (refl, refl))
        (settle_if (is_contained env.mcause)
          (with_sched_lock-Settles env.hart _ _ o (λ l. fault_body-Settles env _ o')) halts)

  -- A trap that finds its hart able to take both locks of the kernel never waits for either, whatever
  -- its cause, and leaves both exactly as they were if it returns. It may panic instead of returning.
  pub trap_handler-Settles : (k : Kernel) → LocksOpen k → Settles (Kept k) (trap_handler env k)
  unfolding trap_handler dispatch ecall timer_interrupt software_interrupt
  trap_handler-Settles k (o, o') =
      settle_if (env.mcause == timer_cause)
        (with_sched_lock-Settles env.hart _ _ o (λ l. switch-Settles env true _))
        (settle_if (env.mcause == software_cause)
          (with_sched_lock-Settles env.hart _ _ o (λ l. switch-Settles env false _))
          (settle_if (env.mcause == ecall_cause)
            (syscall-Settles (read_frame k.core.memory env.user_sp reg_a7) _ (o, o'))
            (exception-Settles _ (o, o'))))
