-- ===== src/Trap/Partitions/Recovery.antt =====
-- kernel/src/trap.rs: the schedulers of both cores in system call 8 and in the containment of faults.
use cerberus_os.Base.{ℕ, zero, suc, ◌+◌, Option, none, some, refl, ◌==◌, ◌%◌, not, false, true}
use cerberus_os.Base.Outcome.{Settles, returns, settle_bind, settle_if, settle_option, settle_then}
use cerberus_os.Scheduler.Tcb.{ready, terminated, TaskControlBlock}
use cerberus_os.Spinlock.Calls.{IsOpen}
use cerberus_os.Trap.State.{
  hart_id, Core, Kernel, KernelMutex, Env, Hart, slot, running_idx, drop_mutex_lock, same_hart,
  set_state, set_mutex, remove_waiter,
}
use cerberus_os.Trap.Memory.{read_frame, reg_a0}
use cerberus_os.Trap.Mutex.{highest_waiter, is_owner, waiter_hart}
use cerberus_os.Trap.Recovery.{
  reassign, recover_mutex, recover_from, recover_mutexes, leave_target, terminate_body, find_target,
  terminate_running, fault_body,
}
use cerberus_os.Trap.Locks.Mutex.{highest_waiter-Settles}
use cerberus_os.Trap.Tables.{AllWellFormed, Sound, switch-Sound, set_state-AllWellFormed}
use cerberus_os.Trap.Partitions.{take_mutex_lock-Sound}

ready_waiter-AllWellFormed :
    (c : Core) (h : Hart) (i : ℕ) (o : Option TaskControlBlock)
    → AllWellFormed c
    → AllWellFormed (elim o [ none ↦ c | some t ↦ set_state c h i t ready ])
ready_waiter-AllWellFormed c h i none w = w
ready_waiter-AllWellFormed c h i (some t) w = set_state-AllWellFormed c h i t ready w refl

reassign-AllWellFormed :
    (i : ℕ) (m : KernelMutex) (o : Option ℕ) (c : Core)
    → AllWellFormed c
    → AllWellFormed (reassign i m o c)
unfolding reassign
reassign-AllWellFormed i m none c w = w
reassign-AllWellFormed i m (some v) c w =
    let given = set_mutex c i (record m {
      locked = true;
      owner_task_idx = some (v % 256);
      waiters_bitmap = remove_waiter m.waiters_bitmap v;
    }) in
    ready_waiter-AllWellFormed given (waiter_hart v) v (slot given (waiter_hart v) v) w

recover_mutex-Sound :
    (target i : ℕ) (c : Core) → AllWellFormed c → Settles AllWellFormed (recover_mutex target i c)
unfolding recover_mutex
recover_mutex-Sound target i c w = settle_option (c.mutexes i) (returns w) (λ m.
    settle_if (is_owner m.owner_task_idx (target % 256))
      (settle_then (highest_waiter c m.waiters_bitmap) (highest_waiter-Settles c m.waiters_bitmap)
        (λ o. returns (reassign-AllWellFormed i m o c w)))
      (returns w))

recover_from-Sound :
    (target rounds i : ℕ) (c : Core)
    → AllWellFormed c
    → Settles AllWellFormed (recover_from target rounds i c)
unfolding recover_from
recover_from-Sound target zero i c w = returns w
recover_from-Sound target (suc rounds) i c w =
    settle_bind (recover_mutex target i c) (recover_mutex-Sound target i c w)
      (λ c' w'. recover_from-Sound target rounds (i + 1) c' w')

module _ (env : Env) where
  recover_mutexes-Sound :
      (target : ℕ) (k : Kernel)
      → IsOpen (hart_id env.hart) k.mutex_lock
      → AllWellFormed k.core
      → Settles (λ k'. AllWellFormed k'.core) (recover_mutexes env target k)
  unfolding recover_mutexes drop_mutex_lock
  recover_mutexes-Sound target k o w =
      take_mutex_lock-Sound env.hart (λ k'. AllWellFormed k'.core) _ k o
        (λ l.
          settle_bind (recover_from target 8 0 k.core) (recover_from-Sound target 8 0 k.core w)
            (λ c w'. returns w'))

  leave_target-Sound :
      (h : Hart) (target : ℕ) (k : Kernel)
      → AllWellFormed k.core
      → Settles Sound (leave_target env h target k)
  unfolding leave_target
  leave_target-Sound h target k w =
      settle_if (not (same_hart h env.hart)) (returns w)
        (settle_if (target == running_idx env.hart k.core) (switch-Sound env false _ w) (returns w))

  pub terminate_body-Sound :
      (k : Kernel)
      → IsOpen (hart_id env.hart) k.mutex_lock
      → AllWellFormed k.core
      → Settles Sound (terminate_body env k)
  unfolding terminate_body
  terminate_body-Sound k o w =
      let target = read_frame k.core.memory env.user_sp reg_a0 in
      settle_option (find_target target k.core) (returns w) (λ found.
        let w' = set_state-AllWellFormed k.core (found.0) target (found.1) terminated w refl in
        settle_bind (recover_mutexes env target _) (recover_mutexes-Sound target _ o w')
          (λ k' kept. leave_target-Sound (found.0) target k' kept))

  terminate_running-Sound :
      (k : Kernel)
      → IsOpen (hart_id env.hart) k.mutex_lock
      → AllWellFormed k.core
      → Settles (λ k'. AllWellFormed k'.core) (terminate_running env k)
  unfolding terminate_running
  terminate_running-Sound k o w =
      let i = running_idx env.hart k.core in
      settle_option (slot k.core env.hart i) (returns w) (λ t.
        recover_mutexes-Sound _ _ o (set_state-AllWellFormed k.core env.hart i t terminated w refl))

  pub fault_body-Sound :
      (k : Kernel)
      → IsOpen (hart_id env.hart) k.mutex_lock
      → AllWellFormed k.core
      → Settles Sound (fault_body env k)
  unfolding fault_body
  fault_body-Sound k o w =
      settle_bind (terminate_running env k) (terminate_running-Sound k o w)
        (λ k' w'. switch-Sound env false k' w')
