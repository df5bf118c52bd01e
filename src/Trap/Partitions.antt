-- ===== src/Trap/Partitions.antt =====
-- kernel/src/trap.rs: the schedulers of both cores under the locks, and in system calls 3 and 4.
pub mod Recovery
pub mod Traps
use cerberus_os.Base.{
  ℕ, zero, suc, ◌+◌, Option, none, some, refl, ◌≡◌, ◌==◌, ◌%◌, ◌∙◌, Bool, not, ◌&&◌, if◌then◌else◌,
  ltb, false, true,
}
use cerberus_os.Base.Outcome.{
  Outcome, done, ◌>>=◌, Settles, returns, halts, Anything, settle_bind, settle_unwrap,
  settle_assert, settle_if, settle_option, settle_then, settle_weaken,
}
use cerberus_os.Scheduler.Tcb.{
  TaskState, ready, running, blocked, blocked_on_mutex, blocked_on_ipc_send, blocked_on_ipc_recv,
  terminated, TaskControlBlock, eq_running,
}
use cerberus_os.Spinlock.Lock.{Spinlock, unlock}
use cerberus_os.Spinlock.Calls.{IsOpen, lock-unlock}
use cerberus_os.Trap.State.{
  Hart, hart_id, Core, Kernel, KernelMutex, Env, Resumed, slot, running_idx, drop_mutex_lock,
  same_hart, take_mutex_lock, with_sched_lock, set_state, set_mutex, remove_waiter, write_reg,
}
use cerberus_os.Trap.Memory.{read_frame, read_word, reg_a0, reg_a7}
use cerberus_os.Trap.Switch.{switch}
use cerberus_os.Trap.Mutex.{
  running_cap, lock_right, unlock_right, deny, finish_lock, grant_mutex, wait_mutex, lock_mutex,
  lock_body, waiter_hart, highest_waiter, hand_over, free_mutex, pass_on, unlock_mutex, unlock_body,
  is_owner, mutex_slot, is_blocked_on_mutex,
}
use cerberus_os.Trap.Locks.Mutex.{running_cap-Settles, highest_waiter-Settles}
use cerberus_os.Trap.Tables.{
  signal-AllWellFormed, AllWellFormed, Sound, switch-Sound, set_state-AllWellFormed,
  wake_core-AllWellFormed,
}

pub with_sched_lock-Sound :
    (h : Hart) (body : Kernel → Outcome Resumed) (k : Kernel)
    → IsOpen (hart_id h) k.sched_lock
    → ((l : Spinlock) → Settles Sound (body (record k { sched_lock = l })))
    → Settles Sound (with_sched_lock h body k)
unfolding with_sched_lock
with_sched_lock-Sound h body k o g =
    let opened = lock-unlock (hart_id h) k.sched_lock o in
    rw opened.1
      (settle_bind (body (record k { sched_lock = opened.0 })) (g opened.0) (λ r w. returns w))

pub take_mutex_lock-Sound {ℓ} :
    {A : Type ℓ} (h : Hart) (P : A → Type 0) (rest : Kernel → Outcome A) (k : Kernel)
    → IsOpen (hart_id h) k.mutex_lock
    → ((l : Spinlock) → Settles P (rest (record k { mutex_lock = l })))
    → Settles P (take_mutex_lock h k >>= rest)
unfolding take_mutex_lock
take_mutex_lock-Sound h P rest k o g =
    let opened = lock-unlock (hart_id h) k.mutex_lock o in rw opened.1 (g opened.0)

deny-Sound : (env : Env) (k : Kernel) → AllWellFormed k.core → Settles Sound (deny env k)
unfolding deny drop_mutex_lock
deny-Sound env k w = returns w

Sound-if :
    (sp : ℕ) (b : Bool) (j l : Kernel)
    → AllWellFormed j.core
    → AllWellFormed l.core
    → Sound (sp, if b then j else l)
Sound-if sp true j l w v = w
Sound-if sp false j l w v = v

finish_lock-Sound :
    (env : Env) (i : ℕ) (r : Resumed) → Sound r → Settles Sound (finish_lock env i r)
unfolding finish_lock
finish_lock-Sound env i r w =
    settle_unwrap (slot (r.1).core env.hart i)
      (λ t. returns (Sound-if (r.0) (is_blocked_on_mutex t.state) _ _ w w))

grant_mutex-Sound :
    (env : Env) (i : ℕ) (m : KernelMutex) (k : Kernel)
    → AllWellFormed k.core
    → Settles Sound (grant_mutex env i m k)
unfolding grant_mutex drop_mutex_lock
grant_mutex-Sound env i m k w = finish_lock-Sound env _ (_, _) w

wait_mutex-Sound :
    (env : Env) (i : ℕ) (m : KernelMutex) (k : Kernel)
    → AllWellFormed k.core
    → Settles Sound (wait_mutex env i m k)
unfolding wait_mutex drop_mutex_lock
wait_mutex-Sound env i m k w =
    settle_unwrap (slot k.core env.hart (running_idx env.hart k.core)) (λ t.
      let parked =
        set_state-AllWellFormed k.core env.hart (running_idx env.hart k.core) t
          (blocked_on_mutex (i % 256)) w refl in
      settle_bind (switch env false _) (switch-Sound env false _ parked)
        (λ r v. finish_lock-Sound env _ r v))

lock_mutex-Sound :
    (env : Env) (i : ℕ) (k : Kernel) → AllWellFormed k.core → Settles Sound (lock_mutex env i k)
unfolding lock_mutex
lock_mutex-Sound env i k w =
    settle_then (mutex_slot k.core i) (settle_assert (ltb i 8) (returns tt)) (λ o.
      settle_option o (deny-Sound env k w) (λ m.
        settle_if (not m.locked) (grant_mutex-Sound env i m k w) (wait_mutex-Sound env i m k w)))

pub lock_body-Sound :
    (env : Env) (k : Kernel)
    → IsOpen (hart_id env.hart) k.mutex_lock
    → AllWellFormed k.core
    → Settles Sound (lock_body env k)
unfolding lock_body
lock_body-Sound env k o w = take_mutex_lock-Sound env.hart Sound _ k o (λ l.
    let k' = record k { mutex_lock = l } in
    settle_then (running_cap env.hart _ k.core) (running_cap-Settles env.hart _ k.core) (λ cap.
      settle_option (lock_right cap) (deny-Sound env k' w) (λ i. lock_mutex-Sound env i k' w)))

hand_over-Sound :
    (env : Env) (i : ℕ) (m : KernelMutex) (w : ℕ) (k : Kernel)
    → AllWellFormed k.core
    → Settles (λ k'. Sound (0, k')) (hand_over env i m w k)
unfolding hand_over drop_mutex_lock
hand_over-Sound env i m w k v = settle_unwrap (slot k.core (waiter_hart w) w) (λ t.
    let given = set_mutex k.core i (record m {
      owner_task_idx = some (w % 256);
      waiters_bitmap = remove_waiter m.waiters_bitmap w;
    }) in
    let woken = set_state given (waiter_hart w) w t ready in
    let answered = write_reg woken t.saved_sp reg_a0 0 in
    returns (
      signal-AllWellFormed env.hart (waiter_hart w) answered
        (set_state-AllWellFormed given (waiter_hart w) w t ready v refl)))

unlock_mutex-Sound :
    (env : Env) (i : ℕ) (k : Kernel) → AllWellFormed k.core → Settles Sound (unlock_mutex env i k)
unfolding unlock_mutex pass_on free_mutex drop_mutex_lock
unlock_mutex-Sound env i k v =
    settle_then (mutex_slot k.core i) (settle_assert (ltb i 8) (returns tt)) (λ o.
      settle_option o (deny-Sound env k v) (λ m.
        settle_assert (is_owner m.owner_task_idx (running_idx env.hart k.core % 256)) (
          settle_then (highest_waiter k.core m.waiters_bitmap) (highest_waiter-Settles _ _) (λ w.
            settle_bind (pass_on env i m k w) (passed m w) (λ k' freed.
              settle_bind (switch env false k') (switch-Sound env false k' freed)
                (λ r kept. returns kept))))))
  where
    passed : (m : KernelMutex) (w : Option ℕ) → Settles (λ k'. Sound (0, k')) (pass_on env i m k w)
    passed m none = returns v
    passed m (some w) = hand_over-Sound env i m w k v

pub unlock_body-Sound :
    (env : Env) (k : Kernel)
    → IsOpen (hart_id env.hart) k.mutex_lock
    → AllWellFormed k.core
    → Settles Sound (unlock_body env k)
unfolding unlock_body
unlock_body-Sound env k o w = take_mutex_lock-Sound env.hart Sound _ k o (λ l.
    let k' = record k { mutex_lock = l } in
    settle_then (running_cap env.hart _ k.core) (running_cap-Settles env.hart _ k.core) (λ cap.
      settle_option (unlock_right cap) (deny-Sound env k' w) (λ i. unlock_mutex-Sound env i k' w)))
