-- ===== src/Trap/Rights.antt =====
-- kernel/src/trap.rs: system calls 3, 4, 6 and 7 of a task whose capability does not allow them.
use cerberus_os.Base.{ℕ, ◌≡◌, refl, ap, Option, none, some, ◌==◌, if◌then◌else◌, sym, subst}
use cerberus_os.Base.Outcome.{Outcome, done}
use cerberus_os.Spinlock.Lock.{Spinlock, unlock}
use cerberus_os.Spinlock.Calls.{IsOpen, lock-unlock}
use cerberus_os.Scheduler.Tcb.{Capability}
use cerberus_os.Trap.Memory.{read_frame, reg_a0, minus_one}
use cerberus_os.Trap.State.{
  Hart, hart_id, Core, Kernel, Env, Resumed, write_reg, with_sched_lock, take_mutex_lock,
  drop_mutex_lock,
}
use cerberus_os.Trap.Mutex.{
  running_cap, lock_right, unlock_right, deny, lock_body, lock_mutex, unlock_mutex, syscall_lock,
  unlock_body, syscall_unlock,
}
use cerberus_os.Trap.Ipc.{
  send_right, recv_right, send, recv, refuse, send_body, syscall_send, recv_body, syscall_recv,
}
use cerberus_os.Trap.Handler.{syscall}
use cerberus_os.Trap.Locks.Traps.{LocksOpen}

-- The mutex or endpoint that a capability opens to a system call.
abbrev pub right_of : ℕ → Option Capability → Option ℕ
right_of id cap =
    if id == 3
    then lock_right cap
    else if id == 4
    then unlock_right cap
    else if id == 6
    then send_right cap
    else if id == 7
    then recv_right cap
    else none

-- The calls that need a capability.
pub data IsGuarded : ℕ → Type 0 where
  lock_call : IsGuarded 3
  unlock_call : IsGuarded 4
  send_call : IsGuarded 6
  recv_call : IsGuarded 7

-- The answer -1 and nothing else.
abbrev pub refusal : Env → Kernel → Resumed
refusal env k = (env.user_sp, record k { core = write_reg k.core env.user_sp reg_a0 minus_one })

without_right :
    {o : Option ℕ} {m n : Outcome Resumed} (f : ℕ → Outcome Resumed)
    → o ≡ none
    → m ≡ n
    → elim o [ none ↦ m | some i ↦ f i ] ≡ n
without_right {m = m} {n = n} f e h = subst (λ o. elim o [ none ↦ m | some i ↦ f i ] ≡ n) (sym e) h

with_sched_lock-done :
    (h : Hart) (body : Kernel → Outcome Resumed) (k : Kernel) (sp : ℕ) (c : Core)
    → IsOpen (hart_id h) k.sched_lock
    → ((l : Spinlock)
        → body (record k { sched_lock = l }) ≡ done (sp, record k { core = c; sched_lock = l }))
    → with_sched_lock h body k ≡ done (sp, record k { core = c })
unfolding with_sched_lock
with_sched_lock-done h body k sp c o e =
    let opened = lock-unlock (hart_id h) k.sched_lock o in
    rw opened.1
      (rw (e opened.0) (ap (λ l. done (sp, record k { core = c; sched_lock = l })) opened.4))

deny-refusal :
    (env : Env) (k : Kernel) (l l' : Spinlock)
    → unlock l' ≡ k.mutex_lock
    → deny env (record k { sched_lock = l; mutex_lock = l' })
      ≡ done (refusal env (record k { sched_lock = l }))
unfolding deny drop_mutex_lock
deny-refusal env k l l' e =
    ap (λ m. done (refusal env (record k { sched_lock = l; mutex_lock = m }))) e

module _ (env : Env) (k : Kernel) (o : LocksOpen env k) (cap : Option Capability)
    (held : running_cap env.hart (read_frame k.core.memory env.user_sp reg_a0) k.core
      ≡ done cap) where
  lock_refused : lock_right cap ≡ none → syscall_lock env k ≡ done (refusal env k)
  unfolding syscall_lock lock_body take_mutex_lock
  lock_refused e =
      let opened = lock-unlock (hart_id env.hart) k.mutex_lock (o.1) in
      with_sched_lock-done env.hart (lock_body env) k _ _ (o.0) (λ l. rw opened.1 (
        rw held
          (without_right (λ i. lock_mutex env i _) e (deny-refusal env k l opened.0 opened.4))))

  unlock_refused : unlock_right cap ≡ none → syscall_unlock env k ≡ done (refusal env k)
  unfolding syscall_unlock unlock_body take_mutex_lock
  unlock_refused e =
      let opened = lock-unlock (hart_id env.hart) k.mutex_lock (o.1) in
      with_sched_lock-done env.hart (unlock_body env) k _ _ (o.0) (λ l. rw opened.1 (
        rw held
          (without_right (λ i. unlock_mutex env i _) e (deny-refusal env k l opened.0 opened.4))))

  send_refused : send_right cap ≡ none → syscall_send env k ≡ done (refusal env k)
  unfolding syscall_send send_body refuse
  send_refused e =
      with_sched_lock-done env.hart (send_body env) k _ _ (o.0)
        (λ l. rw held (without_right (λ i. send env i _) e refl))

  recv_refused : recv_right cap ≡ none → syscall_recv env k ≡ done (refusal env k)
  unfolding syscall_recv recv_body refuse
  recv_refused e =
      with_sched_lock-done env.hart (recv_body env) k _ _ (o.0)
        (λ l. rw held (without_right (λ i. recv env i _) e refl))

  -- A task that calls lock, unlock, send or receive with a capability that does not give the right
  -- gets -1 in a0; the rest of the kernel's state, both locks included, is as before. The hart can
  -- take both locks.
  pub syscall_refused :
      (id : ℕ) → IsGuarded id → right_of id cap ≡ none → syscall id env k ≡ done (refusal env k)
  unfolding syscall
  syscall_refused id lock_call e = lock_refused e
  syscall_refused id unlock_call e = unlock_refused e
  syscall_refused id send_call e = send_refused e
  syscall_refused id recv_call e = recv_refused e
