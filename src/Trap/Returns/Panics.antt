-- ===== src/Trap/Returns/Panics.antt =====
-- kernel/src/trap.rs: which traps panic.
use cerberus_os.Base.{
  ℕ, ◌%◌, ◌≡◌, refl, ap, ◌∙◌, Bool-cases, false, Option, none, some, inl, inr, ltb, ◌==◌, ◌↔◌,
  arith,
}
use cerberus_os.Base.Outcome.{Outcome, panicked, ◌>>=◌}
use cerberus_os.Base.Ending.{Ends, end_panicked}
use cerberus_os.Spinlock.Calls.{lock-unlock}
use cerberus_os.Trap.Memory.{read_frame, reg_a7}
use cerberus_os.Trap.State.{
  hart_id, KernelMutex, Kernel, Env, Resumed, running_idx, take_mutex_lock, with_sched_lock,
}
use cerberus_os.Trap.Mutex.{
  running_cap, unlock_right, deny, is_owner, unlock_mutex, unlock_body, syscall_unlock,
}
use cerberus_os.Trap.Handler.{
  syscall, ecall, exception, dispatch, trap_handler, timer_cause, software_cause,
}
use cerberus_os.Trap.Locks.Traps.{LocksOpen}
use cerberus_os.Trap.Roster.{IsManned}
use cerberus_os.Trap.Capabilities.{Roster}
use cerberus_os.Trap.Returns.{IsFair, Manned}
use cerberus_os.Trap.Returns.Unlock.{IsIntruder}
use cerberus_os.Trap.Returns.Traps.{MayPanic, unhandled, intruder, trap_handler-Ends}

unlock_mutex-panicked :
    (env : Env) (x : ℕ) (m : KernelMutex) (k : Kernel)
    → k.core.mutexes x ≡ some m
    → is_owner m.owner_task_idx (running_idx env.hart k.core % 256) ≡ false
    → unlock_mutex env x k ≡ panicked
unfolding unlock_mutex
unlock_mutex-panicked env x m k e other = elim (Bool-cases (ltb x 8)) [
  | inl small ↦ rw small (rw e (rw other refl))
  | inr large ↦ rw large refl
]

-- What follows a panic does not run.
given_right :
    (u : Option ℕ) (x : ℕ) (n : Outcome Resumed) (f : ℕ → Outcome Resumed)
    (g : Resumed → Outcome Resumed)
    → u ≡ some x
    → f x ≡ panicked
    → (elim u [ none ↦ n | some i ↦ f i ] >>= g) ≡ panicked
given_right none x n f g e p = absurd (cc e)
given_right (some y) x n f g e p =
    ap (λ o. elim o [ none ↦ n | some i ↦ f i ] >>= g) e ∙ ap (λ o. o >>= g) p

-- The release of a mutex by a task that does not own it.
syscall_unlock-panicked :
    (env : Env) (k : Kernel)
    → LocksOpen env k
    → IsIntruder env k.core
    → syscall_unlock env k ≡ panicked
unfolding syscall_unlock with_sched_lock unlock_body take_mutex_lock
syscall_unlock-panicked env k (o, o') (held, x, m, found, right, e, other) =
    let (l, taken, _, _, _) = lock-unlock (hart_id env.hart) k.sched_lock o in
    let (l', taken', _, _, _) = lock-unlock (hart_id env.hart) k.mutex_lock o' in
    let k' = record k { sched_lock = l; mutex_lock = l' } in
    let panic = unlock_mutex-panicked env x m k' e other in
    rw taken (
      rw taken' (
        rw found (
          given_right (unlock_right held) x (deny env k') (λ i. unlock_mutex env i k') _ right
            panic)))

panics :
    (env : Env) (k : Kernel) → LocksOpen env k → MayPanic env k.core → trap_handler env k ≡ panicked
unfolding trap_handler dispatch ecall exception syscall running_cap
panics env k o (unhandled no_timer no_signal no_call no_read uncontained) =
    rw no_timer (rw no_signal (rw no_call (rw no_read (rw uncontained refl))))
panics env k o (intruder call four why) =
    let id = read_frame k.core.memory env.user_sp reg_a7 in
    let timer : (env.mcause == timer_cause) ≡ false = ground (arith, call) in
    let software : (env.mcause == software_cause) ≡ false = ground (arith, call) in
    let not1 : (id == 1) ≡ false = ground (arith, four) in
    let not2 : (id == 2) ≡ false = ground (arith, four) in
    let not3 : (id == 3) ≡ false = ground (arith, four) in
    rw timer (
      rw software
        (rw call (rw not1 (rw not2 (rw not3 (rw four (syscall_unlock-panicked env _ o why)))))))

module _ (R : Roster) (fair : IsFair R) where
  -- A trap that finds its hart able to take both locks never waits. It panics if and only if the kernel
  -- does not handle its cause, or the running task asks for the release of a mutex that it does not
  -- own. Otherwise it returns: every slot of both schedulers still holds a task with the capabilities it
  -- had, or still holds none, both schedulers are well formed, and every bit of a mutex stands for a
  -- task where the release of the mutex looks for it. Before the trap all that holds too, each task has
  -- eight capabilities, those for mutexes name one of the eight, and a task that may lock one sits on
  -- the core where a release looks for it.
  pub trap_handler-panicked_iff :
      (env : Env) (k : Kernel)
      → LocksOpen env k
      → IsManned R k.core
      → Ends (MayPanic env k.core) (Manned R) (trap_handler env k)
        × ((trap_handler env k ≡ panicked) ↔ MayPanic env k.core)
  trap_handler-panicked_iff env k o m =
      let outcome = trap_handler-Ends R fair env k o m in
      (outcome, (end_panicked outcome, panics env k o))
