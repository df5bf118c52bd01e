-- ===== src/Trap/Returns/Recovery.antt =====
-- kernel/src/trap.rs: system call 8 and the containment of faults return.
use cerberus_os.Base.{
  ℕ, zero, suc, ◌+◌, ◌%◌, ◌≡◌, refl, Bool-cases, false, subst, not, Option, Option-cases, none,
  some, inl, inr, ltb, ◌==◌,
}
use cerberus_os.Base.Ending.{
  Makes, makes, make_bind, make_if, make_option, Ends, end_make, end_then, end_option,
}
use cerberus_os.Scheduler.Tcb.{ready, terminated, TaskControlBlock}
use cerberus_os.Spinlock.Calls.{IsOpen}
use cerberus_os.Trap.Memory.{read_frame, reg_a0, minus_one}
use cerberus_os.Trap.State.{
  Hart, hart0, hart1, hart_id, same_hart, KernelMutex, Core, Kernel, Env, slot, running_idx,
  drop_mutex_lock,
}
use cerberus_os.Trap.Mutex.{waiter_hart, highest_waiter, is_owner}
use cerberus_os.Trap.Recovery.{
  ready_waiter, reassign, recover_mutex, recover_from, recover_mutexes, find_target, leave_target,
  terminate_body, syscall_terminate, terminate_running, fault_body, contain_fault,
}
use cerberus_os.Trap.Roster.{IsManned, set_state-IsManned, switch-IsManned}
use cerberus_os.Trap.Capabilities.{Roster}
use cerberus_os.Trap.Returns.{IsFair, Manned, take_mutex_lock-Ends, with_sched_lock-Ends}
use cerberus_os.Trap.Returns.Mutex.{set_mutex-IsManned, write_reg-IsManned}
use cerberus_os.Trap.Returns.Unlock.{IsPlaced, highest_waiter-Makes, fewer_waiters}

abbrev Stands : ℕ → Core → Option (Hart × TaskControlBlock) → Type 0
Stands target c none = Unit
Stands target c (some (h, t)) = slot c h target ≡ some t

-- A target that is found stands in its slot.
find_target-Stands : (target : ℕ) (c : Core) → Stands target c (find_target target c)
unfolding find_target
find_target-Stands target c = elim (Bool-cases (ltb target 32)) [
  | inl below ↦ rw below (elim (Option-cases (slot c hart0 target)) [
    | inl e ↦
        rw e
          (elim (Option-cases (slot c hart1 target)) [ inl e' ↦ rw e' tt | inr (t, e') ↦ rw e' e' ])
    | inr (t, e) ↦ rw e e
  ])
  | inr above ↦ rw above tt
]

module _ (R : Roster) where
  ready_waiter-IsManned :
      (c : Core) (h : Hart) (w : ℕ) → IsManned R c → IsManned R (ready_waiter c h w)
  ready_waiter-IsManned c h w m = elim (Option-cases (slot c h w)) [
    | inl e ↦ rw (e, ready_waiter) m
    | inr (t, e) ↦ rw (e, ready_waiter) (set_state-IsManned R c h w t ready e refl m)
  ]

  pub reassign-IsManned :
      (x : ℕ) (m : KernelMutex) (o : Option ℕ) (c : Core)
      → c.mutexes x ≡ some m
      → IsPlaced R m.waiters_bitmap o
      → IsManned R c
      → IsManned R (reassign x m o c)
  unfolding reassign
  reassign-IsManned x m none c e p n =
      set_mutex-IsManned R c x _ (λ v lt has. n.placed x v m e lt has) n
  reassign-IsManned x m (some w) c e (lt, has, there) n =
      ready_waiter-IsManned _ (waiter_hart w) w
        (set_mutex-IsManned R c x _ (fewer_waiters R c x w m e lt n) n)

  recover_mutex-Makes :
      (target x : ℕ) (c : Core) → IsManned R c → Makes (IsManned R) (recover_mutex target x c)
  unfolding recover_mutex
  recover_mutex-Makes target x c n =
      make_option (c.mutexes x) (λ e. makes n)
        (λ m e.
          make_if (is_owner m.owner_task_idx (target % 256))
            (λ own.
              make_bind (highest_waiter c m.waiters_bitmap) (highest_waiter-Makes R c x m e n)
                (λ w p. makes (reassign-IsManned x m w c e p n)))
            (λ other. makes n))

  recover_from-Makes :
      (target rounds x : ℕ) (c : Core)
      → IsManned R c
      → Makes (IsManned R) (recover_from target rounds x c)
  unfolding recover_from
  recover_from-Makes target zero x c n = makes n
  recover_from-Makes target (suc rounds) x c n =
      make_bind (recover_mutex target x c) (recover_mutex-Makes target x c n)
        (λ c' n'. recover_from-Makes target rounds (x + 1) c' n')

module _ (R : Roster) (fair : IsFair R) (env : Env) where
  abbrev MannedKernel : Kernel → Type 0
  MannedKernel k = IsManned R k.core

  recover_mutexes-Ends :
      {Reason : Type 0} (target : ℕ) (k : Kernel)
      → IsOpen (hart_id env.hart) k.mutex_lock
      → IsManned R k.core
      → Ends Reason MannedKernel (recover_mutexes env target k)
  unfolding recover_mutexes drop_mutex_lock
  recover_mutexes-Ends target k o n = take_mutex_lock-Ends R fair env.hart _ k o (λ l. end_make (
      make_bind (recover_from target 8 0 k.core) (recover_from-Makes R target 8 0 k.core n)
        (λ c' n'. makes n')))

  leave_target-Makes :
      (h : Hart) (target : ℕ) (k : Kernel)
      → IsManned R k.core
      → Makes (Manned R) (leave_target env h target k)
  unfolding leave_target
  leave_target-Makes h target k n =
      let n' = write_reg-IsManned R k.core env.user_sp reg_a0 0 n in
      make_if (not (same_hart h env.hart))
        (λ other. makes (record { tables = n.tables; rights = n.rights; placed = n.placed }))
        (λ mine.
          make_if (target == running_idx env.hart k.core) (λ self. switch-IsManned R env false _ n')
            (λ else'. makes n'))

  terminate_body-Ends :
      {Reason : Type 0} (k : Kernel)
      → IsOpen (hart_id env.hart) k.mutex_lock
      → IsManned R k.core
      → Ends Reason (Manned R) (terminate_body env k)
  unfolding terminate_body
  terminate_body-Ends k o n =
      let target = read_frame k.core.memory env.user_sp reg_a0 in
      end_option (find_target target k.core)
        (λ e. end_make (makes (write_reg-IsManned R k.core env.user_sp reg_a0 minus_one n)))
        (λ x e.
          let n' =
            set_state-IsManned R k.core (x.0) target (x.1) terminated
              (subst (Stands target k.core) e (find_target-Stands target k.core)) refl n in
          end_then (recover_mutexes env target _) (recover_mutexes-Ends target _ o n')
            (λ k' m. leave_target-Makes (x.0) target k' m))

  terminate_running-Ends :
      {Reason : Type 0} (k : Kernel)
      → IsOpen (hart_id env.hart) k.mutex_lock
      → IsManned R k.core
      → Ends Reason MannedKernel (terminate_running env k)
  unfolding terminate_running
  terminate_running-Ends k o n =
      let i = running_idx env.hart k.core in
      end_option (slot k.core env.hart i) (λ e. end_make (makes n))
        (λ t e.
          recover_mutexes-Ends i _ o (set_state-IsManned R k.core env.hart i t terminated e refl n))

  -- System call 8 returns.
  pub syscall_terminate-Ends :
      {Reason : Type 0} (k : Kernel)
      → IsOpen (hart_id env.hart) k.sched_lock
      → IsOpen (hart_id env.hart) k.mutex_lock
      → IsManned R k.core
      → Ends Reason (Manned R) (syscall_terminate env k)
  unfolding syscall_terminate
  syscall_terminate-Ends k s o n =
      with_sched_lock-Ends R fair env.hart (terminate_body env) k s
        (λ l. terminate_body-Ends (record k { sched_lock = l }) o n)

  -- The containment of a fault returns.
  pub contain_fault-Ends :
      {Reason : Type 0} (k : Kernel)
      → IsOpen (hart_id env.hart) k.sched_lock
      → IsOpen (hart_id env.hart) k.mutex_lock
      → IsManned R k.core
      → Ends Reason (Manned R) (contain_fault env k)
  unfolding contain_fault fault_body
  contain_fault-Ends k s o n = with_sched_lock-Ends R fair env.hart (fault_body env) _ s (λ l.
      end_then (terminate_running env _)
        (terminate_running-Ends _ o
          (record { tables = n.tables; rights = n.rights; placed = n.placed }))
        (λ k' n'. switch-IsManned R env false k' n'))
