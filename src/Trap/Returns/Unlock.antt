-- ===== src/Trap/Returns/Unlock.antt =====
-- kernel/src/trap.rs: system call 4 returns, but for the release of a mutex by a task that does not own it.
use cerberus_os.Base.{
  ℕ, ◌%◌, ◌<◌, ◌≡◌, refl, ◌∙◌, sym, Bool, true, false, not, ◌&&◌, Option, none, some, ◌==◌, lt→ltb,
}
use cerberus_os.Base.Outcome.{done}
use cerberus_os.Base.Ending.{
  Makes, makes, make_bind, Ends, end_named, end_option, end_assert, end_make,
}
use cerberus_os.Scheduler.Tcb.{Capability, TaskControlBlock, ready}
use cerberus_os.Spinlock.Calls.{IsOpen}
use cerberus_os.Trap.Memory.{read_frame, reg_a0}
use cerberus_os.Trap.State.{
  Hart, hart_id, KernelMutex, Core, Kernel, Env, slot, running_idx, set_mutex, has_waiter,
  remove_waiter, drop_mutex_lock,
}
use cerberus_os.Trap.Switch.{switch}
use cerberus_os.Trap.Mutex.{
  running_cap, unlock_right, waiter_hart, waiter_prio, highest_waiter, hand_over, free_mutex,
  is_owner, pass_on, unlock_mutex, unlock_body, syscall_unlock,
}
use cerberus_os.Trap.Waiters.{IsHighest, somebody, highest_waiter-IsHighest}
use cerberus_os.Trap.Bitmaps.{has-remove_waiter}
use cerberus_os.Trap.Roster.{
  IsManned, set_state-IsManned, on_duty, switch-IsManned, signal-IsManned,
}
use cerberus_os.Trap.Capabilities.{Roster, is_some}
use cerberus_os.Trap.Returns.{
  IsFair, Manned, IsHeld, running_cap-Makes, take_mutex_lock-Ends, with_sched_lock-Ends,
}
use cerberus_os.Trap.Returns.Mutex.{set_mutex-IsManned, write_reg-IsManned, deny-Makes}

-- The running task asks for the release of a mutex that it does not own.
abbrev pub IsIntruder : Env → Core → Type 0
IsIntruder env c =
    (cap : Option Capability) × (x : ℕ) × (m : KernelMutex) × (running_cap env.hart
        (read_frame c.memory env.user_sp reg_a0) c
      ≡ done cap)
    × (unlock_right cap ≡ some x)
    × (c.mutexes x ≡ some m)
    × (is_owner m.owner_task_idx (running_idx env.hart c % 256) ≡ false)

-- What a search for a waiter may give.
abbrev pub IsPlaced : Roster → ℕ → Option ℕ → Type 0
IsPlaced R bitmap none = Unit
IsPlaced R bitmap (some w) =
    (w < 32) × (has_waiter bitmap w ≡ true) × (is_some (R (waiter_hart w) w) ≡ true)

abbrev priority_of : Option TaskControlBlock → ℕ
priority_of none = 0
priority_of (some t) = t.priority

module _ (R : Roster) where
  waiter_prio-done :
      (c : Core) (w : ℕ)
      → IsManned R c
      → is_some (R (waiter_hart w) w) ≡ true
      → waiter_prio c w ≡ done (priority_of (slot c (waiter_hart w) w))
  unfolding waiter_prio
  waiter_prio-done c w m there = let (t, e) = on_duty R c (waiter_hart w) w m there in rw e refl

  IsHighest-IsPlaced :
      (bitmap : ℕ) (prio : ℕ → ℕ) (r : Option ℕ)
      → ((w : ℕ) → w < 32 → has_waiter bitmap w ≡ true → is_some (R (waiter_hart w) w) ≡ true)
      → IsHighest bitmap prio 32 r
      → IsPlaced R bitmap r
  IsHighest-IsPlaced bitmap prio none fit h = tt
  IsHighest-IsPlaced bitmap prio (some w) fit (somebody lt has low first) = (lt, has, fit w lt has)

  -- The search for a waiter returns, and a waiter that it finds is in its place.
  pub highest_waiter-Makes :
      (c : Core) (x : ℕ) (m : KernelMutex)
      → c.mutexes x ≡ some m
      → IsManned R c
      → Makes (IsPlaced R m.waiters_bitmap) (highest_waiter c m.waiters_bitmap)
  highest_waiter-Makes c x m e w =
      let fit : (v : ℕ)
          → v < 32
          → has_waiter m.waiters_bitmap v ≡ true
          → is_some (R (waiter_hart v) v) ≡ true =
        λ v lt has. w.placed x v m e lt has in
      let (r, e', h) =
        highest_waiter-IsHighest c m.waiters_bitmap (λ v. priority_of (slot c (waiter_hart v) v))
          (λ v lt has. waiter_prio-done c v w (fit v lt has)) in
      rw e' (makes (IsHighest-IsPlaced m.waiters_bitmap _ r fit h))

  -- A waiter less, and every bit of the mutex still stands for a task in its place.
  pub fewer_waiters :
      (c : Core) (x w : ℕ) (m : KernelMutex)
      → c.mutexes x ≡ some m
      → w < 32
      → IsManned R c
      → (v : ℕ) → v < 32
      → has_waiter (remove_waiter m.waiters_bitmap w) v ≡ true
      → is_some (R (waiter_hart v) v) ≡ true
  fewer_waiters c x w m e lt n v lt' has =
      n.placed x v m e lt'
        (second (not (w == v)) (sym (has-remove_waiter m.waiters_bitmap w v lt lt') ∙ has))
    where
      second : (b : Bool) {a : Bool} → (b && a) ≡ true → a ≡ true
      second true h = h
      second false h = absurd (cc h)

  hand_over-Makes :
      (env : Env) (x : ℕ) (m : KernelMutex) (w : ℕ) (k : Kernel)
      → k.core.mutexes x ≡ some m
      → IsPlaced R m.waiters_bitmap (some w)
      → IsManned R k.core
      → Makes (λ k'. IsManned R k'.core) (hand_over env x m w k)
  unfolding hand_over drop_mutex_lock
  hand_over-Makes env x m w k e (lt, has, there) n =
      let h = waiter_hart w in
      let (t, e') = on_duty R k.core h w n there in
      let given = record m {
        owner_task_idx = some (w % 256);
        waiters_bitmap = remove_waiter m.waiters_bitmap w;
      } in
      let changed = set_mutex k.core x given in
      rw e' (
        makes (
          signal-IsManned R env.hart h _ (
            write_reg-IsManned R _ t.saved_sp reg_a0 0 (
              set_state-IsManned R changed h w t ready e' refl
                (set_mutex-IsManned R k.core x given (fewer_waiters k.core x w m e lt n) n)))))

  pass_on-Makes :
      (env : Env) (x : ℕ) (m : KernelMutex) (k : Kernel) (o : Option ℕ)
      → k.core.mutexes x ≡ some m
      → IsPlaced R m.waiters_bitmap o
      → IsManned R k.core
      → Makes (λ k'. IsManned R k'.core) (pass_on env x m k o)
  unfolding pass_on free_mutex drop_mutex_lock
  pass_on-Makes env x m k none e h n =
      makes (set_mutex-IsManned R k.core x _ (λ v lt has. n.placed x v m e lt has) n)
  pass_on-Makes env x m k (some w) e h n = hand_over-Makes env x m w k e h n

  unlock_mutex-Ends :
      {Reason : Type 0} (env : Env) (x : ℕ) (k : Kernel)
      → x < 8
      → ((m : KernelMutex)
          → k.core.mutexes x ≡ some m
          → is_owner m.owner_task_idx (running_idx env.hart k.core % 256) ≡ false
          → Reason)
      → IsManned R k.core
      → Ends Reason (Manned R) (unlock_mutex env x k)
  unfolding unlock_mutex
  unlock_mutex-Ends env x k lt why n = rw (lt→ltb x 8 lt) (
      end_option (k.core.mutexes x) (λ e. end_make (deny-Makes R env k n))
        (λ m e.
          end_assert (is_owner m.owner_task_idx (running_idx env.hart k.core % 256))
            (λ own. end_make (
              make_bind (highest_waiter k.core m.waiters_bitmap)
                (highest_waiter-Makes k.core x m e n)
                (λ w p. make_bind (pass_on env x m k w) (pass_on-Makes env x m k w e p n) (λ k' n'.
                  make_bind (switch env false k') (switch-IsManned R env false k' n')
                    (λ r n''. makes (write_reg-IsManned R (r.1).core env.user_sp reg_a0 0 n''))))))
            (λ other. why m e other)))

module _ (R : Roster) (fair : IsFair R) where
  unlock_of :
      (h : Hart) (i x : ℕ) (o : Option Capability)
      → IsHeld R fair h i o
      → unlock_right o ≡ some x
      → x < 8
  unlock_of h i x none held e = absurd (cc e)
  unlock_of h i x (some cap) held e = fair.unlockable h i x cap held e

  unlock_body-Ends :
      (env : Env) (k : Kernel)
      → IsOpen (hart_id env.hart) k.mutex_lock
      → IsManned R k.core
      → Ends (IsIntruder env k.core) (Manned R) (unlock_body env k)
  unfolding unlock_body
  unlock_body-Ends env k o n =
      let i = running_idx env.hart k.core in
      let cap_idx = read_frame k.core.memory env.user_sp reg_a0 in
      take_mutex_lock-Ends R fair env.hart _ k o (λ l.
        let k' = record k { mutex_lock = l } in
        end_named (running_cap env.hart cap_idx k.core)
          (running_cap-Makes R fair k.core env.hart cap_idx n)
          (λ cap found held.
            end_option (unlock_right cap) (λ e. end_make (deny-Makes R env k' n))
              (λ x e.
                unlock_mutex-Ends R env x k' (unlock_of env.hart i x cap held e)
                  (λ m e' other. (cap, x, m, found, e, e', other)) n)))

  -- System call 4 returns, or the task does not own the mutex.
  pub syscall_unlock-Ends :
      (env : Env) (k : Kernel)
      → IsOpen (hart_id env.hart) k.sched_lock
      → IsOpen (hart_id env.hart) k.mutex_lock
      → IsManned R k.core
      → Ends (IsIntruder env k.core) (Manned R) (syscall_unlock env k)
  unfolding syscall_unlock
  syscall_unlock-Ends env k s o n =
      with_sched_lock-Ends R fair env.hart (unlock_body env) k s
        (λ l. unlock_body-Ends env (record k { sched_lock = l }) o n)
