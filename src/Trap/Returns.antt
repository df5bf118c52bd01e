-- ===== src/Trap/Returns.antt =====
-- kernel/src/trap.rs: which traps return. The capabilities that each slot holds are fixed.
pub mod Ipc
pub mod Mutex
pub mod Recovery
pub mod Panics
pub mod Traps
pub mod Unlock
use cerberus_os.Base.{
  ℕ, zero, suc, ◌+◌, ◌%◌, ◌<◌, ◌≡◌, refl, ◌∙◌, sym, ap, subst, Bool, true, false, not, ◌&&◌, ◌||◌,
  Bool-cases, inl, inr, Option, Option-cases, none, some, List, length, update, ◌==◌, ==_iff,
  if◌then◌else◌, ltb, lt→ltb, ltb→lt, get_elem?, arith,
}
use cerberus_os.Base.Outcome.{Outcome, done, ◌>>=◌, assert, unwrap}
use cerberus_os.Base.Ending.{
  Makes, makes, make_bind, make_if, make_option, make_weaken, make_complete, Ends, ends, fails,
  end_bind, end_if, end_option, end_assert, end_make, end_then, end_weaken,
}
use cerberus_os.Scheduler.Tcb.{Capability, TaskControlBlock, ready, blocked_on_mutex}
use cerberus_os.Spinlock.Lock.{Spinlock}
use cerberus_os.Spinlock.Calls.{IsOpen, lock-unlock}
use cerberus_os.Trap.Memory.{read_frame, reg_a0}
use cerberus_os.Trap.State.{
  Hart, hart_id, KernelMutex, Core, Kernel, Env, Resumed, slot, running_idx, set_state, set_mutex,
  write_reg, has_waiter, add_waiter, remove_waiter, take_mutex_lock, drop_mutex_lock,
  with_sched_lock, signal,
}
use cerberus_os.Trap.Switch.{switch}
use cerberus_os.Trap.Mutex.{
  cap_at, running_cap, mutex_slot, lock_right, unlock_right, deny, is_blocked_on_mutex, finish_lock,
  grant_mutex, wait_mutex, lock_mutex, lock_body, waiter_hart, waiter_prio, highest_waiter,
  hand_over, free_mutex, is_owner, pass_on, unlock_mutex, unlock_body,
}
use cerberus_os.Trap.Waiters.{IsHighest, nobody, somebody, highest_waiter-IsHighest}
use cerberus_os.Trap.Bitmaps.{has-add_waiter, has-remove_waiter}
use cerberus_os.Trap.Roster.{
  IsManned, set_state-IsManned, on_duty, switch-IsManned, signal-IsManned,
}
use cerberus_os.Trap.Capabilities.{Roster, rights_of, is_some}

-- The task of a slot may take what index `j` of its capabilities names.
abbrev pub Holds : Roster → Hart → ℕ → Capability → Type 0
Holds R h i cap =
    (caps : List Capability) × (j : ℕ) × (j < 8)
    × (R h i ≡ some caps)
    × (get_elem? caps j ≡ some cap)

-- Every task has eight capabilities; those for mutexes name one of the eight, and a task that may lock
-- one sits on the core where the release of the mutex looks for its slot.
pub record IsFair (R : Roster) : Type 0 where
  pub eight :
      (h : Hart) (i j : ℕ) (caps : List Capability)
      → R h i ≡ some caps
      → j < 8
      → (cap : Capability) × (get_elem? caps j ≡ some cap)
  pub lockable :
      (h : Hart) (i x : ℕ) (cap : Capability)
      → Holds R h i cap
      → lock_right (some cap) ≡ some x
      → (x < 8) × (waiter_hart i ≡ h)
  pub unlockable :
      (h : Hart) (i x : ℕ) (cap : Capability)
      → Holds R h i cap
      → unlock_right (some cap) ≡ some x
      → x < 8

-- The kernel's part of the result of a call.
abbrev pub Manned : Roster → Resumed → Type 0
Manned R r = IsManned R (r.1).core

module _ (R : Roster) (fair : IsFair R) where
  -- The running task, as the roster has it.
  pub current :
      (c : Core) (h : Hart)
      → IsManned R c
      → (t : TaskControlBlock) × (slot c h (running_idx h c) ≡ some t)
        × (R h (running_idx h c) ≡ some t.capabilities)
  current c h m =
      let (t, e) = (m.tables h).occupied in
      (t, e, sym (m.rights h (running_idx h c)) ∙ ap rights_of e)

  -- What a lookup of a capability may give.
  abbrev pub IsHeld : Hart → ℕ → Option Capability → Type 0
  IsHeld h i none = Unit
  IsHeld h i (some cap) = Holds R h i cap

  pub running_cap-Makes :
      (c : Core) (h : Hart) (j : ℕ)
      → IsManned R c
      → Makes (IsHeld h (running_idx h c)) (running_cap h j c)
  unfolding running_cap cap_at
  running_cap-Makes c h j m =
      let (t, e, r) = current c h m in
      make_if (ltb j 8)
        (λ small.
          let lt = ltb→lt j 8 small in
          let (cap, g) = fair.eight h (running_idx h c) j t.capabilities r lt in
          rw e (rw g (makes (t.capabilities, j, lt, r, g))))
        (λ large. makes tt)

  pub with_sched_lock-Ends :
      {Reason : Type 0} (h : Hart) (body : Kernel → Outcome Resumed) (k : Kernel)
      → IsOpen (hart_id h) k.sched_lock
      → ((l : Spinlock) → Ends Reason (Manned R) (body (record k { sched_lock = l })))
      → Ends Reason (Manned R) (with_sched_lock h body k)
  unfolding with_sched_lock
  with_sched_lock-Ends h body k o g =
      let opened = lock-unlock (hart_id h) k.sched_lock o in
      rw opened.1
        (end_then (body (record k { sched_lock = opened.0 })) (g opened.0) (λ r w. makes w))

  pub take_mutex_lock-Ends {ℓ} :
      {Reason : Type 0} {A : Type ℓ} {P : A → Type 0} (h : Hart) (rest : Kernel → Outcome A)
      (k : Kernel)
      → IsOpen (hart_id h) k.mutex_lock
      → ((l : Spinlock) → Ends Reason P (rest (record k { mutex_lock = l })))
      → Ends Reason P (take_mutex_lock h k >>= rest)
  unfolding take_mutex_lock
  take_mutex_lock-Ends h rest k o g =
      let opened = lock-unlock (hart_id h) k.mutex_lock o in rw opened.1 (g opened.0)
