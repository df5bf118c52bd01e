-- ===== src/Trap/Mutex.antt =====
-- kernel/src/trap.rs: system calls 3 (lock a mutex) and 4 (unlock it).
use cerberus_os.Base.{
  ℕ, zero, suc, ◌+◌, ◌%◌, Bool, true, false, not, Option, none, some, ltb, ◌==◌, if◌then◌else◌,
  get_elem?,
}
use cerberus_os.Base.Outcome.{Outcome, done, ◌>>=◌, assert, unwrap}
use cerberus_os.Scheduler.Tcb.{
  Capability, mutex, TaskState, ready, blocked_on_mutex, TaskControlBlock,
}
use cerberus_os.Trap.Memory.{read_frame, reg_a0, minus_one}
use cerberus_os.Trap.State.{
  Hart, hart0, hart1, KernelMutex, Core, Kernel, Env, Resumed, running_idx, slot, set_state,
  set_mutex, write_reg, signal, has_waiter, add_waiter, remove_waiter, take_mutex_lock,
  drop_mutex_lock, with_sched_lock,
}
use cerberus_os.Trap.Switch.{switch}

unfoldable pub cap_at : ℕ → Option TaskControlBlock → Outcome (Option Capability)
cap_at cap_idx o =
    unwrap o >>= λ t. unwrap (get_elem? t.capabilities cap_idx) >>= λ cap. done (some cap)

-- `tcb.capabilities[cap_idx]` of the running task, for an index below 8; `None` above.
unfoldable pub running_cap : Hart → ℕ → Core → Outcome (Option Capability)
running_cap h cap_idx c =
    if ltb cap_idx 8 then cap_at cap_idx (slot c h (running_idx h c)) else done none

-- Indexing `MUTEXES` out of bounds panics.
abbrev pub mutex_slot : Core → ℕ → Outcome (Option KernelMutex)
mutex_slot c i = assert (ltb i 8) (done (c.mutexes i))

-- The index of the mutex that a capability lets its task lock, or unlock.
abbrev pub lock_right : Option Capability → Option ℕ
lock_right (some (mutex i true u)) = some i
lock_right _ = none

abbrev pub unlock_right : Option Capability → Option ℕ
unlock_right (some (mutex i l true)) = some i
unlock_right _ = none

-- `MUTEX_LOCK.unlock(); permission_denied = true`, and then -1 to the caller.
unfoldable pub deny : Env → Kernel → Outcome Resumed
deny env k =
    let k' = drop_mutex_lock k in
    done (env.user_sp, record k' { core = write_reg k'.core env.user_sp reg_a0 minus_one })

abbrev pub is_blocked_on_mutex : TaskState → Bool
is_blocked_on_mutex (blocked_on_mutex i) = true
is_blocked_on_mutex _ = false

-- The tail of system call 3: 0 to the caller unless its task is blocked on a mutex now.
unfoldable pub finish_lock : Env → ℕ → Resumed → Outcome Resumed
finish_lock env i (sp, k) = unwrap (slot k.core env.hart i) >>= λ t. done (
  sp,
  if is_blocked_on_mutex t.state
      then k
      else record k { core = write_reg k.core env.user_sp reg_a0 0 },
)

-- The mutex is free: it goes to the running task.
unfoldable pub grant_mutex : Env → ℕ → KernelMutex → Kernel → Outcome Resumed
grant_mutex env mutex_idx m k =
    let i = running_idx env.hart k.core in
    let taken = record m { locked = true; owner_task_idx = some (i % 256) } in
    let k' = drop_mutex_lock (record k { core = set_mutex k.core mutex_idx taken }) in
    finish_lock env i (env.user_sp, k')

-- The mutex is held: the running task waits for it.
unfoldable pub wait_mutex : Env → ℕ → KernelMutex → Kernel → Outcome Resumed
wait_mutex env mutex_idx m k =
    let h = env.hart in
    let i = running_idx h k.core in
    unwrap (slot k.core h i) >>= λ t.
    let parked = set_state k.core h i t (blocked_on_mutex (mutex_idx % 256)) in
    let queued = record m { waiters_bitmap = add_waiter m.waiters_bitmap i } in
    switch env false (drop_mutex_lock (record k { core = set_mutex parked mutex_idx queued }))
    >>= λ r. finish_lock env i r

unfoldable pub lock_mutex : Env → ℕ → Kernel → Outcome Resumed
lock_mutex env mutex_idx k = mutex_slot k.core mutex_idx >>= λ slot_opt. elim slot_opt [
  | none ↦ deny env k
  | some m ↦ if not m.locked then grant_mutex env mutex_idx m k else wait_mutex env mutex_idx m k
]

unfoldable pub lock_body : Env → Kernel → Outcome Resumed
lock_body env k0 =
    let cap_idx = read_frame k0.core.memory env.user_sp reg_a0 in
    take_mutex_lock env.hart k0 >>= λ k. running_cap env.hart cap_idx k.core >>= λ cap.
    elim (lock_right cap) [ none ↦ deny env k | some i ↦ lock_mutex env i k ]

-- System call 3.
unfoldable pub syscall_lock : Env → Kernel → Outcome Resumed
syscall_lock env k = with_sched_lock env.hart (lock_body env) k

-- The core that a waiter's slot number belongs to.
abbrev pub waiter_hart : ℕ → Hart
waiter_hart w = if ltb w 2 then hart0 else hart1

unfoldable pub waiter_prio : Core → ℕ → Outcome ℕ
waiter_prio c w = unwrap (slot c (waiter_hart w) w) >>= λ t. done t.priority

-- One round of the search for the waiter of highest priority.
unfoldable pub better_waiter : Core → ℕ → Option ℕ → Outcome (Option ℕ)
better_waiter c i none = done (some i)
better_waiter c i (some w) = waiter_prio c w >>= λ w_prio.
    waiter_prio c i >>= λ i_prio. done (some (if ltb i_prio w_prio then i else w))

-- The search over the slots from `i` on, with `rounds` left.
unfoldable pub search_waiters : Core → ℕ → ℕ → ℕ → Option ℕ → Outcome (Option ℕ)
search_waiters c bitmap zero i best = done best
search_waiters c bitmap (suc rounds) i best =
    (if has_waiter bitmap i then better_waiter c i best else done best) >>= λ next.
    search_waiters c bitmap rounds (i + 1) next

unfoldable pub highest_waiter : Core → ℕ → Outcome (Option ℕ)
highest_waiter c bitmap = search_waiters c bitmap 32 0 none

-- Ownership goes to waiter `w`, which gets 0 from its own call of lock.
unfoldable pub hand_over : Env → ℕ → KernelMutex → ℕ → Kernel → Outcome Kernel
hand_over env mutex_idx m w k =
    let h = waiter_hart w in
    let given = record m {
      owner_task_idx = some (w % 256);
      waiters_bitmap = remove_waiter m.waiters_bitmap w;
    } in
    unwrap (slot k.core h w) >>= λ t.
    let woken = set_state (set_mutex k.core mutex_idx given) h w t ready in
    let answered = write_reg woken t.saved_sp reg_a0 0 in
    let k' = drop_mutex_lock (record k { core = answered }) in
    done (record k' { core = signal env.hart h k'.core })

-- Nobody waits.
unfoldable pub free_mutex : ℕ → KernelMutex → Kernel → Kernel
free_mutex mutex_idx m k = drop_mutex_lock (record k {
  core = set_mutex k.core mutex_idx (record m { locked = false; owner_task_idx = none });
})

abbrev pub is_owner : Option ℕ → ℕ → Bool
is_owner none i = false
is_owner (some o) i = o == i

unfoldable pub pass_on : Env → ℕ → KernelMutex → Kernel → Option ℕ → Outcome Kernel
pass_on env mutex_idx m k none = done (free_mutex mutex_idx m k)
pass_on env mutex_idx m k (some w) = hand_over env mutex_idx m w k

unfoldable pub unlock_mutex : Env → ℕ → Kernel → Outcome Resumed
unlock_mutex env mutex_idx k =
    let i = running_idx env.hart k.core in
    mutex_slot k.core mutex_idx >>= λ slot_opt. elim slot_opt [
      | none ↦ deny env k
      | some m ↦ assert (is_owner m.owner_task_idx (i % 256)) (
          highest_waiter k.core m.waiters_bitmap >>= λ w. pass_on env mutex_idx m k w >>= λ k'.
          switch env false k' >>= λ (sp, k'').
          done (sp, record k'' { core = write_reg k''.core env.user_sp reg_a0 0 }))
    ]

unfoldable pub unlock_body : Env → Kernel → Outcome Resumed
unlock_body env k0 =
    let cap_idx = read_frame k0.core.memory env.user_sp reg_a0 in
    take_mutex_lock env.hart k0 >>= λ k. running_cap env.hart cap_idx k.core >>= λ cap.
    elim (unlock_right cap) [ none ↦ deny env k | some i ↦ unlock_mutex env i k ]

-- System call 4.
unfoldable pub syscall_unlock : Env → Kernel → Outcome Resumed
syscall_unlock env k = with_sched_lock env.hart (unlock_body env) k
