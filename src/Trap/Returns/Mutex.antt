-- ===== src/Trap/Returns/Mutex.antt =====
-- kernel/src/trap.rs: system calls 3 and 4 return, but for the release of a mutex by a task that does not
-- own it.
use cerberus_os.Base.{
  ℕ, ◌%◌, ◌<◌, ◌≡◌, refl, ◌∙◌, sym, ap, subst, Bool, true, false, not, ◌||◌, Bool-cases, inl, inr,
  Option, none, some, ◌==◌, ==_iff, if◌then◌else◌, lt→ltb,
}
use cerberus_os.Base.Ending.{
  Makes, makes, make_bind, make_if, make_option, Ends, end_bind, end_option, end_make,
}
use cerberus_os.Scheduler.Tcb.{Capability, blocked_on_mutex}
use cerberus_os.Spinlock.Calls.{IsOpen}
use cerberus_os.Trap.Memory.{read_frame, reg_a0, minus_one}
use cerberus_os.Trap.State.{
  Hart, hart_id, KernelMutex, Core, Kernel, Env, Resumed, running_idx, set_state, set_mutex,
  write_reg, has_waiter, add_waiter, drop_mutex_lock,
}
use cerberus_os.Trap.Switch.{switch}
use cerberus_os.Trap.Mutex.{
  running_cap, lock_right, deny, is_blocked_on_mutex, finish_lock, grant_mutex, wait_mutex,
  lock_mutex, lock_body, syscall_lock, waiter_hart,
}
use cerberus_os.Trap.Bitmaps.{has-add_waiter}
use cerberus_os.Trap.Roster.{IsManned, set_state-IsManned, on_duty, switch-IsManned}
use cerberus_os.Trap.Capabilities.{Roster, is_some}
use cerberus_os.Trap.Returns.{
  with_sched_lock-Ends, IsFair, Manned, IsHeld, current, running_cap-Makes, take_mutex_lock-Ends,
}

abbrev bitmap_has : ℕ → Option KernelMutex → Bool
bitmap_has w none = false
bitmap_has w (some m) = has_waiter m.waiters_bitmap w

module _ (R : Roster) where
  -- A mutex changes, and every bit of it stands for a task in its place.
  pub set_mutex-IsManned :
      (c : Core) (x : ℕ) (m' : KernelMutex)
      → ((w : ℕ)
          → w < 32
          → has_waiter m'.waiters_bitmap w ≡ true
          → is_some (R (waiter_hart w) w) ≡ true)
      → IsManned R c
      → IsManned R (set_mutex c x m')
  set_mutex-IsManned c x m' fit m = record {
    tables = m.tables;
    rights = m.rights;
    placed = λ i w n e lt has. elim (Bool-cases (x == i)) [
      | inl same ↦
          let e' : some m' ≡ some n =
            subst (λ b. (if b then some m' else c.mutexes i) ≡ some n) same e in
          fit w lt (ap (bitmap_has w) e' ∙ has)
      | inr other ↦
          m.placed i w n (subst (λ b. (if b then some m' else c.mutexes i) ≡ some n) other e) lt has
    ];
  }

  pub write_reg-IsManned : (c : Core) (sp i v : ℕ) → IsManned R c → IsManned R (write_reg c sp i v)
  write_reg-IsManned c sp i v m = record { tables = m.tables; rights = m.rights; placed = m.placed }

  pub deny-Makes : (env : Env) (k : Kernel) → IsManned R k.core → Makes (Manned R) (deny env k)
  unfolding deny drop_mutex_lock
  deny-Makes env k m = makes (write_reg-IsManned k.core env.user_sp reg_a0 minus_one m)

  either-IsManned :
      (b : Bool) (k k' : Kernel)
      → IsManned R k.core
      → IsManned R k'.core
      → IsManned R ((if b then k else k').core)
  either-IsManned true k k' m n = m
  either-IsManned false k k' m n = n

  finish_lock-Makes :
      (env : Env) (i : ℕ) (r : Resumed)
      → is_some (R env.hart i) ≡ true
      → Manned R r
      → Makes (Manned R) (finish_lock env i r)
  unfolding finish_lock
  finish_lock-Makes env i (sp, k) e m =
      let (t, e') = on_duty R k.core env.hart i m e in
      rw e' (
        makes (
          either-IsManned (is_blocked_on_mutex t.state) k _ m
            (write_reg-IsManned k.core env.user_sp reg_a0 0 m)))

  grant_mutex-Makes :
      (env : Env) (x : ℕ) (m : KernelMutex) (k : Kernel)
      → k.core.mutexes x ≡ some m
      → is_some (R env.hart (running_idx env.hart k.core)) ≡ true
      → IsManned R k.core
      → Makes (Manned R) (grant_mutex env x m k)
  unfolding grant_mutex finish_lock drop_mutex_lock
  grant_mutex-Makes env x m k e there w =
      finish_lock-Makes env (running_idx env.hart k.core) _ there
        (set_mutex-IsManned k.core x _ (λ v lt has. w.placed x v m e lt has) w)

  wait_mutex-Makes :
      (env : Env) (x : ℕ) (m : KernelMutex) (k : Kernel)
      → k.core.mutexes x ≡ some m
      → is_some (R env.hart (running_idx env.hart k.core)) ≡ true
      → waiter_hart (running_idx env.hart k.core) ≡ env.hart
      → IsManned R k.core
      → Makes (Manned R) (wait_mutex env x m k)
  unfolding wait_mutex drop_mutex_lock
  wait_mutex-Makes env x m k e there home w =
      let i = running_idx env.hart k.core in
      let (t, e') = on_duty R k.core env.hart i w there in
      let fit : (v : ℕ)
          → v < 32
          → has_waiter (add_waiter m.waiters_bitmap i) v ≡ true
          → is_some (R (waiter_hart v) v) ≡ true =
        λ v lt has. elim (Bool-cases (i == v)) [
          | inl same ↦
              subst (λ u. is_some (R (waiter_hart u) u) ≡ true) ((==_iff i v).0 same)
                (subst (λ h. is_some (R h i) ≡ true) (sym home) there)
          | inr other ↦ w.placed x v m e lt (
              subst (λ b. (b || has_waiter m.waiters_bitmap v) ≡ true) other
                (sym (has-add_waiter m.waiters_bitmap i v ((w.tables env.hart).in_range) lt) ∙ has))
        ] in
      let parked = set_state k.core env.hart i t (blocked_on_mutex (x % 256)) in
      let queued = record m { waiters_bitmap = add_waiter m.waiters_bitmap i } in
      let k' = drop_mutex_lock (record k { core = set_mutex parked x queued }) in
      rw e' (
        make_bind (switch env false k')
          (switch-IsManned R env false k' (
            set_mutex-IsManned parked x queued fit
              (set_state-IsManned R k.core env.hart i t (blocked_on_mutex (x % 256)) e' refl w)))
          (λ r m'. finish_lock-Makes env i r there m'))

  lock_mutex-Makes :
      (env : Env) (x : ℕ) (k : Kernel)
      → x < 8
      → is_some (R env.hart (running_idx env.hart k.core)) ≡ true
      → waiter_hart (running_idx env.hart k.core) ≡ env.hart
      → IsManned R k.core
      → Makes (Manned R) (lock_mutex env x k)
  unfolding lock_mutex
  lock_mutex-Makes env x k lt there home w = rw (lt→ltb x 8 lt) (
      make_option (k.core.mutexes x) (λ e. deny-Makes env k w)
        (λ m e.
          make_if (not m.locked) (λ free. grant_mutex-Makes env x m k e there w)
            (λ held. wait_mutex-Makes env x m k e there home w)))

module _ (R : Roster) (fair : IsFair R) where
  lock_of :
      (h : Hart) (i x : ℕ) (o : Option Capability)
      → IsHeld R fair h i o
      → lock_right o ≡ some x
      → (x < 8) × (waiter_hart i ≡ h)
  lock_of h i x none held e = absurd (cc e)
  lock_of h i x (some cap) held e = fair.lockable h i x cap held e

  lock_body-Ends :
      {Reason : Type 0} (env : Env) (k : Kernel)
      → IsOpen (hart_id env.hart) k.mutex_lock
      → IsManned R k.core
      → Ends Reason (Manned R) (lock_body env k)
  unfolding lock_body
  lock_body-Ends env k o m =
      let i = running_idx env.hart k.core in
      let (t, e, r) = current R fair k.core env.hart m in
      let there : is_some (R env.hart i) ≡ true = ap is_some r in
      let cap_idx = read_frame k.core.memory env.user_sp reg_a0 in
      take_mutex_lock-Ends R fair env.hart _ k o (λ l.
        let k' = record k { mutex_lock = l } in
        end_bind (running_cap env.hart cap_idx k.core)
          (running_cap-Makes R fair k.core env.hart cap_idx m)
          (λ cap held.
            end_option (lock_right cap) (λ e'. end_make (deny-Makes R env k' m))
              (λ x e'.
                let (lt, home) = lock_of env.hart i x cap held e' in
                end_make (lock_mutex-Makes R env x k' lt there home m))))

  -- System call 3 returns.
  pub syscall_lock-Ends :
      {Reason : Type 0} (env : Env) (k : Kernel)
      → IsOpen (hart_id env.hart) k.sched_lock
      → IsOpen (hart_id env.hart) k.mutex_lock
      → IsManned R k.core
      → Ends Reason (Manned R) (syscall_lock env k)
  unfolding syscall_lock
  syscall_lock-Ends env k s o m =
      with_sched_lock-Ends R fair env.hart (lock_body env) k s (λ l. lock_body-Ends _ _ o m)
