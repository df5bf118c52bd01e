-- ===== src/Trap/Containment.antt =====
-- kernel/src/trap.rs: what a terminated task leaves behind.
pub mod Switches
pub mod Faults
use cerberus_os.Base.{
  ℕ, zero, suc, ◌+◌, ◌%◌, ◌<◌, ◌≡◌, ◌≢◌, refl, ◌∙◌, sym, ap, subst, Bool, Bool-cases, true, false,
  ◌⊎◌, inl, inr, Option, Option-cases, none, some, ◌==◌, ==_iff, ==_refl, update, if◌then◌else◌,
  arith,
}
use cerberus_os.Base.Outcome.{Outcome, done, ◌>>=◌}
use cerberus_os.Base.Ending.{
  Makes, makes, make_bind, make_if, make_option, Ends, end_make, end_never,
}
use cerberus_os.Scheduler.Tcb.{TaskControlBlock, ready, terminated, eq_terminated, TaskState}
use cerberus_os.Spinlock.Calls.{IsOpen}
use cerberus_os.Trap.State.{
  Hart, hart0, hart1, hart_id, set_hart, KernelMutex, Core, Kernel, Env, slot, running_idx,
  set_state, set_mutex, has_waiter, remove_waiter, drop_mutex_lock,
}
use cerberus_os.Trap.Mutex.{waiter_hart, highest_waiter, is_owner}
use cerberus_os.Trap.Bitmaps.{has-remove_waiter}
use cerberus_os.Trap.Recovery.{
  ready_waiter, reassign, recover_mutex, recover_from, recover_mutexes, terminate_running,
}
use cerberus_os.Trap.Roster.{IsManned, set_state-IsManned}
use cerberus_os.Trap.Capabilities.{Roster, is_some}
use cerberus_os.Trap.Returns.{IsFair, current, take_mutex_lock-Ends}
use cerberus_os.Trap.Returns.Unlock.{IsPlaced, highest_waiter-Makes}
use cerberus_os.Trap.Returns.Recovery.{reassign-IsManned}

abbrev pub is_gone : Option TaskControlBlock → Bool
is_gone none = false
is_gone (some t) = eq_terminated t.state

-- The task of the slot does not wait for a mutex.
abbrev pub NotWaiting : ℕ → Core → Type 0
NotWaiting target c =
    (x : ℕ) (m : KernelMutex) → c.mutexes x ≡ some m → has_waiter m.waiters_bitmap target ≡ false

-- And owns none of the first `n`.
abbrev pub IsFreed : ℕ → ℕ → Core → Type 0
IsFreed target n c =
    (x : ℕ) (m : KernelMutex)
    → x < n
    → c.mutexes x ≡ some m
    → is_owner m.owner_task_idx (target % 256) ≡ false

abbrev owned_by : ℕ → Option KernelMutex → Bool
owned_by i none = false
owned_by i (some m) = is_owner m.owner_task_idx i

abbrev or_else : KernelMutex → Option KernelMutex → KernelMutex
or_else d none = d
or_else d (some m) = m

put-cases :
    (n x : ℕ) (m' m : KernelMutex) (o : Option KernelMutex)
    → (if n == x then some m' else o) ≡ some m
    → ((n ≡ x) × (m' ≡ m)) ⊎ (((n == x) ≡ false) × (o ≡ some m))
put-cases n x m' m o e = elim (Bool-cases (n == x)) [
  | inl here ↦
      let e' : some m' ≡ some m = subst (λ b. (if b then some m' else o) ≡ some m) here e in
      inl ((==_iff n x).0 here, ap (or_else m') e')
  | inr there ↦ inr (there, subst (λ b. (if b then some m' else o) ≡ some m) there e)
]

module _ (R : Roster) (h : Hart) (target : ℕ) (small : target < 32) where
  -- The recovery as far as mutex `n`.
  pub record IsRecovering (n : ℕ) (c : Core) : Type 0 where
    pub manned : IsManned R c
    pub gone : is_gone (slot c h target) ≡ true
    pub idle : NotWaiting target c
    pub freed : IsFreed target n c

  ready_waiter-mutexes : (c : Core) (j : Hart) (w : ℕ) → (ready_waiter c j w).mutexes ≡ c.mutexes
  ready_waiter-mutexes c j w = elim (Option-cases (slot c j w)) [
    | inl e ↦ rw (e, ready_waiter) refl
    | inr (t, e) ↦ rw (e, ready_waiter) refl
  ]

  set_state-other :
      (c : Core) (j : Hart) (w : ℕ) (t : TaskControlBlock) (st : TaskState)
      → (w == target) ≡ false
      → slot (set_state c j w t st) h target ≡ slot c h target
  set_state-other c j w t st other = go j h
    where
      go : (j h : Hart) → slot (set_state c j w t st) h target ≡ slot c h target
      go hart0 hart0 = rw other refl
      go hart0 hart1 = refl
      go hart1 hart0 = refl
      go hart1 hart1 = rw other refl

  ready_waiter-other :
      (c : Core) (j : Hart) (w : ℕ)
      → (w == target) ≡ false
      → slot (ready_waiter c j w) h target ≡ slot c h target
  ready_waiter-other c j w other = elim (Option-cases (slot c j w)) [
    | inl e ↦ rw (e, ready_waiter) refl
    | inr (t, e) ↦ rw (e, ready_waiter) (set_state-other c j w t ready other)
  ]

  other_waiter :
      (w bitmap : ℕ)
      → has_waiter bitmap w ≡ true
      → has_waiter bitmap target ≡ false
      → (w == target) ≡ false
  other_waiter w bitmap has out = elim (Bool-cases (w == target)) [
    | inl same ↦ absurd (cc (has, ap (has_waiter bitmap) ((==_iff w target).0 same), out))
    | inr other ↦ other
  ]

  same_owner :
      (n : ℕ) (c : Core) (m m' : KernelMutex)
      → c.mutexes n ≡ some m
      → c.mutexes n ≡ some m'
      → is_owner m.owner_task_idx (target % 256) ≡ false
      → is_owner m'.owner_task_idx (target % 256) ≡ false
  same_owner n c m m' e at other = ap (owned_by (target % 256)) (sym at ∙ e) ∙ other

  -- Mutex `n` is another's now, and the rest is as before.
  next :
      (n : ℕ) (m' : KernelMutex) (c c' : Core)
      → IsRecovering n c
      → IsManned R c'
      → slot c' h target ≡ slot c h target
      → c'.mutexes ≡ (λ i. if n == i then some m' else c.mutexes i)
      → is_owner m'.owner_task_idx (target % 256) ≡ false
      → has_waiter m'.waiters_bitmap target ≡ false
      → IsRecovering (n + 1) c'
  next n m' c c' r manned same e off out = record {
    manned = manned;
    gone = ap is_gone same ∙ r.gone;
    idle = λ x m at. elim (put-cases n x m' m (c.mutexes x) (sym (ap (λ f. f x) e) ∙ at)) [
      | inl (here, is_it) ↦ ap (λ k. has_waiter k.waiters_bitmap target) (sym is_it) ∙ out
      | inr (there, old) ↦ r.idle x m old
    ];
    freed = λ x m lt at. elim (put-cases n x m' m (c.mutexes x) (sym (ap (λ f. f x) e) ∙ at)) [
      | inl (here, is_it) ↦ ap (λ k. is_owner k.owner_task_idx (target % 256)) (sym is_it) ∙ off
      | inr (there, old) ↦ r.freed x m (ground (arith, lt, there)) old
    ];
  }

  -- Mutex `n` was another's before.
  passed :
      (n : ℕ) (c : Core)
      → ((m : KernelMutex)
          → c.mutexes n ≡ some m
          → is_owner m.owner_task_idx (target % 256) ≡ false)
      → IsRecovering n c
      → IsRecovering (n + 1) c
  passed n c free r = record {
    manned = r.manned;
    gone = r.gone;
    idle = r.idle;
    freed = λ x m lt at. elim (Bool-cases (n == x)) [
      | inl here ↦ free m (ap c.mutexes ((==_iff n x).0 here) ∙ at)
      | inr there ↦ r.freed x m (ground (arith, lt, there)) at
    ];
  }

  reassign-IsRecovering :
      (n : ℕ) (m : KernelMutex) (o : Option ℕ) (c : Core)
      → c.mutexes n ≡ some m
      → IsPlaced R m.waiters_bitmap o
      → IsRecovering n c
      → IsRecovering (n + 1) (reassign n m o c)
  unfolding reassign
  reassign-IsRecovering n m none c e p r =
      next n (record m { locked = false; owner_task_idx = none }) c _ r
        (reassign-IsManned R n m none c e p r.manned) refl refl refl (r.idle n m e)
  reassign-IsRecovering n m (some w) c e (lt, has, there) r =
      let other : (w == target) ≡ false = other_waiter w m.waiters_bitmap has (r.idle n m e) in
      let m' = record m {
        locked = true;
        owner_task_idx = some (w % 256);
        waiters_bitmap = remove_waiter m.waiters_bitmap w;
      } in
      next n m' c _ r (reassign-IsManned R n m (some w) c e (lt, has, there) r.manned)
        (ready_waiter-other (set_mutex c n m') (waiter_hart w) w other)
        (ready_waiter-mutexes (set_mutex c n m') (waiter_hart w) w)
        (ground (arith, other, lt, small))
        (rw (has-remove_waiter m.waiters_bitmap w target lt small) (rw other (r.idle n m e)))

  recover_mutex-IsRecovering :
      (n : ℕ) (c : Core)
      → IsRecovering n c
      → Makes (IsRecovering (n + 1)) (recover_mutex target n c)
  unfolding recover_mutex
  recover_mutex-IsRecovering n c r =
      make_option (c.mutexes n) (λ e. makes (passed n c (λ m at. absurd (cc (e, at))) r))
        (λ m e.
          make_if (is_owner m.owner_task_idx (target % 256))
            (λ own.
              make_bind (highest_waiter c m.waiters_bitmap)
                (highest_waiter-Makes R c n m e r.manned)
                (λ w p. makes (reassign-IsRecovering n m w c e p r)))
            (λ other. makes (passed n c (λ m' at. same_owner n c m m' e at other) r)))

  pub recover_from-IsRecovering :
      (rounds n : ℕ) (c : Core)
      → IsRecovering n c
      → Makes (IsRecovering (n + rounds)) (recover_from target rounds n c)
  unfolding recover_from
  recover_from-IsRecovering zero n c r = makes (subst (λ k. IsRecovering k c) (omega arith) r)
  recover_from-IsRecovering (suc rounds) n c r =
      make_bind (recover_mutex target n c) (recover_mutex-IsRecovering n c r) (λ c' r'.
        subst (λ k. Makes (IsRecovering k) (recover_from target rounds (n + 1) c')) (omega arith)
          (recover_from-IsRecovering rounds (n + 1) c' r'))
