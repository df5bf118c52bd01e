-- ===== src/Trap/Locks/Mutex.antt =====
-- kernel/src/trap.rs: the locks of the kernel in the bodies of system calls 3 and 4.
use cerberus_os.Base.{
  ℕ, zero, suc, ◌+◌, Bool, true, false, not, Option, none, some, refl, ltb, ◌∙◌, ◌%◌, if◌then◌else◌,
}
use cerberus_os.Base.Outcome.{
  done, Settles, returns, Anything, settle_bind, settle_unwrap, settle_assert, settle_if,
  settle_option, settle_then, settle_weaken,
}
use cerberus_os.Spinlock.Calls.{IsOpen}
use cerberus_os.Trap.State.{
  hart_id, Core, Kernel, KernelMutex, Env, Resumed, Hart, slot, running_idx, has_waiter,
  drop_mutex_lock,
}
use cerberus_os.Trap.Switch.{switch}
use cerberus_os.Trap.Mutex.{
  cap_at, running_cap, lock_right, unlock_right, deny, finish_lock, grant_mutex, wait_mutex,
  lock_mutex, lock_body, waiter_hart, waiter_prio, better_waiter, search_waiters, highest_waiter,
  hand_over, free_mutex, pass_on, unlock_mutex, unlock_body, is_owner, mutex_slot,
  is_blocked_on_mutex,
}
use cerberus_os.Trap.Locks.{Kept, Released, switch-Settles, take_mutex_lock-Settles}

pub running_cap-Settles : (h : Hart) (i : ℕ) (c : Core) → Settles Anything (running_cap h i c)
unfolding running_cap cap_at
running_cap-Settles h i c =
    settle_if (ltb i 8)
      (settle_unwrap (slot c h (running_idx h c)) (λ t. settle_unwrap _ (λ cap. returns tt)))
      (returns tt)

deny-Settles : (env : Env) (k : Kernel) → Settles (Released k) (deny env k)
unfolding deny drop_mutex_lock
deny-Settles env k = returns (refl, refl)

Kept-if :
    (k : Kernel) (sp : ℕ) (b : Bool) (j l : Kernel)
    → Kept k (sp, j)
    → Kept k (sp, l)
    → Kept k (sp, if b then j else l)
Kept-if k sp true j l h g = h
Kept-if k sp false j l h g = g

finish_lock-Settles : (env : Env) (i : ℕ) (r : Resumed) → Settles (Kept (r.1)) (finish_lock env i r)
unfolding finish_lock
finish_lock-Settles env i r =
    settle_unwrap (slot (r.1).core env.hart i) (λ t.
      returns (Kept-if (r.1) (r.0) (is_blocked_on_mutex t.state) _ _ (refl, refl) (refl, refl)))

grant_mutex-Settles :
    (env : Env) (i : ℕ) (m : KernelMutex) (k : Kernel)
    → Settles (Released k) (grant_mutex env i m k)
unfolding grant_mutex drop_mutex_lock
grant_mutex-Settles env i m k = finish_lock-Settles env _ (_, _)

wait_mutex-Settles :
    (env : Env) (i : ℕ) (m : KernelMutex) (k : Kernel) → Settles (Released k) (wait_mutex env i m k)
unfolding wait_mutex drop_mutex_lock
wait_mutex-Settles env i m k =
    settle_unwrap (slot k.core env.hart (running_idx env.hart k.core)) (λ t.
      settle_bind (switch env false _) (switch-Settles env false _) (λ r kept.
        settle_weaken (finish_lock-Settles env _ r)
          (λ r' kept'. (kept'.0 ∙ kept.0, kept'.1 ∙ kept.1))))

lock_mutex-Settles : (env : Env) (i : ℕ) (k : Kernel) → Settles (Released k) (lock_mutex env i k)
unfolding lock_mutex
lock_mutex-Settles env i k =
    settle_then (mutex_slot k.core i) (settle_assert (ltb i 8) (returns tt)) (λ o.
      settle_option o (deny-Settles env k) (λ m.
        settle_if (not m.locked) (grant_mutex-Settles env i m k) (wait_mutex-Settles env i m k)))

pub lock_body-Settles :
    (env : Env) (k : Kernel)
    → IsOpen (hart_id env.hart) k.mutex_lock
    → Settles (Kept k) (lock_body env k)
unfolding lock_body
lock_body-Settles env k o =
    take_mutex_lock-Settles env.hart (λ r. r.1) _ k o
      (λ l.
        let k' = record k { mutex_lock = l } in
        settle_then (running_cap env.hart _ k.core) (running_cap-Settles env.hart _ k.core) (λ cap.
          settle_option (lock_right cap) (deny-Settles env k') (λ i. lock_mutex-Settles env i k')))

waiter_prio-Settles : (c : Core) (w : ℕ) → Settles Anything (waiter_prio c w)
unfolding waiter_prio
waiter_prio-Settles c w = settle_unwrap (slot c (waiter_hart w) w) (λ t. returns tt)

better_waiter-Settles :
    (c : Core) (i : ℕ) (best : Option ℕ) → Settles Anything (better_waiter c i best)
unfolding better_waiter
better_waiter-Settles c i none = returns tt
better_waiter-Settles c i (some w) =
    settle_then (waiter_prio c w) (waiter_prio-Settles c w)
      (λ w_prio. settle_then (waiter_prio c i) (waiter_prio-Settles c i) (λ i_prio. returns tt))

search_waiters-Settles :
    (c : Core) (bitmap rounds i : ℕ) (best : Option ℕ)
    → Settles Anything (search_waiters c bitmap rounds i best)
unfolding search_waiters
search_waiters-Settles c bitmap zero i best = returns tt
search_waiters-Settles c bitmap (suc rounds) i best =
    settle_then (if has_waiter bitmap i then better_waiter c i best else done best)
      (settle_if (has_waiter bitmap i) (better_waiter-Settles c i best) (returns tt))
      (λ next. search_waiters-Settles c bitmap rounds (i + 1) next)

pub highest_waiter-Settles : (c : Core) (bitmap : ℕ) → Settles Anything (highest_waiter c bitmap)
unfolding highest_waiter
highest_waiter-Settles c bitmap = search_waiters-Settles c bitmap 32 0 none

pass_on-Settles :
    (env : Env) (i : ℕ) (m : KernelMutex) (k : Kernel) (w : Option ℕ)
    → Settles (λ k'. Released k (0, k')) (pass_on env i m k w)
unfolding pass_on free_mutex hand_over drop_mutex_lock
pass_on-Settles env i m k none = returns (refl, refl)
pass_on-Settles env i m k (some w) =
    settle_unwrap (slot k.core (waiter_hart w) w) (λ t. returns (refl, refl))

unlock_mutex-Settles :
    (env : Env) (i : ℕ) (k : Kernel) → Settles (Released k) (unlock_mutex env i k)
unfolding unlock_mutex
unlock_mutex-Settles env i k =
    settle_then (mutex_slot k.core i) (settle_assert (ltb i 8) (returns tt)) (λ o.
      settle_option o (deny-Settles env k) (λ m.
        settle_assert (is_owner m.owner_task_idx (running_idx env.hart k.core % 256)) (
          settle_then (highest_waiter k.core m.waiters_bitmap) (highest_waiter-Settles _ _) (λ w.
            settle_bind (pass_on env i m k w) (pass_on-Settles env i m k w) (λ k' freed.
              settle_bind (switch env false k') (switch-Settles env false k')
                (λ r kept. returns (kept.0 ∙ freed.0, kept.1 ∙ freed.1)))))))

pub unlock_body-Settles :
    (env : Env) (k : Kernel)
    → IsOpen (hart_id env.hart) k.mutex_lock
    → Settles (Kept k) (unlock_body env k)
unfolding unlock_body
unlock_body-Settles env k o =
    take_mutex_lock-Settles env.hart (λ r. r.1) _ k o
      (λ l.
        let k' = record k { mutex_lock = l } in
        settle_then (running_cap env.hart _ k.core) (running_cap-Settles env.hart _ k.core) (λ cap.
          settle_option (unlock_right cap) (deny-Settles env k')
            (λ i. unlock_mutex-Settles env i k')))
