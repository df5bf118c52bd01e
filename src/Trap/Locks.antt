-- ===== src/Trap/Locks.antt =====
-- kernel/src/trap.rs and kernel/src/kernel/spinlock.rs: how a trap takes and gives back the two locks
-- of the kernel.
pub mod Mutex
pub mod Traps
use cerberus_os.Base.{
  ltb, ◌%◌, String, List, [], ◌∷◌, ℕ, suc, zero, ◌+◌, Option, ◌≡◌, refl, ◌≢◌, ap, ◌∙◌, subst, Bool,
  some, none,
}
use cerberus_os.Base.Outcome.{
  Outcome, done, spinning, ◌>>=◌, Settles, returns, halts, Anything, settle_bind, settle_unwrap,
  settle_assert, settle_if, settle_option, settle_weaken, settle_then,
}
use cerberus_os.Scheduler.Bitmap.{max_partitions, schedule}
use cerberus_os.Pmp.Driver.{
  guards, Layout, PmpRegs, Guard, configure_pmp, guard_stack, guard_stacks, reprogram_pmp_stack,
}
use cerberus_os.Spinlock.Lock.{Spinlock, lock, unlock}
use cerberus_os.Spinlock.Calls.{IsOpen, lock-unlock}
use cerberus_os.Trap.State.{
  Hart, hart_id, Core, Kernel, Env, Resumed, emit, task_swap, slot, running_idx, take_mutex_lock,
  drop_mutex_lock, with_sched_lock,
}
use cerberus_os.Trap.Switch.{save_sp, guard_active, resume, switch_task, switch}

-- The locks after are the locks before.
abbrev pub Kept : Kernel → Resumed → Type 0
Kept k (sp, k') = (k'.sched_lock ≡ k.sched_lock) × (k'.mutex_lock ≡ k.mutex_lock)

-- The mutex lock is given back, once.
abbrev pub Released : Kernel → Resumed → Type 0
Released k (sp, k') = (k'.sched_lock ≡ k.sched_lock) × (k'.mutex_lock ≡ unlock k.mutex_lock)

guard_stacks-Settles :
    (active : String) (gs : List Guard) (r : PmpRegs) → Settles Anything (guard_stacks active gs r)
unfolding guard_stacks guard_stack configure_pmp
guard_stacks-Settles active [] r = returns tt
guard_stacks-Settles active (g ∷ gs) r =
    settle_then (guard_stack active g r)
      (settle_if _ (settle_assert _ (returns (tt {0}))) (settle_assert _ (returns (tt {0}))))
      (λ r'. guard_stacks-Settles active gs r')

pub reprogram_pmp_stack-Settles :
    (l : Layout) (active : String) (r : PmpRegs) → Settles Anything (reprogram_pmp_stack l active r)
unfolding reprogram_pmp_stack
reprogram_pmp_stack-Settles l active r = guard_stacks-Settles active (guards l) r

guard_active-Settles : (env : Env) (c : Core) → Settles Anything (guard_active env c)
unfolding guard_active
guard_active-Settles env c =
    settle_option (slot c env.hart (running_idx env.hart c)) (returns tt) (λ t.
      settle_then (reprogram_pmp_stack env.layout t.name (c.pmp env.hart))
        (reprogram_pmp_stack-Settles env.layout t.name (c.pmp env.hart)) (λ r. returns tt))

resume-Settles :
    (env : Env) (from old new_sp sp : ℕ) (c : Core)
    → Settles Anything (resume env from old new_sp sp c)
unfolding resume
resume-Settles env from old new_sp sp c =
    let traced = emit c (task_swap (from % 256) (running_idx env.hart c % 256) env.cycle) in
    let saved = save_sp traced env.hart old sp in
    settle_then (guard_active env saved) (guard_active-Settles env saved) (λ c'. returns tt)

switch_task-Settles :
    (env : Env) (is_tick : Bool) (sp : ℕ) (c : Core)
    → Settles Anything (switch_task env is_tick sp c)
unfolding switch_task schedule
switch_task-Settles env is_tick sp c =
    settle_then (schedule (c.scheds env.hart) is_tick)
      (settle_assert (ltb (c.scheds env.hart).current_partition_idx max_partitions) (returns tt))
      (λ r. settle_option (r.1) (returns tt) (λ x. resume-Settles env _ _ _ _ _))

pub switch-Settles :
    (env : Env) (is_tick : Bool) (k : Kernel) → Settles (Kept k) (switch env is_tick k)
unfolding switch
switch-Settles env is_tick k =
    settle_then (switch_task env is_tick env.user_sp k.core)
      (switch_task-Settles env is_tick env.user_sp k.core) (λ r. returns (refl, refl))

pub with_sched_lock-Settles :
    (h : Hart) (body : Kernel → Outcome Resumed) (k : Kernel)
    → IsOpen (hart_id h) k.sched_lock
    → ((l : Spinlock)
        → Settles (Kept (record k { sched_lock = l })) (body (record k { sched_lock = l })))
    → Settles (Kept k) (with_sched_lock h body k)
unfolding with_sched_lock
with_sched_lock-Settles h body k o g =
    let opened = lock-unlock (hart_id h) k.sched_lock o in
    rw opened.1 (
      settle_bind (body (record k { sched_lock = opened.0 })) (g opened.0)
        (λ r kept. returns (ap unlock kept.0 ∙ opened.4, kept.1)))

pub take_mutex_lock-Settles {ℓ} :
    {A : Type ℓ} (h : Hart) (state : A → Kernel) (rest : Kernel → Outcome A) (k : Kernel)
    → IsOpen (hart_id h) k.mutex_lock
    → ((l : Spinlock)
        → Settles
            (λ a. Released (record k { mutex_lock = l }) (0, state a))
            (rest (record k { mutex_lock = l })))
    → Settles (λ a. Kept k (0, state a)) (take_mutex_lock h k >>= rest)
unfolding take_mutex_lock
take_mutex_lock-Settles h state rest k o g =
    let opened = lock-unlock (hart_id h) k.mutex_lock o in
    rw opened.1 (settle_weaken (g opened.0) (λ a kept. (kept.0, kept.1 ∙ opened.4)))
