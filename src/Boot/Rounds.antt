-- ===== src/Boot/Rounds.antt =====
-- kernel/src/main.rs: what a round of `watchdog_task` keeps, and what it sees to.
use cerberus_os.Base.{
  ℕ, ◌+◌, ◌%◌, ◌^◌, ◌<◌, ◌≤◌, ◌≡◌, ◌≢◌, refl, ◌∙◌, ap, ◌↔◌, Bool, true, false, ◌&&◌, Option,
  Option-cases, none, some, String, inl, inr, Bool-cases, arith, ltb,
}
use cerberus_os.Base.Outcome.{done, Settles, returns, settle_bind, settle_both}
use cerberus_os.Scheduler.Tcb.{ready, TaskControlBlock, eq_terminated}
use cerberus_os.Spinlock.Lock.{Spinlock, lock, unlock}
use cerberus_os.Spinlock.Lock as Lock
use cerberus_os.Spinlock.Calls.{lock-unlock}
use cerberus_os.Trap.State.{Hart, hart0, hart1, Core, Kernel, Env, slot}
use cerberus_os.Trap.Handler.{trap_handler}
use cerberus_os.Trap.Entry.{Regs, entered, saved, trap_entry, sys_terminate_task}
use cerberus_os.Trap.Locks.Traps.{LocksOpen, trap_handler-Settles}
use cerberus_os.Trap.Tables.{AllWellFormed, set_slot-AllWellFormed}
use cerberus_os.Trap.Partitions.Traps.{trap_handler-Sound}
use cerberus_os.Trap.Runs.{IsQuiet}
use cerberus_os.Boot.Image.{Image}
use cerberus_os.Boot.Stack.{initialize_stack}
use cerberus_os.Boot.Tasks.{stack_size}
use cerberus_os.Boot.Watchdog.{
  timed_out, check_tasks, restart, restart_task_c, restart_hsm, failed_prio, terminate_failed,
  round_body, watchdog_round,
}

-- A task that checked in at tick `last`, not 0, is timed out after `d` more ticks if and only if d is
-- above 200, also over the wrap-around of the tick count; a task that never did, if and only if the tick
-- count is above 1000.
pub timed_out_iff :
    (last d current : ℕ)
    → last ≢ 0
    → last < 2 ^ 32
    → d < 2 ^ 32
    → ((timed_out last ((last + d) % 2 ^ 32) ≡ true) ↔ (200 < d))
      × ((timed_out 0 current ≡ true) ↔ (1000 < current))
unfolding timed_out
timed_out_iff last d current ne lt lt' = (
  (λ e. ground (arith, e), λ h. ground (arith, h)),
  (λ e. ground (arith, e), λ h. ground (arith, h)),
)

abbrev is_terminated : Option TaskControlBlock → Bool
is_terminated none = false
is_terminated (some t) = eq_terminated t.state

restart-AllWellFormed :
    (h : Hart) (i stack entry : ℕ) (t : TaskControlBlock) (c : Core)
    → AllWellFormed c
    → AllWellFormed (restart h i stack entry t c)
unfolding restart
restart-AllWellFormed h i stack entry t c w =
    set_slot-AllWellFormed c h i
      (record t { saved_sp = (initialize_stack stack stack_size entry c.memory).0; state = ready })
      w (λ e. absurd (cc e))

-- The HSM task is there for the next request.
pub record IsServed (c : Core) : Type 0 where
  pub tables : AllWellFormed c
  pub hsm : is_terminated (slot c hart0 4) ≡ false

restart_hsm-IsServed : (img : Image) (c : Core) → AllWellFormed c → IsServed (restart_hsm img c)
unfolding restart_hsm restart
restart_hsm-IsServed img c w = elim (Option-cases (slot c hart0 4)) [
  | inl e ↦ rw (e, restart_hsm) (record { tables = w; hsm = ap is_terminated e })
  | inr (t, e) ↦
      rw (e, restart_hsm)
        (elim (Bool-cases (eq_terminated t.state)) [
          | inl dead ↦ rw dead (record {
            tables = restart-AllWellFormed hart0 4 img.layout.hsm_stack img.hsm_task t c w;
            hsm = refl;
          })
          | inr alive ↦ rw alive (record { tables = w; hsm = ap is_terminated e ∙ alive })
        ])
]

restart_task_c_lem :
    (img : Image) (n : ℕ) (c : Core)
    → n ≤ 2
    → AllWellFormed c
    → ((restart_task_c img n c).0 ≤ 2) × AllWellFormed ((restart_task_c img n c).1)
unfolding restart_task_c
restart_task_c_lem img n c le w = elim (Option-cases (slot c hart1 3)) [
  | inl e ↦ rw (e, restart_task_c) (le, w)
  | inr (t, e) ↦
      rw (e, restart_task_c)
        (elim (Bool-cases (eq_terminated t.state && ltb n 2)) [
          | inl again ↦ rw again (
            ground (arith, again),
            restart-AllWellFormed hart1 3 img.layout.c_stack img.task_c t c w,
          )
          | inr done' ↦ rw done' (le, w)
        ])
]

-- The watchdog's own call: the lock that it holds already lets it in.
terminate_failed-Sound :
    (env : Env) (r : Regs) (o : Option String) (k : Kernel)
    → LocksOpen env k
    → AllWellFormed k.core
    → Settles
        (λ k'.
          (k'.sched_lock ≡ k.sched_lock) × (k'.mutex_lock ≡ k.mutex_lock) × AllWellFormed k'.core)
        (terminate_failed env r o k)
unfolding terminate_failed trap_entry
terminate_failed-Sound env r none k opened w = returns (refl, refl, w)
terminate_failed-Sound env r (some name) k opened w =
    let r' = sys_terminate_task (failed_prio name) r in
    let env' = entered env r' in
    let k' = saved r' k in
    settle_bind (trap_handler env' k')
      (settle_both (trap_handler-Settles env' k' opened) (trap_handler-Sound env' k' opened w))
      (λ p h. returns (h.0.0, h.0.1, h.1))

-- Between rounds.
pub record IsRound (k : Kernel) (r : ℕ × Kernel) : Type 0 where
  pub sched_lock : (r.1).sched_lock ≡ k.sched_lock
  pub mutex_lock : (r.1).mutex_lock ≡ k.mutex_lock
  pub tables : AllWellFormed (r.1).core
  pub hsm : is_terminated (slot (r.1).core hart0 4) ≡ false
  pub tests : r.0 ≤ 2

-- A round takes the lock, and the calls of its hart still get in.
pub record IsInside (env : Env) (k : Kernel) : Type 0 where
  pub inner : Spinlock
  pub taken : lock 0 k.sched_lock ≡ done inner
  pub opened : LocksOpen env (record k { sched_lock = inner })
  pub back : unlock inner ≡ k.sched_lock

pub quiet-IsInside : (env : Env) (k : Kernel) → env.hart ≡ hart0 → IsQuiet k → IsInside env k
quiet-IsInside env k on q =
    let (l, e, owner, depth, back) = lock-unlock 0 k.sched_lock (inl (free q.sched_free)) in
    let levels = levels_of (depth ∙ ap suc_of (free q.sched_free).1) in
    record {
      inner = l;
      taken = e;
      opened = (rw on (inr (owner, levels.0, levels.1)), rw on (inl (free q.mutex_free)));
      back = back;
    }
  where
    free : {l : Spinlock} → l ≡ Lock.new → (l.owner ≡ 0) × (l.depth ≡ 0)
    free e = (ap (λ l. l.owner) e, ap (λ l. l.depth) e)

    suc_of : ℕ → ℕ
    suc_of d = d + 1

    levels_of : {d : ℕ} → d ≡ 1 → (0 < d) × (d + 1 < 2 ^ 32)
    levels_of e = (omega (arith, e), omega (arith, e))

module _ (img : Image) (env : Env) (r : Regs) (n : ℕ) (le : n ≤ 2) (on : env.hart ≡ hart0) where
  round_body-IsRound :
      (current : ℕ) (k : Kernel)
      → LocksOpen env k
      → AllWellFormed k.core
      → Settles (IsRound k) (round_body img env r current n k)
  unfolding round_body
  round_body-IsRound current k opened w =
      settle_bind (terminate_failed env r (check_tasks current k.core) k)
        (terminate_failed-Sound env r (check_tasks current k.core) k opened w)
        (λ k' h.
          let again = restart_task_c_lem img n k'.core le (h.2) in
          let served = restart_hsm-IsServed img ((restart_task_c img n k'.core).1) (again.1) in
          returns (record {
            sched_lock = h.0;
            mutex_lock = h.1;
            tables = served.tables;
            hsm = served.hsm;
            tests = again.0;
          }))

  -- A round of the watchdog on core 0, from a kernel with both locks free and both schedulers well
  -- formed, whatever has timed out: it does not wait, and it may panic only in its call of the kernel;
  -- if it returns, both locks are free again, both schedulers are well formed, the HSM task is not
  -- terminated, and Task C has been restarted at most twice if it was before.
  pub watchdog_round-IsRound :
      (k : Kernel) → IsQuiet k → Settles (IsRound k) (watchdog_round img env r n k)
  unfolding watchdog_round
  watchdog_round-IsRound k q =
      let i = quiet-IsInside env k on q in
      rw i.taken (
        settle_bind (round_body img env r k.core.tick_count n (record k { sched_lock = i.inner }))
          (round_body-IsRound k.core.tick_count (record k { sched_lock = i.inner }) i.opened
            q.tables)
          (λ p h. returns (record {
            sched_lock = ap unlock h.sched_lock ∙ i.back;
            mutex_lock = h.mutex_lock;
            tables = h.tables;
            hsm = h.hsm;
            tests = h.tests;
          })))
