-- ===== src/Boot/Duty.antt =====
-- kernel/src/main.rs and kernel/src/trap.rs: the traps of a booted system return.
use cerberus_os.Base.{
  ℕ, ◌↔◌, ◌<◌, sym, subst, arith, ◌≤◌, ◌≡◌, Bool, true, Option, none, some, String, List,
}
use cerberus_os.Base.Outcome.{panicked, settle_done}
use cerberus_os.Base.Ending.{
  Makes, makes, Ends, ends, end_then, end_weaken, end_settle, end_never, make_both,
}
use cerberus_os.Trap.State.{hart0, Kernel, Env}
use cerberus_os.Trap.Handler.{trap_handler}
use cerberus_os.Trap.Handler.{ecall_cause}
use cerberus_os.Trap.Entry.{Regs, entered, saved, trap_entry, sys_terminate_task}
use cerberus_os.Trap.Calls.{terminate, wrapper, met, HasWords, trap_entry-wrapper}
use cerberus_os.Trap.Returns.Panics.{trap_handler-panicked_iff}
use cerberus_os.Trap.Returns.Recovery.{syscall_terminate-Ends}
use cerberus_os.Boot.Rounds.{IsRound, watchdog_round-IsRound, IsInside, quiet-IsInside}
use cerberus_os.Trap.Locks.Traps.{LocksOpen}
use cerberus_os.Trap.Roster.{IsManned}
use cerberus_os.Trap.Capabilities.{Roster}
use cerberus_os.Trap.Returns.{IsFair, Manned}
use cerberus_os.Trap.Returns.Traps.{MayPanic, trap_handler-Ends}
use cerberus_os.Trap.Runs.{Run, start, task, trap, IsQuiet, quiet-LocksOpen, Run-IsQuiet}
use cerberus_os.Boot.Image.{Image}
use cerberus_os.Boot.Cores.{Machine, Boots}
use cerberus_os.Boot.Safe.{Reset, power_on}
use cerberus_os.Boot.Crew.{boot_roster, boot_roster-IsFair}
use cerberus_os.Boot.Post.{booted-IsManned}
use cerberus_os.Boot.Launch.{booted-IsQuiet, all_launched}
use cerberus_os.Boot.Watchdog.{
  check_tasks, failed_prio, terminate_failed, round_body, watchdog_round,
}
use cerberus_os.Boot.Life.{Life, begin, traps, round, Life-IsQuiet}
use cerberus_os.Boot.Restarts.{restart_task_c-IsManned, restart_hsm-IsManned}

failed_prio-lt : (name : String) → failed_prio name < 32
unfolding failed_prio
failed_prio-lt name = ground arith

-- The wrapper keeps words in the registers.
wrapped : (prio : ℕ) (r : Regs) → prio < 32 → HasWords r → HasWords (wrapper (terminate prio) r)
unfolding sys_terminate_task
wrapped prio r lt words = record { regs = λ n. ground (arith, words.regs n); mepc = words.mepc }

-- What the call of the kernel ends in, for each priority.
abbrev CallEnds : Roster → Type 0 → Env → Regs → Kernel → Type 0
CallEnds R Reason env r k =
    (name : String)
    → Ends Reason (Manned R) (trap_entry env (sys_terminate_task (failed_prio name) r) k)

module _ (R : Roster) (fair : IsFair R) where
  Run-IsManned :
      {statics : ℕ → Bool} {k k' : Kernel}
      → Run statics k k'
      → IsQuiet k
      → IsManned R k.core
      → IsManned R k'.core
  Run-IsManned start q m = m
  Run-IsManned (task mem run apart) q m =
      let n = Run-IsManned run q m in
      record { tables = n.tables; rights = n.rights; placed = n.placed }
  Run-IsManned (trap {k' = k'} env sp run e apart) q m =
      settle_done
        (end_settle (
          trap_handler-Ends R fair env k' (quiet-LocksOpen env (Run-IsQuiet run q))
            (Run-IsManned run q m)))
        e

  module _ {Reason : Type 0} (img : Image) (env : Env) (r : Regs) where
    terminate_failed-Ends :
        (o : Option String) (k : Kernel)
        → CallEnds R Reason env r k
        → IsManned R k.core
        → Ends Reason (λ k'. IsManned R k'.core) (terminate_failed env r o k)
    unfolding terminate_failed
    terminate_failed-Ends none k called m = ends m
    terminate_failed-Ends (some name) k called m =
        end_then (trap_entry env (sys_terminate_task (failed_prio name) r) k) (called name)
          (λ x m'. makes m')

    round_body-Ends :
        (current n : ℕ) (k : Kernel)
        → CallEnds R Reason env r k
        → IsManned R k.core
        → Ends Reason (λ x. IsManned R (x.1).core) (round_body img env r current n k)
    unfolding round_body
    round_body-Ends current n k called m =
        end_then (terminate_failed env r (check_tasks current k.core) k)
          (terminate_failed-Ends (check_tasks current k.core) k called m)
          (λ k' m'.
            makes (restart_hsm-IsManned R img _ (restart_task_c-IsManned R img n k'.core m')))

    round-Ends :
        (n : ℕ) (k : Kernel) (inside : IsInside env k)
        → CallEnds R Reason env r (record k { sched_lock = inside.inner })
        → IsManned R k.core
        → Ends Reason (λ x. IsManned R (x.1).core) (watchdog_round img env r n k)
    unfolding watchdog_round
    round-Ends n k inside called m = rw inside.taken (
        end_then (round_body img env r k.core.tick_count n (record k { sched_lock = inside.inner }))
          (round_body-Ends k.core.tick_count n (record k { sched_lock = inside.inner }) called m)
          (λ x m'. makes m'))

  -- The call in a round, whatever the cause of its trap.
  any_call :
      (env : Env) (r : Regs) (k : Kernel)
      → LocksOpen env k
      → IsManned R k.core
      → CallEnds R Unit env r k
  unfolding trap_entry
  any_call env r k opened m name =
      let r' = sys_terminate_task (failed_prio name) r in
      end_weaken
        (trap_handler-Ends R fair (entered env r') (saved r' k) opened
          (record { tables = m.tables; rights = m.rights; placed = m.placed }))
        (λ why. tt) (λ x m'. m')

  -- The call in a round, which never panics.
  failed_call :
      (env : Env) (r : Regs) (k : Kernel)
      → env.mcause ≡ ecall_cause
      → HasWords r
      → LocksOpen env k
      → IsManned R k.core
      → CallEnds R ⊥ env r k
  failed_call env r k call words opened m name =
      let prio = failed_prio name in
      let met' = met env (sys_terminate_task prio r) k in
      let (same, passed) =
        trap_entry-wrapper (terminate prio) env r k call
          (wrapped prio r (failed_prio-lt name) words) in
      subst (Ends ⊥ (Manned R)) (sym same) (
        syscall_terminate-Ends R fair (entered env (sys_terminate_task prio r)) met' opened.0
          opened.1 (record { tables = m.tables; rights = m.rights; placed = m.placed }))

  -- A round of the watchdog on core 0, from a kernel with both locks free and the tasks of the roster
  -- in place, with its call of the kernel an `ecall` and words in all registers and in `mepc`: it returns. Then both
  -- locks are free again, both schedulers are well formed, the HSM task is not terminated, Task C has
  -- been restarted at most twice if it was before, and the tasks of the roster are in place.
  pub watchdog_round-Makes :
      (img : Image) (env : Env) (r : Regs) (n : ℕ) (k : Kernel)
      → n ≤ 2
      → env.hart ≡ hart0
      → env.mcause ≡ ecall_cause
      → HasWords r
      → IsQuiet k
      → IsManned R k.core
      → Makes (λ x. IsRound k x × IsManned R (x.1).core) (watchdog_round img env r n k)
  watchdog_round-Makes img env r n k le on call words q m =
      let inside = quiet-IsInside env k on q in
      make_both
        (end_never (
          round-Ends img env r n k inside
            (failed_call env r (record k { sched_lock = inside.inner }) call words inside.opened m)
            m))
        (watchdog_round-IsRound img env r n le on k q)

  Life-IsManned :
      {img : Image} {statics : ℕ → Bool} {n : ℕ} {k : Kernel} {n' : ℕ} {k' : Kernel}
      → Life img statics n k n' k'
      → n ≤ 2
      → IsQuiet k
      → IsManned R k.core
      → IsManned R k'.core
  Life-IsManned begin le q m = m
  Life-IsManned (traps life run) le q m =
      Run-IsManned run ((Life-IsQuiet life le q).1) (Life-IsManned life le q m)
  Life-IsManned {img = img} (round {n' = n'} {k' = k'} env r on life e apart) le q m =
      let m' = Life-IsManned life le q m in
      let inside = quiet-IsInside env k' on ((Life-IsQuiet life le q).1) in
      settle_done
        (end_settle (
          round-Ends img env r n' k' inside
            (any_call env r (record k' { sched_lock = inside.inner }) inside.opened m') m'))
        e

-- From reset, in any order of the two cores: once both run their first tasks, and after any traps,
-- writes of tasks to memory and rounds of the watchdog that follow and return, one after the other, where
-- no write to memory through a pointer, of a task or of the kernel, hits one of the kernel's statics,
-- and none of the next trap does: the next trap of either core never waits. It panics if and only if the kernel does not handle its cause, or the running task asks for
-- the release of a mutex that it does not own. Otherwise it returns, every task of the boot is in its
-- slot with its capabilities, and no other slot holds a task.
pub lived-Ends :
    (img : Image) (sha256 : List ℕ → List ℕ) (statics : ℕ → Bool) (reset : Reset) {b : Machine}
    {n : ℕ} {k : Kernel} (env : Env)
    → Boots img sha256 (power_on reset) b
    → all_launched b ≡ true
    → Life img statics 0 b.kernel n k
    → Ends (MayPanic env k.core) (Manned boot_roster) (trap_handler env k)
      × ((trap_handler env k ≡ panicked) ↔ MayPanic env k.core)
lived-Ends img sha256 statics reset {k = k} env boot up life =
    let q = booted-IsQuiet img sha256 reset boot up in
    let m = booted-IsManned img sha256 reset boot up in
    let le : 0 ≤ 2 = omega arith in
    trap_handler-panicked_iff boot_roster boot_roster-IsFair env k
      (quiet-LocksOpen env ((Life-IsQuiet life le q).1))
      (Life-IsManned boot_roster boot_roster-IsFair life le q m)
