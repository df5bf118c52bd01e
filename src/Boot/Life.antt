-- ===== src/Boot/Life.antt =====
-- kernel/src/main.rs and kernel/src/trap.rs: a system from reset on, with its traps and the rounds of its
-- watchdog. A round is one step, as if no tick came before it gives its lock back.
use cerberus_os.Base.{ℕ, ◌≤◌, ◌≡◌, ◌∙◌, Bool, true, List, arith}
use cerberus_os.Base.Outcome.{done, settle_done}
use cerberus_os.Trap.State.{hart0, Kernel, Env}
use cerberus_os.Trap.Entry.{Regs}
use cerberus_os.Trap.Runs.{Run, Spares, IsQuiet, Run-IsQuiet}
use cerberus_os.Boot.Image.{Image}
use cerberus_os.Boot.Cores.{Machine, Boots}
use cerberus_os.Boot.Safe.{Reset, power_on}
use cerberus_os.Boot.Launch.{booted-IsQuiet, all_launched}
use cerberus_os.Boot.Watchdog.{watchdog_round}
use cerberus_os.Boot.Rounds.{watchdog_round-IsRound}

-- The counter of restarts of Task C, and the kernel, after traps, writes of tasks, and rounds.
pub data Life (img : Image) (statics : ℕ → Bool) (n : ℕ) (k : Kernel) : ℕ → Kernel → Type 0 where
  begin : Life img statics n k n k
  traps :
      {n' : ℕ} {k' k'' : Kernel}
      → Life img statics n k n' k'
      → Run statics k' k''
      → Life img statics n k n' k''
  round :
      {n' n'' : ℕ} {k' k'' : Kernel} (env : Env) (r : Regs)
      → env.hart ≡ hart0
      → Life img statics n k n' k'
      → watchdog_round img env r n' k' ≡ done (n'', k'')
      → Spares statics k'.core k''.core
      → Life img statics n k n'' k''

pub Life-IsQuiet :
    {img : Image} {statics : ℕ → Bool} {n : ℕ} {k : Kernel} {n' : ℕ} {k' : Kernel}
    → Life img statics n k n' k'
    → n ≤ 2
    → IsQuiet k
    → (n' ≤ 2) × IsQuiet k'
Life-IsQuiet begin le q = (le, q)
Life-IsQuiet (traps life run) le q =
    let (le', q') = Life-IsQuiet life le q in (le', Run-IsQuiet run q')
Life-IsQuiet {img = img} (round {n' = n'} {k' = k'} env r on life e apart) le q =
    let (le', q') = Life-IsQuiet life le q in
    let h = settle_done (watchdog_round-IsRound img env r n' le' on k' q') e in
    (
      h.tests,
      record {
        sched_free = h.sched_lock ∙ q'.sched_free;
        mutex_free = h.mutex_lock ∙ q'.mutex_free;
        tables = h.tables;
      },
    )

-- From reset, in any order of the two cores: once both run their first tasks, and after any traps,
-- writes of tasks to memory and rounds of the watchdog that follow and return, one after the other, where
-- no write to memory through a pointer, of a task or of the kernel, hits one of the kernel's statics:
-- both locks are free, both schedulers are well formed, and the watchdog has restarted Task C
-- at most twice.
pub lived-IsQuiet :
    (img : Image) (sha256 : List ℕ → List ℕ) (statics : ℕ → Bool) (r : Reset) {b : Machine} {n : ℕ}
    {k : Kernel}
    → Boots img sha256 (power_on r) b
    → all_launched b ≡ true
    → Life img statics 0 b.kernel n k
    → (n ≤ 2) × IsQuiet k
lived-IsQuiet img sha256 statics r boot up life =
    Life-IsQuiet life (omega arith) (booted-IsQuiet img sha256 r boot up)
