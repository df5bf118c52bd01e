-- ===== src/Trap/Runs.antt =====
-- kernel/src/trap.rs: traps of both cores one after the other.
use cerberus_os.Base.{ℕ, Bool, true, ◌≡◌, inl, ap, ◌∙◌}
use cerberus_os.Base.Outcome.{done, settle_done}
use cerberus_os.Spinlock.Lock.{Spinlock}
use cerberus_os.Spinlock.Lock as Lock
use cerberus_os.Spinlock.Calls.{IsOpen}
use cerberus_os.Trap.Memory.{Memory}
use cerberus_os.Trap.State.{hart_id, Core, Kernel, Env}
use cerberus_os.Trap.Handler.{trap_handler}
use cerberus_os.Trap.Locks.Traps.{LocksOpen, trap_handler-Settles}
use cerberus_os.Trap.Tables.{AllWellFormed}
use cerberus_os.Trap.Partitions.Traps.{trap_handler-Sound}

-- The statics of the kernel are fields of the model and not bytes of its memory. `statics` says which
-- addresses are theirs: a core that spares them has the same bytes there as before, and only then do
-- its fields still say what the statics hold. This is an assumption on the tasks: PMP entry 3 of
-- kernel/src/main.rs gives them all of the SRAM.
abbrev pub Spares : (ℕ → Bool) → Core → Core → Type 0
Spares statics c c' = (a : ℕ) → statics a ≡ true → c'.memory a ≡ c.memory a

-- The kernels after traps that return, of either core and of any cause, and writes of tasks to memory,
-- none of them to the statics.
pub data Run (statics : ℕ → Bool) (k : Kernel) : Kernel → Type 0 where
  start : Run statics k k
  -- Tasks write to memory.
  task :
      {k' : Kernel} (m : Memory)
      → Run statics k k'
      → Spares statics k'.core (record (k'.core) { memory = m })
      → Run statics k (record k' { core = record (k'.core) { memory = m } })
  trap :
      {k' k'' : Kernel} (env : Env) (sp : ℕ)
      → Run statics k k'
      → trap_handler env k' ≡ done (sp, k'')
      → Spares statics k'.core k''.core
      → Run statics k k''

-- Between traps: both locks are free, and both schedulers are well formed.
pub record IsQuiet (k : Kernel) : Type 0 where
  pub sched_free : k.sched_lock ≡ Lock.new
  pub mutex_free : k.mutex_lock ≡ Lock.new
  pub tables : AllWellFormed k.core

new-IsOpen : (hart : ℕ) {l : Spinlock} → l ≡ Lock.new → IsOpen hart l
new-IsOpen hart e = inl (ap (λ l. l.owner) e, ap (λ l. l.depth) e)

pub quiet-LocksOpen : (env : Env) {k : Kernel} → IsQuiet k → LocksOpen env k
quiet-LocksOpen env q =
    (new-IsOpen (hart_id env.hart) q.sched_free, new-IsOpen (hart_id env.hart) q.mutex_free)

-- Traps of either core and of any cause, one after the other, with writes of tasks to memory in between,
-- none of them to the statics of the kernel, from a kernel with both locks free and both schedulers well formed: as long as the traps
-- return, both locks are free again after each, and both schedulers well formed.
pub Run-IsQuiet : {statics : ℕ → Bool} {k k' : Kernel} → Run statics k k' → IsQuiet k → IsQuiet k'
Run-IsQuiet start q = q
Run-IsQuiet (task m run apart) q =
    let before = Run-IsQuiet run q in
    record {
      sched_free = before.sched_free;
      mutex_free = before.mutex_free;
      tables = before.tables;
    }
Run-IsQuiet (trap {k' = k'} {k'' = k''} env sp run e apart) q =
    let before = Run-IsQuiet run q in
    let locks = settle_done (trap_handler-Settles env k' (quiet-LocksOpen env before)) e in
    let tables =
      settle_done (trap_handler-Sound env k' (quiet-LocksOpen env before) before.tables) e in
    record {
      sched_free = locks.0 ∙ before.sched_free;
      mutex_free = locks.1 ∙ before.mutex_free;
      tables = tables;
    }
