-- ===== src/Boot/Safe.antt =====
-- kernel/src/main.rs: what holds of the two cores at each stage of a boot.
use cerberus_os.Base.{
  ℕ, ◌≡◌, refl, ◌∙◌, Bool, true, false, none, some, ◌==◌, if◌then◌else◌, ◌<◌, [],
}
use cerberus_os.Base.Ending.{Makes, makes}
use cerberus_os.Scheduler.Bitmap.{BitMapScheduler, is_ready}
use cerberus_os.Scheduler.Bitmap as Bitmap
use cerberus_os.Scheduler.Swap.{is_running}
use cerberus_os.Scheduler.Invariant.{IsWellFormed}
use cerberus_os.Spinlock.Lock as Lock
use cerberus_os.Pmp.Driver.{PmpRegs, configure_pmp}
use cerberus_os.Trap.Memory.{Memory}
use cerberus_os.Trap.State.{Hart, hart0, hart1, set_hart}
use cerberus_os.Boot.Image.{Image, init_memory_protection}
use cerberus_os.Boot.Cores.{Csrs, Stage, reset, armed, halted, launched, Machine, protect_core}

-- What a reset leaves to the hardware.
pub record Reset : Type 0 where
  pub memory : Memory
  pub csrs : Hart → Csrs
  pub msip : Hart → ℕ
  pub mtimecmp : Hart → ℕ
  pub pmp : Hart → PmpRegs

-- The statics as the image initializes them: only mutex 0 exists.
abbrev pub power_on : Reset → Machine
power_on r = record {
  kernel = record {
    core = record {
      scheds = λ _. Bitmap.new;
      mutexes = λ i.
          if i == 0
          then some (record { locked = false; owner_task_idx = none; waiters_bitmap = 0 })
          else none;
      tick_count = 0;
      last_checkin = λ _. 0;
      trap_latency = 0;
      pmp_violations = 0;
      memory = r.memory;
      msip = r.msip;
      mtimecmp = r.mtimecmp;
      pmp = r.pmp;
      trace = [];
    };
    sched_lock = Lock.new;
    mutex_lock = Lock.new;
  };
  csrs = r.csrs;
  stage = λ _. reset;
  metrics = record {
    can_parse_cycles = 0;
    can_queue_cycles = 0;
    frames_rx = 0;
    frames_dropped = 0;
  };
  boot_barrier = false;
  core_1_ready = false;
}

-- No task of the table runs, and one is ready.
pub record Startable (s : BitMapScheduler) : Type 0 where
  pub idle : (j : ℕ) → is_running (s.task_table j) ≡ false
  pub can_start : (j : ℕ) × (j < 32) × (is_ready (s.task_table j) ≡ true)

-- What holds at each stage of core 0, with `ok` the result of the boot check.
pub data Lead (ok released answered : Bool) (scheds : Hart → BitMapScheduler) : Stage → Type 0 where
  lead_reset :
      released ≡ false
      → ((h : Hart) (j : ℕ) → is_running ((scheds h).task_table j) ≡ false)
      → Lead ok released answered scheds reset
  lead_halted : released ≡ false → ok ≡ false → Lead ok released answered scheds halted
  lead_armed :
      released ≡ true
      → ok ≡ true
      → Startable (scheds hart0)
      → Lead ok released answered scheds armed
  lead_launched :
      {pc status sp : ℕ}
      → released ≡ true
      → answered ≡ true
      → ok ≡ true
      → IsWellFormed (scheds hart0)
      → Lead ok released answered scheds (launched pc status sp)

-- What holds at each stage of core 1.
pub data Follow (released answered : Bool) (s : BitMapScheduler) : Stage → Type 0 where
  follow_reset : (released ≡ true → Startable s) → Follow released answered s reset
  follow_armed : released ≡ true → answered ≡ true → Startable s → Follow released answered s armed
  follow_launched :
      {pc status sp : ℕ}
      → released ≡ true
      → answered ≡ true
      → IsWellFormed s
      → Follow released answered s (launched pc status sp)

pub record IsSafe (ok : Bool) (b : Machine) : Type 0 where
  pub sched_free : b.kernel.sched_lock ≡ Lock.new
  pub mutex_free : b.kernel.mutex_lock ≡ Lock.new
  pub lead : Lead ok b.boot_barrier b.core_1_ready b.kernel.core.scheds (b.stage hart0)
  pub follow : Follow b.boot_barrier b.core_1_ready (b.kernel.core.scheds hart1) (b.stage hart1)

pub power_on-IsSafe : (ok : Bool) (r : Reset) → IsSafe ok (power_on r)
power_on-IsSafe ok r = record {
  sched_free = refl;
  mutex_free = refl;
  lead = lead_reset refl (λ h j. refl);
  follow = follow_reset (λ e. cc e);
}

-- Core 1 is still at reset while core 0 is.
unreleased :
    {released answered : Bool} {s : BitMapScheduler} {st : Stage}
    → released ≡ false
    → Follow released answered s st
    → st ≡ reset
unreleased e (follow_reset w) = refl
unreleased e (follow_armed r a w) = absurd (cc (e, r))
unreleased e (follow_launched r a w) = absurd (cc (e, r))

-- What a core's protection leaves alone.
pub record IsProtected (b p : Machine) : Type 0 where
  pub sched_lock : p.kernel.sched_lock ≡ b.kernel.sched_lock
  pub mutex_lock : p.kernel.mutex_lock ≡ b.kernel.mutex_lock
  pub mutexes : p.kernel.core.mutexes ≡ b.kernel.core.mutexes
  pub scheds : p.kernel.core.scheds ≡ b.kernel.core.scheds
  pub stage : p.stage ≡ b.stage
  pub boot_barrier : p.boot_barrier ≡ b.boot_barrier
  pub core_1_ready : p.core_1_ready ≡ b.core_1_ready

pub protect_core-IsProtected :
    (img : Image) (h : Hart) (b : Machine) → Makes (IsProtected b) (protect_core img h b)
unfolding protect_core init_memory_protection configure_pmp
protect_core-IsProtected img h b = makes (record {
  sched_lock = refl;
  mutex_lock = refl;
  mutexes = refl;
  scheds = refl;
  stage = refl;
  boot_barrier = refl;
  core_1_ready = refl;
})

-- While core 0 is at reset, core 1 is, and no task runs.
pub at_reset :
    {ok released answered : Bool} {scheds : Hart → BitMapScheduler} {st0 st1 : Stage}
    → st0 ≡ reset
    → Lead ok released answered scheds st0
    → Follow released answered (scheds hart1) st1
    → (released ≡ false)
      × (st1 ≡ reset)
      × ((h : Hart) (j : ℕ) → is_running ((scheds h).task_table j) ≡ false)
at_reset e (lead_reset r idle) f = (r, unreleased r f, idle)
at_reset e (lead_halted r o) f = absurd (cc e)
at_reset e (lead_armed r o w) f = absurd (cc e)
at_reset e (lead_launched r a o w) f = absurd (cc e)

pub waiting :
    {released answered : Bool} {s : BitMapScheduler} {st : Stage}
    → st ≡ reset
    → released ≡ true
    → Follow released answered s st
    → Startable s
waiting e r (follow_reset w) = w r
waiting e r (follow_armed r' a w) = absurd (cc e)
waiting e r (follow_launched r' a w) = absurd (cc e)

pub halted-IsSafe :
    (b p : Machine)
    → b.stage hart0 ≡ reset
    → IsProtected b p
    → IsSafe false b
    → IsSafe false (record p { stage = set_hart p.stage hart0 halted })
halted-IsSafe b p at same safe =
    let (r, st1, idle) = at_reset at safe.lead safe.follow in
    record {
      sched_free = same.sched_lock ∙ safe.sched_free;
      mutex_free = same.mutex_lock ∙ safe.mutex_free;
      lead = lead_halted (same.boot_barrier ∙ r) refl;
      follow =
          rw same.stage (rw same.scheds (rw same.boot_barrier (rw same.core_1_ready safe.follow)));
    }
