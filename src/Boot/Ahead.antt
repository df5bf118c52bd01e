-- ===== src/Boot/Ahead.antt =====
-- kernel/src/main.rs: each step of a boot keeps the machine safe and brings a core one stage further.
use cerberus_os.Base.{
  ℕ, ◌≡◌, refl, ◌∙◌, ap, subst, Bool, true, inl, inr, Bool-cases, arith, List, ◌<◌, String, ◌+◌,
}
use cerberus_os.Base.Outcome.{Outcome, Anything, settle_done}
use cerberus_os.Base.Ending.{Makes, makes, make_bind, make_settle, make_of}
use cerberus_os.Scheduler.Bitmap.{BitMapScheduler}
use cerberus_os.Scheduler.Tcb.{TaskControlBlock}
use cerberus_os.Scheduler.Invariant.{IsWellFormed}
use cerberus_os.Pmp.Driver.{PmpRegs, reprogram_pmp_stack}
use cerberus_os.Security.Bootloader.{verify_secure_boot}
use cerberus_os.Trap.State.{Hart, hart0, hart1, set_hart}
use cerberus_os.Trap.Interrupts.{reprogram_pmp_stack-Completes}
use cerberus_os.Boot.Image.{Image}
use cerberus_os.Boot.Start.{
  start_first_task, IsStarted, nobody, started, start_first_task-IsStarted,
}
use cerberus_os.Boot.Tasks.{init_tasks, init_tasks-IsBootable}
use cerberus_os.Boot.Cores.{
  Stage, reset, armed, Machine, Clock, protect_core, init_timer, boot_core_0, boot_core_1, launch,
  Step, boots_0, boots_1, starts_0, starts_1, Boots, power, step,
}
use cerberus_os.Boot.Safe.{
  Reset, power_on, Startable, Lead, lead_reset, lead_halted, lead_armed, lead_launched, Follow,
  follow_reset, follow_armed, follow_launched, IsSafe, power_on-IsSafe, protect_core-IsProtected,
  at_reset, waiting, halted-IsSafe,
}

-- The stages that a core has ahead of it.
abbrev rank : Stage → ℕ
rank reset = 2
rank armed = 1
rank _ = 0

abbrev pub stages_left : Machine → ℕ
stages_left b = rank (b.stage hart0) + rank (b.stage hart1)

-- A safe machine that is one stage nearer to its end.
pub record IsAhead (ok : Bool) (b b' : Machine) : Type 0 where
  pub safe : IsSafe ok b'
  pub nearer : stages_left b' < stages_left b

from_started :
    (s : BitMapScheduler) (o : Outcome (BitMapScheduler × TaskControlBlock))
    → IsStarted s o
    → Startable s
    → Makes (λ r. IsWellFormed (r.0)) o
from_started s o (nobody h) w = let (j, lt, r) = w.can_start in absurd (cc (h j lt, r))
from_started s o (started low r e now others at left v) w = makes v

answer :
    {ok released answered : Bool} {scheds : Hart → BitMapScheduler} {st : Stage}
    → Lead ok released answered scheds st
    → Lead ok released true scheds st
answer (lead_reset r idle) = lead_reset r idle
answer (lead_halted r o) = lead_halted r o
answer (lead_armed r o w) = lead_armed r o w
answer (lead_launched r a o w) = lead_launched r refl o w

start-Makes :
    (s : BitMapScheduler) → Startable s → Makes (λ r. IsWellFormed (r.0)) (start_first_task s)
start-Makes s w = from_started s _ (start_first_task-IsStarted s w.idle) w

ready_0 :
    {ok released answered : Bool} {scheds : Hart → BitMapScheduler} {st : Stage}
    → Lead ok released answered scheds st
    → st ≡ armed
    → (released ≡ true) × (ok ≡ true) × Startable (scheds hart0)
ready_0 (lead_reset r idle) e = absurd (cc e)
ready_0 (lead_halted r o) e = absurd (cc e)
ready_0 (lead_armed r o w) e = (r, o, w)
ready_0 (lead_launched r a o w) e = absurd (cc e)

ready_1 :
    {released answered : Bool} {s : BitMapScheduler} {st : Stage}
    → Follow released answered s st
    → st ≡ armed
    → (released ≡ true) × (answered ≡ true) × Startable s
ready_1 (follow_reset w) e = absurd (cc e)
ready_1 (follow_armed r a w) e = (r, a, w)
ready_1 (follow_launched r a w) e = absurd (cc e)

-- Core 1 acts on its own table only, once it is released.
moved :
    {ok released answered : Bool} {scheds : Hart → BitMapScheduler} {st : Stage}
    (s : BitMapScheduler)
    → released ≡ true
    → Lead ok released answered scheds st
    → Lead ok released answered (set_hart scheds hart1 s) st
moved s e (lead_reset r idle) = absurd (cc (e, r))
moved s e (lead_halted r o) = absurd (cc (e, r))
moved s e (lead_armed r o w) = lead_armed r o w
moved s e (lead_launched r a o w) = lead_launched r a o w

module _ (img : Image) (sha256 : List ℕ → List ℕ) where
  pub boot_core_0-IsAhead :
      (k : Clock) (b : Machine)
      → b.stage hart0 ≡ reset
      → IsSafe (verify_secure_boot sha256) b
      → Makes (IsAhead (verify_secure_boot sha256) b) (boot_core_0 img sha256 k b)
  unfolding boot_core_0 init_timer
  boot_core_0-IsAhead k b at safe =
      let (r, st1, idle) = at_reset at safe.lead safe.follow in
      make_bind (protect_core img hart0 b) (protect_core-IsProtected img hart0 b) (λ p same.
        elim (Bool-cases (verify_secure_boot sha256)) [
          | inl ok ↦ rw ok (
              make_bind (init_tasks img p.kernel.core)
                (init_tasks-IsBootable img p.kernel.core (rw same.scheds idle))
                (λ c boot. makes (record {
                  safe = record {
                    sched_free = same.sched_lock ∙ safe.sched_free;
                    mutex_free = same.mutex_lock ∙ safe.mutex_free;
                    lead =
                        lead_armed refl refl
                          (record { idle = boot.idle hart0; can_start = boot.can_start hart0 });
                    follow = rw same.stage (
                        rw st1 (
                          follow_reset (λ e. record {
                            idle = boot.idle hart1;
                            can_start = boot.can_start hart1;
                          })));
                  };
                  nearer = rw same.stage (omega (arith, ap rank at));
                })))
          | inr bad ↦ rw bad (
              makes (record {
                safe = halted-IsSafe b p at same (subst (λ o. IsSafe o b) bad safe);
                nearer = rw same.stage (omega (arith, ap rank at));
              }))
        ])

  pub boot_core_1-IsAhead :
      (k : Clock) (b : Machine)
      → b.stage hart1 ≡ reset
      → b.boot_barrier ≡ true
      → IsSafe (verify_secure_boot sha256) b
      → Makes (IsAhead (verify_secure_boot sha256) b) (boot_core_1 img k b)
  unfolding boot_core_1 init_timer
  boot_core_1-IsAhead k b at released safe =
      make_bind (protect_core img hart1 b) (protect_core-IsProtected img hart1 b) (λ p same.
        makes (record {
          safe = record {
            sched_free = same.sched_lock ∙ safe.sched_free;
            mutex_free = same.mutex_lock ∙ safe.mutex_free;
            lead = rw same.stage (rw same.scheds (rw same.boot_barrier (answer safe.lead)));
            follow =
                follow_armed (same.boot_barrier ∙ released) refl
                  (rw same.scheds (waiting at released safe.follow));
          };
          nearer = rw same.stage (omega (arith, ap rank at));
        }))

  reprogram_pmp_stack-Makes :
      (name : String) (r : PmpRegs) → Makes Anything (reprogram_pmp_stack img.layout name r)
  reprogram_pmp_stack-Makes name r = make_of _ (reprogram_pmp_stack-Completes img.layout name r)

  pub launch_0-IsAhead :
      (ok : Bool) (b : Machine)
      → b.stage hart0 ≡ armed
      → b.core_1_ready ≡ true
      → IsSafe ok b
      → Makes (IsAhead ok b) (launch img hart0 b)
  unfolding launch
  launch_0-IsAhead ok b at answered safe =
      let (r, o, w) = ready_0 safe.lead at in
      make_bind (start_first_task (b.kernel.core.scheds hart0)) (start-Makes _ w) (λ st v.
        make_bind (reprogram_pmp_stack img.layout (st.1).name (b.kernel.core.pmp hart0))
          (reprogram_pmp_stack-Makes (st.1).name (b.kernel.core.pmp hart0))
          (λ pmp _. makes (record {
            safe = record {
              sched_free = safe.sched_free;
              mutex_free = safe.mutex_free;
              lead = lead_launched r answered o v;
              follow = safe.follow;
            };
            nearer = omega (arith, ap rank at);
          })))

  pub launch_1-IsAhead :
      (ok : Bool) (b : Machine)
      → b.stage hart1 ≡ armed
      → IsSafe ok b
      → Makes (IsAhead ok b) (launch img hart1 b)
  unfolding launch
  launch_1-IsAhead ok b at safe =
      let (r, a, w) = ready_1 safe.follow at in
      make_bind (start_first_task (b.kernel.core.scheds hart1)) (start-Makes _ w) (λ st v.
        make_bind (reprogram_pmp_stack img.layout (st.1).name (b.kernel.core.pmp hart1))
          (reprogram_pmp_stack-Makes (st.1).name (b.kernel.core.pmp hart1))
          (λ pmp _. makes (record {
            safe = record {
              sched_free = safe.sched_free;
              mutex_free = safe.mutex_free;
              lead = moved st.0 r safe.lead;
              follow = follow_launched r a v;
            };
            nearer = omega (arith, ap rank at);
          })))

  pub Step-IsAhead :
      {b b' : Machine}
      → Step img sha256 b b'
      → IsSafe (verify_secure_boot sha256) b
      → IsAhead (verify_secure_boot sha256) b b'
  Step-IsAhead {b = b} (boots_0 k at e) safe =
      settle_done (make_settle (boot_core_0-IsAhead k b at safe)) e
  Step-IsAhead {b = b} (boots_1 k at r e) safe =
      settle_done (make_settle (boot_core_1-IsAhead k b at r safe)) e
  Step-IsAhead {b = b} (starts_0 at r e) safe =
      settle_done (make_settle (launch_0-IsAhead _ b at r safe)) e
  Step-IsAhead {b = b} (starts_1 at e) safe =
      settle_done (make_settle (launch_1-IsAhead _ b at safe)) e

  pub Boots-IsSafe :
      {b b' : Machine}
      → Boots img sha256 b b'
      → IsSafe (verify_secure_boot sha256) b
      → IsSafe (verify_secure_boot sha256) b'
  Boots-IsSafe power safe = safe
  Boots-IsSafe (step run s) safe = (Step-IsAhead s (Boots-IsSafe run safe)).safe

  pub reached-IsSafe :
      (r : Reset) {b : Machine}
      → Boots img sha256 (power_on r) b
      → IsSafe (verify_secure_boot sha256) b
  reached-IsSafe r run = Boots-IsSafe run (power_on-IsSafe _ r)
