-- ===== src/Boot/Post.antt =====
-- kernel/src/main.rs: the tasks of the boot stand in the tables once both cores run.
use cerberus_os.Base.{
  ℕ, ◌≡◌, refl, ◌∙◌, sym, ap, subst, Bool, Bool-cases, true, false, ◌&&◌, inl, inr, Option,
  Option-cases, none, some, List, ◌==◌,
}
use cerberus_os.Base.Outcome.{
  Settles, returns, halts, settle_bind, settle_then, settle_if, settle_done,
}
use cerberus_os.Base.Ending.{make_settle}
use cerberus_os.Scheduler.Tcb.{running}
use cerberus_os.Scheduler.Bitmap.{BitMapScheduler, max_partitions}
use cerberus_os.Pmp.Driver.{reprogram_pmp_stack}
use cerberus_os.Security.Bootloader.{verify_secure_boot}
use cerberus_os.Trap.State.{Hart, hart0, hart1, set_hart, KernelMutex, Core}
use cerberus_os.Trap.Bitmaps.{has-nobody}
use cerberus_os.Trap.Roster.{IsManned}
use cerberus_os.Trap.Capabilities.{rights_of, put-rights, set_hart-rights}
use cerberus_os.Trap.Locks.{reprogram_pmp_stack-Settles}
use cerberus_os.Boot.Image.{Image}
use cerberus_os.Boot.Start.{first_ready, start_first_task}
use cerberus_os.Boot.Tasks.{init_tasks}
use cerberus_os.Boot.Crew.{nobody, boot_roster, IsPosted, init_tasks-IsPosted}
use cerberus_os.Boot.Cores.{
  Stage, reset, armed, halted, launched, is_launched, Machine, Clock, protect_core, init_timer,
  boot_core_0, boot_core_1, launch, Step, boots_0, boots_1, starts_0, starts_1, Boots, power, step,
}
use cerberus_os.Boot.Safe.{Reset, power_on, protect_core-IsProtected}
use cerberus_os.Boot.Launch.{booted-IsQuiet, all_launched}

-- The tables, by the stage of core 0.
abbrev Crewed : Stage → (Hart → BitMapScheduler) → Type 0
Crewed reset scheds = IsPosted nobody scheds
Crewed halted scheds = Unit
Crewed armed scheds = IsPosted boot_roster scheds
Crewed (launched pc status sp) scheds = IsPosted boot_roster scheds

-- No task waits for a mutex.
abbrev pub NoWaiters : Core → Type 0
NoWaiters c = (i : ℕ) (m : KernelMutex) → c.mutexes i ≡ some m → m.waiters_bitmap ≡ 0

record IsStaffed (b : Machine) : Type 0 where
  crew : Crewed (b.stage hart0) b.kernel.core.scheds
  free : NoWaiters b.kernel.core

power_on-IsStaffed : (r : Reset) → IsStaffed (power_on r)
power_on-IsStaffed r = record { crew = λ h i. refl; free = λ i m e. sym (ap bits e) ∙ empty i }
  where
    bits : Option KernelMutex → ℕ
    bits none = 0
    bits (some m) = m.waiters_bitmap

    empty : (i : ℕ) → bits ((power_on r).kernel.core.mutexes i) ≡ 0
    empty i = elim (Bool-cases (i == 0)) [ inl e ↦ rw e refl | inr e ↦ rw e refl ]

recrewed :
    (st : Stage) (f g : Hart → BitMapScheduler)
    → ((h : Hart) (i : ℕ) → rights_of ((g h).task_table i) ≡ rights_of ((f h).task_table i))
    → Crewed st f
    → Crewed st g
recrewed reset f g e w = λ h i. e h i ∙ w h i
recrewed halted f g e w = tt
recrewed armed f g e w = λ h i. e h i ∙ w h i
recrewed (launched pc status sp) f g e w = λ h i. e h i ∙ w h i

start_first_task-rights :
    (s : BitMapScheduler)
    → Settles
        (λ r. (i : ℕ) → rights_of ((r.0).task_table i) ≡ rights_of (s.task_table i))
        (start_first_task s)
unfolding start_first_task
start_first_task-rights s = elim (Option-cases (first_ready s.task_table max_partitions 0)) [
  | inl e ↦ rw (e, start_first_task) halts
  | inr (f, e) ↦
      rw (e, start_first_task)
        (elim (Option-cases (s.task_table f)) [
          | inl e' ↦ rw e' halts
          | inr (t, e') ↦ rw e' (
              returns (λ i.
                put-rights s.task_table f i (some (record t { state = running }))
                  (sym (ap rights_of e'))))
        ])
]

module _ (img : Image) (sha256 : List ℕ → List ℕ) where
  boot_core_0-IsStaffed :
      (k : Clock) (b : Machine)
      → b.stage hart0 ≡ reset
      → IsStaffed b
      → Settles IsStaffed (boot_core_0 img sha256 k b)
  unfolding boot_core_0 init_timer
  boot_core_0-IsStaffed k b at w =
      settle_bind (protect_core img hart0 b) (make_settle (protect_core-IsProtected img hart0 b))
        (λ p same.
          let empty : IsPosted nobody p.kernel.core.scheds = λ h i.
            ap (λ s. rights_of ((s h).task_table i)) same.scheds
            ∙ subst (λ st. Crewed st b.kernel.core.scheds) at w.crew h i in
          let free : NoWaiters p.kernel.core =
            λ i m e. w.free i m (ap (λ f. f i) (sym same.mutexes) ∙ e) in
          settle_if (verify_secure_boot sha256)
            (settle_bind (init_tasks img p.kernel.core)
              (init_tasks-IsPosted img p.kernel.core empty)
              (λ c (posted, mutexes). returns (record {
                crew = posted;
                free = λ i m e. free i m (ap (λ f. f i) (sym mutexes) ∙ e);
              })))
            (returns (record { crew = tt; free = free })))

  boot_core_1-IsStaffed :
      (k : Clock) (b : Machine) → IsStaffed b → Settles IsStaffed (boot_core_1 img k b)
  unfolding boot_core_1 init_timer
  boot_core_1-IsStaffed k b w =
      settle_bind (protect_core img hart1 b) (make_settle (protect_core-IsProtected img hart1 b))
        (λ p same. returns (record {
          crew =
              subst (λ st. Crewed (st hart0) p.kernel.core.scheds) (sym same.stage)
                (recrewed (b.stage hart0) b.kernel.core.scheds p.kernel.core.scheds
                  (λ h i. ap (λ s. rights_of ((s h).task_table i)) same.scheds) w.crew);
          free = λ i m e. w.free i m (ap (λ f. f i) (sym same.mutexes) ∙ e);
        }))

  launch_0-IsStaffed :
      (b : Machine) → b.stage hart0 ≡ armed → IsStaffed b → Settles IsStaffed (launch img hart0 b)
  unfolding launch
  launch_0-IsStaffed b at w =
      let c = b.kernel.core in
      settle_bind (start_first_task (c.scheds hart0)) (start_first_task-rights (c.scheds hart0))
        (λ (s, t) e.
          settle_then (reprogram_pmp_stack img.layout t.name (c.pmp hart0))
            (reprogram_pmp_stack-Settles img.layout t.name (c.pmp hart0))
            (λ r. returns (record {
              crew =
                  recrewed armed c.scheds (set_hart c.scheds hart0 s)
                    (λ j i. set_hart-rights c.scheds hart0 j s e i)
                    (subst (λ st. Crewed st c.scheds) at w.crew);
              free = w.free;
            })))

  launch_1-IsStaffed : (b : Machine) → IsStaffed b → Settles IsStaffed (launch img hart1 b)
  unfolding launch
  launch_1-IsStaffed b w =
      let c = b.kernel.core in
      settle_bind (start_first_task (c.scheds hart1)) (start_first_task-rights (c.scheds hart1))
        (λ (s, t) e.
          settle_then (reprogram_pmp_stack img.layout t.name (c.pmp hart1))
            (reprogram_pmp_stack-Settles img.layout t.name (c.pmp hart1))
            (λ r. returns (record {
              crew =
                  recrewed (b.stage hart0) c.scheds (set_hart c.scheds hart1 s)
                    (λ j i. set_hart-rights c.scheds hart1 j s e i) w.crew;
              free = w.free;
            })))

  Step-IsStaffed : {b b' : Machine} → Step img sha256 b b' → IsStaffed b → IsStaffed b'
  Step-IsStaffed {b = b} (boots_0 k at e) w = settle_done (boot_core_0-IsStaffed k b at w) e
  Step-IsStaffed {b = b} (boots_1 k at up e) w = settle_done (boot_core_1-IsStaffed k b w) e
  Step-IsStaffed {b = b} (starts_0 at up e) w = settle_done (launch_0-IsStaffed b at w) e
  Step-IsStaffed {b = b} (starts_1 at e) w = settle_done (launch_1-IsStaffed b w) e

  Boots-IsStaffed : {b b' : Machine} → Boots img sha256 b b' → IsStaffed b → IsStaffed b'
  Boots-IsStaffed power w = w
  Boots-IsStaffed (step run s) w = Step-IsStaffed s (Boots-IsStaffed run w)

  running-IsPosted :
      (st : Stage) (f : Hart → BitMapScheduler)
      → is_launched st ≡ true
      → Crewed st f
      → IsPosted boot_roster f
  running-IsPosted reset f e w = absurd (cc e)
  running-IsPosted halted f e w = absurd (cc e)
  running-IsPosted armed f e w = absurd (cc e)
  running-IsPosted (launched pc status sp) f e w = w

  pub booted-NoWaiters :
      (r : Reset) {b : Machine} → Boots img sha256 (power_on r) b → NoWaiters b.kernel.core
  booted-NoWaiters r boot = (Boots-IsStaffed boot (power_on-IsStaffed r)).free

  -- Once both cores run their first tasks, the slots hold the tasks of the boot.
  pub booted-IsManned :
      (r : Reset) {b : Machine}
      → Boots img sha256 (power_on r) b
      → all_launched b ≡ true
      → IsManned boot_roster b.kernel.core
  booted-IsManned r {b = b} boot up =
      let w = Boots-IsStaffed boot (power_on-IsStaffed r) in
      let q = booted-IsQuiet img sha256 r boot up in
      record {
        tables = q.tables;
        rights = running-IsPosted (b.stage hart0) b.kernel.core.scheds (first _ _ up) w.crew;
        placed = λ i v m e lt has. absurd (cc (has, w.free i m e, has-nobody v lt));
      }
    where
      first : (x y : Bool) → (x && y) ≡ true → x ≡ true
      first true y e = refl
      first false y e = absurd (cc e)
