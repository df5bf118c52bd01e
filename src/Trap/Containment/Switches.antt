-- ===== src/Trap/Containment/Switches.antt =====
-- kernel/src/trap.rs: a switch of tasks leaves a terminated task terminated, and the mutexes alone.
use cerberus_os.Base.{
  ℕ, ◌%◌, ◌<◌, ◌≡◌, refl, ◌∙◌, sym, ap, subst, ==_refl, Bool, Bool-cases, true, false, inl, inr,
  Option, Option-cases, none, some, ◌==◌, ==_iff, update, arith,
}
use cerberus_os.Base.Outcome.{Settles, returns, settle_bind, settle_then, settle_option}
use cerberus_os.Scheduler.Tcb.{TaskControlBlock, TaskTable}
use cerberus_os.Scheduler.Bitmap.{BitMapScheduler, demote, swap_partition, swapped_table, is_ready}
use cerberus_os.Scheduler.Select.{Selected, select_next-Selected}
use cerberus_os.Scheduler.Swap.{Selected-is_ready}
use cerberus_os.Scheduler.Ends.{Scheduled, kept, swapped, schedule-Scheduled}
use cerberus_os.Pmp.Driver.{reprogram_pmp_stack}
use cerberus_os.Trap.State.{
  Hart, hart0, hart1, set_hart, KernelMutex, Core, Kernel, Env, slot, running_idx, emit, task_swap,
}
use cerberus_os.Trap.Switch.{save_sp, guard_active, resume, switch_task, switch}
use cerberus_os.Trap.Locks.{reprogram_pmp_stack-Settles}
use cerberus_os.Trap.Containment.{is_gone}

gone-is_ready : (o : Option TaskControlBlock) → is_gone o ≡ true → is_ready o ≡ false
gone-is_ready none e = refl
gone-is_ready (some t) e = ground arith

put-gone :
    (table : TaskTable) (p i : ℕ) (o : Option TaskControlBlock)
    → is_gone o ≡ is_gone (table p)
    → is_gone (update table p o i) ≡ is_gone (table i)
put-gone table p i o e = elim (Bool-cases (p == i)) [
  | inl here ↦ rw here (e ∙ ap (λ k. is_gone (table k)) ((==_iff p i).0 here))
  | inr there ↦ rw there refl
]

demote-gone : (o : Option TaskControlBlock) → is_gone (demote o) ≡ is_gone o
demote-gone none = refl
demote-gone (some t) = ground arith

-- A swap takes a ready task, so a terminated one stays terminated.
swapped-gone :
    (s : BitMapScheduler) (next i : ℕ)
    → is_ready (s.task_table next) ≡ true
    → is_gone (s.task_table i) ≡ true
    → is_gone ((swap_partition s next).task_table i) ≡ true
unfolding swap_partition swapped_table
swapped-gone s next i r gone =
    let cur = s.current_partition_idx in
    let demoted = put-gone s.task_table cur i (demote (s.task_table cur)) (demote-gone _) in
    elim (Bool-cases (next == i)) [
      | inl here ↦
          let same = ap (λ k. is_ready (s.task_table k)) ((==_iff next i).0 here) in
          absurd (cc (r, same, gone-is_ready (s.task_table i) gone))
      | inr there ↦ rw there (demoted ∙ gone)
    ]

Scheduled-gone :
    (s : BitMapScheduler) (is_tick : Bool) (i : ℕ) {r : BitMapScheduler × Option (ℕ × ℕ)}
    → s.current_partition_idx < 32
    → Scheduled s is_tick r
    → is_gone (s.task_table i) ≡ true
    → is_gone ((r.0).task_table i) ≡ true
Scheduled-gone s is_tick i lt (kept ticks why) gone = gone
Scheduled-gone s is_tick i lt (swapped next e) gone =
    let chosen = select_next-Selected s.task_table s.current_partition_idx lt in
    swapped-gone s next i
      ((Selected-is_ready (subst (Selected s.task_table s.current_partition_idx) e chosen)).1) gone

pub set_hart-here :
    (f : Hart → BitMapScheduler) (h : Hart) (s : BitMapScheduler) → set_hart f h s h ≡ s
set_hart-here f hart0 s = refl
set_hart-here f hart1 s = refl

-- The task of the slot is terminated, and the mutexes are as given.
abbrev pub Left : Hart → ℕ → (ℕ → Option KernelMutex) → Core → Type 0
Left h i mutexes c = (is_gone (slot c h i) ≡ true) × (c.mutexes ≡ mutexes)

save_sp-Left :
    (h : Hart) (old sp i : ℕ) (c : Core)
    → is_gone (slot c h i) ≡ true
    → Left h i c.mutexes (save_sp c h old sp)
save_sp-Left h old sp i c gone = elim (Option-cases (slot c h old)) [
  | inl e ↦ rw (e, save_sp) (gone, refl)
  | inr (t, e) ↦
      rw (e, save_sp)
        (
          ap (λ s. is_gone (s.task_table i)) (set_hart-here c.scheds h _)
              ∙ put-gone (c.scheds h).task_table old i (some (record t { saved_sp = sp }))
                  (sym (ap is_gone e))
              ∙ gone,
          refl,
        )
]

guard_active-Left :
    (env : Env) (h : Hart) (i : ℕ) (c : Core)
    → is_gone (slot c h i) ≡ true
    → Settles (Left h i c.mutexes) (guard_active env c)
unfolding guard_active
guard_active-Left env h i c gone =
    settle_option (slot c env.hart (running_idx env.hart c)) (returns (gone, refl)) (λ t.
      settle_then (reprogram_pmp_stack env.layout t.name (c.pmp env.hart))
        (reprogram_pmp_stack-Settles env.layout t.name (c.pmp env.hart))
        (λ r. returns (gone, refl)))

resume-Left :
    (env : Env) (from old new_sp sp i : ℕ) (c : Core)
    → is_gone (slot c env.hart i) ≡ true
    → Settles (λ r. Left env.hart i c.mutexes (r.1)) (resume env from old new_sp sp c)
unfolding resume
resume-Left env from old new_sp sp i c gone =
    let traced = emit c (task_swap (from % 256) (running_idx env.hart c % 256) env.cycle) in
    let (gone', same) = save_sp-Left env.hart old sp i traced gone in
    let saved = save_sp traced env.hart old sp in
    settle_bind (guard_active env saved) (guard_active-Left env env.hart i saved gone')
      (λ c' (gone'', same'). returns (gone'', same' ∙ same))

switch_task-Left :
    (env : Env) (is_tick : Bool) (sp i : ℕ) (c : Core)
    → (c.scheds env.hart).current_partition_idx < 32
    → is_gone (slot c env.hart i) ≡ true
    → Settles (λ r. Left env.hart i c.mutexes (r.1)) (switch_task env is_tick sp c)
unfolding switch_task
switch_task-Left env is_tick sp i c lt gone =
    let (r, e, sched) = schedule-Scheduled (c.scheds env.hart) is_tick lt in
    let gone' =
      ap (λ s. is_gone (s.task_table i)) (set_hart-here c.scheds env.hart (r.0))
      ∙ Scheduled-gone (c.scheds env.hart) is_tick i lt sched gone in
    rw e (settle_option (r.1) (returns (gone', refl)) (λ x. resume-Left env _ _ _ _ i _ gone'))

-- A switch leaves a terminated task terminated, and the mutexes alone.
pub switch-Left :
    (env : Env) (is_tick : Bool) (i : ℕ) (k : Kernel)
    → (k.core.scheds env.hart).current_partition_idx < 32
    → is_gone (slot k.core env.hart i) ≡ true
    → Settles (λ r. Left env.hart i k.core.mutexes ((r.1).core)) (switch env is_tick k)
unfolding switch
switch-Left env is_tick i k lt gone =
    settle_bind (switch_task env is_tick env.user_sp k.core)
      (switch_task-Left env is_tick env.user_sp i k.core lt gone) (λ r left. returns left)

pub put_here :
    (table : TaskTable) (i : ℕ) (t : TaskControlBlock)
    → is_gone (update table i (some t) i) ≡ is_gone (some t)
put_here table i t = rw (==_refl i) refl
