-- ===== src/Boot/Restarts.antt =====
-- kernel/src/main.rs: the restarts in a round of the watchdog keep every task with its capabilities.
use cerberus_os.Base.{ℕ, ◌≡◌, refl, Bool-cases, ◌&&◌, ltb, Option-cases, some, inl, inr}
use cerberus_os.Scheduler.Tcb.{ready, TaskControlBlock, eq_terminated}
use cerberus_os.Trap.State.{Hart, hart0, hart1, Core, slot}
use cerberus_os.Trap.Roster.{IsManned, set_slot-IsManned}
use cerberus_os.Trap.Capabilities.{Roster}
use cerberus_os.Boot.Image.{Image}
use cerberus_os.Boot.Stack.{initialize_stack}
use cerberus_os.Boot.Tasks.{stack_size}
use cerberus_os.Boot.Watchdog.{restart, restart_task_c, restart_hsm}

module _ (R : Roster) where
  restart-IsManned :
      (h : Hart) (i stack entry : ℕ) (t : TaskControlBlock) (c : Core)
      → slot c h i ≡ some t
      → IsManned R c
      → IsManned R (restart h i stack entry t c)
  unfolding restart
  restart-IsManned h i stack entry t c e m =
      let n =
        set_slot-IsManned R c h i t
          (record t {
            saved_sp = (initialize_stack stack stack_size entry c.memory).0;
            state = ready;
          })
          e refl (λ run. absurd (cc run)) m in
      record { tables = n.tables; rights = n.rights; placed = n.placed }

  pub restart_task_c-IsManned :
      (img : Image) (n : ℕ) (c : Core) → IsManned R c → IsManned R ((restart_task_c img n c).1)
  unfolding restart_task_c
  restart_task_c-IsManned img n c m = elim (Option-cases (slot c hart1 3)) [
    | inl e ↦ rw (e, restart_task_c) m
    | inr (t, e) ↦
        rw (e, restart_task_c)
          (elim (Bool-cases (eq_terminated t.state && ltb n 2)) [
            | inl again ↦ rw again (restart-IsManned hart1 3 img.layout.c_stack img.task_c t c e m)
            | inr done' ↦ rw done' m
          ])
  ]

  pub restart_hsm-IsManned :
      (img : Image) (c : Core) → IsManned R c → IsManned R (restart_hsm img c)
  unfolding restart_hsm
  restart_hsm-IsManned img c m = elim (Option-cases (slot c hart0 4)) [
    | inl e ↦ rw (e, restart_hsm) m
    | inr (t, e) ↦
        rw (e, restart_hsm)
          (elim (Bool-cases (eq_terminated t.state)) [
            | inl dead ↦
                rw dead (restart-IsManned hart0 4 img.layout.hsm_stack img.hsm_task t c e m)
            | inr alive ↦ rw alive m
          ])
  ]
