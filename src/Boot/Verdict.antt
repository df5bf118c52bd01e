-- ===== src/Boot/Verdict.antt =====
-- kernel/src/main.rs: whom the watchdog blames.
use cerberus_os.Base.{
  ℕ, ◌≡◌, refl, Bool, true, false, not, ◌&&◌, Option, Option-cases, none, some, String, inl, inr,
  Bool-cases, if◌then◌else◌,
}
use cerberus_os.Scheduler.Tcb.{TaskControlBlock, eq_terminated}
use cerberus_os.Trap.State.{Hart, hart0, hart1, Core, slot}
use cerberus_os.Boot.Watchdog.{timed_out, check_task, check_tasks, failed_prio}

-- The tasks that are watched, with the names that boot registers them under.
pub data Watched : Hart → ℕ → String → Type 0 where
  watch_a : Watched hart0 1 "Task A"
  watch_b : Watched hart1 2 "Task B"
  watch_c : Watched hart1 3 "Task C"
  watch_hsm : Watched hart0 4 "HSM Task"

-- The slot holds a task that is not terminated and has timed out.
abbrev pub late_slot : ℕ → ℕ → Option TaskControlBlock → Bool
late_slot last current none = false
late_slot last current (some t) = not (eq_terminated t.state) && timed_out last current

abbrev pub is_late : ℕ → Core → Hart → ℕ → Bool
is_late current c h i = late_slot (c.last_checkin i) current (slot c h i)

-- What the four checks may answer.
pub data IsVerdict (current : ℕ) (c : Core) : Option String → Type 0 where
  all_well :
      ((h : Hart) (i : ℕ) (name : String) → Watched h i name → is_late current c h i ≡ false)
      → IsVerdict current c none
  blamed :
      {h : Hart} {i : ℕ} {name : String}
      → Watched h i name
      → is_late current c h i ≡ true
      → failed_prio name ≡ i
      → IsVerdict current c (some name)

-- The tasks stand in the slots and under the names of boot.
abbrev pub AreNamed : Core → Type 0
AreNamed c =
    (h : Hart) (i : ℕ) (name : String) (t : TaskControlBlock)
    → Watched h i name
    → slot c h i ≡ some t
    → t.name ≡ name

check_task_lem :
    (h : Hart) (i current : ℕ) (name : String) (c : Core) (failed : Option String)
    → ((t : TaskControlBlock) → slot c h i ≡ some t → t.name ≡ name)
    → check_task h i current c failed ≡ (if is_late current c h i then some name else failed)
unfolding check_task
check_task_lem h i current name c failed named = elim (Option-cases (slot c h i)) [
  | inl e ↦ rw (e, check_task) refl
  | inr (t, e) ↦
      rw (e, check_task)
        (elim (Bool-cases (eq_terminated t.state)) [
          | inl dead ↦ rw dead refl
          | inr alive ↦ rw alive (rw (named t e) refl)
        ])
]

module _ (current : ℕ) (c : Core) where
  four : IsVerdict current c (
      if is_late current c hart0 4
      then some "HSM Task"
      else if is_late current c hart1 3
      then some "Task C"
      else if is_late current c hart1 2
      then some "Task B"
      else if is_late current c hart0 1
      then some "Task A"
      else none)
  unfolding failed_prio
  four = elim (Bool-cases (is_late current c hart0 4)) [
    | inl e ↦ rw e (blamed watch_hsm e refl)
    | inr e4 ↦ rw e4 (elim (Bool-cases (is_late current c hart1 3)) [
      | inl e ↦ rw e (blamed watch_c e refl)
      | inr e3 ↦ rw e3 (elim (Bool-cases (is_late current c hart1 2)) [
        | inl e ↦ rw e (blamed watch_b e refl)
        | inr e2 ↦ rw e2 (elim (Bool-cases (is_late current c hart0 1)) [
          | inl e ↦ rw e (blamed watch_a e refl)
          | inr e1 ↦ rw e1 (all_well (well e1 e2 e3 e4))
        ])
      ])
    ])
  ]
    where
      well :
          is_late current c hart0 1 ≡ false
          → is_late current c hart1 2 ≡ false
          → is_late current c hart1 3 ≡ false
          → is_late current c hart0 4 ≡ false
          → (h : Hart) (i : ℕ) (name : String) → Watched h i name
          → is_late current c h i ≡ false
      well e1 e2 e3 e4 _ _ _ watch_a = e1
      well e1 e2 e3 e4 _ _ _ watch_b = e2
      well e1 e2 e3 e4 _ _ _ watch_c = e3
      well e1 e2 e3 e4 _ _ _ watch_hsm = e4

  -- The watchdog's checks, with the tasks in the slots and under the names of boot: they blame nobody
  -- only if no watched task is late, that is not terminated and timed out, and else a watched task
  -- that is late, whose slot is the priority that the name is turned into for its termination.
  pub check_tasks-IsVerdict : AreNamed c → IsVerdict current c (check_tasks current c)
  unfolding check_tasks
  check_tasks-IsVerdict named =
      rw (check_task_lem hart0 4 current "HSM Task" c _ (λ t. named hart0 4 "HSM Task" t watch_hsm))
        (rw (check_task_lem hart1 3 current "Task C" c _ (λ t. named hart1 3 "Task C" t watch_c)) (
          rw (check_task_lem hart1 2 current "Task B" c _ (λ t. named hart1 2 "Task B" t watch_b)) (
            rw
              (check_task_lem hart0 1 current "Task A" c none
                (λ t. named hart0 1 "Task A" t watch_a))
              four)))
