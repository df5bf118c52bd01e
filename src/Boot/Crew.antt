-- ===== src/Boot/Crew.antt =====
-- kernel/src/main.rs: the tasks that a boot registers, with their capabilities.
use cerberus_os.Base.{
  ℕ, zero, suc, ◌<◌, ◌≡◌, refl, ◌∙◌, subst, Bool, Bool-cases, true, false, ◌&&◌, inl, inr, Option,
  none, some, List, [], ◌∷◌, length, get_elem?, ltb, ltb→lt, ◌==◌, ==_iff, update, arith,
}
use cerberus_os.Base.Outcome.{Settles, returns, halts, settle_bind, settle_weaken}
use cerberus_os.Scheduler.Tcb.{Capability, TaskControlBlock, TaskTable}
use cerberus_os.Scheduler.Bitmap.{BitMapScheduler, register_task}
use cerberus_os.Trap.State.{Hart, hart0, hart1, same_hart, set_hart, Core}
use cerberus_os.Trap.Mutex.{lock_right, unlock_right, waiter_hart}
use cerberus_os.Trap.Capabilities.{Roster, rights_of}
use cerberus_os.Trap.Returns.{Holds, IsFair}
use cerberus_os.Boot.Image.{Image}
use cerberus_os.Boot.Tasks.{
  first_task, no_caps, caps_a, caps_b, caps_c, caps_hsm, add_task, init_tasks,
}

abbrev pub nobody : Roster
nobody h i = none

-- A task more.
abbrev pub post : Roster → Hart → ℕ → List Capability → Roster
post R h i caps = set_hart R h (update (R h) i (some caps))

-- The tasks of `init_tasks`, with their cores, slots and capabilities.
abbrev pub boot_roster : Roster
boot_roster =
    post
      (post
        (post
          (post (post (post (post nobody hart0 0 no_caps) hart0 1 caps_a) hart0 4 caps_hsm) hart0 31
            no_caps)
          hart1 2 caps_b)
        hart1 3 caps_c)
      hart1 31 no_caps

-- The slots of both schedulers hold the tasks of the roster.
abbrev pub IsPosted : Roster → (Hart → BitMapScheduler) → Type 0
IsPosted R scheds = (h : Hart) (i : ℕ) → rights_of ((scheds h).task_table i) ≡ R h i

updated-rights :
    (table : TaskTable) (r : ℕ → Option (List Capability)) (p i : ℕ) (t : TaskControlBlock)
    → rights_of (table i) ≡ r i
    → rights_of (update table p (some t) i) ≡ update r p (some t.capabilities) i
updated-rights table r p i t e = elim (Bool-cases (p == i)) [
  | inl same ↦ rw same refl
  | inr other ↦ rw other e
]

add_task-IsPosted :
    (R : Roster) (h : Hart) (t : TaskControlBlock) (c : Core)
    → IsPosted R c.scheds
    → Settles
        (λ c'. IsPosted (post R h t.priority t.capabilities) c'.scheds × (c'.mutexes ≡ c.mutexes))
        (add_task h t c)
unfolding add_task register_task
add_task-IsPosted R h t c e = elim (Bool-cases (ltb t.priority 32)) [
  | inl small ↦ rw small (returns (placed h, refl))
  | inr large ↦ rw large halts
]
  where
    stored : TaskControlBlock
    stored = record t { active_priority = t.priority }

    put : Hart → Hart → BitMapScheduler
    put h = set_hart c.scheds h (record (c.scheds h) {
      task_table = update (c.scheds h).task_table t.priority (some stored);
    })

    placed :
        (h j : Hart) (i : ℕ)
        → rights_of ((put h j).task_table i) ≡ post R h t.priority t.capabilities j i
    placed hart0 hart0 i =
        updated-rights (c.scheds hart0).task_table (R hart0) t.priority i stored (e hart0 i)
    placed hart0 hart1 i = e hart1 i
    placed hart1 hart0 i = e hart0 i
    placed hart1 hart1 i =
        updated-rights (c.scheds hart1).task_table (R hart1) t.priority i stored (e hart1 i)

-- From empty tables, the registrations give the roster of the boot.
pub init_tasks-IsPosted :
    (img : Image) (c : Core)
    → IsPosted nobody c.scheds
    → Settles (λ c'. IsPosted boot_roster c'.scheds × (c'.mutexes ≡ c.mutexes)) (init_tasks img c)
unfolding init_tasks
init_tasks-IsPosted img c e =
    let a = add_task-IsPosted in
    settle_bind _ (a nobody hart0 (first_task _ 0 "Watchdog" no_caps) _ e) (λ c1 (p1, m1).
      settle_bind _ (a _ hart0 (first_task _ 1 "Task A" caps_a) c1 p1) (λ c2 (p2, m2).
        settle_bind _ (a _ hart0 (first_task _ 4 "HSM Task" caps_hsm) c2 p2) (λ c3 (p3, m3).
          settle_bind _ (a _ hart0 (first_task _ 31 "Idle 0" no_caps) c3 p3) (λ c4 (p4, m4).
            settle_bind _ (a _ hart1 (first_task _ 2 "Task B" caps_b) c4 p4) (λ c5 (p5, m5).
              settle_bind _ (a _ hart1 (first_task _ 3 "Task C" caps_c) c5 p5) (λ c6 (p6, m6).
                settle_weaken (a _ hart1 (first_task _ 31 "Idle 1" no_caps) c6 p6)
                  (λ c7 (p7, m7). (p7, m7 ∙ m6 ∙ m5 ∙ m4 ∙ m3 ∙ m2 ∙ m1))))))))

-- What makes a capability fit for the task of a slot.
abbrev can_unlock : Option ℕ → Bool
can_unlock none = true
can_unlock (some x) = ltb x 8

abbrev can_lock : Hart → ℕ → Option ℕ → Bool
can_lock h i none = true
can_lock h i (some x) = ltb x 8 && same_hart (waiter_hart i) h

abbrev fits : Hart → ℕ → Option Capability → Bool
fits h i o = can_unlock (unlock_right o) && can_lock h i (lock_right o)

abbrev all_fit : Hart → ℕ → List Capability → Bool
all_fit h i [] = true
all_fit h i (cap ∷ caps) = fits h i (some cap) && all_fit h i caps

abbrev Checked : Hart → ℕ → Option (List Capability) → Type 0
Checked h i none = Unit
Checked h i (some caps) = (length caps ≡ 8) × (all_fit h i caps ≡ true)

updated-Checked :
    (h : Hart) (r : ℕ → Option (List Capability)) (p : ℕ) (caps : List Capability) (i : ℕ)
    → Checked h p (some caps)
    → Checked h i (r i)
    → Checked h i (update r p (some caps) i)
updated-Checked h r p caps i new old = elim (Bool-cases (p == i)) [
  | inl same ↦ rw same (subst (λ j. Checked h j (some caps)) ((==_iff p i).0 same) new)
  | inr other ↦ rw other old
]

boot_roster-Checked : (h : Hart) (i : ℕ) → Checked h i (boot_roster h i)
boot_roster-Checked hart0 i =
    let r0 = update (nobody hart0) 0 (some no_caps) in
    let r1 = update r0 1 (some caps_a) in
    let r4 = update r1 4 (some caps_hsm) in
    updated-Checked hart0 r4 31 no_caps i (refl, refl)
      (updated-Checked hart0 r1 4 caps_hsm i (refl, refl)
        (updated-Checked hart0 r0 1 caps_a i (refl, refl)
          (updated-Checked hart0 (nobody hart0) 0 no_caps i (refl, refl) tt)))
boot_roster-Checked hart1 i =
    let r2 = update (nobody hart1) 2 (some caps_b) in
    let r3 = update r2 3 (some caps_c) in
    updated-Checked hart1 r3 31 no_caps i (refl, refl)
      (updated-Checked hart1 r2 3 caps_c i (refl, refl)
        (updated-Checked hart1 (nobody hart1) 2 caps_b i (refl, refl) tt))

in_bounds :
    (caps : List Capability) (j : ℕ)
    → j < length caps
    → (cap : Capability) × (get_elem? caps j ≡ some cap)
in_bounds [] j lt = absurd (omega arith)
in_bounds (cap ∷ caps) zero lt = (cap, refl)
in_bounds (cap ∷ caps) (suc j) lt = in_bounds caps j (omega arith)

both_true : (a b : Bool) → (a && b) ≡ true → (a ≡ true) × (b ≡ true)
both_true true b e = (refl, e)
both_true false b e = absurd (cc e)

fit_at :
    (h : Hart) (i : ℕ) (caps : List Capability) (j : ℕ) (cap : Capability)
    → all_fit h i caps ≡ true
    → get_elem? caps j ≡ some cap
    → fits h i (some cap) ≡ true
fit_at h i [] j cap e g = absurd (cc g)
fit_at h i (c ∷ caps) zero cap e g =
    subst (λ o. fits h i o ≡ true) g ((both_true (fits h i (some c)) (all_fit h i caps) e).0)
fit_at h i (c ∷ caps) (suc j) cap e g =
    fit_at h i caps j cap ((both_true (fits h i (some c)) (all_fit h i caps) e).1) g

same-hart : (h j : Hart) → same_hart h j ≡ true → h ≡ j
same-hart hart0 hart0 e = refl
same-hart hart0 hart1 e = absurd (cc e)
same-hart hart1 hart0 e = absurd (cc e)
same-hart hart1 hart1 e = refl

-- What a task of the roster holds.
held_fits :
    (h : Hart) (i : ℕ) (cap : Capability)
    → Holds boot_roster h i cap
    → (can_unlock (unlock_right (some cap)) ≡ true) × (can_lock h i (lock_right (some cap)) ≡ true)
held_fits h i cap (caps, j, lt, r, g) =
    let checked : Checked h i (some caps) = subst (Checked h i) r (boot_roster-Checked h i) in
    both_true _ _ (fit_at h i caps j cap (checked.1) g)

-- The tasks that the kernel boots with are fit for its mutexes.
pub boot_roster-IsFair : IsFair boot_roster
boot_roster-IsFair = record {
  eight = λ h i j caps e lt.
      let checked : Checked h i (some caps) = subst (Checked h i) e (boot_roster-Checked h i) in
      in_bounds caps j (omega (arith, checked.0));
  lockable = λ h i x cap held e.
      let parts =
        both_true (ltb x 8) _ (subst (λ o. can_lock h i o ≡ true) e ((held_fits h i cap held).1)) in
      (ltb→lt x 8 (parts.0), same-hart (waiter_hart i) h (parts.1));
  unlockable = λ h i x cap held e.
      ltb→lt x 8 (subst (λ o. can_unlock o ≡ true) e ((held_fits h i cap held).0));
}
