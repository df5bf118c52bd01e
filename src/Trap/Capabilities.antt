-- ===== src/Trap/Capabilities.antt =====
-- kernel/src/trap.rs: the capabilities of a slot are the same after each kind of write to the table.
use cerberus_os.Base.{
  ℕ, ◌≡◌, refl, ◌∙◌, sym, ap, Bool, true, false, Bool-cases, inl, inr, Option, none, some, List,
  update, ◌==◌, ==_iff, if◌then◌else◌, arith,
}
use cerberus_os.Scheduler.Tcb.{
  Capability, TaskState, ready, running, blocked, blocked_on_mutex, blocked_on_ipc_send,
  blocked_on_ipc_recv, terminated, TaskControlBlock, TaskTable,
}
use cerberus_os.Scheduler.Bitmap.{BitMapScheduler, demote, promote, swap_partition, swapped_table}
use cerberus_os.Scheduler.Ends.{Scheduled, kept, swapped}
use cerberus_os.Trap.State.{Hart, hart0, hart1, set_hart}
use cerberus_os.Trap.Switch.{wake, wake_slot}

-- The capabilities in each slot; `none` where there is no task.
abbrev pub Roster : Type 0
Roster = Hart → ℕ → Option (List Capability)

abbrev pub rights_of : Option TaskControlBlock → Option (List Capability)
rights_of none = none
rights_of (some t) = some t.capabilities

abbrev pub is_some {ℓ} : {A : Type ℓ} → Option A → Bool
is_some none = false
is_some (some a) = true

pub updated-rights :
    (table : TaskTable) (i j : ℕ) (t t' : TaskControlBlock)
    → table i ≡ some t
    → t'.capabilities ≡ t.capabilities
    → rights_of (update table i (some t') j) ≡ rights_of (table j)
updated-rights table i j t t' e same = elim (Bool-cases (i == j)) [
  | inl here ↦
      rw here
        (ap some same ∙ sym (ap rights_of e) ∙ ap (λ k. rights_of (table k)) ((==_iff i j).0 here))
  | inr there ↦ rw there refl
]

pub demoted-rights : (o : Option TaskControlBlock) → rights_of (demote o) ≡ rights_of o
demoted-rights none = refl
demoted-rights (some t) = ground arith

pub promoted-rights : (o : Option TaskControlBlock) → rights_of (promote o) ≡ rights_of o
promoted-rights none = refl
promoted-rights (some t) = refl

pub put-rights :
    (table : TaskTable) (i j : ℕ) (o : Option TaskControlBlock)
    → rights_of o ≡ rights_of (table i)
    → rights_of (update table i o j) ≡ rights_of (table j)
put-rights table i j o e = elim (Bool-cases (i == j)) [
  | inl here ↦ rw here (e ∙ ap (λ k. rights_of (table k)) ((==_iff i j).0 here))
  | inr there ↦ rw there refl
]

pub Scheduled-rights :
    (s : BitMapScheduler) (is_tick : Bool) {r : BitMapScheduler × Option (ℕ × ℕ)}
    → Scheduled s is_tick r
    → (i : ℕ) → rights_of ((r.0).task_table i) ≡ rights_of (s.task_table i)
unfolding swap_partition swapped_table
Scheduled-rights s is_tick (kept ticks why) i = refl
Scheduled-rights s is_tick (swapped next e) i =
    let cur = s.current_partition_idx in
    let done' = update s.task_table cur (demote (s.task_table cur)) in
    put-rights done' next i (promote (done' next)) (promoted-rights (done' next))
    ∙ put-rights s.task_table cur i (demote (s.task_table cur)) (demoted-rights (s.task_table cur))

-- The writes of a trap to the tables, seen through one core's table.
pub set_hart-rights :
    (f : Hart → BitMapScheduler) (h j : Hart) (s : BitMapScheduler)
    → ((i : ℕ) → rights_of (s.task_table i) ≡ rights_of ((f h).task_table i))
    → (i : ℕ) → rights_of ((set_hart f h s j).task_table i) ≡ rights_of ((f j).task_table i)
set_hart-rights f hart0 hart0 s e i = e i
set_hart-rights f hart0 hart1 s e i = refl
set_hart-rights f hart1 hart0 s e i = refl
set_hart-rights f hart1 hart1 s e i = e i

pub wake-rights :
    (tick : ℕ) (t : TaskControlBlock) (st : TaskState)
    → (wake tick t st).capabilities ≡ t.capabilities
wake-rights tick t ready = refl
wake-rights tick t running = refl
wake-rights tick t (blocked wake_tick) = ground arith
wake-rights tick t (blocked_on_mutex i) = refl
wake-rights tick t (blocked_on_ipc_send i a n) = refl
wake-rights tick t (blocked_on_ipc_recv i a n) = refl
wake-rights tick t terminated = refl

pub woken-rights :
    (tick : ℕ) (b : Bool) (o : Option TaskControlBlock)
    → rights_of (if b then wake_slot tick o else o) ≡ rights_of o
woken-rights tick true none = refl
woken-rights tick true (some t) = ap some (wake-rights tick t t.state)
woken-rights tick false o = refl
