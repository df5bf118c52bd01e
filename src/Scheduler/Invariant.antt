-- ===== src/Scheduler/Invariant.antt =====
-- The invariant of a core's scheduler (scheduler/src/bitmap.rs), and what a call of `schedule` hands
-- to the trap handler.
use cerberus_os.Base.{ℕ, ◌<◌, ◌≡◌, Bool, true, Option, some, subst}
use cerberus_os.Base.Outcome.{done}
use cerberus_os.Scheduler.Tcb.{TaskControlBlock}
use cerberus_os.Scheduler.Bitmap.{BitMapScheduler, select_next, swap_partition, schedule}
use cerberus_os.Scheduler.Select.{Selected, select_next-Selected}
use cerberus_os.Scheduler.Ends.{Result, Scheduled, kept, swapped, schedule-Scheduled}
use cerberus_os.Scheduler.Swap.{
  is_running, ready-some, Selected-is_ready, swapped-running, swapped-occupied,
}

-- The current slot is in range and filled, and no other slot is running.
pub record IsWellFormed (s : BitMapScheduler) : Type 0 where
  pub in_range : s.current_partition_idx < 32
  pub occupied : (t : TaskControlBlock) × (s.task_table s.current_partition_idx ≡ some t)
  pub sole : (i : ℕ) → is_running (s.task_table i) ≡ true → i ≡ s.current_partition_idx

swap-IsWellFormed :
    (s : BitMapScheduler) {next : ℕ}
    → IsWellFormed s
    → Selected s.task_table s.current_partition_idx (some next)
    → IsWellFormed (swap_partition s next)
unfolding swap_partition
swap-IsWellFormed s {next} w sel =
    let (lt, r) = Selected-is_ready sel in
    let (t, e, _) = ready-some (s.task_table next) r in
    record {
      in_range = lt;
      occupied = swapped-occupied s.task_table s.current_partition_idx next e;
      sole = λ i run. swapped-running s.task_table s.current_partition_idx next i (w.sole i) run;
    }

-- The partition chosen is as pass 1 and pass 2 promise.
pub chosen :
    (s : BitMapScheduler) {o : Option ℕ}
    → IsWellFormed s
    → select_next s.task_table s.current_partition_idx ≡ o
    → Selected s.task_table s.current_partition_idx o
chosen s w e =
    subst (Selected s.task_table s.current_partition_idx) e
      (select_next-Selected s.task_table s.current_partition_idx w.in_range)

pub Scheduled-IsWellFormed :
    (s : BitMapScheduler) (is_tick : Bool) {r : Result}
    → IsWellFormed s
    → Scheduled s is_tick r
    → IsWellFormed r.0
Scheduled-IsWellFormed s is_tick w (kept ticks why) = record {
  in_range = w.in_range;
  occupied = w.occupied;
  sole = w.sole;
}
Scheduled-IsWellFormed s is_tick w (swapped next e) = swap-IsWellFormed s w (chosen s w e)

-- On a well-formed scheduler `schedule` does not panic, and it leaves the scheduler well formed:
-- the current slot is in range and filled, and no other slot is running.
pub schedule-IsWellFormed :
    (s : BitMapScheduler) (is_tick : Bool)
    → IsWellFormed s
    → (r : Result) × (schedule s is_tick ≡ done r) × IsWellFormed r.0
schedule-IsWellFormed s is_tick w =
    let (r, e, sched) = schedule-Scheduled s is_tick w.in_range in
    (r, e, Scheduled-IsWellFormed s is_tick w sched)
