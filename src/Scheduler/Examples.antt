-- ===== src/Scheduler/Examples.antt =====
-- Tests of the scheduler (the unit tests of scheduler/src/bitmap.rs among them), and each theorem at
-- a concrete scheduler.
use cerberus_os.Base.{ℕ, ◌+◌, ◌≡◌, refl, inl, true, none, some, arith, update, replicate}
use cerberus_os.Base.Outcome.{done, panicked}
use cerberus_os.Scheduler.Tcb.{
  no_cap, TaskState, ready, running, blocked, TaskControlBlock, TaskTable,
}
use cerberus_os.Scheduler.Bitmap.{
  BitMapScheduler, new, register_task, scan, select_next, swap_partition, reschedule, schedule_body,
  schedule,
}
use cerberus_os.Scheduler.Select.{Selected, select_next-Selected}
use cerberus_os.Scheduler.Ends.{Result}
use cerberus_os.Scheduler.Invariant.{IsWellFormed, schedule-IsWellFormed}
use cerberus_os.Scheduler.Switch.{Switched, schedule-Switched, Stayed, schedule-Stayed}
use cerberus_os.Scheduler.Rotation.{IsNearer, schedule-IsNearer}
use cerberus_os.Scheduler.Expiry.{schedule_due}

abbrev task : ℕ → TaskState → TaskControlBlock
task prio st = record {
  saved_sp = 4096 + prio;
  priority = prio;
  active_priority = prio;
  state = st;
  name = "test";
  capabilities = replicate 8 no_cap;
}

-- Task 0 runs, tasks 1 and 2 and the idle task are ready.
abbrev busy_table : TaskTable
busy_table =
    update
      (update (update (update (λ _. none) 0 (some (task 0 running))) 1 (some (task 1 ready))) 2
        (some (task 2 ready)))
      31 (some (task 31 ready))

abbrev busy : BitMapScheduler
busy = record new { task_table = busy_table; remaining_mif_ticks = 1 }

-- The same on its way through a frame.
abbrev fresh : BitMapScheduler
fresh = record new { task_table = busy_table; remaining_mif_ticks = 5 }

-- Only the idle task can follow a sleeping task 0.
abbrev asleep_table : TaskTable
asleep_table = update (update (λ _. none) 0 (some (task 0 (blocked 10)))) 31 (some (task 31 ready))

stays_while_slice_remains :
    schedule fresh true ≡ done (record fresh { remaining_mif_ticks = 4 }, none)
unfolding schedule schedule_body
stays_while_slice_remains = refl

switches_when_slice_expires :
    (r : Result) × (schedule busy true ≡ done r) × (r.0.current_partition_idx ≡ 1)
unfolding schedule schedule_body reschedule select_next scan swap_partition
switches_when_slice_expires = (_, refl, refl)

falls_back_to_idle : select_next asleep_table 0 ≡ some 31
unfolding select_next scan
falls_back_to_idle = refl

register_task_bounds : register_task new (task 32 ready) ≡ panicked
unfolding register_task
register_task_bounds = refl

busy-IsWellFormed : IsWellFormed busy
busy-IsWellFormed = record {
  in_range = omega arith;
  occupied = (task 0 running, refl);
  sole = λ i r. ground arith;
}

fresh-IsWellFormed : IsWellFormed fresh
fresh-IsWellFormed = record {
  in_range = omega arith;
  occupied = (task 0 running, refl);
  sole = λ i r. ground arith;
}

select_next-Selected_example : Selected busy_table 0 (select_next busy_table 0)
select_next-Selected_example = select_next-Selected busy_table 0 (omega arith)

schedule-IsWellFormed_example : (r : Result) × (schedule busy true ≡ done r) × IsWellFormed r.0
schedule-IsWellFormed_example = schedule-IsWellFormed busy true busy-IsWellFormed

-- What `busy` becomes at its last tick.
abbrev switched : BitMapScheduler
switched = record busy {
  task_table = update (update busy_table 0 (some (task 0 ready))) 1 (some (task 1 running));
  current_partition_idx = 1;
  remaining_mif_ticks = 100;
}

busy-switches : schedule busy true ≡ done (switched, some (0, 4097))
unfolding schedule schedule_body reschedule select_next scan swap_partition
busy-switches = refl

schedule-Switched_example : Switched busy switched 0 4097
schedule-Switched_example =
    schedule-Switched busy true switched 0 4097 busy-IsWellFormed busy-switches

schedule-Stayed_example : Stayed fresh (record fresh { remaining_mif_ticks = 4 })
schedule-Stayed_example =
    schedule-Stayed fresh true (record fresh { remaining_mif_ticks = 4 }) fresh-IsWellFormed
      stays_while_slice_remains

schedule-IsNearer_example : IsNearer 2 busy switched
schedule-IsNearer_example =
    schedule-IsNearer busy true switched 2 0 4097 busy-IsWellFormed busy-switches (omega arith) refl
      (omega arith)

schedule_due_example :
    (s' : BitMapScheduler) × (old : ℕ) × (sp : ℕ) × (schedule busy true ≡ done (s', some (old, sp)))
schedule_due_example =
    schedule_due busy true 1 busy-IsWellFormed (inl (omega arith)) (omega arith) refl
