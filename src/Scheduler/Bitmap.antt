-- ===== src/Scheduler/Bitmap.antt =====
-- scheduler/src/bitmap.rs: `BitMapScheduler`. A call returns the new scheduler; the pointer to the
-- old task's `saved_sp` that `schedule` hands out is the index of that task's slot.
use cerberus_os.Base.{
  ℕ, zero, suc, ◌+◌, ◌-◌, ◌%◌, Bool, false, not, ◌&&◌, ◌||◌, Option, none, some, ltb, ◌==◌,
  if◌then◌else◌, update,
}
use cerberus_os.Base.Outcome.{Outcome, done, assert}
use cerberus_os.Scheduler.Tcb.{ready, running, TaskControlBlock, eq_ready, eq_running, TaskTable}

abbrev pub max_partitions : ℕ
max_partitions = 32

-- The partition that runs only if no other is ready.
abbrev pub idle_partition : ℕ
idle_partition = 31

pub record BitMapScheduler : Type 0 where
  pub task_table : TaskTable
  pub current_partition_idx : ℕ
  pub partition_durations : ℕ → ℕ
  pub remaining_mif_ticks : ℕ

abbrev pub new : BitMapScheduler
new = record {
  task_table = λ _. none;
  current_partition_idx = 0;
  partition_durations = λ _. 100;
  remaining_mif_ticks = 100;
}

unfoldable pub register_task : BitMapScheduler → TaskControlBlock → Outcome BitMapScheduler
register_task s tcb =
    assert (ltb tcb.priority max_partitions)
      (done (record s { task_table = update s.task_table tcb.priority (some stored) }))
  where
    stored : TaskControlBlock
    stored = record tcb { active_priority = tcb.priority }

-- `if let Some(tcb) = slot { tcb.state == Ready } else { false }`
abbrev pub is_ready : Option TaskControlBlock → Bool
is_ready none = false
is_ready (some t) = eq_ready t.state

abbrev pub is_runnable : Option TaskControlBlock → Bool
is_runnable none = false
is_runnable (some t) = eq_running t.state || eq_ready t.state

abbrev pub next_slot : ℕ → ℕ
next_slot i = (i + 1) % max_partitions

-- What pass 1 looks for.
abbrev pub is_eligible : TaskTable → ℕ → Bool
is_eligible table i = not (i == idle_partition) && is_ready (table i)

-- The loop of pass 1, with `fuel` rounds left: the first slot from `i` on that is ready and is not
-- the idle partition.
unfoldable pub scan : ℕ → TaskTable → ℕ → Option ℕ
scan zero table i = none
scan (suc fuel) table i =
    let rest = scan fuel table (next_slot i) in if is_eligible table i then some i else rest

-- Pass 2: the idle partition, if ready.
abbrev pub idle_fallback : TaskTable → Option ℕ
idle_fallback table = if is_ready (table idle_partition) then some idle_partition else none

abbrev pub or_else : Option ℕ → Option ℕ → Option ℕ
or_else none d = d
or_else (some i) d = some i

unfoldable pub select_next : TaskTable → ℕ → Option ℕ
select_next table current =
    or_else (scan max_partitions table (next_slot current)) (idle_fallback table)

-- The old task goes from `Running` to `Ready`.
abbrev pub demote : Option TaskControlBlock → Option TaskControlBlock
demote none = none
demote (some t) = some (if eq_running t.state then record t { state = ready } else t)

abbrev pub promote : Option TaskControlBlock → Option TaskControlBlock
promote none = none
promote (some t) = some (record t { state = running })

unfoldable pub swapped_table : TaskTable → ℕ → ℕ → TaskTable
swapped_table table current next =
    let old_done = update table current (demote (table current)) in
    update old_done next (promote (old_done next))

-- `self.task_table[current_idx].as_mut()?.saved_sp`, `self.task_table[next_idx].as_ref()?.saved_sp`
abbrev pub switch_of : TaskTable → ℕ → ℕ → Option (ℕ × ℕ)
switch_of table current next = elim (table current) [
  | none ↦ none
  | some _ ↦ elim (table next) [ none ↦ none | some t ↦ some (current, t.saved_sp) ]
]

unfoldable pub swap_partition : BitMapScheduler → ℕ → BitMapScheduler
unfolding swapped_table
swap_partition s next = record s {
  task_table = swapped_table s.task_table s.current_partition_idx next;
  current_partition_idx = next;
  remaining_mif_ticks = s.partition_durations next;
}

-- Nothing else is ready: a runnable task whose frame ran out starts a new frame.
abbrev pub stay : Bool → BitMapScheduler → BitMapScheduler
stay runnable s =
    if runnable && s.remaining_mif_ticks == 0
    then record s { remaining_mif_ticks = s.partition_durations s.current_partition_idx }
    else s

unfoldable pub reschedule : Bool → BitMapScheduler → BitMapScheduler × Option (ℕ × ℕ)
unfolding swap_partition
reschedule runnable s = elim (select_next s.task_table s.current_partition_idx) [
  | none ↦ (stay runnable s, none)
  | some next ↦
      let s' = swap_partition s next in (s', switch_of s'.task_table s.current_partition_idx next)
]

-- `if is_tick && self.remaining_mif_ticks > 0 { self.remaining_mif_ticks -= 1; }`
abbrev pub count_tick : Bool → BitMapScheduler → BitMapScheduler
count_tick is_tick s =
    if is_tick && ltb 0 s.remaining_mif_ticks
    then record s { remaining_mif_ticks = s.remaining_mif_ticks - 1 }
    else s

-- The body of `schedule`; `current` is in range.
unfoldable pub schedule_body : BitMapScheduler → Bool → BitMapScheduler × Option (ℕ × ℕ)
schedule_body s is_tick =
    let t = count_tick is_tick s in
    let runnable = is_runnable (s.task_table s.current_partition_idx) in
    if t.remaining_mif_ticks == 0 || not is_tick || not runnable
    then reschedule runnable t
    else (t, none)

-- Reading the slot of a current partition out of range panics.
unfoldable pub schedule : BitMapScheduler → Bool → Outcome (BitMapScheduler × Option (ℕ × ℕ))
schedule s is_tick =
    assert (ltb s.current_partition_idx max_partitions) (done (schedule_body s is_tick))
