-- ===== src/Scheduler/Ends.antt =====
-- `BitMapScheduler::schedule` (scheduler/src/bitmap.rs): its two ways to end.
use cerberus_os.Base.{
  ℕ, ◌<◌, ◌≡◌, refl, ◌⊎◌, inl, inr, Bool, true, false, not, ◌||◌, Option, none, some, arith, lt→ltb,
  ◌==◌, if◌then◌else◌, Bool-cases, Option-cases,
}
use cerberus_os.Base.Outcome.{done}
use cerberus_os.Scheduler.Bitmap.{
  BitMapScheduler, is_runnable, select_next, swapped_table, swap_partition, switch_of, count_tick,
  stay, reschedule, schedule_body, schedule,
}

abbrev pub Result : Type 0
Result = BitMapScheduler × Option (ℕ × ℕ)

-- The two ways in which `schedule` ends.
pub data Scheduled (s : BitMapScheduler) (is_tick : Bool) : Result → Type 0 where
  kept :
      (ticks : ℕ)
      → ((is_tick ≡ true) × (is_runnable (s.task_table s.current_partition_idx) ≡ true))
        ⊎ (select_next s.task_table s.current_partition_idx ≡ none)
      → Scheduled s is_tick (record s { remaining_mif_ticks = ticks }, none)
  swapped :
      (next : ℕ)
      → select_next s.task_table s.current_partition_idx ≡ some next
      → Scheduled s is_tick (
        swap_partition s next,
        switch_of
            (swapped_table s.task_table s.current_partition_idx next)
            s.current_partition_idx
            next,
      )

pub reschedule-none :
    (r : Bool) (s : BitMapScheduler)
    → select_next s.task_table s.current_partition_idx ≡ none
    → reschedule r s ≡ (stay r s, none)
unfolding reschedule
reschedule-none r s e = rw (e, reschedule)

pub reschedule-some :
    (r : Bool) (s : BitMapScheduler) {next : ℕ}
    → select_next s.task_table s.current_partition_idx ≡ some next
    → reschedule r s ≡ (
      swap_partition s next,
      switch_of
          (swapped_table s.task_table s.current_partition_idx next)
          s.current_partition_idx
          next,
    )
unfolding reschedule
reschedule-some r s e = rw (e, reschedule)

-- Counting the tick, and starting a new frame, change only the ticks that are left.
pub count_tick-eq :
    (is_tick : Bool) (s : BitMapScheduler)
    → (ticks : ℕ) × (count_tick is_tick s ≡ record s { remaining_mif_ticks = ticks })
count_tick-eq is_tick s = ((count_tick is_tick s).remaining_mif_ticks, ground arith)

stay-eq :
    (r : Bool) (s : BitMapScheduler)
    → (ticks : ℕ) × (stay r s ≡ record s { remaining_mif_ticks = ticks })
stay-eq r s = ((stay r s).remaining_mif_ticks, ground arith)

reschedule-Scheduled :
    (s : BitMapScheduler) (is_tick runnable : Bool) (ticks : ℕ)
    → Scheduled s is_tick (reschedule runnable (record s { remaining_mif_ticks = ticks }))
unfolding swap_partition
reschedule-Scheduled s is_tick runnable ticks =
    elim (Option-cases (select_next s.task_table s.current_partition_idx)) [
      | inl e ↦
          let t : BitMapScheduler = record s { remaining_mif_ticks = ticks } in
          let (left, same) = stay-eq runnable t in
          rw (reschedule-none runnable t e) (rw same (kept left (inr e)))
      | inr (next, e) ↦
          rw (reschedule-some runnable (record s { remaining_mif_ticks = ticks }) e)
            (swapped next e)
    ]

schedule_body-kept :
    (s : BitMapScheduler) (is_tick runs : Bool) (ticks : ℕ)
    → is_runnable (s.task_table s.current_partition_idx) ≡ runs
    → let t = record s { remaining_mif_ticks = ticks } in
      Scheduled s is_tick
        (if ticks == 0 || not is_tick || not runs then reschedule runs t else (t, none))
schedule_body-kept s false runs ticks e = elim (Bool-cases (ticks == 0)) [
  | inl z ↦ rw z (reschedule-Scheduled s false runs ticks)
  | inr z ↦ rw z (reschedule-Scheduled s false runs ticks)
]
schedule_body-kept s true runs ticks e = elim (Bool-cases (ticks == 0)) [
  | inl z ↦ rw z (reschedule-Scheduled s true runs ticks)
  | inr z ↦ rw z (keep runs e)
]
  where
    keep :
        (b : Bool)
        → is_runnable (s.task_table s.current_partition_idx) ≡ b
        → let t = record s { remaining_mif_ticks = ticks } in
          Scheduled s true (if not b then reschedule b t else (t, none))
    keep true f = kept ticks (inl (refl, f))
    keep false f = reschedule-Scheduled s true false ticks

pub schedule_body-Scheduled :
    (s : BitMapScheduler) (is_tick : Bool) → Scheduled s is_tick (schedule_body s is_tick)
unfolding schedule_body
schedule_body-Scheduled s is_tick =
    let (ticks, e) = count_tick-eq is_tick s in rw e (schedule_body-kept s is_tick _ ticks refl)

-- A current partition in range is all that `schedule` needs to return, and it ends in one of the
-- two ways.
pub schedule-Scheduled :
    (s : BitMapScheduler) (is_tick : Bool)
    → s.current_partition_idx < 32
    → (r : Result) × (schedule s is_tick ≡ done r) × Scheduled s is_tick r
unfolding schedule
schedule-Scheduled s is_tick h =
    (schedule_body s is_tick, rw (lt→ltb _ _ h), schedule_body-Scheduled s is_tick)
