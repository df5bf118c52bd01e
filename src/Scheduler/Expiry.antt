-- ===== src/Scheduler/Expiry.antt =====
-- When the core changes hands (scheduler/src/bitmap.rs): a frame that has run out, a yield, and a
-- current task that cannot run on.
use cerberus_os.Base.{
  ℕ, ◌≤◌, ◌<◌, ◌≡◌, refl, ◌⊎◌, inl, inr, Bool, true, false, Option, none, some, arith, ◌∙◌, lt→ltb,
  Option-cases,
}
use cerberus_os.Base.Outcome.{done}
use cerberus_os.Scheduler.Bitmap.{
  BitMapScheduler, is_ready, is_runnable, select_next, swapped_table, swap_partition, count_tick,
  reschedule, schedule_body, schedule,
}
use cerberus_os.Scheduler.Ends.{Result, count_tick-eq, reschedule-some}
use cerberus_os.Scheduler.Swap.{
  ready-some, Selected-is_ready, swapped-identity, swapped-occupied, identity-filled,
}
use cerberus_os.Scheduler.Invariant.{IsWellFormed, chosen}
use cerberus_os.Scheduler.Switch.{none_ready, switch_of-ne-none}

-- The call must look for another partition: the frame has run out, or the call is forced, or the
-- current task cannot run on.
abbrev pub IsDue : BitMapScheduler → Bool → Type 0
IsDue s is_tick =
    (s.remaining_mif_ticks ≤ 1)
    ⊎ ((is_tick ≡ false) ⊎ (is_runnable (s.task_table s.current_partition_idx) ≡ false))

abbrev Switches : Result → Type 0
Switches r = (s' : BitMapScheduler) × (old : ℕ) × (sp : ℕ) × (r ≡ (s', some (old, sp)))

some-Switches : (s : BitMapScheduler) (o : Option (ℕ × ℕ)) → (o ≡ none → ⊥) → Switches (s, o)
some-Switches s none h = absurd (h refl)
some-Switches s (some (old, sp)) h = (s, old, sp, refl)

reschedule-Switches :
    (s : BitMapScheduler) (runs : Bool) {i : ℕ}
    → IsWellFormed s
    → i < 32
    → is_ready (s.task_table i) ≡ true
    → Switches (reschedule runs s)
reschedule-Switches s runs {i} w hi ri =
    elim (Option-cases (select_next s.task_table s.current_partition_idx)) [
      | inl e ↦ absurd (cc (none_ready (chosen s w e) refl i hi))
      | inr (next, e) ↦
          let c = s.current_partition_idx in
          let (t, f) = w.occupied in
          let (t', f') =
            identity-filled (s.task_table c) (swapped_table s.task_table c next c)
              (swapped-identity s.task_table c next c) f in
          let (u, g, _) = ready-some (s.task_table next) (Selected-is_ready (chosen s w e)).1 in
          let (u', g') = swapped-occupied s.task_table c next g in
          rw (reschedule-some runs s e) (
            some-Switches (swap_partition s next) _
              (switch_of-ne-none (swapped_table s.task_table c next) c next f' g'))
    ]

due-reschedules :
    (s : BitMapScheduler) (is_tick : Bool)
    → IsDue s is_tick
    → schedule_body s is_tick
      ≡ reschedule (is_runnable (s.task_table s.current_partition_idx)) (count_tick is_tick s)
unfolding schedule_body
due-reschedules s is_tick due = ground arith

ticks-IsWellFormed :
    (s : BitMapScheduler) (ticks : ℕ)
    → IsWellFormed s
    → IsWellFormed (record s { remaining_mif_ticks = ticks })
ticks-IsWellFormed s ticks w = record {
  in_range = w.in_range;
  occupied = w.occupied;
  sole = w.sole;
}

-- A well-formed scheduler whose call is due (the last tick of the frame, a forced call, or a current
-- task that cannot run on) switches whenever some task of the core is ready.
pub schedule_due :
    (s : BitMapScheduler) (is_tick : Bool) (i : ℕ)
    → IsWellFormed s
    → IsDue s is_tick
    → i < 32
    → is_ready (s.task_table i) ≡ true
    → (s' : BitMapScheduler) × (old : ℕ) × (sp : ℕ) × (schedule s is_tick
        ≡ done (s', some (old, sp)))
unfolding schedule
schedule_due s is_tick i w due hi ri =
    let (ticks, e) = count_tick-eq is_tick s in
    let t : BitMapScheduler = record s { remaining_mif_ticks = ticks } in
    let runs = is_runnable (s.task_table s.current_partition_idx) in
    let (s', old, sp, f) = reschedule-Switches t runs (ticks-IsWellFormed s ticks w) hi ri in
    let body : schedule_body s is_tick ≡ (s', some (old, sp)) =
      due-reschedules s is_tick due ∙ (rw e f) in
    (s', old, sp, rw (lt→ltb _ _ w.in_range, body))
