-- ===== src/Scheduler/Switch.antt =====
-- What a call of `schedule` (scheduler/src/bitmap.rs) hands to the trap handler: a switch, or none.
use cerberus_os.Base.{
  ℕ, ◌<◌, ◌≡◌, refl, ◌≢◌, ◌⊎◌, inl, inr, Bool, true, false, Option, none, some, arith, subst, sym,
  ap, ◌∙◌,
}
use cerberus_os.Base.Outcome.{done}
use cerberus_os.Scheduler.Tcb.{TaskControlBlock}
use cerberus_os.Scheduler.Bitmap.{
  BitMapScheduler, is_ready, is_runnable, swapped_table, swap_partition, switch_of, schedule,
}
use cerberus_os.Scheduler.Select.{Selected, rotated, idled, nothing_ready}
use cerberus_os.Scheduler.Ends.{Result, Scheduled, kept, swapped, schedule-Scheduled}
use cerberus_os.Scheduler.Swap.{
  is_running, saved, ready-some, Selected-is_ready, swapped-identity, swapped-saved, swapped-next,
  swapped-other, swapped-occupied, identity-filled,
}
use cerberus_os.Scheduler.Invariant.{IsWellFormed, chosen}

-- A switch: the old slot and the stack pointer that the trap handler is given.
pub record Switched (s s' : BitMapScheduler) (old sp : ℕ) : Type 0 where
  pub from : old ≡ s.current_partition_idx
  pub was_ready : is_ready (s.task_table s'.current_partition_idx) ≡ true
  pub now_running : is_running (s'.task_table s'.current_partition_idx) ≡ true
  pub resumes : saved (s.task_table s'.current_partition_idx) ≡ some sp
  pub full_frame : s'.remaining_mif_ticks ≡ s.partition_durations s'.current_partition_idx
  pub others : (i : ℕ) → i ≢ old → i ≢ s'.current_partition_idx → s'.task_table i ≡ s.task_table i

switch_of-some :
    (table : ℕ → Option TaskControlBlock) (c n : ℕ) {old sp : ℕ}
    → switch_of table c n ≡ some (old, sp)
    → (old ≡ c) × (saved (table n) ≡ some sp)
switch_of-some table c n e = ground arith

swap-Switched :
    (s : BitMapScheduler) (next old sp : ℕ)
    → Selected s.task_table s.current_partition_idx (some next)
    → switch_of
        (swapped_table s.task_table s.current_partition_idx next)
        s.current_partition_idx
        next
      ≡ some (old, sp)
    → Switched s (swap_partition s next) old sp
unfolding swap_partition
swap-Switched s next old sp sel e =
    let c = s.current_partition_idx in
    let (same, sv) = switch_of-some (swapped_table s.task_table c next) c next e in
    record {
      from = same;
      was_ready = (Selected-is_ready sel).1;
      now_running = swapped-next s.task_table c next (Selected-is_ready sel).1;
      resumes = sym (swapped-saved s.task_table c next next) ∙ sv;
      full_frame = refl;
      others = λ i ne ne'. swapped-other s.task_table c next i (λ e. ne (e ∙ sym same)) ne';
    }

Scheduled-Switched :
    (s : BitMapScheduler) (is_tick : Bool) {r : Result} (old sp : ℕ)
    → IsWellFormed s
    → Scheduled s is_tick r
    → r.1 ≡ some (old, sp)
    → Switched s r.0 old sp
Scheduled-Switched s is_tick old sp w (kept ticks why) e = absurd (cc)
Scheduled-Switched s is_tick old sp w (swapped next sel) e =
    swap-Switched s next old sp (chosen s w sel) e

done-injective {ℓ} : {A : Type ℓ} {a b : A} → done a ≡ done b → a ≡ b
done-injective e = cc

-- A call that answers with a switch on a well-formed scheduler: the slot it came from is the old
-- current one; the new current task was ready, runs now, and its saved stack pointer is the one
-- handed out; it starts with its full frame; every other slot is as before.
pub schedule-Switched :
    (s : BitMapScheduler) (is_tick : Bool) (s' : BitMapScheduler) (old sp : ℕ)
    → IsWellFormed s
    → schedule s is_tick ≡ done (s', some (old, sp))
    → Switched s s' old sp
schedule-Switched s is_tick s' old sp w e =
    let (r, f, sched) = schedule-Scheduled s is_tick w.in_range in
    let same : r ≡ (s', some (old, sp)) = done-injective (sym f ∙ e) in
    subst (λ q. Switched s q.0 old sp) same
      (Scheduled-Switched s is_tick old sp w sched (ap (λ (q : Result). q.1) same))

-- No switch: nothing but the ticks has changed, and unless the current task can run on, no task of
-- the core is ready.
pub record Stayed (s s' : BitMapScheduler) : Type 0 where
  pub same_table : s'.task_table ≡ s.task_table
  pub same_current : s'.current_partition_idx ≡ s.current_partition_idx
  pub justified :
      (is_runnable (s.task_table s.current_partition_idx) ≡ true)
      ⊎ ((i : ℕ) → i < 32 → is_ready (s.task_table i) ≡ false)

pub none_ready :
    {table : ℕ → Option TaskControlBlock} {c : ℕ} {o : Option ℕ}
    → Selected table c o
    → o ≡ none
    → (i : ℕ) → i < 32
    → is_ready (table i) ≡ false
none_ready (rotated j lt r near) e = absurd (cc)
none_ready (idled r others) e = absurd (cc)
none_ready (nothing_ready all) e = all

pub switch_of-ne-none :
    (table : ℕ → Option TaskControlBlock) (c n : ℕ) {t u : TaskControlBlock}
    → table c ≡ some t
    → table n ≡ some u
    → switch_of table c n ≢ none
switch_of-ne-none table c n e f h = ground arith

Scheduled-Stayed :
    (s : BitMapScheduler) (is_tick : Bool) {r : Result}
    → IsWellFormed s
    → Scheduled s is_tick r
    → r.1 ≡ none
    → Stayed s r.0
Scheduled-Stayed s is_tick w (kept ticks (inl (tick, runs))) e = record {
  same_table = refl;
  same_current = refl;
  justified = inl runs;
}
Scheduled-Stayed s is_tick w (kept ticks (inr no_next)) e = record {
  same_table = refl;
  same_current = refl;
  justified = inr (none_ready (chosen s w no_next) refl);
}
Scheduled-Stayed s is_tick w (swapped next sel) e =
    let c = s.current_partition_idx in
    let (t, f) = w.occupied in
    let (u, g, _) = ready-some (s.task_table next) (Selected-is_ready (chosen s w sel)).1 in
    let (t', f') =
      identity-filled (s.task_table c) (swapped_table s.task_table c next c)
        (swapped-identity s.task_table c next c) f in
    let (u', g') = swapped-occupied s.task_table c next g in
    absurd (switch_of-ne-none (swapped_table s.task_table c next) c next f' g' e)

-- A call that answers with no switch on a well-formed scheduler leaves the table and the current
-- partition alone, and then either the current task can run on or no task of the core is ready.
pub schedule-Stayed :
    (s : BitMapScheduler) (is_tick : Bool) (s' : BitMapScheduler)
    → IsWellFormed s
    → schedule s is_tick ≡ done (s', none)
    → Stayed s s'
schedule-Stayed s is_tick s' w e =
    let (r, f, sched) = schedule-Scheduled s is_tick w.in_range in
    let same : r ≡ (s', none) = done-injective (sym f ∙ e) in
    subst (λ q. Stayed s q.0) same
      (Scheduled-Stayed s is_tick w sched (ap (λ (q : Result). q.1) same))
