-- ===== src/Boot/Start.antt =====
-- kernel/src/main.rs: `start_first_task`, as far as the first `mret`.
use cerberus_os.Base.{
  ℕ, zero, suc, ◌+◌, ◌<◌, ◌≤◌, ◌≡◌, ◌≢◌, update_ne, refl, true, false, Option, none, some, update,
  if◌then◌else◌, ◌==◌, arith, Bool-cases, ==_refl, ==_iff, inl, inr, sym, subst, dec_le,
}
use cerberus_os.Base.Outcome.{Outcome, done, panicked, ◌>>=◌, unwrap}
use cerberus_os.Scheduler.Tcb.{running, TaskControlBlock, TaskTable}
use cerberus_os.Scheduler.Bitmap.{BitMapScheduler, max_partitions, is_ready}
use cerberus_os.Scheduler.Swap.{is_running, ready-some}
use cerberus_os.Scheduler.Invariant.{IsWellFormed}

-- The loop over the slots, with `rounds` left: the first ready one from `i` on.
unfoldable pub first_ready : TaskTable → ℕ → ℕ → Option ℕ
first_ready table zero i = none
first_ready table (suc rounds) i =
    let rest = first_ready table rounds (i + 1) in if is_ready (table i) then some i else rest

-- The new scheduler, and the task that `mret` goes to; `assert!(found)`.
unfoldable pub start_first_task : BitMapScheduler → Outcome (BitMapScheduler × TaskControlBlock)
start_first_task s = elim (first_ready s.task_table max_partitions 0) [
  | none ↦ panicked
  | some first ↦ unwrap (s.task_table first) >>= λ t.
      let new_tcb = record t { state = running } in
      done (
        record s {
          task_table = update s.task_table first (some new_tcb);
          current_partition_idx = first;
          remaining_mif_ticks = s.partition_durations first;
        },
        new_tcb,
      )
]

pub data IsFirstReady (table : TaskTable) (i : ℕ) : Option ℕ → Type 0 where
  nothing : ((j : ℕ) → i ≤ j → j < 32 → is_ready (table j) ≡ false) → IsFirstReady table i none
  found :
      {f : ℕ}
      → f < 32
      → is_ready (table f) ≡ true
      → ((j : ℕ) → i ≤ j → j < f → is_ready (table j) ≡ false)
      → IsFirstReady table i (some f)

from_later : (P : ℕ → Type 0) (i j : ℕ) → P i → (i + 1 ≤ j → P j) → i ≤ j → P j
from_later P i j here after le = elim (dec_le (i + 1) j) [
  | yes lt ↦ after lt
  | no ge ↦ subst P (omega arith) here
]

later :
    (table : TaskTable) (i : ℕ) (o : Option ℕ)
    → is_ready (table i) ≡ false
    → IsFirstReady table (i + 1) o
    → IsFirstReady table i o
later table i none e (nothing h) =
    nothing (λ j lo hi. from_later (λ k. is_ready (table k) ≡ false) i j e (λ lo'. h j lo' hi) lo)
later table i (some f) e (found lt r h) =
    found lt r
      (λ j lo hi. from_later (λ k. is_ready (table k) ≡ false) i j e (λ lo'. h j lo' hi) lo)

first_ready-IsFirstReady :
    (table : TaskTable) (rounds i : ℕ)
    → i + rounds ≡ 32
    → IsFirstReady table i (first_ready table rounds i)
unfolding first_ready
first_ready-IsFirstReady table zero i e = nothing (λ j lo hi. absurd (omega arith))
first_ready-IsFirstReady table (suc rounds) i e = elim (Bool-cases (is_ready (table i))) [
  | inl r ↦ rw r (found (omega arith) r (λ j lo hi. absurd (omega arith)))
  | inr r ↦ rw r (later table i _ r (first_ready-IsFirstReady table rounds (i + 1) (omega arith)))
]

-- What a start gives.
pub data IsStarted (s : BitMapScheduler)
    : Outcome (BitMapScheduler × TaskControlBlock) → Type 0 where
  nobody : ((j : ℕ) → j < 32 → is_ready (s.task_table j) ≡ false) → IsStarted s panicked
  started :
      {s' : BitMapScheduler} {t : TaskControlBlock} {f : ℕ}
      → ((j : ℕ) → j < f → is_ready (s.task_table j) ≡ false)
      → is_ready (s.task_table f) ≡ true
      → s.task_table f ≡ some t
      → s'.task_table f ≡ some (record t { state = running })
      → ((j : ℕ) → j ≢ f → s'.task_table j ≡ s.task_table j)
      → s'.current_partition_idx ≡ f
      → s'.remaining_mif_ticks ≡ s.partition_durations f
      → IsWellFormed s'
      → IsStarted s (done (s', record t { state = running }))

begun-IsWellFormed :
    (s : BitMapScheduler) (f : ℕ) (t : TaskControlBlock)
    → ((j : ℕ) → is_running (s.task_table j) ≡ false)
    → f < 32
    → IsWellFormed (record s {
      task_table = update s.task_table f (some (record t { state = running }));
      current_partition_idx = f;
      remaining_mif_ticks = s.partition_durations f;
    })
begun-IsWellFormed s f t quiet lt = record {
  in_range = lt;
  occupied = (record t { state = running }, rw (==_refl f) refl);
  sole = λ i run. elim (Bool-cases (f == i)) [
    | inl same ↦ sym ((==_iff f i).0 same)
    | inr other ↦ absurd (clash i other run)
  ];
}
  where
    clash :
        (i : ℕ)
        → (f == i) ≡ false
        → is_running (update s.task_table f (some (record t { state = running })) i) ≡ true
        → ⊥
    clash i other run =
        let old =
          subst
            (λ b.
              is_running (if b then some (record t { state = running }) else s.task_table i) ≡ true)
            other run in
        absurd (cc (old, quiet i))

start_from :
    (s : BitMapScheduler) (o : Option ℕ)
    → ((j : ℕ) → is_running (s.task_table j) ≡ false)
    → IsFirstReady s.task_table 0 o
    → IsStarted s (elim o [
      | none ↦ panicked
      | some first ↦ unwrap (s.task_table first) >>= λ t. done (
        record s {
          task_table = update s.task_table first (some (record t { state = running }));
          current_partition_idx = first;
          remaining_mif_ticks = s.partition_durations first;
        },
        record t { state = running },
      )
    ])
start_from s none quiet (nothing h) = nobody (λ j lt. h j (omega arith) lt)
start_from s (some f) quiet (found lt r low) =
    let (t, e, _) = ready-some (s.task_table f) r in
    rw e (
      started (λ j lt'. low j (omega arith) lt') r e (rw (==_refl f) refl)
        (λ j ne.
          update_ne s.task_table f (some (record t { state = running })) j (λ same. ne (sym same)))
        refl refl (begun-IsWellFormed s f t quiet lt))

-- The first task of a core, from a table with no running task. If no slot is ready, a panic; else the
-- ready task in the lowest slot, which is handed out as running: it is set to running in its slot, the
-- other slots are as before, it is current with a full frame, and the scheduler is well formed.
pub start_first_task-IsStarted :
    (s : BitMapScheduler)
    → ((j : ℕ) → is_running (s.task_table j) ≡ false)
    → IsStarted s (start_first_task s)
unfolding start_first_task
start_first_task-IsStarted s quiet =
    start_from s _ quiet (first_ready-IsFirstReady s.task_table 32 0 refl)
