-- ===== src/Scheduler/Rotation.antt =====
-- Temporal partitioning (scheduler/src/bitmap.rs): a runnable partition keeps its core for its
-- frame and no longer, and no ready partition is passed over for ever.
use cerberus_os.Base.{
  ℕ, zero, suc, ◌-◌, ◌<◌, ◌≡◌, refl, ◌≢◌, Bool, true, Option, none, some, arith, subst, ap, ◌∙◌,
}
use cerberus_os.Base.Outcome.{Outcome, done, ◌>>=◌}
use cerberus_os.Scheduler.Tcb.{TaskControlBlock}
use cerberus_os.Scheduler.Bitmap.{
  BitMapScheduler, is_ready, is_runnable, swapped_table, swap_partition, schedule_body, schedule,
}
use cerberus_os.Scheduler.Select.{offset, Selected, rotated, idled, nothing_ready}
use cerberus_os.Scheduler.Ends.{Result, Scheduled, kept, swapped, schedule-Scheduled}
use cerberus_os.Scheduler.Invariant.{IsWellFormed, chosen}

swapped-ready :
    (table : ℕ → Option TaskControlBlock) (c n j : ℕ)
    → j ≢ n
    → is_ready (table j) ≡ true
    → is_ready (swapped_table table c n j) ≡ true
unfolding swapped_table
swapped-ready table c n j ne r = ground arith

-- A ready task below the idle partition is still ready after a swap to another, and nearer.
abbrev pub IsNearer : ℕ → BitMapScheduler → BitMapScheduler → Type 0
IsNearer j s s' =
    (is_ready (s'.task_table j) ≡ true)
    × (offset s'.current_partition_idx j < offset s.current_partition_idx j)

Selected-IsNearer :
    {table : ℕ → Option TaskControlBlock} {c n : ℕ} {o : Option ℕ} (j : ℕ)
    → c < 32
    → Selected table c o
    → o ≡ some n
    → j < 31
    → is_ready (table j) ≡ true
    → j ≢ n
    → offset n j < offset c j
Selected-IsNearer {n = n} j hc (rotated k lt r near) e hj rj ne =
    let same : k ≡ n = cc in omega (arith, same, near j hj rj)
Selected-IsNearer j hc (idled r others) e hj rj ne = absurd (cc (others j hj))
Selected-IsNearer j hc (nothing_ready all) e hj rj ne = absurd (cc)

swap-IsNearer :
    (s : BitMapScheduler) (next j : ℕ)
    → s.current_partition_idx < 32
    → Selected s.task_table s.current_partition_idx (some next)
    → j < 31
    → is_ready (s.task_table j) ≡ true
    → j ≢ next
    → IsNearer j s (swap_partition s next)
unfolding swap_partition
swap-IsNearer s next j hc sel hj rj ne = (
  swapped-ready s.task_table s.current_partition_idx next j ne rj,
  Selected-IsNearer j hc sel refl hj rj ne,
)

Scheduled-IsNearer :
    (s : BitMapScheduler) (is_tick : Bool) {r : Result} (j old sp : ℕ)
    → IsWellFormed s
    → Scheduled s is_tick r
    → r.1 ≡ some (old, sp)
    → j < 31
    → is_ready (s.task_table j) ≡ true
    → j ≢ r.0.current_partition_idx
    → IsNearer j s r.0
unfolding swap_partition
Scheduled-IsNearer s is_tick j old sp w (kept ticks why) e hj rj ne = absurd (cc)
Scheduled-IsNearer s is_tick j old sp w (swapped next sel) e hj rj ne =
    swap-IsNearer s next j w.in_range (chosen s w sel) hj rj ne

-- No starvation: at each switch of a well-formed scheduler, a ready task below the idle partition
-- either is the one that runs next, or stays ready and comes strictly nearer to its turn in cyclic
-- order.
pub schedule-IsNearer :
    (s : BitMapScheduler) (is_tick : Bool) (s' : BitMapScheduler) (j old sp : ℕ)
    → IsWellFormed s
    → schedule s is_tick ≡ done (s', some (old, sp))
    → j < 31
    → is_ready (s.task_table j) ≡ true
    → j ≢ s'.current_partition_idx
    → IsNearer j s s'
schedule-IsNearer s is_tick s' j old sp w e hj rj ne =
    let (r, f, sched) = schedule-Scheduled s is_tick w.in_range in
    let same : r ≡ (s', some (old, sp)) = cc in
    let cur : r.0.current_partition_idx ≡ s'.current_partition_idx =
      ap (λ (q : Result). q.0.current_partition_idx) same in
    subst (λ q. IsNearer j s q.0) same
      (Scheduled-IsNearer s is_tick j old sp w sched (ap (λ (q : Result). q.1) same) hj rj
        (λ g. ne (g ∙ cur)))

-- `n` timer ticks on end, with the switches' stack pointers dropped.
unfoldable pub run_ticks : ℕ → BitMapScheduler → Outcome BitMapScheduler
run_ticks zero s = done s
run_ticks (suc n) s = schedule s true >>= λ r. run_ticks n r.0

tick_within :
    (s : BitMapScheduler)
    → s.current_partition_idx < 32
    → is_runnable (s.task_table s.current_partition_idx) ≡ true
    → 1 < s.remaining_mif_ticks
    → schedule s true ≡ done (record s { remaining_mif_ticks = s.remaining_mif_ticks - 1 }, none)
unfolding schedule schedule_body
tick_within s hc runs h = ground arith

-- A runnable current task keeps its core while its frame lasts: any number of ticks below the ticks
-- that are left changes nothing but that count.
pub run_ticks-within :
    (n : ℕ) (s : BitMapScheduler)
    → s.current_partition_idx < 32
    → is_runnable (s.task_table s.current_partition_idx) ≡ true
    → n < s.remaining_mif_ticks
    → run_ticks n s ≡ done (record s { remaining_mif_ticks = s.remaining_mif_ticks - n })
unfolding run_ticks
run_ticks-within zero s hc runs h =
    ap (λ k. done (record s { remaining_mif_ticks = k })) (omega arith)
run_ticks-within (suc n) s hc runs h = rw (tick_within s hc runs (omega arith)) (
    run_ticks-within n (record s { remaining_mif_ticks = s.remaining_mif_ticks - 1 }) hc runs
      (omega arith)
    ∙ ap (λ k. done (record s { remaining_mif_ticks = k })) (omega arith))
