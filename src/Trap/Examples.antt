-- ===== src/Trap/Examples.antt =====
-- The theorems on traps at a concrete kernel: Task A runs on core 0, and Task C waits on core 1 to
-- receive on endpoint 0.
use cerberus_os.Base.{
  ℕ, ◌+◌, ◌%◌, ◌^◌, ◌<◌, ◌≡◌, refl, inl, inr, true, false, Option, none, some, arith, update,
  replicate, [], ◌∷◌, if◌then◌else◌, ◌==◌, ◌||◌, not, Bool, ◌⊎◌,
}
use cerberus_os.Base.Bits.{passes, passes_at}
use cerberus_os.Base.Outcome.{Completes, done, Settles}
use cerberus_os.Scheduler.Tcb.{no_cap, mutex, ipc, running, blocked_on_ipc_recv, TaskControlBlock}
use cerberus_os.Scheduler.Bitmap.{BitMapScheduler}
use cerberus_os.Scheduler.Bitmap as Bitmap
use cerberus_os.Spinlock.Lock as Lock
use cerberus_os.Trap.Memory.{read_word, read_frame, reg_a0}
use cerberus_os.Trap.State.{Hart, hart0, hart1, Core, Kernel, Env, has_waiter}
use cerberus_os.Trap.Mutex.{running_cap, cap_at, highest_waiter, waiter_prio}
use cerberus_os.Trap.Ipc.{Party, receives_on, find_party, deliver, fetch}
use cerberus_os.Trap.Handler.{syscall, trap_handler}
use cerberus_os.Scheduler.Bitmap.{schedule, schedule_body, reschedule, select_next, scan}
use cerberus_os.Spinlock.Lock.{lock, claim, unlock}
use cerberus_os.Trap.Switch.{timer_interrupt, software_interrupt, syscall_yield}
use cerberus_os.Trap.Tables.{AllWellFormed, Sound}
use cerberus_os.Trap.Partitions.Traps.{trap_handler-Sound}
use cerberus_os.Trap.Entry.{stores}
use cerberus_os.Trap.Emulation.{rd_index, emulate}
use cerberus_os.Trap.Counters.{offset_of, emulate_lem}
use cerberus_os.Trap.Interrupts.{switching-Completes}
use cerberus_os.Trap.Locks.{Kept}
use cerberus_os.Trap.Locks.Traps.{trap_handler-Settles}
use cerberus_os.Trap.Rights.{lock_call, refusal, syscall_refused}
use cerberus_os.Trap.Waiters.{IsHighest, highest_waiter-IsHighest}
use cerberus_os.Trap.Parties.{IsFirstParty, find_party-IsFirstParty}
use cerberus_os.Trap.Rendezvous.{IsExchanged, deliver-IsExchanged, fetch-IsExchanged}

abbrev task_a : TaskControlBlock
task_a = record {
  saved_sp = 4096;
  priority = 1;
  active_priority = 1;
  state = running;
  name = "Task A";
  capabilities = mutex 0 true true ∷ ipc 0 true false ∷ replicate 6 no_cap;
}

abbrev task_c : TaskControlBlock
task_c = record {
  saved_sp = 8192;
  priority = 3;
  active_priority = 3;
  state = blocked_on_ipc_recv 0 9000 4;
  name = "Task C";
  capabilities = ipc 0 false true ∷ replicate 7 no_cap;
}

abbrev idle : TaskControlBlock
idle = record {
  saved_sp = 12288;
  priority = 31;
  active_priority = 31;
  state = running;
  name = "Idle 1";
  capabilities = replicate 8 no_cap;
}

abbrev sched_0 : BitMapScheduler
sched_0 = record Bitmap.new {
  task_table = update (λ _. none) 1 (some task_a);
  current_partition_idx = 1;
}

abbrev sched_1 : BitMapScheduler
sched_1 = record Bitmap.new {
  task_table = update (update (λ _. none) 3 (some task_c)) 31 (some idle);
  current_partition_idx = 31;
}

abbrev scheds : Hart → BitMapScheduler
scheds hart0 = sched_0
scheds hart1 = sched_1

-- In the frame at 4000, a0 names the capability, and a7 the system call yield; all else reads 0.
abbrev core_with : ℕ → Core
core_with cap_idx = record {
  scheds = scheds;
  mutexes = λ _. none;
  tick_count = 0;
  last_checkin = λ _. 0;
  trap_latency = 0;
  pmp_violations = 0;
  memory = λ j. if j == 4024 then cap_idx else if j == 4052 then 1 else 0;
  msip = λ _. 0;
  mtimecmp = λ _. 0;
  pmp = λ _. record { addr = λ _. 0; cfg = λ _. 0 };
  trace = [];
}

abbrev kernel : Kernel
kernel = record { core = core_with 1; sched_lock = Lock.new; mutex_lock = Lock.new }

abbrev env : Env
env = record {
  hart = hart0;
  mcause = 8;
  user_sp = 4000;
  start_cycle = 0;
  end_cycle = 10;
  mcycle = 77;
  cycle = 0;
  mtime = 0;
  layout = record { wd_stack = 0; a_stack = 0; b_stack = 0; c_stack = 0; hsm_stack = 0 };
}

trap_handler-Settles_example : Settles (Kept kernel) (trap_handler env kernel)
trap_handler-Settles_example = trap_handler-Settles env kernel (inl (refl, refl), inl (refl, refl))

-- Capability 1 of Task A is for IPC, and does not let it lock a mutex.
held_ipc :
    running_cap hart0 (read_frame (core_with 1).memory 4000 reg_a0) (core_with 1)
    ≡ done (some (ipc 0 true false))
unfolding running_cap cap_at read_word
held_ipc = refl

syscall_refused_example : syscall 3 env kernel ≡ done (refusal env kernel)
syscall_refused_example =
    syscall_refused env kernel (inl (refl, refl), inl (refl, refl)) (some (ipc 0 true false))
      held_ipc 3 lock_call refl

-- Tasks A and C wait for a mutex.
abbrev is_a_or_c : ℕ → Bool
is_a_or_c w = not (has_waiter 10 w) || (w == 1 || w == 3)

only_a_and_c : passes is_a_or_c 32 ≡ true
unfolding passes has_waiter
only_a_and_c = refl

a_or_c : (w : ℕ) → w < 32 → has_waiter 10 w ≡ true → (w ≡ 1) ⊎ (w ≡ 3)
a_or_c w lt has = ground (arith, passes_at is_a_or_c 32 w lt only_a_and_c)

waiting_prio : (w : ℕ) → w < 32 → has_waiter 10 w ≡ true → waiter_prio (core_with 1) w ≡ done w
unfolding waiter_prio
waiting_prio w lt has = elim (a_or_c w lt has) [ inl e ↦ rw e refl | inr e ↦ rw e refl ]

highest_waiter-IsHighest_example :
    (r : Option ℕ) × (highest_waiter (core_with 1) 10 ≡ done r) × IsHighest 10 (λ w. w) 32 r
highest_waiter-IsHighest_example = highest_waiter-IsHighest (core_with 1) 10 (λ w. w) waiting_prio

find_party-IsFirstParty_example :
    IsFirstParty (receives_on 0) (core_with 1) (find_party (receives_on 0) (core_with 1))
find_party-IsFirstParty_example = find_party-IsFirstParty (receives_on 0) (core_with 1)

abbrev party_c : Party
party_c = record { hart = hart1; idx = 3; tcb = task_c; addr = 9000; len = 4 }

deliver-IsExchanged_example :
    IsExchanged env party_c 5000 9000 4 4 0
      (core_with 1)
      (deliver env 0 5000 20 party_c (core_with 1))
deliver-IsExchanged_example =
    deliver-IsExchanged env 0 5000 20 party_c (core_with 1) (omega arith)
      (inl (omega arith), inl (omega arith), inl (omega arith))

fetch-IsExchanged_example :
    IsExchanged env party_c 9000 5000 4 0 4
      (core_with 1)
      (fetch env 0 5000 20 party_c (core_with 1))
fetch-IsExchanged_example =
    fetch-IsExchanged env 0 5000 20 party_c (core_with 1) (omega arith)
      (inr (omega arith), inl (omega arith), inl (omega arith))

well_formed : AllWellFormed (core_with 1)
well_formed hart0 = record {
  in_range = omega arith;
  occupied = (task_a, refl);
  sole = λ i run. ground arith;
}
well_formed hart1 = record {
  in_range = omega arith;
  occupied = (idle, refl);
  sole = λ i run. ground arith;
}

trap_handler-Sound_example : Settles Sound (trap_handler env kernel)
trap_handler-Sound_example =
    trap_handler-Sound env kernel (inl (refl, refl), inl (refl, refl)) well_formed

-- `csrr a0, cycle` is 0xC0002573.
a0_stored : offset_of 10 stores ≡ some 24
unfolding offset_of
a0_stored = refl

-- `rdcycle a0`
emulate_lem_example :
    let before = (core_with 1).memory in
    let after = (emulate env 0xC0002573 (core_with 1)).memory in
    (read_word after 4024 ≡ (if 10 == rd_index 0xC0002573 then 77 else read_word before 4024))
    × (read_word after 4112 ≡ (read_word before 4112 + 4) % 2 ^ 32)
emulate_lem_example = emulate_lem env 0xC0002573 (core_with 1) 10 24 (omega arith) a0_stored

reads_into_a0 : rd_index 0xC0002573 ≡ 10
unfolding rd_index
reads_into_a0 = refl

switching-Completes_example :
    Completes (timer_interrupt env kernel)
    × Completes (software_interrupt env kernel)
    × Completes (syscall_yield env kernel)
switching-Completes_example = switching-Completes env kernel (inl (refl, refl)) well_formed
