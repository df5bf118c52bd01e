-- ===== src/Boot/DutyExamples.antt =====
-- The theorems on the traps and the rounds of a booted system, at the boot of a concrete image.
use cerberus_os.Base.{update, ap, ◌∙◌, [], replicate, true, false, ◌≡◌, ◌↔◌, refl, arith}
use cerberus_os.Base.Outcome.{Settles, panicked}
use cerberus_os.Base.Ending.{Makes, Ends}
use cerberus_os.Trap.State.{hart0, slot, running_idx, has_waiter, Kernel, Env}
use cerberus_os.Trap.Handler.{trap_handler}
use cerberus_os.Trap.Entry.{Regs}
use cerberus_os.Trap.Calls.{HasWords}
use cerberus_os.Trap.Runs.{IsQuiet, quiet-LocksOpen, start, task}
use cerberus_os.Trap.Roster.{IsManned}
use cerberus_os.Trap.Returns.{Manned}
use cerberus_os.Trap.Returns.Traps.{MayPanic}
use cerberus_os.Trap.Returns.Panics.{trap_handler-panicked_iff}
use cerberus_os.Boot.Launch.{booted-IsQuiet}
use cerberus_os.Boot.Crew.{boot_roster, boot_roster-IsFair}
use cerberus_os.Boot.Post.{booted-IsManned, booted-NoWaiters}
use cerberus_os.Trap.Bitmaps.{has-nobody}
use cerberus_os.Trap.Containment.{is_gone, NotWaiting, IsFreed}
use cerberus_os.Trap.Containment.Faults.{trap_handler-IsFreed}
use cerberus_os.Boot.Life.{begin, traps}
use cerberus_os.Boot.Rounds.{IsRound}
use cerberus_os.Boot.Watchdog.{watchdog_round}
use cerberus_os.Boot.Duty.{watchdog_round-Makes, lived-Ends}
use cerberus_os.Boot.Tasks.{caps_a, caps_b, caps_c, caps_hsm}
use cerberus_os.Boot.Programs.{task_a_round, task_b_round, task_c, yield_loop}
use cerberus_os.Boot.Conduct.{book, recorder, is_proper, has_locked, IsKept, programs_proper}
use cerberus_os.Security.Hsm.{hsm_round}
use cerberus_os.Security.Examples.{toy_layout}
use cerberus_os.Boot.Examples.{
  image, off, sha256, whole, kernel_statics, scribbled, scribbled-apart,
}

-- A system call on core 0.
abbrev call : Env
call = record {
  hart = hart0;
  mcause = 8;
  user_sp = 12000;
  start_cycle = 0;
  end_cycle = 10;
  mcycle = 77;
  cycle = 0;
  mtime = 0;
  layout = image.layout;
}

abbrev booted : Kernel
booted = (whole.0).kernel

whole-IsQuiet : IsQuiet booted
whole-IsQuiet = booted-IsQuiet image sha256 off (whole.1) (whole.2)

whole-IsManned : IsManned boot_roster booted.core
whole-IsManned = booted-IsManned image sha256 off (whole.1) (whole.2)

trap_handler-panicked_iff_example :
    Ends (MayPanic call booted.core) (Manned boot_roster) (trap_handler call booted)
    × ((trap_handler call booted ≡ panicked) ↔ MayPanic call booted.core)
trap_handler-panicked_iff_example =
    trap_handler-panicked_iff boot_roster boot_roster-IsFair call booted
      (quiet-LocksOpen call whole-IsQuiet) whole-IsManned

-- The registers of the watchdog, with the stack pointer at 12128.
abbrev regs : Regs
regs = record { x = update (λ _. 0) 2 12_128; mepc = 0x4200_0200; mstatus = 0x1800 }

low_words : HasWords regs
low_words = record { regs = λ n. ground arith; mepc = omega arith }

watchdog_round-Makes_example :
    Makes
      (λ x. IsRound booted x × IsManned boot_roster (x.1).core)
      (watchdog_round image call regs 0 booted)
watchdog_round-Makes_example =
    watchdog_round-Makes boot_roster boot_roster-IsFair image call regs 0 booted (omega arith) refl
      refl low_words whole-IsQuiet whole-IsManned

-- The boot, a write of a task to memory outside the statics, and then a system call.
abbrev written : Kernel
written = record booted { core = record (booted.core) { memory = scribbled booted.core.memory } }

lived-Ends_example :
    Ends (MayPanic call written.core) (Manned boot_roster) (trap_handler call written)
    × ((trap_handler call written ≡ panicked) ↔ MayPanic call written.core)
lived-Ends_example =
    lived-Ends image sha256 kernel_statics off call (whole.1) (whole.2)
      (traps begin (task (scribbled booted.core.memory) start (scribbled-apart booted.core.memory)))

-- A kernel that answers 8 to every call, with 8 bytes in every buffer.
programs_proper_example :
    let book_8 = book (λ log. 8) (λ log. replicate 8 0) in
    let log_a = (task_a_round book_8 toy_layout 9 []).2 in
    let log_c = yield_loop book_8 3 ((task_c book_8 0 []).1) in
    ((is_proper caps_a log_a ≡ true) × (has_locked 0 log_a ≡ false))
    × IsKept caps_b [] ((task_b_round book_8 9 [] []).2)
    × ((is_proper caps_c log_c ≡ true) × (has_locked 0 log_c ≡ false))
    × Settles
        (λ r. IsKept caps_hsm [] (r.1))
        (hsm_round sha256 (recorder (λ log. 8) (λ log. replicate 8 0)) toy_layout [] [])
programs_proper_example =
    programs_proper (λ log. 8) (λ log. replicate 8 0) toy_layout sha256 9 0 3 [] []

-- A load access fault in the first task of core 0.
abbrev fault : Env
fault = record call { mcause = 5 }

nobody_waits : NotWaiting (running_idx hart0 booted.core) booted.core
nobody_waits x m e =
    ap (λ b. has_waiter b (running_idx hart0 booted.core))
      (booted-NoWaiters image sha256 off (whole.1) x m e)
    ∙ has-nobody (running_idx hart0 booted.core) ((whole-IsManned.tables hart0).in_range)

trap_handler-IsFreed_example :
    let i = running_idx hart0 booted.core in
    Makes
      (λ r. (is_gone (slot ((r.1).core) hart0 i) ≡ true) × IsFreed i 8 ((r.1).core))
      (trap_handler fault booted)
trap_handler-IsFreed_example =
    trap_handler-IsFreed boot_roster boot_roster-IsFair fault booted refl refl
      (quiet-LocksOpen fault whole-IsQuiet) whole-IsManned nobody_waits
