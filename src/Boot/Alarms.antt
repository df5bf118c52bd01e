-- ===== src/Boot/Alarms.antt =====
-- The theorems on the watchdog and on system calls at a concrete kernel.
use cerberus_os.Base.{
  ◌+◌, ◌%◌, ◌^◌, ◌<◌, ◌≡◌, refl, sym, ap, ◌↔◌, arith, true, Option, none, some, String, update,
}
use cerberus_os.Scheduler.Tcb.{TaskControlBlock, running, terminated}
use cerberus_os.Scheduler.Bitmap.{BitMapScheduler}
use cerberus_os.Scheduler.Bitmap as Bitmap
use cerberus_os.Trap.Memory.{read_frame}
use cerberus_os.Trap.State.{Hart, hart0, hart1, Kernel, Env}
use cerberus_os.Trap.Tables.{AllWellFormed}
use cerberus_os.Trap.Entry.{Regs, entered, frame_sp, trap_entry, sys_terminate_task}
use cerberus_os.Trap.Calls.{terminate, wrapper, meant, Passed, met, HasWords, trap_entry-wrapper}
use cerberus_os.Boot.Tasks.{first_task, no_caps}
use cerberus_os.Boot.Safe.{power_on}
use cerberus_os.Boot.Watchdog.{timed_out, check_task, check_tasks}
use cerberus_os.Boot.Rounds.{timed_out_iff}
use cerberus_os.Boot.Verdict.{
  watch_a, watch_b, watch_c, watch_hsm, IsVerdict, AreNamed, check_tasks-IsVerdict,
}
use cerberus_os.Boot.Examples.{image, off}

-- Core 0 runs the watchdog, with Task A ready and the HSM task terminated; core 1 idles.
abbrev watching : Hart → BitMapScheduler
watching hart0 = record Bitmap.new {
  task_table =
      update
        (update
          (update (λ _. none) 4
            (some (record (first_task 4096 4 "HSM Task" no_caps) { state = terminated })))
          1 (some (first_task 8192 1 "Task A" no_caps)))
        0 (some (record (first_task 12288 0 "Watchdog" no_caps) { state = running }));
}
watching hart1 = record Bitmap.new {
  task_table =
      update (λ _. none) 31
        (some (record (first_task 16384 31 "Idle 1" no_caps) { state = running }));
  current_partition_idx = 31;
}

-- Task A has never checked in, and 2000 ticks are over.
abbrev kernel : Kernel
kernel = record (power_on off).kernel {
  core = record ((power_on off).kernel.core) { scheds = watching; tick_count = 2000 };
}

abbrev env : Env
env = record {
  hart = hart0;
  mcause = 8;
  user_sp = 12000;
  start_cycle = 0;
  end_cycle = 10;
  mcycle = 77;
  cycle = 0;
  mtime = 0;
  layout = image.layout;
}

watching-IsWellFormed : AllWellFormed kernel.core
watching-IsWellFormed hart0 = record {
  in_range = omega arith;
  occupied = (_, refl);
  sole = λ i run. ground arith;
}
watching-IsWellFormed hart1 = record {
  in_range = omega arith;
  occupied = (_, refl);
  sole = λ i run. ground arith;
}

abbrev name_of : Option TaskControlBlock → String
name_of none = ""
name_of (some t) = t.name

watching-AreNamed : AreNamed kernel.core
watching-AreNamed _ _ _ t watch_a e = sym (ap (λ o. name_of o) e)
watching-AreNamed _ _ _ t watch_b e = absurd (cc e)
watching-AreNamed _ _ _ t watch_c e = absurd (cc e)
watching-AreNamed _ _ _ t watch_hsm e = sym (ap (λ o. name_of o) e)

check_tasks-IsVerdict_example : IsVerdict 2000 kernel.core (check_tasks 2000 kernel.core)
check_tasks-IsVerdict_example = check_tasks-IsVerdict 2000 kernel.core watching-AreNamed

-- Task A is the one that is blamed.
blames_a : check_tasks 2000 kernel.core ≡ some "Task A"
unfolding check_tasks check_task timed_out
blames_a = refl

timed_out_iff_example :
    ((timed_out 4_294_967_290 ((4_294_967_290 + 201) % 2 ^ 32) ≡ true) ↔ (200 < 201))
    × ((timed_out 0 1000 ≡ true) ↔ (1000 < 1000))
timed_out_iff_example =
    timed_out_iff 4_294_967_290 201 1000 (λ e. absurd (omega (arith, e))) (omega arith)
      (omega arith)

-- The registers of a task whose stack pointer is 12128.
abbrev task_regs : Regs
task_regs = record { x = update (λ _. 0) 2 12_128; mepc = 0x4200_0200; mstatus = 0x1800 }

low_words : HasWords (wrapper (terminate 1) task_regs)
unfolding sys_terminate_task
low_words = record { regs = λ n. ground arith; mepc = omega arith }

trap_entry-wrapper_example :
    let r = wrapper (terminate 1) task_regs in
    let k' = met env r kernel in
    (trap_entry env r kernel ≡ meant (terminate 1) (entered env r) k')
    × Passed (terminate 1) (read_frame (k'.core).memory (frame_sp r))
trap_entry-wrapper_example = trap_entry-wrapper (terminate 1) env task_regs kernel refl low_words
