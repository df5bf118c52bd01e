-- ===== src/Boot/Examples.antt =====
-- The theorems on boot at a concrete image, with every stack at an address of its own.
use cerberus_os.Base.{
  ℕ, ◌+◌, ◌*◌, ◌%◌, ◌≤◌, ◌≡◌, refl, inl, inr, arith, true, false, List, none, some, Bool,
  Bool-cases, ◌&&◌, ◌==◌, update, ltb, if◌then◌else◌,
}
use cerberus_os.Scheduler.Bitmap as Bitmap
use cerberus_os.Scheduler.Bitmap.{BitMapScheduler}
use cerberus_os.Scheduler.Swap.{is_running}
use cerberus_os.Boot.Tasks.{first_task, no_caps}
use cerberus_os.Security.Bootloader.{
  verify_secure_boot, verify_secure_boot_iff, trusted_payload, expected_hash,
}
use cerberus_os.Trap.Memory.{Memory, read_frame}
use cerberus_os.Trap.State.{hart0, hart1}
use cerberus_os.Trap.Runs.{IsQuiet, start, task}
use cerberus_os.Boot.Image.{Image}
use cerberus_os.Boot.Stack.{
  align, first_sp, first_word, initialize_stack, initialize_stack-Inside, initialize_stack-frame,
}
use cerberus_os.Boot.Start.{start_first_task, IsStarted, start_first_task-IsStarted}
use cerberus_os.Base.Outcome.{panicked, spinning}
use cerberus_os.Boot.Cores.{Machine, Clock, Attempt, Boots, power, is_launched}
use cerberus_os.Boot.Safe.{Reset, power_on}
use cerberus_os.Boot.Life.{begin, traps, lived-IsQuiet}
use cerberus_os.Boot.Launch.{launched-IsVerified, reached-CanLaunch, all_launched}

abbrev pub image : Image
image = record {
  layout = record {
    wd_stack = 0x3FC8_1000;
    a_stack = 0x3FC8_1400;
    b_stack = 0x3FC8_1800;
    c_stack = 0x3FC8_1C00;
    hsm_stack = 0x3FC8_2000;
  };
  idle_stack = λ h. elim h [ hart0 ↦ 0x3FC8_2400 | hart1 ↦ 0x3FC8_2800 ];
  kernel_stack = λ h. elim h [ hart0 ↦ 0x3FC8_3000 | hart1 ↦ 0x3FC8_3400 ];
  trap_entry = 0x4200_0100;
  watchdog_task = 0x4200_1000;
  task_a = 0x4200_2000;
  task_b = 0x4200_3000;
  task_c = 0x4200_4000;
  hsm_task = 0x4200_5000;
  idle_task = 0x4200_6000;
}

abbrev pub off : Reset
off = record {
  memory = λ _. 7;
  csrs = λ _. record { mtvec = 0; mie = 0; mstatus = 0; mcounteren = 0; mscratch = 0 };
  msip = λ _. 0;
  mtimecmp = λ _. 0;
  pmp = λ _. record { addr = λ _. 0; cfg = λ _. 0 };
}

abbrev pub clock : Clock
clock = record { mtime = 5; start_parse = 10; end_parse = 30; start_queue = 40; end_queue = 70 }

abbrev pub sha256 : List ℕ → List ℕ
sha256 bytes = expected_hash

pub passed : verify_secure_boot sha256 ≡ true
passed = (verify_secure_boot_iff sha256).1 refl

initialize_stack-Inside_example :
    let sp = (initialize_stack 0x3FC8_1000 1024 0x4200_1000 (λ _. 7)).0 in
    (sp % 16 ≡ 0) × (0x3FC8_1000 ≤ sp) × (sp + 32 * 4 ≤ 0x3FC8_1000 + 1024)
initialize_stack-Inside_example =
    initialize_stack-Inside 0x3FC8_1000 1024 0x4200_1000 (λ _. 7) (omega arith) (omega arith)

below : first_sp 0x3FC8_1000 1024 ≡ 0x3FC8_1380
unfolding first_sp align
below = refl

initialize_stack-frame_example :
    let made = initialize_stack 0x3FC8_1000 1024 0x4200_1000 (λ _. 7) in
    (read_frame made.1 made.0 28 ≡ first_word 0x4200_1000 28) × (made.1 0x3FC8_1000 ≡ 7)
initialize_stack-frame_example =
    initialize_stack-frame 0x3FC8_1000 1024 0x4200_1000 (λ _. 7) 28 0x3FC8_1000 (omega arith)
      (omega arith) (inr (omega (arith, below)))

abbrev waiting : BitMapScheduler
waiting = record Bitmap.new {
  task_table = update (λ _. none) 3 (some (first_task 4096 3 "Task C" no_caps));
}

none_runs : (j : ℕ) → is_running (waiting.task_table j) ≡ false
none_runs j = elim (Bool-cases (3 == j)) [ inl e ↦ rw e refl | inr e ↦ rw e refl ]

start_first_task-IsStarted_example : IsStarted waiting (start_first_task waiting)
start_first_task-IsStarted_example = start_first_task-IsStarted waiting none_runs

-- A boot from reset to both first tasks.
abbrev pub whole : (b : Machine) × Boots image sha256 (power_on off) b × (all_launched b ≡ true)
whole = let w = reached-CanLaunch image sha256 off clock passed power in (w.3, w.4, w.5)

reached-CanLaunch_example :
    (¬ Attempt image sha256 (power_on off) panicked)
    × (¬ Attempt image sha256 (power_on off) spinning)
    × (0 ≤ 4)
    × (b : Machine) × Boots image sha256 (power_on off) b
    × (all_launched b ≡ true)
reached-CanLaunch_example = reached-CanLaunch image sha256 off clock passed power

-- The statics below 0x3FC80800, and a task that writes 9 to every other byte.
abbrev pub kernel_statics : ℕ → Bool
kernel_statics a = ltb a 0x3FC8_0800

abbrev pub scribbled : Memory → Memory
scribbled m a = if kernel_statics a then m a else 9

pub scribbled-apart : (m : Memory) (a : ℕ) → kernel_statics a ≡ true → scribbled m a ≡ m a
scribbled-apart m a e = rw e refl

-- The boot, and then a task writes to memory.
lived-IsQuiet_example :
    (0 ≤ 2)
    × IsQuiet (record (whole.0).kernel {
      core = record ((whole.0).kernel.core) { memory = scribbled (whole.0).kernel.core.memory };
    })
lived-IsQuiet_example = lived-IsQuiet image sha256 kernel_statics off (whole.1) (whole.2) (
    traps begin (
      task (scribbled (whole.0).kernel.core.memory) start
        (scribbled-apart (whole.0).kernel.core.memory)))

left : (a b : Bool) → (a && b) ≡ true → a ≡ true
left true b e = refl
left false b e = e

launched-IsVerified_example :
    (sha256 trusted_payload ≡ expected_hash)
    × ((whole.0).boot_barrier ≡ true)
    × ((whole.0).core_1_ready ≡ true)
launched-IsVerified_example =
    launched-IsVerified image sha256 off hart0 (whole.1)
      (left (is_launched ((whole.0).stage hart0)) (is_launched ((whole.0).stage hart1)) (whole.2))
