-- ===== src/Boot/Cores.antt =====
-- kernel/src/main.rs: `kmain`, the boot of the two cores and the barriers between them.
use Prim.Native.Nat.{bit_or}
use cerberus_os.Base.{
  ℕ, ◌+◌, ◌-◌, ◌%◌, ◌^◌, ◌≡◌, Bool, true, false, List, ◌∷◌, replicate, if◌then◌else◌,
}
use cerberus_os.Base.Outcome.{Outcome, done, ◌>>=◌}
use cerberus_os.Network.Can.{
  CanFrame, CanError, Parsed, blocked_id, invalid_dlc, buffer_full, parse,
}
use cerberus_os.Network.Can as Can
use cerberus_os.Pmp.Driver.{reprogram_pmp_stack}
use cerberus_os.Security.Bootloader.{verify_secure_boot}
use cerberus_os.Trap.Memory.{read_frame, reg_mepc}
use cerberus_os.Trap.State.{Hart, hart0, hart1, set_hart, Core, Kernel}
use cerberus_os.Boot.Image.{Image, init_memory_protection}
use cerberus_os.Boot.Stack.{reg_mstatus}
use cerberus_os.Boot.Start.{start_first_task}
use cerberus_os.Boot.Tasks.{init_tasks}

-- The machine registers that boot writes.
pub record Csrs : Type 0 where
  pub mtvec : ℕ
  pub mie : ℕ
  pub mstatus : ℕ
  pub mcounteren : ℕ
  pub mscratch : ℕ

-- Where a core is: at reset, past its set-up and in front of the scheduler, in its first task (with
-- the program counter, the status and the stack pointer of `mret`), or halted.
pub data Stage : Type 0 where
  reset armed halted : Stage
  launched : (pc status sp : ℕ) → Stage

abbrev pub is_launched : Stage → Bool
is_launched (launched pc status sp) = true
is_launched _ = false

pub record Metrics : Type 0 where
  pub can_parse_cycles : ℕ
  pub can_queue_cycles : ℕ
  pub frames_rx : ℕ
  pub frames_dropped : ℕ

-- The kernel, the registers and the stage of each core, the metrics, `BOOT_BARRIER`, `CORE_1_READY`.
pub record Machine : Type 0 where
  pub kernel : Kernel
  pub csrs : Hart → Csrs
  pub stage : Hart → Stage
  pub metrics : Metrics
  pub boot_barrier : Bool
  pub core_1_ready : Bool

-- What the clocks read during a boot: `mtime`, and `mcycle` around the parser and around the queue.
pub record Clock : Type 0 where
  pub mtime : ℕ
  pub start_parse : ℕ
  pub end_parse : ℕ
  pub start_queue : ℕ
  pub end_queue : ℕ

abbrev pub raw_frame : List ℕ
raw_frame = 0x3E ∷ 0x00 ∷ 4 ∷ 0xAA ∷ 0xBB ∷ 0xCC ∷ 0xDD ∷ replicate 6 0

abbrev pub elapsed : ℕ → ℕ → ℕ
elapsed since now = (now + 2 ^ 32 - since) % 2 ^ 32

-- What the self-test keeps of its frame; the queue that it fills is dropped.
unfoldable pub count_frame : Clock → Parsed → Metrics → Metrics
count_frame k (Can.frame f) m = record m {
  frames_rx = (m.frames_rx + 1) % 2 ^ 32;
  can_queue_cycles = elapsed k.start_queue k.end_queue;
}
count_frame k (Can.error (blocked_id id)) m = record m {
  frames_dropped = (m.frames_dropped + 1) % 2 ^ 32;
}
count_frame k (Can.error (invalid_dlc dlc)) m = m
count_frame k (Can.error buffer_full) m = m

unfoldable pub verify_network_and_security : Clock → Metrics → Metrics
verify_network_and_security k m =
    count_frame k (parse raw_frame)
      (record m { can_parse_cycles = elapsed k.start_parse k.end_parse })

abbrev pub with_core : Machine → Core → Machine
with_core b c = record b { kernel = record (b.kernel) { core = c } }

abbrev pub set_csrs : Hart → Csrs → Machine → Machine
set_csrs h r b = record b { csrs = set_hart b.csrs h r }

abbrev pub set_stage : Hart → Stage → Machine → Machine
set_stage h s b = record b { stage = set_hart b.stage h s }

-- The trap vector, and `init_memory_protection`.
unfoldable pub protect_core : Image → Hart → Machine → Outcome Machine
protect_core img h b =
    let c = b.kernel.core in
    init_memory_protection img.layout (c.pmp h) >>= λ r. done (
      set_csrs h (record (b.csrs h) { mtvec = img.trap_entry })
        (with_core b (record c { pmp = set_hart c.pmp h r })))

-- The first tick after 40000 cycles; the timer interrupt, interrupts and the cycle counter enabled.
unfoldable pub init_timer : Hart → ℕ → Machine → Machine
init_timer h mtime b =
    let c = b.kernel.core in
    let r = b.csrs h in
    set_csrs h
      (record r { mie = bit_or r.mie (2 ^ 7); mstatus = bit_or r.mstatus (2 ^ 3); mcounteren = 1 })
      (with_core b (record c { mtimecmp = set_hart c.mtimecmp h ((mtime + 40_000) % 2 ^ 64) }))

-- Core 0 up to its wait for core 1. The check of a tampered image is only logged.
unfoldable pub boot_core_0 : Image → (List ℕ → List ℕ) → Clock → Machine → Outcome Machine
boot_core_0 img sha256 k b = protect_core img hart0 b >>= λ p.
    if verify_secure_boot sha256
    then (init_tasks img p.kernel.core >>= λ c.
        let tested = record p { metrics = verify_network_and_security k p.metrics } in
        let timed = init_timer hart0 k.mtime (with_core tested c) in
        done (set_stage hart0 armed (record timed { boot_barrier = true })))
    else done (set_stage hart0 halted p)

-- Core 1 from its wait for core 0 on.
unfoldable pub boot_core_1 : Image → Clock → Machine → Outcome Machine
boot_core_1 img k b = protect_core img hart1 b >>= λ p.
    done (set_stage hart1 armed (record (init_timer hart1 k.mtime p) { core_1_ready = true }))

-- `scheds[h].start_first_task(h)` up to the `mret`, with the words of the first frame.
unfoldable pub launch : Image → Hart → Machine → Outcome Machine
launch img h b =
    let c = b.kernel.core in
    start_first_task (c.scheds h) >>= λ (s, t).
    reprogram_pmp_stack img.layout t.name (c.pmp h) >>= λ r.
    let started = record c { scheds = set_hart c.scheds h s; pmp = set_hart c.pmp h r } in
    let sp = t.saved_sp in
    let first =
      launched (read_frame c.memory sp reg_mepc) (read_frame c.memory sp reg_mstatus)
        ((sp + 128) % 2 ^ 32) in
    done (
      set_stage h first (
        set_csrs h (record (b.csrs h) { mscratch = (img.kernel_stack h + 1024) % 2 ^ 32 })
          (with_core b started)))

-- What a core that can go on runs next, and what comes of it.
pub data Attempt (img : Image) (sha256 : List ℕ → List ℕ) (b : Machine)
    : Outcome Machine → Type 0 where
  try_boot_0 :
      {o : Outcome Machine} (k : Clock)
      → b.stage hart0 ≡ reset
      → boot_core_0 img sha256 k b ≡ o
      → Attempt img sha256 b o
  try_boot_1 :
      {o : Outcome Machine} (k : Clock)
      → b.stage hart1 ≡ reset
      → b.boot_barrier ≡ true
      → boot_core_1 img k b ≡ o
      → Attempt img sha256 b o
  try_start_0 :
      {o : Outcome Machine}
      → b.stage hart0 ≡ armed
      → b.core_1_ready ≡ true
      → launch img hart0 b ≡ o
      → Attempt img sha256 b o
  try_start_1 :
      {o : Outcome Machine}
      → b.stage hart1 ≡ armed
      → launch img hart1 b ≡ o
      → Attempt img sha256 b o

-- One core gets one stage further.
pub data Step (img : Image) (sha256 : List ℕ → List ℕ) (b : Machine) : Machine → Type 0 where
  boots_0 :
      {b' : Machine} (k : Clock)
      → b.stage hart0 ≡ reset
      → boot_core_0 img sha256 k b ≡ done b'
      → Step img sha256 b b'
  boots_1 :
      {b' : Machine} (k : Clock)
      → b.stage hart1 ≡ reset
      → b.boot_barrier ≡ true
      → boot_core_1 img k b ≡ done b'
      → Step img sha256 b b'
  starts_0 :
      {b' : Machine}
      → b.stage hart0 ≡ armed
      → b.core_1_ready ≡ true
      → launch img hart0 b ≡ done b'
      → Step img sha256 b b'
  starts_1 :
      {b' : Machine} → b.stage hart1 ≡ armed → launch img hart1 b ≡ done b' → Step img sha256 b b'

pub data Boots (img : Image) (sha256 : List ℕ → List ℕ) (b : Machine) : Machine → Type 0 where
  power : Boots img sha256 b b
  step :
      {b' b'' : Machine} → Boots img sha256 b b' → Step img sha256 b' b'' → Boots img sha256 b b''

abbrev pub steps :
    {img : Image} {sha256 : List ℕ → List ℕ} {b b' : Machine} → Boots img sha256 b b' → ℕ
steps power = 0
steps (step run s) = steps run + 1
