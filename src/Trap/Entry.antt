-- ===== src/Trap/Entry.antt =====
-- kernel/src/trap_entry.s, telemetry/src/syscalls.rs and the wrappers of kernel/src/main.rs: the
-- registers of a system call, and the frame in which the trap entry saves them.
use cerberus_os.Base.{ℕ, ◌+◌, ◌-◌, ◌%◌, ◌^◌, List, [], ◌∷◌, update}
use cerberus_os.Base.Outcome.{Outcome}
use cerberus_os.Trap.Memory.{Memory, write_word}
use cerberus_os.Trap.State.{Kernel, Env, Resumed}
use cerberus_os.Trap.Handler.{trap_handler}

-- What a task leaves to a trap: its registers, `x n` the register with number n of the RISC-V
-- calling convention (x1 ra, x2 sp, x5 to x7 t0 to t2, x8 and x9 s0 and s1, x10 to x17 a0 to a7, x18 to
-- x27 s2 to s11, x28 to x31 t3 to t6), and the saved program counter and status.
pub record Regs : Type 0 where
  pub x : ℕ → ℕ
  pub mepc : ℕ
  pub mstatus : ℕ

-- The stores of registers into the frame, in their order: the number of the register, and the offset
-- in bytes.
abbrev pub stores : List (ℕ × ℕ)
stores =
    (1, 0)
    ∷ (5, 4)
    ∷ (6, 8)
    ∷ (7, 12)
    ∷ (8, 16)
    ∷ (9, 20)
    ∷ (10, 24)
    ∷ (11, 28)
    ∷ (12, 32)
    ∷ (13, 36)
    ∷ (14, 40)
    ∷ (15, 44)
    ∷ (16, 48)
    ∷ (17, 52)
    ∷ (18, 56)
    ∷ (19, 60)
    ∷ (20, 64)
    ∷ (21, 68)
    ∷ (22, 72)
    ∷ (23, 76)
    ∷ (24, 80)
    ∷ (25, 84)
    ∷ (26, 88)
    ∷ (27, 92)
    ∷ (28, 96)
    ∷ (29, 100)
    ∷ (30, 104)
    ∷ (31, 108)
    ∷ []

unfoldable pub save_regs : List (ℕ × ℕ) → (ℕ → ℕ) → ℕ → Memory → Memory
save_regs [] x sp m = m
save_regs ((n, o) ∷ rest) x sp m = save_regs rest x sp (write_word m (sp + o) (x n))

-- The registers, `mepc` and `mstatus`.
unfoldable pub save_frame : Regs → ℕ → Memory → Memory
save_frame r sp m =
    write_word (write_word (save_regs stores r.x sp m) (sp + 112) r.mepc) (sp + 116) r.mstatus

-- `addi sp, sp, -128`
abbrev pub frame_sp : Regs → ℕ
frame_sp r = (r.x 2 + 2 ^ 32 - 128) % 2 ^ 32

-- What the handler gets: the stack pointer of the frame, and the frame in memory.
abbrev pub entered : Env → Regs → Env
entered env r = record env { user_sp = frame_sp r }

abbrev pub saved : Regs → Kernel → Kernel
saved r k = record k { core = record (k.core) { memory = save_frame r (frame_sp r) k.core.memory } }

-- The trap entry: the frame below the stack pointer of the task, then the handler.
unfoldable pub trap_entry : Env → Regs → Kernel → Outcome Resumed
trap_entry env r k = trap_handler (entered env r) (saved r k)

-- `li` and the moves into argument registers.
abbrev pub load_reg : ℕ → ℕ → Regs → Regs
load_reg n v r = record r { x = update r.x n v }

-- The wrappers: what each loads into the registers before its `ecall`, with the call in a7.
unfoldable pub yield_now : Regs → Regs
yield_now r = load_reg 17 1 r

unfoldable pub sleep_ticks : ℕ → Regs → Regs
sleep_ticks ticks r = load_reg 10 ticks (load_reg 17 2 r)

unfoldable pub lock_mutex : ℕ → Regs → Regs
lock_mutex idx r = load_reg 10 idx (load_reg 17 3 r)

unfoldable pub unlock_mutex : ℕ → Regs → Regs
unlock_mutex idx r = load_reg 10 idx (load_reg 17 4 r)

unfoldable pub watchdog_checkin : Regs → Regs
watchdog_checkin r = load_reg 17 5 r

unfoldable pub sys_send : ℕ → ℕ → ℕ → Regs → Regs
sys_send cap_idx ptr len r =
    load_reg 12 len (load_reg 11 ptr (load_reg 10 cap_idx (load_reg 17 6 r)))

unfoldable pub sys_recv : ℕ → ℕ → ℕ → Regs → Regs
sys_recv cap_idx ptr len r =
    load_reg 12 len (load_reg 11 ptr (load_reg 10 cap_idx (load_reg 17 7 r)))

unfoldable pub sys_terminate_task : ℕ → Regs → Regs
sys_terminate_task prio r = load_reg 10 prio (load_reg 17 8 r)
