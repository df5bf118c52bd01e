-- ===== src/Boot/Image.antt =====
-- kernel/src/main.rs: what the linker decides, and the memory protection of a core at boot.
use cerberus_os.Base.{ℕ, ◌*◌, true, false}
use cerberus_os.Base.Outcome.{Outcome, ◌>>=◌}
use cerberus_os.Pmp.Driver.{PmpRegs, PmpConfig, napot, no_access, configure_pmp, Layout}
use cerberus_os.Trap.State.{Hart}

-- The addresses of the stacks and of the code.
pub record Image : Type 0 where
  pub layout : Layout
  pub idle_stack : Hart → ℕ
  pub kernel_stack : Hart → ℕ
  pub trap_entry : ℕ
  pub watchdog_task : ℕ
  pub task_a : ℕ
  pub task_b : ℕ
  pub task_c : ℕ
  pub hsm_task : ℕ
  pub idle_task : ℕ

abbrev pub flash_config : PmpConfig
flash_config = record { read = true; write = false; execute = true; mode = napot; locked = true }

abbrev pub sram_config : PmpConfig
sram_config = record { read = true; write = true; execute = false; mode = napot; locked = false }

-- Flash first, then the five stacks, then the SRAM as a whole.
unfoldable pub init_memory_protection : Layout → PmpRegs → Outcome PmpRegs
init_memory_protection l r0 =
    configure_pmp 0 0x4200_0000 (4 * 1024 * 1024) flash_config r0 >>= λ r1.
    configure_pmp 1 l.wd_stack 1024 (no_access napot) r1 >>= λ r2.
    configure_pmp 2 l.a_stack 1024 (no_access napot) r2 >>= λ r3.
    configure_pmp 4 l.b_stack 1024 (no_access napot) r3 >>= λ r4.
    configure_pmp 5 l.c_stack 1024 (no_access napot) r4 >>= λ r5.
    configure_pmp 6 l.hsm_stack 1024 (no_access napot) r5 >>= λ r6.
    configure_pmp 3 0x3FC8_0000 (512 * 1024) sram_config r6
