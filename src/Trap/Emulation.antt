-- ===== src/Trap/Emulation.antt =====
-- kernel/src/trap.rs: the emulation of reads of the cycle counters from user mode.
use Prim.Native.Nat.{bit_and}
use cerberus_os.Base.{
  ℕ, ◌+◌, ◌-◌, ◌/◌, ◌%◌, ◌^◌, Bool, ◌&&◌, ◌||◌, Option, none, some, leb, ◌==◌, if◌then◌else◌,
}
use cerberus_os.Trap.Memory.{Memory, read_frame, write_frame, reg_mepc}
use cerberus_os.Trap.State.{Core, Env}

-- `(instruction & 0x7F) == 0x73 && (csr == 0xC00 || csr == 0xB00)`
unfoldable pub reads_counter : ℕ → Bool
reads_counter instruction =
    let csr = instruction / 2 ^ 20 in
    bit_and instruction 0x7F == 0x73 && (csr == 0xC00 || csr == 0xB00)

-- `(instruction >> 7) & 0x1F`
unfoldable pub rd_index : ℕ → ℕ
rd_index instruction = bit_and (instruction / 2 ^ 7) 0x1F

-- The word of the saved frame that holds register `rd`: the table of the code is 1 ↦ 0 and
-- 5 ↦ 1, 6 ↦ 2, …, 31 ↦ 27, and nothing else.
unfoldable pub frame_idx : ℕ → Option ℕ
frame_idx rd = if rd == 1 then some 0 else if leb 5 rd && leb rd 31 then some (rd - 4) else none

abbrev pub put_result : Option ℕ → ℕ → ℕ → Memory → Memory
put_result none sp v m = m
put_result (some i) sp v m = write_frame m sp i v

-- The destination gets the counter, and the instruction is skipped.
unfoldable pub emulate : Env → ℕ → Core → Core
emulate env instruction c =
    let sp = env.user_sp in
    let mepc = read_frame c.memory sp reg_mepc in
    record c {
      memory =
          write_frame (put_result (frame_idx (rd_index instruction)) sp env.mcycle c.memory) sp
            reg_mepc ((mepc + 4) % 2 ^ 32);
    }
