-- ===== src/Trap/Memory.antt =====
-- The memory that the trap handler reads and writes through raw pointers: bytes, and 32-bit words of
-- four bytes, the lowest first.
use cerberus_os.Base.{ℕ, ◌+◌, ◌-◌, ◌*◌, ◌/◌, ◌%◌, ◌^◌, ◌&&◌, leb, ltb, ◌==◌, if◌then◌else◌}

abbrev pub Memory : Type 0
Memory = ℕ → ℕ

unfoldable pub read_word : Memory → ℕ → ℕ
read_word m a = m a + 256 * m (a + 1) + 65536 * m (a + 2) + 16777216 * m (a + 3)

unfoldable pub write_word : Memory → ℕ → ℕ → Memory
write_word m a v j =
    if j == a
    then v % 256
    else if j == a + 1
    then v / 256 % 256
    else if j == a + 2
    then v / 65536 % 256
    else if j == a + 3
    then v / 16777216 % 256
    else m j

-- `copy_nonoverlapping(src, dst, len)`
unfoldable pub copy : Memory → ℕ → ℕ → ℕ → Memory
copy m src dst len j = if leb dst j && ltb j (dst + len) then m (src + (j - dst)) else m j

-- Word `i` of the saved register frame at `sp`.
abbrev pub read_frame : Memory → ℕ → ℕ → ℕ
read_frame m sp i = read_word m (sp + 4 * i)

abbrev pub write_frame : Memory → ℕ → ℕ → ℕ → Memory
write_frame m sp i v = write_word m (sp + 4 * i) v

-- Slots of the frame: a7, a0, a1, a2, mepc.
abbrev pub reg_a0 : ℕ
reg_a0 = 6

abbrev pub reg_a1 : ℕ
reg_a1 = 7

abbrev pub reg_a2 : ℕ
reg_a2 = 8

abbrev pub reg_a7 : ℕ
reg_a7 = 13

abbrev pub reg_mepc : ℕ
reg_mepc = 28

-- `-1isize as usize`
abbrev pub minus_one : ℕ
minus_one = 2 ^ 32 - 1
