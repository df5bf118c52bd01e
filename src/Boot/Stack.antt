-- ===== src/Boot/Stack.antt =====
-- scheduler/src/tcb.rs: `TaskControlBlock::initialize_stack`, the first frame of a task.
use Prim.Native.Nat.{bit_and}
use cerberus_os.Base.{
  ℕ, zero, suc, ◌+◌, ◌-◌, ◌*◌, ◌/◌, ◌%◌, ◌^◌, ◌<◌, ◌≤◌, ◌≡◌, refl, arith, ◌∙◌, sym, inl, inr,
  dec_lt, Bool-cases, ==_iff, ◌==◌, if◌then◌else◌, subst,
}
use cerberus_os.Trap.Memory.{Memory, read_word, read_frame, write_frame, reg_mepc}
use cerberus_os.Trap.Words.{Apart, write_word-other, read_word-write_word, read_word-other}
use cerberus_os.Base.Digits.{bit_and-lowest, bit_and-mask}

abbrev pub reg_mstatus : ℕ
reg_mstatus = 29

-- `x & !0xF` on a 32-bit word.
unfoldable pub align : ℕ → ℕ
align x = bit_and x (2 ^ 32 - 1 - 0xF)

-- `for i in 0..32 { frame.add(i).write_volatile(0) }`, with `rounds` left.
unfoldable pub clear_frame : ℕ → ℕ → ℕ → Memory → Memory
clear_frame sp zero i m = m
clear_frame sp (suc rounds) i m = clear_frame sp rounds (i + 1) (write_frame m sp i 0)

unfoldable pub first_sp : ℕ → ℕ → ℕ
first_sp start len = (align ((start + len) % 2 ^ 32) + 2 ^ 32 - 32 * 4) % 2 ^ 32

-- The stack pointer, and the new memory.
unfoldable pub initialize_stack : ℕ → ℕ → ℕ → Memory → ℕ × Memory
initialize_stack start len entry m =
    let sp = first_sp start len in
    (sp, write_frame (write_frame (clear_frame sp 32 0 m) sp reg_mepc entry) sp reg_mstatus 0x80)

align_lem : (x : ℕ) → x < 2 ^ 32 → align x ≡ x / 16 * 16
unfolding align
align_lem x h = omega (
  arith,
  bit_and-lowest x 4294967280,
  bit_and-lowest (x / 2) 2147483640,
  bit_and-lowest (x / 2 / 2) 1073741820,
  bit_and-lowest (x / 2 / 2 / 2) 536870910,
  bit_and-mask 28 (x / 2 / 2 / 2 / 2),
)

-- Where the first frame stands: aligned to 16 bytes, and inside the stack.
first_sp_lem :
    (start len : ℕ)
    → start + len < 2 ^ 32
    → 32 * 4 + 15 ≤ len
    → (first_sp start len % 16 ≡ 0)
      × (start ≤ first_sp start len)
      × (first_sp start len + 32 * 4 ≤ start + len)
unfolding first_sp
first_sp_lem start len fits room =
    let e = align_lem ((start + len) % 2 ^ 32) (omega arith) in
    (omega (arith, e), omega (arith, e), omega (arith, e))

module _ (sp : ℕ) where
  clear_frame-below :
      (rounds i j : ℕ) (m : Memory)
      → j < i
      → read_frame (clear_frame sp rounds i m) sp j ≡ read_frame m sp j
  unfolding clear_frame
  clear_frame-below zero i j m lt = refl
  clear_frame-below (suc rounds) i j m lt =
      clear_frame-below rounds (i + 1) j (write_frame m sp i 0) (omega arith)
      ∙ read_word-other m (sp + 4 * i) 0 (sp + 4 * j) (inr (omega arith))

  clear_frame-inside :
      (rounds i j : ℕ) (m : Memory)
      → i ≤ j
      → j < i + rounds
      → read_frame (clear_frame sp rounds i m) sp j ≡ 0
  unfolding clear_frame
  clear_frame-inside zero i j m lo hi = absurd (omega arith)
  clear_frame-inside (suc rounds) i j m lo hi = elim (dec_lt i j) [
    | yes lt ↦
        clear_frame-inside rounds (i + 1) j (write_frame m sp i 0) (omega arith) (omega arith)
    | no ge ↦
        clear_frame-below rounds (i + 1) j (write_frame m sp i 0) (omega arith)
        ∙ subst (λ a. read_word (write_frame m sp i 0) (sp + 4 * a) ≡ 0) (omega arith)
            (read_word-write_word m (sp + 4 * i) 0 (omega arith))
  ]

  clear_frame-outside :
      (rounds i a : ℕ) (m : Memory)
      → Apart (sp + 4 * i) (4 * rounds) a 1
      → clear_frame sp rounds i m a ≡ m a
  unfolding clear_frame
  clear_frame-outside zero i a m h = refl
  clear_frame-outside (suc rounds) i a m h =
      clear_frame-outside rounds (i + 1) a (write_frame m sp i 0) (ground (arith, h))
      ∙ write_word-other m (sp + 4 * i) 0 a (ground (arith, h))

-- What a first frame holds: the entry point as the saved program counter, user mode with interrupts
-- on as the saved status, and 0 in every other register.
abbrev pub first_word : ℕ → ℕ → ℕ
first_word entry j = if j == reg_mepc then entry else if j == reg_mstatus then 0x80 else 0

-- A stack of at least 143 bytes, below the top of the address space: the stack pointer is aligned to
-- 16 bytes, and the frame of 32 words at it lies inside the stack.
pub initialize_stack-Inside :
    (start len entry : ℕ) (m : Memory)
    → start + len < 2 ^ 32
    → 32 * 4 + 15 ≤ len
    → let sp = (initialize_stack start len entry m).0 in
      (sp % 16 ≡ 0) × (start ≤ sp) × (sp + 32 * 4 ≤ start + len)
unfolding initialize_stack
initialize_stack-Inside start len entry m fits room = first_sp_lem start len fits room

-- The frame of a new task: word 28 (the saved program counter) is the entry point, word 29 (the saved
-- status) is 0x80, every other of the 32 words is 0, and no byte outside the frame is written.
pub initialize_stack-frame :
    (start len entry : ℕ) (m : Memory) (j a : ℕ)
    → entry < 2 ^ 32
    → j < 32
    → Apart (first_sp start len) (32 * 4) a 1
    → let made = initialize_stack start len entry m in
      (read_frame made.1 made.0 j ≡ first_word entry j) × (made.1 a ≡ m a)
unfolding initialize_stack
initialize_stack-frame start len entry m j a small lt apart =
    let sp = first_sp start len in
    let cleared = clear_frame sp 32 0 m in
    let based = write_frame cleared sp reg_mepc entry in
    (
      elim (Bool-cases (j == reg_mepc)) [
        | inl e ↦ rw e (
            subst (λ i. read_frame (write_frame based sp reg_mstatus 0x80) sp i ≡ entry)
              (sym ((==_iff j reg_mepc).0 e))
              (read_word-other based (sp + 116) 0x80 (sp + 112) (inr (omega arith))
                ∙ read_word-write_word cleared (sp + 112) entry small))
        | inr ne ↦ rw ne (elim (Bool-cases (j == reg_mstatus)) [
          | inl e ↦ rw e (
              subst (λ i. read_frame (write_frame based sp reg_mstatus 0x80) sp i ≡ 0x80)
                (sym ((==_iff j reg_mstatus).0 e))
                (read_word-write_word based (sp + 116) 0x80 (omega arith)))
          | inr ne' ↦ rw ne' (
              read_word-other based (sp + 116) 0x80 (sp + 4 * j) (ground arith)
              ∙ read_word-other cleared (sp + 112) entry (sp + 4 * j) (ground arith)
              ∙ clear_frame-inside sp 32 0 j m (omega arith) lt)
        ])
      ],
      write_word-other based (sp + 116) 0x80 a (ground (arith, apart))
          ∙ write_word-other cleared (sp + 112) entry a (ground (arith, apart))
          ∙ clear_frame-outside sp 32 0 a m (ground (arith, apart)),
    )
