-- ===== src/Pmp/Driver.antt =====
-- kernel/src/memory/pmp.rs: `PmpConfig`, `configure_pmp` and `reprogram_pmp_stack`. The registers
-- of one hart are a record; a CSR write stores what the instruction is given.
use Prim.Native.Nat.{bit_and, bit_or}
pub use text.Mathlib.Text.{◌==◌ as str_eq}
use cerberus_os.Base.{
  ℕ, ◌+◌, ◌-◌, ◌*◌, ◌/◌, ◌%◌, ◌^◌, Bool, false, List, [], ◌∷◌, String, ltb, if◌then◌else◌, update,
}
use cerberus_os.Base.Outcome.{Outcome, done, ◌>>=◌, assert}

pub data PmpAddressMode : Type 0 where
  off tor na4 napot : PmpAddressMode

pub record PmpConfig : Type 0 where
  pub read : Bool
  pub write : Bool
  pub execute : Bool
  pub mode : PmpAddressMode
  pub locked : Bool

-- `mode as u8`
abbrev pub mode_code : PmpAddressMode → ℕ
mode_code off = 0
mode_code tor = 1
mode_code na4 = 2
mode_code napot = 3

abbrev or_if : Bool → ℕ → ℕ → ℕ
or_if flag bit val = if flag then bit_or val bit else val

unfoldable pub to_byte : PmpConfig → ℕ
to_byte c =
    let val = or_if c.execute (2 ^ 2) (or_if c.write (2 ^ 1) (or_if c.read (2 ^ 0) 0)) in
    or_if c.locked (2 ^ 7) (bit_or val (mode_code c.mode * 2 ^ 3))

-- The registers `pmpaddr0`..`pmpaddr6`, `pmpcfg0` and `pmpcfg1` of a hart.
pub record PmpRegs : Type 0 where
  pub addr : ℕ → ℕ
  pub cfg : ℕ → ℕ

-- `(base_addr >> 2) | ((size / 2 - 1) >> 2)`, the subtraction on a 32-bit word.
unfoldable pub napot_value : ℕ → ℕ → ℕ
napot_value base size = bit_or (base / 2 ^ 2) ((size / 2 + 2 ^ 32 - 1) % 2 ^ 32 / 2 ^ 2)

-- `(reg & !(0xFF << shift)) | (byte << shift)` on a 32-bit word.
unfoldable pub replace_byte : ℕ → ℕ → ℕ → ℕ
replace_byte reg shift byte =
    bit_or (bit_and reg (2 ^ 32 - 1 - 0xFF * 2 ^ shift)) (byte * 2 ^ shift)

unfoldable pub configure_pmp : ℕ → ℕ → ℕ → PmpConfig → PmpRegs → Outcome PmpRegs
configure_pmp entry base size c r =
    let bank = entry / 4 in
    assert (ltb entry 7) (
      done (record {
        addr = update r.addr entry (napot_value base size);
        cfg = update r.cfg bank (replace_byte (r.cfg bank) (entry % 4 * 8) (to_byte c));
      }))

-- Where the linker put the five guarded stacks.
pub record Layout : Type 0 where
  pub wd_stack : ℕ
  pub a_stack : ℕ
  pub b_stack : ℕ
  pub c_stack : ℕ
  pub hsm_stack : ℕ

-- `(name, address, entry)` of each guarded stack, in the order of the loop.
pub record Guard : Type 0 where
  pub name : String
  pub stack : ℕ
  pub entry : ℕ

abbrev pub guards : Layout → List Guard
guards l =
    record { name = "Watchdog"; stack = l.wd_stack; entry = 1 }
    ∷ record { name = "Task A"; stack = l.a_stack; entry = 2 }
    ∷ record { name = "Task B"; stack = l.b_stack; entry = 4 }
    ∷ record { name = "Task C"; stack = l.c_stack; entry = 5 }
    ∷ record { name = "HSM Task"; stack = l.hsm_stack; entry = 6 }
    ∷ []

abbrev pub no_access : PmpAddressMode → PmpConfig
no_access m = record { read = false; write = false; execute = false; mode = m; locked = false }

unfoldable pub guard_stack : String → Guard → PmpRegs → Outcome PmpRegs
guard_stack active g r =
    if str_eq g.name active
    then configure_pmp g.entry 0 1024 (no_access off) r
    else configure_pmp g.entry g.stack 1024 (no_access napot) r

unfoldable pub guard_stacks : String → List Guard → PmpRegs → Outcome PmpRegs
guard_stacks active [] r = done r
guard_stacks active (g ∷ gs) r = guard_stack active g r >>= λ r'. guard_stacks active gs r'

unfoldable pub reprogram_pmp_stack : Layout → String → PmpRegs → Outcome PmpRegs
unfolding guard_stacks
reprogram_pmp_stack l active r = guard_stacks active (guards l) r
