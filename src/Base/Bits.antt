-- ===== src/Base/Bits.antt =====
-- Bit operations on small ranges, checked value by value and turned into arithmetic.
use Prim.Native.Nat.{ℕ, zero, suc, ◌+◌, ◌*◌, ◌%◌, ◌<◌, bit_and, bit_or}
use mathlib.Core.Path.{◌≡◌, refl}
use mathlib.Core.Bool.{Bool, true, false}
use native.Mathlib.Omega.{arith}
use cerberus_os.Base.Tests.{◌==◌, ==_iff, if◌then◌else◌}

-- Whether a test answers `true` on every number below a bound.
unfoldable pub passes : (ℕ → Bool) → ℕ → Bool
passes test zero = true
passes test (suc k) = if test k then passes test k else false

pub passes_at : (test : ℕ → Bool) (k i : ℕ) → i < k → passes test k ≡ true → test i ≡ true
unfolding passes
passes_at test zero i below all = absurd (omega arith)
passes_at test (suc k) i below all = ground (arith, passes_at test k i)

abbrev masks_nibble : ℕ → Bool
masks_nibble byte = bit_and byte 15 == byte % 16

nibble_run : passes masks_nibble 256 ≡ true
unfolding passes
nibble_run = refl

-- `x & 0x0F` on a byte.
pub bit_and_nibble : (x : ℕ) → x < 256 → bit_and x 15 ≡ x % 16
bit_and_nibble byte small = (==_iff _ _).0 (passes_at masks_nibble 256 byte small nibble_run)

abbrev joins : ℕ → ℕ → Bool
joins a c = bit_or (a * 8) c == a * 8 + c

abbrev joins_all : ℕ → Bool
joins_all a = passes (joins a) 8

join_run : passes joins_all 256 ≡ true
unfolding passes
join_run = refl

-- `(a << 3) | c` with three low bits.
pub bit_or-join : (a c : ℕ) → a < 256 → c < 8 → bit_or (a * 8) c ≡ a * 8 + c
bit_or-join a c a_small c_small =
    (==_iff _ _).0 (passes_at (joins a) 8 c c_small (passes_at joins_all 256 a a_small join_run))
