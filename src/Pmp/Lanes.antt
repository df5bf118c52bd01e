-- ===== src/Pmp/Lanes.antt =====
-- kernel/src/memory/pmp.rs: the bytes of a configuration register.
use Prim.Native.Nat.{bit_and, bit_or}
use cerberus_os.Base.{
  ℕ, zero, suc, ◌+◌, ◌-◌, ◌*◌, ◌/◌, ◌%◌, ◌^◌, ◌<◌, ◌≡◌, ◌∙◌, ap, ap₂, arith, ◌==◌, if◌then◌else◌,
}
use cerberus_os.Base.Digits.{
  bit_and-zero, bit_or-zero, bit_or-fields, bit_and-parts, bit_or-parts, low_part,
}
use native.Mathlib.Nat.{one-le-pow}
use cerberus_os.Pmp.Driver.{replace_byte}

-- Byte `i` of a register.
abbrev pub lane : ℕ → ℕ → ℕ
lane w i = w / 2 ^ (i * 8) % 256

-- A mask that clears the byte above the `s` low bits, and the byte put in its place.
module _ (n s h x lo b : ℕ) (high : h < 2 ^ n) (mid : x < 256) (low : lo < 2 ^ s)
    (byte : b < 256) where
  kept : bit_and h (2 ^ n - 1) ≡ h
  kept = ap (λ t. bit_and t (2 ^ n - 1)) (omega arith) ∙ low_part n 0 h high

  cleared :
      bit_and ((h * 256 + x) * 2 ^ s + lo) (((2 ^ n - 1) * 256 + 0) * 2 ^ s + (2 ^ s - 1))
      ≡ h * 256 * 2 ^ s + lo
  cleared =
      bit_and-parts s (h * 256 + x) lo ((2 ^ n - 1) * 256 + 0) (2 ^ s - 1) low
        (omega (arith, one-le-pow s 2))
      ∙ ap₂ (λ p q. p * 2 ^ s + q)
          (bit_and-parts 8 h x (2 ^ n - 1) 0 mid (omega arith)
            ∙ ap₂ (λ p q. p * 256 + q) kept (bit_and-zero x)
            ∙ omega arith)
          (ap (λ t. bit_and t (2 ^ s - 1)) (omega arith) ∙ low_part s 0 lo low)

  replaced :
      bit_or
        (bit_and ((h * 256 + x) * 2 ^ s + lo) (((2 ^ n - 1) * 256 + 0) * 2 ^ s + (2 ^ s - 1)))
        (b * 2 ^ s)
      ≡ (h * 256 + b) * 2 ^ s + lo
  replaced =
      ap₂ bit_or cleared (omega arith)
      ∙ bit_or-parts s (h * 256) lo b 0 low (omega (arith, one-le-pow s 2))
      ∙ ap₂ (λ p q. p * 2 ^ s + q) (bit_or-fields 8 h b byte) (bit_or-zero lo)

-- Byte `i` of a 32-bit register replaced, and the bytes beside it kept.
replace_byte_lem :
    (i w b : ℕ)
    → i < 4
    → w < 2 ^ 32
    → b < 256
    → replace_byte w (i * 8) b ≡ (w / 2 ^ (i * 8 + 8) * 256 + b) * 2 ^ (i * 8) + w % 2 ^ (i * 8)
unfolding replace_byte
replace_byte_lem zero w b lt h h' =
    ap (λ v. bit_or (bit_and v 0xFFFF_FF00) (b * 1)) (omega arith)
    ∙ replaced 24 0 (w / 256) (w % 256) (w % 1) b (omega arith) (omega arith) (omega arith) h'
replace_byte_lem (suc zero) w b lt h h' =
    ap (λ v. bit_or (bit_and v 0xFFFF_00FF) (b * 256)) (omega arith)
    ∙ replaced 16 8 (w / 65536) (w / 256 % 256) (w % 256) b (omega arith) (omega arith)
        (omega arith) h'
replace_byte_lem (suc (suc zero)) w b lt h h' =
    ap (λ v. bit_or (bit_and v 0xFF00_FFFF) (b * 65536)) (omega arith)
    ∙ replaced 8 16 (w / 16777216) (w / 65536 % 256) (w % 65536) b (omega arith) (omega arith)
        (omega arith) h'
replace_byte_lem (suc (suc (suc zero))) w b lt h h' =
    ap (λ v. bit_or (bit_and v 0x00FF_FFFF) (b * 16777216)) (omega arith)
    ∙ replaced 0 24 (w / 4294967296) (w / 16777216 % 256) (w % 16777216) b (omega arith)
        (omega arith) (omega arith) h'
replace_byte_lem (suc (suc (suc (suc i)))) w b lt h h' = absurd (omega arith)

module _ (w b : ℕ) (h : w < 2 ^ 32) (h' : b < 256) where
  with_byte : ℕ → ℕ
  with_byte i = (w / 2 ^ (i * 8 + 8) * 256 + b) * 2 ^ (i * 8) + w % 2 ^ (i * 8)

  lanes : (i j : ℕ) → i < 4 → j < 4 → lane (with_byte i) j ≡ (if i == j then b else lane w j)
  unfolding with_byte
  lanes zero zero lt lt' = omega arith
  lanes zero (suc zero) lt lt' = omega arith
  lanes zero (suc (suc zero)) lt lt' = omega arith
  lanes zero (suc (suc (suc zero))) lt lt' = omega arith
  lanes (suc zero) zero lt lt' = omega arith
  lanes (suc zero) (suc zero) lt lt' = omega arith
  lanes (suc zero) (suc (suc zero)) lt lt' = omega arith
  lanes (suc zero) (suc (suc (suc zero))) lt lt' = omega arith
  lanes (suc (suc zero)) zero lt lt' = omega arith
  lanes (suc (suc zero)) (suc zero) lt lt' = omega arith
  lanes (suc (suc zero)) (suc (suc zero)) lt lt' = omega arith
  lanes (suc (suc zero)) (suc (suc (suc zero))) lt lt' = omega arith
  lanes (suc (suc (suc zero))) zero lt lt' = omega arith
  lanes (suc (suc (suc zero))) (suc zero) lt lt' = omega arith
  lanes (suc (suc (suc zero))) (suc (suc zero)) lt lt' = omega arith
  lanes (suc (suc (suc zero))) (suc (suc (suc zero))) lt lt' = omega arith
  lanes (suc (suc (suc (suc i)))) j lt lt' = absurd (omega arith)
  lanes i (suc (suc (suc (suc j)))) lt lt' = absurd (omega arith)

  bounded : (i : ℕ) → i < 4 → with_byte i < 2 ^ 32
  unfolding with_byte
  bounded zero lt = omega arith
  bounded (suc zero) lt = omega arith
  bounded (suc (suc zero)) lt = omega arith
  bounded (suc (suc (suc zero))) lt = omega arith
  bounded (suc (suc (suc (suc i)))) lt = absurd (omega arith)

  -- What a replacement does to each byte.
  pub replace_byte-lane :
      (i j : ℕ)
      → i < 4
      → j < 4
      → (replace_byte w (i * 8) b < 2 ^ 32)
        × (lane (replace_byte w (i * 8) b) j ≡ (if i == j then b else lane w j))
  unfolding with_byte
  replace_byte-lane i j lt lt' =
      rw (replace_byte_lem i w b lt h h') (bounded i lt, lanes i j lt lt')
