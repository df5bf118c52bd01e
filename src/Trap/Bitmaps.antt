-- ===== src/Trap/Bitmaps.antt =====
-- kernel/src/trap.rs: `waiters_bitmap` as a set of slots.
use Prim.Native.Nat.{bit_and, bit_or}
use native.Mathlib.Nat.{pow-suc, pow-le-pow_right}
use cerberus_os.Base.{
  ℕ, zero, suc, ◌-◌, ◌/◌, ◌%◌, ◌^◌, ◌<◌, ◌≤◌, ◌≡◌, refl, ◌∙◌, ap, false, not, ◌&&◌, ◌||◌,
  Bool-cases, inl, inr, ◌==◌, ==_iff, if◌then◌else◌, arith,
}
use cerberus_os.Base.Digits.{digit, digit-lt, digit-zero, digit-bit_and, digit-bit_or, digit-ext}
use cerberus_os.Trap.State.{has_waiter, add_waiter, remove_waiter}

digit-pow : (n k : ℕ) → digit (2 ^ n) k ≡ (if n == k then 1 else 0)
unfolding digit
digit-pow zero zero = refl
digit-pow zero (suc k) = digit-zero k ∙ ground arith
digit-pow (suc n) zero = ground (arith, pow-suc 2 n)
digit-pow (suc n) (suc k) =
    ap (λ t. digit t k) (omega (arith, pow-suc 2 n)) ∙ digit-pow n k ∙ ground arith

-- The complement within `n` digits.
digit-complement : (n a k : ℕ) → a < 2 ^ n → k < n → digit (2 ^ n - 1 - a) k ≡ 1 - digit a k
unfolding digit
digit-complement zero a k lt h = absurd (omega arith)
digit-complement (suc n) a zero lt h = omega (arith, pow-suc 2 n)
digit-complement (suc n) a (suc k) lt h =
    ap (λ t. digit t k) (omega (arith, pow-suc 2 n))
    ∙ digit-complement n (a / 2) k (omega (arith, pow-suc 2 n)) (omega arith)

one_bit : (b v k : ℕ) → digit (bit_and b (2 ^ v)) k ≡ (if v == k then digit b k else 0)
one_bit b v k = digit-bit_and b (2 ^ v) k ∙ ground (arith, digit-pow v k, digit-lt b k)

-- The test of a slot's bit reads its digit.
tested : (b v : ℕ) → v < 32 → has_waiter b v ≡ (digit b v == 1)
unfolding has_waiter
tested b v lt =
    let same : v % 32 ≡ v = omega arith in
    rw same (elim (Bool-cases (digit b v == 1)) [
      | inl one ↦ rw one (ground (arith, (==_iff (digit b v) 1).0 one, one_bit b v v, set))
      | inr not_one ↦ rw not_one (
          rw
            (digit-ext (bit_and b (2 ^ v)) 0
              (λ k. ground (arith, one_bit b v k, digit-zero k, digit-lt b v, (==_iff v k).0)))
            refl)
    ])
  where
    set : bit_and b (2 ^ v) ≡ 0 → digit (bit_and b (2 ^ v)) v ≡ 0
    set e = ap (λ t. digit t v) e ∙ digit-zero v

-- A slot waits after an addition if it is the added one or waited before.
pub has-add_waiter :
    (b i v : ℕ) → i < 32 → v < 32 → has_waiter (add_waiter b i) v ≡ (i == v || has_waiter b v)
unfolding add_waiter
has-add_waiter b i v lt lt' = rw (tested b v lt') (
    rw (tested (bit_or b (2 ^ (i % 32))) v lt')
      (ground (arith, digit-bit_or b (2 ^ (i % 32)) v, digit-pow (i % 32) v, digit-lt b v)))

-- And after a removal if it is not the removed one and waited before.
pub has-remove_waiter :
    (b i v : ℕ)
    → i < 32
    → v < 32
    → has_waiter (remove_waiter b i) v ≡ (not (i == v) && has_waiter b v)
unfolding remove_waiter
has-remove_waiter b i v lt lt' =
    let low : 2 ^ (i % 32) ≤ 2 ^ 31 = pow-le-pow_right (omega arith) {j = 31} (omega arith) in
    rw (tested b v lt') (
      rw (tested (bit_and b (2 ^ 32 - 1 - 2 ^ (i % 32))) v lt') (
        ground (
          arith,
          digit-bit_and b (2 ^ 32 - 1 - 2 ^ (i % 32)) v,
          digit-complement 32 (2 ^ (i % 32)) v (omega arith) lt',
          digit-pow (i % 32) v,
          digit-lt b v,
        )))

-- And no slot waits in an empty bitmap.
pub has-nobody : (v : ℕ) → v < 32 → has_waiter 0 v ≡ false
has-nobody v lt = rw (tested 0 v lt) (rw (digit-zero v) refl)
