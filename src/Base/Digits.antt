-- ===== src/Base/Digits.antt =====
-- Bit operations at variables, through their lowest digit.
use Prim.Native.Nat.{
  ℕ, zero, suc, ◌+◌, ◌-◌, ◌*◌, ◌/◌, ◌%◌, ◌^◌, ◌≤◌, ◌<◌, min, max, differ, digits, bitwise, bit_and,
  bit_or, bit_xor, bit_and-bitwise, bit_or-bitwise, bit_xor-bitwise,
}
use mathlib.Core.Path.{◌≡◌, refl, ap, ◌∙◌, sym}
use native.Mathlib.Nat.{pow-suc, one-le-pow}
use native.Mathlib.Omega.{arith}

-- The count of digits to go does not matter once it covers the first number.
module _ (rest : ℕ → ℕ) (f : ℕ → ℕ → ℕ) where
  spent : (n b : ℕ) → digits rest f n 0 b ≡ rest b
  spent zero b = refl
  spent (suc n) b = refl

  covered : (n m a b : ℕ) → a ≤ n → a ≤ m → digits rest f n a b ≡ digits rest f m a b
  covered n m zero b p q = spent n b ∙ sym (spent m b)
  covered zero m (suc a) b p q = absurd (omega arith)
  covered (suc n) zero (suc a) b p q = absurd (omega arith)
  covered (suc n) (suc m) (suc a) b p q =
      ap (λ t. t * 2 + f (suc a % 2) (b % 2))
        (covered n m (suc a / 2) (b / 2) (omega arith) (omega arith))

  lowest :
      (a b : ℕ)
      → bitwise rest f (suc a) b ≡ bitwise rest f (suc a / 2) (b / 2) * 2 + f (suc a % 2) (b % 2)
  lowest a b =
      ap (λ t. t * 2 + f (suc a % 2) (b % 2))
        (covered a (suc a / 2) (suc a / 2) (b / 2) (omega arith) (omega arith))

pub bit_and-lowest : (a b : ℕ) → bit_and a b ≡ bit_and (a / 2) (b / 2) * 2 + min (a % 2) (b % 2)
bit_and-lowest zero b = omega (arith, bit_and-bitwise 0 b, bit_and-bitwise 0 (b / 2))
bit_and-lowest (suc a) b =
    omega (
      arith,
      bit_and-bitwise (suc a) b,
      bit_and-bitwise (suc a / 2) (b / 2),
      lowest (λ b. 0) min a b,
    )

pub bit_or-lowest : (a b : ℕ) → bit_or a b ≡ bit_or (a / 2) (b / 2) * 2 + max (a % 2) (b % 2)
bit_or-lowest zero b = omega (arith, bit_or-bitwise 0 b, bit_or-bitwise 0 (b / 2))
bit_or-lowest (suc a) b =
    omega
      (arith, bit_or-bitwise (suc a) b, bit_or-bitwise (suc a / 2) (b / 2), lowest (λ b. b) max a b)

pub bit_xor-lowest : (a b : ℕ) → bit_xor a b ≡ bit_xor (a / 2) (b / 2) * 2 + differ (a % 2) (b % 2)
bit_xor-lowest zero b = omega (arith, bit_xor-bitwise 0 b, bit_xor-bitwise 0 (b / 2))
bit_xor-lowest (suc a) b = omega (
  arith,
  bit_xor-bitwise (suc a) b,
  bit_xor-bitwise (suc a / 2) (b / 2),
  lowest (λ b. b) differ a b,
)

-- Digit `k` of a number.
unfoldable pub digit : ℕ → ℕ → ℕ
digit a zero = a % 2
digit a (suc k) = digit (a / 2) k

pub digit-lt : (a k : ℕ) → digit a k < 2
unfolding digit
digit-lt a zero = omega arith
digit-lt a (suc k) = digit-lt (a / 2) k

pub digit-zero : (k : ℕ) → digit 0 k ≡ 0
unfolding digit
digit-zero zero = refl
digit-zero (suc k) = digit-zero k

pub digit-bit_and : (a b k : ℕ) → digit (bit_and a b) k ≡ min (digit a k) (digit b k)
unfolding digit
digit-bit_and a b zero = omega (arith, bit_and-lowest a b)
digit-bit_and a b (suc k) =
    ap (λ t. digit t k) (half (bit_and-lowest a b)) ∙ digit-bit_and (a / 2) (b / 2) k
  where
    half : {t u : ℕ} → t ≡ u * 2 + min (a % 2) (b % 2) → t / 2 ≡ u
    half e = omega arith

pub digit-bit_or : (a b k : ℕ) → digit (bit_or a b) k ≡ max (digit a k) (digit b k)
unfolding digit
digit-bit_or a b zero = omega (arith, bit_or-lowest a b)
digit-bit_or a b (suc k) =
    ap (λ t. digit t k) (half (bit_or-lowest a b)) ∙ digit-bit_or (a / 2) (b / 2) k
  where
    half : {t u : ℕ} → t ≡ u * 2 + max (a % 2) (b % 2) → t / 2 ≡ u
    half e = omega arith

-- Numbers with the same digits are the same.
digit-ext_upto : (n a b : ℕ) → a ≤ n → b ≤ n → ((k : ℕ) → digit a k ≡ digit b k) → a ≡ b
unfolding digit
digit-ext_upto zero a b p q h = omega arith
digit-ext_upto (suc n) a b p q h =
    omega
      (arith, h 0, digit-ext_upto n (a / 2) (b / 2) (omega arith) (omega arith) (λ k. h (suc k)))

pub digit-ext : (a b : ℕ) → ((k : ℕ) → digit a k ≡ digit b k) → a ≡ b
digit-ext a b h = digit-ext_upto (a + b) a b (omega arith) (omega arith) h

pub bit_and-zero : (a : ℕ) → bit_and a 0 ≡ 0
bit_and-zero a = digit-ext (bit_and a 0) 0 (λ k. omega (arith, digit-bit_and a 0 k, digit-zero k))

pub bit_or-zero : (a : ℕ) → bit_or a 0 ≡ a
bit_or-zero a = digit-ext (bit_or a 0) a (λ k. omega (arith, digit-bit_or a 0 k, digit-zero k))

twice_scaled : (q n : ℕ) → q * 2 ^ suc n ≡ q * 2 ^ n * 2
twice_scaled q n = omega (arith, ap (λ t. q * t) (pow-suc 2 n))

pub low_part : (n q r : ℕ) → r < 2 ^ n → bit_and (q * 2 ^ n + r) (2 ^ n - 1) ≡ r
low_part zero q r h = omega (arith, bit_and-zero (q * 1 + r))
low_part (suc n) q r h = ground (
  arith,
  bit_and-lowest (q * 2 ^ suc n + r) (2 ^ suc n - 1),
  twice_scaled q n,
  pow-suc 2 n,
  low_part n q (r / 2) (omega (arith, pow-suc 2 n)),
)

-- A mask of `n` ones keeps the remainder.
pub bit_and-mask : (n a : ℕ) → bit_and a (2 ^ n - 1) ≡ a % 2 ^ n
bit_and-mask n a = ground (arith, one-le-pow n 2, low_part n (a / 2 ^ n) (a % 2 ^ n))

-- A high part beside `n` low bits.
pub bit_or-fields : (n q r : ℕ) → r < 2 ^ n → bit_or (q * 2 ^ n) r ≡ q * 2 ^ n + r
bit_or-fields zero q r h = ground (arith, bit_or-zero q)
bit_or-fields (suc n) q r h = ground (
  arith,
  bit_or-lowest (q * 2 ^ suc n) r,
  twice_scaled q n,
  pow-suc 2 n,
  bit_or-fields n q (r / 2) (omega (arith, pow-suc 2 n)),
)

-- The low `n` bits and the others, apart.
pub bit_and-parts :
    (n q r q' r' : ℕ)
    → r < 2 ^ n
    → r' < 2 ^ n
    → bit_and (q * 2 ^ n + r) (q' * 2 ^ n + r') ≡ bit_and q q' * 2 ^ n + bit_and r r'
bit_and-parts zero q r q' r' h h' = ground (arith, bit_and-zero 0)
bit_and-parts (suc n) q r q' r' h h' = ground (
  arith,
  bit_and-lowest (q * 2 ^ suc n + r) (q' * 2 ^ suc n + r'),
  bit_and-lowest r r',
  twice_scaled q n,
  twice_scaled q' n,
  twice_scaled (bit_and q q') n,
  pow-suc 2 n,
  bit_and-parts n q (r / 2) q' (r' / 2) (omega (arith, pow-suc 2 n)) (omega (arith, pow-suc 2 n)),
)

pub bit_or-parts :
    (n q r q' r' : ℕ)
    → r < 2 ^ n
    → r' < 2 ^ n
    → bit_or (q * 2 ^ n + r) (q' * 2 ^ n + r') ≡ bit_or q q' * 2 ^ n + bit_or r r'
bit_or-parts zero q r q' r' h h' = ground (arith, bit_or-zero 0)
bit_or-parts (suc n) q r q' r' h h' = ground (
  arith,
  bit_or-lowest (q * 2 ^ suc n + r) (q' * 2 ^ suc n + r'),
  bit_or-lowest r r',
  twice_scaled q n,
  twice_scaled q' n,
  twice_scaled (bit_or q q') n,
  pow-suc 2 n,
  bit_or-parts n q (r / 2) q' (r' / 2) (omega (arith, pow-suc 2 n)) (omega (arith, pow-suc 2 n)),
)

differ-zero : (x y : ℕ) → x < 2 → y < 2 → differ x y ≡ 0 → x ≡ y
differ-zero zero y p q e = sym e
differ-zero (suc zero) zero p q e = absurd (omega arith)
differ-zero (suc zero) (suc y) p q e = omega arith
differ-zero (suc (suc x)) y p q e = absurd (omega arith)

xor_zero_upto : (n a b : ℕ) → a ≤ n → b ≤ n → bit_xor a b ≡ 0 → a ≡ b
xor_zero_upto zero a b p q e = omega arith
xor_zero_upto (suc n) a b p q e = omega (
  arith,
  differ-zero (a % 2) (b % 2) (omega arith) (omega arith) (omega (arith, bit_xor-lowest a b)),
  xor_zero_upto n (a / 2) (b / 2) (omega arith) (omega arith) (omega (arith, bit_xor-lowest a b)),
)

-- The exclusive or of two numbers is 0 only if they are the same.
pub bit_xor-eq : (a b : ℕ) → bit_xor a b ≡ 0 → a ≡ b
bit_xor-eq a b e = xor_zero_upto (a + b) a b (omega arith) (omega arith) e

pub bit_xor_self : (a : ℕ) → bit_xor a a ≡ 0
bit_xor_self a = self_upto a a (omega arith)
  where
    differ_self : (x : ℕ) → differ x x ≡ 0
    differ_self zero = refl
    differ_self (suc x) = differ_self x

    self_upto : (n x : ℕ) → x ≤ n → bit_xor x x ≡ 0
    self_upto n zero p = refl
    self_upto zero (suc x) p = absurd (omega arith)
    self_upto (suc n) (suc x) p = omega (
      arith,
      bit_xor-lowest (suc x) (suc x),
      differ_self (suc x % 2),
      self_upto n (suc x / 2) (omega arith),
    )

-- The inclusive or of two numbers is 0 only if both are.
or_zero_upto : (n a b : ℕ) → a ≤ n → b ≤ n → bit_or a b ≡ 0 → (a ≡ 0) × (b ≡ 0)
or_zero_upto zero a b p q e = (omega arith, omega arith)
or_zero_upto (suc n) a b p q e =
    let halves =
      or_zero_upto n (a / 2) (b / 2) (omega arith) (omega arith)
        (omega (arith, bit_or-lowest a b)) in
    (omega (arith, bit_or-lowest a b, halves.0), omega (arith, bit_or-lowest a b, halves.1))

pub bit_or-eq-zero : (a b : ℕ) → bit_or a b ≡ 0 → (a ≡ 0) × (b ≡ 0)
bit_or-eq-zero a b e = or_zero_upto (a + b) a b (omega arith) (omega arith) e
