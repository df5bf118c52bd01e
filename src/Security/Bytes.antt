-- ===== src/Security/Bytes.antt =====
-- Byte strings: literals, comparison, and the exclusive or of two of them.
use Prim.Native.Nat.{bit_or, bit_xor}
use Prim.Native.Char.{code}
use Prim.Native.String.{String}
use cerberus_os.Base.{
  ℕ, ◌≡◌, refl, ap₂, subst, Bool, true, false, ◌&&◌, ◌==◌, List, [], ◌∷◌, ◌↔◌, arith, length,
}
use cerberus_os.Base.Digits.{bit_xor-eq, bit_xor_self, bit_or-eq-zero}

-- `b"…"`
abbrev pub codes : String → List ℕ
codes String.[] = []
codes (String.◌∷◌ c s) = code c ∷ codes s

-- `==` on slices.
unfoldable pub eq_bytes : List ℕ → List ℕ → Bool
eq_bytes [] [] = true
eq_bytes (x ∷ xs) (y ∷ ys) = x == y && eq_bytes xs ys
eq_bytes _ _ = false

pub eq_bytes_iff : (xs ys : List ℕ) → (eq_bytes xs ys ≡ true) ↔ (xs ≡ ys)
unfolding eq_bytes
eq_bytes_iff xs ys = (sound xs ys, λ e. subst (λ zs. eq_bytes xs zs ≡ true) e (same xs))
  where
    same : (xs : List ℕ) → eq_bytes xs xs ≡ true
    same [] = refl
    same (x ∷ xs) = ground (arith, same xs)

    sound : (xs ys : List ℕ) → eq_bytes xs ys ≡ true → xs ≡ ys
    sound [] [] e = refl
    sound [] (y ∷ ys) e = absurd (cc)
    sound (x ∷ xs) [] e = absurd (cc)
    sound (x ∷ xs) (y ∷ ys) e = ground (arith, sound xs ys)

-- `xs.iter().zip(ys).fold(acc, |acc, (a, b)| acc | (a ^ b))`
unfoldable pub differences : ℕ → List ℕ → List ℕ → ℕ
differences acc (x ∷ xs) (y ∷ ys) = differences (bit_or acc (bit_xor x y)) xs ys
differences acc _ _ = acc

differences-zero :
    (acc : ℕ) (xs ys : List ℕ)
    → length xs ≡ length ys
    → differences acc xs ys ≡ 0
    → (acc ≡ 0) × (xs ≡ ys)
unfolding differences
differences-zero acc [] [] l e = (e, refl)
differences-zero acc [] (y ∷ ys) l e = absurd (omega arith)
differences-zero acc (x ∷ xs) [] l e = absurd (omega arith)
differences-zero acc (x ∷ xs) (y ∷ ys) l e =
    let (head, tail) = differences-zero (bit_or acc (bit_xor x y)) xs ys (omega arith) e in
    let (old, new) = bit_or-eq-zero acc (bit_xor x y) head in
    (old, ap₂ (λ z zs. z ∷ zs) (bit_xor-eq x y new) tail)

differences_self : (xs : List ℕ) → differences 0 xs xs ≡ 0
unfolding differences
differences_self [] = refl
differences_self (x ∷ xs) = rw (bit_xor_self x) (differences_self xs)

-- The comparison that takes the same time wherever two byte strings of one length differ answers 0
-- exactly if they are equal.
pub differences_iff :
    (xs ys : List ℕ) → length xs ≡ length ys → (differences 0 xs ys ≡ 0) ↔ (xs ≡ ys)
differences_iff xs ys l = (
  λ e. (differences-zero 0 xs ys l e).1,
  λ e. subst (λ zs. differences 0 xs zs ≡ 0) e (differences_self xs),
)
