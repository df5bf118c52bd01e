-- ===== src/Trap/Words.antt =====
-- kernel/src/trap.rs: what raw writes and copies leave in memory.
use cerberus_os.Base.{
  ℕ, ◌+◌, ◌-◌, ◌*◌, ◌/◌, ◌%◌, ◌^◌, ◌<◌, ◌≤◌, ◌≡◌, refl, ◌⊎◌, arith, ap, ◌∙◌, ap₂, List, [], ◌∷◌,
  zero, suc, sym,
}
use cerberus_os.Trap.Memory.{Memory, read_word, write_word, copy}

-- `len` bytes from `a` and `len'` bytes from `b` have no byte in common.
abbrev pub Apart : ℕ → ℕ → ℕ → ℕ → Type 0
Apart a len b len' = (a + len ≤ b) ⊎ (b + len' ≤ a)

pub write_word-other : (m : Memory) (a v j : ℕ) → Apart a 4 j 1 → write_word m a v j ≡ m j
unfolding write_word
write_word-other m a v j h = ground arith

bytes_join :
    (v : ℕ)
    → v < 2 ^ 32
    → v % 256 + 256 * (v / 256 % 256) + 65536 * (v / 65536 % 256) + 16777216 * (v / 16777216 % 256)
      ≡ v
bytes_join v h = omega arith

pub read_word-write_word : (m : Memory) (a v : ℕ) → v < 2 ^ 32 → read_word (write_word m a v) a ≡ v
unfolding read_word write_word
read_word-write_word m a v h = ground (arith, bytes_join v h)

pub read_word-other :
    (m : Memory) (a v b : ℕ) → Apart a 4 b 4 → read_word (write_word m a v) b ≡ read_word m b
unfolding read_word
read_word-other m a v b h = omega (
  arith,
  write_word-other m a v b (ground (arith, h)),
  write_word-other m a v (b + 1) (ground (arith, h)),
  write_word-other m a v (b + 2) (ground (arith, h)),
  write_word-other m a v (b + 3) (ground (arith, h)),
)

back : (dst i : ℕ) → (dst + i) - dst ≡ i
back dst i = omega arith

pub copy-inside :
    (m : Memory) (src dst len i : ℕ) → i < len → copy m src dst len (dst + i) ≡ m (src + i)
unfolding copy
copy-inside m src dst len i h = ground (arith, back dst i)

pub copy-outside : (m : Memory) (src dst len j : ℕ) → Apart dst len j 1 → copy m src dst len j ≡ m j
unfolding copy
copy-outside m src dst len j h = ground arith

-- The `n` bytes from `a` on.
unfoldable pub bytes_at : Memory → ℕ → ℕ → List ℕ
bytes_at m a zero = []
bytes_at m a (suc n) = m a ∷ bytes_at m (a + 1) n

relocate : (m m' : Memory) (x y u v : ℕ) → x ≡ u → y ≡ v → m x ≡ m' y → m u ≡ m' v
relocate m m' x y u v e e' h = ap m (sym e) ∙ h ∙ ap m' e'

pub bytes_at-cong :
    (m m' : Memory) (a b n : ℕ)
    → ((i : ℕ) → i < n → m (a + i) ≡ m' (b + i))
    → bytes_at m a n ≡ bytes_at m' b n
unfolding bytes_at
bytes_at-cong m m' a b zero h = refl
bytes_at-cong m m' a b (suc n) h =
    ap₂ (λ x xs. x ∷ xs) (relocate m m' _ _ a b (omega arith) (omega arith) (h 0 (omega arith)))
      (bytes_at-cong m m' (a + 1) (b + 1) n
        (λ i lt. relocate m m' _ _ _ _ (omega arith) (omega arith) (h (suc i) (omega arith))))

-- A copy of `n` bytes and then two words, all three in places of their own.
module _ (m : Memory) (src dst n a x b y : ℕ) (buffer_a : Apart a 4 dst n)
    (buffer_b : Apart b 4 dst n) (words : Apart b 4 a 4) (x_small : x < 2 ^ 32)
    (y_small : y < 2 ^ 32) where
  abbrev pub exchanged : Memory
  exchanged = write_word (write_word (copy m src dst n) a x) b y

  exchanged_byte : (i : ℕ) → i < n → exchanged (dst + i) ≡ m (src + i)
  exchanged_byte i lt =
      write_word-other _ b y (dst + i) (ground (arith, buffer_b))
      ∙ write_word-other _ a x (dst + i) (ground (arith, buffer_a))
      ∙ copy-inside m src dst n i lt

  pub exchanged_lem :
      (bytes_at exchanged dst n ≡ bytes_at m src n)
      × (read_word exchanged a ≡ x)
      × (read_word exchanged b ≡ y)
  exchanged_lem = (
    bytes_at-cong exchanged m dst src n exchanged_byte,
    read_word-other _ b y a words ∙ read_word-write_word _ a x x_small,
    read_word-write_word _ b y y_small,
  )
