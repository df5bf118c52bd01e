-- ===== src/Trap/Counters.antt =====
-- kernel/src/trap.rs: the saved frame after the emulation of a counter read, against the stores of
-- kernel/src/trap_entry.s.
use cerberus_os.Base.{
  ℕ, ◌+◌, ◌*◌, ◌%◌, ◌^◌, ◌<◌, ◌≡◌, ◌≢◌, ◌∙◌, arith, Option, none, some, List, [], ◌∷◌, Bool, true,
  false, ◌&&◌, ◌==◌, Bool-cases, Option-cases, if◌then◌else◌, refl, inl, inr,
}
use cerberus_os.Trap.Memory.{Memory, read_word}
use cerberus_os.Trap.State.{Core, Env}
use cerberus_os.Trap.Emulation.{rd_index, frame_idx, put_result, emulate}
use cerberus_os.Trap.Entry.{stores}
use cerberus_os.Trap.Words.{Apart, read_word-write_word, read_word-other}

-- The offset at which a list of stores saves register `n`.
unfoldable pub offset_of : ℕ → List (ℕ × ℕ) → Option ℕ
offset_of n [] = none
offset_of n ((n', o) ∷ rest) = if n == n' then some o else offset_of n rest

is_word : Option ℕ → ℕ → Bool
is_word none o = false
is_word (some i) o = o == 4 * i

-- The table of the handler has every store.
agrees : List (ℕ × ℕ) → Bool
agrees [] = true
agrees ((n, o) ∷ rest) = is_word (frame_idx n) o && agrees rest

agrees-stores : agrees stores ≡ true
unfolding agrees is_word frame_idx
agrees-stores = refl

word_of : (p : Option ℕ) (o : ℕ) → is_word p o ≡ true → (i : ℕ) × (p ≡ some i) × (o ≡ 4 * i)
unfolding is_word
word_of none o e = absurd (cc e)
word_of (some i) o e = (i, refl, ground (arith, e))

agrees-word :
    (ts : List (ℕ × ℕ)) (n o : ℕ)
    → agrees ts ≡ true
    → offset_of n ts ≡ some o
    → is_word (frame_idx n) o ≡ true
unfolding agrees offset_of
agrees-word [] n o e at = absurd (cc at)
agrees-word ((n', o') ∷ rest) n o e at = elim (Bool-cases (n == n')) [
  | inl same ↦
      let here : is_word (frame_idx n') o' ≡ true = ground (arith, e) in
      let x : n ≡ n' = ground (arith, same) in
      let y : o' ≡ o = ground (arith, same, at) in cc (here, x, y)
  | inr other ↦ agrees-word rest n o (ground (arith, e)) (ground (arith, at, other))
]

frame_idx-small : (rd : ℕ) {i : ℕ} → frame_idx rd ≡ some i → i < 28
unfolding frame_idx
frame_idx-small rd e = ground arith

frame_idx-injective : (x y : ℕ) {i : ℕ} → frame_idx x ≡ some i → frame_idx y ≡ some i → x ≡ y
unfolding frame_idx
frame_idx-injective x y e e' = ground arith

frame_words-Apart : (sp i j : ℕ) → i ≢ j → Apart (sp + 4 * i) 4 (sp + 4 * j) 4
frame_words-Apart sp i j ne = ground arith

equal : (x y : ℕ) → (x == y) ≡ true → x ≡ y
equal x y e = ground (arith, e)

distinct : (x y : ℕ) → (x == y) ≡ false → x ≢ y
distinct x y e same = absurd (ground (arith, e, same))

-- What a counter read into register `rd` leaves, at each register that the trap entry saves.
module _ (env : Env) (m : Memory) (small : env.mcycle < 2 ^ 32) where
  put : ℕ → Memory
  put rd = put_result (frame_idx rd) env.user_sp env.mcycle m

  put_word :
      (rd n i : ℕ)
      → frame_idx n ≡ some i
      → read_word (put rd) (env.user_sp + 4 * i)
        ≡ (if n == rd then env.mcycle else read_word m (env.user_sp + 4 * i))
  unfolding put
  put_word rd n i e = elim (Bool-cases (n == rd)) [
    | inl same ↦
        let here : frame_idx rd ≡ some i = cc (e, equal n rd same) in
        rw same (rw here (read_word-write_word m (env.user_sp + 4 * i) env.mcycle small))
    | inr other ↦ elim (Option-cases (frame_idx rd)) [
      | inl nowhere ↦ rw other (rw nowhere refl)
      | inr (j, there) ↦ rw other (
          rw there (
            read_word-other m (env.user_sp + 4 * j) env.mcycle (env.user_sp + 4 * i) (
              frame_words-Apart env.user_sp j i
                (λ one. distinct n rd other (frame_idx-injective n rd e (cc (there, one)))))))
    ]
  ]

-- The emulation of a counter read, with the counter a word: of the registers that the trap entry saves,
-- the one that the instruction names as its destination holds the counter when it is restored, and
-- every other one what it held; and the saved program counter is past the instruction.
pub emulate_lem :
    (env : Env) (instruction : ℕ) (c : Core) (n o : ℕ)
    → env.mcycle < 2 ^ 32
    → offset_of n stores ≡ some o
    → let before = c.memory in
      let after = (emulate env instruction c).memory in
      (read_word after (env.user_sp + o)
        ≡ (if n == rd_index instruction then env.mcycle else read_word before (env.user_sp + o)))
      × (read_word after (env.user_sp + 112) ≡ (read_word before (env.user_sp + 112) + 4) % 2 ^ 32)
unfolding emulate put
emulate_lem env instruction c n o small at =
    let sp = env.user_sp in
    let mepc = (read_word c.memory (sp + 112) + 4) % 2 ^ 32 in
    let m = put env c.memory small (rd_index instruction) in
    let (i, e, place) = word_of (frame_idx n) o (agrees-word stores n o agrees-stores at) in
    rw place (
      read_word-other m (sp + 112) mepc (sp + 4 * i)
            (frame_words-Apart sp 28 i (λ same. omega (arith, same, frame_idx-small n e)))
          ∙ put_word env c.memory small (rd_index instruction) n i e,
      read_word-write_word m (sp + 112) mepc (omega arith),
    )
