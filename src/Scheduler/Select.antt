-- ===== src/Scheduler/Select.antt =====
-- Which partition `schedule` picks (scheduler/src/bitmap.rs, passes 1 and 2).
use cerberus_os.Base.{
  ℕ, zero, suc, ◌+◌, ◌-◌, ◌%◌, ◌≤◌, ◌<◌, ◌≡◌, inl, inr, true, false, Option, none, some, arith,
  dec_lt, Bool-cases, Option-cases,
}
use cerberus_os.Scheduler.Tcb.{TaskTable}
use cerberus_os.Scheduler.Bitmap.{
  max_partitions, is_ready, is_eligible, next_slot, scan, select_next,
}

-- `j` is the first eligible slot of the `n` from `i` on, going round at 32.
pub record IsFirst (table : TaskTable) (i n j : ℕ) : Type 0 where
  pub steps : ℕ
  pub within : steps < n
  pub place : j ≡ (i + steps) % 32
  pub found : is_eligible table j ≡ true
  pub passed : (m : ℕ) → m < steps → is_eligible table ((i + m) % 32) ≡ false

-- A slot `k` places past the next one is `suc k` places on.
abbrev passed_later :
    (table : TaskTable) (i k : ℕ)
    → i < 32
    → is_eligible table i ≡ false
    → ((m : ℕ) → m < k → is_eligible table ((next_slot i + m) % 32) ≡ false)
    → (m : ℕ) → m < suc k
    → is_eligible table ((i + m) % 32) ≡ false
passed_later table i k h miss p zero lt = let e : (i + 0) % 32 ≡ i = omega arith in rw e miss
passed_later table i k h miss p (suc m) lt =
    let e : (i + suc m) % 32 ≡ (next_slot i + m) % 32 = omega arith in rw e (p m (omega arith))

scan-IsFirst :
    (n : ℕ) (table : TaskTable) (i : ℕ) {j : ℕ}
    → i < 32
    → scan n table i ≡ some j
    → IsFirst table i n j
unfolding scan
scan-IsFirst zero table i h e = absurd (cc)
scan-IsFirst (suc n) table i {j} h e = elim (Bool-cases (is_eligible table i)) [
  | inl hit ↦
      let same : i ≡ j = ground arith in
      record {
        steps = 0;
        within = omega arith;
        place = omega arith;
        found = rw (← same) hit;
        passed = λ m lt. absurd (omega arith);
      }
  | inr miss ↦
      let f : IsFirst table (next_slot i) n j =
        scan-IsFirst n table (next_slot i) (omega arith) (rw miss at e) in
      record {
        steps = suc f.steps;
        within = omega (arith, f.within);
        place = omega (arith, f.place);
        found = f.found;
        passed = passed_later table i f.steps h miss f.passed;
      }
]

scan-none :
    (n : ℕ) (table : TaskTable) (i : ℕ)
    → i < 32
    → scan n table i ≡ none
    → (m : ℕ) → m < n
    → is_eligible table ((i + m) % 32) ≡ false
unfolding scan
scan-none zero table i h e = λ m lt. absurd (omega arith)
scan-none (suc n) table i h e = elim (Bool-cases (is_eligible table i)) [
  | inl hit ↦ absurd (ground arith)
  | inr miss ↦
      passed_later table i n h miss (scan-none n table (next_slot i) (omega arith) (rw miss at e))
]

-- How far slot `i` is behind the one after `current`, going round: 0 to 31.
abbrev pub offset : ℕ → ℕ → ℕ
offset current i = (i + 31 - current) % 32

-- The scan from the slot after `current` takes the eligible slot with the least offset.
pub scan-nearest :
    (table : TaskTable) (current : ℕ) {j : ℕ} (i : ℕ)
    → current < 32
    → i < 32
    → scan max_partitions table (next_slot current) ≡ some j
    → is_eligible table i ≡ true
    → offset current j ≤ offset current i
scan-nearest table current {j} i hc hi e el = elim (dec_lt (offset current i) f.steps) [
  | yes lt ↦
      let here : (next_slot current + offset current i) % 32 ≡ i = omega arith in
      absurd (cc (el, rw here at (f.passed (offset current i) lt)))
  | no ge ↦ omega (arith, f.place, f.within)
]
  where
    f : IsFirst table (next_slot current) max_partitions j
    f = scan-IsFirst max_partitions table (next_slot current) (omega arith) e

-- No eligible slot: none of the 32 is.
pub scan-none_all :
    (table : TaskTable) (current i : ℕ)
    → current < 32
    → i < 32
    → scan max_partitions table (next_slot current) ≡ none
    → is_eligible table i ≡ false
scan-none_all table current i hc hi e =
    let here : (next_slot current + offset current i) % 32 ≡ i = omega arith in
    rw here at (
      scan-none max_partitions table (next_slot current) (omega arith) e (offset current i)
        (omega arith))

pub scan-eligible :
    (table : TaskTable) (current : ℕ) {j : ℕ}
    → scan max_partitions table (next_slot current) ≡ some j
    → (is_eligible table j ≡ true) × (j < 32)
scan-eligible table current {j} e =
    let f : IsFirst table (next_slot current) max_partitions j =
      scan-IsFirst max_partitions table (next_slot current) (omega arith) e in
    (f.found, omega (arith, f.place))

-- What pass 1 and pass 2 together may answer.
pub data Selected (table : TaskTable) (current : ℕ) : Option ℕ → Type 0 where
  rotated :
      (j : ℕ)
      → j < 31
      → is_ready (table j) ≡ true
      → ((i : ℕ) → i < 31 → is_ready (table i) ≡ true → offset current j ≤ offset current i)
      → Selected table current (some j)
  idled :
      is_ready (table 31) ≡ true
      → ((i : ℕ) → i < 31 → is_ready (table i) ≡ false)
      → Selected table current (some 31)
  nothing_ready : ((i : ℕ) → i < 32 → is_ready (table i) ≡ false) → Selected table current none

-- From any current partition in range, the choice is: the first ready partition below 31 after the
-- current one in cyclic order; the idle partition 31, if ready, when no other is ready; nothing,
-- when no partition is ready.
pub select_next-Selected :
    (table : TaskTable) (current : ℕ)
    → current < 32
    → Selected table current (select_next table current)
unfolding select_next
select_next-Selected table current h =
    elim (Option-cases (scan max_partitions table (next_slot current))) [
      | inr (j, e) ↦
          let (el, lt) = scan-eligible table current e in
          rw e (
            rotated j (ground arith) (ground arith)
              (λ i hi r. scan-nearest table current i h (omega arith) e (ground arith)))
      | inl e ↦ rw e (elim (Bool-cases (is_ready (table 31))) [
        | inl idle ↦
            rw idle
              (idled idle (λ i hi. ground (arith, scan-none_all table current i h (omega arith) e)))
        | inr busy ↦ rw busy (
            nothing_ready λ i hi. elim (dec_lt i 31) [
              | yes lt ↦ ground (arith, scan-none_all table current i h hi e)
              | no ge ↦ let last : i ≡ 31 = omega arith in rw last busy
            ])
      ])
    ]
