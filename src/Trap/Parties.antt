-- ===== src/Trap/Parties.antt =====
-- kernel/src/trap.rs: the search of send and receive (system calls 6 and 7) for the other party.
use cerberus_os.Base.{
  ℕ, zero, suc, ◌+◌, ◌*◌, ◌<◌, ◌≤◌, ◌≡◌, refl, ◌⊎◌, inl, inr, arith, ap, Option, some, none,
  Option-cases, subst, dec_le,
}
use cerberus_os.Scheduler.Tcb.{TaskState}
use cerberus_os.Trap.Memory.{reg_a0}
use cerberus_os.Trap.State.{Hart, hart0, hart1, hart_id, Core, slot}
use cerberus_os.Trap.Ipc.{Party, match_slot, first_party, find_in, find_party}

-- Where a waiting party's a0 stands.
abbrev pub answer_of : ℕ → ℕ
answer_of sp = sp + 4 * reg_a0

-- `(h, i)` is looked at before `(h', i')`.
abbrev pub Before : Hart → ℕ → Hart → ℕ → Type 0
Before h i h' i' = hart_id h * 32 + i < hart_id h' * 32 + i'

module _ (waits : TaskState → Option (ℕ × ℕ)) (c : Core) where
  -- A party as the slot of its task has it.
  abbrev pub StandsAt : Party → Type 0
  StandsAt p =
      (p.idx < 32) × (slot c p.hart p.idx ≡ some p.tcb) × (waits p.tcb.state ≡ some (p.addr, p.len))

  abbrev pub Idle : Hart → ℕ → Type 0
  Idle h j = match_slot waits h j (slot c h j) ≡ none

  match_slot-cases :
      (h : Hart) (j : ℕ)
      → j < 32
      → (match_slot waits h j (slot c h j) ≡ none)
        ⊎ ((p : Party) × (match_slot waits h j (slot c h j) ≡ some p)
            × (p.hart ≡ h)
            × (p.idx ≡ j)
            × StandsAt p)
  match_slot-cases h j lt = elim (Option-cases (slot c h j)) [
    | inl e ↦ inl (rw e refl)
    | inr (t, e) ↦ elim (Option-cases (waits t.state)) [
      | inl e' ↦ inl (rw e (rw (e', match_slot) refl))
      | inr ((addr, len), e') ↦ inr (
        record { hart = h; idx = j; tcb = t; addr = addr; len = len },
        rw e (rw (e', match_slot) refl),
        refl,
        refl,
        (lt, e, e'),
      )
    ]
  ]

  -- The search over the slots `i` to 31 of one core.
  pub data IsFound (h : Hart) (i : ℕ) : Option Party → Type 0 where
    missing : ((j : ℕ) → i ≤ j → j < 32 → Idle h j) → IsFound h i none
    found :
        {p : Party}
        → p.hart ≡ h
        → StandsAt p
        → ((j : ℕ) → i ≤ j → j < p.idx → Idle h j)
        → IsFound h i (some p)

  passed : (h : Hart) (i j : ℕ) → Idle h i → (i + 1 ≤ j → Idle h j) → i ≤ j → Idle h j
  passed h i j here later le = elim (dec_le (i + 1) j) [
    | yes lt ↦ later lt
    | no ge ↦ subst (Idle h) (omega arith) here
  ]

  extend : (h : Hart) (i : ℕ) (r : Option Party) → Idle h i → IsFound h (i + 1) r → IsFound h i r
  extend h i none here (missing f) = missing (λ j lo hi. passed h i j here (λ lo'. f j lo' hi) lo)
  extend h i (some p) here (found at stands f) =
      found at stands (λ j lo hi. passed h i j here (λ lo'. f j lo' hi) lo)

  find_in-IsFound :
      (h : Hart) (rounds i : ℕ)
      → i + rounds ≡ 32
      → IsFound h i (find_in waits h (c.scheds h).task_table rounds i)
  unfolding find_in
  find_in-IsFound h zero i e = missing (λ j lo hi. absurd (omega arith))
  find_in-IsFound h (suc rounds) i e = elim (match_slot-cases h i (omega arith)) [
    | inl none_here ↦
        rw none_here (extend h i _ none_here (find_in-IsFound h rounds (i + 1) (omega arith)))
    | inr (p, here, at_h, at_i, stands) ↦
        rw here (found at_h stands (λ j lo hi. absurd (omega arith)))
  ]

  -- The first task in the order of the search that waits so, or none.
  pub data IsFirstParty : Option Party → Type 0 where
    nobody : ((h : Hart) (j : ℕ) → j < 32 → Idle h j) → IsFirstParty none
    somebody :
        {p : Party}
        → StandsAt p
        → ((h : Hart) (j : ℕ) → j < 32 → Before h j p.hart p.idx → Idle h j)
        → IsFirstParty (some p)

  combine :
      (r s : Option Party) → IsFound hart0 0 r → IsFound hart1 0 s → IsFirstParty (first_party r s)
  combine none none (missing f) (missing g) = nobody both
    where
      both : (h : Hart) (j : ℕ) → j < 32 → Idle h j
      both hart0 j lt = f j (omega arith) lt
      both hart1 j lt = g j (omega arith) lt
  combine none (some p) (missing f) (found at stands g) = somebody stands both
    where
      both : (h : Hart) (j : ℕ) → j < 32 → Before h j p.hart p.idx → Idle h j
      both hart0 j lt before = f j (omega arith) lt
      both hart1 j lt before = g j (omega arith) (omega (arith, before, ap hart_id at))
  combine (some p) s (found at stands f) g = somebody stands both
    where
      both : (h : Hart) (j : ℕ) → j < 32 → Before h j p.hart p.idx → Idle h j
      both hart0 j lt before = f j (omega arith) (omega (arith, before, ap hart_id at))
      both hart1 j lt before = absurd (omega (arith, before, ap hart_id at, stands.0))

  -- The search of send and receive gives the first task that waits so, core 0 before core 1 and low
  -- slots before high ones, with the address and length it waits with; or no task waits so.
  pub find_party-IsFirstParty : IsFirstParty (find_party waits c)
  unfolding find_party
  find_party-IsFirstParty =
      combine _ _ (find_in-IsFound hart0 32 0 refl) (find_in-IsFound hart1 32 0 refl)
