-- ===== src/Trap/Waiters.antt =====
-- kernel/src/trap.rs: the waiter that a released mutex goes to.
use cerberus_os.Base.{
  ℕ, zero, suc, ◌+◌, ◌<◌, ◌≤◌, ◌≡◌, refl, true, false, Option, none, some, ltb, arith, Bool-cases,
  subst, ltb→lt, inl, inr,
}
use cerberus_os.Base.Outcome.{done}
use cerberus_os.Trap.State.{Core, has_waiter}
use cerberus_os.Trap.Mutex.{waiter_prio, better_waiter, search_waiters, highest_waiter}

-- Of the slots below `n` with their bit set, the one of highest priority (the lowest number), the
-- first of those that tie; or there is no such slot.
pub data IsHighest (bitmap : ℕ) (prio : ℕ → ℕ) (n : ℕ) : Option ℕ → Type 0 where
  nobody : ((v : ℕ) → v < n → has_waiter bitmap v ≡ false) → IsHighest bitmap prio n none
  somebody :
      {w : ℕ}
      → w < n
      → has_waiter bitmap w ≡ true
      → ((v : ℕ) → v < n → has_waiter bitmap v ≡ true → prio w ≤ prio v)
      → ((v : ℕ) → v < w → has_waiter bitmap v ≡ true → prio w < prio v)
      → IsHighest bitmap prio n (some w)

module _ (c : Core) (bitmap : ℕ) (prio : ℕ → ℕ)
    (placed : (w : ℕ) → w < 32 → has_waiter bitmap w ≡ true → waiter_prio c w ≡ done (prio w)) where
  skip :
      (i : ℕ) (best : Option ℕ)
      → has_waiter bitmap i ≡ false
      → IsHighest bitmap prio i best
      → IsHighest bitmap prio (i + 1) best
  skip i best e (nobody h) = nobody (λ v lt. ground (arith, h v))
  skip i best e (somebody lt has low first) =
      somebody (omega arith) has (λ v lt' b. ground (arith, low v)) first

  better_waiter-IsHighest :
      (i : ℕ) (best : Option ℕ)
      → i < 32
      → has_waiter bitmap i ≡ true
      → IsHighest bitmap prio i best
      → (next : Option ℕ) × (better_waiter c i best ≡ done next)
        × IsHighest bitmap prio (i + 1) next
  unfolding better_waiter
  better_waiter-IsHighest i none lt has (nobody h) = (
    some i,
    refl,
    somebody (omega arith) has (λ v v_lt b. grind (arith, h v)) (λ v v_lt b. ground (arith, h v)),
  )
  better_waiter-IsHighest i (some w) lt has (somebody below w_has low first) =
      rw (placed w (omega arith) w_has) (
        rw (placed i lt has) (elim (Bool-cases (ltb (prio i) (prio w))) [
          | inl better ↦ rw better (
            some i,
            refl,
            somebody (omega arith) has
                (λ v v_lt b. grind (arith, low v, ltb→lt (prio i) (prio w) better))
                (λ v v_lt b. ground (arith, low v, ltb→lt (prio i) (prio w) better)),
          )
          | inr worse ↦ rw worse (
            some w,
            refl,
            somebody (omega arith) w_has (λ v v_lt b. grind (arith, low v, worse)) first,
          )
        ]))

  search_waiters-IsHighest :
      (rounds i : ℕ) (best : Option ℕ)
      → i + rounds ≡ 32
      → IsHighest bitmap prio i best
      → (r : Option ℕ) × (search_waiters c bitmap rounds i best ≡ done r)
        × IsHighest bitmap prio 32 r
  unfolding search_waiters
  search_waiters-IsHighest zero i best e h =
      (best, refl, subst (λ n. IsHighest bitmap prio n best) (omega arith) h)
  search_waiters-IsHighest (suc rounds) i best e h = elim (Bool-cases (has_waiter bitmap i)) [
    | inl has ↦
        let next = better_waiter-IsHighest i best (omega arith) has h in
        rw has (rw next.1 (search_waiters-IsHighest rounds (i + 1) next.0 (omega arith) next.2))
    | inr unset ↦
        rw unset (search_waiters-IsHighest rounds (i + 1) best (omega arith) (skip i best unset h))
  ]

  -- When every slot with its bit set holds a task on the core that the search looks at, the search
  -- finds the first of the waiters of highest priority, and none only if no bit is set.
  pub highest_waiter-IsHighest :
      (r : Option ℕ) × (highest_waiter c bitmap ≡ done r) × IsHighest bitmap prio 32 r
  unfolding highest_waiter
  highest_waiter-IsHighest =
      search_waiters-IsHighest 32 0 none refl (nobody (λ v lt. absurd (omega arith)))
