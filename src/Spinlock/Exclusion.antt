-- ===== src/Spinlock/Exclusion.antt =====
-- Mutual exclusion of the spinlock (kernel/src/kernel/spinlock.rs) over every interleaving.
use cerberus_os.Base.{
  ℕ, zero, suc, ◌+◌, ◌-◌, ◌^◌, ◌<◌, ◌≡◌, refl, ◌≢◌, arith, update, update_self, update_ne, ◌⊎◌, inl,
  inr, ℕ_discrete, subst,
}
use cerberus_os.Spinlock.Lock.{Spinlock}
use cerberus_os.Spinlock.Harts.{
  Pc, outside, reentering, trying, claimed, dropped, Move, see_self, see_other, deepen, lose, win,
  enter, drop, leave, stay, System, Step, pick, Reach, start, later,
}

-- What the place of hart `h` says of the lock.
abbrev pub Agrees : Spinlock → ℕ → Pc → Type 0
Agrees l h (outside zero) = l.owner ≢ h + 1
Agrees l h (outside (suc n)) = (l.owner ≡ h + 1) × (l.depth ≡ suc n) × (suc n < 2 ^ 32)
Agrees l h (reentering n) = (l.owner ≡ h + 1) × (l.depth ≡ n) × (0 < n) × (n < 2 ^ 32)
Agrees l h (trying n) = (l.owner ≢ h + 1) × (n ≡ 0)
Agrees l h (claimed n) = (l.owner ≡ h + 1) × (n ≡ 0)
Agrees l h (dropped n) = (l.owner ≡ h + 1) × (l.depth ≡ n) × (n < 2 ^ 32)

-- The moving hart agrees with the lock again.
Move-self :
    (h : ℕ) (l : Spinlock) {p p' : Pc} {l' : Spinlock}
    → Move h l p l' p'
    → Agrees l h p
    → Agrees l' h p'
Move-self h l (see_self {n = zero} e) a = absurd (a e)
Move-self h l (see_self {n = suc n} e) a = omega arith
Move-self h l (see_other {n = zero} e) a = (e, refl)
Move-self h l (see_other {n = suc n} e) a = absurd (e a.0)
Move-self h l (deepen lt) a = omega arith
Move-self h l lose a = a
Move-self h l (win e) a = (refl, a.1)
Move-self h l enter a = omega arith
Move-self h l drop a = omega arith
Move-self h l (leave {n = zero} e) a = omega arith
Move-self h l (leave {n = suc n} e) a = absurd (omega arith)
Move-self h l (stay {n = zero} e) a = absurd (e a.1)
Move-self h l (stay {n = suc n} e) a = a

-- What a move can change: nothing, or the lock of its own hart, or a free lock.
Move-scope :
    (h : ℕ) (l : Spinlock) {p p' : Pc} {l' : Spinlock}
    → Move h l p l' p'
    → Agrees l h p
    → (l' ≡ l) ⊎ (((l.owner ≡ h + 1) ⊎ (l.owner ≡ 0)) × ((l'.owner ≡ h + 1) ⊎ (l'.owner ≡ 0)))
Move-scope h l (see_self e) a = inl refl
Move-scope h l (see_other e) a = inl refl
Move-scope h l (deepen lt) a = inr (inl a.0, inl a.0)
Move-scope h l lose a = inl refl
Move-scope h l (win e) a = inr (inr e, inl refl)
Move-scope h l enter a = inr (inl a.0, inl a.0)
Move-scope h l drop a = inr (inl a.0, inl a.0)
Move-scope h l (leave e) a = inr (inl a.0, inr refl)
Move-scope h l (stay e) a = inl refl

-- A hart that does not own the lock agrees with any lock that it does not own.
Agrees-elsewhere :
    (l l' : Spinlock) (j : ℕ) (q : Pc)
    → l.owner ≢ j + 1
    → l'.owner ≢ j + 1
    → Agrees l j q
    → Agrees l' j q
Agrees-elsewhere l l' j (outside zero) f f' a = f'
Agrees-elsewhere l l' j (outside (suc n)) f f' a = absurd (f a.0)
Agrees-elsewhere l l' j (reentering n) f f' a = absurd (f a.0)
Agrees-elsewhere l l' j (trying n) f f' a = (f', a.1)
Agrees-elsewhere l l' j (claimed n) f f' a = absurd (f a.0)
Agrees-elsewhere l l' j (dropped n) f f' a = absurd (f a.0)

-- What a hart relies on is left alone by the moves of the others.
Move-other :
    (h j : ℕ) (l : Spinlock) {p p' : Pc} {l' : Spinlock} (q : Pc)
    → h ≢ j
    → Move h l p l' p'
    → Agrees l h p
    → Agrees l j q
    → Agrees l' j q
Move-other h j l {l' = l'} q ne mv a b = elim (Move-scope h l mv a) [
  | inl same ↦ rw same b
  | inr (was, now) ↦ Agrees-elsewhere l l' j q (omega arith) (omega arith) b
]

abbrev pub Inv : System → Type 0
Inv s = (h : ℕ) → Agrees s.lock h (s.pc h)

Move-Inv :
    (s : System) (h : ℕ) {l : Spinlock} {p : Pc}
    → Inv s
    → Move h s.lock (s.pc h) l p
    → (j : ℕ) → Agrees l j (update s.pc h p j)
Move-Inv s h {l} {p} inv mv j = elim (ℕ_discrete h j) [
  | yes e ↦ rw (← e) (rw (update_self s.pc h p) (Move-self h s.lock mv (inv h)))
  | no ne ↦ rw (update_ne s.pc h p j ne) (Move-other h j s.lock (s.pc j) ne mv (inv h) (inv j))
]

Reach-Inv : {s : System} → Reach s → Inv s
Reach-Inv start = λ h. omega arith
Reach-Inv (later {s} r (pick h mv)) = Move-Inv s h (Reach-Inv r) mv

-- The hart is between a returned `lock` and its last `unlock`.
abbrev pub IsInside : Pc → Type 0
IsInside p = (n : ℕ) × (p ≡ outside (suc n))

inside-owner :
    (l : Spinlock) (h n : ℕ) (p : Pc)
    → p ≡ outside (suc n)
    → Agrees l h p
    → (l.owner ≡ h + 1) × (l.depth ≡ suc n)
inside-owner l h n p e a =
    let b : Agrees l h (outside (suc n)) = subst (Agrees l h) e a in (b.0, b.1)

-- In every reachable state, a hart between a returned `lock` and its last `unlock` is the owner of
-- the lock, at a depth that counts its open calls, and any hart inside is that hart.
pub mutual_exclusion :
    {s : System}
    → Reach s
    → (i j : ℕ) → IsInside (s.pc i)
    → IsInside (s.pc j)
    → (i ≡ j) × (s.lock.owner ≡ i + 1) × (s.pc i ≡ outside s.lock.depth)
mutual_exclusion {s} r i j (n, e) (m, f) =
    let (o, d) = inside-owner s.lock i n (s.pc i) e (Reach-Inv r i) in
    (omega (arith, o, inside-owner s.lock j m (s.pc j) f (Reach-Inv r j)), o, rw d e)

quiet-unowned :
    (l : Spinlock) (h : ℕ) (p : Pc)
    → (p ≡ outside 0) ⊎ (p ≡ trying 0)
    → Agrees l h p
    → l.owner ≢ h + 1
quiet-unowned l h p (inl e) a = subst (Agrees l h) e a
quiet-unowned l h p (inr e) a = (subst (Agrees l h) e a).0

unowned : (l : Spinlock) → ((h : ℕ) → l.owner ≢ h + 1) → l.owner ≡ 0
unowned l h = ground (arith, h (l.owner - 1))

-- The lock is not leaked, and a waiting hart is not shut out: in a reachable state where every hart
-- has left its calls with nothing held, or waits in one, the lock is free, also if none waits; and each
-- hart is outside its calls, or can take the lock in one step.
pub free_when_quiet :
    {s : System}
    → Reach s
    → ((i : ℕ) → (s.pc i ≡ outside 0) ⊎ (s.pc i ≡ trying 0))
    → (s.lock.owner ≡ 0)
      × ((i : ℕ)
          → (s.pc i ≡ outside 0)
            ⊎ Step s (record {
              lock = record { owner = i + 1; depth = s.lock.depth };
              pc = update s.pc i (claimed 0);
            }))
free_when_quiet {s} r quiet =
    let free : s.lock.owner ≡ 0 =
      unowned s.lock (λ i. quiet-unowned s.lock i (s.pc i) (quiet i) (Reach-Inv r i)) in
    (
      free,
      λ i. elim (quiet i) [ inl out ↦ inl out | inr waits ↦ inr (pick i (rw waits (win free))) ],
    )
