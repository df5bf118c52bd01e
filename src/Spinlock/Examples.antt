-- ===== src/Spinlock/Examples.antt =====
-- The theorems on the spinlock (kernel/src/kernel/spinlock.rs) at concrete states.
use cerberus_os.Base.{ℕ, ◌≡◌, ◌⊎◌, ◌+◌, refl, inr, arith, update}
use cerberus_os.Base.Outcome.{done}
use cerberus_os.Spinlock.Lock.{Spinlock, new, lock, unlock}
use cerberus_os.Spinlock.Calls.{lock-unlock}
use cerberus_os.Spinlock.Harts.{
  outside, trying, claimed, see_other, win, enter, System, Step, pick, Reach, start, later,
}
use cerberus_os.Spinlock.Exclusion.{mutual_exclusion, free_when_quiet}

-- Hart 0 has the lock at depth 1.
abbrev held : Spinlock
held = record { owner = 1; depth = 1 }

lock-unlock_example :
    (l' : Spinlock) × (lock 0 held ≡ done l') × (l'.owner ≡ 1) × (l'.depth ≡ 2) × (unlock l' ≡ held)
lock-unlock_example = lock-unlock 0 held (inr (omega arith))

-- Hart 0 inside, hart 1 waiting.
abbrev s1 : System
s1 = record { lock = new; pc = update (λ _. outside 0) 0 (trying 0) }

abbrev s2 : System
s2 = record { lock = record { owner = 1; depth = 0 }; pc = update s1.pc 0 (claimed 0) }

abbrev s3 : System
s3 = record { lock = held; pc = update s2.pc 0 (outside 1) }

Reach-s1 : Reach s1
Reach-s1 = later start (pick 0 (see_other (omega arith)))

Reach-s3 : Reach s3
Reach-s3 = later (later Reach-s1 (pick 0 (win refl))) (pick 0 enter)

mutual_exclusion_example : (◌≡◌ {A = ℕ} 0 0) × (s3.lock.owner ≡ 1) × (s3.pc 0 ≡ outside 1)
mutual_exclusion_example = mutual_exclusion Reach-s3 0 0 (0, refl) (0, refl)

free_when_quiet_example :
    (s1.lock.owner ≡ 0)
    × ((i : ℕ)
        → (s1.pc i ≡ outside 0)
          ⊎ Step s1 (record {
            lock = record { owner = i + 1; depth = 0 };
            pc = update s1.pc i (claimed 0);
          }))
free_when_quiet_example = free_when_quiet Reach-s1 (λ i. ground arith)
