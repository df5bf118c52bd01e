-- ===== src/Spinlock/Calls.antt =====
-- A matched pair of calls of the spinlock (kernel/src/kernel/spinlock.rs).
use cerberus_os.Base.{ℕ, ◌+◌, ◌^◌, ◌<◌, ◌≡◌, refl, ◌≢◌, ◌⊎◌, arith}
use cerberus_os.Base.Outcome.{done, spinning}
use cerberus_os.Spinlock.Lock.{Spinlock, lock, unlock}

-- What a hart may find: the lock is free, or the hart owns it already, not 2 ^ 32 - 1 levels deep.
abbrev pub IsOpen : ℕ → Spinlock → Type 0
IsOpen hart l =
    ((l.owner ≡ 0) × (l.depth ≡ 0))
    ⊎ ((l.owner ≡ hart + 1) × (0 < l.depth) × (l.depth + 1 < 2 ^ 32))

-- A hart that finds the lock free, or owns it already, gets it at once, one level deeper, and the
-- matching release puts it back exactly as it was.
pub lock-unlock :
    (hart : ℕ) (l : Spinlock)
    → IsOpen hart l
    → (l' : Spinlock) × (lock hart l ≡ done l')
      × (l'.owner ≡ hart + 1)
      × (l'.depth ≡ l.depth + 1)
      × (unlock l' ≡ l)
unfolding lock unlock
lock-unlock hart l o =
    (record { owner = hart + 1; depth = l.depth + 1 }, ground arith, refl, refl, ground arith)

-- Another owner makes the call wait.
pub lock_spinning :
    (hart : ℕ) (l : Spinlock) → l.owner ≢ 0 → l.owner ≢ hart + 1 → lock hart l ≡ spinning
unfolding lock
lock_spinning hart l a b = ground arith
