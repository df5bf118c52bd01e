-- ===== src/Spinlock/Harts.antt =====
-- kernel/src/kernel/spinlock.rs: harts that call `lock` and `unlock`, one shared access at a time.
-- No trap of a hart falls inside its own call here; any number of harts interleave.
use cerberus_os.Base.{ℕ, suc, ◌+◌, ◌%◌, ◌^◌, ◌<◌, ◌≡◌, ◌≢◌, update}
use cerberus_os.Spinlock.Lock.{Spinlock, new, dec}

-- Where a hart stands; `holds` counts its calls of `lock` that have returned and have no matching
-- `unlock` yet.
pub data Pc : Type 0 where
  outside : (holds : ℕ) → Pc
  reentering : (holds : ℕ) → Pc  -- found itself the owner, before `depth += 1`
  trying : (holds : ℕ) → Pc  -- at the compare-exchange
  claimed : (holds : ℕ) → Pc  -- before `depth = 1`
  dropped : (holds : ℕ) → Pc  -- after `depth -= 1`, before the test of `unlock`

-- One access by hart `h`.
pub data Move (h : ℕ) (l : Spinlock) : Pc → Spinlock → Pc → Type 0 where
  see_self : {n : ℕ} → l.owner ≡ h + 1 → Move h l (outside n) l (reentering n)
  see_other : {n : ℕ} → l.owner ≢ h + 1 → Move h l (outside n) l (trying n)
  -- Calls do not nest 2 ^ 32 levels deep: the stacks are far too small.
  deepen :
      {n : ℕ}
      → suc n < 2 ^ 32
      → Move h l (reentering n) (record l { depth = (l.depth + 1) % 2 ^ 32 }) (outside (suc n))
  -- The weak compare-exchange may also fail on a free lock.
  lose : {n : ℕ} → Move h l (trying n) l (trying n)
  win : {n : ℕ} → l.owner ≡ 0 → Move h l (trying n) (record l { owner = h + 1 }) (claimed n)
  enter : {n : ℕ} → Move h l (claimed n) (record l { depth = 1 }) (outside (suc n))
  drop : {n : ℕ} → Move h l (outside (suc n)) (record l { depth = dec l.depth }) (dropped n)
  leave : {n : ℕ} → l.depth ≡ 0 → Move h l (dropped n) (record l { owner = 0 }) (outside n)
  stay : {n : ℕ} → l.depth ≢ 0 → Move h l (dropped n) l (outside n)

pub record System : Type 0 where
  pub lock : Spinlock
  pub pc : ℕ → Pc

abbrev pub boot : System
boot = record { lock = new; pc = λ _. outside 0 }

pub data Step (s : System) : System → Type 0 where
  pick :
      (h : ℕ) {l : Spinlock} {p : Pc}
      → Move h s.lock (s.pc h) l p
      → Step s (record { lock = l; pc = update s.pc h p })

pub data Reach : System → Type 0 where
  start : Reach boot
  later : {s t : System} → Reach s → Step s t → Reach t
