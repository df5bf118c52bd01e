-- ===== src/Spinlock/Lock.antt =====
-- kernel/src/kernel/spinlock.rs: `Spinlock`, its calls seen from one hart while no other hart acts.
use cerberus_os.Base.{ℕ, ◌+◌, ◌-◌, ◌%◌, ◌^◌, ◌==◌, if◌then◌else◌}
use cerberus_os.Base.Outcome.{Outcome, done, spinning}

-- `owner` is 0, or the id of the owning hart plus 1.
pub record Spinlock : Type 0 where
  pub owner : ℕ
  pub depth : ℕ

abbrev pub new : Spinlock
new = record { owner = 0; depth = 0 }

-- The compare-exchange loop: it waits while another hart owns the lock.
unfoldable pub claim : ℕ → Spinlock → Outcome Spinlock
claim me l = if l.owner == 0 then done (record { owner = me; depth = 1 }) else spinning

unfoldable pub lock : ℕ → Spinlock → Outcome Spinlock
unfolding claim
lock hart_id l =
    let me = hart_id + 1 in
    if l.owner == me then done (record l { depth = (l.depth + 1) % 2 ^ 32 }) else claim me l

-- `*depth -= 1` on a 32-bit word.
abbrev pub dec : ℕ → ℕ
dec n = (n + 2 ^ 32 - 1) % 2 ^ 32

unfoldable pub unlock : Spinlock → Spinlock
unlock l =
    let left = dec l.depth in
    if left == 0 then record { owner = 0; depth = left } else record l { depth = left }
