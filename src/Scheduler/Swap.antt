-- ===== src/Scheduler/Swap.antt =====
-- What a partition swap (scheduler/src/bitmap.rs) does to the task table, slot by slot.
use cerberus_os.Base.{
  ℕ, ◌<◌, ◌≡◌, refl, ◌≢◌, Bool, true, false, List, String, Option, none, some, arith,
}
use cerberus_os.Scheduler.Tcb.{Capability, ready, running, TaskControlBlock, TaskTable, eq_running}
use cerberus_os.Scheduler.Bitmap.{is_ready, swapped_table}
use cerberus_os.Scheduler.Select.{Selected, rotated, idled}

-- The slot holds the running task.
abbrev pub is_running : Option TaskControlBlock → Bool
is_running none = false
is_running (some t) = eq_running t.state

-- What a task keeps for life: all but its state and its saved stack pointer.
abbrev pub identity : Option TaskControlBlock → Option (ℕ × ℕ × String × List Capability)
identity none = none
identity (some t) = some (t.priority, t.active_priority, t.name, t.capabilities)

abbrev pub saved : Option TaskControlBlock → Option ℕ
saved none = none
saved (some t) = some t.saved_sp

pub ready-some :
    (o : Option TaskControlBlock)
    → is_ready o ≡ true
    → (t : TaskControlBlock) × (o ≡ some t) × (t.state ≡ ready)
ready-some none h = absurd (cc)
ready-some (some t) h = (t, refl, ground arith)

pub Selected-is_ready :
    {table : TaskTable} {current next : ℕ}
    → Selected table current (some next)
    → (next < 32) × (is_ready (table next) ≡ true)
Selected-is_ready (rotated j lt r near) = (omega arith, r)
Selected-is_ready (idled r others) = (omega arith, r)

module _ (table : TaskTable) (c n : ℕ) where
  pub swapped-identity : (i : ℕ) → identity (swapped_table table c n i) ≡ identity (table i)
  unfolding swapped_table
  swapped-identity i = ground arith

  pub swapped-saved : (i : ℕ) → saved (swapped_table table c n i) ≡ saved (table i)
  unfolding swapped_table
  swapped-saved i = ground arith

  pub swapped-next : is_ready (table n) ≡ true → is_running (swapped_table table c n n) ≡ true
  unfolding swapped_table
  swapped-next r = ground arith

  pub swapped-running :
      (i : ℕ)
      → (is_running (table i) ≡ true → i ≡ c)
      → is_running (swapped_table table c n i) ≡ true
      → i ≡ n
  unfolding swapped_table
  swapped-running i sole r = ground arith

  pub swapped-other : (i : ℕ) → i ≢ c → i ≢ n → swapped_table table c n i ≡ table i
  unfolding swapped_table
  swapped-other i hc hn = ground arith

pub swapped-occupied :
    (table : TaskTable) (c n : ℕ) {t : TaskControlBlock}
    → table n ≡ some t
    → (t' : TaskControlBlock) × (swapped_table table c n n ≡ some t')
unfolding swapped_table
swapped-occupied table c n {t} e = (record t { state = running }, ground arith)

-- A slot with the identity of a filled slot is filled.
pub identity-filled :
    (o o' : Option TaskControlBlock) {t : TaskControlBlock}
    → identity o' ≡ identity o
    → o ≡ some t
    → (t' : TaskControlBlock) × (o' ≡ some t')
identity-filled o none e f = ground arith
identity-filled o (some t') e f = (t', refl)
