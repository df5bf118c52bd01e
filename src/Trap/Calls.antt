-- ===== src/Trap/Calls.antt =====
-- kernel/src/trap_entry.s, telemetry/src/syscalls.rs: what a system call finds of the registers that its
-- wrapper loaded.
use cerberus_os.Base.{
  ℕ, ◌+◌, ◌-◌, ◌*◌, ◌%◌, ◌^◌, ◌<◌, ◌≡◌, refl, ◌∙◌, subst, arith, inl, inr, List, [], ◌∷◌, Bool,
  true, false, ◌&&◌, ◌||◌, ◌==◌, leb, Bool-cases,
}
use cerberus_os.Base.Outcome.{Outcome}
use cerberus_os.Trap.Memory.{
  Memory, read_word, read_frame, reg_a0, reg_a1, reg_a2, reg_a7, reg_mepc,
}
use cerberus_os.Trap.Words.{Apart, read_word-write_word, read_word-other}
use cerberus_os.Trap.State.{Kernel, Env, Resumed, write_reg}
use cerberus_os.Trap.Switch.{syscall_yield, syscall_sleep, syscall_checkin}
use cerberus_os.Trap.Mutex.{syscall_lock, syscall_unlock}
use cerberus_os.Trap.Ipc.{syscall_send, syscall_recv}
use cerberus_os.Trap.Recovery.{syscall_terminate}
use cerberus_os.Trap.Handler.{trap_handler, dispatch, ecall, syscall, ecall_cause}
use cerberus_os.Trap.Entry.{
  Regs, stores, save_regs, save_frame, frame_sp, entered, trap_entry, yield_now, sleep_ticks,
  lock_mutex, unlock_mutex, watchdog_checkin, sys_send, sys_recv, sys_terminate_task,
}

-- The stores leave the word at offset `j` alone.
is_apart : ℕ → List (ℕ × ℕ) → Bool
is_apart j [] = true
is_apart j ((n, o) ∷ rest) = (leb (j + 4) o || leb (o + 4) j) && is_apart j rest

-- Register `n` is stored at offset `o`, and no later store touches that word.
is_kept : ℕ → ℕ → List (ℕ × ℕ) → Bool
is_kept n o [] = false
is_kept n o ((n', o') ∷ rest) = ((n == n' && o == o') && is_apart o rest) || is_kept n o rest

module _ (x : ℕ → ℕ) (sp : ℕ) where
  save_regs-apart :
      (ts : List (ℕ × ℕ)) (j : ℕ) (m : Memory)
      → is_apart j ts ≡ true
      → read_word (save_regs ts x sp m) (sp + j) ≡ read_word m (sp + j)
  unfolding save_regs is_apart
  save_regs-apart [] j m e = refl
  save_regs-apart ((n, o) ∷ rest) j m e =
      let apart : Apart (sp + o) 4 (sp + j) 4 = ground (arith, e) in
      save_regs-apart rest j _ (ground (arith, e)) ∙ read_word-other m (sp + o) (x n) (sp + j) apart

  save_regs-kept :
      (ts : List (ℕ × ℕ)) (n o : ℕ) (m : Memory)
      → is_kept n o ts ≡ true
      → x n < 2 ^ 32
      → read_word (save_regs ts x sp m) (sp + o) ≡ x n
  unfolding save_regs is_kept
  save_regs-kept [] n o m e small = absurd (cc e)
  save_regs-kept ((n', o') ∷ rest) n o m e small =
      elim (Bool-cases ((n == n' && o == o') && is_apart o rest)) [
        | inl now ↦
            let same : n ≡ n' = ground (arith, now) in
            let place : o ≡ o' = ground (arith, now) in
            save_regs-apart rest o _ (ground (arith, now))
            ∙ (rw place (
                rw same
                  (read_word-write_word m (sp + o') (x n') (subst (λ a. x a < 2 ^ 32) same small))))
        | inr later ↦ save_regs-kept rest n o _ (ground (arith, e, later)) small
      ]

-- The system calls of the wrappers.
pub data Call : Type 0 where
  yield checkin : Call
  sleep lock unlock terminate : (arg : ℕ) → Call
  send recv : (cap_idx ptr len : ℕ) → Call

abbrev pub wrapper : Call → Regs → Regs
wrapper yield = yield_now
wrapper checkin = watchdog_checkin
wrapper (sleep ticks) = sleep_ticks ticks
wrapper (lock idx) = lock_mutex idx
wrapper (unlock idx) = unlock_mutex idx
wrapper (terminate prio) = sys_terminate_task prio
wrapper (send cap_idx ptr len) = sys_send cap_idx ptr len
wrapper (recv cap_idx ptr len) = sys_recv cap_idx ptr len

-- The call in the kernel that each is for.
abbrev pub meant : Call → Env → Kernel → Outcome Resumed
meant yield = syscall_yield
meant checkin = syscall_checkin
meant (sleep ticks) = syscall_sleep
meant (lock idx) = syscall_lock
meant (unlock idx) = syscall_unlock
meant (terminate prio) = syscall_terminate
meant (send cap_idx ptr len) = syscall_send
meant (recv cap_idx ptr len) = syscall_recv

-- The arguments, in the order of a0, a1 and a2.
abbrev pub Passed : Call → (ℕ → ℕ) → Type 0
Passed yield w = Unit
Passed checkin w = Unit
Passed (sleep ticks) w = w reg_a0 ≡ ticks
Passed (lock idx) w = w reg_a0 ≡ idx
Passed (unlock idx) w = w reg_a0 ≡ idx
Passed (terminate prio) w = w reg_a0 ≡ prio
Passed (send cap_idx ptr len) w = (w reg_a0 ≡ cap_idx) × (w reg_a1 ≡ ptr) × (w reg_a2 ≡ len)
Passed (recv cap_idx ptr len) w = (w reg_a0 ≡ cap_idx) × (w reg_a1 ≡ ptr) × (w reg_a2 ≡ len)

-- The kernel that the call meets: the registers in the frame, the saved program counter past the
-- `ecall`, and the latency of the entry stored.
abbrev pub met : Env → Regs → Kernel → Kernel
met env r k =
    let timed = record (k.core) {
      memory = save_frame r (frame_sp r) k.core.memory;
      trap_latency = (env.end_cycle + 2 ^ 32 - env.start_cycle) % 2 ^ 32;
    } in
    record k { core = write_reg timed (frame_sp r) reg_mepc ((r.mepc + 4) % 2 ^ 32) }

-- All that the entry reads is 32 bits wide.
pub record HasWords (r : Regs) : Type 0 where
  pub regs : (n : ℕ) → r.x n < 2 ^ 32
  pub mepc : r.mepc < 2 ^ 32

module _ (env : Env) (r : Regs) (k : Kernel) (words : HasWords r) where
  found :
      (n j : ℕ)
      → is_kept n (4 * j) stores ≡ true
      → j < 28
      → read_frame (save_frame r (frame_sp r) k.core.memory) (frame_sp r) j ≡ r.x n
  unfolding save_frame
  found n j kept lt =
      let sp = frame_sp r in
      read_word-other _ (sp + 116) r.mstatus (sp + 4 * j) (inr (omega arith))
      ∙ read_word-other _ (sp + 112) r.mepc (sp + 4 * j) (inr (omega arith))
      ∙ save_regs-kept r.x sp stores n (4 * j) k.core.memory kept (words.regs n)

  found_mepc : read_frame (save_frame r (frame_sp r) k.core.memory) (frame_sp r) reg_mepc ≡ r.mepc
  unfolding save_frame
  found_mepc =
      let sp = frame_sp r in
      read_word-other _ (sp + 116) r.mstatus (sp + 112) (inr (omega arith))
      ∙ read_word-write_word _ (sp + 112) r.mepc words.mepc

  found_a7 : read_frame (save_frame r (frame_sp r) k.core.memory) (frame_sp r) reg_a7 ≡ r.x 17
  unfolding is_kept is_apart
  found_a7 = found 17 13 refl (omega arith)

  trap_entry_ecall :
      env.mcause ≡ ecall_cause → trap_entry env r k ≡ syscall (r.x 17) (entered env r) (met env r k)
  unfolding trap_entry trap_handler dispatch ecall
  trap_entry_ecall e = rw e (rw found_a7 (rw found_mepc refl))

  passed :
      (n j : ℕ)
      → is_kept n (4 * j) stores ≡ true
      → j < 28
      → read_frame ((met env r k).core).memory (frame_sp r) j ≡ r.x n
  passed n j kept lt =
      let sp = frame_sp r in
      read_word-other (save_frame r sp k.core.memory) (sp + 112) ((r.mepc + 4) % 2 ^ 32)
        (sp + 4 * j) (inr (omega arith))
      ∙ found n j kept lt

  passed_a0 : read_frame ((met env r k).core).memory (frame_sp r) reg_a0 ≡ r.x 10
  unfolding is_kept is_apart
  passed_a0 = passed 10 6 refl (omega arith)

  passed_a1 : read_frame ((met env r k).core).memory (frame_sp r) reg_a1 ≡ r.x 11
  unfolding is_kept is_apart
  passed_a1 = passed 11 7 refl (omega arith)

  passed_a2 : read_frame ((met env r k).core).memory (frame_sp r) reg_a2 ≡ r.x 12
  unfolding is_kept is_apart
  passed_a2 = passed 12 8 refl (omega arith)

-- A system call, from the wrapper over the trap entry to the handler, with words in all registers and
-- in `mepc`: the handler runs the call that the wrapper is for, on a frame 128 bytes below the stack
-- pointer of the task, in whose words 6, 7 and 8, where the handler reads a0, a1 and a2, the arguments
-- of the wrapper stand, with the saved program counter past the `ecall`.
pub trap_entry-wrapper :
    (call : Call) (env : Env) (r : Regs) (k : Kernel)
    → env.mcause ≡ ecall_cause
    → HasWords (wrapper call r)
    → let k' = met env (wrapper call r) k in
      (trap_entry env (wrapper call r) k ≡ meant call (entered env (wrapper call r)) k')
      × Passed call (read_frame (k'.core).memory (frame_sp (wrapper call r)))
unfolding syscall yield_now sleep_ticks lock_mutex unlock_mutex watchdog_checkin sys_send sys_recv
    sys_terminate_task
trap_entry-wrapper yield env r k e w = (trap_entry_ecall env (yield_now r) k w e, tt)
trap_entry-wrapper checkin env r k e w = (trap_entry_ecall env (watchdog_checkin r) k w e, tt)
trap_entry-wrapper (sleep ticks) env r k e w =
    let r' = sleep_ticks ticks r in (trap_entry_ecall env r' k w e, passed_a0 env r' k w)
trap_entry-wrapper (lock idx) env r k e w =
    let r' = lock_mutex idx r in (trap_entry_ecall env r' k w e, passed_a0 env r' k w)
trap_entry-wrapper (unlock idx) env r k e w =
    let r' = unlock_mutex idx r in (trap_entry_ecall env r' k w e, passed_a0 env r' k w)
trap_entry-wrapper (terminate prio) env r k e w =
    let r' = sys_terminate_task prio r in (trap_entry_ecall env r' k w e, passed_a0 env r' k w)
trap_entry-wrapper (send cap_idx ptr len) env r k e w =
    let r' = sys_send cap_idx ptr len r in
    (
      trap_entry_ecall env r' k w e,
      (passed_a0 env r' k w, passed_a1 env r' k w, passed_a2 env r' k w),
    )
trap_entry-wrapper (recv cap_idx ptr len) env r k e w =
    let r' = sys_recv cap_idx ptr len r in
    (
      trap_entry_ecall env r' k w e,
      (passed_a0 env r' k w, passed_a1 env r' k w, passed_a2 env r' k w),
    )
