-- ===== src/Trap/Rendezvous.antt =====
-- kernel/src/trap.rs: what a send and a receive that meet leave behind (system calls 6 and 7).
use cerberus_os.Base.{
  ℕ, ◌+◌, ◌*◌, ◌^◌, ◌<◌, ◌≡◌, refl, inl, inr, arith, ap, ◌∙◌, some, min, true, if◌then◌else◌,
  Bool-cases, ==_refl,
}
use cerberus_os.Scheduler.Tcb.{TaskControlBlock, TaskState, ready}
use cerberus_os.Trap.Memory.{read_frame, reg_a0}
use cerberus_os.Trap.State.{Hart, hart0, hart1, same_hart, Core, Env, slot, set_state, signal}
use cerberus_os.Trap.Ipc.{Party, deliver, fetch}
use cerberus_os.Trap.Words.{Apart, bytes_at, exchanged_lem}

-- Where a frame keeps a0.
abbrev pub answer_of : ℕ → ℕ
answer_of sp = sp + 4 * reg_a0

signal-memory : (from to : Hart) (c : Core) → (signal from to c).memory ≡ c.memory
signal-memory from to c = elim (Bool-cases (same_hart to from)) [
  | inl e ↦ rw e refl
  | inr e ↦ rw e refl
]

signal-slot :
    (from to : Hart) (c : Core) (h : Hart) (i : ℕ) → slot (signal from to c) h i ≡ slot c h i
signal-slot from to c h i = elim (Bool-cases (same_hart to from)) [
  | inl e ↦ rw e refl
  | inr e ↦ rw e refl
]

same_hart_refl : (h : Hart) → same_hart h h ≡ true
same_hart_refl hart0 = refl
same_hart_refl hart1 = refl

signal-msip :
    (from to : Hart) (c : Core)
    → (signal from to c).msip to ≡ (if same_hart to from then c.msip to else 1)
signal-msip from to c = elim (Bool-cases (same_hart to from)) [
  | inl e ↦ rw e refl
  | inr e ↦ rw e (rw (same_hart_refl to) refl)
]

set_state-slot :
    (c : Core) (h : Hart) (i : ℕ) (t : TaskControlBlock) (st : TaskState)
    → slot (set_state c h i t st) h i ≡ some (record t { state = st })
set_state-slot c hart0 i t st = rw (==_refl i) refl
set_state-slot c hart1 i t st = rw (==_refl i) refl

-- What both ways round leave: `n` bytes from `src` stand at `dst`, the waiting party's a0 reads
-- `told` and the caller's `answer`, the party's task is ready, and its core is interrupted if it is
-- not the caller's.
abbrev pub IsExchanged : Env → Party → (src dst n told answer : ℕ) → Core → Core → Type 0
IsExchanged env p src dst n told answer c c' =
    (bytes_at c'.memory dst n ≡ bytes_at c.memory src n)
    × (read_frame c'.memory p.tcb.saved_sp reg_a0 ≡ told)
    × (read_frame c'.memory env.user_sp reg_a0 ≡ answer)
    × (slot c' p.hart p.idx ≡ some (record (p.tcb) { state = ready }))
    × (c'.msip p.hart ≡ (if same_hart p.hart env.hart then c.msip p.hart else 1))

-- The buffer and the two words of the answers have no byte in common.
abbrev pub HasRoom : Env → Party → (dst n : ℕ) → Type 0
HasRoom env p dst n =
    Apart (answer_of p.tcb.saved_sp) 4 dst n
    × Apart (answer_of env.user_sp) 4 dst n
    × Apart (answer_of env.user_sp) 4 (answer_of p.tcb.saved_sp) 4

module _ (env : Env) (endpoint addr len : ℕ) (p : Party) (c : Core) where
  -- A message that meets a waiting receiver: the first bytes of it, as many as both lengths allow,
  -- stand in the receiver's buffer; the receiver is ready, its a0 reads their number, and the sender's
  -- a0 reads 0. The receiver's core is interrupted if it is not the sender's. The buffer and the two
  -- words of the answers lie apart, and the length is a word.
  pub deliver-IsExchanged :
      len < 2 ^ 32
      → HasRoom env p p.addr (min len p.len)
      → IsExchanged env p addr p.addr
          (min len p.len)
          (min len p.len)
          0
          c
          (deliver env endpoint addr len p c)
  unfolding deliver
  deliver-IsExchanged small room =
      let m =
        exchanged_lem c.memory addr p.addr (min len p.len) (answer_of p.tcb.saved_sp)
          (min len p.len) (answer_of env.user_sp) 0 (room.0) (room.1) (room.2) (omega arith)
          (omega arith) in
      let e = signal-memory env.hart p.hart _ in
      (
        ap (λ m. bytes_at m p.addr (min len p.len)) e ∙ m.0,
        ap (λ m. read_frame m p.tcb.saved_sp reg_a0) e ∙ m.1,
        ap (λ m. read_frame m env.user_sp reg_a0) e ∙ m.2,
        signal-slot env.hart p.hart _ p.hart p.idx ∙ set_state-slot c p.hart p.idx p.tcb ready,
        signal-msip env.hart p.hart _,
      )

  -- A receive that meets a waiting sender: the first bytes of the message, as many as both lengths
  -- allow, stand in the receiver's buffer; the sender is ready, its a0 reads 0, and the receiver's a0
  -- reads their number. The sender's core is interrupted if it is not the receiver's. The buffer and
  -- the two words of the answers lie apart, and the length is a word.
  pub fetch-IsExchanged :
      len < 2 ^ 32
      → HasRoom env p addr (min p.len len)
      → IsExchanged env p p.addr addr
          (min p.len len)
          0
          (min p.len len)
          c
          (fetch env endpoint addr len p c)
  unfolding fetch
  fetch-IsExchanged small room =
      let m =
        exchanged_lem c.memory p.addr addr (min p.len len) (answer_of p.tcb.saved_sp) 0
          (answer_of env.user_sp) (min p.len len) (room.0) (room.1) (room.2) (omega arith)
          (omega arith) in
      let e = signal-memory env.hart p.hart _ in
      (
        ap (λ m. bytes_at m addr (min p.len len)) e ∙ m.0,
        ap (λ m. read_frame m p.tcb.saved_sp reg_a0) e ∙ m.1,
        ap (λ m. read_frame m env.user_sp reg_a0) e ∙ m.2,
        signal-slot env.hart p.hart _ p.hart p.idx ∙ set_state-slot c p.hart p.idx p.tcb ready,
        signal-msip env.hart p.hart _,
      )
