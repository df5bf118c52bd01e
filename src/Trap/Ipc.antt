-- ===== src/Trap/Ipc.antt =====
-- kernel/src/trap.rs: system calls 6 (send) and 7 (receive), a synchronous rendezvous.
use cerberus_os.Base.{
  ℕ, zero, suc, ◌+◌, ◌%◌, true, false, Option, none, some, ◌==◌, if◌then◌else◌, min,
}
use cerberus_os.Base.Outcome.{Outcome, done, ◌>>=◌, unwrap}
use cerberus_os.Scheduler.Tcb.{
  Capability, ipc, TaskState, ready, blocked_on_ipc_send, blocked_on_ipc_recv, TaskControlBlock,
  TaskTable,
}
use cerberus_os.Trap.Memory.{copy, read_frame, reg_a0, reg_a1, reg_a2, minus_one}
use cerberus_os.Trap.State.{
  Hart, hart0, hart1, ipc_transfer, Core, Kernel, Env, Resumed, running_idx, slot, set_state,
  write_reg, emit, signal, with_sched_lock,
}
use cerberus_os.Trap.Switch.{switch}
use cerberus_os.Trap.Mutex.{running_cap}

abbrev pub send_right : Option Capability → Option ℕ
send_right (some (ipc e true r)) = some e
send_right _ = none

abbrev pub recv_right : Option Capability → Option ℕ
recv_right (some (ipc e s true)) = some e
recv_right _ = none

-- A task that waits on the endpoint, with its address and length; `None` otherwise.
abbrev pub receives_on : ℕ → TaskState → Option (ℕ × ℕ)
receives_on e (blocked_on_ipc_recv e' buf_addr max_len) =
    if e' == e then some (buf_addr, max_len) else none
receives_on e _ = none

abbrev pub sends_on : ℕ → TaskState → Option (ℕ × ℕ)
sends_on e (blocked_on_ipc_send e' msg_addr msg_len) =
    if e' == e then some (msg_addr, msg_len) else none
sends_on e _ = none

-- The other party of a rendezvous.
pub record Party : Type 0 where
  pub hart : Hart
  pub idx : ℕ
  pub tcb : TaskControlBlock
  pub addr : ℕ
  pub len : ℕ

abbrev pub match_slot :
    (TaskState → Option (ℕ × ℕ)) → Hart → ℕ → Option TaskControlBlock → Option Party
match_slot waits h i none = none
match_slot waits h i (some t) = elim (waits t.state) [
  | none ↦ none
  | some (addr, len) ↦ some (record { hart = h; idx = i; tcb = t; addr = addr; len = len })
]

abbrev pub first_party : Option Party → Option Party → Option Party
first_party (some p) o = some p
first_party none o = o

-- The first slot from `i` on whose task waits so, with `rounds` slots left.
unfoldable pub find_in : (TaskState → Option (ℕ × ℕ)) → Hart → TaskTable → ℕ → ℕ → Option Party
find_in waits h table zero i = none
find_in waits h table (suc rounds) i =
    first_party (match_slot waits h i (table i)) (find_in waits h table rounds (i + 1))

-- Core 0 is searched before core 1.
unfoldable pub find_party : (TaskState → Option (ℕ × ℕ)) → Core → Option Party
find_party waits c =
    first_party (find_in waits hart0 (c.scheds hart0).task_table 32 0)
      (find_in waits hart1 (c.scheds hart1).task_table 32 0)

-- -1 to the caller.
unfoldable pub refuse : Env → Kernel → Outcome Resumed
refuse env k = done (env.user_sp, record k { core = write_reg k.core env.user_sp reg_a0 minus_one })

-- The receiver `p` waits: it gets the first bytes of the message and their number, and is ready.
unfoldable pub deliver : Env → ℕ → ℕ → ℕ → Party → Core → Core
deliver env endpoint msg_addr msg_len p c =
    let n = min msg_len p.len in
    let copied = record c { memory = copy c.memory msg_addr p.addr n } in
    let woken = set_state copied p.hart p.idx p.tcb ready in
    let told = write_reg woken p.tcb.saved_sp reg_a0 n in
    let answered = write_reg told env.user_sp reg_a0 0 in
    signal env.hart p.hart (emit answered (ipc_transfer endpoint (n % 256)))

-- The running task waits in the given state.
unfoldable pub park : Env → TaskState → Kernel → Outcome Resumed
park env st k =
    let h = env.hart in
    let i = running_idx h k.core in
    unwrap (slot k.core h i) >>= λ t.
    switch env false (record k { core = set_state k.core h i t st })

unfoldable pub send : Env → ℕ → Kernel → Outcome Resumed
send env endpoint k =
    let m = k.core.memory in
    let msg_addr = read_frame m env.user_sp reg_a1 in
    let msg_len = read_frame m env.user_sp reg_a2 in
    elim (find_party (receives_on endpoint) k.core) [
      | none ↦ park env (blocked_on_ipc_send endpoint msg_addr msg_len) k
      | some p ↦
          done (env.user_sp, record k { core = deliver env endpoint msg_addr msg_len p k.core })
    ]

unfoldable pub send_body : Env → Kernel → Outcome Resumed
send_body env k =
    running_cap env.hart (read_frame k.core.memory env.user_sp reg_a0) k.core >>= λ cap.
    elim (send_right cap) [ none ↦ refuse env k | some e ↦ send env e k ]

-- System call 6.
unfoldable pub syscall_send : Env → Kernel → Outcome Resumed
syscall_send env k = with_sched_lock env.hart (send_body env) k

-- The sender `p` waits: its message is fetched, it gets 0, and it is ready; the caller gets the
-- number of bytes.
unfoldable pub fetch : Env → ℕ → ℕ → ℕ → Party → Core → Core
fetch env endpoint buf_addr max_len p c =
    let n = min p.len max_len in
    let copied = record c { memory = copy c.memory p.addr buf_addr n } in
    let woken = set_state copied p.hart p.idx p.tcb ready in
    let told = write_reg woken p.tcb.saved_sp reg_a0 0 in
    let answered = write_reg told env.user_sp reg_a0 n in
    signal env.hart p.hart (emit answered (ipc_transfer endpoint (n % 256)))

unfoldable pub recv : Env → ℕ → Kernel → Outcome Resumed
recv env endpoint k =
    let m = k.core.memory in
    let buf_addr = read_frame m env.user_sp reg_a1 in
    let max_len = read_frame m env.user_sp reg_a2 in
    elim (find_party (sends_on endpoint) k.core) [
      | none ↦ park env (blocked_on_ipc_recv endpoint buf_addr max_len) k
      | some p ↦
          done (env.user_sp, record k { core = fetch env endpoint buf_addr max_len p k.core })
    ]

unfoldable pub recv_body : Env → Kernel → Outcome Resumed
recv_body env k =
    running_cap env.hart (read_frame k.core.memory env.user_sp reg_a0) k.core >>= λ cap.
    elim (recv_right cap) [ none ↦ refuse env k | some e ↦ recv env e k ]

-- System call 7.
unfoldable pub syscall_recv : Env → Kernel → Outcome Resumed
syscall_recv env k = with_sched_lock env.hart (recv_body env) k
