-- ===== src/Trap/Handler.antt =====
-- kernel/src/trap.rs: `trap_handler`, the dispatch on the cause of a trap.
use cerberus_os.Base.{ℕ, ◌+◌, ◌-◌, ◌%◌, ◌^◌, ◌&&◌, ◌==◌, if◌then◌else◌}
use cerberus_os.Base.Outcome.{Outcome, done, panicked}
use cerberus_os.Trap.Memory.{read_word, read_frame, reg_a7, reg_mepc}
use cerberus_os.Trap.State.{Kernel, Env, Resumed, write_reg}
use cerberus_os.Trap.Switch.{
  timer_interrupt, software_interrupt, syscall_yield, syscall_sleep, syscall_checkin,
}
use cerberus_os.Trap.Mutex.{syscall_lock, syscall_unlock}
use cerberus_os.Trap.Ipc.{syscall_send, syscall_recv}
use cerberus_os.Trap.Recovery.{syscall_terminate, contain_fault, is_contained}
use cerberus_os.Trap.Emulation.{reads_counter, emulate}

abbrev pub timer_cause : ℕ
timer_cause = 2 ^ 31 + 7

abbrev pub software_cause : ℕ
software_cause = 2 ^ 31 + 3

abbrev pub ecall_cause : ℕ
ecall_cause = 8

-- The `match syscall_id`; an unknown number is only logged.
unfoldable pub syscall : ℕ → Env → Kernel → Outcome Resumed
syscall id env k =
    if id == 1
    then syscall_yield env k
    else if id == 2
    then syscall_sleep env k
    else if id == 3
    then syscall_lock env k
    else if id == 4
    then syscall_unlock env k
    else if id == 5
    then syscall_checkin env k
    else if id == 6
    then syscall_send env k
    else if id == 7
    then syscall_recv env k
    else if id == 8
    then syscall_terminate env k
    else done (env.user_sp, k)

-- The saved program counter moves past the `ecall`, and then the call is dispatched.
unfoldable pub ecall : Env → Kernel → Outcome Resumed
ecall env k =
    let m = k.core.memory in
    let mepc = read_frame m env.user_sp reg_mepc in
    syscall (read_frame m env.user_sp reg_a7) env
      (record k { core = write_reg k.core env.user_sp reg_mepc ((mepc + 4) % 2 ^ 32) })

-- Any other cause: an emulated counter read, a contained fault, or a panic.
unfoldable pub exception : Env → Kernel → Outcome Resumed
exception env k =
    let mepc = read_frame k.core.memory env.user_sp reg_mepc in
    let instruction = read_word k.core.memory mepc in
    if env.mcause == 2 && reads_counter instruction
    then done (env.user_sp, record k { core = emulate env instruction k.core })
    else if is_contained env.mcause
    then contain_fault env k
    else panicked

unfoldable pub dispatch : Env → Kernel → Outcome Resumed
dispatch env k =
    if env.mcause == timer_cause
    then timer_interrupt env k
    else if env.mcause == software_cause
    then software_interrupt env k
    else if env.mcause == ecall_cause
    then ecall env k
    else exception env k

-- The entry latency is stored first.
unfoldable pub trap_handler : Env → Kernel → Outcome Resumed
trap_handler env k =
    let elapsed = (env.end_cycle + 2 ^ 32 - env.start_cycle) % 2 ^ 32 in
    dispatch env (record k { core = record (k.core) { trap_latency = elapsed } })
