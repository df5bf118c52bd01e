-- ===== src/Trap/Returns/Ipc.antt =====
-- kernel/src/trap.rs: system calls 6 and 7 return.
use cerberus_os.Base.{ℕ, ◌%◌, ◌≡◌, refl, subst, Option, some, false, min}
use cerberus_os.Base.Ending.{Makes, makes, make_bind, make_option, Ends, end_make}
use cerberus_os.Scheduler.Tcb.{TaskState, ready, eq_running}
use cerberus_os.Spinlock.Calls.{IsOpen}
use cerberus_os.Trap.Memory.{Memory, copy, read_frame, reg_a0, minus_one}
use cerberus_os.Trap.State.{
  hart_id, ipc_transfer, TraceEvent, Core, Kernel, Env, slot, running_idx, set_state, write_reg,
  emit,
}
use cerberus_os.Trap.Mutex.{running_cap}
use cerberus_os.Trap.Ipc.{
  send_right, recv_right, receives_on, sends_on, Party, find_party, refuse, deliver, fetch, park,
  send, send_body, syscall_send, recv, recv_body, syscall_recv,
}
use cerberus_os.Trap.Parties.{IsFirstParty, somebody, find_party-IsFirstParty}
use cerberus_os.Trap.Roster.{IsManned, set_state-IsManned, switch-IsManned, signal-IsManned}
use cerberus_os.Trap.Capabilities.{Roster}
use cerberus_os.Trap.Returns.{IsFair, Manned, current, running_cap-Makes, with_sched_lock-Ends}
use cerberus_os.Trap.Returns.Mutex.{write_reg-IsManned}

stands :
    (waits : TaskState → Option (ℕ × ℕ)) (c : Core) (p : Party)
    → IsFirstParty waits c (some p)
    → slot c p.hart p.idx ≡ some p.tcb
stands waits c p (somebody at first) = at.1

module _ (R : Roster) (env : Env) where
  refuse-Makes : (k : Kernel) → IsManned R k.core → Makes (Manned R) (refuse env k)
  unfolding refuse
  refuse-Makes k m = makes (write_reg-IsManned R k.core env.user_sp reg_a0 minus_one m)

  -- Both ways round: some memory is copied, the party is ready, and two words are written.
  met-IsManned :
      (c : Core) (p : Party) (mem : Memory) (told answer : ℕ) (ev : TraceEvent)
      → slot c p.hart p.idx ≡ some p.tcb
      → IsManned R c
      → IsManned R (
          emit
            (write_reg
              (write_reg
                (set_state (record c { memory = mem }) p.hart p.idx p.tcb ready)
                p.tcb.saved_sp
                reg_a0
                told)
              env.user_sp
              reg_a0
              answer)
            ev)
  met-IsManned c p mem told answer ev e m =
      let w = set_state-IsManned R c p.hart p.idx p.tcb ready e refl m in
      record { tables = w.tables; rights = w.rights; placed = w.placed }

  deliver-IsManned :
      (endpoint addr len : ℕ) (p : Party) (c : Core)
      → slot c p.hart p.idx ≡ some p.tcb
      → IsManned R c
      → IsManned R (deliver env endpoint addr len p c)
  unfolding deliver
  deliver-IsManned endpoint addr len p c e m = signal-IsManned R env.hart p.hart _ (
      met-IsManned c p (copy c.memory addr p.addr (min len p.len)) (min len p.len) 0
        (ipc_transfer endpoint (min len p.len % 256)) e m)

  fetch-IsManned :
      (endpoint addr len : ℕ) (p : Party) (c : Core)
      → slot c p.hart p.idx ≡ some p.tcb
      → IsManned R c
      → IsManned R (fetch env endpoint addr len p c)
  unfolding fetch
  fetch-IsManned endpoint addr len p c e m = signal-IsManned R env.hart p.hart _ (
      met-IsManned c p (copy c.memory p.addr addr (min p.len len)) 0 (min p.len len)
        (ipc_transfer endpoint (min p.len len % 256)) e m)

  module _ (fair : IsFair R) where
    park-Makes :
        (st : TaskState) (k : Kernel)
        → eq_running st ≡ false
        → IsManned R k.core
        → Makes (Manned R) (park env st k)
    unfolding park
    park-Makes st k off m =
        let i = running_idx env.hart k.core in
        let (t, e, r) = current R fair k.core env.hart m in
        let k' = record k { core = set_state k.core env.hart i t st } in
        rw e (switch-IsManned R env false k' (set_state-IsManned R k.core env.hart i t st e off m))

    send-Makes :
        (endpoint : ℕ) (k : Kernel) → IsManned R k.core → Makes (Manned R) (send env endpoint k)
    unfolding send
    send-Makes endpoint k m =
        make_option (find_party (receives_on endpoint) k.core) (λ e. park-Makes _ k refl m)
          (λ p e. makes (
            deliver-IsManned endpoint _ _ p k.core
              (stands (receives_on endpoint) k.core p (
                subst (IsFirstParty (receives_on endpoint) k.core) e
                  (find_party-IsFirstParty (receives_on endpoint) k.core)))
              m))

    recv-Makes :
        (endpoint : ℕ) (k : Kernel) → IsManned R k.core → Makes (Manned R) (recv env endpoint k)
    unfolding recv
    recv-Makes endpoint k m =
        make_option (find_party (sends_on endpoint) k.core) (λ e. park-Makes _ k refl m)
          (λ p e. makes (
            fetch-IsManned endpoint _ _ p k.core
              (stands (sends_on endpoint) k.core p (
                subst (IsFirstParty (sends_on endpoint) k.core) e
                  (find_party-IsFirstParty (sends_on endpoint) k.core)))
              m))

    send_body-Makes : (k : Kernel) → IsManned R k.core → Makes (Manned R) (send_body env k)
    unfolding send_body
    send_body-Makes k m =
        let cap_idx = read_frame k.core.memory env.user_sp reg_a0 in
        make_bind (running_cap env.hart cap_idx k.core)
          (running_cap-Makes R fair k.core env.hart cap_idx m)
          (λ cap held.
            make_option (send_right cap) (λ e. refuse-Makes k m) (λ x e. send-Makes x k m))

    recv_body-Makes : (k : Kernel) → IsManned R k.core → Makes (Manned R) (recv_body env k)
    unfolding recv_body
    recv_body-Makes k m =
        let cap_idx = read_frame k.core.memory env.user_sp reg_a0 in
        make_bind (running_cap env.hart cap_idx k.core)
          (running_cap-Makes R fair k.core env.hart cap_idx m)
          (λ cap held.
            make_option (recv_right cap) (λ e. refuse-Makes k m) (λ x e. recv-Makes x k m))

    -- System call 6 returns.
    pub syscall_send-Ends :
        {Reason : Type 0} (k : Kernel)
        → IsOpen (hart_id env.hart) k.sched_lock
        → IsManned R k.core
        → Ends Reason (Manned R) (syscall_send env k)
    unfolding syscall_send
    syscall_send-Ends k o m =
        with_sched_lock-Ends R fair env.hart (send_body env) k o
          (λ l. end_make (send_body-Makes (record k { sched_lock = l }) m))

    -- System call 7 returns.
    pub syscall_recv-Ends :
        {Reason : Type 0} (k : Kernel)
        → IsOpen (hart_id env.hart) k.sched_lock
        → IsManned R k.core
        → Ends Reason (Manned R) (syscall_recv env k)
    unfolding syscall_recv
    syscall_recv-Ends k o m =
        with_sched_lock-Ends R fair env.hart (recv_body env) k o
          (λ l. end_make (recv_body-Makes (record k { sched_lock = l }) m))
