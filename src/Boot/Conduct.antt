-- ===== src/Boot/Conduct.antt =====
-- kernel/src/main.rs and security/src/hsm.rs: which calls the programs of the boot make.
use cerberus_os.Base.{
  ℕ, zero, suc, ◌+◌, ◌%◌, ◌^◌, ◌≡◌, refl, ◌∙◌, Bool, Bool-cases, true, false, not, ◌&&◌, ◌||◌, inl,
  inr, List, [], ◌∷◌, length, get_elem?, ltb, ◌==◌,
}
use cerberus_os.Base.Outcome.{
  Settles, returns, Anything, settle_if, settle_assert, settle_then, settle_option,
}
use cerberus_os.Scheduler.Tcb.{Capability}
use cerberus_os.Trap.Mutex.{lock_right, unlock_right}
use cerberus_os.Trap.Ipc.{send_right, recv_right}
use cerberus_os.Trap.Capabilities.{is_some}
use cerberus_os.Security.Hmac.{payload_of, compute_hmac_local}
use cerberus_os.Security.Hsm.{
  frame_size, FrameLayout, Port, AuthFrame, is_negative, verify_frame_secure, hsm_reply, hsm_round,
}
use cerberus_os.Boot.Tasks.{caps_a, caps_b, caps_c, caps_hsm}
use cerberus_os.Boot.Programs.{
  Desk, test_frame, check_signature, sign_frame, task_a_round, task_b_round, task_c, yield_loop,
}

-- A system call of a task, with its arguments.
pub data Request : Type 0 where
  checks_in yields : Request
  locks unlocks : (cap_idx : ℕ) → Request
  sends : (cap_idx : ℕ) (bytes : List ℕ) → Request
  receives : (cap_idx len : ℕ) → Request

-- The capabilities give the right to the call.
abbrev pub may : List Capability → Request → Bool
may caps checks_in = true
may caps yields = true
may caps (locks j) = is_some (lock_right (get_elem? caps j))
may caps (unlocks j) = is_some (unlock_right (get_elem? caps j))
may caps (sends j bytes) = is_some (send_right (get_elem? caps j))
may caps (receives j len) = is_some (recv_right (get_elem? caps j))

-- After the calls, the latest first, the task has locked by this capability and not unlocked since.
abbrev pub has_locked : ℕ → List Request → Bool
has_locked j [] = false
has_locked j (locks i ∷ log) = i == j || has_locked j log
has_locked j (unlocks i ∷ log) = not (i == j) && has_locked j log
has_locked j (checks_in ∷ log) = has_locked j log
has_locked j (yields ∷ log) = has_locked j log
has_locked j (sends i bytes ∷ log) = has_locked j log
has_locked j (receives i len ∷ log) = has_locked j log

abbrev pub in_order : Request → List Request → Bool
in_order (unlocks j) log = has_locked j log
in_order _ log = true

-- Every call is one that the capabilities give the right to, and every unlock follows its lock.
abbrev pub is_proper : List Capability → List Request → Bool
is_proper caps [] = true
is_proper caps (r ∷ log) = may caps r && (in_order r log && is_proper caps log)

-- The calls since are proper if those before are, and lock and unlock the first mutex in pairs.
abbrev pub IsKept : List Capability → (log log' : List Request) → Type 0
IsKept caps log log' =
    (is_proper caps log' ≡ is_proper caps log) × (has_locked 0 log' ≡ has_locked 0 log)

-- A kernel that writes down the calls, and answers each as it likes.
module _ (result : List Request → ℕ) (bytes : List Request → List ℕ) where
  abbrev pub recorder : Port
  recorder = record {
    State = List Request;
    sys_send = λ j msg log. (result (sends j msg ∷ log), sends j msg ∷ log);
    sys_recv =
        λ j buf log. let log' = receives j (length buf) ∷ log in (result log', bytes log', log');
    watchdog_checkin = λ log. checks_in ∷ log;
  }

  abbrev pub book : Desk
  book = record {
    port = recorder;
    lock_mutex = λ j log. locks j ∷ log;
    unlock_mutex = λ j log. unlocks j ∷ log;
    yield_now = λ log. yields ∷ log;
    dump_metrics = λ log. log;
  }

  module _ (layout : FrameLayout) where
    verify_frame_secure-IsKept :
        (auth : AuthFrame) (log : List Request)
        → IsKept caps_a log ((verify_frame_secure recorder layout auth 2 3 log).1)
    unfolding verify_frame_secure
    verify_frame_secure-IsKept auth log =
        let log1 = sends 2 (layout.to_bytes auth.frame) ∷ log in
        elim (Bool-cases (is_negative (result log1))) [
          | inl e ↦ rw e (refl, refl)
          | inr e ↦ rw e (elim (Bool-cases (is_negative (result (receives 3 8 ∷ log1)))) [
            | inl e' ↦ rw e' (refl, refl)
            | inr e' ↦ rw e' (refl, refl)
          ])
        ]

    sign_frame-IsKept : (log : List Request) → IsKept caps_a log ((sign_frame book layout log).1)
    unfolding sign_frame check_signature
    sign_frame-IsKept log =
        let log1 = sends 2 (layout.to_bytes test_frame) ∷ log in
        let log2 = receives 3 8 ∷ log1 in
        let auth : AuthFrame = record { frame = test_frame; tag = bytes log2 } in
        elim (Bool-cases (not (is_negative (result log1)) && not (is_negative (result log2)))) [
          | inl e ↦ rw e (verify_frame_secure-IsKept auth log2)
          | inr e ↦ rw e (refl, refl)
        ]

    -- A round of Task A, from any calls before: all its calls are proper if those were, and it ends
    -- with the mutex unlocked.
    task_a_round-proper :
        (n : ℕ) (log : List Request)
        → (is_proper caps_a ((task_a_round book layout n log).2) ≡ is_proper caps_a log)
          × (has_locked 0 ((task_a_round book layout n log).2) ≡ false)
    unfolding task_a_round
    task_a_round-proper n log =
        let kept = sign_frame-IsKept (unlocks 0 ∷ locks 0 ∷ checks_in ∷ log) in
        elim (Bool-cases ((n + 1) % 2 ^ 32 % 10 == 0)) [ inl e ↦ rw e kept | inr e ↦ rw e kept ]

    hsm_reply-Settles :
        (sha256 : List ℕ → List ℕ) (res : ℕ) (buf : List ℕ)
        → Settles Anything (hsm_reply sha256 layout res buf)
    unfolding hsm_reply compute_hmac_local
    hsm_reply-Settles sha256 res buf =
        settle_if (res == frame_size)
          (settle_then (compute_hmac_local sha256 (layout.from_bytes buf))
            (settle_then (payload_of (layout.from_bytes buf)) (settle_assert _ (returns (tt {0})))
              (λ payload. settle_assert _ (returns (tt {0}))))
            (λ tag. returns tt))
          (returns tt)

    hsm_round-IsKept :
        (sha256 : List ℕ → List ℕ) (buf : List ℕ) (log : List Request)
        → Settles (λ r. IsKept caps_hsm log (r.1)) (hsm_round sha256 recorder layout buf log)
    unfolding hsm_round
    hsm_round-IsKept sha256 buf log =
        let log' = receives 0 (length buf) ∷ checks_in ∷ log in
        settle_then (hsm_reply sha256 layout (result log') (bytes log'))
          (hsm_reply-Settles sha256 (result log') (bytes log'))
          (λ answer. settle_option answer (returns (refl, refl)) (λ tag. returns (refl, refl)))

  task_b_round-IsKept :
      (n : ℕ) (buf : List ℕ) (log : List Request)
      → IsKept caps_b log ((task_b_round book n buf log).2)
  unfolding task_b_round
  task_b_round-IsKept n buf log = elim (Bool-cases (ltb n 5)) [
    | inl e ↦ rw e (refl, refl)
    | inr e ↦ rw e (refl, refl)
  ]

  task_c-proper :
      (tc : ℕ) (log : List Request)
      → (is_proper caps_c ((task_c book tc log).1) ≡ is_proper caps_c log)
        × (has_locked 0 ((task_c book tc log).1) ≡ (not (tc == 0) && has_locked 0 log))
  unfolding task_c
  task_c-proper tc log = elim (Bool-cases (tc == 0)) [
    | inl e ↦ rw e (refl, refl)
    | inr e ↦
        rw e (elim (Bool-cases (tc == 1)) [
          | inl e' ↦ rw e' (refl, refl)
          | inr e' ↦ rw e' (refl, refl)
        ])
  ]

  yield_loop-IsKept :
      (rounds : ℕ) (log : List Request) → IsKept caps_c log (yield_loop book rounds log)
  unfolding yield_loop
  yield_loop-IsKept zero log = (refl, refl)
  yield_loop-IsKept (suc rounds) log = yield_loop-IsKept rounds (yields ∷ log)

  -- The programs that the kernel boots with, whatever the kernel answers to their calls: every call of a
  -- round of Task A, of Task B and of the HSM task, and of Task C up to its fault or over any number of
  -- rounds of its loop, is one that the capabilities of the task give the right to, and every unlock
  -- follows its lock, if that held of the calls before. A round of Task A ends with the mutex unlocked;
  -- Task B and the HSM task leave it as it was; so does Task C, but for its first run, which
  -- unlocks it. The HSM task may panic.
  pub programs_proper :
      (layout : FrameLayout) (sha256 : List ℕ → List ℕ) (n tc rounds : ℕ) (buf : List ℕ)
      (log : List Request)
      → let log_a = (task_a_round book layout n log).2 in
        let log_c = yield_loop book rounds ((task_c book tc log).1) in
        ((is_proper caps_a log_a ≡ is_proper caps_a log) × (has_locked 0 log_a ≡ false))
        × IsKept caps_b log ((task_b_round book n buf log).2)
        × ((is_proper caps_c log_c ≡ is_proper caps_c log)
            × (has_locked 0 log_c ≡ (not (tc == 0) && has_locked 0 log)))
        × Settles (λ r. IsKept caps_hsm log (r.1)) (hsm_round sha256 recorder layout buf log)
  programs_proper layout sha256 n tc rounds buf log =
      let c = task_c-proper tc log in
      let yielded = yield_loop-IsKept rounds ((task_c book tc log).1) in
      (
        task_a_round-proper layout n log,
        task_b_round-IsKept n buf log,
        (yielded.0 ∙ c.0, yielded.1 ∙ c.1),
        hsm_round-IsKept layout sha256 buf log,
      )
