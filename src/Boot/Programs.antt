-- ===== src/Boot/Programs.antt =====
-- kernel/src/main.rs: the programs of Tasks A, B and C, over the system calls that they make.
use cerberus_os.Base.{
  ℕ, zero, suc, ◌+◌, ◌%◌, ◌^◌, not, ◌&&◌, List, [], ◌∷◌, replicate, ltb, ◌==◌, if◌then◌else◌,
}
use cerberus_os.Network.Can.{CanFrame}
use cerberus_os.Security.Hsm.{FrameLayout, Port, is_negative, verify_frame_secure}

-- The rest of what a task calls. None of it gives a result.
pub record Desk : Type 1 where
  pub port : Port
  pub lock_mutex : ℕ → port.State → port.State
  pub unlock_mutex : ℕ → port.State → port.State
  pub yield_now : port.State → port.State
  pub dump_metrics : port.State → port.State

abbrev pub test_frame : CanFrame
test_frame = record { id = 0x3E; dlc = 4; payload = 0xAA ∷ 0xBB ∷ 0xCC ∷ 0xDD ∷ replicate 4 0 }

abbrev pub message : List ℕ
message = 0xDE ∷ 0xAD ∷ 0xBE ∷ 0xEF ∷ 0x12 ∷ 0x34 ∷ 0x56 ∷ 0x78 ∷ []

-- What Task A reports of its exchange with the HSM.
pub data Signing : Type 0 where
  verified rejected unanswered : Signing

-- How the body of Task C ends: by the load from the stack of Task A, by the write to `mstatus`, or not.
pub data Ending : Type 0 where
  load_violation privilege_violation alive : Ending

module _ (desk : Desk) (layout : FrameLayout) where
  -- The check of the tag that the HSM sent.
  unfoldable pub check_signature : List ℕ → desk.port.State → Signing × desk.port.State
  check_signature computed_tag s =
      let (hsm_verified, s') =
        verify_frame_secure desk.port layout (record { frame = test_frame; tag = computed_tag }) 2 3
          s in
      (if hsm_verified then verified else rejected, s')

  -- The frame goes to the HSM, and its tag comes back.
  unfoldable pub sign_frame : desk.port.State → Signing × desk.port.State
  sign_frame s =
      let (send_res, s1) = desk.port.sys_send 2 (layout.to_bytes test_frame) s in
      let (recv_res, computed_tag, s2) = desk.port.sys_recv 3 (replicate 8 0) s1 in
      if not (is_negative send_res) && not (is_negative recv_res)
      then check_signature computed_tag s2
      else (unanswered, s2)

  -- One round of `task_a`: the new loop count, and the report.
  unfoldable pub task_a_round : ℕ → desk.port.State → ℕ × Signing × desk.port.State
  task_a_round loop_count s =
      let s1 = desk.unlock_mutex 0 (desk.lock_mutex 0 (desk.port.watchdog_checkin s)) in
      let (report, s2) = sign_frame s1 in
      let (res, s3) = desk.port.sys_send 1 message s2 in
      let count = (loop_count + 1) % 2 ^ 32 in
      let s4 = if count % 10 == 0 then desk.dump_metrics s3 else s3 in
      (count, report, desk.yield_now s4)

module _ (desk : Desk) where
  -- One round of `task_b`, from its count and its buffer. After five rounds it stops to check in.
  unfoldable pub task_b_round : ℕ → List ℕ → desk.port.State → ℕ × List ℕ × desk.port.State
  task_b_round loops rx_buf s =
      let (res, rx_buf', s1) = desk.port.sys_recv 0 rx_buf s in
      let s2 = if ltb loops 5 then desk.port.watchdog_checkin s1 else s1 in
      ((loops + 1) % 2 ^ 32, rx_buf', desk.yield_now s2)

  -- `task_c` up to its fault, or up to its endless loop of yields.
  unfoldable pub task_c : ℕ → desk.port.State → Ending × desk.port.State
  task_c tc s =
      if tc == 0
      then (
        load_violation,
        desk.yield_now (desk.unlock_mutex 0 (desk.yield_now (desk.lock_mutex 0 s))),
      )
      else if tc == 1
      then (privilege_violation, s)
      else (alive, desk.port.watchdog_checkin s)

  -- The first rounds of that loop.
  unfoldable pub yield_loop : ℕ → desk.port.State → desk.port.State
  yield_loop zero s = s
  yield_loop (suc rounds) s = yield_loop rounds (desk.yield_now s)
