-- ===== src/Security/Hsm.antt =====
-- security/src/hmac.rs (`verify_frame_secure`) and security/src/hsm.rs (`hsm_task`), over the system
-- calls that they make.
use cerberus_os.Base.{
  ℕ, ◌^◌, ◌<◌, ◌≡◌, Bool, false, ◌==◌, List, length, replicate, leb, if◌then◌else◌, Option, none,
  some,
}
use cerberus_os.Base.Outcome.{Outcome, done, ◌>>=◌}
use cerberus_os.Network.Can.{CanFrame}
use cerberus_os.Security.Bytes.{differences}
use cerberus_os.Security.Hmac.{hmac_tag_len, compute_hmac_local}

-- What the types of `CanFrame` hold: a `u16`, a `u8` and 8 bytes.
abbrev pub IsTyped : CanFrame → Type 0
IsTyped f = (f.id < 2 ^ 16) × (f.dlc < 2 ^ 8) × (length f.payload ≡ 8)

-- The layout that the compiler chose for `CanFrame`: its 12 bytes, and the frame that they read as.
pub record FrameLayout : Type 0 where
  pub to_bytes : CanFrame → List ℕ
  pub from_bytes : List ℕ → CanFrame
  pub to_bytes-length : (f : CanFrame) → IsTyped f → length (to_bytes f) ≡ 12
  pub from_bytes-to_bytes : (f : CanFrame) → IsTyped f → from_bytes (to_bytes f) ≡ f

abbrev pub frame_size : ℕ
frame_size = 12

-- The system calls of a task as it sees them: the result in a0, and for receive the bytes
-- that stand in the buffer afterwards. `State` is everything else.
pub record Port : Type 1 where
  pub State : Type 0
  pub sys_send : ℕ → List ℕ → State → ℕ × State
  pub sys_recv : ℕ → List ℕ → State → ℕ × List ℕ × State
  pub watchdog_checkin : State → State

-- `res < 0`, for an `isize`.
abbrev pub is_negative : ℕ → Bool
is_negative res = leb (2 ^ 31) res

pub record AuthFrame : Type 0 where
  pub frame : CanFrame
  pub tag : List ℕ

module _ (port : Port) (layout : FrameLayout) where
  unfoldable pub verify_frame_secure : AuthFrame → ℕ → ℕ → port.State → Bool × port.State
  verify_frame_secure auth hsm_send_cap hsm_recv_cap s =
      let (sent, s') = port.sys_send hsm_send_cap (layout.to_bytes auth.frame) s in
      if is_negative sent
      then (false, s')
      else let (received, expected, s'') =
          port.sys_recv hsm_recv_cap (replicate hmac_tag_len 0) s' in
        if is_negative received then (false, s'') else (differences 0 expected auth.tag == 0, s'')

-- What the HSM does with a request of `res` bytes: the tag that it sends back, or nothing on a wrong
-- size. A length code above 8 panics.
unfoldable pub hsm_reply : (List ℕ → List ℕ) → FrameLayout → ℕ → List ℕ → Outcome (Option (List ℕ))
hsm_reply sha256 layout res req_buf =
    if res == frame_size
    then (compute_hmac_local sha256 (layout.from_bytes req_buf) >>= λ tag. done (some tag))
    else done none

module _ (sha256 : List ℕ → List ℕ) (port : Port) (layout : FrameLayout) where
  -- One round of the loop, from the buffer of the round before.
  unfoldable pub hsm_round : List ℕ → port.State → Outcome (List ℕ × port.State)
  unfolding hsm_reply
  hsm_round req_buf s =
      let (res, req_buf', s') = port.sys_recv 0 req_buf (port.watchdog_checkin s) in
      hsm_reply sha256 layout res req_buf' >>= λ answer. elim answer [
        | none ↦ done (req_buf', s')
        | some tag ↦ done (req_buf', (port.sys_send 1 tag s').1)
      ]
