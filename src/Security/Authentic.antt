-- ===== src/Security/Authentic.antt =====
-- security/src/hmac.rs and security/src/hsm.rs: which frames pass `verify_frame_secure`.
use cerberus_os.Base.{
  ℕ, ◌-◌, length-take, ◌^◌, ◌≤◌, ◌≡◌, refl, ◌∙◌, sym, Bool, true, false, ◌==◌, List, ◌++◌, length,
  take, replicate, if◌then◌else◌, arith, Option, none, some, ◌↔◌, ==_iff, ap,
}
use cerberus_os.Base.Outcome.{Outcome, done, panicked, spinning}
use cerberus_os.Network.Can.{CanFrame}
use cerberus_os.Security.Bytes.{differences, differences_iff}
use cerberus_os.Security.Hmac.{hmac_tag_len, hmac_key, header_of, hmac, compute_hmac_local-hmac}
use cerberus_os.Security.Hsm.{
  FrameLayout, IsTyped, Port, AuthFrame, is_negative, verify_frame_secure, hsm_reply,
}

gates_iff {ℓ} :
    {S : Type ℓ} (a b : Bool) (d : ℕ) (s s' : S)
    → ((if◌then◌else◌ {A = Bool × S} a (false, s) (if b then (false, s') else (d == 0, s'))).0
        ≡ true)
      ↔ ((a ≡ false) × (b ≡ false) × (d ≡ 0))
gates_iff true b d s s' = (λ h. absurd (cc), λ h. absurd (cc))
gates_iff false true d s s' = (λ h. absurd (cc), λ h. absurd (cc))
gates_iff false false d s s' = (λ h. (refl, refl, (==_iff d 0).0 h), λ h. (==_iff d 0).1 (h.2))

module _ (port : Port) (layout : FrameLayout) (auth : AuthFrame) (send_cap recv_cap : ℕ)
    (s : port.State) where
  abbrev sent : ℕ × port.State
  sent = port.sys_send send_cap (layout.to_bytes auth.frame) s

  abbrev received : ℕ × List ℕ × port.State
  received = port.sys_recv recv_cap (replicate hmac_tag_len 0) sent.1

  -- A frame passes exactly if both system calls succeed and the tag that the HSM sent is the tag of
  -- the frame. The two tags have the same length.
  pub verify_frame_secure_iff :
      length received.1 ≡ length auth.tag
      → ((verify_frame_secure port layout auth send_cap recv_cap s).0 ≡ true) ↔ (
          (is_negative sent.0 ≡ false) × (is_negative received.0 ≡ false) × (received.1 ≡ auth.tag))
  unfolding verify_frame_secure
  verify_frame_secure_iff l =
      let gates =
        gates_iff (is_negative sent.0) (is_negative received.0) (differences 0 received.1 auth.tag)
          sent.1 received.2 in
      let same = differences_iff received.1 auth.tag l in
      (λ h. let (a, b, d) = gates.0 h in (a, b, same.0 d), λ h. gates.1 (h.0, h.1, same.1 (h.2)))

-- The reply of a round, as the next receive finds it.
abbrev pub pending : Outcome (Option (List ℕ)) → Option (List ℕ)
pending (done answer) = answer
pending panicked = none
pending spinning = none

abbrev pub collect : List ℕ → Option (List ℕ) → ℕ × List ℕ × Option (List ℕ)
collect buf none = (2 ^ 32 - 1, buf, none)
collect buf (some tag) = (length tag, tag, none)

-- The two endpoints with the HSM behind them: what is sent is answered by one round, and what is
-- received is that answer.
abbrev pub direct : (List ℕ → List ℕ) → FrameLayout → Port
direct sha256 layout = record {
  State = Option (List ℕ);
  sys_send = λ cap bytes s. (0, pending (hsm_reply sha256 layout (length bytes) bytes));
  sys_recv = λ cap buf s. collect buf s;
  watchdog_checkin = λ s. s;
}

module _ (sha256 : List ℕ → List ℕ) (size : (m : List ℕ) → length (sha256 m) ≡ 32)
    (layout : FrameLayout) where
  abbrev tag_of : CanFrame → List ℕ
  tag_of f = take 8 (hmac sha256 hmac_key (header_of f ++ take f.dlc f.payload))

  tag_of-length : (f : CanFrame) → length (tag_of f) ≡ 8
  tag_of-length f =
      omega
        (arith, length-take 8 (hmac sha256 hmac_key (header_of f ++ take f.dlc f.payload)), size _)

  hsm_reply-tag :
      (f : CanFrame)
      → IsTyped f
      → f.dlc ≤ length f.payload
      → hsm_reply sha256 layout (length (layout.to_bytes f)) (layout.to_bytes f)
        ≡ done (some (tag_of f))
  unfolding hsm_reply
  hsm_reply-tag f typed fits = rw (layout.to_bytes-length f typed) (
      rw (layout.from_bytes-to_bytes f typed)
        (rw (compute_hmac_local-hmac sha256 f size fits) refl))

  -- With the HSM behind the endpoints, a frame passes exactly if its tag is the first 8 bytes of its
  -- HMAC under the key of the HSM. The hash has 32 bytes, the tag 8, and the length code is at most 8.
  pub verify_frame_secure-hmac :
      (f : CanFrame) (tag : List ℕ) (send_cap recv_cap : ℕ)
      → IsTyped f
      → f.dlc ≤ 8
      → length tag ≡ 8
      → ((verify_frame_secure
            (direct sha256 layout)
            layout
            (record { frame = f; tag = tag })
            send_cap
            recv_cap
            none).0
          ≡ true)
        ↔ (tag ≡ take 8 (hmac sha256 hmac_key (header_of f ++ take f.dlc f.payload)))
  verify_frame_secure-hmac f tag send_cap recv_cap typed small l =
      let auth : AuthFrame = record { frame = f; tag = tag } in
      let stored = ap pending (hsm_reply-tag f typed (omega (arith, typed.2))) in
      let got = ap (λ o. (collect (replicate 8 0) o).1) stored in
      let code = ap (λ o. (collect (replicate 8 0) o).0) stored in
      let gates =
        verify_frame_secure_iff (direct sha256 layout) layout auth send_cap recv_cap none
          (ap (λ xs. length xs) got ∙ tag_of-length f ∙ sym l) in
      (
        λ h. sym ((gates.0 h).2) ∙ got,
        λ h. gates.1 (refl, ap is_negative (code ∙ tag_of-length f), got ∙ sym h),
      )
