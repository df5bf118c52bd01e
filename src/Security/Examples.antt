-- ===== src/Security/Examples.antt =====
-- Tests of the security code, and each theorem with a concrete hash, layout and frame.
use cerberus_os.Base.{
  ℕ, ◌+◌, ◌*◌, ◌/◌, ◌%◌, ◌≡◌, refl, ap₂, length-append, take-length_append, true, List, [], ◌∷◌,
  ◌++◌, length, take, replicate, get_or, drop, if◌then◌else◌, arith, none, ◌↔◌,
}
use cerberus_os.Base.Outcome.{done, panicked}
use cerberus_os.Network.Can.{CanFrame}
use cerberus_os.Security.Bytes.{eq_bytes, differences, differences_iff}
use cerberus_os.Security.Bootloader.{trusted_payload, expected_hash}
use cerberus_os.Security.Hmac.{
  hmac_key, header_of, compute_hmac_local, hmac, compute_hmac_local-hmac,
}
use cerberus_os.Security.Hsm.{FrameLayout, IsTyped, AuthFrame, verify_frame_secure}
use cerberus_os.Security.Authentic.{direct, verify_frame_secure-hmac}

-- A hash that knows the trusted payload, and gives the length of anything else.
abbrev toy_hash : List ℕ → List ℕ
toy_hash m = if eq_bytes m trusted_payload then expected_hash else replicate 32 (length m)

toy_hash-length : (m : List ℕ) → length (toy_hash m) ≡ 32
toy_hash-length m = ground arith

differences_iff_example :
    (differences 0 (1 ∷ 2 ∷ []) (1 ∷ 3 ∷ []) ≡ 0) ↔ (◌≡◌ {A = List ℕ} (1 ∷ 2 ∷ []) (1 ∷ 3 ∷ []))
differences_iff_example = differences_iff (1 ∷ 2 ∷ []) (1 ∷ 3 ∷ []) refl

abbrev frame : CanFrame
frame = record { id = 0x3E; dlc = 4; payload = 0xAA ∷ 0xBB ∷ 0xCC ∷ 0xDD ∷ 0 ∷ 0 ∷ 0 ∷ 0 ∷ [] }

compute_hmac_local-hmac_example :
    compute_hmac_local toy_hash frame
    ≡ done (take 8 (hmac toy_hash hmac_key (header_of frame ++ take 4 frame.payload)))
compute_hmac_local-hmac_example =
    compute_hmac_local-hmac toy_hash frame toy_hash-length (omega arith)

-- A length code above 8, which `parse` never gives, makes the HSM panic.
long_panics : compute_hmac_local toy_hash (record frame { dlc = 9 }) ≡ panicked
unfolding compute_hmac_local
long_panics = refl

abbrev toy_from : List ℕ → CanFrame
toy_from bytes = record {
  id = get_or bytes 0 0 + 256 * get_or bytes 1 0;
  dlc = get_or bytes 2 0;
  payload = take 8 (drop 3 bytes);
}

abbrev toy_to : CanFrame → List ℕ
toy_to f = f.id % 256 ∷ f.id / 256 ∷ f.dlc ∷ f.payload ++ 0 ∷ []

pub toy_length : (f : CanFrame) → IsTyped f → length (toy_to f) ≡ 12
toy_length f typed = omega (arith, length-append f.payload (0 ∷ []), typed.2)

pub toy_round : (f : CanFrame) → IsTyped f → toy_from (toy_to f) ≡ f
toy_round f typed =
    ap₂ (λ i p. record { id = i; dlc = f.dlc; payload = p }) (omega arith)
      (take-length_append f.payload (0 ∷ []) (typed.2))

abbrev pub toy_layout : FrameLayout
toy_layout = record {
  to_bytes = toy_to;
  from_bytes = toy_from;
  to_bytes-length = toy_length;
  from_bytes-to_bytes = toy_round;
}

abbrev toy_auth : AuthFrame
toy_auth = record { frame = frame; tag = replicate 8 7 }

verify_frame_secure-hmac_example :
    ((verify_frame_secure (direct toy_hash toy_layout) toy_layout toy_auth 2 3 none).0 ≡ true)
    ↔ (toy_auth.tag ≡ take 8 (hmac toy_hash hmac_key (header_of frame ++ take 4 frame.payload)))
verify_frame_secure-hmac_example =
    verify_frame_secure-hmac toy_hash toy_hash-length toy_layout frame toy_auth.tag 2 3
      (omega arith, omega arith, refl) (omega arith) refl
