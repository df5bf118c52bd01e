-- ===== src/Security/Bootloader.antt =====
-- security/src/bootloader.rs: the two boot checks.
use Prim.Native.Nat.{bit_xor}
use cerberus_os.Base.{
  ℕ, ◌-◌, ◌≡◌, ◌≢◌, refl, Bool, true, false, ◌&&◌, ◌==◌, List, [], ◌∷◌, ◌↔◌, length, get_or, set,
  arith, sym, ◌∙◌, Bool-cases, inl, inr,
}
use cerberus_os.Security.Bytes.{codes, eq_bytes, eq_bytes_iff}

abbrev pub pub_key_bytes : List ℕ
pub_key_bytes =
    0xb7 ∷ 0x0f ∷ 0x96 ∷ 0x22 ∷ 0xf9 ∷ 0x76 ∷ 0x5f ∷ 0x49 ∷ 0xda ∷ 0x3b ∷ 0x73 ∷ 0xe9 ∷ 0xff ∷ 0xc2
    ∷ 0xa1 ∷ 0xfb ∷ 0xed ∷ 0x84 ∷ 0x46 ∷ 0xe4 ∷ 0x4d ∷ 0x81 ∷ 0x53 ∷ 0x15 ∷ 0xc7 ∷ 0x8f ∷ 0xcc
    ∷ 0xb5 ∷ 0xe0 ∷ 0x2f ∷ 0xf1 ∷ 0x78 ∷ 0x77 ∷ 0xcc ∷ 0xbf ∷ 0x02 ∷ 0xc4 ∷ 0xf8 ∷ 0x2a ∷ 0x54
    ∷ 0xf9 ∷ 0xbc ∷ 0x3b ∷ 0x36 ∷ 0x77 ∷ 0x60 ∷ 0x06 ∷ 0xe6 ∷ 0xe1 ∷ 0xeb ∷ 0x08 ∷ 0xb8 ∷ 0x92
    ∷ 0x48 ∷ 0x1e ∷ 0xfd ∷ 0x7d ∷ 0x52 ∷ 0x30 ∷ 0x53 ∷ 0x4f ∷ 0x3b ∷ 0xf4 ∷ 0x56 ∷ []

abbrev pub signature_bytes : List ℕ
signature_bytes =
    0x53 ∷ 0xd8 ∷ 0x26 ∷ 0x28 ∷ 0xea ∷ 0x32 ∷ 0x36 ∷ 0x48 ∷ 0xb1 ∷ 0xba ∷ 0x1e ∷ 0x6d ∷ 0x16 ∷ 0x99
    ∷ 0x9e ∷ 0x5b ∷ 0xdd ∷ 0xc2 ∷ 0x4c ∷ 0x35 ∷ 0x5a ∷ 0x9b ∷ 0x0c ∷ 0x28 ∷ 0xb9 ∷ 0x84 ∷ 0xcb
    ∷ 0x96 ∷ 0x53 ∷ 0x7e ∷ 0x37 ∷ 0xe6 ∷ 0xd3 ∷ 0x5d ∷ 0x8c ∷ 0x60 ∷ 0xd1 ∷ 0xcb ∷ 0xde ∷ 0xde
    ∷ 0x51 ∷ 0xd3 ∷ 0xb5 ∷ 0x62 ∷ 0x6c ∷ 0xc5 ∷ 0xba ∷ 0x1d ∷ 0x31 ∷ 0xc6 ∷ 0x35 ∷ 0xda ∷ 0x91
    ∷ 0x38 ∷ 0x5b ∷ 0xa5 ∷ 0x58 ∷ 0xb8 ∷ 0x35 ∷ 0xa5 ∷ 0x51 ∷ 0x2e ∷ 0xca ∷ 0x8c ∷ []

abbrev pub trusted_payload : List ℕ
trusted_payload = codes "cerberus-os-kernel-image-data-payload-for-verification-v1.0"

abbrev pub expected_hash : List ℕ
expected_hash =
    0xcf ∷ 0xca ∷ 0x73 ∷ 0xa3 ∷ 0xd7 ∷ 0x2f ∷ 0x46 ∷ 0x25 ∷ 0xf8 ∷ 0x54 ∷ 0xec ∷ 0xb8 ∷ 0xe0 ∷ 0xab
    ∷ 0x75 ∷ 0x96 ∷ 0x1d ∷ 0x38 ∷ 0xb9 ∷ 0xdd ∷ 0xa2 ∷ 0x97 ∷ 0x42 ∷ 0x21 ∷ 0xde ∷ 0xe5 ∷ 0xdb
    ∷ 0xe9 ∷ 0x46 ∷ 0xe5 ∷ 0xee ∷ 0x4f ∷ []

-- `checksum ^= PUB_KEY_BYTES[i] ^ SIGNATURE_BYTES[i]` over both arrays.
unfoldable pub checksum : ℕ → List ℕ → List ℕ → ℕ
checksum acc (k ∷ ks) (s ∷ ss) = checksum (bit_xor acc (bit_xor k s)) ks ss
checksum acc _ _ = acc

unfoldable pub key_signature_linkage_ok : Bool
unfolding checksum
key_signature_linkage_ok = checksum 0 pub_key_bytes signature_bytes == 0x76

-- A copy of the payload with the last bit of its last byte flipped.
abbrev pub tampered : List ℕ
tampered =
    let last = length trusted_payload - 1 in
    set trusted_payload last (bit_xor (get_or trusted_payload last 0) 0x01)

module _ (sha256 : List ℕ → List ℕ) where
  unfoldable pub sha256_matches : List ℕ → Bool
  sha256_matches payload = eq_bytes (sha256 payload) expected_hash

  unfoldable pub verify_secure_boot : Bool
  unfolding sha256_matches key_signature_linkage_ok
  verify_secure_boot = sha256_matches trusted_payload && key_signature_linkage_ok

  unfoldable pub verify_tampered_secure_boot : Bool
  unfolding sha256_matches key_signature_linkage_ok
  verify_tampered_secure_boot = sha256_matches tampered && key_signature_linkage_ok

linkage : key_signature_linkage_ok ≡ true
unfolding key_signature_linkage_ok
linkage = refl

tampered_apart : eq_bytes trusted_payload tampered ≡ false
unfolding eq_bytes
tampered_apart = refl

-- The boot check passes exactly if the hash of the payload is the one expected: the linkage of key and
-- signature always holds.
pub verify_secure_boot_iff :
    (sha256 : List ℕ → List ℕ)
    → (verify_secure_boot sha256 ≡ true) ↔ (sha256 trusted_payload ≡ expected_hash)
unfolding verify_secure_boot sha256_matches
verify_secure_boot_iff sha256 =
    let (sound, complete) = eq_bytes_iff (sha256 trusted_payload) expected_hash in
    (λ e. sound (matches e), λ e. rw (complete e) linkage)
  where
    matches :
        (eq_bytes (sha256 trusted_payload) expected_hash && key_signature_linkage_ok) ≡ true
        → eq_bytes (sha256 trusted_payload) expected_hash ≡ true
    matches e = ground arith

-- Where the boot check passes, and SHA-256 tells the payload from the copy with one bit flipped, the
-- check of that copy fails.
pub verify_tampered-rejects :
    (sha256 : List ℕ → List ℕ)
    → sha256 tampered ≢ sha256 trusted_payload
    → verify_secure_boot sha256 ≡ true
    → verify_tampered_secure_boot sha256 ≡ false
unfolding verify_tampered_secure_boot sha256_matches
verify_tampered-rejects sha256 apart passed =
    elim (Bool-cases (eq_bytes (sha256 tampered) expected_hash)) [
      | inl e ↦ absurd (
          apart (
            (eq_bytes_iff (sha256 tampered) expected_hash).0 e
            ∙ sym ((verify_secure_boot_iff sha256).0 passed)))
      | inr e ↦ rw e refl
    ]
