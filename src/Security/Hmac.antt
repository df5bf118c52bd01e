-- ===== src/Security/Hmac.antt =====
-- security/src/hmac.rs and security/src/hsm.rs: the tag of a frame, against HMAC as it is defined
-- (RFC 2104).
use Prim.Native.Nat.{bit_xor}
use cerberus_os.Base.{
  ℕ, zero, suc, ◌+◌, ◌-◌, ◌/◌, ◌%◌, ◌≤◌, ◌≡◌, refl, true, List, [], ◌∷◌, ◌++◌, map, length, get_or,
  set, take, replicate, leb, arith,
}
use cerberus_os.Base.Outcome.{Outcome, done, ◌>>=◌, assert}
use cerberus_os.Network.Can.{CanFrame}
use cerberus_os.Security.Bytes.{codes}

abbrev pub hmac_tag_len : ℕ
hmac_tag_len = 8

abbrev pub hmac_key : List ℕ
hmac_key = codes "cerberus-os-dev-key-not-for-prod"

-- `for i in 0..32 { pad[i] ^= HMAC_KEY[i] }`, with `rounds` left.
unfoldable pub mix_key : ℕ → ℕ → List ℕ → List ℕ
mix_key zero i pad = pad
mix_key (suc rounds) i pad =
    mix_key rounds (i + 1) (set pad i (bit_xor (get_or pad i 0) (get_or hmac_key i 0)))

abbrev pub ipad_key : List ℕ
ipad_key = mix_key 32 0 (replicate 64 0x36)

abbrev pub opad_key : List ℕ
opad_key = mix_key 32 0 (replicate 64 0x5C)

-- `&frame.payload[..frame.dlc as usize]`
abbrev pub payload_of : CanFrame → Outcome (List ℕ)
payload_of f = assert (leb f.dlc (length f.payload)) (done (take f.dlc f.payload))

-- `[frame.id as u8, (frame.id >> 8) as u8, frame.dlc]`
abbrev pub header_of : CanFrame → List ℕ
header_of f = f.id % 256 ∷ f.id / 256 % 256 ∷ f.dlc ∷ []

inner_pad : ipad_key ≡ map (bit_xor 0x36) (hmac_key ++ replicate 32 0)
unfolding mix_key
inner_pad = refl

outer_pad : opad_key ≡ map (bit_xor 0x5C) (hmac_key ++ replicate 32 0)
unfolding mix_key
outer_pad = refl

leb-true : (a b : ℕ) → a ≤ b → leb a b ≡ true
leb-true a b h = ground arith

module _ (sha256 : List ℕ → List ℕ) where
  -- Each `update` appends to what is hashed.
  unfoldable pub compute_hmac_local : CanFrame → Outcome (List ℕ)
  compute_hmac_local f = payload_of f >>= λ payload.
      let inner_hash = sha256 (ipad_key ++ (header_of f ++ payload)) in
      let full_mac = sha256 (opad_key ++ inner_hash) in
      assert (leb hmac_tag_len (length full_mac)) (done (take hmac_tag_len full_mac))

  -- HMAC of a message under a key that is no longer than a block of 64 bytes.
  abbrev pub hmac : List ℕ → List ℕ → List ℕ
  hmac key message =
      let block = key ++ replicate (64 - length key) 0 in
      sha256 (map (bit_xor 0x5C) block ++ sha256 (map (bit_xor 0x36) block ++ message))

  -- With a hash of 32 bytes, the tag of a frame whose length code is at most 8 is the first 8 bytes of
  -- HMAC-SHA256, under the key, of its identifier, length code and payload bytes.
  pub compute_hmac_local-hmac :
      (f : CanFrame)
      → ((m : List ℕ) → length (sha256 m) ≡ 32)
      → f.dlc ≤ length f.payload
      → compute_hmac_local f ≡ done (take 8 (hmac hmac_key (header_of f ++ take f.dlc f.payload)))
  unfolding compute_hmac_local
  compute_hmac_local-hmac f size fits =
      rw (leb-true f.dlc (length f.payload) fits) (rw inner_pad (rw outer_pad (rw (size _) refl)))
