-- ===== src/Network/Parse.antt =====
-- The parser of CAN frames (network/src/can.rs) against the layout of the raw bytes.
use cerberus_os.Base.{
  ℕ, zero, suc, ◌+◌, ◌-◌, ◌*◌, ◌/◌, ◌%◌, ◌^◌, ◌≤◌, ◌<◌, ◌≡◌, refl, true, false, List, [], ◌∷◌, ◌++◌,
  arith, ltb, ltb→lt, Bool-cases, ◌⊎◌, ◌↔◌, length, take, drop, replicate, length-append,
  length-take, take-length_append, length-replicate, inl, inr,
}
use mathlib.Core.List.{append_assoc}
use cerberus_os.Base.Bits.{bit_and_nibble, bit_or-join}
use cerberus_os.Network.Can.{
  CanFrame, blocked_id, invalid_dlc, Parsed, frame, error, blocked_ids, contains, byte, parse_id,
  parse_dlc, parse_payload, parse,
}

-- Every element is a byte.
abbrev pub Bytes : List ℕ → Type 0
Bytes [] = Unit
Bytes (b ∷ bs) = (b < 256) × Bytes bs

pub byte-lt : (raw : List ℕ) (i : ℕ) → Bytes raw → byte raw i < 256
byte-lt [] i h = omega arith
byte-lt (b ∷ bs) zero h = h.0
byte-lt (b ∷ bs) (suc i) h = byte-lt bs i h.1

pub parse_id-eq : (raw : List ℕ) → Bytes raw → parse_id raw ≡ byte raw 0 * 8 + byte raw 1 / 32
unfolding parse_id
parse_id-eq raw h =
    let a = byte-lt raw 0 h in
    let b = byte-lt raw 1 h in
    let e : byte raw 0 * 8 % 2 ^ 16 ≡ byte raw 0 * 8 = omega arith in
    rw e (bit_or-join (byte raw 0) (byte raw 1 / 32) a (omega arith))

pub parse_dlc-eq : (raw : List ℕ) → Bytes raw → parse_dlc raw ≡ byte raw 2 % 16
unfolding parse_dlc
parse_dlc-eq raw h = bit_and_nibble (byte raw 2) (byte-lt raw 2 h)

-- The identifiers that are refused. The documents name all of 0x7E0 to 0x7EF; the code lists these.
abbrev pub IsBlocked : ℕ → Type 0
IsBlocked id = (id ≡ 0x7DF) ⊎ (id ≡ 0x7E0) ⊎ (id ≡ 0x7E1) ⊎ (id ≡ 0x7E8)

contains-IsBlocked : (id : ℕ) → (contains blocked_ids id ≡ true) ↔ IsBlocked id
unfolding contains
contains-IsBlocked id = (λ e. ground (arith, e), λ h. ground (arith, h))

-- What a parsed frame promises.
pub record IsParsed (raw : List ℕ) (f : CanFrame) : Type 0 where
  pub id_bits : f.id ≡ byte raw 0 * 8 + byte raw 1 / 32
  pub standard : f.id < 2 ^ 11
  pub allowed : ¬ IsBlocked f.id
  pub dlc_bits : f.dlc ≡ byte raw 2 % 16
  pub dlc_small : f.dlc ≤ 8
  pub payload_bits : f.payload ≡ take f.dlc (drop 3 raw) ++ replicate (8 - f.dlc) 0
  pub payload_size : length f.payload ≡ 8

length-payload :
    (raw : List ℕ) (dlc : ℕ)
    → 8 ≤ length (drop 3 raw)
    → dlc ≤ 8
    → length (parse_payload raw dlc) ≡ 8
unfolding parse_payload
length-payload raw dlc h lt = omega (
  arith,
  length-append (take dlc (drop 3 raw)) (replicate (8 - dlc) 0),
  length-take dlc (drop 3 raw),
  length-replicate {A = ℕ} (8 - dlc) 0,
)

length-drop_3 : (raw : List ℕ) → length raw ≡ 13 → 8 ≤ length (drop 3 raw)
length-drop_3 [] h = absurd (omega arith)
length-drop_3 (a ∷ []) h = absurd (omega arith)
length-drop_3 (a ∷ b ∷ []) h = absurd (omega arith)
length-drop_3 (a ∷ b ∷ c ∷ raw) h = omega arith

-- What `parse` may answer on a raw frame.
pub data IsAnswer (raw : List ℕ) : Parsed → Type 0 where
  on_list :
      IsBlocked (byte raw 0 * 8 + byte raw 1 / 32)
      → IsAnswer raw (error (blocked_id (byte raw 0 * 8 + byte raw 1 / 32)))
  too_long :
      ¬ IsBlocked (byte raw 0 * 8 + byte raw 1 / 32)
      → 8 < byte raw 2 % 16
      → IsAnswer raw (error (invalid_dlc (byte raw 2 % 16)))
  accepted : (f : CanFrame) → IsParsed raw f → IsAnswer raw (frame f)

parse-IsParsed :
    (raw : List ℕ)
    → length raw ≡ 13
    → Bytes raw
    → let id = byte raw 0 * 8 + byte raw 1 / 32 in
      let dlc = byte raw 2 % 16 in
      contains blocked_ids id ≡ false
      → dlc ≤ 8
      → IsParsed raw (record { id = id; dlc = dlc; payload = parse_payload raw dlc })
unfolding parse_payload
parse-IsParsed raw n h off small =
    let a = byte-lt raw 0 h in
    let b = byte-lt raw 1 h in
    record {
      id_bits = refl;
      standard = omega arith;
      allowed = λ on. absurd (cc ((contains-IsBlocked _).1 on, off));
      dlc_bits = refl;
      dlc_small = small;
      payload_bits = refl;
      payload_size = length-payload raw (byte raw 2 % 16) (length-drop_3 raw n) small;
    }

-- `parse` of 13 bytes has three ways to end: the identifiers 0x7DF, 0x7E0, 0x7E1 and 0x7E8, and no
-- others of the documented range 0x7E0-0x7EF, are refused and named, whatever the rest; then a length
-- code above 8 is refused and named; any other raw frame is accepted, with the 11-bit identifier of
-- bytes 0 and 1, the length code of byte 2, and the payload bytes that follow, filled up with zeros to
-- 8 bytes.
pub parse-IsAnswer : (raw : List ℕ) → length raw ≡ 13 → Bytes raw → IsAnswer raw (parse raw)
unfolding parse
parse-IsAnswer raw n h =
    let id = byte raw 0 * 8 + byte raw 1 / 32 in
    let dlc = byte raw 2 % 16 in
    rw (parse_id-eq raw h, parse_dlc-eq raw h)
      (elim (Bool-cases (contains blocked_ids id)) [
        | inl on ↦ rw on (on_list ((contains-IsBlocked id).0 on))
        | inr off_list ↦ elim (Bool-cases (ltb 8 dlc)) [
          | inl big ↦
              rw (off_list, big)
                (too_long (λ on. absurd (cc ((contains-IsBlocked id).1 on, off_list)))
                  (ltb→lt 8 dlc big))
          | inr small ↦
              rw (off_list, small) (accepted _ (parse-IsParsed raw n h off_list (ground arith)))
        ]
      ])

-- The raw bytes of a frame, by the layout that the parser documents: the identifier in byte 0 and
-- the top three bits of byte 1, the length code in byte 2, the payload after it.
pub encode : CanFrame → List ℕ
encode f = f.id / 8 ∷ f.id % 8 * 32 ∷ f.dlc ∷ (f.payload ++ (0 ∷ 0 ∷ []))

-- A frame that a sender may put on the bus: a standard identifier off the blocked list, a length
-- code of at most 8, that many data bytes, and zeros up to 8 bytes.
pub record IsSendable (f : CanFrame) (bytes : List ℕ) : Type 0 where
  pub standard : f.id < 2 ^ 11
  pub allowed : contains blocked_ids f.id ≡ false
  pub dlc_small : f.dlc ≤ 8
  pub size : length bytes ≡ f.dlc
  pub padded : f.payload ≡ bytes ++ replicate (8 - f.dlc) 0
  pub are_bytes : Bytes bytes

parse-encode_parts :
    (f : CanFrame) (bytes : List ℕ)
    → IsSendable f bytes
    → (parse_id (encode f) ≡ f.id) × (parse_dlc (encode f) ≡ f.dlc)
unfolding encode parse_id parse_dlc
parse-encode_parts f bytes s =
    let e : f.id / 8 * 8 % 2 ^ 16 ≡ f.id / 8 * 8 = omega (arith, s.standard) in
    let e' : f.id % 8 * 32 / 2 ^ 5 ≡ f.id % 8 = omega arith in
    (
      rw (e, e', bit_or-join (f.id / 8) (f.id % 8) (omega (arith, s.standard)) (omega arith))
          (omega arith),
      rw (bit_and_nibble f.dlc (omega (arith, s.dlc_small))) (omega (arith, s.dlc_small)),
    )

parse-encode_payload :
    (f : CanFrame) (bytes : List ℕ)
    → IsSendable f bytes
    → parse_payload (encode f) f.dlc ≡ f.payload
unfolding encode parse_payload
parse-encode_payload f bytes s = rw (s.padded, append_assoc, take-length_append bytes _ s.size)

-- Round trip: `parse` gives a sendable frame back from its raw bytes.
pub parse-encode : (f : CanFrame) (bytes : List ℕ) → IsSendable f bytes → parse (encode f) ≡ frame f
unfolding parse
parse-encode f bytes s =
    let (id, dlc) = parse-encode_parts f bytes s in
    let small : ltb 8 f.dlc ≡ false = ground arith in
    rw (id, dlc, s.allowed, small, parse-encode_payload f bytes s)
