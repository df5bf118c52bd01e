-- ===== src/Network/Can.antt =====
-- network/src/can.rs: frames, errors and the parser of raw transceiver bytes.
use Prim.Native.Nat.{bit_and, bit_or}
use cerberus_os.Base.{
  ℕ, ◌-◌, ◌*◌, ◌/◌, ◌%◌, ◌^◌, Bool, false, ◌||◌, List, [], ◌∷◌, ◌++◌, ltb, ◌==◌, if◌then◌else◌,
  get_or, take, drop, replicate,
}

abbrev pub can_max_payload : ℕ
can_max_payload = 8

pub record CanFrame : Type 0 where
  pub id : ℕ
  pub dlc : ℕ
  pub payload : List ℕ

pub data CanError : Type 0 where
  blocked_id : ℕ → CanError
  invalid_dlc : ℕ → CanError
  buffer_full : CanError

pub data Parsed : Type 0 where
  frame : CanFrame → Parsed
  error : CanError → Parsed

abbrev pub blocked_ids : List ℕ
blocked_ids = 0x7DF ∷ 0x7E0 ∷ 0x7E1 ∷ 0x7E8 ∷ []

-- `slice.contains(&x)`
unfoldable pub contains : List ℕ → ℕ → Bool
contains [] x = false
contains (y ∷ ys) x = y == x || contains ys x

-- Byte `i` of the raw frame; the array has 13, and the code reads below that.
abbrev pub byte : List ℕ → ℕ → ℕ
byte raw i = get_or raw i 0

-- `((raw[0] as u16) << 3) | ((raw[1] as u16) >> 5)`
unfoldable pub parse_id : List ℕ → ℕ
parse_id raw = bit_or (byte raw 0 * 8 % 2 ^ 16) (byte raw 1 / 2 ^ 5)

-- `raw[2] & 0x0F`
unfoldable pub parse_dlc : List ℕ → ℕ
parse_dlc raw = bit_and (byte raw 2) 0x0F

-- `payload[..dlc].copy_from_slice(&raw[3..3 + dlc])` over a payload of zeros
unfoldable pub parse_payload : List ℕ → ℕ → List ℕ
parse_payload raw dlc = take dlc (drop 3 raw) ++ replicate (can_max_payload - dlc) 0

unfoldable pub parse : List ℕ → Parsed
parse raw =
    let id = parse_id raw in
    let dlc = parse_dlc raw in
    if contains blocked_ids id
    then error (blocked_id id)
    else if ltb 8 dlc
    then error (invalid_dlc dlc)
    else frame (record { id = id; dlc = dlc; payload = parse_payload raw dlc })
