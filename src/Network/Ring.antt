-- ===== src/Network/Ring.antt =====
-- network/src/can.rs: the single-producer single-consumer ring of received frames.
use Prim.Native.Nat.{bit_and}
use cerberus_os.Base.{ℕ, ◌+◌, ◌-◌, Bool, Option, none, some, ◌==◌, if◌then◌else◌, update}
use cerberus_os.Network.Can.{CanFrame, CanError, buffer_full}

abbrev pub ring_capacity : ℕ
ring_capacity = 16

-- `frames` is the array of 16 slots.
pub record CanRingBuffer : Type 0 where
  pub frames : ℕ → Option CanFrame
  pub head : ℕ
  pub tail : ℕ

abbrev pub new : CanRingBuffer
new = record { frames = λ _. none; head = 0; tail = 0 }

-- `(i + 1) & (RING_CAPACITY - 1)`
unfoldable pub advance : ℕ → ℕ
advance i = bit_and (i + 1) (ring_capacity - 1)

unfoldable pub is_full : CanRingBuffer → Bool
is_full r = advance r.tail == r.head

unfoldable pub is_empty : CanRingBuffer → Bool
is_empty r = r.head == r.tail

-- The error, if any, beside the new ring.
unfoldable pub push : CanRingBuffer → CanFrame → CanRingBuffer × Option CanError
unfolding is_full
push r f =
    if is_full r
    then (r, some buffer_full)
    else (record r { frames = update r.frames r.tail (some f); tail = advance r.tail }, none)

-- `take()` leaves `None` in the slot.
unfoldable pub pop : CanRingBuffer → CanRingBuffer × Option CanFrame
unfolding is_empty
pop r =
    if is_empty r
    then (r, none)
    else (record r { frames = update r.frames r.head none; head = advance r.head }, r.frames r.head)
