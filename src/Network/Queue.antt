-- ===== src/Network/Queue.antt =====
-- The receive ring (network/src/can.rs) refines a first-in first-out queue of at most 15 frames.
use cerberus_os.Base.{
  ℕ, suc, ◌+◌, ◌%◌, ◌≤◌, ◌<◌, ◌≡◌, refl, ◌≢◌, true, false, Option, none, some, List, [], ◌∷◌, ◌++◌,
  arith, ltb, ltb→lt, Bool-cases, inl, inr, ◌==◌, if◌then◌else◌, update, length, length-append,
}
use cerberus_os.Base.Bits.{bit_and_nibble}
use cerberus_os.Network.Can.{CanFrame, CanError, buffer_full}
use cerberus_os.Network.Ring.{CanRingBuffer, new, advance, push, pop}

-- The specification: a queue, oldest frame first, that holds one frame fewer than the ring's slots.
abbrev pub Queue : Type 0
Queue = List CanFrame

unfoldable pub enqueue : Queue → CanFrame → Queue × Option CanError
enqueue q f = if ltb (length q) 15 then (q ++ f ∷ [], none) else (q, some buffer_full)

unfoldable pub dequeue : Queue → Queue × Option CanFrame
dequeue [] = ([], none)
dequeue (f ∷ q) = (q, some f)

pub advance-eq : (i : ℕ) → i < 16 → advance i ≡ (i + 1) % 16
unfolding advance
advance-eq i h = bit_and_nibble (i + 1) (omega arith)

-- The slots from `i` on hold the frames of the queue in order, going round at 16.
abbrev pub Slots : (ℕ → Option CanFrame) → ℕ → Queue → Type 0
Slots frames i [] = Unit
Slots frames i (f ∷ q) = (frames i ≡ some f) × Slots frames ((i + 1) % 16) q

-- The ring stands for the queue.
pub record Holds (r : CanRingBuffer) (q : Queue) : Type 0 where
  pub head_in : r.head < 16
  pub room : length q ≤ 15
  pub tail_at : r.tail ≡ (r.head + length q) % 16
  pub slots : Slots r.frames r.head q

new-Holds : Holds new []
new-Holds = omega arith

-- A write outside the slots of the queue leaves them alone.
Slots-update :
    (frames : ℕ → Option CanFrame) (k : ℕ) (v : Option CanFrame) (i : ℕ) (q : Queue)
    → i < 16
    → ((m : ℕ) → m < length q → (i + m) % 16 ≢ k)
    → Slots frames i q
    → Slots (update frames k v) i q
Slots-update frames k v i [] h away s = s
Slots-update frames k v i (f ∷ q) h away s = (
  ground (arith, s.0, away 0),
  Slots-update frames k v ((i + 1) % 16) q (omega arith)
      (λ m lt e. away (suc m) (omega arith) (omega arith)) s.1,
)

Slots-push :
    (frames : ℕ → Option CanFrame) (f : CanFrame) (i k : ℕ) (q : Queue)
    → i < 16
    → length q ≤ 15
    → k ≡ (i + length q) % 16
    → Slots frames i q
    → Slots (update frames k (some f)) i (q ++ f ∷ [])
Slots-push frames f i k [] h room at s = let e : k ≡ i = omega arith in (ground arith, tt)
Slots-push frames f i k (g ∷ q) h room at s =
    let ne : k ≢ i = omega arith in
    (
      ground (arith, s.0),
      Slots-push frames f ((i + 1) % 16) k q (omega arith) (omega arith) (omega arith) s.1,
    )

push-room :
    (r : CanRingBuffer) (q : Queue) (f : CanFrame)
    → Holds r q
    → length q < 15
    → (r' : CanRingBuffer) × (push r f ≡ (r', none)) × Holds r' (q ++ f ∷ [])
unfolding push
push-room r q f h lt =
    let e : advance r.tail ≡ (r.tail + 1) % 16 = advance-eq r.tail (omega (arith, h.tail_at)) in
    let open_slot : (advance r.tail == r.head) ≡ false = ground (arith, h.tail_at, h.head_in) in
    (
      record r { frames = update r.frames r.tail (some f); tail = advance r.tail },
      rw open_slot,
      record {
        head_in = h.head_in;
        room = omega (arith, length-append q (f ∷ []));
        tail_at = omega (arith, e, h.tail_at, length-append q (f ∷ []));
        slots = Slots-push r.frames f r.head r.tail q h.head_in h.room h.tail_at h.slots;
      },
    )

push_full :
    (r : CanRingBuffer) (q : Queue) (f : CanFrame)
    → Holds r q
    → length q ≡ 15
    → push r f ≡ (r, some buffer_full)
unfolding push
push_full r q f h e =
    let a : advance r.tail ≡ (r.tail + 1) % 16 = advance-eq r.tail (omega (arith, h.tail_at)) in
    let full : (advance r.tail == r.head) ≡ true = ground (arith, h.tail_at, h.head_in) in rw full

-- `push` on a ring that stands for a queue answers as `enqueue` does, `BufferFull` included, and
-- leaves a ring that stands for the new queue.
pub push-Holds :
    (r : CanRingBuffer) (q : Queue) (f : CanFrame)
    → Holds r q
    → ((push r f).1 ≡ (enqueue q f).1) × Holds (push r f).0 (enqueue q f).0
unfolding enqueue
push-Holds r q f h = elim (Bool-cases (ltb (length q) 15)) [
  | inl lt ↦ let (r', e, h') = push-room r q f h (ltb→lt _ _ lt) in rw (lt, e) (refl, h')
  | inr ge ↦
      let e : length q ≡ 15 = ground (arith, h.room) in rw (ge, push_full r q f h e) (refl, h)
]

-- `pop` likewise answers as `dequeue` does, the oldest frame or nothing on an empty queue, and
-- leaves a ring that stands for the rest.
pub pop-Holds :
    (r : CanRingBuffer) (q : Queue)
    → Holds r q
    → ((pop r).1 ≡ (dequeue q).1) × Holds (pop r).0 (dequeue q).0
unfolding pop dequeue
pop-Holds r [] h =
    let e : (r.head == r.tail) ≡ true = ground (arith, h.tail_at, h.head_in) in rw e (refl, h)
pop-Holds r (f ∷ q) h =
    let e : (r.head == r.tail) ≡ false = ground (arith, h.tail_at, h.head_in, h.room) in
    let a : advance r.head ≡ (r.head + 1) % 16 = advance-eq r.head h.head_in in
    rw (e, a)
      (
        h.slots.0,
        record {
          head_in = omega arith;
          room = omega (arith, h.room);
          tail_at = omega (arith, h.tail_at, h.room, h.head_in);
          slots =
              Slots-update r.frames r.head none ((r.head + 1) % 16) q (omega arith)
                (λ m lt. omega (arith, h.room, h.head_in)) h.slots.1;
        },
      )

-- A client's calls in order, with what each answers.
pub data Op : Type 0 where
  puts : CanFrame → Op
  takes : Op

pub data Reply : Type 0 where
  put_reply : Option CanError → Reply
  take_reply : Option CanFrame → Reply

unfoldable pub run_ring : CanRingBuffer → List Op → List Reply
run_ring r [] = []
run_ring r (puts f ∷ ops) = put_reply (push r f).1 ∷ run_ring (push r f).0 ops
run_ring r (takes ∷ ops) = take_reply (pop r).1 ∷ run_ring (pop r).0 ops

unfoldable pub run_queue : Queue → List Op → List Reply
run_queue q [] = []
run_queue q (puts f ∷ ops) = put_reply (enqueue q f).1 ∷ run_queue (enqueue q f).0 ops
run_queue q (takes ∷ ops) = take_reply (dequeue q).1 ∷ run_queue (dequeue q).0 ops

run_from :
    (ops : List Op) (r : CanRingBuffer) (q : Queue) → Holds r q → run_ring r ops ≡ run_queue q ops
unfolding run_ring run_queue
run_from [] r q h = refl
run_from (puts f ∷ ops) r q h =
    let (e, h') = push-Holds r q f h in rw (e, run_from ops (push r f).0 (enqueue q f).0 h')
run_from (takes ∷ ops) r q h =
    let (e, h') = pop-Holds r q h in rw (e, run_from ops (pop r).0 (dequeue q).0 h')

-- No sequence of pushes and pops tells a new ring from the empty queue of 15 places: frames come
-- out in the order in which they were accepted, and a push is refused with `BufferFull` exactly
-- when 15 frames wait.
pub run_ring-new : (ops : List Op) → run_ring new ops ≡ run_queue [] ops
run_ring-new ops = run_from ops new [] new-Holds
