-- ===== src/Network/Examples.antt =====
-- Tests of the CAN stack (the unit tests of network/src/can.rs among them), and each theorem at a
-- concrete input.
use cerberus_os.Base.{ℕ, ◌≡◌, refl, none, some, List, [], ◌∷◌, arith, replicate}
use cerberus_os.Network.Can.{
  CanFrame, blocked_id, frame, error, contains, parse_id, parse_dlc, parse_payload, parse,
}
use cerberus_os.Network.Parse.{IsAnswer, parse-IsAnswer, encode, IsSendable, parse-encode}
use cerberus_os.Network.Ring.{new, push, pop, advance}
use cerberus_os.Network.Queue.{
  puts, takes, run_ring, run_queue, run_ring-new, take_reply, put_reply,
}

-- The test `parse_extracts_id_dlc_and_payload`: identifier 0x123, four bytes.
abbrev sample : List ℕ
sample = 0x24 ∷ 0x60 ∷ 4 ∷ 0xAA ∷ 0xBB ∷ 0xCC ∷ 0xDD ∷ 0 ∷ 0 ∷ 0 ∷ 0 ∷ 0 ∷ 0 ∷ []

abbrev sample_frame : CanFrame
sample_frame = record {
  id = 0x123;
  dlc = 4;
  payload = 0xAA ∷ 0xBB ∷ 0xCC ∷ 0xDD ∷ 0 ∷ 0 ∷ 0 ∷ 0 ∷ [];
}

parse-sample : parse sample ≡ frame sample_frame
unfolding parse parse_id parse_dlc parse_payload contains
parse-sample = refl

-- The gateway request 0x7DF is refused.
parse_blocked : parse (0xFB ∷ 0xE0 ∷ replicate 11 0) ≡ error (blocked_id 0x7DF)
unfolding parse parse_id parse_dlc contains
parse_blocked = refl

-- 0x7E2 lies in the documented range 0x7E0-0x7EF, and passes.
parse_passes_7E2 : (f : CanFrame) × (parse (0xFC ∷ 0x40 ∷ replicate 11 0) ≡ frame f)
unfolding parse parse_id parse_dlc parse_payload contains
parse_passes_7E2 = (_, refl)

parse-IsAnswer_example : IsAnswer sample (parse sample)
parse-IsAnswer_example = parse-IsAnswer sample refl (omega arith)

sample-IsSendable : IsSendable sample_frame (0xAA ∷ 0xBB ∷ 0xCC ∷ 0xDD ∷ [])
unfolding contains
sample-IsSendable = record {
  standard = omega arith;
  allowed = refl;
  dlc_small = omega arith;
  size = refl;
  padded = refl;
  are_bytes = omega arith;
}

parse-encode_example : parse (encode sample_frame) ≡ frame sample_frame
parse-encode_example = parse-encode sample_frame (0xAA ∷ 0xBB ∷ 0xCC ∷ 0xDD ∷ []) sample-IsSendable

ring_keeps_order :
    run_ring new (puts sample_frame ∷ takes ∷ takes ∷ [])
    ≡ put_reply none ∷ take_reply (some sample_frame) ∷ take_reply none ∷ []
unfolding run_ring push pop advance
ring_keeps_order = refl

run_ring-new_example :
    run_ring new (puts sample_frame ∷ takes ∷ []) ≡ run_queue [] (puts sample_frame ∷ takes ∷ [])
run_ring-new_example = run_ring-new (puts sample_frame ∷ takes ∷ [])
