-- ===== src/Examples/Clients.antt =====
-- The theorems on the client at a concrete network.
use bacnet_profile_example_b.Base.{
  ℕ, zero, suc, ◌<◌, true, Option, none, some, List, [], ◌∷◌, ◌≡◌, ◌≢◌, refl, arith,
}
use bacnet_profile_example_b.Python.{ok, ◌>>=◌, index}
use bacnet_profile_example_b.Codec.Frame.{
  Frame, blank, decode, decode_bvll, carries_npdu, decode_npdu_octets, decode_npdu, read_address,
  read_message,
}
use bacnet_profile_example_b.Client.{is_answer_to, send_with_retries}
use bacnet_profile_example_b.Endpoint.{Receipt, datagram, connection_reset, wait_for}
use bacnet_profile_example_b.Endpoint.Waiting.{
  Decodes, nothing, decoded, passed_over, only_found, Looks, wait_for-first,
}
use bacnet_profile_example_b.Client.Retries.{
  nth_outcome, send_with_retries-first, send_with_retries-silent, invoke_id_after,
  invoke_id_after-distinct,
}
use bacnet_profile_example_b.Examples.{peer}

abbrev answer_frame : Frame
answer_frame = blank [] peer

-- The first sending is lost.
abbrev second_answered : ℕ → Option Frame
second_answered zero = none
second_answered (suc n) = some answer_frame

first_lost : (j : ℕ) → j < 1 → second_answered j ≡ none
first_lost zero h = refl
first_lost (suc j) h = absurd (omega arith)

send_with_retries-first_example :
    send_with_retries (nth_outcome second_answered) 2 0
    ≡ ok (record { frame = some answer_frame }, 2)
send_with_retries-first_example =
    send_with_retries-first second_answered 2 1 answer_frame first_lost refl (omega arith)

send_with_retries-silent_example :
    send_with_retries (nth_outcome (λ j. none)) 2 0 ≡ ok (record { frame = none }, 3)
send_with_retries-silent_example = send_with_retries-silent (λ j. none) 2 (λ j h. refl)

invoke_id_after-distinct_example : invoke_id_after 250 0 ≢ invoke_id_after 250 255
invoke_id_after-distinct_example =
    invoke_id_after-distinct 250 0 255 (omega arith) (omega arith) (omega arith)

-- A Who-Is that passes by, an error that Windows reports, and the SimpleACK.
abbrev two_receipts : List Receipt
two_receipts =
    datagram (0x81 ∷ 0x0b ∷ 0 ∷ 8 ∷ 1 ∷ 0 ∷ 0x10 ∷ 8 ∷ []) peer
    ∷ connection_reset
    ∷ datagram (0x81 ∷ 0x0a ∷ 0 ∷ 9 ∷ 1 ∷ 0 ∷ 0x20 ∷ 1 ∷ 15 ∷ []) peer
    ∷ []

abbrev passing_frame : Frame
passing_frame = record (blank (0x81 ∷ 0x0b ∷ 0 ∷ 8 ∷ 1 ∷ 0 ∷ 0x10 ∷ 8 ∷ []) peer) {
  bvlc_function = some 0x0b;
  bvll_data = 1 ∷ 0 ∷ 0x10 ∷ 8 ∷ [];
  has_npdu = true;
  payload = 0x10 ∷ 8 ∷ [];
  accepted = true;
}

abbrev acking_frame : Frame
acking_frame = record (blank (0x81 ∷ 0x0a ∷ 0 ∷ 9 ∷ 1 ∷ 0 ∷ 0x20 ∷ 1 ∷ 15 ∷ []) peer) {
  bvlc_function = some 0x0a;
  bvll_data = 1 ∷ 0 ∷ 0x20 ∷ 1 ∷ 15 ∷ [];
  has_npdu = true;
  payload = 0x20 ∷ 1 ∷ 15 ∷ [];
  accepted = true;
}

two_receipts-Decodes : Decodes two_receipts (passing_frame ∷ acking_frame ∷ [])
unfolding decode decode_bvll carries_npdu decode_npdu_octets decode_npdu read_address read_message
    index
two_receipts-Decodes =
    decoded _ peer passing_frame refl (passed_over (decoded _ peer acking_frame refl nothing))

wait_for-first_example :
    Looks
      (is_answer_to 1)
      (passing_frame ∷ acking_frame ∷ [])
      (wait_for (is_answer_to 1) two_receipts [] >>= only_found (is_answer_to 1))
wait_for-first_example =
    wait_for-first (is_answer_to 1) two_receipts [] (passing_frame ∷ acking_frame ∷ [])
      two_receipts-Decodes
