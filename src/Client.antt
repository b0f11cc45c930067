-- ===== src/Client.antt =====
-- wiretest/client.py: what an answer says, the invoke ids, and the retries. Sending and waiting is a
-- parameter, `attempt`, with a state of its own; the printed [RETRY] lines are not modelled.
pub mod Retries
use bacnet_profile_example_b.Base.{
  ℕ, zero, suc, ◌+◌, ◌%◌, Bool, true, false, ◌&&◌, ◌||◌, Option, none, some, List, [], ltb, length,
  if◌then◌else◌,
}
use bacnet_profile_example_b.Python.{Octets, Result, ok, ◌>>=◌, index}
use bacnet_profile_example_b.Codec.Constants.{
  pdu_simple_ack, pdu_complex_ack, pdu_error, pdu_reject, pdu_abort,
}
use bacnet_profile_example_b.Codec.Bvll.{Routing, local, npdu, bvlc}
use bacnet_profile_example_b.Codec.Decode.{read_property_value, error_class_and_code}
use bacnet_profile_example_b.Codec.Frame.{Frame, is_type, pdu_type, invoke_id}

-- `Answer`: the frame that came back, if any.
pub record Answer : Type 0 where
  pub frame : Option Frame

abbrev pub frame_is_type : Option Frame → ℕ → Bool
frame_is_type none type = false
frame_is_type (some frame) type = is_type (pdu_type frame) type

unfoldable pub is_answered : Answer → Bool
is_answered a = elim a.frame [ none ↦ false | some frame ↦ true ]

-- The property `ok`.
unfoldable pub is_ok : Answer → Bool
is_ok a = frame_is_type a.frame pdu_complex_ack || frame_is_type a.frame pdu_simple_ack

unfoldable pub is_acked : Answer → Bool
is_acked a = frame_is_type a.frame pdu_simple_ack

abbrev pub payload_of : Option Frame → Octets
payload_of none = []
payload_of (some frame) = frame.payload

unfoldable pub answer_value_octets : Answer → Result (Option Octets)
answer_value_octets a =
    if frame_is_type a.frame pdu_complex_ack
    then read_property_value (payload_of a.frame)
    else ok none

unfoldable pub answer_error : Answer → Result (Option (ℕ × ℕ))
answer_error a =
    if frame_is_type a.frame pdu_error then error_class_and_code (payload_of a.frame) else ok none

-- `reject_reason` and `abort_reason`, the third octet of a PDU of that type.
unfoldable pub reason : ℕ → Answer → Result (Option ℕ)
reason type a =
    if frame_is_type a.frame type && ltb 2 (length (payload_of a.frame))
    then (do octet ← index (payload_of a.frame) 2; ok (some octet))
    else ok none

abbrev pub reject_reason : Answer → Result (Option ℕ)
reject_reason a = reason pdu_reject a

abbrev pub abort_reason : Answer → Result (Option ℕ)
abort_reason a = reason pdu_abort a

-- `_next_invoke_id`
unfoldable pub next_invoke_id : ℕ → ℕ
next_invoke_id n = (n + 1) % 256

-- What `request` waits for.
unfoldable pub is_answer_to : ℕ → Frame → Result Bool
is_answer_to n frame =
    let pdu = pdu_type frame in
    if is_type pdu pdu_complex_ack
      || is_type pdu pdu_simple_ack
      || is_type pdu pdu_error
      || is_type pdu pdu_reject
      || is_type pdu pdu_abort
    then (do own ← invoke_id frame; ok (is_type own n))
    else ok false

-- The datagram that `request` sends, and sends again.
unfoldable pub request_datagram : (ℕ → Result Octets) → ℕ → Option ℕ → Octets → Result Octets
request_datagram build_apdu n dnet dadr = do
  apdu ← build_apdu n
  octets ← npdu apdu (record local { dnet = dnet; dadr = dadr; expecting_reply = true })
  bvlc octets false

module _ {S : Type 0} (attempt : S → Result (Option Frame × S)) where
  unfoldable pub attempts : ℕ → S → Result (Option Frame × S)
  attempts zero s = ok (none, s)
  attempts (suc more) s =
      attempt s >>= λ (frame, s'). elim frame [ none ↦ attempts more s' | some f ↦ ok (some f, s') ]

  unfoldable pub send_with_retries : ℕ → S → Result (Answer × S)
  send_with_retries retries s = do
    (frame, s') ← attempts (suc retries) s
    ok (record { frame = frame }, s')
