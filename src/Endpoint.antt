-- ===== src/Endpoint.antt =====
-- wiretest/endpoint.py: the frames that an `Endpoint` keeps and how it waits for one, and with them the
-- requests of `Client` (wiretest/client.py). The socket and the clock are not modelled: what is received
-- before a deadline is an argument.
pub mod Waiting
use bacnet_profile_example_b.Base.{
  ℕ, zero, suc, Bool, true, false, Option, none, some, List, [], ◌∷◌, ◌++◌, drop, length,
  if◌then◌else◌,
}
use bacnet_profile_example_b.Base.Eq.{nat_eq, option_eq}
use bacnet_profile_example_b.Python.{Octets, Result, ok, ◌>>=◌}
use bacnet_profile_example_b.Codec.Decode.{i_am_device_instance}
use bacnet_profile_example_b.Codec.Frame.{Frame, Source, decode}
use bacnet_profile_example_b.Client.{
  Answer, next_invoke_id, is_answer_to, request_datagram, send_with_retries,
}

-- One call of `_receive` that does not time out: a datagram, or the error that Windows reports for an
-- earlier send, which is passed over.
pub data Receipt : Type 0 where
  datagram : Octets → Source → Receipt
  connection_reset : Receipt

-- The attribute `frames` after the call.
unfoldable pub receive_one : Receipt → List Frame → Result (List Frame)
receive_one (datagram octets source) frames = do
  frame ← decode octets source
  ok (frames ++ frame ∷ [])
receive_one connection_reset frames = ok frames

unfoldable pub collect : List Receipt → List Frame → Result (List Frame)
unfolding receive_one
collect [] frames = ok frames
collect (receipt ∷ receipts) frames =
    receive_one receipt frames >>= λ frames'. collect receipts frames'

unfoldable pub clear : List Receipt → List Frame → Result (List Frame)
unfolding collect
clear receipts frames = do _ ← collect receipts frames; ok []

-- `frame.ok and predicate(frame)`
abbrev pub matches : (Frame → Result Bool) → Frame → Result Bool
matches predicate frame = if frame.accepted then predicate frame else ok false

-- The loop over the frames.
unfoldable pub first_match : (Frame → Result Bool) → List Frame → Result (Option Frame)
first_match predicate [] = ok none
first_match predicate (frame ∷ frames) =
    let rest = first_match predicate frames in
    matches predicate frame >>= λ found. if found then ok (some frame) else rest

-- What is returned, and the attribute `frames`.
abbrev pub Waited : Type 0
Waited = Option Frame × List Frame

abbrev pub or_wait : List Frame → Result Waited → Option Frame → Result Waited
or_wait frames later (some frame) = ok (some frame, frames)
or_wait frames later none = later

abbrev pub last_look : (Frame → Result Bool) → List Frame → List Frame → Result Waited
last_look predicate unseen frames = do found ← first_match predicate unseen; ok (found, frames)

-- The rounds of `wait_for` from index `seen` on; the time is up behind the last receipt.
unfoldable pub wait_from : (Frame → Result Bool) → ℕ → List Receipt → List Frame → Result Waited
unfolding first_match
wait_from predicate seen [] frames =
    let later = last_look predicate (drop (length frames) frames) frames in
    first_match predicate (drop seen frames) >>= λ found. or_wait frames later found
wait_from predicate seen (receipt ∷ receipts) frames =
    let later = receive_one receipt frames >>= λ frames'.
    wait_from predicate (length frames) receipts frames' in
    first_match predicate (drop seen frames) >>= λ found. or_wait frames later found

unfoldable pub wait_for : (Frame → Result Bool) → List Receipt → List Frame → Result Waited
unfolding wait_from
wait_for predicate receipts frames = wait_from predicate 0 receipts frames

-- The frames, and what the attempts that are left will receive.
abbrev pub Waiter : Type 0
Waiter = List Frame × List (List Receipt)

unfoldable pub client_attempt : ℕ → Waiter → Result (Option Frame × Waiter)
unfolding wait_for
client_attempt n (frames, []) = do
  (found, frames') ← wait_for (is_answer_to n) [] frames
  ok (found, (frames', []))
client_attempt n (frames, receipts ∷ later) = do
  (found, frames') ← wait_for (is_answer_to n) receipts frames
  ok (found, (frames', later))

-- `Client.request`: the answer and the invoke id that was used.
unfoldable pub client_request :
    (ℕ → Result Octets) → ℕ → Option ℕ → Octets → List (List Receipt) → ℕ → Result (Answer × ℕ)
unfolding client_attempt
client_request build_apdu retries dnet dadr receipts last_invoke_id = do
  octets ← request_datagram build_apdu (next_invoke_id last_invoke_id) dnet dadr
  (answer, _) ←
      send_with_retries (client_attempt (next_invoke_id last_invoke_id)) retries ([], receipts)
  ok (answer, next_invoke_id last_invoke_id)

abbrev pub announces : ℕ → Frame → Result Bool
announces device_instance frame = do
  announced ← i_am_device_instance frame.payload
  ok (option_eq.beq announced (some device_instance))

-- `Client.who_is`: each attempt with what it receives.
unfoldable pub client_who_is : ℕ → List (List Receipt) → Result (Option Frame)
unfolding wait_for
client_who_is device_instance [] = ok none
client_who_is device_instance (receipts ∷ attempts) =
    let later = client_who_is device_instance attempts in
    wait_for (announces device_instance) receipts [] >>= λ (found, _). elim found [
      | some frame ↦ ok (some frame)
      | none ↦ later
    ]
