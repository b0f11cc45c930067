-- ===== src/Workstation.antt =====
-- wiretest/workstation.py: an operator workstation that receives event notifications while its own
-- requests wait for their answers. The background thread handles one datagram by `serve`; the socket, the
-- lock and the clock are not modelled: what arrives while an attempt waits is an argument.
pub mod Handling
pub mod Answered
pub mod Acks
pub mod Delivery
use bacnet_profile_example_b.Base.{
  ℕ, zero, suc, Bool, true, false, not, ◌&&◌, ◌||◌, Option, none, some, List, [], ◌∷◌, ◌++◌, drop,
  if◌then◌else◌,
}
use bacnet_profile_example_b.Python.{Octets, Result, ok, ◌>>=◌}
use bacnet_profile_example_b.Codec.Constants.{
  pdu_simple_ack, pdu_complex_ack, pdu_error, pdu_reject, pdu_abort,
}
use bacnet_profile_example_b.Codec.Bvll.{Routing, local, npdu, bvlc, is_given}
use bacnet_profile_example_b.Codec.Requests.{simple_ack, i_am}
use bacnet_profile_example_b.Codec.Frame.{Frame, Source, is_type, pdu_type, invoke_id, decode}
use bacnet_profile_example_b.Client.{Answer, next_invoke_id, request_datagram, send_with_retries}
use bacnet_profile_example_b.Peer.{own_invoke_id}
use bacnet_profile_example_b.Alarm.Requests.{service_confirmed_event_notification}
use bacnet_profile_example_b.Alarm.Notification.{
  EventNotification, event_notification_of, is_event_notification,
}

-- The attributes, except the retries and the timeout, which `request` takes.
pub record Workstation : Type 0 where
  pub answer_notifications : Bool
  pub notifications : List EventNotification
  pub responses : List Frame
  pub last_invoke_id : ℕ

-- `Workstation.__init__`
abbrev pub new_workstation : Bool → Workstation
new_workstation answer_notifications = record {
  answer_notifications = answer_notifications;
  notifications = [];
  responses = [];
  last_invoke_id = 0;
}

-- `frame.pdu_type in RESPONSE_TYPES`
unfoldable pub is_response : Frame → Bool
is_response frame =
    let pdu = pdu_type frame in
    is_type pdu pdu_simple_ack
    || is_type pdu pdu_complex_ack
    || is_type pdu pdu_error
    || is_type pdu pdu_reject
    || is_type pdu pdu_abort

-- The SimpleACK of a confirmed notification, unless the workstation plays one that has gone silent.
unfoldable pub acknowledgement : Workstation → Frame → EventNotification → Result (Option Octets)
acknowledgement w frame notification =
    if notification.confirmed && w.answer_notifications
    then (do
      n ← own_invoke_id frame
      apdu ← simple_ack n service_confirmed_event_notification
      octets ← npdu apdu local
      datagram ← bvlc octets false
      ok (some datagram))
    else ok none

-- What the thread does with a frame: the workstation after it, and a datagram for the source.
unfoldable pub handle : Workstation → Frame → Result (Workstation × Option Octets)
unfolding acknowledgement
handle w frame = if not frame.accepted || is_given frame.network_message then ok (w, none) else (do
  is_event ← is_event_notification frame
  if is_event
      then (do
        notification ← event_notification_of frame
        datagram ← acknowledgement w frame notification
        ok (record w { notifications = w.notifications ++ notification ∷ [] }, datagram))
      else if is_response frame
      then ok (record w { responses = w.responses ++ frame ∷ [] }, none)
      else ok (w, none))

-- One datagram that the thread receives.
unfoldable pub serve : Octets → Source → Workstation → Result (Workstation × Option Octets)
serve octets source w = do frame ← decode octets source; handle w frame

-- `self.notifications[after:]`
abbrev pub notifications_since : Workstation → ℕ → List EventNotification
notifications_since w after = drop after w.notifications

abbrev pub first_notification :
    (EventNotification → Bool) → List EventNotification → Option EventNotification
first_notification predicate [] = none
first_notification predicate (n ∷ notifications) =
    if predicate n then some n else first_notification predicate notifications

-- `[frame for frame in responses if frame.invoke_id != invoke_id]`
unfoldable pub without_answers : ℕ → List Frame → Result (List Frame)
without_answers n [] = ok []
without_answers n (frame ∷ responses) = do
  own ← invoke_id frame
  rest ← without_answers n responses
  ok (if is_type own n then rest else frame ∷ rest)

-- How a request begins: the next invoke id, and no response with it is left from before.
unfoldable pub begin : Workstation → Result (ℕ × Workstation)
unfolding without_answers
begin w = do
  responses ← without_answers (next_invoke_id w.last_invoke_id) w.responses
  ok (
    next_invoke_id w.last_invoke_id,
    record w { responses = responses; last_invoke_id = next_invoke_id w.last_invoke_id },
  )

-- The first response with the invoke id, and the others.
unfoldable pub taken : ℕ → List Frame → Result (Option Frame × List Frame)
taken n [] = ok (none, [])
taken n (frame ∷ responses) = do
  own ← invoke_id frame
  if is_type own n
      then ok (some frame, responses)
      else (do (found, rest) ← taken n responses; ok (found, frame ∷ rest))

unfoldable pub take_response : ℕ → Workstation → Result (Option Frame × Workstation)
unfolding taken
take_response n w = do
  (found, rest) ← taken n w.responses
  ok (found, record w { responses = rest })

abbrev pub Arrival : Type 0
Arrival = Octets × Source

-- An attempt that looks for its response, and again after each datagram that arrives, up to the deadline.
unfoldable pub await : ℕ → List Arrival → Workstation → Result (Option Frame × Workstation)
unfolding take_response
await n [] w = take_response n w
await n ((octets, source) ∷ arrivals) w = do
  (found, w') ← take_response n w
  elim found [
    | some frame ↦ ok (some frame, w')
    | none ↦ serve octets source w' >>= λ (w'', _). await n arrivals w''
  ]

-- A request's attempts, each with what arrives before its deadline.
unfoldable pub attempt :
    ℕ
    → Workstation × List (List Arrival)
    → Result (Option Frame × (Workstation × List (List Arrival)))
unfolding await
attempt n (w, []) = do (found, w') ← await n [] w; ok (found, (w', []))
attempt n (w, arrivals ∷ later) = do (found, w') ← await n arrivals w; ok (found, (w', later))

-- `Workstation.request`
unfoldable pub request :
    (ℕ → Result Octets) → ℕ → List (List Arrival) → Workstation → Result (Answer × Workstation)
unfolding begin attempt
request build_apdu retries arrivals w = do
  (n, w') ← begin w
  octets ← request_datagram build_apdu n none []
  (answer, (w'', _)) ← send_with_retries (attempt n) retries (w', arrivals)
  ok (answer, w'')

-- `send_unconfirmed` and `announce`: the datagram that goes out.
unfoldable pub unconfirmed_datagram : Octets → Result Octets
unconfirmed_datagram apdu = do octets ← npdu apdu local; bvlc octets false

unfoldable pub announcement : ℕ → ℕ → Result Octets
unfolding unconfirmed_datagram
announcement device_instance vendor_identifier = do
  apdu ← i_am device_instance vendor_identifier 1476 3
  unconfirmed_datagram apdu
