-- ===== src/Alarm/Notification.antt =====
-- wiretest/alarm.py, `EventNotification` and `is_event_notification`.
pub mod RoundTrip
pub mod Totality
use bacnet_profile_example_b.Base.{
  ℕ, Bool, true, false, not, ◌&&◌, ◌||◌, Option, none, some, drop, ◌==◌, if◌then◌else◌,
}
use bacnet_profile_example_b.Python.{Octets, Result, ok, ◌>>=◌, from_bytes}
use bacnet_profile_example_b.Codec.Constants.{pdu_confirmed_request, pdu_unconfirmed_request}
use bacnet_profile_example_b.Codec.Tag.{Tag, open_tag, value, read_tag}
use bacnet_profile_example_b.Codec.Scan.{Turn, go_on, scan}
use bacnet_profile_example_b.Codec.Decode.{ObjectId, is_kind, object_identifier}
use bacnet_profile_example_b.Codec.Frame.{Frame, is_type, pdu_type, invoke_id}
use bacnet_profile_example_b.Services.Cov.{is_service, parameters_of}
use bacnet_profile_example_b.Alarm.{DateTime, read_time_stamp_choice, skip_constructed}
use bacnet_profile_example_b.Alarm.Requests.{
  service_confirmed_event_notification, service_unconfirmed_event_notification,
}

-- The attributes that the loop sets, each None until it is read.
pub record Event : Type 0 where
  pub process_identifier : Option ℕ
  pub initiating_device : Option ObjectId
  pub event_object : Option ObjectId
  pub time_stamp : Option DateTime
  pub notification_class : Option ℕ
  pub priority : Option ℕ
  pub event_type : Option ℕ
  pub notify_type : Option ℕ
  pub ack_required : Option Bool
  pub from_state : Option ℕ
  pub to_state : Option ℕ

abbrev pub empty_event : Event
empty_event = record {
  process_identifier = none;
  initiating_device = none;
  event_object = none;
  time_stamp = none;
  notification_class = none;
  priority = none;
  event_type = none;
  notify_type = none;
  ack_required = none;
  from_state = none;
  to_state = none;
}

-- A context-tagged primitive, by its number.
unfoldable pub event_field : Event → ℕ → Octets → Result Event
event_field e number body =
    if number == 0
    then ok (record e { process_identifier = some (from_bytes body) })
    else if number == 1
    then (do object ← object_identifier body; ok (record e { initiating_device = some object }))
    else if number == 2
    then (do object ← object_identifier body; ok (record e { event_object = some object }))
    else if number == 4
    then ok (record e { notification_class = some (from_bytes body) })
    else if number == 5
    then ok (record e { priority = some (from_bytes body) })
    else if number == 6
    then ok (record e { event_type = some (from_bytes body) })
    else if number == 8
    then ok (record e { notify_type = some (from_bytes body) })
    else if number == 9
    then ok (record e { ack_required = some (not (from_bytes body == 0)) })
    else if number == 10
    then ok (record e { from_state = some (from_bytes body) })
    else if number == 11
    then ok (record e { to_state = some (from_bytes body) })
    else ok e

-- `_read_time_stamp`: the stamp, and the position behind the closing tag around it.
unfoldable pub read_time_stamp : Octets → ℕ → Result (Option DateTime × ℕ)
read_time_stamp octets position = do
  (stamp, inner) ← read_time_stamp_choice octets position
  close ← read_tag octets inner
  ok (stamp, close.next)

unfoldable pub event_turn : Octets → Event → Tag → Result (Turn Event)
unfolding read_time_stamp event_field
event_turn octets e tag =
    if is_kind tag.kind open_tag
    then (if tag.number == 3
        then (do
          (stamp, after) ← read_time_stamp octets tag.next
          ok (go_on after (record e { time_stamp = stamp })))
        else (do after ← skip_constructed octets tag.next; ok (go_on after e)))
    else if not (is_kind tag.kind value) || not tag.is_context
    then ok (go_on tag.next e)
    else (do e' ← event_field e tag.number tag.body; ok (go_on tag.next e'))

unfoldable pub event_of : Octets → Result Event
unfolding event_turn
event_of octets = scan octets (event_turn octets) 0 empty_event

-- What `EventNotification.__init__` makes of a frame: `confirmed`, `invoke_id` and the other attributes.
pub record EventNotification : Type 0 where
  pub confirmed : Bool
  pub invoke_id : Option ℕ
  pub event : Event

unfoldable pub event_notification_of : Frame → Result EventNotification
unfolding event_of
event_notification_of frame =
    if is_type (pdu_type frame) pdu_confirmed_request
    then (do
      n ← invoke_id frame
      e ← event_of (drop 4 frame.payload)
      ok (record { confirmed = true; invoke_id = n; event = e }))
    else (do
      e ← event_of (drop 2 frame.payload)
      ok (record { confirmed = false; invoke_id = none; event = e }))

-- A network layer message has no PDU type, so `is_service` is false for it.
unfoldable pub is_event_notification : Frame → Result Bool
is_event_notification frame = elim frame.network_message [
  | some message ↦ ok false
  | none ↦ (do
    confirmed ← is_service frame pdu_confirmed_request service_confirmed_event_notification
    if confirmed
        then ok true
        else is_service frame pdu_unconfirmed_request service_unconfirmed_event_notification)
]
