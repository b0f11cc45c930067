-- ===== src/Examples/Alarms.antt =====
-- Event notifications and the workstation at a concrete report and session.
use mathlib.Core.List.{Memᴰ}
use bacnet_profile_example_b.Base.{ℕ, true, false, none, some, [], ◌∷◌, ◌≡◌, refl, arith}
use bacnet_profile_example_b.Python.{Octets, ok, ◌>>=◌, bytes, index, slice, big_endian}
use bacnet_profile_example_b.Python.Ends.{Ends}
use bacnet_profile_example_b.Codec.Bvll.{local, npdu, bvlc}
use bacnet_profile_example_b.Codec.Values.{application_date, application_time}
use bacnet_profile_example_b.Codec.Frame.{
  Frame, blank, service, decode, decode_bvll, carries_npdu, decode_npdu_octets, decode_npdu,
  read_address, read_message, invoke_id, pdu_type,
}
use bacnet_profile_example_b.Client.{next_invoke_id}
use bacnet_profile_example_b.Services.Cov.{is_service}
use bacnet_profile_example_b.Codec.Tagged.{tagged}
use bacnet_profile_example_b.Codec.Encode.Minimal.{minimal}
use bacnet_profile_example_b.Codec.Encode.Writes.{identifier_octets}
use bacnet_profile_example_b.Alarm.Requests.{EventReport, event_notification}
use bacnet_profile_example_b.Alarm.Requests.Shape.{Packed, IsReport}
use bacnet_profile_example_b.Alarm.Notification.{
  EventNotification, event_notification_of, is_event_notification,
}
use bacnet_profile_example_b.Alarm.Notification.RoundTrip.{
  reported, event_notification_of-event_notification,
}
use bacnet_profile_example_b.Alarm.Summaries.{parse_event_summaries}
use bacnet_profile_example_b.Alarm.Summaries.Totality.{
  MalformedOrUnlisted, parse_event_summaries-Fine,
}
use bacnet_profile_example_b.Workstation.{
  Workstation, new_workstation, is_response, handle, serve, without_answers, begin, taken,
  take_response, await,
}
use bacnet_profile_example_b.Workstation.Handling.{Finishes, Handled, handle-Handled}
use bacnet_profile_example_b.Workstation.Answered.{IsPassing, begin-answered}
use bacnet_profile_example_b.Workstation.Acks.{ack_datagram, serve-event_notification}
use bacnet_profile_example_b.Workstation.Delivery.{
  Session, arrives, begins, Reach, here, next, started, Reach-takes,
}
use bacnet_profile_example_b.Examples.{peer}
use bacnet_profile_example_b.Examples.Servers.{octets_platform}

abbrev zeros : Octets
zeros = 0 ∷ 0 ∷ 0 ∷ 0 ∷ []

-- Device 389001 reports that its Analog Input 3 went to high-limit.
abbrev report : EventReport Octets ℕ
report = record {
  initiating_device = 389001;
  event_object = (0, 3);
  to_state = 3;
  from_state = 0;
  confirmed = true;
  invoke_id = 9;
  process_identifier = 1;
  notification_class = 1;
  priority = 100;
  notify_type = 0;
  ack_required = true;
  message_text = some (72 ∷ 105 ∷ []);
  date = (2026, 10, 15, 4);
  time = (12, 30, 0);
  exceeding_value = 95;
  exceeded_limit = 90;
}

abbrev packed : Packed
packed = record {
  date = 126 ∷ 10 ∷ 15 ∷ 4 ∷ [];
  time = 12 ∷ 30 ∷ 0 ∷ 0 ∷ [];
  exceeding = zeros;
  deadband = zeros;
  limit = zeros;
}

report-IsReport : IsReport octets_platform 1 report packed
unfolding application_date application_time bytes
report-IsReport = record {
  device_fits = record { type_fits = omega arith; instance_fits = omega arith };
  object_fits = record { type_fits = omega arith; instance_fits = omega arith };
  process_fits = omega arith;
  class_fits = omega arith;
  priority_fits = omega arith;
  notify_fits = omega arith;
  from_fits = omega arith;
  to_fits = omega arith;
  invoke_fits = omega arith;
  text_fits = omega arith;
  date_packed = refl;
  time_packed = refl;
  date_length = refl;
  time_length = refl;
  exceeding_packed = refl;
  deadband_packed = refl;
  limit_packed = refl;
}

abbrev report_notification : EventNotification
report_notification = record {
  confirmed = true;
  invoke_id = some 9;
  event = reported report packed;
}

event_notification_of-event_notification_example :
    (octets : Octets) × (event_notification octets_platform 1 report ≡ ok octets)
    × (is_event_notification (record (blank [] peer) { payload = octets }) ≡ ok true)
    × (event_notification_of (record (blank [] peer) { payload = octets }) ≡ ok report_notification)
event_notification_of-event_notification_example =
    event_notification_of-event_notification octets_platform 1 report packed report-IsReport
      (blank [] peer) refl

serve-event_notification_example :
    (event_notification octets_platform 1 report >>= λ apdu.
    npdu apdu (record local { expecting_reply = true }) >>= λ octets.
    bvlc octets false >>= λ datagram. serve datagram peer (new_workstation true))
    ≡ ok (
      record (new_workstation true) { notifications = report_notification ∷ [] },
      some (ack_datagram 9),
    )
unfolding tagged minimal identifier_octets big_endian
serve-event_notification_example =
    serve-event_notification octets_platform 1 report packed report-IsReport (new_workstation true)
      peer (omega arith)

parse_event_summaries-Fine_example :
    Ends
      (λ r. Unit {0})
      MalformedOrUnlisted
      (parse_event_summaries (0x30 ∷ 7 ∷ 29 ∷ 0x0e ∷ 0x19 ∷ 2 ∷ []))
parse_event_summaries-Fine_example =
    parse_event_summaries-Fine (0x30 ∷ 7 ∷ 29 ∷ 0x0e ∷ 0x19 ∷ 2 ∷ [])

-- A SimpleACK of a WriteProperty with invoke id 1.
abbrev simple_ack_frame : Frame
simple_ack_frame = record (blank [] peer) {
  has_npdu = true;
  payload = 0x20 ∷ 1 ∷ 15 ∷ [];
  accepted = true;
}

handle-Handled_example :
    Finishes
      (λ (w', datagram). Handled (new_workstation true) simple_ack_frame w')
      (handle (new_workstation true) simple_ack_frame)
handle-Handled_example = handle-Handled (new_workstation true) simple_ack_frame

abbrev asking : Workstation
asking = record (new_workstation true) { last_invoke_id = 1 }

abbrev answered_workstation : Workstation
answered_workstation = record asking { responses = simple_ack_frame ∷ [] }

abbrev answered_session : Session
answered_session = record {
  workstation = answered_workstation;
  waiting = some 1;
  since = simple_ack_frame ∷ [];
}

answered-Reach : Reach (started true) answered_session
unfolding begin without_answers next_invoke_id handle is_event_notification is_service is_response
    pdu_type
answered-Reach = next (next here (begins (started true) 1 asking refl)) (
    arrives (record { workstation = asking; waiting = some 1; since = [] }) simple_ack_frame
      answered_workstation none refl)

Reach-takes_example :
    (is_response simple_ack_frame ≡ true)
    × (invoke_id simple_ack_frame ≡ ok (some 1))
    × Memᴰ simple_ack_frame (simple_ack_frame ∷ [])
unfolding take_response taken invoke_id pdu_type index
Reach-takes_example =
    Reach-takes true answered_session 1 simple_ack_frame asking answered-Reach refl refl

-- An I-Am, which passes.
abbrev other_datagram : Octets
other_datagram = 0x81 ∷ 0x0b ∷ 0 ∷ 8 ∷ 1 ∷ 0 ∷ 0x10 ∷ 0 ∷ []

abbrev ack_octets : Octets
ack_octets = 0x81 ∷ 0x0a ∷ 0 ∷ 9 ∷ 1 ∷ 0 ∷ 0x20 ∷ 1 ∷ 15 ∷ []

abbrev other_frame : Frame
other_frame = record (blank other_datagram peer) {
  bvlc_function = some 0x0b;
  bvll_data = 1 ∷ 0 ∷ 0x10 ∷ 0 ∷ [];
  has_npdu = true;
  payload = 0x10 ∷ 0 ∷ [];
  accepted = true;
}

abbrev ack_frame : Frame
ack_frame = record (blank ack_octets peer) {
  bvlc_function = some 0x0a;
  bvll_data = 1 ∷ 0 ∷ 0x20 ∷ 1 ∷ 15 ∷ [];
  has_npdu = true;
  payload = 0x20 ∷ 1 ∷ 15 ∷ [];
  accepted = true;
}

other_datagram-IsPassing : IsPassing 1 (other_datagram, peer)
unfolding decode decode_bvll carries_npdu decode_npdu_octets decode_npdu read_address read_message
    slice handle is_event_notification is_service service is_response pdu_type index
other_datagram-IsPassing =
    (other_frame, refl, λ w. ((w, none), refl), λ response. absurd (ground (arith, response)))

begin-answered_example :
    (w'' : Workstation) × (await 1 ((other_datagram, peer) ∷ (ack_octets, peer) ∷ []) asking
      ≡ ok (some ack_frame, w''))
unfolding decode decode_bvll carries_npdu decode_npdu_octets decode_npdu read_address read_message
    slice is_response pdu_type index invoke_id begin without_answers next_invoke_id
begin-answered_example =
    begin-answered 1 ack_octets peer ack_frame [] refl refl refl refl (new_workstation true) asking
      ((other_datagram, peer) ∷ []) refl (other_datagram-IsPassing, tt)
