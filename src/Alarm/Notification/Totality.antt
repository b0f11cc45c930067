-- ===== src/Alarm/Notification/Totality.antt =====
-- The decoders of alarm.py end on any octets.
use bacnet_profile_example_b.Base.{
  ℕ, ◌<◌, Bool, false, not, ◌&&◌, ◌||◌, Option, none, some, drop, ◌==◌, arith,
}
use bacnet_profile_example_b.Python.{Octets, Result, ok}
use bacnet_profile_example_b.Python.Ends.{Ends, returns, Malformed, Ends-if, Ends-bind, Ends-weaken}
use bacnet_profile_example_b.Codec.Constants.{pdu_confirmed_request, pdu_unconfirmed_request}
use bacnet_profile_example_b.Codec.Tag.{open_tag, value}
use bacnet_profile_example_b.Codec.Tag.Advances.{read_tag-Ends}
use bacnet_profile_example_b.Codec.Scan.Fuel.{scan-Ends, nested_end-Ends}
use bacnet_profile_example_b.Codec.Decode.{is_kind}
use bacnet_profile_example_b.Codec.Decode.Totality.{Total, object_identifier-Total}
use bacnet_profile_example_b.Codec.Frame.Totality.{invoke_id-Total, service-Total}
use bacnet_profile_example_b.Codec.Frame.{Frame, is_type, pdu_type}
use bacnet_profile_example_b.Services.Cov.{is_service}
use bacnet_profile_example_b.Alarm.{
  DateTime, read_date_time, read_time_stamp_choice, skip_constructed,
}
use bacnet_profile_example_b.Alarm.Requests.{
  service_confirmed_event_notification, service_unconfirmed_event_notification,
}
use bacnet_profile_example_b.Alarm.Notification.{
  Event, empty_event, event_field, read_time_stamp, event_turn, event_of, event_notification_of,
  is_event_notification,
}

-- A time stamp and a position further on.
abbrev pub StampBehind : ℕ → Option DateTime × ℕ → Type 0
StampBehind position (stamp, after) = position < after

module _ (octets : Octets) where
  skip_constructed-Ends :
      (position : ℕ) → Ends (λ after. position < after) Malformed (skip_constructed octets position)
  unfolding skip_constructed
  skip_constructed-Ends position = nested_end-Ends octets position

  read_date_time-Ends :
      (position : ℕ) → Ends (StampBehind position) Malformed (read_date_time octets position)
  unfolding read_date_time
  read_date_time-Ends position = Ends-bind (read_tag-Ends octets position) λ date e h.
      Ends-bind (read_tag-Ends octets date.next) λ time e' h'.
        Ends-bind (read_tag-Ends octets time.next) λ close e'' h''. returns (omega arith)

  pub read_time_stamp_choice-Ends :
      (position : ℕ)
      → Ends (StampBehind position) Malformed (read_time_stamp_choice octets position)
  unfolding read_time_stamp_choice
  read_time_stamp_choice-Ends position = Ends-bind (read_tag-Ends octets position) λ tag e h.
      Ends-if (is_kind tag.kind open_tag && tag.number == 2)
        (λ t. Ends-weaken (read_date_time-Ends tag.next) λ r k. omega arith)
        (λ f.
          Ends-if (is_kind tag.kind open_tag)
            (λ t. Ends-bind (skip_constructed-Ends tag.next) λ after e k. returns (omega arith))
            (λ f. returns (h.1)))

  read_time_stamp-Ends :
      (position : ℕ) → Ends (StampBehind position) Malformed (read_time_stamp octets position)
  unfolding read_time_stamp
  read_time_stamp-Ends position =
      Ends-bind (read_time_stamp_choice-Ends position)
        λ r e h. Ends-bind (read_tag-Ends octets r.1) λ close e' h'. returns (omega arith)

  event_field-Total :
      (event : Event) (number : ℕ) (body : Octets) → Total (event_field event number body)
  unfolding event_field
  event_field-Total event number body =
      Ends-if (number == 0) (λ t. returns tt)
        λ f.
          Ends-if (number == 1) (λ t. Ends-bind (object_identifier-Total body) λ o e h. returns tt)
            λ f.
              Ends-if (number == 2)
                (λ t. Ends-bind (object_identifier-Total body) λ o e h. returns tt)
                λ f.
                  Ends-if (number == 4) (λ t. returns tt)
                    λ f.
                      Ends-if (number == 5) (λ t. returns tt)
                        λ f.
                          Ends-if (number == 6) (λ t. returns tt)
                            λ f.
                              Ends-if (number == 8) (λ t. returns tt)
                                λ f.
                                  Ends-if (number == 9) (λ t. returns tt)
                                    λ f.
                                      Ends-if (number == 10) (λ t. returns tt)
                                        λ f.
                                          Ends-if (number == 11) (λ t. returns tt) λ f. returns tt

  -- Reading the parameters of an event notification ends on any octets: it returns what was found, or
  -- raises IndexError, struct.error or ValueError.
  pub event_of-Total : Total (event_of octets)
  unfolding event_of event_turn
  event_of-Total =
      scan-Ends octets (event_turn octets) (λ s. Unit) 0 empty_event
        (λ s p tag h lt.
          Ends-if (is_kind tag.kind open_tag)
            (λ t.
              Ends-if (tag.number == 3)
                (λ t. Ends-bind (read_time_stamp-Ends tag.next) λ r e k. returns (omega arith, tt))
                (λ f.
                  Ends-bind (skip_constructed-Ends tag.next)
                    λ after e k. returns (omega arith, tt)))
            (λ f.
              Ends-if (not (is_kind tag.kind value) || not tag.is_context) (λ t. returns (lt, tt))
                (λ f.
                  Ends-bind (event_field-Total s tag.number tag.body) λ s' e k. returns (lt, tt))))
        tt

unless_message-Total :
    (message : Option ℕ) {r : Result Bool}
    → Total r
    → Total (elim message [ some m ↦ ok false | none ↦ r ])
unless_message-Total none h = h
unless_message-Total (some m) h = returns tt

module _ (frame : Frame) where
  is_service-Total : (type choice : ℕ) → Total (is_service frame type choice)
  unfolding is_service
  is_service-Total type choice =
      Ends-if (is_type (pdu_type frame) type)
        (λ t. Ends-bind (service-Total frame) λ own e h. returns tt) (λ f. returns tt)

  pub is_event_notification-Total : Total (is_event_notification frame)
  unfolding is_event_notification
  is_event_notification-Total = unless_message-Total frame.network_message (
      Ends-bind (is_service-Total pdu_confirmed_request service_confirmed_event_notification)
        λ confirmed e h.
          Ends-if confirmed (λ t. returns tt)
            (λ f. is_service-Total pdu_unconfirmed_request service_unconfirmed_event_notification))

  pub event_notification_of-Total : Total (event_notification_of frame)
  unfolding event_notification_of
  event_notification_of-Total =
      Ends-if (is_type (pdu_type frame) pdu_confirmed_request)
        (λ t.
          Ends-bind (invoke_id-Total frame)
            λ n e h. Ends-bind (event_of-Total (drop 4 frame.payload)) λ event e' h'. returns tt)
        (λ f. Ends-bind (event_of-Total (drop 2 frame.payload)) λ event e' h'. returns tt)
