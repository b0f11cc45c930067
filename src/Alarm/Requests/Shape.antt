-- ===== src/Alarm/Requests/Shape.antt =====
-- The octets that `event_notification` produces, in terms of the tagged encoding.
use bacnet_profile_example_b.Base.{
  ℕ, ◌^◌, ◌<◌, Bool, true, false, not, Option, none, some, [], ◌∷◌, ◌++◌, ◌≡◌, refl, arith, length,
  ◌==◌, if◌then◌else◌, Bool-cases, inl, inr,
}
use bacnet_profile_example_b.Python.{Octets, ok, bytes}
use bacnet_profile_example_b.Platform.{Platform}
use bacnet_profile_example_b.Codec.Constants.{object_type_device}
use bacnet_profile_example_b.Codec.Encode.{context_enumerated, context_octet}
use bacnet_profile_example_b.Codec.Encode.Minimal.{minimal}
use bacnet_profile_example_b.Codec.Encode.Writes.{
  IsIdentifier, identifier_octets, bytes-two, bit_or-class, context_octet-eq, context_unsigned-eq,
  context_object_id-eq, context_boolean-eq, tagged-short,
}
use bacnet_profile_example_b.Codec.Tagged.{tagged, opened, closed, first_octet}
use bacnet_profile_example_b.Codec.Requests.Shape.{enclosed-eq, confirmed_request-eq}
use bacnet_profile_example_b.Codec.Values.{
  context_real, context_bit_string, text_body, context_character_string, application_bit_string,
  bit_string_body, set_bits,
}
use bacnet_profile_example_b.Alarm.{context_date_time}
use bacnet_profile_example_b.Alarm.Requests.{
  EventReport, date_octets_of, clock_octets_of, optional_text, event_values, transition_octets,
  event_parameters, event_notification,
}

context_enumerated-eq :
    (tag v : ℕ)
    → tag < 16
    → v < 2 ^ 32
    → context_enumerated tag v ≡ ok (tagged tag true (minimal v))
unfolding context_enumerated
context_enumerated-eq tag v h k = context_unsigned-eq tag v h k

-- A time stamp in the dateTime form, inside context tag 3.
abbrev pub stamp_octets : Octets → Octets → Octets
stamp_octets date time =
    opened 3
    ++ ((opened 2 ++ ((tagged 10 false date ++ tagged 11 false time) ++ closed 2)) ++ closed 3)

context_date_time-eq :
    (date time : Octets)
    → length date ≡ 4
    → length time ≡ 4
    → context_date_time 3 (date, time) ≡ ok (stamp_octets date time)
unfolding context_date_time
context_date_time-eq date time h k =
    let whole : 0xa4 ∷ (date ++ 0xb4 ∷ time) ≡ tagged 10 false date ++ tagged 11 false time =
      rw (tagged-short 10 false date (omega arith), tagged-short 11 false time (omega arith), h, k)
        refl in
    rw (
      whole,
      enclosed-eq 2 (tagged 10 false date ++ tagged 11 false time) (omega arith),
      enclosed-eq 3 _ (omega arith),
    )

module _ {Text Real : Type 0} (platform : Platform Text Real) where
  context_real-eq :
      (tag : ℕ) (v : Real) (octets : Octets)
      → tag < 16
      → platform.pack_float v ≡ ok octets
      → context_real platform tag v ≡ ok (tagged tag true octets)
  unfolding context_real
  context_real-eq tag v octets h packed =
      let size = platform.pack_float-length v octets packed in
      rw
        (
          context_octet-eq tag 4 h (omega arith),
          packed,
          tagged-short tag true octets (omega arith),
          size,
        )
        refl

  context_character_string-eq :
      (tag : ℕ) (t : Text)
      → tag < 16
      → length (platform.encode t) < 253
      → context_character_string platform tag t ≡ ok (tagged tag true (text_body platform t))
  unfolding context_character_string tagged
  context_character_string-eq tag t h k = ground (
    arith,
    context_octet-eq tag (length (text_body platform t)),
    bit_or-class tag 5,
    bytes-two (first_octet tag true 5) (length (text_body platform t)),
  )

-- The octets of a report: its date and time, and what its numbers are packed to.
pub record Packed : Type 0 where
  pub date : Octets
  pub time : Octets
  pub exceeding : Octets
  pub deadband : Octets
  pub limit : Octets

abbrev pub TextFits : {Text : Type 0} → (Text → Octets) → Option Text → Type 0
TextFits encode none = Unit {0}
TextFits encode (some t) = length (encode t) < 253

-- What fits the fields of the notification.
pub record IsReport {Text Real : Type 0} (platform : Platform Text Real) (one : Real)
    (r : EventReport Text Real) (p : Packed) : Type 0 where
  pub device_fits : IsIdentifier object_type_device r.initiating_device
  pub object_fits : IsIdentifier r.event_object.0 r.event_object.1
  pub process_fits : r.process_identifier < 2 ^ 32
  pub class_fits : r.notification_class < 2 ^ 32
  pub priority_fits : r.priority < 2 ^ 32
  pub notify_fits : r.notify_type < 2 ^ 32
  pub from_fits : r.from_state < 2 ^ 32
  pub to_fits : r.to_state < 2 ^ 32
  pub invoke_fits : r.invoke_id < 256
  pub text_fits : TextFits platform.encode r.message_text
  pub date_packed : date_octets_of r.date ≡ ok (0xa4 ∷ p.date)
  pub time_packed : clock_octets_of r.time ≡ ok (0xb4 ∷ p.time)
  pub date_length : length p.date ≡ 4
  pub time_length : length p.time ≡ 4
  pub exceeding_packed : platform.pack_float r.exceeding_value ≡ ok p.exceeding
  pub deadband_packed : platform.pack_float one ≡ ok p.deadband
  pub limit_packed : platform.pack_float r.exceeded_limit ≡ ok p.limit

abbrev pub flags_octets : Bool → Octets
flags_octets in_alarm = 4 ∷ (if in_alarm then 128 else 0) ∷ []

context_bit_string-flags :
    (b : Bool)
    → context_bit_string 1 (b ∷ false ∷ false ∷ false ∷ []) ≡ ok (tagged 1 true (flags_octets b))
unfolding context_bit_string application_bit_string bit_string_body set_bits bytes context_octet
    tagged
context_bit_string-flags true = refl
context_bit_string-flags false = refl

module _ {Text Real : Type 0} (platform : Platform Text Real) where
  abbrev pub text_octets : Option Text → Octets
  text_octets none = []
  text_octets (some t) = tagged 7 true (text_body platform t)

  optional_text-eq :
      (o : Option Text)
      → TextFits platform.encode o
      → optional_text platform 7 o ≡ ok (text_octets o)
  unfolding optional_text
  optional_text-eq none h = refl
  optional_text-eq (some t) h = context_character_string-eq platform 7 t (omega arith) h

  module _ (one : Real) (r : EventReport Text Real) (p : Packed) where
    abbrev pub in_alarm : Bool
    in_alarm = not (r.to_state == 0)

    -- The values of the out-of-range event, in [5].
    abbrev pub values_octets : Octets
    values_octets =
        tagged 0 true p.exceeding
        ++ (tagged 1 true (flags_octets in_alarm)
            ++ (tagged 2 true p.deadband ++ tagged 3 true p.limit))

    abbrev pub is_ack : Bool
    is_ack = r.notify_type == 2

    abbrev pub transition_of : Bool → Octets
    transition_of true = tagged 11 true (minimal r.to_state)
    transition_of false =
        tagged 9 true ((if r.ack_required then 1 else 0) ∷ [])
        ++ (tagged 10 true (minimal r.from_state)
            ++ (tagged 11 true (minimal r.to_state)
                ++ (opened 12 ++ ((opened 5 ++ (values_octets ++ closed 5)) ++ closed 12))))

    abbrev pub report_octets : Octets
    report_octets =
        tagged 0 true (minimal r.process_identifier)
        ++ (tagged 1 true (identifier_octets 8 r.initiating_device)
            ++ (tagged 2 true (identifier_octets r.event_object.0 r.event_object.1)
                ++ (stamp_octets p.date p.time
                    ++ (tagged 4 true (minimal r.notification_class)
                        ++ (tagged 5 true (minimal r.priority)
                            ++ (tagged 6 true (minimal 5)
                                ++ (text_octets r.message_text
                                    ++ (tagged 8 true (minimal r.notify_type)
                                        ++ transition_of is_ack))))))))

    abbrev pub notification_octets : Bool → Octets
    notification_octets true = 0 ∷ 5 ∷ r.invoke_id ∷ 2 ∷ report_octets
    notification_octets false = 0x10 ∷ 3 ∷ report_octets

    module _ (h : IsReport platform one r p) where
      event_values-eq :
          event_values platform one r
          ≡ ok (opened 12 ++ ((opened 5 ++ (values_octets ++ closed 5)) ++ closed 12))
      unfolding event_values
      event_values-eq = rw (
        context_real-eq platform 0 r.exceeding_value p.exceeding (omega arith) h.exceeding_packed,
        context_bit_string-flags in_alarm,
        context_real-eq platform 2 one p.deadband (omega arith) h.deadband_packed,
        context_real-eq platform 3 r.exceeded_limit p.limit (omega arith) h.limit_packed,
        enclosed-eq 5 values_octets (omega arith),
        enclosed-eq 12 (opened 5 ++ (values_octets ++ closed 5)) (omega arith),
      )

      transition_octets-eq : transition_octets platform one r ≡ ok (transition_of is_ack)
      unfolding transition_octets
      transition_octets-eq = elim (Bool-cases is_ack) [
        | inl ack ↦ rw (ack, context_enumerated-eq 11 r.to_state (omega arith) h.to_fits)
        | inr other ↦ rw (
          other,
          context_boolean-eq 9 r.ack_required (omega arith),
          context_enumerated-eq 10 r.from_state (omega arith) h.from_fits,
          context_enumerated-eq 11 r.to_state (omega arith) h.to_fits,
          event_values-eq,
        )
      ]

      pub event_parameters-eq : event_parameters platform one r ≡ ok report_octets
      unfolding event_parameters
      event_parameters-eq = rw (
        h.date_packed,
        h.time_packed,
        context_unsigned-eq 0 r.process_identifier (omega arith) h.process_fits,
        context_object_id-eq 1 object_type_device r.initiating_device (omega arith) h.device_fits,
        context_object_id-eq 2 r.event_object.0 r.event_object.1 (omega arith) h.object_fits,
        context_date_time-eq p.date p.time h.date_length h.time_length,
        context_unsigned-eq 4 r.notification_class (omega arith) h.class_fits,
        context_unsigned-eq 5 r.priority (omega arith) h.priority_fits,
        context_enumerated-eq 6 5 (omega arith) (omega arith),
        optional_text-eq r.message_text h.text_fits,
        context_enumerated-eq 8 r.notify_type (omega arith) h.notify_fits,
        transition_octets-eq,
      )

      pub event_notification-eq :
          event_notification platform one r ≡ ok (notification_octets r.confirmed)
      unfolding event_notification
      event_notification-eq = elim (Bool-cases r.confirmed) [
        | inl confirmed ↦
            rw (event_parameters-eq, confirmed)
              (confirmed_request-eq r.invoke_id 2 report_octets h.invoke_fits (omega arith))
        | inr unconfirmed ↦
            rw (event_parameters-eq, unconfirmed, bytes-two 16 3 (omega arith) (omega arith)) refl
      ]
