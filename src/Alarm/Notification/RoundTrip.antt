-- ===== src/Alarm/Notification/RoundTrip.antt =====
-- What `EventNotification` reads from an encoded event notification.
use bacnet_profile_example_b.Base.{
  ℕ, ◌+◌, ◌<◌, ◌^◌, Bool, true, false, Option, none, some, [], ◌∷◌, ◌++◌, drop, ◌≡◌, refl, arith,
  length, ◌==◌, if◌then◌else◌, Bool-cases, append_assoc, append-nil, sym, ◌∙◌, ap,
}
use bacnet_profile_example_b.Python.{Octets, ok, index, from_bytes}
use bacnet_profile_example_b.Platform.{Platform}
use bacnet_profile_example_b.Codec.Tagged.{tagged, opened, closed}
use bacnet_profile_example_b.Codec.Tagged.Read.{read_tag-tagged, read_tag-opened, read_tag-closed}
use bacnet_profile_example_b.Codec.Scan.Steps.{WellNested, empty, primitive, group}
use bacnet_profile_example_b.Codec.Scan.Consumes.{
  Consumes, Consumes-nothing, Consumes-append, Consumes-tagged, Consumes-enclosed, Consumes-opening,
  Consumes-scan, nested_end-body,
}
use bacnet_profile_example_b.Codec.Encode.Minimal.{
  minimal, from_bytes-minimal, length-minimal_bounds,
}
use bacnet_profile_example_b.Codec.Encode.Writes.{
  IsIdentifier, identifier_octets, length-identifier_octets,
}
use bacnet_profile_example_b.Codec.Decode.Reading.{object_identifier-octets}
use bacnet_profile_example_b.Codec.Frame.{Frame, pdu_type, invoke_id, service}
use bacnet_profile_example_b.Services.Cov.{is_service}
use bacnet_profile_example_b.Alarm.{skip_constructed, read_date_time, read_time_stamp_choice}
use bacnet_profile_example_b.Alarm.Requests.{EventReport, event_notification}
use bacnet_profile_example_b.Alarm.Requests.Shape.{
  Packed, IsReport, TextFits, stamp_octets, flags_octets, text_octets, values_octets, in_alarm,
  is_ack, transition_of, report_octets, notification_octets, event_notification-eq,
}
use bacnet_profile_example_b.Alarm.Notification.{
  Event, empty_event, event_field, read_time_stamp, event_turn, event_of, EventNotification,
  event_notification_of, is_event_notification,
}

module _ (octets : Octets) where
  abbrev Reads : Octets → Event → Event → Type 0
  Reads = Consumes octets (event_turn octets)

  -- A number in a context tag.
  module _ (n v : ℕ) (e e' : Event) (small : n < 15) (fits : v < 2 ^ 32) where
    Reads-number : event_field e n (minimal v) ≡ ok e' → Reads (tagged n true (minimal v)) e e'
    unfolding event_turn
    Reads-number field =
        Consumes-tagged octets (event_turn octets) n true (minimal v) e e' small refl
          (omega (arith, length-minimal_bounds v)) (λ position. rw field)

  read_time_stamp-stamp :
      (date time rest : Octets) (position : ℕ)
      → length date ≡ 4
      → length time ≡ 4
      → drop position octets
        ≡ opened 2
          ++ ((tagged 10 false date ++ tagged 11 false time) ++ (closed 2 ++ (closed 3 ++ rest)))
      → (q : ℕ) × (read_time_stamp octets position ≡ ok (some (date, time), q))
        × (position < q)
        × (drop q octets ≡ rest)
  unfolding read_time_stamp read_time_stamp_choice read_date_time
  read_time_stamp-stamp date time rest position four four' at =
      let after_date = tagged 11 false time ++ (closed 2 ++ (closed 3 ++ rest)) in
      let (opens, inside) =
        read_tag-opened octets position 2 (tagged 10 false date ++ after_date) (omega arith) (
          at
          ∙ ap (λ t. opened 2 ++ t)
              (append_assoc (tagged 10 false date) (tagged 11 false time)
                (closed 2 ++ (closed 3 ++ rest)))) in
      let p = position + 1 in
      let (date_read, at_time) =
        read_tag-tagged octets p 10 false date after_date (omega arith) refl (omega arith) inside in
      let p' = p + length (tagged 10 false date) in
      let (time_read, at_close) =
        read_tag-tagged octets p' 11 false time (closed 2 ++ (closed 3 ++ rest)) (omega arith) refl
          (omega arith) at_time in
      let p'' = p' + length (tagged 11 false time) in
      let (closes, at_end) =
        read_tag-closed octets p'' 2 (closed 3 ++ rest) (omega arith) at_close in
      let (ends, behind) = read_tag-closed octets (p'' + 1) 3 rest (omega arith) at_end in
      (p'' + 1 + 1, rw (opens, date_read, time_read, closes, ends), omega arith, behind)

  Reads-stamp :
      (date time : Octets) (e : Event)
      → length date ≡ 4
      → length time ≡ 4
      → Reads (stamp_octets date time) e (record e { time_stamp = some (date, time) })
  unfolding event_turn
  Reads-stamp date time e four four' =
      Consumes-opening octets (event_turn octets) 3
        ((opened 2 ++ ((tagged 10 false date ++ tagged 11 false time) ++ closed 2)) ++ closed 3) _ _
        (omega arith)
        (λ position rest at.
          let (q, reads, later, behind) =
            read_time_stamp-stamp date time rest (position + 1) four four' (
              at
              ∙ ap (λ t. opened 2 ++ t)
                  (append_assoc ((tagged 10 false date ++ tagged 11 false time) ++ closed 2)
                      (closed 3) rest
                    ∙ append_assoc (tagged 10 false date ++ tagged 11 false time) (closed 2)
                        (closed 3 ++ rest))) in
          (q, rw reads refl, omega arith, behind))

  Reads-object :
      (n t i : ℕ) (e e' : Event)
      → n < 15
      → IsIdentifier t i
      → event_field e n (identifier_octets t i) ≡ ok e'
      → Reads (tagged n true (identifier_octets t i)) e e'
  unfolding event_turn
  Reads-object n t i e e' small h field =
      Consumes-tagged octets (event_turn octets) n true (identifier_octets t i) e e' small refl
        (omega (arith, length-identifier_octets t i)) (λ position. rw field)

  -- Anything in a constructed value of another number is passed over.
  Reads-skipped :
      (n : ℕ) (v : Octets) (e : Event)
      → n < 15
      → (n == 3) ≡ false
      → WellNested v
      → Reads (opened n ++ (v ++ closed n)) e e
  unfolding event_turn skip_constructed
  Reads-skipped n v e small other nested =
      Consumes-enclosed octets (event_turn octets) n v e e small nested
        (λ position after found. rw (other, nested_end-body octets v (position + 1) after found))

-- What is read from the octets of a report.
module _ {Text Real : Type 0} (r : EventReport Text Real) (p : Packed) where
  abbrev before_transition : Event
  before_transition = record empty_event {
    process_identifier = some r.process_identifier;
    initiating_device = some (8, r.initiating_device);
    event_object = some r.event_object;
    time_stamp = some (p.date, p.time);
    notification_class = some r.notification_class;
    priority = some r.priority;
    event_type = some 5;
    notify_type = some r.notify_type;
  }

  -- An acknowledgement has no ack-required and no from-state.
  abbrev transition_event : Bool → Event
  transition_event true = record before_transition { to_state = some r.to_state }
  transition_event false = record before_transition {
    ack_required = some r.ack_required;
    from_state = some r.from_state;
    to_state = some r.to_state;
  }

  abbrev pub reported : Event
  reported = transition_event (r.notify_type == 2)

module _ {Text Real : Type 0} (platform : Platform Text Real) (one : Real)
    (r : EventReport Text Real) (p : Packed) (h : IsReport platform one r p) where
  values-WellNested : WellNested ((opened 5 ++ (values_octets platform one r p ++ closed 5)))
  values-WellNested =
      let size = platform.pack_float-length _ _ h.exceeding_packed in
      let size' = platform.pack_float-length _ _ h.deadband_packed in
      let size'' = platform.pack_float-length _ _ h.limit_packed in
      group 5 (values_octets platform one r p) [] refl (omega arith)
        (primitive 0 true p.exceeding _ refl (omega arith) refl (omega arith) (
          primitive 1 true (flags_octets (in_alarm platform one r p)) _ refl (omega arith) refl
            (omega arith)
            (primitive 2 true p.deadband _ refl (omega arith) refl (omega arith) (
              primitive 3 true p.limit [] (sym (append-nil (tagged 3 true p.limit))) (omega arith)
                refl (omega arith) empty))))
        empty

  module _ (octets : Octets) where
    Reads-text :
        (o : Option Text) (e : Event)
        → TextFits platform.encode o
        → Reads octets (text_octets platform o) e e
    unfolding event_turn event_field
    Reads-text none e fits = Consumes-nothing octets (event_turn octets) e
    Reads-text (some t) e fits =
        Consumes-tagged octets (event_turn octets) 7 true (0 ∷ platform.encode t) e e (omega arith)
          refl (omega (arith, fits)) (λ position. refl)

    Reads-flag :
        (b : Bool) (e : Event)
        → Reads octets
            (tagged 9 true ((if b then 1 else 0) ∷ []))
            e
            (record e { ack_required = some b })
    unfolding event_turn event_field from_bytes
    Reads-flag b e =
        Consumes-tagged octets (event_turn octets) 9 true ((if b then 1 else 0) ∷ []) e _
          (omega arith) refl (omega arith) (λ position. ground (arith, Bool-cases b))

    Reads-transition :
        (b : Bool)
        → Reads octets
            (transition_of platform one r p b)
            (before_transition r p)
            (transition_event r p b)
    unfolding event_field
    Reads-transition true =
        Reads-number octets 11 r.to_state _ _ (omega arith) h.to_fits
          (rw (from_bytes-minimal r.to_state h.to_fits) refl)
    Reads-transition false =
        let chain = Consumes-append octets (event_turn octets) in
        chain (tagged 9 true ((if r.ack_required then 1 else 0) ∷ [])) _ _ _ _
          (Reads-flag r.ack_required (before_transition r p))
          (chain (tagged 10 true (minimal r.from_state)) _ _ _ _
            (Reads-number octets 10 r.from_state _
              (record (before_transition r p) {
                ack_required = some r.ack_required;
                from_state = some r.from_state;
              })
              (omega arith) h.from_fits (rw (from_bytes-minimal r.from_state h.from_fits) refl))
            (chain (tagged 11 true (minimal r.to_state)) _ _ _ _
              (Reads-number octets 11 r.to_state _ (transition_event r p false) (omega arith)
                h.to_fits (rw (from_bytes-minimal r.to_state h.to_fits) refl))
              (Reads-skipped octets 12 _ (transition_event r p false) (omega arith) refl
                values-WellNested)))

    -- The fields up to the time stamp, and those behind it.
    abbrev stamped : Event
    stamped = record empty_event {
      process_identifier = some r.process_identifier;
      initiating_device = some (8, r.initiating_device);
      event_object = some r.event_object;
      time_stamp = some (p.date, p.time);
    }

    Reads-stamped :
        (rest : Octets) (final : Event)
        → Reads octets rest stamped final
        → Reads octets
            (tagged 0 true (minimal r.process_identifier)
              ++ (tagged 1 true (identifier_octets 8 r.initiating_device)
                  ++ (tagged 2 true (identifier_octets r.event_object.0 r.event_object.1)
                      ++ (stamp_octets p.date p.time ++ rest))))
            empty_event
            final
    unfolding event_field
    Reads-stamped rest final next =
        let chain = Consumes-append octets (event_turn octets) in
        let e1 = record empty_event { process_identifier = some r.process_identifier } in
        let e2 = record e1 { initiating_device = some (8, r.initiating_device) } in
        let e3 = record e2 { event_object = some r.event_object } in
        chain (tagged 0 true (minimal r.process_identifier)) _ _ e1 _
          (Reads-number octets 0 r.process_identifier _ e1 (omega arith) h.process_fits
            (rw (from_bytes-minimal r.process_identifier h.process_fits) refl))
          (chain (tagged 1 true (identifier_octets 8 r.initiating_device)) _ _ e2 _
            (Reads-object octets 1 8 r.initiating_device _ e2 (omega arith) h.device_fits
              (rw (object_identifier-octets 8 r.initiating_device h.device_fits) refl))
            (chain (tagged 2 true (identifier_octets r.event_object.0 r.event_object.1)) _ _ e3 _
              (Reads-object octets 2 r.event_object.0 r.event_object.1 _ e3 (omega arith)
                h.object_fits
                (rw (object_identifier-octets r.event_object.0 r.event_object.1 h.object_fits)
                  refl))
              (chain (stamp_octets p.date p.time) rest _ stamped _
                (Reads-stamp octets p.date p.time e3 h.date_length h.time_length) next)))

    Reads-classed :
        Reads octets
          (tagged 4 true (minimal r.notification_class)
            ++ (tagged 5 true (minimal r.priority)
                ++ (tagged 6 true (minimal 5)
                    ++ (text_octets platform r.message_text
                        ++ (tagged 8 true (minimal r.notify_type)
                            ++ transition_of platform one r p (is_ack platform one r p))))))
          stamped
          (reported r p)
    unfolding event_field
    Reads-classed =
        let chain = Consumes-append octets (event_turn octets) in
        let e4 = record stamped { notification_class = some r.notification_class } in
        let e5 = record e4 { priority = some r.priority } in
        let e6 = record e5 { event_type = some 5 } in
        chain (tagged 4 true (minimal r.notification_class)) _ _ e4 _
          (Reads-number octets 4 r.notification_class _ e4 (omega arith) h.class_fits
            (rw (from_bytes-minimal r.notification_class h.class_fits) refl))
          (chain (tagged 5 true (minimal r.priority)) _ _ e5 _
            (Reads-number octets 5 r.priority _ e5 (omega arith) h.priority_fits
              (rw (from_bytes-minimal r.priority h.priority_fits) refl))
            (chain (tagged 6 true (minimal 5)) _ _ e6 _
              (Reads-number octets 6 5 _ e6 (omega arith) (omega arith)
                (rw (from_bytes-minimal 5 (omega arith)) refl))
              (chain (text_octets platform r.message_text) _ _ e6 _
                (Reads-text r.message_text e6 h.text_fits)
                (chain (tagged 8 true (minimal r.notify_type)) _ _ (before_transition r p) _
                  (Reads-number octets 8 r.notify_type _ (before_transition r p) (omega arith)
                    h.notify_fits (rw (from_bytes-minimal r.notify_type h.notify_fits) refl))
                  (Reads-transition (is_ack platform one r p))))))

  event_of-report : event_of (report_octets platform one r p) ≡ ok (reported r p)
  unfolding event_of
  event_of-report =
      let octets = report_octets platform one r p in
      Consumes-scan octets (event_turn octets) octets 0 empty_event (reported r p)
        (Reads-stamped octets _ (reported r p) (Reads-classed octets)) refl

  -- What `EventNotification` makes of the notification.
  abbrev pub notified : Bool → EventNotification
  notified true = record { confirmed = true; invoke_id = some r.invoke_id; event = reported r p }
  notified false = record { confirmed = false; invoke_id = none; event = reported r p }

  module _ (frame : Frame) (no_message : frame.network_message ≡ none) where
    abbrev pub carrying : Octets → Frame
    carrying octets = record frame { payload = octets }

    abbrev apdu : Bool → Octets
    apdu = notification_octets platform one r p

    pub pdu_type-carrying :
        (confirmed : Bool)
        → pdu_type (carrying (apdu confirmed)) ≡ some (if confirmed then 0 else 1)
    unfolding pdu_type
    pdu_type-carrying true = rw no_message refl
    pdu_type-carrying false = rw no_message refl

    pub invoke_id-carrying : invoke_id (carrying (apdu true)) ≡ ok (some r.invoke_id)
    unfolding invoke_id index
    invoke_id-carrying = rw (invoke_id, pdu_type-carrying true) (ground arith)

    pub is_event_notification-carrying :
        (confirmed : Bool) → is_event_notification (carrying (apdu confirmed)) ≡ ok true
    unfolding is_event_notification is_service service index pdu_type
    is_event_notification-carrying true = rw (no_message, service) (ground arith)
    is_event_notification-carrying false = rw no_message (ground arith)

    pub event_notification_of-carrying :
        (confirmed : Bool)
        → event_notification_of (carrying (apdu confirmed)) ≡ ok (notified confirmed)
    unfolding event_notification_of
    event_notification_of-carrying true =
        rw (event_notification_of, pdu_type-carrying true, invoke_id-carrying, event_of-report) refl
    event_notification_of-carrying false =
        rw (event_notification_of, pdu_type-carrying false, event_of-report) refl

    -- An encoded event notification whose parameters fit their fields is recognised as one, and what is read
    -- from it are those parameters, the invoke id only of a confirmed one and, of an acknowledgement, neither
    -- ack-required nor from-state.
    pub event_notification_of-event_notification :
        (octets : Octets) × (event_notification platform one r ≡ ok octets)
        × (is_event_notification (carrying octets) ≡ ok true)
        × (event_notification_of (carrying octets) ≡ ok (notified r.confirmed))
    event_notification_of-event_notification = (
      apdu r.confirmed,
      event_notification-eq platform one r p h,
      is_event_notification-carrying r.confirmed,
      event_notification_of-carrying r.confirmed,
    )
