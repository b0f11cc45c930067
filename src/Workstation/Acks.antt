-- ===== src/Workstation/Acks.antt =====
-- An event notification from its encoding (alarm.py) over its datagram (codec.py) to the workstation.
use bacnet_profile_example_b.Base.{
  ℕ, ◌<◌, Bool, true, false, ◌&&◌, Option, none, some, [], ◌∷◌, ◌++◌, ◌≡◌, refl, arith, length,
  if◌then◌else◌, Bool-cases, inl, inr,
}
use bacnet_profile_example_b.Python.{Octets, ok, ◌>>=◌}
use bacnet_profile_example_b.Platform.{Platform}
use bacnet_profile_example_b.Codec.Bvll.{local, npdu_control, npdu, bvlc}
use bacnet_profile_example_b.Codec.Requests.{simple_ack}
use bacnet_profile_example_b.Codec.Requests.Shape.{bytes-three}
use bacnet_profile_example_b.Codec.Frame.{Frame, Source}
use bacnet_profile_example_b.Codec.Frame.Npdu.{IsRouting, npdu-eq, routed}
use bacnet_profile_example_b.Codec.Frame.RoundTrip.{
  received, bvll_octets, bvll-eq, npdu_octets, decode-bvlc,
}
use bacnet_profile_example_b.Peer.{required, own_invoke_id}
use bacnet_profile_example_b.Alarm.Requests.{EventReport, event_notification}
use bacnet_profile_example_b.Alarm.Requests.Shape.{
  Packed, IsReport, notification_octets, event_notification-eq,
}
use bacnet_profile_example_b.Alarm.Notification.{
  EventNotification, event_notification_of, is_event_notification,
}
use bacnet_profile_example_b.Alarm.Notification.RoundTrip.{
  notified, carrying, invoke_id-carrying, is_event_notification-carrying,
  event_notification_of-carrying,
}
use bacnet_profile_example_b.Workstation.{Workstation, acknowledgement, handle, serve}

-- The datagram of a SimpleACK of a ConfirmedEventNotification.
abbrev pub ack_datagram : ℕ → Octets
ack_datagram n = bvll_octets 0x0a (1 ∷ 0 ∷ 0x20 ∷ n ∷ 2 ∷ [])

abbrev local-IsRouting :
    (expecting : Bool) → IsRouting (record local { expecting_reply = expecting })
local-IsRouting expecting = record {
  destination_fits = tt;
  source_fits = tt;
  message_fits = tt;
  hop_count_fits = omega arith;
}

handle-event :
    (w : Workstation) (frame : Frame) (notification : EventNotification) (datagram : Option Octets)
    → frame.accepted ≡ true
    → frame.network_message ≡ none
    → is_event_notification frame ≡ ok true
    → event_notification_of frame ≡ ok notification
    → acknowledgement w frame notification ≡ ok datagram
    → handle w frame
      ≡ ok (record w { notifications = w.notifications ++ notification ∷ [] }, datagram)
unfolding handle
handle-event w frame notification datagram accepted no_message is_event of_event acknowledges =
    rw (handle, is_event, of_event, acknowledges, accepted, no_message) refl

module _ {Text Real : Type 0} (platform : Platform Text Real) (one : Real)
    (r : EventReport Text Real) (p : Packed) (h : IsReport platform one r p) (w : Workstation) where
  -- The acknowledgement that goes back.
  abbrev pub answered : Option Octets
  answered = if r.confirmed && w.answer_notifications then some (ack_datagram r.invoke_id) else none

  module _ (frame : Frame) (accepted : frame.accepted ≡ true)
      (no_message : frame.network_message ≡ none) where
    acknowledgement-carrying :
        (confirmed : Bool)
        → acknowledgement w
            (carrying platform one r p h frame no_message
              (notification_octets platform one r p confirmed))
            (notified platform one r p h confirmed)
          ≡ ok (
              if confirmed && w.answer_notifications then some (ack_datagram r.invoke_id) else none)
    unfolding acknowledgement own_invoke_id required simple_ack bvlc npdu_control
    acknowledgement-carrying false = refl
    acknowledgement-carrying true = elim (Bool-cases w.answer_notifications) [
      | inl answers ↦
          rw (answers, invoke_id-carrying platform one r p h frame no_message)
            (rw
              (
                bytes-three 0x20 r.invoke_id 2 (omega arith) h.invoke_fits (omega arith),
                npdu-eq local (local-IsRouting false) (0x20 ∷ r.invoke_id ∷ 2 ∷ []),
                bvll-eq 0x0a (1 ∷ 0 ∷ 0x20 ∷ r.invoke_id ∷ 2 ∷ []) (omega arith) (omega arith),
              )
              refl)
      | inr silent ↦ rw silent refl
    ]

    abbrev pub received_notification : Bool → Workstation
    received_notification confirmed = record w {
      notifications = w.notifications ++ notified platform one r p h confirmed ∷ [];
    }

    handle-carrying :
        (confirmed : Bool)
        → handle w (
            carrying platform one r p h frame no_message
              (notification_octets platform one r p confirmed))
          ≡ ok (
            received_notification confirmed,
            if confirmed && w.answer_notifications then some (ack_datagram r.invoke_id) else none,
          )
    unfolding handle
    handle-carrying confirmed =
        handle-event w
          (carrying platform one r p h frame no_message
            (notification_octets platform one r p confirmed))
          (notified platform one r p h confirmed) _ accepted no_message
          (is_event_notification-carrying platform one r p h frame no_message confirmed)
          (event_notification_of-carrying platform one r p h frame no_message confirmed)
          (acknowledgement-carrying confirmed)

  -- An encoded event notification whose parameters fit their fields, in a datagram of fewer than 65536
  -- octets, is kept by the workstation as the last of its notifications, with those parameters; a confirmed
  -- one is answered with the SimpleACK of its invoke id, unless the workstation answers none.
  pub serve-event_notification :
      (source : Source)
      → length (notification_octets platform one r p r.confirmed) < 65530
      → (event_notification platform one r >>= λ apdu.
          npdu apdu (record local { expecting_reply = r.confirmed }) >>= λ octets.
          bvlc octets false >>= λ datagram. serve datagram source w)
        ≡ ok (
          record w {
            notifications = w.notifications ++ notified platform one r p h r.confirmed ∷ [];
          },
          answered,
        )
  unfolding serve bvlc
  serve-event_notification source small =
      let routing = record local { expecting_reply = r.confirmed } in
      let fits = local-IsRouting r.confirmed in
      let apdu = notification_octets platform one r p r.confirmed in
      let octets = npdu_octets routing fits apdu source in
      let sent = npdu-eq routing fits apdu in
      let wrapped = bvll-eq 0x0a octets (omega arith) (omega (arith, small)) in
      let decoded =
        rw (sent, wrapped) at (decode-bvlc routing fits apdu source false (omega (arith, small))) in
      rw (event_notification-eq platform one r p h, sent, wrapped, decoded)
        (handle-carrying
          (routed (received (bvll_octets 0x0a octets) source 0x0a octets) routing apdu) refl refl
          r.confirmed)
