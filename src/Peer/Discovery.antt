-- ===== src/Peer/Discovery.antt =====
-- wiretest/codec.py and wiretest/peer.py together: a Who-Is on the wire, and the I-Am that comes back.
use bacnet_profile_example_b.Base.{
  ℕ, ◌≤◌, ◌<◌, ◌^◌, true, false, ◌&&◌, Option, none, some, [], ◌∷◌, ◌++◌, ◌≡◌, refl, sym, ap, ◌∙◌,
  arith, length, length-append, leb, if◌then◌else◌,
}
use bacnet_profile_example_b.Python.{Octets, Result, ok, ◌>>=◌, index}
use bacnet_profile_example_b.Codec.Encode.Minimal.{minimal, length-minimal_bounds}
use bacnet_profile_example_b.Codec.Encode.Writes.{
  identifier_octets, length-identifier_octets, tagged-short,
}
use bacnet_profile_example_b.Codec.Tagged.{tagged}
use bacnet_profile_example_b.Codec.Requests.{who_is, i_am}
use bacnet_profile_example_b.Codec.Requests.Shape.{who_is-eq, i_am-eq}
use bacnet_profile_example_b.Codec.Bvll.{local, npdu, bvlc}
use bacnet_profile_example_b.Codec.Decode.{i_am_device_instance}
use bacnet_profile_example_b.Codec.Decode.Answers.{i_am_device_instance-i_am}
use bacnet_profile_example_b.Codec.Frame.{Frame, Source, decode, pdu_type, service}
use bacnet_profile_example_b.Codec.Frame.Npdu.{routed, npdu-eq}
use bacnet_profile_example_b.Codec.Frame.RoundTrip.{
  received, bvll_octets, bvll-eq, npdu_octets, decode-bvlc,
}
use bacnet_profile_example_b.Platform.{Platform}
use bacnet_profile_example_b.Peer.{
  Identity, Traffic, answer, answer_who_is, reply, record_frame, receive, is_request, sent_datagram,
  reply_datagram, is_answerable,
}
use bacnet_profile_example_b.Peer.Replies.{
  limit_octets, answer_who_is-who_is, back_to-IsRouting, back_to-small, bind_assoc,
}

-- The frame that is heard when `sent_datagram` sends an APDU.
abbrev pub wire : Octets → Source → Octets
wire apdu source = bvll_octets 0x0a (npdu_octets local (back_to-IsRouting none [] tt) apdu source)

abbrev pub heard : Octets → Source → Frame
heard apdu source =
    let octets = npdu_octets local (back_to-IsRouting none [] tt) apdu source in
    routed (received (bvll_octets 0x0a octets) source 0x0a octets) local apdu

sent_datagram-eq :
    (apdu : Octets) (source : Source)
    → length apdu < 65000
    → sent_datagram apdu ≡ ok (wire apdu source)
unfolding sent_datagram bvlc
sent_datagram-eq apdu source small =
    let fits = back_to-IsRouting none [] tt in
    rw (npdu-eq local fits apdu) (
      bvll-eq 0x0a (npdu_octets local fits apdu source) (omega arith)
        (back_to-small none [] apdu source tt small))

decode-wire :
    (apdu : Octets) (source : Source)
    → length apdu < 65000
    → decode (wire apdu source) source ≡ ok (heard apdu source)
unfolding sent_datagram
decode-wire apdu source small =
    sym (ap (λ r. r >>= λ datagram. decode datagram source) (sent_datagram-eq apdu source small))
    ∙ (bind_assoc (npdu apdu local) (λ octets. bvlc octets false)
          (λ datagram. decode datagram source)
        ∙ decode-bvlc local (back_to-IsRouting none [] tt) apdu source false
            (back_to-small none [] apdu source tt small))

-- Sizes of the two APDUs.
length-who_is : (low high : ℕ) → length (0x10 ∷ 8 ∷ limit_octets low high) < 65000
length-who_is low high =
    let small = length-minimal_bounds low in
    let small' = length-minimal_bounds high in
    omega (
      arith,
      ap length (tagged-short 0 true (minimal low) (omega arith)),
      ap length (tagged-short 1 true (minimal high) (omega arith)),
      length-append (tagged 0 true (minimal low)) (tagged 1 true (minimal high)),
    )

abbrev i_am_octets : ℕ → ℕ → Octets
i_am_octets device vendor =
    0x10
    ∷ 0
    ∷ (tagged 12 false (identifier_octets 8 device)
        ++ (tagged 2 false (minimal 1476)
            ++ (tagged 9 false (minimal 3) ++ tagged 2 false (minimal vendor))))

length-i_am_octets : (device vendor : ℕ) → length (i_am_octets device vendor) < 65000
length-i_am_octets device vendor =
    let size = length-identifier_octets 8 device in
    let a = tagged 12 false (identifier_octets 8 device) in
    let b = tagged 2 false (minimal 1476) in
    let c = tagged 9 false (minimal 3) in
    let d = tagged 2 false (minimal vendor) in
    let small = length-minimal_bounds 1476 in
    let small' = length-minimal_bounds 3 in
    let small'' = length-minimal_bounds vendor in
    omega (
      arith,
      ap length (tagged-short 12 false (identifier_octets 8 device) (omega arith)),
      ap length (tagged-short 2 false (minimal 1476) (omega arith)),
      ap length (tagged-short 9 false (minimal 3) (omega arith)),
      ap length (tagged-short 2 false (minimal vendor) (omega arith)),
      length-append a (b ++ (c ++ d)),
      length-append b (c ++ d),
      length-append c d,
    )

module _ {Text Real : Type 0} (platform : Platform Text Real) (device : Identity Text) where
  -- The device without objects: it has no state of its own.
  abbrev pub simulated : Frame → Unit {0} → Result (Option Octets × Unit {0})
  simulated frame s = do apdu ← answer platform device frame; ok (apdu, s)

  service-heard :
      (rest : Octets) (source : Source) → service (heard (0x10 ∷ 8 ∷ rest) source) ≡ ok (some 8)
  unfolding service pdu_type index
  service-heard rest source = ground arith

  answer-heard :
      (rest : Octets) (source : Source)
      → answer platform device (heard (0x10 ∷ 8 ∷ rest) source)
        ≡ answer_who_is platform device (heard (0x10 ∷ 8 ∷ rest) source)
  unfolding answer is_request pdu_type
  answer-heard rest source = rw (service-heard rest source) refl

  module _ (low high : ℕ) (h : low < 2 ^ 32) (k : high < 2 ^ 32) (source : Source)
      (traffic : Traffic) where
    abbrev asked : Octets
    asked = 0x10 ∷ 8 ∷ limit_octets low high

    abbrev asking : Frame
    asking = heard asked source

    answer-asking : answer platform device asking ≡ (
        if leb low device.device_instance && leb device.device_instance high
        then (i_am device.device_instance device.vendor_identifier 1476 3 >>= λ apdu.
            ok (some apdu))
        else ok none)
    answer-asking =
        answer-heard (limit_octets low high) source
        ∙ answer_who_is-who_is platform device asking low high h k (who_is-eq low high h k)

    -- A device whose instance is outside the limits of a Who-Is keeps the frame and sends nothing.
    pub who_is-unanswered :
        (leb low device.device_instance && leb device.device_instance high) ≡ false
        → (who_is (some (low, high)) >>= λ apdu. sent_datagram apdu >>= λ datagram.
            receive simulated datagram source false (tt, traffic))
          ≡ ok (tt, record_frame asking false traffic)
    unfolding receive is_answerable reply
    who_is-unanswered outside =
        let small = length-who_is low high in
        rw
          (
            who_is-eq low high h k,
            sent_datagram-eq asked source small,
            decode-wire asked source small,
            answer-asking,
            outside,
          )
          refl

    -- A Who-Is on the wire, whose limits hold the device's instance, is answered with one datagram to the
    -- one who asked, from which the instance of the device is read.
    pub who_is-answered :
        (peer : Source)
        → low ≤ device.device_instance
        → device.device_instance ≤ high
        → device.device_instance < 4194304
        → device.vendor_identifier < 2 ^ 32
        → (datagram : Octets) × ((who_is (some (low, high)) >>= λ apdu.
              sent_datagram apdu >>= λ request.
              receive simulated request source false (tt, traffic))
            ≡ ok (
              tt,
              record (record_frame asking false traffic) {
                sent = traffic.sent ++ (datagram, source) ∷ [];
              },
            ))
          × ((decode datagram peer >>= λ frame. i_am_device_instance frame.payload)
              ≡ ok (some device.device_instance))
    unfolding receive is_answerable reply sent_datagram reply_datagram record_frame
    who_is-answered peer above below fits vendor =
        let d = device.device_instance in
        let small = length-who_is low high in
        let said = i_am_octets d device.vendor_identifier in
        let i_am_said =
          i_am-eq d device.vendor_identifier 1476 3 fits vendor (omega arith) (omega arith) in
        let inside : (leb low d && leb d high) ≡ true = ground arith in
        let size = length-i_am_octets d device.vendor_identifier in
        let replied : reply_datagram asking said ≡ ok (wire said peer) =
          sent_datagram-eq said peer size in
        let read : i_am_device_instance said ≡ ok (some d) =
          sym (ap (λ r. r >>= λ apdu. i_am_device_instance apdu) i_am_said)
          ∙ i_am_device_instance-i_am d device.vendor_identifier 1476 3 fits vendor (omega arith)
              (omega arith) in
        (
          wire said peer,
          rw
              (
                who_is-eq low high h k,
                sent_datagram-eq asked source small,
                decode-wire asked source small,
                answer-asking,
                inside,
                i_am_said,
                replied,
              )
              refl,
          rw (decode-wire said peer size) read,
        )
