-- ===== src/Examples.antt =====
-- The theorems on the codec at concrete octets.
pub mod Servers
pub mod Clients
pub mod Services
pub mod Alarms
use bacnet_profile_example_b.Base.{
  ℕ, ◌+◌, ◌*◌, ◌/◌, ◌%◌, ◌≤◌, ◌<◌, ◌^◌, Bool, true, false, Option, none, some, List, [], ◌∷◌, ◌++◌,
  ◌≡◌, refl, arith, length, drop, All,
}
use bacnet_profile_example_b.Python.{Octets, IsByte, Result, ok, ◌>>=◌, from_bytes}
use bacnet_profile_example_b.Python.Ends.{Ends}
use bacnet_profile_example_b.Codec.Encode.{unsigned_octets}
use bacnet_profile_example_b.Codec.Encode.Minimal.{unsigned_octets-shortest}
use bacnet_profile_example_b.Codec.Tag.{Tag, value, read_tag}
use bacnet_profile_example_b.Codec.Tagged.{tagged, opened, closed, boolean_tag}
use bacnet_profile_example_b.Codec.Tagged.Read.{read_tag-Encoded}
use bacnet_profile_example_b.Codec.Scan.{nested_body}
use bacnet_profile_example_b.Codec.Scan.Steps.{
  WellNested, empty, element, primitive, nested_body-WellNested,
}
use bacnet_profile_example_b.Codec.Bvll.{Routing, local, npdu, bvll, bvlc, forwarded_npdu}
use bacnet_profile_example_b.Codec.Requests.{
  read_property_request, write_property_request, read_property_ack, error_pdu, i_am,
}
use bacnet_profile_example_b.Codec.Requests.Shape.{IsReference}
use bacnet_profile_example_b.Codec.Decode.{
  read_request, write_request, parse_read_property_request, parse_write_property_request,
  read_property_value, error_class_and_code, i_am_device_instance, application_values,
  context_values, application_elements, read_access_specifications,
}
use bacnet_profile_example_b.Codec.Decode.RoundTrip.{
  parse-read_property_request, parse-write_property_request,
}
use bacnet_profile_example_b.Codec.Decode.Answers.{
  read_property_value-ack, error_class_and_code-error_pdu, i_am_device_instance-i_am,
}
use bacnet_profile_example_b.Codec.Decode.Lists.{written, of_class, values-written}
use bacnet_profile_example_b.Codec.Decode.Totality.{
  Total, OnlyValueError, parse_read_property_request-Ends, parse_write_property_request-Ends,
  read_property_value-Total, read_access_specifications-Total, application_elements-Total,
}
use bacnet_profile_example_b.Codec.Frame.{Source, carries_npdu, decode}
use bacnet_profile_example_b.Codec.Frame.Npdu.{IsRouting, routed}
use bacnet_profile_example_b.Codec.Frame.RoundTrip.{
  received, bvll_octets, npdu_octets, decode-bvlc, decode-forwarded_npdu,
}

abbrev pub peer : Source
peer = ("10.0.0.5", 47808)

abbrev analog_input-IsReference : IsReference 7 0 3 85
analog_input-IsReference = record {
  invoke_fits = omega arith;
  object_fits = omega arith;
  property_fits = omega arith;
}

-- A BOOLEAN, true, and a REAL, 100.0, as they stand in a request.
abbrev flag_and_real : Octets
flag_and_real = 0x11 ∷ 0x44 ∷ 0x42 ∷ 0xc8 ∷ 0 ∷ 0 ∷ []

flag_and_real-WellNested : WellNested flag_and_real
unfolding tagged
flag_and_real-WellNested =
    element (0x44 ∷ 0x42 ∷ 0xc8 ∷ 0 ∷ 0 ∷ []) (boolean_tag 1 (omega arith)) refl
      (primitive 4 false (0x42 ∷ 0xc8 ∷ 0 ∷ 0 ∷ []) [] refl (omega arith) refl (omega arith) empty)

parse-read_property_request_example :
    (read_property_request 7 0 3 85 (some 2) >>= λ apdu. parse_read_property_request apdu true)
    ≡ ok (some (read_request (0, 3) 85 (some 2)))
parse-read_property_request_example =
    parse-read_property_request 7 0 3 85 analog_input-IsReference (some 2) true (omega arith)

parse-write_property_request_example :
    (write_property_request 7 0 3 85 flag_and_real (some 8) none >>= λ apdu.
    parse_write_property_request apdu)
    ≡ ok (some (write_request (0, 3) 85 none flag_and_real (some 8)))
parse-write_property_request_example =
    parse-write_property_request 7 0 3 85 analog_input-IsReference flag_and_real (some 8) none
      flag_and_real-WellNested (omega arith) tt

read_property_value-ack_example :
    (read_property_ack 7 0 3 85 flag_and_real >>= λ apdu. read_property_value apdu)
    ≡ ok (some flag_and_real)
read_property_value-ack_example =
    read_property_value-ack 7 0 3 85 analog_input-IsReference flag_and_real flag_and_real-WellNested

error_class_and_code-error_pdu_example :
    (error_pdu 7 12 2 32 >>= λ apdu. error_class_and_code apdu) ≡ ok (some (2, 32))
error_class_and_code-error_pdu_example =
    error_class_and_code-error_pdu 7 12 2 32 (omega arith) (omega arith) (omega arith) (omega arith)

i_am_device_instance-i_am_example :
    (i_am 389001 389 1476 3 >>= λ apdu. i_am_device_instance apdu) ≡ ok (some 389001)
i_am_device_instance-i_am_example =
    i_am_device_instance-i_am 389001 389 1476 3 (omega arith) (omega arith) (omega arith)
      (omega arith)

abbrev two_primitives : List (Bool × ℕ × Octets)
two_primitives = (false, 2, 9 ∷ []) ∷ (true, 1, 5 ∷ 6 ∷ []) ∷ []

values-written_example :
    (application_values (written two_primitives) ≡ ok ((2, 9 ∷ []) ∷ []))
    × (context_values (written two_primitives) ≡ ok ((1, 5 ∷ 6 ∷ []) ∷ []))
values-written_example =
    values-written two_primitives
      ((omega arith, refl, omega arith), ((omega arith, refl, omega arith), tt))

-- A BOOLEAN with two octets of something else behind it.
abbrev tagged_true : Octets
tagged_true = 0x11 ∷ 9 ∷ 7 ∷ []

read_tag-Encoded_example :
    (read_tag tagged_true 0
      ≡ ok (record { number = 1; is_context = false; kind = value; body = 1 ∷ []; next = 0 + 1 }))
    × (drop (0 + 1) tagged_true ≡ 9 ∷ 7 ∷ [])
read_tag-Encoded_example =
    read_tag-Encoded tagged_true 0 (9 ∷ 7 ∷ []) (boolean_tag 1 (omega arith)) refl

nested_body-WellNested_example :
    (nested_body (flag_and_real ++ (closed 3 ++ 0x49 ∷ 8 ∷ [])) 0 ≡ ok (flag_and_real, 7))
    × (drop 7 (flag_and_real ++ (closed 3 ++ 0x49 ∷ 8 ∷ [])) ≡ 0x49 ∷ 8 ∷ [])
nested_body-WellNested_example =
    nested_body-WellNested (flag_and_real ++ (closed 3 ++ 0x49 ∷ 8 ∷ [])) flag_and_real
      (0x49 ∷ 8 ∷ []) 3 0 flag_and_real-WellNested (omega arith) refl

unsigned_octets-shortest_example :
    (encoded : Octets) × (unsigned_octets 300 ≡ ok encoded)
    × All IsByte encoded
    × (from_bytes encoded ≡ 300)
    × ((octets : Octets)
        → All IsByte octets
        → 1 ≤ length octets
        → from_bytes octets ≡ 300
        → length encoded ≤ length octets)
unsigned_octets-shortest_example = unsigned_octets-shortest 300 (omega arith)

parse_read_property_request-Ends_example :
    Ends
      (λ _. Unit {0})
      OnlyValueError
      (parse_read_property_request (0 ∷ 5 ∷ 7 ∷ 12 ∷ 0x15 ∷ []) true)
parse_read_property_request-Ends_example =
    parse_read_property_request-Ends (0 ∷ 5 ∷ 7 ∷ 12 ∷ 0x15 ∷ []) true

parse_write_property_request-Ends_example :
    Ends (λ _. Unit {0}) OnlyValueError (parse_write_property_request (0 ∷ 5 ∷ 7 ∷ 15 ∷ 0x15 ∷ []))
parse_write_property_request-Ends_example =
    parse_write_property_request-Ends (0 ∷ 5 ∷ 7 ∷ 15 ∷ 0x15 ∷ [])

read_property_value-Total_example : Total (read_property_value (0x30 ∷ 7 ∷ 12 ∷ 0x3e ∷ []))
read_property_value-Total_example = read_property_value-Total (0x30 ∷ 7 ∷ 12 ∷ 0x3e ∷ [])

read_access_specifications-Total_example :
    Total (read_access_specifications (0x1e ∷ 0x09 ∷ 85 ∷ []))
read_access_specifications-Total_example = read_access_specifications-Total (0x1e ∷ 0x09 ∷ 85 ∷ [])

application_elements-Total_example : Total (application_elements (0x91 ∷ []))
application_elements-Total_example = application_elements-Total (0x91 ∷ [])

-- A confirmed request that a router passes on from network 5 to network 2.
abbrev relayed : Routing
relayed = record local {
  dnet = some 2;
  dadr = 9 ∷ [];
  snet = some 5;
  sadr = 1 ∷ 2 ∷ [];
  expecting_reply = true;
  hop_count = 254;
}

relayed-IsRouting : IsRouting relayed
relayed-IsRouting = record {
  destination_fits = (omega arith, omega arith);
  source_fits = (omega arith, omega arith);
  message_fits = tt;
  hop_count_fits = omega arith;
}

abbrev apdu : Octets
apdu = 0x10 ∷ 8 ∷ []

decode-bvlc_example :
    (npdu apdu relayed >>= λ octets. bvlc octets true >>= λ datagram. decode datagram peer) ≡ (
      let octets = npdu_octets relayed relayed-IsRouting apdu peer in
      ok (routed (received (bvll_octets 0x0b octets) peer 0x0b octets) relayed apdu))
decode-bvlc_example = decode-bvlc relayed relayed-IsRouting apdu peer true (omega arith)

abbrev originator : Octets
originator = 10 ∷ 0 ∷ 0 ∷ 7 ∷ 0xba ∷ 0xc0 ∷ []

decode-forwarded_npdu_example :
    (npdu apdu relayed >>= λ octets.
    forwarded_npdu originator octets >>= λ datagram. decode datagram peer)
    ≡ (let body = originator ++ npdu_octets relayed relayed-IsRouting apdu peer in
        ok (
          routed
            (record (received (bvll_octets 0x04 body) peer 0x04 body) {
              originating_mac = originator;
            })
            relayed
            apdu))
decode-forwarded_npdu_example =
    decode-forwarded_npdu relayed relayed-IsRouting apdu peer originator refl (omega arith)
