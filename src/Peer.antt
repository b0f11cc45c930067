-- ===== src/Peer.antt =====
-- wiretest/peer.py, `SimulatedDevice`: a simulated BACnet/IP device. One datagram is handled by
-- `receive`; the sockets, the thread and its lock are not modelled.
pub mod Server
pub mod Replies
pub mod Discovery
use bacnet_profile_example_b.Base.{
  ℕ, zero, suc, ◌+◌, Bool, true, false, not, ◌&&◌, ◌||◌, Option, none, some, List, [], ◌∷◌, ◌++◌,
  length, drop, leb, ◌==◌, if◌then◌else◌,
}
use bacnet_profile_example_b.Python.{Octets, Result, ok, raised, type_error, ◌>>=◌, from_bytes}
use bacnet_profile_example_b.Platform.{Platform}
use bacnet_profile_example_b.Codec.Constants.{
  pdu_confirmed_request, pdu_unconfirmed_request, pdu_simple_ack, service_read_property,
  service_who_is, object_type_device, max_instance, property_object_name,
  property_object_identifier, error_class_object, error_class_property, error_code_unknown_object,
  error_code_unknown_property,
}
use bacnet_profile_example_b.Codec.Bvll.{Routing, local, npdu, bvlc}
use bacnet_profile_example_b.Codec.Encode.{application_object_id}
use bacnet_profile_example_b.Codec.Requests.{error_pdu, read_property_ack, i_am}
use bacnet_profile_example_b.Codec.Tag.{Tag, value}
use bacnet_profile_example_b.Codec.Scan.{Turn, go_on, scan}
use bacnet_profile_example_b.Codec.Decode.{ReadRequest, is_kind, parse_read_property_request}
use bacnet_profile_example_b.Codec.Frame.{
  Frame, Source, is_type, pdu_type, invoke_id, service, decode,
}
use bacnet_profile_example_b.Codec.Values.{application_character_string}

-- The attributes that identify the device.
pub record Identity (Text : Type 0) : Type 0 where
  pub device_instance : ℕ
  pub object_name : Text
  pub vendor_identifier : ℕ

-- What the device has received, and the datagrams that it has sent.
pub record Traffic : Type 0 where
  pub received : List Frame
  pub received_on_broadcast : List Frame
  pub sent : List (Octets × Source)

abbrev pub no_traffic : Traffic
no_traffic = record { received = []; received_on_broadcast = []; sent = [] }

-- `None` where an octet is needed is a TypeError.
unfoldable pub required {ℓ} : {A : Type ℓ} → Option A → Result A
required none = raised type_error
required (some a) = ok a

unfoldable pub own_invoke_id : Frame → Result ℕ
unfolding required
own_invoke_id frame = do n ← invoke_id frame; required n

-- Whether the frame is a request of the given PDU type for the given service.
unfoldable pub is_request : ℕ → ℕ → Frame → Result Bool
is_request type choice frame =
    if is_type (pdu_type frame) type
    then (do s ← service frame; ok (is_type s choice))
    else ok false

-- The limits of a Who-Is: the values in its parameters.
unfoldable pub limit_turn : List ℕ → Tag → Result (Turn (List ℕ))
limit_turn limits tag =
    ok (
      go_on tag.next
        (if is_kind tag.kind value then limits ++ from_bytes tag.body ∷ [] else limits))

unfoldable pub limits_of : Octets → Result (List ℕ)
unfolding limit_turn
limits_of octets = scan octets limit_turn 0 []

-- `not (len(limits) == 2 and not limits[0] <= instance <= limits[1])`
unfoldable pub within : List ℕ → ℕ → Bool
within (low ∷ high ∷ []) instance = leb low instance && leb instance high
within _ instance = true

module _ {Text Real : Type 0} (platform : Platform Text Real) (device : Identity Text) where
  unfoldable pub answer_who_is : Frame → Result (Option Octets)
  unfolding limits_of within
  answer_who_is frame = do
    limits ← limits_of (drop 2 frame.payload)
    if within limits device.device_instance
        then (do apdu ← i_am device.device_instance device.vendor_identifier 1476 3; ok (some apdu))
        else ok none

  -- The value of a property of the Device object, or None.
  unfoldable pub device_value : ℕ → Result (Option Octets)
  device_value property =
      if property == property_object_name
      then (do v ← application_character_string platform device.object_name; ok (some v))
      else if property == property_object_identifier
      then (do v ← application_object_id object_type_device device.device_instance; ok (some v))
      else ok none

  unfoldable pub value_answer : ℕ → ℕ → Option Octets → Result (Option Octets)
  value_answer n property none = do
    apdu ← error_pdu n service_read_property error_class_property error_code_unknown_property
    ok (some apdu)
  value_answer n property (some v) = do
    apdu ← read_property_ack n object_type_device device.device_instance property v
    ok (some apdu)

  unfoldable pub is_own_device : ReadRequest → Bool
  is_own_device request =
      request.object_type == object_type_device
      && (request.object_instance == device.device_instance
          || request.object_instance == max_instance)

  unfoldable pub answer_request : Frame → Option ReadRequest → Result (Option Octets)
  unfolding device_value value_answer is_own_device
  answer_request frame none = ok none
  answer_request frame (some request) = do
    n ← own_invoke_id frame
    if not (is_own_device request)
        then (do
          apdu ← error_pdu n service_read_property error_class_object error_code_unknown_object
          ok (some apdu))
        else (do
          v ← device_value request.property_identifier
          value_answer n request.property_identifier v)

  unfoldable pub answer_read_property : Frame → Result (Option Octets)
  unfolding answer_request
  answer_read_property frame = do
    request ← parse_read_property_request frame.payload false
    answer_request frame request

  -- `SimulatedDevice._answer`
  unfoldable pub answer : Frame → Result (Option Octets)
  unfolding answer_who_is answer_read_property is_request
  answer frame = do
    reads ← is_request pdu_confirmed_request service_read_property frame
    asks ← is_request pdu_unconfirmed_request service_who_is frame
    if reads then answer_read_property frame else if asks then answer_who_is frame else ok none

-- The routing of an answer: back through the router that relayed the request, if there was one.
abbrev pub back_to : Option ℕ → Octets → Routing
back_to none adr = local
back_to (some net) adr = record local { dnet = some net; dadr = adr }

abbrev pub reply_routing : Frame → Routing
reply_routing request = back_to request.snet request.sadr

-- The datagram of an answer.
unfoldable pub reply_datagram : Frame → Octets → Result Octets
reply_datagram request apdu = do octets ← npdu apdu (reply_routing request); bvlc octets false

-- The datagram that `send` sends.
unfoldable pub sent_datagram : Octets → Result Octets
sent_datagram apdu = do octets ← npdu apdu local; bvlc octets false

-- `_reply`, if there is an answer.
unfoldable pub reply : Frame → Option Octets → Traffic → Result Traffic
reply request none traffic = ok traffic
reply request (some apdu) traffic = do
  datagram ← reply_datagram request apdu
  ok (record traffic { sent = traffic.sent ++ (datagram, request.source) ∷ [] })

unfoldable pub record_frame : Frame → Bool → Traffic → Traffic
record_frame frame on_broadcast traffic = record traffic {
  received = traffic.received ++ frame ∷ [];
  received_on_broadcast =
      if on_broadcast
      then traffic.received_on_broadcast ++ frame ∷ []
      else traffic.received_on_broadcast;
}

-- Whether `_serve` asks for an answer.
unfoldable pub is_answerable : Frame → Bool
is_answerable frame = elim frame.network_message [ none ↦ frame.accepted | some message ↦ false ]

-- One datagram of `_serve`. The device is `S` with its own `_answer`; the traffic is `Traffic`. An
-- exception ends the thread, so nothing is served after a `raised` result.
module _ {S : Type 0} (own_answer : Frame → S → Result (Option Octets × S)) where
  unfoldable pub receive : Octets → Source → Bool → S × Traffic → Result (S × Traffic)
  unfolding is_answerable
  receive octets source on_broadcast (s, traffic) = do
    frame ← decode octets source
    if is_answerable frame
        then (do
          (apdu, s') ← own_answer frame s
          traffic' ← reply frame apdu (record_frame frame on_broadcast traffic)
          ok (s', traffic'))
        else ok (s, record_frame frame on_broadcast traffic)
