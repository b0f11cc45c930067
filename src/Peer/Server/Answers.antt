-- ===== src/Peer/Server/Answers.antt =====
-- wiretest/peer.py, what `SimulatedServer` answers to each request.
use bacnet_profile_example_b.Base.{
  ℕ, zero, suc, ◌+◌, Bool, true, false, not, ◌&&◌, ◌||◌, Option, none, some, List, [], ◌∷◌, ◌++◌,
  length, drop, get_elem?, map, ◌==◌, if◌then◌else◌,
}
use bacnet_profile_example_b.Base.Bits.{shl}
use bacnet_profile_example_b.Base.Eq.{nat_eq, pair_eq}
use bacnet_profile_example_b.Python.{Octets, Result, ok, ◌>>=◌, bytes}
use bacnet_profile_example_b.Python.Dict.{get, member}
use bacnet_profile_example_b.Codec.Constants.{
  pdu_confirmed_request, service_read_property, service_write_property,
  service_read_property_multiple, error_class_object, error_class_property,
  error_code_unknown_object, error_code_unknown_property, error_code_write_access_denied,
  error_code_invalid_array_index, tag_null, reject_reason_unrecognized_service,
  abort_reason_segmentation_not_supported, pdu_complex_ack,
}
use bacnet_profile_example_b.Codec.Encode.{
  context_unsigned, context_object_id, application_null, application_unsigned,
}
use bacnet_profile_example_b.Codec.Requests.{
  enclosed, error_pdu, read_property_ack, read_property_multiple_ack, simple_ack, reject_pdu,
  abort_pdu,
}
use bacnet_profile_example_b.Codec.Decode.{
  ObjectId, ReadRequest, WriteRequest, application_tag, application_elements,
  parse_read_property_request, parse_write_property_request, read_access_specifications,
}
use bacnet_profile_example_b.Codec.Frame.{Frame, is_type, pdu_type, service}
use bacnet_profile_example_b.Platform.{Platform}
use bacnet_profile_example_b.Peer.{Identity, own_invoke_id, answer}
use bacnet_profile_example_b.Peer.Server.{
  stored, online, offline, refusing, Failure, reject, abort, silent, malformed, Server,
  properties_of, served_value, is_object, is_there, target, is_commanded, store, command,
  is_refusing, is_online, is_allowed, Hooks, failure_at,
}

-- An answer and the server after it.
abbrev pub Reply : Type 0
Reply = Result (Option Octets × Server)

abbrev pub answering : Server → Result Octets → Reply
answering s apdu = apdu >>= λ octets. ok (some octets, s)

-- A NULL written to a property that is not commanded, by a server with a priority array.
unfoldable pub is_ignored_null : Server → WriteRequest → Bool → Bool
is_ignored_null s request is_null =
    is_there s.commandable
    && is_null
    && not (is_commanded s request)
    && is_online s.mode
    && is_there (get (properties_of s (target request)) request.property_identifier)

-- The refusal of a write to an object that is there.
unfoldable pub refusal : Hooks → Server → WriteRequest → Option (ℕ × ℕ)
refusal hooks s request =
    if is_refusing s.mode || not (is_allowed s request)
    then some (error_class_property, error_code_write_access_denied)
    else hooks.check_write s request

-- An accepted write: stored, and commanded if Present_Value has a priority array.
unfoldable pub accept : Server → WriteRequest → Bool → Result Server
accept s request is_null = do
  s' ← store s (target request) request.property_identifier (stored request.value_octets)
  if is_commanded s request then command s' request is_null else ok s'

unfoldable pub write_object : Hooks → Server → ℕ → WriteRequest → Bool → Option (ℕ × ℕ) → Reply
write_object hooks s n request is_null (some (error_class, error_code)) =
    answering s (error_pdu n service_write_property error_class error_code)
write_object hooks s n request is_null none = do
  s' ← accept s request is_null
  answering (hooks.on_write request s') (simple_ack n service_write_property)

-- `_write` of a parsed request.
unfoldable pub write : Hooks → Server → ℕ → WriteRequest → Reply
write hooks s n request = do
  tag ← application_tag request.value_octets
  if is_ignored_null s request (is_type tag tag_null)
      then answering s (simple_ack n service_write_property)
      else if not (is_object s (target request))
      then answering s
          (error_pdu n service_write_property error_class_object error_code_unknown_object)
      else write_object hooks s n request (is_type tag tag_null) (refusal hooks s request)

abbrev pub noted : Server → ObjectId → ℕ → Server
noted s object property = record s {
  read_requests = s.read_requests ++ (service_read_property, (object, property ∷ []) ∷ []) ∷ [];
}

-- The element that an array index asks for: [0] the length, [n] the n-th; None past the end.
unfoldable pub array_value : List Octets → ℕ → Result (Option Octets)
array_value elements zero = do v ← application_unsigned (length elements); ok (some v)
array_value elements (suc i) = ok (get_elem? elements i)

unfoldable pub element_answer : ℕ → ObjectId → ℕ → ℕ → Option Octets → Result Octets
element_answer n object property array_index none =
    error_pdu n service_read_property error_class_property error_code_invalid_array_index
element_answer n (object_type, instance) property array_index (some v) = do
  head ← bytes (shl pdu_complex_ack 4 ∷ n ∷ service_read_property ∷ [])
  object_octets ← context_object_id 0 object_type instance
  property_octets ← context_unsigned 1 property
  index_octets ← context_unsigned 2 array_index
  value_octets ← enclosed 3 v
  ok (head ++ (object_octets ++ (property_octets ++ (index_octets ++ value_octets))))

-- `_read_special` of an indexed read: None when the whole value is to be served instead.
unfoldable pub read_element : Server → ℕ → ObjectId → ℕ → ℕ → Option Octets → Reply
read_element s n object property array_index none = ok (none, s)
read_element s n object property array_index (some octets) = do
  elements ← application_elements octets
  v ← array_value elements array_index
  answering
      (record (noted s object property) {
        array_reads = s.array_reads ++ (object, property, array_index) ∷ [];
      })
      (element_answer n object property array_index v)

abbrev pub is_malformed : Option Failure → Bool
is_malformed (some malformed) = true
is_malformed _ = false

unfoldable pub read_unindexed : Server → ℕ → ObjectId → ℕ → Reply
read_unindexed s n object property =
    if member s.whole_arrays_refused (object, property)
    then answering (noted s object property)
        (abort_pdu n abort_reason_segmentation_not_supported true)
    else ok (none, s)

-- `_read_special`
unfoldable pub read_special : Server → ℕ → ℕ → ObjectId → ℕ → Option ℕ → Option Failure → Reply
read_special s now n (object_type, instance) property array_index failure =
    if is_malformed failure
    then answering s (read_property_ack n object_type instance property application_null)
    else elim array_index [
      | none ↦ read_unindexed s n (object_type, instance) property
      | some i ↦
          if s.array_elements
          then read_element s n (object_type, instance) property i
              (served_value s now (object_type, instance) property)
          else ok (none, s)
    ]

-- The whole value of a property of a listed object.
unfoldable pub read_whole : Server → ℕ → ℕ → ObjectId → ℕ → Reply
read_whole s now n (object_type, instance) property =
    elim (served_value s now (object_type, instance) property) [
      | none ↦
          answering (noted s (object_type, instance) property)
            (error_pdu n service_read_property error_class_property error_code_unknown_property)
      | some v ↦
          answering (noted s (object_type, instance) property)
            (read_property_ack n object_type instance property v)
    ]

unfoldable pub read_listed : Server → ℕ → ℕ → ReadRequest → Option Failure → Reply
read_listed s now n request failure = do
  (special, s') ←
      read_special s now n (request.object_type, request.object_instance)
        request.property_identifier request.array_index failure
  if is_there special
      then ok (special, s')
      else read_whole s' now n (request.object_type, request.object_instance)
          request.property_identifier

-- `_read_multiple`
unfoldable pub read_multiple : Server → ℕ → ℕ → Octets → Reply
read_multiple s now n payload = do
  specifications ← read_access_specifications (drop 4 payload)
  answering
      (record s {
        read_requests = s.read_requests ++ (service_read_property_multiple, specifications) ∷ [];
      })
      (read_property_multiple_ack n (
        map
          (λ (object, properties). (object, map (λ p. (p, served_value s now object p)) properties))
          specifications))

-- `_requested_object` of a confirmed request.
unfoldable pub requested_object : Frame → Option ℕ → Result (Option ObjectId)
requested_object frame choice =
    if is_type choice service_read_property
    then (do
      request ← parse_read_property_request frame.payload false
      ok (elim request [ none ↦ none | some r ↦ some (r.object_type, r.object_instance) ]))
    else if is_type choice service_write_property
    then (do
      request ← parse_write_property_request frame.payload
      ok (elim request [ none ↦ none | some r ↦ some (target r) ]))
    else ok none

-- The failure that the test has set for the object, if any.
unfoldable pub failure_of : Server → Frame → Option ℕ → Result (Option Failure)
failure_of s frame choice =
    if is_online s.mode && not (length s.failures == 0)
    then (do object ← requested_object frame choice; ok (failure_at s.failures object))
    else ok none

unfoldable pub write_request_of : Frame → Option ℕ → Result (Option WriteRequest)
write_request_of frame choice =
    if is_type choice service_write_property
    then parse_write_property_request frame.payload
    else ok none

-- A parsed write is kept, also while the server is offline.
abbrev pub noted_write : Server → Option WriteRequest → Server
noted_write s none = s
noted_write s (some request) = record s { write_requests = s.write_requests ++ request ∷ [] }

unfoldable pub counted_offline : Server → Option ℕ → Server
counted_offline s choice =
    if is_type choice service_read_property
      || is_type choice service_read_property_multiple
      || is_type choice service_write_property
    then record s { requests_while_offline = s.requests_while_offline + 1 }
    else s

module _ {Text Real : Type 0} (platform : Platform Text Real) (device : Identity Text)
    (hooks : Hooks) where
  abbrev pub device_answer : Server → Frame → Reply
  device_answer s frame = do apdu ← answer platform device frame; ok (apdu, s)

  -- ReadProperty: a listed object's own value, or what the device answers.
  unfoldable pub answer_read : Server → ℕ → ℕ → Frame → Option Failure → Reply
  answer_read s now n frame failure = do
    request ← parse_read_property_request frame.payload true
    elim request [
      | none ↦ device_answer s frame
      | some r ↦
          if is_object s (r.object_type, r.object_instance)
          then read_listed s now n r failure
          else device_answer s frame
    ]

  -- A confirmed request to a server that is not offline.
  unfoldable pub dispatch :
      Server → ℕ → Frame → Option ℕ → Option Failure → Option WriteRequest → Reply
  dispatch s now frame choice failure request =
      if is_type choice service_write_property
      then elim request [
        | none ↦ ok (none, s)
        | some r ↦ do n ← own_invoke_id frame; write hooks s n r
      ]
      else if is_type choice service_read_property_multiple
      then (do n ← own_invoke_id frame; read_multiple s now n frame.payload)
      else if is_type choice service_read_property
      then (do n ← own_invoke_id frame; answer_read s now n frame failure)
      else device_answer s frame

  -- After the failures: the write is noted, and an offline server answers nothing.
  unfoldable pub answer_confirmed : Server → ℕ → Frame → Option ℕ → Option Failure → Reply
  answer_confirmed s now frame choice failure = do
    request ← write_request_of frame choice
    elim s.mode [
      | offline ↦ ok (none, counted_offline (noted_write s request) choice)
      | online ↦ dispatch (noted_write s request) now frame choice failure request
      | refusing ↦ dispatch (noted_write s request) now frame choice failure request
    ]

  unfoldable pub answer_failing : Server → ℕ → Frame → Option ℕ → Option Failure → Reply
  answer_failing s now frame choice (some reject) = do
    n ← own_invoke_id frame
    answering s (reject_pdu n reject_reason_unrecognized_service)
  answer_failing s now frame choice (some abort) = do
    n ← own_invoke_id frame
    answering s (abort_pdu n abort_reason_segmentation_not_supported true)
  answer_failing s now frame choice (some silent) =
      ok (none, record s { silent_requests = s.silent_requests + 1 })
  answer_failing s now frame choice failure = answer_confirmed s now frame choice failure

  -- `SimulatedServer._answer`
  unfoldable pub server_answer : ℕ → Frame → Server → Reply
  server_answer now frame s =
      if is_type (pdu_type frame) pdu_confirmed_request
      then (do
        choice ← service frame
        failure ← failure_of s frame choice
        answer_failing s now frame choice failure)
      else elim s.mode [
        | offline ↦ ok (none, s)
        | online ↦ device_answer s frame
        | refusing ↦ device_answer s frame
      ]
