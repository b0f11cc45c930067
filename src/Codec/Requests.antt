-- ===== src/Codec/Requests.antt =====
-- wiretest/codec.py, the APDUs that are built from tagged values (without text).
pub mod Shape
use bacnet_profile_example_b.Base.{
  ℕ, zero, suc, bit_or, Bool, true, false, Option, none, some, List, [], ◌∷◌, ◌++◌, if◌then◌else◌,
}
use bacnet_profile_example_b.Base.Bits.{shl}
use bacnet_profile_example_b.Python.{Octets, Result, ok, ◌>>=◌, bytes, join}
use bacnet_profile_example_b.Codec.Constants.{
  pdu_simple_ack, pdu_complex_ack, pdu_reject, pdu_abort, pdu_unconfirmed_request,
  service_read_property, service_write_property, service_read_property_multiple, service_who_is,
  service_i_am, service_write_group, object_type_device, error_class_property,
  error_code_unknown_property,
}
use bacnet_profile_example_b.Codec.Encode.{
  context_unsigned, context_object_id, opening, closing, application_unsigned,
  application_enumerated, application_object_id,
}

unfoldable pub confirmed_request : ℕ → ℕ → Octets → Result Octets
confirmed_request invoke_id service parameters = do
  head ← bytes (0x00 ∷ 0x05 ∷ invoke_id ∷ service ∷ [])
  ok (head ++ parameters)

-- An optional parameter: nothing when it is None.
unfoldable pub optional_unsigned : ℕ → Option ℕ → Result Octets
optional_unsigned tag none = ok []
optional_unsigned tag (some value) = context_unsigned tag value

-- What stands between opening and closing tag `tag`.
unfoldable pub enclosed : ℕ → Octets → Result Octets
enclosed tag octets = do start ← opening tag; end ← closing tag; ok (start ++ (octets ++ end))

unfoldable pub read_property_request : ℕ → ℕ → ℕ → ℕ → Option ℕ → Result Octets
read_property_request invoke_id object_type instance property_identifier array_index = do
  object ← context_object_id 0 object_type instance
  property ← context_unsigned 1 property_identifier
  array ← optional_unsigned 2 array_index
  confirmed_request invoke_id service_read_property (object ++ (property ++ array))

unfoldable pub write_property_request : ℕ → ℕ → ℕ → ℕ → Octets → Option ℕ → Option ℕ → Result Octets
write_property_request invoke_id object_type instance property_identifier value_octets priority
      array_index =
    do
      object ← context_object_id 0 object_type instance
      property ← context_unsigned 1 property_identifier
      array ← optional_unsigned 2 array_index
      value ← enclosed 3 value_octets
      level ← optional_unsigned 4 priority
      confirmed_request invoke_id service_write_property
          (object ++ (property ++ (array ++ (value ++ level))))

unfoldable pub read_property_ack : ℕ → ℕ → ℕ → ℕ → Octets → Result Octets
read_property_ack invoke_id object_type instance property_identifier value_octets = do
  head ← bytes (0x30 ∷ invoke_id ∷ service_read_property ∷ [])
  object ← context_object_id 0 object_type instance
  property ← context_unsigned 1 property_identifier
  value ← enclosed 3 value_octets
  ok (head ++ (object ++ (property ++ value)))

unfoldable pub error_pdu : ℕ → ℕ → ℕ → ℕ → Result Octets
error_pdu invoke_id service error_class error_code = do
  head ← bytes (0x50 ∷ invoke_id ∷ service ∷ [])
  class_octets ← application_enumerated error_class
  code_octets ← application_enumerated error_code
  ok (head ++ (class_octets ++ code_octets))

-- `who_is()` or `who_is(low, high)`; the source gives both limits or none.
unfoldable pub who_is : Option (ℕ × ℕ) → Result Octets
who_is none = ok (0x10 ∷ service_who_is ∷ [])
who_is (some (low, high)) = do
  first ← context_unsigned 0 low
  last ← context_unsigned 1 high
  ok (0x10 ∷ service_who_is ∷ (first ++ last))

unfoldable pub i_am : ℕ → ℕ → ℕ → ℕ → Result Octets
i_am device_instance vendor_identifier max_apdu segmentation = do
  object ← application_object_id object_type_device device_instance
  apdu ← application_unsigned max_apdu
  segments ← application_enumerated segmentation
  vendor ← application_unsigned vendor_identifier
  ok (0x10 ∷ service_i_am ∷ (object ++ (apdu ++ (segments ++ vendor))))

-- The references of one BACnetReadAccessSpecification, each with its array index or None.
unfoldable pub access_references : List (ℕ × Option ℕ) → Result Octets
access_references [] = ok []
access_references ((property_identifier, array_index) ∷ references) = do
  property ← context_unsigned 0 property_identifier
  array ← optional_unsigned 1 array_index
  rest ← access_references references
  ok (property ++ (array ++ rest))

unfoldable pub read_access_specification : ℕ → ℕ → List (ℕ × Option ℕ) → Result Octets
read_access_specification object_type instance property_identifiers = do
  object ← context_object_id 0 object_type instance
  references ← access_references property_identifiers
  list ← enclosed 1 references
  ok (object ++ list)

unfoldable pub list_element_request : ℕ → ℕ → ℕ → ℕ → ℕ → List Octets → Result Octets
list_element_request invoke_id service object_type instance property_identifier elements = do
  object ← context_object_id 0 object_type instance
  property ← context_unsigned 1 property_identifier
  list ← enclosed 3 (join elements)
  confirmed_request invoke_id service (object ++ (property ++ list))

unfoldable pub simple_ack : ℕ → ℕ → Result Octets
simple_ack invoke_id service = bytes (shl pdu_simple_ack 4 ∷ invoke_id ∷ service ∷ [])

unfoldable pub reject_pdu : ℕ → ℕ → Result Octets
reject_pdu invoke_id reason = bytes (shl pdu_reject 4 ∷ invoke_id ∷ reason ∷ [])

unfoldable pub abort_pdu : ℕ → ℕ → Bool → Result Octets
abort_pdu invoke_id reason server =
    bytes (bit_or (shl pdu_abort 4) (if server then 1 else 0) ∷ invoke_id ∷ reason ∷ [])

-- One property of a ReadPropertyMultiple-ACK: its value [4], or the error [5] when it is None.
unfoldable pub access_result : ℕ × Option Octets → Result Octets
access_result (property_identifier, some value_octets) = do
  property ← context_unsigned 2 property_identifier
  value ← enclosed 4 value_octets
  ok (property ++ value)
access_result (property_identifier, none) = do
  property ← context_unsigned 2 property_identifier
  class_octets ← application_enumerated error_class_property
  code_octets ← application_enumerated error_code_unknown_property
  failure ← enclosed 5 (class_octets ++ code_octets)
  ok (property ++ failure)

unfoldable pub access_results : List (ℕ × Option Octets) → Result Octets
unfolding access_result
access_results [] = ok []
access_results (p ∷ properties) = do
  first ← access_result p
  rest ← access_results properties
  ok (first ++ rest)

-- The results of one object after another.
unfoldable pub multiple_results : List ((ℕ × ℕ) × List (ℕ × Option Octets)) → Result Octets
unfolding access_results
multiple_results [] = ok []
multiple_results (((object_type, instance), properties) ∷ results) = do
  object ← context_object_id 0 object_type instance
  values ← access_results properties
  list ← enclosed 1 values
  rest ← multiple_results results
  ok (object ++ (list ++ rest))

unfoldable pub read_property_multiple_ack :
    ℕ → List ((ℕ × ℕ) × List (ℕ × Option Octets)) → Result Octets
unfolding multiple_results
read_property_multiple_ack invoke_id results = do
  body ← multiple_results results
  head ← bytes (shl pdu_complex_ack 4 ∷ invoke_id ∷ service_read_property_multiple ∷ [])
  ok (head ++ body)

-- The change list of a WriteGroup: (channel, value octets, overriding priority or None).
unfoldable pub group_changes : List (ℕ × Octets × Option ℕ) → Result Octets
group_changes [] = ok []
group_changes ((channel, value_octets, overriding_priority) ∷ changes) = do
  number ← context_unsigned 0 channel
  priority ← optional_unsigned 1 overriding_priority
  rest ← group_changes changes
  ok (number ++ (priority ++ (value_octets ++ rest)))

unfoldable pub inhibit_octets : Option Bool → Octets
inhibit_octets none = []
inhibit_octets (some inhibit_delay) = 0x39 ∷ (if inhibit_delay then 1 else 0) ∷ []

unfoldable pub write_group_request :
    ℕ → ℕ → List (ℕ × Octets × Option ℕ) → Option Bool → Result Octets
unfolding group_changes inhibit_octets
write_group_request group_number write_priority change_list inhibit_delay = do
  changes ← group_changes change_list
  group ← context_unsigned 0 group_number
  priority ← context_unsigned 1 write_priority
  list ← enclosed 2 changes
  head ← bytes (shl pdu_unconfirmed_request 4 ∷ service_write_group ∷ [])
  ok (head ++ (group ++ (priority ++ (list ++ inhibit_octets inhibit_delay))))
