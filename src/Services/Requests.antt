-- ===== src/Services/Requests.antt =====
-- wiretest/services.py, the requests.
use bacnet_profile_example_b.Base.{ℕ, Bool, false, Option, none, some, List, [], ◌∷◌, ◌++◌}
use bacnet_profile_example_b.Base.Int.{ℤ}
use bacnet_profile_example_b.Python.{Octets, Result, ok, raised, type_error, ◌>>=◌}
use bacnet_profile_example_b.Platform.{Platform}
use bacnet_profile_example_b.Codec.Constants.{service_read_property_multiple}
use bacnet_profile_example_b.Codec.Encode.{
  context_unsigned, context_enumerated, context_object_id, context_boolean, application_unsigned,
  application_object_id, application_octet_string,
}
use bacnet_profile_example_b.Codec.Requests.{confirmed_request, enclosed, read_access_specification}
use bacnet_profile_example_b.Codec.Values.{application_signed, context_character_string}

abbrev pub service_atomic_read_file : ℕ
service_atomic_read_file = 6

abbrev pub service_atomic_write_file : ℕ
service_atomic_write_file = 7

abbrev pub service_create_object : ℕ
service_create_object = 10

abbrev pub service_delete_object : ℕ
service_delete_object = 11

abbrev pub service_read_range : ℕ
service_read_range = 26

abbrev pub service_life_safety_operation : ℕ
service_life_safety_operation = 27

abbrev pub service_subscribe_cov_property_multiple : ℕ
service_subscribe_cov_property_multiple = 30

abbrev pub object_type_file : ℕ
object_type_file = 10

abbrev pub ObjectReference : Type 0
ObjectReference = ℕ × ℕ

-- `b"".join(read_access_specification(...) for ...)`
unfoldable pub specification_octets : List (ObjectReference × List (ℕ × Option ℕ)) → Result Octets
specification_octets [] = ok []
specification_octets (((object_type, instance), references) ∷ specifications) = do
  first ← read_access_specification object_type instance references
  rest ← specification_octets specifications
  ok (first ++ rest)

unfoldable pub read_property_multiple_request :
    ℕ → List (ObjectReference × List (ℕ × Option ℕ)) → Result Octets
read_property_multiple_request invoke_id specifications = do
  parameters ← specification_octets specifications
  confirmed_request invoke_id service_read_property_multiple parameters

-- A count of None is compared with a number: a TypeError.
unfoldable pub signed_count : Option ℤ → Result Octets
signed_count none = raised type_error
signed_count (some count) = application_signed count

-- The by-position range [3], if there is a reference index.
unfoldable pub position_range : Option ℕ → Option ℤ → Result Octets
unfolding signed_count
position_range none count = ok []
position_range (some reference_index) count = do
  first ← application_unsigned reference_index
  number ← signed_count count
  enclosed 3 (first ++ number)

unfoldable pub read_range_request : ℕ → ℕ → ℕ → ℕ → Option ℕ → Option ℤ → Result Octets
unfolding position_range
read_range_request invoke_id object_type instance property_identifier reference_index count = do
  object ← context_object_id 0 object_type instance
  property ← context_unsigned 1 property_identifier
  range ← position_range reference_index count
  confirmed_request invoke_id service_read_range (object ++ (property ++ range))

-- The object-specifier: an object identifier [1], or an object type [0] where the device picks the
-- instance.
unfoldable pub object_specifier : ℕ → Option ℕ → Result Octets
object_specifier object_type none = context_unsigned 0 object_type
object_specifier object_type (some instance) = context_object_id 1 object_type instance

unfoldable pub initial_value_octets : List (ℕ × Octets) → Result Octets
initial_value_octets [] = ok []
initial_value_octets ((property_identifier, value_octets) ∷ initial_values) = do
  property ← context_unsigned 0 property_identifier
  value ← enclosed 2 value_octets
  rest ← initial_value_octets initial_values
  ok (property ++ (value ++ rest))

unfoldable pub initial_values_list : List (ℕ × Octets) → Result Octets
unfolding initial_value_octets
initial_values_list [] = ok []
initial_values_list (v ∷ initial_values) = do
  octets ← initial_value_octets (v ∷ initial_values)
  enclosed 1 octets

unfoldable pub create_object_request : ℕ → ℕ → Option ℕ → List (ℕ × Octets) → Result Octets
unfolding object_specifier initial_values_list
create_object_request invoke_id object_type instance initial_values = do
  specifier ← object_specifier object_type instance
  object ← enclosed 0 specifier
  values ← initial_values_list initial_values
  confirmed_request invoke_id service_create_object (object ++ values)

unfoldable pub delete_object_request : ℕ → ℕ → ℕ → Result Octets
delete_object_request invoke_id object_type instance = do
  object ← application_object_id object_type instance
  confirmed_request invoke_id service_delete_object object

unfoldable pub atomic_read_file_request : ℕ → ℕ → ℤ → ℕ → Result Octets
atomic_read_file_request invoke_id file_instance start requested_count = do
  file ← application_object_id object_type_file file_instance
  first ← application_signed start
  count ← application_unsigned requested_count
  stream ← enclosed 0 (first ++ count)
  confirmed_request invoke_id service_atomic_read_file (file ++ stream)

unfoldable pub atomic_write_file_request : ℕ → ℕ → ℤ → Octets → Result Octets
atomic_write_file_request invoke_id file_instance start file_octets = do
  file ← application_object_id object_type_file file_instance
  first ← application_signed start
  content ← application_octet_string file_octets
  stream ← enclosed 0 (first ++ content)
  confirmed_request invoke_id service_atomic_write_file (file ++ stream)

-- The lifetime [2] and the delay [3] of a subscription; a cancellation has neither.
unfoldable pub subscription_times : Option ℕ → ℕ → Result Octets
subscription_times none max_notification_delay = ok []
subscription_times (some lifetime) max_notification_delay = do
  first ← context_unsigned 2 lifetime
  delay ← context_unsigned 3 max_notification_delay
  ok (first ++ delay)

-- Each property is subscribed whole, and without timestamps.
unfoldable pub subscribed_properties : List ℕ → Result Octets
subscribed_properties [] = ok []
subscribed_properties (property_identifier ∷ properties) = do
  property ← context_unsigned 0 property_identifier
  reference ← enclosed 0 property
  timestamped ← context_boolean 2 false
  rest ← subscribed_properties properties
  ok (reference ++ (timestamped ++ rest))

unfoldable pub subscription_specifications : List (ObjectReference × List ℕ) → Result Octets
unfolding subscribed_properties
subscription_specifications [] = ok []
subscription_specifications (((object_type, instance), properties) ∷ specifications) = do
  object ← context_object_id 0 object_type instance
  references ← subscribed_properties properties
  list ← enclosed 1 references
  rest ← subscription_specifications specifications
  ok (object ++ (list ++ rest))

unfoldable pub subscribe_cov_property_multiple_request :
    ℕ → ℕ → Bool → Option ℕ → List (ObjectReference × List ℕ) → ℕ → Result Octets
unfolding subscription_times subscription_specifications
subscribe_cov_property_multiple_request invoke_id process_identifier confirmed lifetime
      specifications max_notification_delay =
    do
      process ← context_unsigned 0 process_identifier
      issue ← context_boolean 1 confirmed
      times ← subscription_times lifetime max_notification_delay
      octets ← subscription_specifications specifications
      list ← enclosed 4 octets
      confirmed_request invoke_id service_subscribe_cov_property_multiple
          (process ++ (issue ++ (times ++ list)))

-- The object [3] that an operation is about; without it, all objects that it applies to.
unfoldable pub optional_reference : ℕ → Option ObjectReference → Result Octets
optional_reference tag none = ok []
optional_reference tag (some (object_type, instance)) = context_object_id tag object_type instance

module _ {Text Real : Type 0} (platform : Platform Text Real) where
  unfoldable pub life_safety_operation_request :
      ℕ → ℕ → Text → ℕ → Option ObjectReference → Result Octets
  unfolding optional_reference
  life_safety_operation_request invoke_id process_identifier source operation object_reference = do
    process ← context_unsigned 0 process_identifier
    name ← context_character_string platform 1 source
    request ← context_enumerated 2 operation
    object ← optional_reference 3 object_reference
    confirmed_request invoke_id service_life_safety_operation
        (process ++ (name ++ (request ++ object)))
