-- ===== src/Codec/Constants.antt =====
-- The numbers of wiretest/codec.py that its functions and the simulated devices use.
use bacnet_profile_example_b.Base.{ℕ}

abbrev pub bvlc_type : ℕ
bvlc_type = 0x81

abbrev pub bvlc_result : ℕ
bvlc_result = 0x00

abbrev pub bvlc_write_broadcast_distribution_table : ℕ
bvlc_write_broadcast_distribution_table = 0x01

abbrev pub bvlc_read_broadcast_distribution_table : ℕ
bvlc_read_broadcast_distribution_table = 0x02

abbrev pub bvlc_read_broadcast_distribution_table_ack : ℕ
bvlc_read_broadcast_distribution_table_ack = 0x03

abbrev pub bvlc_forwarded_npdu : ℕ
bvlc_forwarded_npdu = 0x04

abbrev pub bvlc_register_foreign_device : ℕ
bvlc_register_foreign_device = 0x05

abbrev pub bvlc_read_foreign_device_table : ℕ
bvlc_read_foreign_device_table = 0x06

abbrev pub bvlc_read_foreign_device_table_ack : ℕ
bvlc_read_foreign_device_table_ack = 0x07

abbrev pub bvlc_delete_foreign_device_table_entry : ℕ
bvlc_delete_foreign_device_table_entry = 0x08

abbrev pub bvlc_distribute_broadcast_to_network : ℕ
bvlc_distribute_broadcast_to_network = 0x09

abbrev pub bvlc_original_unicast : ℕ
bvlc_original_unicast = 0x0A

abbrev pub bvlc_original_broadcast : ℕ
bvlc_original_broadcast = 0x0B

abbrev pub pdu_confirmed_request : ℕ
pdu_confirmed_request = 0x0

abbrev pub pdu_unconfirmed_request : ℕ
pdu_unconfirmed_request = 0x1

abbrev pub pdu_simple_ack : ℕ
pdu_simple_ack = 0x2

abbrev pub pdu_complex_ack : ℕ
pdu_complex_ack = 0x3

abbrev pub pdu_error : ℕ
pdu_error = 0x5

abbrev pub pdu_reject : ℕ
pdu_reject = 0x6

abbrev pub pdu_abort : ℕ
pdu_abort = 0x7

abbrev pub service_read_property : ℕ
service_read_property = 12

abbrev pub service_write_property : ℕ
service_write_property = 15

abbrev pub service_read_property_multiple : ℕ
service_read_property_multiple = 14

abbrev pub service_reinitialize_device : ℕ
service_reinitialize_device = 20

abbrev pub service_i_am : ℕ
service_i_am = 0

abbrev pub service_who_is : ℕ
service_who_is = 8

abbrev pub service_write_group : ℕ
service_write_group = 10

abbrev pub object_type_device : ℕ
object_type_device = 8

abbrev pub property_object_identifier : ℕ
property_object_identifier = 75

abbrev pub property_object_name : ℕ
property_object_name = 77

abbrev pub property_present_value : ℕ
property_present_value = 85

abbrev pub error_class_object : ℕ
error_class_object = 1

abbrev pub error_class_property : ℕ
error_class_property = 2

abbrev pub error_code_unknown_object : ℕ
error_code_unknown_object = 31

abbrev pub error_code_unknown_property : ℕ
error_code_unknown_property = 32

abbrev pub error_code_write_access_denied : ℕ
error_code_write_access_denied = 40

abbrev pub error_code_invalid_array_index : ℕ
error_code_invalid_array_index = 42

abbrev pub reject_reason_unrecognized_service : ℕ
reject_reason_unrecognized_service = 9

abbrev pub abort_reason_segmentation_not_supported : ℕ
abort_reason_segmentation_not_supported = 4

abbrev pub max_instance : ℕ
max_instance = 0x3FFFFF

abbrev pub tag_null : ℕ
tag_null = 0

abbrev pub tag_boolean : ℕ
tag_boolean = 1

abbrev pub tag_unsigned : ℕ
tag_unsigned = 2

abbrev pub tag_signed : ℕ
tag_signed = 3

abbrev pub tag_real : ℕ
tag_real = 4

abbrev pub tag_double : ℕ
tag_double = 5

abbrev pub tag_character_string : ℕ
tag_character_string = 7

abbrev pub tag_bit_string : ℕ
tag_bit_string = 8

abbrev pub tag_enumerated : ℕ
tag_enumerated = 9

abbrev pub tag_object_identifier : ℕ
tag_object_identifier = 12
