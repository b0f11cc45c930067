-- ===== src/Codec/Decode.antt =====
-- wiretest/codec.py, the decoders of APDUs and values (without text and floating point).
pub mod Reading
pub mod Totality
pub mod Answers
pub mod Lists
pub mod RoundTrip
use bacnet_profile_example_b.Base.{
  ℕ, zero, suc, ◌+◌, ◌<◌, bit_and, Bool, true, false, not, ◌&&◌, ◌||◌, Option, none, some, List, [],
  ◌∷◌, ◌++◌, length, drop, ltb, ◌==◌, if◌then◌else◌,
}
use bacnet_profile_example_b.Base.Bits.{shr}
use bacnet_profile_example_b.Base.Eq.{Eq, nat_eq, pair_eq}
use bacnet_profile_example_b.Python.{
  Octets, Result, ok, raised, key_error, ◌>>=◌, none_on_malformed, index, slice, from_bytes, unpack,
}
use bacnet_profile_example_b.Python.Dict.{Dict, get, put}
use bacnet_profile_example_b.Codec.Constants.{
  max_instance, object_type_device, pdu_confirmed_request, pdu_unconfirmed_request, service_i_am,
  service_write_property,
}
use bacnet_profile_example_b.Codec.Tag.{Tag, Kind, open_tag, close_tag, value, read_tag}
use bacnet_profile_example_b.Codec.Scan.{Turn, go_on, leave, scan, skip_nested, nested_body}

abbrev pub ObjectId : Type 0
ObjectId = ℕ × ℕ

abbrev pub is_kind : Kind → Kind → Bool
is_kind open_tag open_tag = true
is_kind close_tag close_tag = true
is_kind value value = true
is_kind _ _ = false

-- `raw >> 22, raw & MAX_INSTANCE`
unfoldable pub split_identifier : ℕ → ObjectId
split_identifier raw = (shr raw 22, bit_and raw max_instance)

-- The same of the four octets of an object identifier.
unfoldable pub object_identifier : Octets → Result ObjectId
object_identifier body = do raw ← unpack 4 body; ok (split_identifier raw)

-- Whether an APDU is long enough for an I-Am and has its first two octets.
unfoldable pub is_i_am : Octets → Result Bool
is_i_am apdu = if ltb (length apdu) 7 then ok false else do
  first ← index apdu 0
  choice ← index apdu 1
  ok (shr first 4 == pdu_unconfirmed_request && choice == service_i_am)

unfoldable pub announced_instance : Tag → Result (Option ℕ)
announced_instance tag =
    if tag.is_context || not (tag.number == 12) || not (length tag.body == 4) then ok none else do
      raw ← unpack 4 tag.body
      ok (if shr raw 22 == object_type_device then some (bit_and raw max_instance) else none)

unfoldable pub i_am_device_instance : Octets → Result (Option ℕ)
unfolding is_i_am announced_instance
i_am_device_instance apdu = do
  announces ← is_i_am apdu
  if announces then read_tag apdu 2 >>= announced_instance else ok none

-- The body of the outer loop: at [3] opening the value runs up to the closing tag that matches.
unfoldable pub property_value_turn : Octets → Option Octets → Tag → Result (Turn (Option Octets))
property_value_turn apdu s tag =
    if tag.is_context && tag.number == 3 && is_kind tag.kind open_tag
    then (do (octets, _) ← nested_body apdu tag.next; ok (leave (some octets)))
    else ok (go_on tag.next none)

unfoldable pub read_property_value : Octets → Result (Option Octets)
unfolding property_value_turn
read_property_value apdu = scan apdu (property_value_turn apdu) 3 none

-- What `parse_read_property_request` returns; without `with_array_index` the index is left out.
pub record ReadRequest : Type 0 where
  pub object_type : ℕ
  pub object_instance : ℕ
  pub property_identifier : ℕ
  pub array_index : Option ℕ

abbrev pub read_request : ObjectId → ℕ → Option ℕ → ReadRequest
read_request (object_type, instance) property_identifier array_index = record {
  object_type = object_type;
  object_instance = instance;
  property_identifier = property_identifier;
  array_index = array_index;
}

unfoldable pub index_of_tag : Tag → Option ℕ
index_of_tag tag =
    if tag.is_context && tag.number == 2 && is_kind tag.kind value
    then some (from_bytes tag.body)
    else none

-- propertyArrayIndex [2], if the APDU goes on.
unfoldable pub trailing_index : Octets → ℕ → Result (Option ℕ)
unfolding index_of_tag
trailing_index apdu position =
    if ltb position (length apdu)
    then (do tag ← read_tag apdu position; ok (index_of_tag tag))
    else ok none

unfoldable pub read_property_parameters : Octets → Bool → Result (Option ReadRequest)
unfolding trailing_index
read_property_parameters apdu with_array_index = do
  object_tag ← read_tag apdu 4
  object ← object_identifier object_tag.body
  property_tag ← read_tag apdu object_tag.next
  array_index ← if with_array_index then trailing_index apdu property_tag.next else ok none
  ok (some (read_request object (from_bytes property_tag.body) array_index))

unfoldable pub parse_read_property_request : Octets → Bool → Result (Option ReadRequest)
unfolding read_property_parameters
parse_read_property_request apdu with_array_index =
    none_on_malformed (read_property_parameters apdu with_array_index)

-- One element of a list or array value, still tagged. Of the tag only its end is used.
unfoldable pub element_turn : Octets → ℕ × List Octets → Tag → Result (Turn (ℕ × List Octets))
element_turn octets (start, elements) tag =
    ok (go_on tag.next (tag.next, elements ++ slice octets start tag.next ∷ []))

unfoldable pub application_elements : Octets → Result (List Octets)
unfolding element_turn
application_elements octets = do
  (_, elements) ← scan octets (element_turn octets) 0 (0, [])
  ok elements

abbrev pub Primitives : Type 0
Primitives = List (ℕ × Octets)

unfoldable pub application_turn : Primitives → Tag → Result (Turn Primitives)
application_turn values tag = ok (
    go_on tag.next (
      if is_kind tag.kind value && not tag.is_context
      then values ++ (tag.number, tag.body) ∷ []
      else values))

unfoldable pub application_values : Octets → Result Primitives
unfolding application_turn
application_values octets = scan octets application_turn 0 []

unfoldable pub context_turn : Primitives → Tag → Result (Turn Primitives)
context_turn values tag = ok (
    go_on tag.next (
      if tag.is_context && is_kind tag.kind value
      then values ++ (tag.number, tag.body) ∷ []
      else values))

unfoldable pub context_values : Octets → Result Primitives
unfolding context_turn
context_values octets = scan octets context_turn 0 []

unfoldable pub application_tag : Octets → Result (Option ℕ)
application_tag [] = ok none
application_tag (b ∷ octets) = do
  tag ← read_tag (b ∷ octets) 0
  ok (if tag.is_context then none else some tag.number)

-- The first two values of an Error PDU as numbers.
unfoldable pub first_two : Primitives → Option (ℕ × ℕ)
first_two ((_, a) ∷ (_, b) ∷ rest) = some (from_bytes a, from_bytes b)
first_two _ = none

unfoldable pub error_class_and_code : Octets → Result (Option (ℕ × ℕ))
unfolding first_two
error_class_and_code apdu = do values ← application_values (drop 3 apdu); ok (first_two values)

-- The state of `read_access_specifications`: the dictionary, and the object that is being read.
pub record Members : Type 0 where
  pub members : Dict ObjectId (List ℕ)
  pub current : Option ObjectId

-- `members[current].append(property)`
unfoldable pub append_property :
    Dict ObjectId (List ℕ) → ObjectId → ℕ → Result (Dict ObjectId (List ℕ))
append_property members object property = elim (get members object) [
  | none ↦ raised key_error
  | some properties ↦ ok (put members object (properties ++ property ∷ []))
]

-- One tag: an object identifier where no object is open, a property where one is, or the end of an
-- object.
unfoldable pub member_step : Dict ObjectId (List ℕ) → Option ObjectId → Tag → Result Members
member_step members none tag =
    if is_kind tag.kind value && tag.is_context && tag.number == 0 && length tag.body == 4
    then (do
      object ← object_identifier tag.body
      ok (record { members = put members object []; current = some object }))
    else ok (record { members = members; current = none })
member_step members (some object) tag =
    if is_kind tag.kind value && tag.is_context && tag.number == 0
    then (do
      extended ← append_property members object (from_bytes tag.body)
      ok (record { members = extended; current = some object }))
    else if is_kind tag.kind close_tag && tag.number == 1
    then ok (record { members = members; current = none })
    else ok (record { members = members; current = some object })

unfoldable pub member_turn : Members → Tag → Result (Turn Members)
member_turn s tag = do s' ← member_step s.members s.current tag; ok (go_on tag.next s')

unfoldable pub read_access_specifications : Octets → Result (Dict ObjectId (List ℕ))
unfolding member_turn
read_access_specifications octets = do
  s ← scan octets member_turn 0 (record { members = []; current = none })
  ok s.members

-- The dictionary that `parse_write_property_request` returns.
pub record WriteRequest : Type 0 where
  pub object_type : ℕ
  pub object_instance : ℕ
  pub property_identifier : ℕ
  pub array_index : Option ℕ
  pub value_octets : Octets
  pub priority : Option ℕ

unfoldable pub is_write_property : Octets → Result Bool
is_write_property apdu = do
  first ← index apdu 0
  if not (shr first 4 == pdu_confirmed_request)
      then ok false
      else (do choice ← index apdu 3; ok (choice == service_write_property))

-- Array index [2] if it is there, and where the next tag starts.
unfoldable pub optional_index : Octets → ℕ → Result (Option ℕ × ℕ)
optional_index apdu position = do
  tag ← read_tag apdu position
  ok (
      if tag.number == 2 && is_kind tag.kind value
      then (some (from_bytes tag.body), tag.next)
      else (none, position))

-- Priority [4], if the APDU goes on.
unfoldable pub trailing_priority : Octets → ℕ → Result (Option ℕ)
trailing_priority apdu position =
    if ltb position (length apdu)
    then (do tag ← read_tag apdu position; ok (some (from_bytes tag.body)))
    else ok none

abbrev pub write_request : ObjectId → ℕ → Option ℕ → Octets → Option ℕ → WriteRequest
write_request (object_type, instance) property_identifier array_index value_octets priority =
    record {
      object_type = object_type;
      object_instance = instance;
      property_identifier = property_identifier;
      array_index = array_index;
      value_octets = value_octets;
      priority = priority;
    }

unfoldable pub write_property_parameters : Octets → Result (Option WriteRequest)
unfolding optional_index trailing_priority
write_property_parameters apdu = do
  object_tag ← read_tag apdu 4
  object ← object_identifier object_tag.body
  property_tag ← read_tag apdu object_tag.next
  (array_index, position) ← optional_index apdu property_tag.next
  value_tag ← read_tag apdu position
  (value_octets, after) ← nested_body apdu value_tag.next
  priority ← trailing_priority apdu after
  ok (some (write_request object (from_bytes property_tag.body) array_index value_octets priority))

unfoldable pub parse_write_property_request : Octets → Result (Option WriteRequest)
unfolding is_write_property write_property_parameters
parse_write_property_request apdu =
    none_on_malformed (do
      writes ← is_write_property apdu
      if writes then write_property_parameters apdu else ok none)
