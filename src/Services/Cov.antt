-- ===== src/Services/Cov.antt =====
-- wiretest/services.py, `CovNotificationMultiple`.
use bacnet_profile_example_b.Base.{
  ℕ, zero, suc, ◌+◌, Bool, true, false, not, ◌&&◌, Option, none, some, List, [], ◌∷◌, ◌++◌, drop,
  ◌==◌, if◌then◌else◌,
}
use bacnet_profile_example_b.Base.Eq.{nat_eq, pair_eq, option_eq}
use bacnet_profile_example_b.Base.Int.{ℤ, pos, negsuc}
use bacnet_profile_example_b.Python.{Octets, Result, ok, ◌>>=◌, from_bytes}
use bacnet_profile_example_b.Platform.{Platform}
use bacnet_profile_example_b.Codec.Constants.{pdu_confirmed_request, pdu_unconfirmed_request}
use bacnet_profile_example_b.Codec.Tag.{Tag, Kind, open_tag, close_tag, value}
use bacnet_profile_example_b.Codec.Scan.{Turn, go_on, scan}
use bacnet_profile_example_b.Codec.Decode.{ObjectId, object_identifier}
use bacnet_profile_example_b.Codec.Frame.{Frame, is_type, pdu_type, service}
use bacnet_profile_example_b.Codec.Values.{Value, decode_application}
use bacnet_profile_example_b.Services.{constructed_body}

abbrev pub service_confirmed_cov_notification_multiple : ℕ
service_confirmed_cov_notification_multiple = 31

abbrev pub service_unconfirmed_cov_notification_multiple : ℕ
service_unconfirmed_cov_notification_multiple = 11

-- `frame.pdu_type == type and frame.service == choice`
unfoldable pub is_service : Frame → ℕ → ℕ → Result Bool
is_service frame type choice =
    if is_type (pdu_type frame) type
    then (do own ← service frame; ok (is_type own choice))
    else ok false

unfoldable pub is_cov_notification_multiple : Frame → Result Bool
unfolding is_service
is_cov_notification_multiple frame = do
  unconfirmed ←
      is_service frame pdu_unconfirmed_request service_unconfirmed_cov_notification_multiple
  if unconfirmed
      then ok true
      else is_service frame pdu_confirmed_request service_confirmed_cov_notification_multiple

-- (monitored object, property identifier, array index, value octets), each None until it is read.
pub record Monitored : Type 0 where
  pub monitored : Option ObjectId
  pub property_identifier : Option ℕ
  pub array_index : Option ℕ
  pub content : Octets

-- The attributes and the variables of the loop. A closing tag too many makes `depth` negative.
pub record Notification : Type 0 where
  pub process_identifier : Option ℕ
  pub initiating_device : Option ObjectId
  pub time_remaining : Option ℕ
  pub values : List Monitored
  pub depth : ℤ
  pub monitored : Option ObjectId
  pub property_identifier : Option ℕ
  pub array_index : Option ℕ

abbrev pub empty_notification : Notification
empty_notification = record {
  process_identifier = none;
  initiating_device = none;
  time_remaining = none;
  values = [];
  depth = pos 0;
  monitored = none;
  property_identifier = none;
  array_index = none;
}

abbrev pub is_depth : ℤ → ℕ → Bool
is_depth (pos n) k = n == k
is_depth (negsuc n) k = false

unfoldable pub inward : ℤ → ℤ
inward (pos n) = pos (n + 1)
inward (negsuc zero) = pos 0
inward (negsuc (suc n)) = negsuc n

unfoldable pub outward : ℤ → ℤ
outward (pos zero) = negsuc 0
outward (pos (suc n)) = pos n
outward (negsuc n) = negsuc (n + 1)

-- A context-tagged primitive, by its depth and number.
unfoldable pub notification_field : Notification → Tag → Result Notification
notification_field s tag =
    if is_depth s.depth 0 && tag.number == 0
    then ok (record s { process_identifier = some (from_bytes tag.body) })
    else if is_depth s.depth 0 && tag.number == 1
    then (do object ← object_identifier tag.body; ok (record s { initiating_device = some object }))
    else if is_depth s.depth 0 && tag.number == 2
    then ok (record s { time_remaining = some (from_bytes tag.body) })
    else if is_depth s.depth 1 && tag.number == 0
    then (do object ← object_identifier tag.body; ok (record s { monitored = some object }))
    else if is_depth s.depth 2 && tag.number == 0
    then ok (record s { property_identifier = some (from_bytes tag.body) })
    else if is_depth s.depth 2 && tag.number == 1
    then ok (record s { array_index = some (from_bytes tag.body) })
    else ok s

-- The property-value [2] of a monitored property, up to its closing tag.
unfoldable pub monitored_value : Octets → Notification → ℕ → Result (Turn Notification)
monitored_value octets s position = do
  (content, after) ← constructed_body octets position
  ok (
      go_on after (record s {
        values =
            s.values
            ++ record {
              monitored = s.monitored;
              property_identifier = s.property_identifier;
              array_index = s.array_index;
              content = content;
            }
              ∷ [];
        array_index = none;
      }))

unfoldable pub cov_turn_of : Kind → Octets → Notification → Tag → Result (Turn Notification)
unfolding monitored_value inward outward notification_field
cov_turn_of open_tag octets s tag =
    if is_depth s.depth 2 && tag.number == 2
    then monitored_value octets s tag.next
    else ok (go_on tag.next (record s { depth = inward s.depth }))
cov_turn_of close_tag octets s tag = ok (go_on tag.next (record s { depth = outward s.depth }))
cov_turn_of value octets s tag =
    if not tag.is_context
    then ok (go_on tag.next s)
    else (do s' ← notification_field s tag; ok (go_on tag.next s'))

unfoldable pub cov_turn : Octets → Notification → Tag → Result (Turn Notification)
unfolding cov_turn_of
cov_turn octets s tag = cov_turn_of tag.kind octets s tag

-- `CovNotificationMultiple.__init__`, from the service parameters.
unfoldable pub notification_of : Octets → Result Notification
unfolding cov_turn
notification_of octets = scan octets (cov_turn octets) 0 empty_notification

abbrev pub parameters_of : Frame → Octets
parameters_of frame =
    if is_type (pdu_type frame) pdu_confirmed_request
    then drop 4 frame.payload
    else drop 2 frame.payload

unfoldable pub cov_notification_multiple : Frame → Result Notification
cov_notification_multiple frame = notification_of (parameters_of frame)

-- `monitored == object_identifier and identifier == property_identifier`
abbrev pub is_monitored : Monitored → ObjectId → ℕ → Bool
is_monitored m object property =
    option_eq.beq m.monitored (some object) && option_eq.beq m.property_identifier (some property)

module _ {Text Real : Type 0} (platform : Platform Text Real) where
  unfoldable pub monitored_in : List Monitored → ObjectId → ℕ → Result (Option (Value Text Real))
  monitored_in [] object property = ok none
  monitored_in (m ∷ values) object property =
      let rest = monitored_in values object property in
      if is_monitored m object property
      then (do v ← decode_application platform m.content; ok (some v))
      else rest

  -- `CovNotificationMultiple.value`
  unfoldable pub cov_value : Notification → ObjectId → ℕ → Result (Option (Value Text Real))
  unfolding monitored_in
  cov_value n object property = monitored_in n.values object property
