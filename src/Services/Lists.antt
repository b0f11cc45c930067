-- ===== src/Services/Lists.antt =====
-- wiretest/services.py, ReadRange and the records of an Event Log.
use bacnet_profile_example_b.Base.{
  ℕ, not, ◌&&◌, bit_or, Option, none, some, List, [], ◌∷◌, ◌++◌, length, ◌==◌, if◌then◌else◌,
}
use bacnet_profile_example_b.Base.Eq.{nat_eq}
use bacnet_profile_example_b.Python.{
  Octets, Result, ok, ◌>>=◌, bytes, slice, from_bytes, none_on_malformed,
}
use bacnet_profile_example_b.Python.Dict.{Dict, get, put}
use bacnet_profile_example_b.Platform.{Platform}
use bacnet_profile_example_b.Codec.Tag.{Tag, open_tag, value, read_tag}
use bacnet_profile_example_b.Codec.Scan.{Turn, go_on, leave, scan}
use bacnet_profile_example_b.Codec.Decode.{ObjectId, is_kind, object_identifier}
use bacnet_profile_example_b.Codec.Values.{Value, null, decode_application}
use bacnet_profile_example_b.Client.{Answer}
use bacnet_profile_example_b.Services.{complex_ack, constructed_body, constructed_end}
use bacnet_profile_example_b.Services.Requests.{service_read_range}

-- `result_flags` is None (`null`) until it is read.
pub record Range (Text Real : Type 0) : Type 0 where
  pub result_flags : Value Text Real
  pub item_count : Option ℕ
  pub item_data : Octets

abbrev pub empty_range : {Text Real : Type 0} → Range Text Real
empty_range = record { result_flags = null; item_count = none; item_data = [] }

module _ {Text Real : Type 0} (platform : Platform Text Real) where
  unfoldable pub range_turn : Octets → Range Text Real → Tag → Result (Turn (Range Text Real))
  range_turn apdu r tag =
      if tag.is_context && is_kind tag.kind value && tag.number == 3
      then (do
        head ← bytes (bit_or 0x80 (length tag.body) ∷ [])
        flags ← decode_application platform (head ++ tag.body)
        ok (go_on tag.next (record r { result_flags = flags })))
      else if tag.is_context && is_kind tag.kind value && tag.number == 4
      then ok (go_on tag.next (record r { item_count = some (from_bytes tag.body) }))
      else if tag.is_context && is_kind tag.kind open_tag && tag.number == 5
      then (do
        (items, after) ← constructed_body apdu tag.next
        ok (go_on after (record r { item_data = items })))
      else if is_kind tag.kind open_tag
      then (do after ← constructed_end apdu tag.next; ok (go_on after r))
      else ok (go_on tag.next r)

  unfoldable pub range_of : Octets → Result (Option (Range Text Real))
  unfolding range_turn
  range_of apdu = do r ← scan apdu (range_turn apdu) 3 empty_range; ok (some r)

  abbrev pub range_or_none : Option Octets → Result (Option (Range Text Real))
  range_or_none none = ok none
  range_or_none (some apdu) = none_on_malformed (range_of apdu)

  unfoldable pub parse_read_range_ack : Option Answer → Result (Option (Range Text Real))
  parse_read_range_ack answer = do
    apdu ← complex_ack answer (some service_read_range)
    range_or_none apdu

-- `_notification_fields`
unfoldable pub field_turn : Octets → Dict ℕ Octets → Tag → Result (Turn (Dict ℕ Octets))
field_turn octets fields tag =
    if is_kind tag.kind open_tag
    then (do after ← constructed_end octets tag.next; ok (go_on after fields))
    else if tag.is_context && is_kind tag.kind value
    then ok (go_on tag.next (put fields tag.number tag.body))
    else ok (go_on tag.next fields)

unfoldable pub notification_fields : Octets → Result (Dict ℕ Octets)
unfolding field_turn
notification_fields octets = scan octets (field_turn octets) 0 []

pub record LoggedNotification : Type 0 where
  pub notification : Octets
  pub process_identifier : ℕ
  pub initiating_device : Option ObjectId
  pub event_object : Option ObjectId
  pub from_state : Option ℕ
  pub to_state : Option ℕ

pub data LogDatum : Type 0 where
  log_status : Octets → LogDatum
  logged : LoggedNotification → LogDatum
  time_change : LogDatum

pub record LogRecord : Type 0 where
  pub timestamp : Octets
  pub datum : LogDatum

abbrev pub number_or_zero : Option Octets → ℕ
number_or_zero none = 0
number_or_zero (some octets) = from_bytes octets

abbrev pub number_if : Option Octets → Option ℕ
number_if none = none
number_if (some octets) = some (from_bytes octets)

abbrev pub object_if : Option Octets → Result (Option ObjectId)
object_if none = ok none
object_if (some octets) = do object ← object_identifier octets; ok (some object)

unfoldable pub logged_notification : Octets → Result LoggedNotification
logged_notification notification = do
  fields ← notification_fields notification
  device ← object_if (get fields 1)
  object ← object_if (get fields 2)
  ok (record {
    notification = notification;
    process_identifier = number_or_zero (get fields 0);
    initiating_device = device;
    event_object = object;
    from_state = number_if (get fields 10);
    to_state = number_if (get fields 11);
  })

-- The choice inside [1]: what it holds, and the position of what follows it.
unfoldable pub log_datum : Octets → Tag → Result (LogDatum × ℕ)
unfolding logged_notification
log_datum item_data choice =
    if choice.number == 0 && is_kind choice.kind value
    then ok (log_status choice.body, choice.next)
    else if choice.number == 1 && is_kind choice.kind open_tag
    then (do
      end ← constructed_end item_data choice.next
      n ← logged_notification (slice item_data choice.next end)
      ok (logged n, end))
    else ok (time_change, choice.next)

-- One record, from behind the opening tag of its timestamp.
unfoldable pub log_record : Octets → ℕ → Result (LogRecord × ℕ)
unfolding log_datum
log_record item_data start = do
  stamped ← constructed_end item_data start
  opened ← read_tag item_data stamped
  choice ← read_tag item_data opened.next
  (datum, position) ← log_datum item_data choice
  closed ← read_tag item_data position
  ok (record { timestamp = slice item_data start stamped; datum = datum }, closed.next)

unfoldable pub log_turn : Octets → List LogRecord → Tag → Result (Turn (List LogRecord))
unfolding log_record
log_turn item_data records tag =
    if not (tag.is_context && tag.number == 0 && is_kind tag.kind open_tag)
    then ok (leave records)
    else (do (r, position) ← log_record item_data tag.next; ok (go_on position (records ++ r ∷ [])))

unfoldable pub event_log_records : Octets → Result (List LogRecord)
unfolding log_turn
event_log_records item_data = scan item_data (log_turn item_data) 0 []
