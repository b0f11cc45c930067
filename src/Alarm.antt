-- ===== src/Alarm.antt =====
-- wiretest/alarm.py: time stamps and recipients, the requests of the alarm and management services,
-- and what the decoders of time stamps share.
pub mod Requests
pub mod Notification
pub mod Summaries
use bacnet_profile_example_b.Base.{
  ℕ, bit_or, Bool, Option, none, some, List, [], ◌∷◌, ◌++◌, length, ltb, ◌&&◌, ◌==◌, if◌then◌else◌,
}
use bacnet_profile_example_b.Python.{Octets, Result, ok, ◌>>=◌, bytes}
use bacnet_profile_example_b.Codec.Encode.{
  opening, closing, application_unsigned, application_boolean,
}
use bacnet_profile_example_b.Codec.Requests.{enclosed}
use bacnet_profile_example_b.Codec.Values.{application_bit_string, application_time}
use bacnet_profile_example_b.Codec.Tag.{Tag, open_tag, read_tag}
use bacnet_profile_example_b.Codec.Scan.{nested_end}
use bacnet_profile_example_b.Codec.Decode.{is_kind}

-- (date octets, time octets)
abbrev pub DateTime : Type 0
DateTime = Octets × Octets

-- A BACnetTimeStamp [2] in context tag `tag`.
unfoldable pub context_date_time : ℕ → DateTime → Result Octets
context_date_time tag (date_octets, time_octets) = do
  stamp ← enclosed 2 (0xa4 ∷ (date_octets ++ 0xb4 ∷ time_octets))
  enclosed tag stamp

-- The OCTET STRING of a recipient's address.
unfoldable pub mac_body : Octets → Result Octets
mac_body mac =
    if ltb (length mac) 5
    then (do head ← bytes (bit_or 0x60 (length mac) ∷ []); ok (head ++ mac))
    else (do head ← bytes (0x65 ∷ length mac ∷ []); ok (head ++ mac))

-- (hour, minute, second, hundredths)
abbrev pub TimeOfDay : Type 0
TimeOfDay = ℕ × ℕ × ℕ × ℕ

abbrev pub time_octets_of : TimeOfDay → Result Octets
time_octets_of (hour, minute, second, hundredths) = application_time hour minute second hundredths

unfoldable pub destination :
    Octets → ℕ → Bool → List Bool → ℕ → List Bool → TimeOfDay → TimeOfDay → Result Octets
unfolding mac_body
destination mac process_identifier confirmed transitions network_number valid_days from_time
      to_time =
    do
      address ← mac_body mac
      days ← application_bit_string valid_days
      first ← time_octets_of from_time
      last ← time_octets_of to_time
      network ← application_unsigned network_number
      recipient ← enclosed 1 (network ++ address)
      process ← application_unsigned process_identifier
      bits ← application_bit_string transitions
      ok (
          days
          ++ (first
              ++ (last ++ (recipient ++ (process ++ (application_boolean confirmed ++ bits))))))

-- `_skip_constructed`: the loop of the codec's decoders.
unfoldable pub skip_constructed : Octets → ℕ → Result ℕ
skip_constructed octets position = nested_end octets position

-- The dateTime form of a time stamp, behind its opening tag.
unfoldable pub read_date_time : Octets → ℕ → Result (Option DateTime × ℕ)
read_date_time octets position = do
  date ← read_tag octets position
  time ← read_tag octets date.next
  close ← read_tag octets time.next
  ok (some (date.body, time.body), close.next)

unfoldable pub read_time_stamp_choice : Octets → ℕ → Result (Option DateTime × ℕ)
unfolding read_date_time skip_constructed
read_time_stamp_choice octets position = do
  tag ← read_tag octets position
  if is_kind tag.kind open_tag && tag.number == 2
      then read_date_time octets tag.next
      else if is_kind tag.kind open_tag
      then (do after ← skip_constructed octets tag.next; ok (none, after))
      else ok (none, tag.next)
