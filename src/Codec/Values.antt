-- ===== src/Codec/Values.antt =====
-- wiretest/codec.py, the encoders of signed numbers, bit strings, dates, text and floating point,
-- and `decode_application` with what calls it.
use bacnet_profile_example_b.Base.{
  ℕ, zero, suc, ◌+◌, ◌-◌, ◌*◌, ◌/◌, ◌%◌, ◌^◌, bit_and, bit_or, Bool, not, ◌&&◌, ◌||◌, Option, none,
  some, List, [], ◌∷◌, ◌++◌, length, get_elem?, set, take, drop, replicate, ltb, leb, ◌==◌,
  if◌then◌else◌,
}
use bacnet_profile_example_b.Base.Bits.{shl}
use bacnet_profile_example_b.Base.Int.{ℤ, pos, negsuc}
use bacnet_profile_example_b.Python.{
  Octets, Result, ok, raised, value_error, struct_error, ◌>>=◌, index, slice, bytes, big_endian,
  from_bytes,
}
use bacnet_profile_example_b.Platform.{Platform}
use bacnet_profile_example_b.Codec.Constants.{
  tag_null, tag_boolean, tag_unsigned, tag_signed, tag_real, tag_double, tag_character_string,
  tag_bit_string, tag_enumerated, tag_object_identifier, service_reinitialize_device,
}
use bacnet_profile_example_b.Codec.Encode.{context_octet, context_unsigned}
use bacnet_profile_example_b.Codec.Requests.{confirmed_request}
use bacnet_profile_example_b.Codec.Tag.{Tag, value, read_tag}
use bacnet_profile_example_b.Codec.Decode.{ObjectId, is_kind, object_identifier}
use bacnet_profile_example_b.Codec.Scan.{Turn, go_on, scan}

-- `-(1 << (8 * n - 1)) <= value < (1 << (8 * n - 1))`
unfoldable pub in_signed_range : ℕ → ℤ → Bool
in_signed_range n (pos k) = ltb k (2 ^ (8 * n - 1))
in_signed_range n (negsuc k) = leb (k + 1) (2 ^ (8 * n - 1))

-- `value.to_bytes(n, "big", signed=True)` of a value in that range: two's complement.
unfoldable pub twos_complement : ℕ → ℤ → Octets
twos_complement n (pos k) = big_endian n k
twos_complement n (negsuc k) = big_endian n (2 ^ (8 * n) - (k + 1))

unfoldable pub signed_octets_of : List ℕ → ℤ → Result Octets
signed_octets_of [] v = raised value_error
signed_octets_of (n ∷ lengths) v =
    if in_signed_range n v then ok (twos_complement n v) else signed_octets_of lengths v

unfoldable pub signed_octets : ℤ → Result Octets
unfolding signed_octets_of
signed_octets v = signed_octets_of (1 ∷ 2 ∷ 3 ∷ 4 ∷ []) v

-- `int.from_bytes(octets, "big", signed=True)`
unfoldable pub from_bytes_signed : Octets → ℤ
from_bytes_signed octets =
    let n = length octets in
    let raw = from_bytes octets in
    if ltb raw (2 ^ (8 * n - 1)) || n == 0 then pos raw else negsuc (2 ^ (8 * n) - raw - 1)

unfoldable pub application_signed : ℤ → Result Octets
application_signed v = do
  body ← signed_octets v
  head ← bytes (bit_or 0x30 (length body) ∷ [])
  ok (head ++ body)

unfoldable pub context_signed : ℕ → ℤ → Result Octets
context_signed tag v = do
  body ← signed_octets v
  head ← context_octet tag (length body)
  ok (head ++ body)

-- `octets[i] |= mask`
abbrev pub or_at : Octets → ℕ → ℕ → Octets
or_at octets i mask = elim (get_elem? octets i) [
  | none ↦ octets
  | some b ↦ set octets i (bit_or b mask)
]

-- The loop over the bits, from bit `position` on.
unfoldable pub set_bits : ℕ → List Bool → Octets → Octets
set_bits position [] octets = octets
set_bits position (bit ∷ bits) octets =
    set_bits (position + 1) bits
      (if bit then or_at octets (position / 8) (0x80 / 2 ^ (position % 8)) else octets)

-- The number of unused bits, and the bits.
unfoldable pub bit_string_body : List Bool → Octets
unfolding set_bits
bit_string_body bits =
    let size = (length bits + 7) / 8 in
    (size * 8 - length bits) ∷ set_bits 0 bits (replicate size 0)

unfoldable pub application_bit_string : List Bool → Result Octets
unfolding bit_string_body
application_bit_string bits = do
  body ← bytes (bit_string_body bits)
  head ← bytes (bit_or 0x80 (length body) ∷ [])
  ok (head ++ body)

unfoldable pub context_bit_string : ℕ → List Bool → Result Octets
context_bit_string tag bits = do
  octets ← application_bit_string bits
  head ← context_octet tag (length (drop 1 octets))
  ok (head ++ drop 1 octets)

unfoldable pub status_flags : List Bool → Result Octets
status_flags bits = application_bit_string bits

-- A year before 1900 is no octet.
unfoldable pub application_date : ℕ → ℕ → ℕ → ℕ → Result Octets
application_date year month day weekday =
    if ltb year 1900
    then raised value_error
    else bytes (0xa4 ∷ (year - 1900) ∷ month ∷ day ∷ weekday ∷ [])

unfoldable pub application_time : ℕ → ℕ → ℕ → ℕ → Result Octets
application_time hour minute second hundredths =
    bytes (0xb4 ∷ hour ∷ minute ∷ second ∷ hundredths ∷ [])

-- `bool(octet & (0x80 >> position)) for position in range(8)`, from `position` on.
unfoldable pub bits_from : ℕ → ℕ → ℕ → List Bool
bits_from octet zero position = []
bits_from octet (suc n) position =
    not (bit_and octet (0x80 / 2 ^ position) == 0) ∷ bits_from octet n (position + 1)

unfoldable pub octet_bits : ℕ → List Bool
unfolding bits_from
octet_bits octet = bits_from octet 8 0

unfoldable pub all_bits : Octets → List Bool
all_bits [] = []
all_bits (octet ∷ octets) = octet_bits octet ++ all_bits octets

-- `bits[:len(bits) - unused]`, where a negative end counts from the end of the list.
unfoldable pub without_unused : List Bool → ℕ → List Bool
without_unused bits unused =
    if leb unused (length bits)
    then take (length bits - unused) bits
    else take (length bits - (unused - length bits)) bits

unfoldable pub decode_bits : Octets → Result (List Bool)
unfolding all_bits octet_bits without_unused
decode_bits body = do unused ← index body 0; ok (without_unused (all_bits (drop 1 body)) unused)

-- The Python values that `decode_application` returns.
pub data Value (Text Real : Type 0) : Type 0 where
  null : Value Text Real
  boolean : Bool → Value Text Real
  integer : ℤ → Value Text Real
  real : Real → Value Text Real
  text : Text → Value Text Real
  bit_string : List Bool → Value Text Real
  object : ObjectId → Value Text Real
  raw : Octets → Value Text Real

module _ {Text Real : Type 0} (platform : Platform Text Real) where
  open platform use {encode, decode, pack_float, unpack_float, unpack_double}

  unfoldable pub application_real : Real → Result Octets
  application_real v = do body ← pack_float v; ok (0x44 ∷ body)

  unfoldable pub context_real : ℕ → Real → Result Octets
  context_real tag v = do head ← context_octet tag 4; body ← pack_float v; ok (head ++ body)

  -- Character set 0 (UTF-8) and the text.
  abbrev pub text_body : Text → Octets
  text_body t = 0x00 ∷ encode t

  unfoldable pub application_character_string : Text → Result Octets
  application_character_string t =
      let body = text_body t in
      if ltb (length body) 5
      then (do head ← bytes (bit_or 0x70 (length body) ∷ []); ok (head ++ body))
      else (do head ← bytes (0x75 ∷ length body ∷ []); ok (head ++ body))

  unfoldable pub context_character_string : ℕ → Text → Result Octets
  context_character_string tag t =
      let body = text_body t in
      if ltb (length body) 5
      then (do head ← context_octet tag (length body); ok (head ++ body))
      else (do
        head ← bytes (bit_or (bit_or (shl tag 4) 0x08) 5 ∷ length body ∷ [])
        ok (head ++ body))

  -- The optional password [1] of a ReinitializeDevice.
  unfoldable pub password_octets : Option Text → Result Octets
  password_octets none = ok []
  password_octets (some t) =
      let body = text_body t in
      if ltb (length body) 5
      then (do head ← bytes (bit_or 0x18 (length body) ∷ []); ok (head ++ body))
      else (do head ← bytes (0x1d ∷ length body ∷ []); ok (head ++ body))

  unfoldable pub reinitialize_device_request : ℕ → ℕ → Option Text → Result Octets
  unfolding password_octets
  reinitialize_device_request invoke_id state password = do
    first ← context_unsigned 0 state
    second ← password_octets password
    confirmed_request invoke_id service_reinitialize_device (first ++ second)

  unfoldable pub character_string : Octets → Result (Option Text)
  character_string [] = ok none
  character_string (b ∷ octets) = do
    tag ← read_tag (b ∷ octets) 0
    ok (
        if tag.is_context || not (tag.number == 7) || length tag.body == 0
        then none
        else some (decode (drop 1 tag.body)))

  -- The branches on the tag number of an application-tagged primitive.
  unfoldable pub decode_primitive : ℕ → Octets → Result (Value Text Real)
  unfolding decode_bits from_bytes_signed
  decode_primitive number body =
      if number == tag_null
      then ok null
      else if number == tag_boolean
      then (do b ← index body 0; ok (boolean (not (b == 0))))
      else if number == tag_unsigned || number == tag_enumerated
      then ok (integer (pos (from_bytes body)))
      else if number == tag_signed
      then ok (integer (from_bytes_signed body))
      else if number == tag_real
      then (if length body == 4 then ok (real (unpack_float body)) else raised struct_error)
      else if number == tag_double
      then (if length body == 8 then ok (real (unpack_double body)) else raised struct_error)
      else if number == tag_character_string
      then ok (text (decode (drop 1 body)))
      else if number == tag_bit_string
      then (do bits ← decode_bits body; ok (bit_string bits))
      else if number == tag_object_identifier
      then (do id ← object_identifier body; ok (object id))
      else ok (raw body)

  unfoldable pub decode_application : Octets → Result (Value Text Real)
  unfolding decode_primitive
  decode_application [] = ok null
  decode_application (b ∷ octets) = do
    tag ← read_tag (b ∷ octets) 0
    if tag.is_context || not (is_kind tag.kind value)
        then ok null
        else decode_primitive tag.number tag.body

  -- Of each tag the octets from its start to its end are decoded.
  unfoldable pub decoded_turn :
      Octets → ℕ × List (Value Text Real) → Tag → Result (Turn (ℕ × List (Value Text Real)))
  decoded_turn octets (start, values) tag =
      if is_kind tag.kind value && not tag.is_context
      then (do
        v ← decode_application (slice octets start tag.next)
        ok (go_on tag.next (tag.next, values ++ v ∷ [])))
      else ok (go_on tag.next (tag.next, values))

  unfoldable pub decoded_values : Octets → Result (List (Value Text Real))
  unfolding decoded_turn
  decoded_values octets = do (_, values) ← scan octets (decoded_turn octets) 0 (0, []); ok values
