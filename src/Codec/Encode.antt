-- ===== src/Codec/Encode.antt =====
-- wiretest/codec.py, the encoders of tagged primitives (without text and floating point).
pub mod Minimal
pub mod Writes
use bacnet_profile_example_b.Base.{
  ℕ, zero, suc, ◌+◌, ◌-◌, ◌*◌, ◌/◌, ◌%◌, ◌^◌, bit_or, Bool, true, false, List, [], ◌∷◌, ◌++◌,
  length, ltb, if◌then◌else◌, replicate,
}
use bacnet_profile_example_b.Base.Bits.{shl}
use bacnet_profile_example_b.Python.{
  Octets, Result, ok, raised, ◌>>=◌, bytes, to_bytes, pack, big_endian, value_error,
}

unfoldable pub object_id : ℕ → ℕ → Result Octets
object_id object_type instance = pack 4 (bit_or (shl object_type 22) instance)

-- The loop over the lengths 1, 2, 3, 4 of `_unsigned_octets`.
unsigned_octets_of : List ℕ → ℕ → Result Octets
unsigned_octets_of [] value = raised value_error
unsigned_octets_of (n ∷ lengths) value =
    if ltb value (2 ^ (8 * n)) then to_bytes n value else unsigned_octets_of lengths value

unfoldable pub unsigned_octets : ℕ → Result Octets
unfolding unsigned_octets_of
unsigned_octets value = unsigned_octets_of (1 ∷ 2 ∷ 3 ∷ 4 ∷ []) value

-- `bytes([(tag << 4) | 0x08 | n])`, the first octet of a context tag.
unfoldable pub context_octet : ℕ → ℕ → Result Octets
context_octet tag n = bytes (bit_or (bit_or (shl tag 4) 0x08) n ∷ [])

unfoldable pub context_unsigned : ℕ → ℕ → Result Octets
context_unsigned tag value = do
  body ← unsigned_octets value
  head ← context_octet tag (length body)
  ok (head ++ body)

unfoldable pub context_enumerated : ℕ → ℕ → Result Octets
context_enumerated tag value = context_unsigned tag value

unfoldable pub context_object_id : ℕ → ℕ → ℕ → Result Octets
context_object_id tag object_type instance = do
  head ← context_octet tag 4
  body ← object_id object_type instance
  ok (head ++ body)

unfoldable pub context_octet_string : ℕ → Octets → Result Octets
context_octet_string tag octets =
    if ltb (length octets) 5
    then (do head ← context_octet tag (length octets); ok (head ++ octets))
    else do
      head ← bytes (bit_or (bit_or (shl tag 4) 0x08) 5 ∷ length octets ∷ [])
      ok (head ++ octets)

unfoldable pub opening : ℕ → Result Octets
opening tag = bytes (bit_or (shl tag 4) 0x0e ∷ [])

unfoldable pub closing : ℕ → Result Octets
closing tag = bytes (bit_or (shl tag 4) 0x0f ∷ [])

unfoldable pub application_unsigned : ℕ → Result Octets
application_unsigned value = do
  body ← unsigned_octets value
  head ← bytes (bit_or 0x20 (length body) ∷ [])
  ok (head ++ body)

unfoldable pub application_enumerated : ℕ → Result Octets
application_enumerated value = do
  body ← unsigned_octets value
  head ← bytes (bit_or 0x90 (length body) ∷ [])
  ok (head ++ body)

abbrev pub application_null : Octets
application_null = 0x00 ∷ []

unfoldable pub application_boolean : Bool → Octets
application_boolean value = (if value then 0x11 else 0x10) ∷ []

unfoldable pub application_object_id : ℕ → ℕ → Result Octets
application_object_id object_type instance = do
  body ← object_id object_type instance
  ok (0xc4 ∷ body)

unfoldable pub application_octet_string : Octets → Result Octets
application_octet_string octets =
    if ltb (length octets) 5
    then (do head ← bytes (bit_or 0x60 (length octets) ∷ []); ok (head ++ octets))
    else if ltb (length octets) 254
    then (do head ← bytes (0x65 ∷ length octets ∷ []); ok (head ++ octets))
    else do size ← pack 2 (length octets); ok (0x65 ∷ 254 ∷ (size ++ octets))

unfoldable pub context_boolean : ℕ → Bool → Result Octets
context_boolean tag value =
    bytes (bit_or (bit_or (shl tag 4) 0x08) 1 ∷ (if value then 1 else 0) ∷ [])
