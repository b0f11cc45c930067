-- ===== src/Codec/Tag.antt =====
-- wiretest/codec.py, `read_tag`, and the loops that run over a string of tags.
pub mod Advances
use bacnet_profile_example_b.Base.{
  ℕ, zero, suc, ◌+◌, bit_and, Bool, true, false, not, ◌&&◌, List, [], ◌∷◌, length, ltb, ◌==◌, ◌≡◌,
  refl, if◌then◌else◌,
}
use bacnet_profile_example_b.Base.Bits.{shr}
use bacnet_profile_example_b.Python.{
  Octets, Result, ok, out_of_fuel, ◌>>=◌, index, slice, unpack, bytes,
}

pub data Kind : Type 0 where
  open_tag close_tag value : Kind

-- The tuple that `read_tag` returns.
pub record Tag : Type 0 where
  pub number : ℕ
  pub is_context : Bool
  pub kind : Kind
  pub body : Octets
  pub next : ℕ

-- An extended tag number stands in the octet behind the first.
unfoldable pub tag_number : Octets → ℕ → ℕ → Result (ℕ × ℕ)
tag_number octets number position =
    if number == 0x0f
    then (do extended ← index octets position; ok (extended, position + 1))
    else ok (number, position)

-- The octet after a length field of 5 holds the length, or says that two or four more octets do.
unfoldable pub extended_length : Octets → ℕ → ℕ → Result (ℕ × ℕ)
extended_length octets extended position =
    if extended == 254
    then (do n ← unpack 2 (slice octets position (position + 2)); ok (n, position + 2))
    else if extended == 255
    then (do n ← unpack 4 (slice octets position (position + 4)); ok (n, position + 4))
    else ok (extended, position)

unfoldable pub tag_length : Octets → ℕ → ℕ → Result (ℕ × ℕ)
tag_length octets length_value position =
    if length_value == 5
    then (do extended ← index octets position; extended_length octets extended (position + 1))
    else ok (length_value, position)

-- The value of a tag: an application BOOLEAN keeps it in the length field.
unfoldable pub tag_value : Octets → ℕ → Bool → ℕ → ℕ → Result Tag
tag_value octets number is_context length_value position =
    if not is_context && number == 1
    then (do
      body ← bytes (length_value ∷ [])
      ok (record {
        number = number;
        is_context = false;
        kind = value;
        body = body;
        next = position;
      }))
    else ok (record {
      number = number;
      is_context = is_context;
      kind = value;
      body = slice octets position (position + length_value);
      next = position + length_value;
    })

-- What stands behind the number of a tag: nothing after an opening or a closing tag, else a length.
unfoldable pub tag_rest : Octets → ℕ → Bool → ℕ → ℕ → Result Tag
tag_rest octets number is_context length_value position =
    if is_context && length_value == 6
    then ok
        (record { number = number; is_context = true; kind = open_tag; body = []; next = position })
    else if is_context && length_value == 7
    then ok (record {
      number = number;
      is_context = true;
      kind = close_tag;
      body = [];
      next = position;
    })
    else do
      (size, start) ← tag_length octets length_value position
      tag_value octets number is_context size start

unfoldable pub read_tag : Octets → ℕ → Result Tag
read_tag octets position = do
  first ← index octets position
  (number, after) ← tag_number octets (shr first 4) (position + 1)
  tag_rest octets number (not (bit_and first 0x08 == 0)) (bit_and first 0x07) after
