-- ===== src/Codec/Decode/Reading.antt =====
-- Single steps of the decoders at a position: an object identifier, a number, a value.
use bacnet_profile_example_b.Base.{ℕ, ◌+◌, ◌<◌, bit_and, Bool, true, ◌++◌, ◌≡◌, arith, length, drop}
use bacnet_profile_example_b.Base.Bits.{shr, bit_and-ones}
use bacnet_profile_example_b.Python.{Octets, ok, from_bytes}
use bacnet_profile_example_b.Python.Bytes.{unpack-eq, from_bytes-big_endian}
use bacnet_profile_example_b.Codec.Tag.{Tag, value, read_tag}
use bacnet_profile_example_b.Codec.Tagged.{tagged}
use bacnet_profile_example_b.Codec.Tagged.Read.{read_tag-tagged}
use bacnet_profile_example_b.Codec.Encode.Minimal.{minimal, length-minimal_bounds}
use bacnet_profile_example_b.Codec.Encode.Writes.{
  IsIdentifier, identifier, identifier_octets, length-identifier_octets,
}
use bacnet_profile_example_b.Codec.Constants.{max_instance}
use bacnet_profile_example_b.Codec.Decode.{split_identifier, object_identifier}

pub from_bytes-identifier_octets :
    (t i : ℕ) → IsIdentifier t i → from_bytes (identifier_octets t i) ≡ identifier t i
unfolding identifier_octets
from_bytes-identifier_octets t i h = from_bytes-big_endian 4 (identifier t i) (omega arith)

pub split_identifier-identifier :
    (t i : ℕ) → IsIdentifier t i → split_identifier (identifier t i) ≡ (t, i)
unfolding split_identifier
split_identifier-identifier t i h =
    let high : shr (identifier t i) 22 ≡ t = omega (arith, h.instance_fits) in
    let low : bit_and (identifier t i) max_instance ≡ i =
      omega (arith, h.instance_fits, bit_and-ones 22 (identifier t i)) in
    rw (high, low)

-- The four octets of an object identifier give its type and instance back.
pub object_identifier-octets :
    (t i : ℕ) → IsIdentifier t i → object_identifier (identifier_octets t i) ≡ ok (t, i)
unfolding object_identifier
object_identifier-octets t i h = rw (
  unpack-eq 4 (identifier_octets t i) (length-identifier_octets t i),
  from_bytes-identifier_octets t i h,
  split_identifier-identifier t i h,
)

-- The tag that is read for a context-tagged or application-tagged primitive at `position`.
abbrev pub tag_at : ℕ → ℕ → Bool → Octets → Tag
tag_at position n c body = record {
  number = n;
  is_context = c;
  kind = value;
  body = body;
  next = position + length (tagged n c body);
}

-- What stands at `position`, and what follows it.
abbrev pub Reads : Octets → ℕ → Tag → Octets → Type 0
Reads octets position tag rest = (read_tag octets position ≡ ok tag) × (drop tag.next octets ≡ rest)

module _ (octets : Octets) (position n : ℕ) (c : Bool) (small : n < 15)
    (primitive : (n ≡ 1) → c ≡ true) where
  pub Reads-identifier :
      (t i : ℕ) (rest : Octets)
      → drop position octets ≡ tagged n c (identifier_octets t i) ++ rest
      → Reads octets position (tag_at position n c (identifier_octets t i)) rest
  Reads-identifier t i rest at =
      read_tag-tagged octets position n c (identifier_octets t i) rest small (ground arith)
        (omega (arith, length-identifier_octets t i)) at

  pub Reads-number :
      (v : ℕ) (rest : Octets)
      → drop position octets ≡ tagged n c (minimal v) ++ rest
      → Reads octets position (tag_at position n c (minimal v)) rest
  Reads-number v rest at =
      read_tag-tagged octets position n c (minimal v) rest small (ground arith)
        (omega (arith, length-minimal_bounds v)) at
