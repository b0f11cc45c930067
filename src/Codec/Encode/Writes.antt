-- ===== src/Codec/Encode/Writes.antt =====
-- Each encoder writes the tagged encoding of clause 20.2.1.
use bacnet_profile_example_b.Base.{
  ℕ, ◌+◌, ◌*◌, ◌^◌, ◌<◌, bit_or, Bool, true, false, [], ◌∷◌, ◌≡◌, ◌∙◌, arith, length, if◌then◌else◌,
}
use bacnet_profile_example_b.Base.Bits.{shl, bit_or-shl}
use bacnet_profile_example_b.Python.{Octets, ok, bytes, big_endian}
use bacnet_profile_example_b.Python.Bytes.{pack-eq, length-big_endian}
use bacnet_profile_example_b.Codec.Encode.{
  object_id, context_octet, context_unsigned, context_object_id, context_octet_string, opening,
  closing, application_unsigned, application_enumerated, application_object_id,
  application_octet_string, context_boolean,
}
use bacnet_profile_example_b.Codec.Encode.Minimal.{
  minimal, length-minimal_bounds, unsigned_octets-minimal,
}
use bacnet_profile_example_b.Codec.Tagged.{first_octet, tagged, opened, closed}

pub bytes-one : (b : ℕ) → b < 256 → bytes (b ∷ []) ≡ ok (b ∷ [])
unfolding bytes
bytes-one b h = ground arith

pub bytes-two : (a b : ℕ) → a < 256 → b < 256 → bytes (a ∷ b ∷ []) ≡ ok (a ∷ b ∷ [])
unfolding bytes
bytes-two a b h k = ground arith

pub bit_or-class : (tag n : ℕ) → n < 8 → bit_or (bit_or (shl tag 4) 0x08) n ≡ first_octet tag true n
bit_or-class tag n h = rw (bit_or-shl 4 tag 8 (omega arith)) (
    let e : shl tag 4 + 8 ≡ shl (tag * 2 + 1) 3 = omega arith in
    rw e (bit_or-shl 3 (tag * 2 + 1) n h ∙ omega arith))

pub context_octet-eq :
    (tag n : ℕ) → tag < 16 → n < 8 → context_octet tag n ≡ ok (first_octet tag true n ∷ [])
unfolding context_octet
context_octet-eq tag n h k = rw (bit_or-class tag n k) (bytes-one _ (omega arith))

pub opening-eq : (tag : ℕ) → tag < 16 → opening tag ≡ ok (opened tag)
unfolding opening
opening-eq tag h = rw (bit_or-shl 4 tag 14 (omega arith)) (bytes-one _ (omega arith) ∙ ground arith)

pub closing-eq : (tag : ℕ) → tag < 16 → closing tag ≡ ok (closed tag)
unfolding closing
closing-eq tag h = rw (bit_or-shl 4 tag 15 (omega arith)) (bytes-one _ (omega arith) ∙ ground arith)

-- A body of at most four octets has its length in the first octet.
pub tagged-short :
    (n : ℕ) (c : Bool) (body : Octets)
    → length body < 5
    → tagged n c body ≡ first_octet n c (length body) ∷ body
unfolding tagged
tagged-short n c body h = ground arith

pub context_unsigned-eq :
    (tag v : ℕ) → tag < 16 → v < 2 ^ 32 → context_unsigned tag v ≡ ok (tagged tag true (minimal v))
unfolding context_unsigned
context_unsigned-eq tag v h k =
    let (lo, hi) = length-minimal_bounds v in
    rw (
      unsigned_octets-minimal v k,
      context_octet-eq tag (length (minimal v)) h (omega arith),
      tagged-short tag true (minimal v) (omega arith),
    )

-- The object type in the ten high bits, the instance in the 22 low ones.
abbrev pub identifier : ℕ → ℕ → ℕ
identifier object_type instance = object_type * 4194304 + instance

unfoldable pub identifier_octets : ℕ → ℕ → Octets
identifier_octets object_type instance = big_endian 4 (identifier object_type instance)

pub length-identifier_octets : (t i : ℕ) → length (identifier_octets t i) ≡ 4
unfolding identifier_octets
length-identifier_octets t i = length-big_endian 4 (identifier t i)

-- The ranges of a BACnetObjectIdentifier.
pub record IsIdentifier (object_type instance : ℕ) : Type 0 where
  pub type_fits : object_type < 1024
  pub instance_fits : instance < 4194304

pub object_id-eq : (t i : ℕ) → IsIdentifier t i → object_id t i ≡ ok (identifier_octets t i)
unfolding object_id identifier_octets
object_id-eq t i h =
    rw (bit_or-shl 22 t i h.instance_fits) (pack-eq 4 (identifier t i) (omega arith))

pub context_object_id-eq :
    (tag t i : ℕ)
    → tag < 16
    → IsIdentifier t i
    → context_object_id tag t i ≡ ok (tagged tag true (identifier_octets t i))
unfolding context_object_id
context_object_id-eq tag t i h k =
    let size = length-identifier_octets t i in
    rw (
      context_octet-eq tag 4 h (omega arith),
      object_id-eq t i k,
      tagged-short tag true (identifier_octets t i) (omega arith),
      size,
    )

pub application_object_id-eq :
    (t i : ℕ)
    → IsIdentifier t i
    → application_object_id t i ≡ ok (tagged 12 false (identifier_octets t i))
unfolding application_object_id
application_object_id-eq t i k =
    let size = length-identifier_octets t i in
    rw (object_id-eq t i k, tagged-short 12 false (identifier_octets t i) (omega arith), size)

bit_or-application : (tag n : ℕ) → n < 8 → bit_or (shl tag 4) n ≡ first_octet tag false n
bit_or-application tag n h = bit_or-shl 4 tag n (omega arith) ∙ omega arith

pub application_unsigned-eq :
    (v : ℕ) → v < 2 ^ 32 → application_unsigned v ≡ ok (tagged 2 false (minimal v))
unfolding application_unsigned
application_unsigned-eq v k =
    let (lo, hi) = length-minimal_bounds v in
    rw (
      unsigned_octets-minimal v k,
      bit_or-application 2 (length (minimal v)) (omega arith),
      bytes-one (first_octet 2 false (length (minimal v))) (omega arith),
      tagged-short 2 false (minimal v) (omega arith),
    )

pub application_enumerated-eq :
    (v : ℕ) → v < 2 ^ 32 → application_enumerated v ≡ ok (tagged 9 false (minimal v))
unfolding application_enumerated
application_enumerated-eq v k =
    let (lo, hi) = length-minimal_bounds v in
    rw (
      unsigned_octets-minimal v k,
      bit_or-application 9 (length (minimal v)) (omega arith),
      bytes-one (first_octet 9 false (length (minimal v))) (omega arith),
      tagged-short 9 false (minimal v) (omega arith),
    )

-- All three forms of the length, up to what a 16-bit length can say.
pub application_octet_string-eq :
    (octets : Octets)
    → length octets < 65536
    → application_octet_string octets ≡ ok (tagged 6 false octets)
unfolding application_octet_string tagged
application_octet_string-eq octets h = ground (
  arith,
  bit_or-application 6 (length octets),
  bytes-one (first_octet 6 false (length octets)),
  bytes-two 0x65 (length octets),
  pack-eq 2 (length octets),
)

-- A context octet string has no longer form: from 254 octets on it is not the tagged encoding.
pub context_octet_string-eq :
    (tag : ℕ) (octets : Octets)
    → tag < 16
    → length octets < 254
    → context_octet_string tag octets ≡ ok (tagged tag true octets)
unfolding context_octet_string tagged
context_octet_string-eq tag octets h k = ground (
  arith,
  context_octet-eq tag (length octets),
  bit_or-class tag 5,
  bytes-two (first_octet tag true 5) (length octets),
)

pub context_boolean-eq :
    (tag : ℕ) (b : Bool)
    → tag < 16
    → context_boolean tag b ≡ ok (tagged tag true ((if b then 1 else 0) ∷ []))
unfolding context_boolean tagged
context_boolean-eq tag true h =
    rw (bit_or-class tag 1 (omega arith)) (bytes-two _ 1 (omega arith) (omega arith))
context_boolean-eq tag false h =
    rw (bit_or-class tag 1 (omega arith)) (bytes-two _ 0 (omega arith) (omega arith))
