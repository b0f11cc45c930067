-- ===== src/Codec/Tagged.antt =====
-- The tagged encoding of clause 20.2.1, stated on its own: the octets that carry a body under a tag
-- number and class. The encoders write the short form, `tagged`; `read_tag` also reads the others.
pub mod Read
use bacnet_profile_example_b.Base.{
  ℕ, ◌+◌, ◌*◌, ◌<◌, ◌&&◌, not, ◌==◌, ◌≡◌, Bool, true, false, List, [], ◌∷◌, ◌++◌, length, ltb,
  if◌then◌else◌,
}
use bacnet_profile_example_b.Python.{Octets, big_endian}

abbrev pub class_bit : Bool → ℕ
class_bit true = 8
class_bit false = 0

abbrev pub first_octet : ℕ → Bool → ℕ → ℕ
first_octet number context low = number * 16 + class_bit context + low

-- A primitive: the length is in the first octet, in one more, or in two more behind 254.
unfoldable pub tagged : ℕ → Bool → Octets → Octets
tagged number context body =
    if ltb (length body) 5
    then first_octet number context (length body) ∷ body
    else if ltb (length body) 254
    then first_octet number context 5 ∷ length body ∷ body
    else first_octet number context 5 ∷ 254 ∷ (big_endian 2 (length body) ++ body)

abbrev pub opened : ℕ → Octets
opened number = first_octet number true 6 ∷ []

abbrev pub closed : ℕ → Octets
closed number = first_octet number true 7 ∷ []

-- The same with the tag number in the octet behind the first, as a number from 15 on has it.
unfoldable pub extended_tagged : ℕ → Bool → Octets → Octets
extended_tagged number context body =
    if ltb (length body) 5
    then first_octet 15 context (length body) ∷ number ∷ body
    else if ltb (length body) 254
    then first_octet 15 context 5 ∷ number ∷ length body ∷ body
    else first_octet 15 context 5 ∷ number ∷ 254 ∷ (big_endian 2 (length body) ++ body)

-- The complete tags that hold a value: their number, class, value octets and encoding.
pub data Encoded : ℕ → Bool → Octets → Octets → Type 0 where
  short_tag :
      (n : ℕ) (c : Bool) (body : Octets)
      → n < 15
      → (not c && n == 1) ≡ false
      → length body < 65536
      → Encoded n c body (tagged n c body)
  -- An application BOOLEAN has its value, 0 or 1, in the length field.
  boolean_tag : (b : ℕ) → b < 2 → Encoded 1 false (b ∷ []) (first_octet 1 false b ∷ [])
  extended_tag :
      (n : ℕ) (c : Bool) (body : Octets)
      → 14 < n
      → length body < 65536
      → Encoded n c body (extended_tagged n c body)

-- The opening and the closing tag of a number.
pub data Bracket : Octets → Octets → Type 0 where
  short_bracket : (n : ℕ) → n < 15 → Bracket (opened n) (closed n)
  extended_bracket :
      (n : ℕ) → 14 < n → Bracket (first_octet 15 true 6 ∷ n ∷ []) (first_octet 15 true 7 ∷ n ∷ [])
