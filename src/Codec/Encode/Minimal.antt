-- ===== src/Codec/Encode/Minimal.antt =====
-- `_unsigned_octets`: the shortest big-endian form of a number below 2^32.
use bacnet_profile_example_b.Base.{
  ℕ, ◌+◌, ◌*◌, ◌^◌, ◌≤◌, ◌<◌, [], ◌∷◌, ◌≡◌, ap, arith, length, All, ltb, if◌then◌else◌,
}
use bacnet_profile_example_b.Python.{
  Octets, IsByte, ok, raised, value_error, to_bytes, big_endian, from_bytes_onto, from_bytes,
}
use bacnet_profile_example_b.Python.Bytes.{
  length-big_endian, from_bytes-big_endian, big_endian-IsByte,
}
use bacnet_profile_example_b.Codec.Encode.{unsigned_octets}
use native.Mathlib.Nat.{pow-suc}

-- The number of octets of the shortest form.
abbrev pub octet_count : ℕ → ℕ
octet_count v = if ltb v 256 then 1 else if ltb v 65536 then 2 else if ltb v 16777216 then 3 else 4

unfoldable pub minimal : ℕ → Octets
minimal v = big_endian (octet_count v) v

pub length-minimal : (v : ℕ) → length (minimal v) ≡ octet_count v
unfolding minimal
length-minimal v = length-big_endian (octet_count v) v

pub length-minimal_bounds : (v : ℕ) → (1 ≤ length (minimal v)) × (length (minimal v) ≤ 4)
length-minimal_bounds v = ground (arith, length-minimal v)

pub minimal-IsByte : (v : ℕ) → All IsByte (minimal v)
unfolding minimal
minimal-IsByte v = big_endian-IsByte (octet_count v) v

fits_count : (v : ℕ) → v < 2 ^ 32 → v < 256 ^ octet_count v
fits_count v h = ground arith

pub from_bytes-minimal : (v : ℕ) → v < 2 ^ 32 → from_bytes (minimal v) ≡ v
unfolding minimal
from_bytes-minimal v h = from_bytes-big_endian (octet_count v) v (fits_count v h)

-- The encoder's loop finds that form, and raises ValueError exactly for what needs five octets.
pub unsigned_octets-minimal : (v : ℕ) → v < 2 ^ 32 → unsigned_octets v ≡ ok (minimal v)
unfolding unsigned_octets minimal to_bytes
unsigned_octets-minimal v h = ground arith

pub unsigned_octets_too_large : (v : ℕ) → 2 ^ 32 ≤ v → unsigned_octets v ≡ raised value_error
unfolding unsigned_octets
unsigned_octets_too_large v h = ground arith

mul_mono : (x y p : ℕ) → x ≤ y → x * p ≤ y * p
mul_mono x y p h = grind arith

from_bytes_onto-lt :
    (acc : ℕ) (octets : Octets)
    → All IsByte octets
    → from_bytes_onto acc octets < (acc + 1) * 256 ^ length octets
unfolding from_bytes_onto
from_bytes_onto-lt acc [] h = omega arith
from_bytes_onto-lt acc (b ∷ bs) h = omega (
  arith,
  from_bytes_onto-lt (acc * 256 + b) bs h.1,
  mul_mono (acc * 256 + b + 1) ((acc + 1) * 256) (256 ^ length bs) (omega arith),
  ap (λ (t : ℕ). (acc + 1) * t) (pow-suc 256 (length bs)),
)

minimal-shortest :
    (v : ℕ) (octets : Octets)
    → v < 2 ^ 32
    → All IsByte octets
    → 1 ≤ length octets
    → from_bytes octets ≡ v
    → length (minimal v) ≤ length octets
unfolding from_bytes
minimal-shortest v (a ∷ []) h bytes pos e =
    ground (arith, length-minimal v, from_bytes_onto-lt 0 (a ∷ []) bytes)
minimal-shortest v (a ∷ b ∷ []) h bytes pos e =
    ground (arith, length-minimal v, from_bytes_onto-lt 0 (a ∷ b ∷ []) bytes)
minimal-shortest v (a ∷ b ∷ c ∷ []) h bytes pos e =
    ground (arith, length-minimal v, from_bytes_onto-lt 0 (a ∷ b ∷ c ∷ []) bytes)
minimal-shortest v (a ∷ b ∷ c ∷ d ∷ more) h bytes pos e = omega (arith, length-minimal_bounds v)
minimal-shortest v [] h bytes pos e = absurd (omega arith)

-- For every number below 2^32 `_unsigned_octets` returns octets that read as that number, and no
-- other string of octets that reads as it is shorter, the empty one, which reads as 0, left aside.
pub unsigned_octets-shortest :
    (v : ℕ)
    → v < 2 ^ 32
    → (encoded : Octets) × (unsigned_octets v ≡ ok encoded)
      × All IsByte encoded
      × (from_bytes encoded ≡ v)
      × ((octets : Octets)
          → All IsByte octets
          → 1 ≤ length octets
          → from_bytes octets ≡ v
          → length encoded ≤ length octets)
unsigned_octets-shortest v h = (
  minimal v,
  unsigned_octets-minimal v h,
  minimal-IsByte v,
  from_bytes-minimal v h,
  λ octets bytes pos e. minimal-shortest v octets h bytes pos e,
)
