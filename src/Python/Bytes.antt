-- ===== src/Python/Bytes.antt =====
-- Big-endian integers: what is packed is unpacked again, and fits its octets.
use bacnet_profile_example_b.Base.{
  ℕ, zero, suc, ◌+◌, ◌*◌, ◌/◌, ◌%◌, ◌^◌, ◌<◌, [], ◌∷◌, ◌++◌, ◌≡◌, refl, ◌∙◌, arith, length,
  length-append, All, All-append, lt→ltb,
}
use bacnet_profile_example_b.Python.{
  Octets, IsByte, ok, big_endian, pack, from_bytes_onto, from_bytes, unpack,
}
use native.Mathlib.Nat.{pow-suc}

pub length-big_endian : (n value : ℕ) → length (big_endian n value) ≡ n
unfolding big_endian
length-big_endian zero value = refl
length-big_endian (suc n) value = omega (
  arith,
  length-append (big_endian n (value / 256)) (value % 256 ∷ []),
  length-big_endian n (value / 256),
)

pub big_endian-IsByte : (n value : ℕ) → All IsByte (big_endian n value)
unfolding big_endian
big_endian-IsByte zero value = tt
big_endian-IsByte (suc n) value =
    All-append IsByte (big_endian n (value / 256)) (value % 256 ∷ [])
      (big_endian-IsByte n (value / 256)) (omega arith)

from_bytes_onto-append :
    (acc : ℕ) (xs ys : Octets)
    → from_bytes_onto acc (xs ++ ys) ≡ from_bytes_onto (from_bytes_onto acc xs) ys
unfolding from_bytes_onto
from_bytes_onto-append acc [] ys = refl
from_bytes_onto-append acc (x ∷ xs) ys = from_bytes_onto-append (acc * 256 + x) xs ys

-- What `n` octets can hold is read back.
pub from_bytes-big_endian :
    (n value : ℕ) → value < 256 ^ n → from_bytes (big_endian n value) ≡ value
unfolding from_bytes big_endian
from_bytes-big_endian zero value h = omega arith
from_bytes-big_endian (suc n) value h =
    let shorter : value / 256 < 256 ^ n = omega (arith, pow-suc 256 n) in
    from_bytes_onto-append 0 (big_endian n (value / 256)) (value % 256 ∷ [])
    ∙ omega (arith, from_bytes-big_endian n (value / 256) shorter)

pub pack-eq : (n value : ℕ) → value < 2 ^ (8 * n) → pack n value ≡ ok (big_endian n value)
unfolding pack
pack-eq n value h = rw (lt→ltb value (2 ^ (8 * n)) h)

pub unpack-eq :
    (n : ℕ) (octets : Octets) → length octets ≡ n → unpack n octets ≡ ok (from_bytes octets)
unfolding unpack
unpack-eq n octets h = ground (arith, h)
