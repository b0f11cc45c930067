-- ===== src/Python.antt =====
-- What the source uses of Python itself: octet strings (`bytes`) with their indexing and slices,
-- big-endian integers, `struct` formats, and exceptions as values.
pub mod Bytes
pub mod Cursor
pub mod Dict
pub mod Ends
use bacnet_profile_example_b.Base.{
  ℕ, zero, suc, ◌+◌, ◌-◌, ◌*◌, ◌/◌, ◌%◌, ◌^◌, ◌<◌, Bool, true, false, Option, none, some, List, [],
  ◌∷◌, ◌++◌, ◌≡◌, refl, ◌&&◌, length, get_elem?, take, drop, ltb, ◌==◌, if◌then◌else◌,
}

abbrev pub Octets : Type 0
Octets = List ℕ

abbrev pub IsByte : ℕ → Type 0
IsByte b = b < 256

-- The exceptions that the modelled code can raise (`struct.error` is `struct_error`).
pub data Exception : Type 0 where
  index_error struct_error value_error overflow_error type_error key_error : Exception

-- The outcome of a call. `out_of_fuel` is no Python outcome: a loop of the model used up its fuel.
pub data Result {ℓ} (A : Type ℓ) : Type ℓ where
  out_of_fuel : Result A
  raised : Exception → Result A
  ok : A → Result A

infixl 5 ◌>>=◌ ◌>>◌
abbrev pub ◌>>=◌ {ℓ κ} : {A : Type ℓ} {B : Type κ} → Result A → (A → Result B) → Result B
raised e >>= rest = raised e
out_of_fuel >>= rest = out_of_fuel
ok value >>= rest = rest value

abbrev pub ◌>>◌ {ℓ} : {B : Type ℓ} → Result (Unit {0}) → Result B → Result B
m >> k = m >>= λ _. k

-- `except (IndexError, struct.error): return None`; any other exception goes on.
abbrev pub none_on_malformed {ℓ} : {A : Type ℓ} → Result (Option A) → Result (Option A)
none_on_malformed (ok a) = ok a
none_on_malformed (raised index_error) = ok none
none_on_malformed (raised struct_error) = ok none
none_on_malformed (raised e) = raised e
none_on_malformed out_of_fuel = out_of_fuel

-- `octets[position]`
abbrev pub found {ℓ} : {A : Type ℓ} → Option A → Result A
found none = raised index_error
found (some a) = ok a

unfoldable pub index : Octets → ℕ → Result ℕ
index octets position = found (get_elem? octets position)

-- `octets[start:end]`, which stops at the end of the string.
unfoldable pub slice : Octets → ℕ → ℕ → Octets
slice octets start end = take (end - start) (drop start octets)

unfoldable pub all_bytes : Octets → Bool
all_bytes [] = true
all_bytes (b ∷ bs) = ltb b 256 && all_bytes bs

-- `bytes([...])`
unfoldable pub bytes : List ℕ → Result Octets
unfolding all_bytes
bytes xs = if all_bytes xs then ok xs else raised value_error

-- The `n` octets of `value`, most significant first.
unfoldable pub big_endian : ℕ → ℕ → Octets
big_endian zero value = []
big_endian (suc n) value = big_endian n (value / 256) ++ value % 256 ∷ []

-- `value.to_bytes(n, "big")`
unfoldable pub to_bytes : ℕ → ℕ → Result Octets
unfolding big_endian
to_bytes n value =
    if ltb value (2 ^ (8 * n)) then ok (big_endian n value) else raised overflow_error

-- `struct.pack` of one unsigned field of `n` octets: `>B`, `>H`, `>I`.
unfoldable pub pack : ℕ → ℕ → Result Octets
unfolding big_endian
pack n value = if ltb value (2 ^ (8 * n)) then ok (big_endian n value) else raised struct_error

unfoldable pub from_bytes_onto : ℕ → Octets → ℕ
from_bytes_onto acc [] = acc
from_bytes_onto acc (b ∷ bs) = from_bytes_onto (acc * 256 + b) bs

-- `int.from_bytes(octets, "big")`
unfoldable pub from_bytes : Octets → ℕ
unfolding from_bytes_onto
from_bytes octets = from_bytes_onto 0 octets

-- `struct.unpack` of one unsigned field of `n` octets from a buffer that must have that size.
unfoldable pub unpack : ℕ → Octets → Result ℕ
unfolding from_bytes
unpack n octets = if length octets == n then ok (from_bytes octets) else raised struct_error

-- `b"".join(parts)`
abbrev pub join : List Octets → Octets
join [] = []
join (part ∷ parts) = part ++ join parts
