-- ===== src/Base/Bits.antt =====
-- The bit operations at variables, as arithmetic: masks, fields and flags.
use Prim.Native.Nat.{
  ℕ, zero, suc, ◌+◌, ◌-◌, ◌*◌, ◌/◌, ◌%◌, ◌^◌, ◌≤◌, ◌<◌, min, max, bit_and, bit_or, digits,
  bit_and-bitwise, bit_or-bitwise,
}
use mathlib.Core.Path.{◌≡◌, refl, ap}
use native.Mathlib.Omega.{arith}
use native.Mathlib.Nat.{pow-suc}

abbrev pub shl : ℕ → ℕ → ℕ
shl x k = x * 2 ^ k

abbrev pub shr : ℕ → ℕ → ℕ
shr x k = x / 2 ^ k

-- A native operation is a fold over binary digits with a fuel; here for any fold.
module _ (last : ℕ → ℕ) (op : ℕ → ℕ → ℕ) where
  -- Fuel beyond the first operand changes nothing.
  digits_fuel :
      (x y more less : ℕ) → x ≤ less → x ≤ more → digits last op more x y ≡ digits last op less x y
  digits_fuel zero y zero zero p q = refl
  digits_fuel zero y zero (suc less) p q = refl
  digits_fuel zero y (suc more) zero p q = refl
  digits_fuel zero y (suc more) (suc less) p q = refl
  digits_fuel (suc x) y zero less p q = absurd (omega arith)
  digits_fuel (suc x) y more zero p q = absurd (omega arith)
  digits_fuel (suc x) y (suc more) (suc less) p q =
      ap (λ high. high * 2 + op (suc x % 2) (y % 2))
        (digits_fuel (suc x / 2) (y / 2) more less (omega arith) (omega arith))

  -- The lowest digit, and the fold over the others.
  digits-halves :
      (x y : ℕ)
      → digits last op (suc x) (suc x) y
        ≡ digits last op (suc x / 2) (suc x / 2) (y / 2) * 2 + op (suc x % 2) (y % 2)
  digits-halves x y =
      ap (λ high. high * 2 + op (suc x % 2) (y % 2))
        (digits_fuel (suc x / 2) (y / 2) x (suc x / 2) (omega arith) (omega arith))

no_bit_and : (y : ℕ) → bit_and zero y ≡ zero
no_bit_and y = bit_and-bitwise zero y

bit_and_halves : (x y : ℕ) → bit_and x y ≡ bit_and (x / 2) (y / 2) * 2 + min (x % 2) (y % 2)
bit_and_halves zero y = omega (no_bit_and (y / 2), no_bit_and y, arith)
bit_and_halves (suc x) y =
    let whole = bit_and-bitwise (suc x) y in
    let high = bit_and-bitwise (suc x / 2) (y / 2) in
    omega (digits-halves (λ rest. zero) min x y, whole, high, arith)

bit_and_none : (x y : ℕ) → x ≤ y → bit_and x zero ≡ zero
bit_and_none zero y h = no_bit_and zero
bit_and_none (suc x) zero h = absurd (omega arith)
bit_and_none (suc x) (suc y) h =
    let high = bit_and_none (suc x / 2) y (omega arith) in
    omega (bit_and_halves (suc x) zero, high, arith)

bit_and-zero : (x : ℕ) → bit_and x zero ≡ zero
bit_and-zero x = bit_and_none x x (omega arith)

no_bit_or : (y : ℕ) → bit_or zero y ≡ y
no_bit_or y = bit_or-bitwise zero y

bit_or_halves : (x y : ℕ) → bit_or x y ≡ bit_or (x / 2) (y / 2) * 2 + max (x % 2) (y % 2)
bit_or_halves zero y = omega (no_bit_or (y / 2), no_bit_or y, arith)
bit_or_halves (suc x) y =
    let whole = bit_or-bitwise (suc x) y in
    let high = bit_or-bitwise (suc x / 2) (y / 2) in
    omega (digits-halves (λ rest. rest) max x y, whole, high, arith)

bit_or_none : (x y : ℕ) → x ≤ y → bit_or x zero ≡ x
bit_or_none zero y h = no_bit_or zero
bit_or_none (suc x) zero h = absurd (omega arith)
bit_or_none (suc x) (suc y) h =
    let high = bit_or_none (suc x / 2) y (omega arith) in
    omega (bit_or_halves (suc x) zero, high, arith)

-- `(a << k) | b` is a sum where `b` has at most k bits.
pub bit_or-shl : (k a b : ℕ) → b < 2 ^ k → bit_or (shl a k) b ≡ shl a k + b
bit_or-shl zero a b h =
    let e : b ≡ 0 = omega arith in rw e (omega (arith, bit_or_none (a * 1) (a * 1) (omega arith)))
bit_or-shl (suc k) a b h =
    let half : a * 2 ^ suc k / 2 ≡ shl a k = rw pow-suc (omega arith) in
    let even : a * 2 ^ suc k % 2 ≡ 0 = rw pow-suc (omega arith) in
    let small : b / 2 < 2 ^ k = omega (arith, pow-suc 2 k) in
    let low : bit_or (a * 2 ^ suc k / 2) (b / 2) ≡ shl a k + b / 2 =
      rw half (bit_or-shl k a (b / 2) small) in
    omega (arith, bit_or_halves (a * 2 ^ suc k) b, low, even, pow-suc 2 k)

pow-two_pos : (k : ℕ) → 0 < 2 ^ k
pow-two_pos zero = omega arith
pow-two_pos (suc k) = omega (arith, pow-suc 2 k, pow-two_pos k)

mod-double : (x p : ℕ) → 0 < p → x % (p * 2) ≡ x / 2 % p * 2 + x % 2
mod-double x p h = grind arith

-- `x & (2^k - 1)` keeps the k low bits.
pub bit_and-ones : (k x : ℕ) → bit_and x (2 ^ k - 1) ≡ x % 2 ^ k
bit_and-ones zero x = omega (arith, bit_and-zero x)
bit_and-ones (suc k) x =
    let half : (2 ^ suc k - 1) / 2 ≡ 2 ^ k - 1 = omega (arith, pow-suc 2 k, pow-two_pos k) in
    let low : bit_and (x / 2) ((2 ^ suc k - 1) / 2) ≡ x / 2 % 2 ^ k =
      rw half (bit_and-ones k (x / 2)) in
    let split : x % 2 ^ suc k ≡ x / 2 % 2 ^ k * 2 + x % 2 =
      rw pow-suc (mod-double x (2 ^ k) (pow-two_pos k)) in
    omega (arith, bit_and_halves x (2 ^ suc k - 1), low, split, pow-suc 2 k, pow-two_pos k)

-- `x & 0x07`, the length field of a tag.
pub bit_and-seven : (x : ℕ) → bit_and x 7 ≡ x % 8
bit_and-seven x = bit_and-ones 3 x

-- `x & 0x08`, the class bit of a tag.
pub bit_and-eight : (x : ℕ) → bit_and x 8 ≡ x / 8 % 2 * 8
bit_and-eight x =
    let bit = bit_and-ones 1 (x / 2 / 2 / 2) in
    let four = bit_and_halves (x / 2) 4 in
    let two = bit_and_halves (x / 2 / 2) 2 in omega (bit_and_halves x 8, four, two, bit, arith)
