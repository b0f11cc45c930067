-- ===== src/Codec/Scan.antt =====
-- The two loops of the decoders. `scan` is `while position < len(octets)` over tags, and
-- `skip_nested` is `while depth` from an opening tag to the closing tag that matches it. Both take
-- fuel; the modules below show that what they are given is enough.
pub mod Fuel
pub mod Steps
pub mod Consumes
use bacnet_profile_example_b.Base.{
  ℕ, zero, suc, ◌+◌, ◌-◌, Bool, true, false, List, length, ltb, ◌==◌, if◌then◌else◌,
}
use bacnet_profile_example_b.Python.{Octets, Result, ok, out_of_fuel, ◌>>=◌, slice}
use bacnet_profile_example_b.Codec.Tag.{Tag, Kind, open_tag, close_tag, value, read_tag}

-- How a round of the loop ends: at the next position, or by `break` or `return`.
pub data Turn {ℓ} (S : Type ℓ) : Type ℓ where
  go_on : ℕ → S → Turn S
  leave : S → Turn S

module _ {ℓ} {S : Type ℓ} (octets : Octets) (body : S → Tag → Result (Turn S)) where
  unfoldable pub scan_from : ℕ → ℕ → S → Result S
  scan_from zero position s = if ltb position (length octets) then out_of_fuel else ok s
  scan_from (suc fuel) position s = elim (ltb position (length octets)) [
    | true ↦ read_tag octets position >>= λ tag. body s tag >>= λ turn. elim turn [
      | go_on next s' ↦ scan_from fuel next s'
      | leave s' ↦ ok s'
    ]
    | false ↦ ok s
  ]

  unfoldable pub scan : ℕ → S → Result S
  unfolding scan_from
  scan position s = scan_from (length octets) position s

unfoldable pub deeper : ℕ → Kind → ℕ
deeper depth open_tag = depth + 1
deeper depth close_tag = depth - 1
deeper depth value = depth

-- Where the matching closing tag starts, and the position behind it.
unfoldable pub skip_nested_from : Octets → ℕ → ℕ → ℕ → Result (ℕ × ℕ)
unfolding deeper
skip_nested_from octets zero position depth = out_of_fuel
skip_nested_from octets (suc fuel) position depth = read_tag octets position >>= λ tag.
    let inside = skip_nested_from octets fuel tag.next (deeper depth tag.kind) in
    if deeper depth tag.kind == 0 then ok (position, tag.next) else inside

-- From just after an opening tag.
unfoldable pub skip_nested : Octets → ℕ → Result (ℕ × ℕ)
skip_nested octets position = skip_nested_from octets (suc (length octets)) position 1

unfoldable pub nested_body : Octets → ℕ → Result (Octets × ℕ)
nested_body octets position = do
  (tag_start, after) ← skip_nested octets position
  ok (slice octets position tag_start, after)

unfoldable pub nested_end : Octets → ℕ → Result ℕ
nested_end octets position = do (_, after) ← skip_nested octets position; ok after
