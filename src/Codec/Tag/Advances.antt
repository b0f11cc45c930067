-- ===== src/Codec/Tag/Advances.antt =====
-- A tag that is read moves the position on, so every loop over tags ends; what `read_tag` can raise.
use bacnet_profile_example_b.Base.{
  ℕ, ◌+◌, ◌≤◌, ◌<◌, Bool, not, arith, length, get_elem?, get_elem?-lt, ◌==◌, ◌&&◌, Option-cases,
  inl, inr,
}
use bacnet_profile_example_b.Base.Bits.{shr}
use bacnet_profile_example_b.Python.{Octets, index, unpack, all_bytes, bytes}
use bacnet_profile_example_b.Python.Ends.{
  Ends, returns, raises, Malformed, Ends-if, Ends-weaken, Ends-bind,
}
use bacnet_profile_example_b.Codec.Tag.{
  Tag, tag_number, extended_length, tag_length, tag_value, tag_rest, read_tag,
}

pub unpack-Ends : (n : ℕ) (bs : Octets) → Ends (λ (v : ℕ). Unit {0}) Malformed (unpack n bs)
unfolding unpack
unpack-Ends n bs = Ends-if (length bs == n) (λ h. returns tt) (λ h. raises tt)

pub bytes-Ends : (bs : Octets) → Ends (λ (v : Octets). Unit {0}) Malformed (bytes bs)
unfolding bytes
bytes-Ends bs = Ends-if (all_bytes bs) (λ h. returns tt) (λ h. raises tt)

module _ (octets : Octets) where
  pub index-Ends : (p : ℕ) → Ends (λ (b : ℕ). p < length octets) Malformed (index octets p)
  unfolding index
  index-Ends p = elim (Option-cases (get_elem? octets p)) [
    | inl missing ↦ rw missing (raises tt)
    | inr (b, there) ↦ rw there (returns (get_elem?-lt octets p there))
  ]

  tag_number-Ends : (n p : ℕ) → Ends (λ (_, q). p ≤ q) Malformed (tag_number octets n p)
  unfolding tag_number
  tag_number-Ends n p =
      Ends-if (n == 0x0f) (λ h. Ends-bind (index-Ends p) λ m e k. returns (omega arith))
        (λ h. returns (omega arith))

  extended_length-Ends : (l p : ℕ) → Ends (λ (_, q). p ≤ q) Malformed (extended_length octets l p)
  unfolding extended_length
  extended_length-Ends l p =
      Ends-if (l == 254) (λ h. Ends-bind (unpack-Ends 2 _) λ m e k. returns (omega arith))
        (λ h.
          Ends-if (l == 255) (λ h. Ends-bind (unpack-Ends 4 _) λ m e k. returns (omega arith))
            (λ h. returns (omega arith)))

  tag_length-Ends : (l p : ℕ) → Ends (λ (_, q). p ≤ q) Malformed (tag_length octets l p)
  unfolding tag_length
  tag_length-Ends l p =
      Ends-if (l == 5)
        (λ h.
          Ends-bind (index-Ends p)
            λ m e k. Ends-weaken (extended_length-Ends m (p + 1)) (λ r h. omega arith))
        (λ h. returns (omega arith))

  tag_value-Ends :
      (n : ℕ) (c : Bool) (m p : ℕ)
      → Ends (λ (t : Tag). p ≤ t.next) Malformed (tag_value octets n c m p)
  unfolding tag_value
  tag_value-Ends n c m p =
      Ends-if (not c && n == 1) (λ h. Ends-bind (bytes-Ends _) λ b e k. returns (omega arith))
        (λ h. returns (omega arith))

  tag_rest-Ends :
      (n : ℕ) (c : Bool) (l p : ℕ)
      → Ends (λ (t : Tag). p ≤ t.next) Malformed (tag_rest octets n c l p)
  unfolding tag_rest
  tag_rest-Ends n c l p =
      Ends-if (c && l == 6) (λ h. returns (omega arith))
        λ h.
          Ends-if (c && l == 7) (λ h. returns (omega arith))
            λ h.
              Ends-bind (tag_length-Ends l p) λ (size, start) e k.
                Ends-weaken (tag_value-Ends n c size start) (λ t h. omega arith)

  -- `read_tag` at any position of any octets returns a tag that begins inside the octets and ends
  -- behind that position, or raises IndexError, struct.error or ValueError.
  pub read_tag-Ends :
      (p : ℕ) → Ends (λ (t : Tag). (p < length octets) × (p < t.next)) Malformed (read_tag octets p)
  unfolding read_tag
  read_tag-Ends p = Ends-bind (index-Ends p) λ b e inside.
      Ends-bind (tag_number-Ends (shr b 4) (p + 1))
        λ (n, after) e k. Ends-weaken (tag_rest-Ends n _ _ after) (λ t h. omega arith)
