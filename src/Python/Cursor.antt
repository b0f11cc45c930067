-- ===== src/Python/Cursor.antt =====
-- Reading at a position: what `octets[p:]` begins with is what indexing and slicing at `p` give.
use bacnet_profile_example_b.Base.{
  ℕ, ◌+◌, ◌-◌, ◌≡◌, ◌∙◌, arith, ◌∷◌, ◌++◌, length, drop, drop-drop, drop-append, take-append,
  get_elem?-drop,
}
use bacnet_profile_example_b.Python.{Octets, ok, index, slice}

module _ (octets : Octets) (p : ℕ) where
  pub index-at : {b : ℕ} {bs : Octets} → drop p octets ≡ b ∷ bs → index octets p ≡ ok b
  unfolding index
  index-at h = rw (get_elem?-drop p octets h)

  pub next-at : {b : ℕ} {bs : Octets} → drop p octets ≡ b ∷ bs → drop (p + 1) octets ≡ bs
  next-at h = rw (drop-drop p 1 (p + 1) octets (omega arith), h)

  pub slice-at :
      (body rest : Octets) (k : ℕ)
      → drop p octets ≡ body ++ rest
      → k ≡ p + length body
      → slice octets p k ≡ body
  unfolding slice
  slice-at body rest k h e = rw h (take-append body rest (k - p) (omega arith))

  pub skip-at :
      (body rest : Octets) (k : ℕ)
      → drop p octets ≡ body ++ rest
      → k ≡ p + length body
      → drop k octets ≡ rest
  skip-at body rest k h e =
      drop-drop p (length body) k octets e
      ∙ rw h (drop-append body rest (length body) (omega arith))
