-- ===== src/Codec/Scan/Fuel.antt =====
-- The loops over tags end: with the fuel that they are given they never run out of it, whatever the
-- octets, because every tag moves the position on.
use bacnet_profile_example_b.Base.{
  ℕ, zero, suc, ◌+◌, ◌≤◌, ◌<◌, arith, length, ltb, ltb→lt, ◌==◌, Bool-cases, inl, inr,
}
use bacnet_profile_example_b.Python.{Octets, Result, Exception, ok}
use bacnet_profile_example_b.Python.Ends.{
  Ends, returns, Malformed, Ends-if, Ends-weaken, Ends-bind, Ends-raising,
}
use bacnet_profile_example_b.Codec.Tag.{Tag}
use bacnet_profile_example_b.Codec.Tag.Advances.{read_tag-Ends}
use bacnet_profile_example_b.Codec.Scan.{
  Turn, go_on, leave, scan_from, scan, deeper, skip_nested_from, skip_nested, nested_body,
  nested_end,
}

-- A round that goes on does so at a later position, and the state keeps `P`.
abbrev pub Forward {ℓ} : {S : Type ℓ} → (S → Type 0) → ℕ → Turn S → Type 0
Forward P position (go_on next s) = (position < next) × P s
Forward P position (leave s) = P s

module _ {ℓ} {S : Type ℓ} (octets : Octets) (body : S → Tag → Result (Turn S)) (P : S → Type 0)
    (E : Exception → Type 0) (widen : (e : Exception) → Malformed e → E e) where
  -- What a round of the loop is asked: it keeps `P`, and goes on only behind the position.
  abbrev pub Rounds : Type ℓ
  Rounds =
      (s : S) (position : ℕ) (tag : Tag)
      → P s
      → position < tag.next
      → Ends (Forward P position) E (body s tag)

  turn-Ends :
      (fuel position : ℕ)
      → ((next : ℕ) (s : S) → position < next → P s → Ends P E (scan_from octets body fuel next s))
      → (t : Turn S) → Forward P position t
      → Ends P E (elim t [ go_on next s' ↦ scan_from octets body fuel next s' | leave s' ↦ ok s' ])
  turn-Ends fuel position ih (go_on next s) f = ih next s f.0 f.1
  turn-Ends fuel position ih (leave s) f = returns f

  pub scan_from-Ends :
      (fuel position : ℕ) (s : S)
      → Rounds
      → length octets ≤ position + fuel
      → P s
      → Ends P E (scan_from octets body fuel position s)
  unfolding scan_from
  scan_from-Ends zero position s round enough p = elim (Bool-cases (ltb position (length octets))) [
    | inl more ↦ absurd (omega (arith, ltb→lt position (length octets) more))
    | inr done ↦ rw (done, scan_from) (returns p)
  ]
  scan_from-Ends (suc fuel) position s round enough p =
      elim (Bool-cases (ltb position (length octets))) [
        | inl more ↦
            rw (more, scan_from)
              (Ends-bind (Ends-raising (read_tag-Ends octets position) widen) λ tag e lt.
                Ends-bind (round s position tag p lt.1) λ t e' f.
                  turn-Ends fuel position
                    (λ next s' lt q. scan_from-Ends fuel next s' round (omega arith) q) t f)
        | inr done ↦ rw (done, scan_from) (returns p)
      ]

  pub scan-Ends_raising :
      (position : ℕ) (s : S) → Rounds → P s → Ends P E (scan octets body position s)
  unfolding scan
  scan-Ends_raising position s round p =
      scan_from-Ends (length octets) position s round (omega arith) p

module _ {ℓ} {S : Type ℓ} (octets : Octets) (body : S → Tag → Result (Turn S))
    (P : S → Type 0) where
  -- A loop over tags ends with the invariant of its rounds, or raises what its rounds raise.
  pub scan-Ends :
      (position : ℕ) (s : S)
      → Rounds octets body P Malformed (λ e h. h)
      → P s
      → Ends P Malformed (scan octets body position s)
  scan-Ends = scan-Ends_raising octets body P Malformed (λ e h. h)

-- From a position, the closing tag starts no earlier, and the position behind it is further on.
abbrev pub Behind : ℕ → ℕ × ℕ → Type 0
Behind position (start, after) = (position ≤ start) × (start < after)

module _ (octets : Octets) where
  skip_nested_from-Ends :
      (fuel position depth : ℕ)
      → 0 < fuel
      → length octets < position + fuel
      → Ends (Behind position) Malformed (skip_nested_from octets fuel position depth)
  unfolding skip_nested_from
  skip_nested_from-Ends zero position depth some_fuel enough = absurd (omega arith)
  skip_nested_from-Ends (suc fuel) position depth some_fuel enough =
      Ends-bind (read_tag-Ends octets position) λ tag e (inside, lt).
        Ends-if (deeper depth tag.kind == 0) (λ h. returns (omega arith))
          (λ h.
            Ends-weaken
              (skip_nested_from-Ends fuel tag.next (deeper depth tag.kind) (omega arith)
                (omega arith))
              (λ r h. omega arith))

  pub skip_nested-Ends :
      (position : ℕ) → Ends (Behind position) Malformed (skip_nested octets position)
  unfolding skip_nested
  skip_nested-Ends position =
      skip_nested_from-Ends (suc (length octets)) position 1 (omega arith) (omega arith)

  pub nested_body-Ends :
      (position : ℕ)
      → Ends (λ (r : Octets × ℕ). position < r.1) Malformed (nested_body octets position)
  unfolding nested_body
  nested_body-Ends position = Ends-bind (skip_nested-Ends position) λ r e b. returns (omega arith)

  pub nested_end-Ends :
      (position : ℕ) → Ends (λ (r : ℕ). position < r) Malformed (nested_end octets position)
  unfolding nested_end
  nested_end-Ends position = Ends-bind (skip_nested-Ends position) λ r e b. returns (omega arith)
