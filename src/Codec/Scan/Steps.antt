-- ===== src/Codec/Scan/Steps.antt =====
-- One round of each loop over tags, for any fuel that is enough: the rules by which runs over
-- well-formed octets are put together.
use bacnet_profile_example_b.Base.{
  ℕ, zero, suc, ◌+◌, ◌≤◌, ◌<◌, Bool, false, [], ◌++◌, ◌≡◌, refl, ap, arith, length, length-append,
  drop, lt→ltb, ◌==◌, append_assoc, not, ◌&&◌,
}
use bacnet_profile_example_b.Python.{Octets, Result, ok}
use bacnet_profile_example_b.Python.Cursor.{slice-at, skip-at}
use bacnet_profile_example_b.Python.Ends.{Ends-ok}
use bacnet_profile_example_b.Codec.Tag.{Tag, close_tag, read_tag}
use bacnet_profile_example_b.Codec.Tag.Advances.{read_tag-Ends}
use bacnet_profile_example_b.Codec.Tagged.{
  tagged, opened, closed, Encoded, short_tag, Bracket, short_bracket,
}
use bacnet_profile_example_b.Codec.Tagged.Read.{
  read_tag-Encoded, read_tag-open, read_tag-close, read_tag-closed,
}
use bacnet_profile_example_b.Codec.Scan.{
  Turn, go_on, leave, scan_from, scan, deeper, skip_nested_from, skip_nested, nested_body,
}

module _ {ℓ} {S : Type ℓ} (octets : Octets) (body : S → Tag → Result (Turn S)) where
  -- From `position` in state `s` the loop ends in `r`, on any fuel that is enough.
  abbrev pub Scans : ℕ → S → S → Type ℓ
  Scans position s r =
      (fuel : ℕ) → length octets ≤ position + fuel → scan_from octets body fuel position s ≡ ok r

  pub Scans-end : (position : ℕ) (s : S) → length octets ≤ position → Scans position s s
  unfolding scan_from
  Scans-end position s h zero enough = ground arith
  Scans-end position s h (suc fuel) enough = ground arith

  pub Scans-go_on :
      (position : ℕ) (s s' r : S) (tag : Tag) (next : ℕ)
      → read_tag octets position ≡ ok tag
      → body s tag ≡ ok (go_on next s')
      → position < next
      → Scans next s' r
      → Scans position s r
  unfolding scan_from
  Scans-go_on position s s' r tag next reads turns lt rest zero enough =
      absurd (omega (arith, Ends-ok (read_tag-Ends octets position) reads))
  Scans-go_on position s s' r tag next reads turns lt rest (suc fuel) enough =
      let (inside, _) = Ends-ok (read_tag-Ends octets position) reads in
      rw (lt→ltb position (length octets) inside, scan_from, reads, turns) (rest fuel (omega arith))

  pub Scans-leave :
      (position : ℕ) (s r : S) (tag : Tag)
      → read_tag octets position ≡ ok tag
      → body s tag ≡ ok (leave r)
      → Scans position s r
  unfolding scan_from
  Scans-leave position s r tag reads turns zero enough =
      absurd (omega (arith, Ends-ok (read_tag-Ends octets position) reads))
  Scans-leave position s r tag reads turns (suc fuel) enough =
      let (inside, _) = Ends-ok (read_tag-Ends octets position) reads in
      rw (lt→ltb position (length octets) inside, scan_from, reads, turns)

  pub Scans-scan :
      (position : ℕ) (s r : S) → Scans position s r → scan octets body position s ≡ ok r
  unfolding scan
  Scans-scan position s r run = run (length octets) (omega arith)

-- Octets that are a sequence of complete tags, every opening tag closed: primitives, with application
-- BOOLEANs and extended tag numbers among them, and groups between an opening and a closing tag.
pub data WellNested : Octets → Type 0 where
  empty : WellNested []
  element :
      {octets encoding : Octets} {n : ℕ} {c : Bool} {body : Octets} (rest : Octets)
      → Encoded n c body encoding
      → octets ≡ encoding ++ rest
      → WellNested rest
      → WellNested octets
  bracketed :
      {octets opening closing : Octets} (inner rest : Octets)
      → Bracket opening closing
      → octets ≡ opening ++ (inner ++ (closing ++ rest))
      → WellNested inner
      → WellNested rest
      → WellNested octets

pub primitive :
    {octets : Octets} (n : ℕ) (c : Bool) (body rest : Octets)
    → octets ≡ tagged n c body ++ rest
    → n < 15
    → (not c && n == 1) ≡ false
    → length body < 65536
    → WellNested rest
    → WellNested octets
primitive n c body rest split small no_boolean fits nested =
    element rest (short_tag n c body small no_boolean fits) split nested

pub group :
    {octets : Octets} (n : ℕ) (inner rest : Octets)
    → octets ≡ opened n ++ (inner ++ (closed n ++ rest))
    → n < 15
    → WellNested inner
    → WellNested rest
    → WellNested octets
group n inner rest split small nested_inner nested =
    bracketed inner rest (short_bracket n small) split nested_inner nested

module _ (octets : Octets) where
  -- From `position` at `depth` the loop finds the closing tag, on any fuel that is enough.
  abbrev Skips : ℕ → ℕ → ℕ × ℕ → Type 0
  Skips position depth r =
      (fuel : ℕ)
      → 0 < fuel
      → length octets < position + fuel
      → skip_nested_from octets fuel position depth ≡ ok r

  Skips-step :
      (position depth depth' : ℕ) (r : ℕ × ℕ) (tag : Tag)
      → read_tag octets position ≡ ok tag
      → deeper depth tag.kind ≡ suc depth'
      → Skips tag.next (suc depth') r
      → Skips position depth r
  unfolding skip_nested_from
  Skips-step position depth depth' r tag reads deep rest zero some_fuel enough =
      absurd (omega arith)
  Skips-step position depth depth' r tag reads deep rest (suc fuel) some_fuel enough =
      let (inside, lt) = Ends-ok (read_tag-Ends octets position) reads in
      rw (reads, deep) (ground (arith, rest fuel))

  Skips-done :
      (position : ℕ) (tag : Tag)
      → read_tag octets position ≡ ok tag
      → tag.kind ≡ close_tag
      → Skips position 1 (position, tag.next)
  unfolding skip_nested_from deeper
  Skips-done position tag reads closes zero some_fuel enough = absurd (omega arith)
  Skips-done position tag reads closes (suc fuel) some_fuel enough = rw (reads, closes)

  -- Well-nested octets are passed over at any depth.
  Skips-WellNested :
      {v : Octets} (nested : WellNested v) (position after depth : ℕ) (rest : Octets) (r : ℕ × ℕ)
      → drop position octets ≡ v ++ rest
      → after ≡ position + length v
      → Skips after (suc depth) r
      → Skips position (suc depth) r
  Skips-WellNested empty position after depth rest r at e run =
      let same : after ≡ position = omega arith in rw same at run
  Skips-WellNested (element {encoding = encoding} more encoded split nested) position after depth
        rest r at e run =
      let (reads, behind) =
        read_tag-Encoded octets position (more ++ rest) encoded (rw (split, append_assoc) at at) in
      let size = length-append encoding more in
      Skips-step position (suc depth) depth r _ reads (unfold deeper in refl) (
        Skips-WellNested nested (position + length encoding) after depth rest r behind
          (omega (arith, ap length split)) run)
  Skips-WellNested
        (bracketed {opening = opening} {closing = closing} inner more bracket split nested_inner
          nested)
        position after depth rest r at e run =
      let (n, reads, inside) =
        read_tag-open octets position (inner ++ (closing ++ (more ++ rest))) bracket
          (rw (split, append_assoc opening, append_assoc inner, append_assoc closing) at at) in
      let start = position + length opening in
      let closing_at = skip-at octets start inner (closing ++ (more ++ rest)) _ inside refl in
      let (n', closes, behind) =
        read_tag-close octets (start + length inner) (more ++ rest) bracket closing_at in
      let size = length-append opening (inner ++ (closing ++ more)) in
      let size' = length-append inner (closing ++ more) in
      let size'' = length-append closing more in
      Skips-step position (suc depth) (suc depth) r _ reads (unfold deeper in omega arith) (
        Skips-WellNested nested_inner start _ (suc depth) (closing ++ (more ++ rest)) r inside refl
          (Skips-step (start + length inner) (suc (suc depth)) depth r _ closes
            (unfold deeper in omega arith)
            (Skips-WellNested nested (start + length inner + length closing) after depth rest r
              behind (omega (arith, ap length split)) run)))

  -- Behind an opening tag, when well-nested octets stand there, a closing tag of a number below 15 and
  -- anything else, `nested_body` returns the well-nested octets unchanged, and the position behind that tag.
  pub nested_body-WellNested :
      (v rest : Octets) (n position : ℕ)
      → WellNested v
      → n < 15
      → drop position octets ≡ v ++ (closed n ++ rest)
      → (nested_body octets position ≡ ok (v, position + length v + 1))
        × (drop (position + length v + 1) octets ≡ rest)
  unfolding nested_body skip_nested
  nested_body-WellNested v rest n position nested small at =
      let closing_at = skip-at octets position v (closed n ++ rest) _ at refl in
      let (closes, behind) = read_tag-closed octets (position + length v) n rest small closing_at in
      let run =
        Skips-WellNested nested position (position + length v) 0 (closed n ++ rest) _ at refl
          (Skips-done (position + length v) _ closes refl) (suc (length octets)) (omega arith)
          (omega arith) in
      (
        rw (run, slice-at octets position v (closed n ++ rest) (position + length v) at refl),
        behind,
      )
