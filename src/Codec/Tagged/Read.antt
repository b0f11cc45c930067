-- ===== src/Codec/Tagged/Read.antt =====
-- `read_tag` reads the tagged encoding, wherever it stands in a longer string.
use bacnet_profile_example_b.Base.{
  ℕ, ◌+◌, ◌<◌, bit_and, Bool, true, false, not, ◌&&◌, [], ◌∷◌, ◌++◌, ◌≡◌, refl, ◌∙◌, arith, length,
  length-append, ap, drop, ltb, ltb→lt, ◌==◌, append_assoc, Bool-cases, inl, inr,
}
use bacnet_profile_example_b.Base.Bits.{shr, bit_and-seven, bit_and-eight}
use bacnet_profile_example_b.Python.{Octets, ok, big_endian, bytes, all_bytes}
use bacnet_profile_example_b.Python.Bytes.{length-big_endian, from_bytes-big_endian, unpack-eq}
use bacnet_profile_example_b.Python.Cursor.{index-at, next-at, slice-at, skip-at}
use bacnet_profile_example_b.Codec.Tag.{
  Tag, Kind, open_tag, close_tag, value, tag_number, extended_length, tag_length, tag_value,
  tag_rest, read_tag,
}
use bacnet_profile_example_b.Codec.Tagged.{
  first_octet, tagged, opened, closed, extended_tagged, Encoded, short_tag, boolean_tag,
  extended_tag, Bracket, short_bracket, extended_bracket,
}

first_octet_fields :
    (n : ℕ) (c : Bool) (l : ℕ)
    → l < 8
    → (shr (first_octet n c l) 4 ≡ n)
      × (not (bit_and (first_octet n c l) 0x08 == 0) ≡ c)
      × (bit_and (first_octet n c l) 0x07 ≡ l)
first_octet_fields n true l h =
    ground (arith, bit_and-seven (first_octet n true l), bit_and-eight (first_octet n true l))
first_octet_fields n false l h =
    ground (arith, bit_and-seven (first_octet n false l), bit_and-eight (first_octet n false l))

module _ (octets : Octets) where
  -- The three forms of the length.
  length_short : (l q : ℕ) → l < 5 → tag_length octets l q ≡ ok (l, q)
  unfolding tag_length
  length_short l q h = ground arith

  length_octet :
      (q m : ℕ) {bs : Octets}
      → m < 254
      → drop q octets ≡ m ∷ bs
      → tag_length octets 5 q ≡ ok (m, q + 1)
  unfolding tag_length extended_length
  length_octet q m h at = rw (index-at octets q at) (ground arith)

  length_word :
      (q m : ℕ) (rest : Octets)
      → m < 65536
      → drop q octets ≡ 254 ∷ (big_endian 2 m ++ rest)
      → tag_length octets 5 q ≡ ok (m, q + 1 + 2)
  unfolding tag_length extended_length
  length_word q m rest h at =
      let word = length-big_endian 2 m in
      let here =
        slice-at octets (q + 1) (big_endian 2 m) rest (q + 1 + 2) (next-at octets q at)
          (omega (arith, word)) in
      rw
        (index-at octets q at, here, unpack-eq 2 (big_endian 2 m) word, from_bytes-big_endian 2 m h)

-- Behind a first octet with a short tag number.
read_tag-first :
    (octets : Octets) (p n : ℕ) (c : Bool)
    → n < 15
    → (l : ℕ) {bs : Octets} → l < 8
    → drop p octets ≡ first_octet n c l ∷ bs
    → read_tag octets p ≡ tag_rest octets n c l (p + 1)
unfolding read_tag tag_number
read_tag-first octets p n c small l h at =
    let (number, context, low) = first_octet_fields n c l h in
    rw (index-at octets p at, number, context, low) (ground arith)

-- Behind an octet with an extended tag number.
read_tag-extended :
    (octets : Octets) (p n : ℕ) (c : Bool) (l : ℕ) {bs : Octets}
    → l < 8
    → drop p octets ≡ first_octet 15 c l ∷ n ∷ bs
    → read_tag octets p ≡ tag_rest octets n c l (p + 1 + 1)
unfolding read_tag tag_number
read_tag-extended octets p n c l h at =
    let (number, context, low) = first_octet_fields 15 c l h in
    let behind = next-at octets p at in
    rw (index-at octets p at, number, context, low, index-at octets (p + 1) behind) refl

module _ (octets : Octets) (p n : ℕ) (c : Bool) where
  tag_rest-value :
      (l q size start : ℕ)
      → l < 6
      → tag_length octets l q ≡ ok (size, start)
      → tag_rest octets n c l q ≡ tag_value octets n c size start
  unfolding tag_rest
  tag_rest-value l q size start h e = rw e (ground arith)

  -- A body of at most 65535 octets behind the number, which ends at `q`.
  module _ (body rest : Octets) (primitive : (not c && n == 1) ≡ false) where
    abbrev read_value : ℕ → Tag
    read_value next = record { number = n; is_context = c; kind = value; body = body; next = next }

    value-at :
        (start next : ℕ)
        → drop start octets ≡ body ++ rest
        → next ≡ start + length body
        → tag_value octets n c (length body) start ≡ ok (read_value next)
    unfolding tag_value
    value-at start next at e = rw (primitive, slice-at octets start body rest _ at refl, e)

    module _ (q next : ℕ) where
      read_short :
          length body < 5
          → read_tag octets p ≡ tag_rest octets n c (length body) q
          → drop q octets ≡ body ++ rest
          → next ≡ q + length body
          → read_tag octets p ≡ ok (read_value next)
      read_short h first at e =
          first
          ∙ tag_rest-value (length body) q _ _ (omega arith) (length_short octets (length body) q h)
          ∙ value-at q next at e

      read_medium :
          length body < 254
          → read_tag octets p ≡ tag_rest octets n c 5 q
          → drop q octets ≡ length body ∷ (body ++ rest)
          → next ≡ q + 1 + length body
          → read_tag octets p ≡ ok (read_value next)
      read_medium h first at e =
          first
          ∙ tag_rest-value 5 q _ _ (omega arith) (length_octet octets q (length body) h at)
          ∙ value-at (q + 1) next (next-at octets q at) e

      read_large :
          length body < 65536
          → read_tag octets p ≡ tag_rest octets n c 5 q
          → drop q octets ≡ 254 ∷ (big_endian 2 (length body) ++ (body ++ rest))
          → next ≡ q + 3 + length body
          → read_tag octets p ≡ ok (read_value next)
      read_large h first at e =
          let size = length-big_endian 2 (length body) in
          let start =
            skip-at octets (q + 1) (big_endian 2 (length body)) (body ++ rest) (q + 1 + 2)
              (next-at octets q at) (omega (arith, size)) in
          first
          ∙ tag_rest-value 5 q _ _ (omega arith)
              (length_word octets q (length body) (body ++ rest) h at)
          ∙ value-at (q + 1 + 2) next start (omega arith)

module _ (octets : Octets) (p n : ℕ) (c : Bool) (body rest : Octets) (next : ℕ)
    (primitive : (not c && n == 1) ≡ false) (fits : length body < 65536) where
  abbrev read_body : Tag
  read_body = record { number = n; is_context = c; kind = value; body = body; next = next }

  read_tag-short :
      n < 15
      → drop p octets ≡ tagged n c body ++ rest
      → next ≡ p + length (tagged n c body)
      → read_tag octets p ≡ ok read_body
  unfolding tagged
  read_tag-short small at e = elim (Bool-cases (ltb (length body) 5)) [
    | inl short ↦
        let at' = rw short at at in
        let lt = ltb→lt _ _ short in
        read_short octets p n c body rest primitive (p + 1) next lt
          (read_tag-first octets p n c small (length body) (omega arith) at') (next-at octets p at')
          (rw short at e ∙ omega arith)
    | inr long ↦ elim (Bool-cases (ltb (length body) 254)) [
      | inl medium ↦
          let at' = rw (long, medium) at at in
          read_medium octets p n c body rest primitive (p + 1) next (ltb→lt _ _ medium)
            (read_tag-first octets p n c small 5 (omega arith) at') (next-at octets p at')
            (rw (long, medium) at e ∙ omega arith)
      | inr large ↦
          let at' = rw (long, large, append_assoc) at at in
          let size = length-big_endian 2 (length body) in
          read_large octets p n c body rest primitive (p + 1) next fits
            (read_tag-first octets p n c small 5 (omega arith) at') (next-at octets p at')
            (rw (long, large, length-append) at e ∙ omega (arith, size))
    ]
  ]

  read_tag-long :
      14 < n
      → drop p octets ≡ extended_tagged n c body ++ rest
      → next ≡ p + length (extended_tagged n c body)
      → read_tag octets p ≡ ok read_body
  unfolding extended_tagged
  read_tag-long small at e = elim (Bool-cases (ltb (length body) 5)) [
    | inl short ↦
        let at' = rw short at at in
        let lt = ltb→lt _ _ short in
        read_short octets p n c body rest primitive (p + 1 + 1) next lt
          (read_tag-extended octets p n c (length body) (omega arith) at')
          (next-at octets (p + 1) (next-at octets p at')) (rw short at e ∙ omega arith)
    | inr long ↦ elim (Bool-cases (ltb (length body) 254)) [
      | inl medium ↦
          let at' = rw (long, medium) at at in
          read_medium octets p n c body rest primitive (p + 1 + 1) next (ltb→lt _ _ medium)
            (read_tag-extended octets p n c 5 (omega arith) at')
            (next-at octets (p + 1) (next-at octets p at')) (rw (long, medium) at e ∙ omega arith)
      | inr large ↦
          let at' = rw (long, large, append_assoc) at at in
          let size = length-big_endian 2 (length body) in
          read_large octets p n c body rest primitive (p + 1 + 1) next fits
            (read_tag-extended octets p n c 5 (omega arith) at')
            (next-at octets (p + 1) (next-at octets p at'))
            (rw (long, large, length-append) at e ∙ omega (arith, size))
    ]
  ]

read_tag-boolean :
    (octets : Octets) (p b : ℕ) {rest : Octets}
    → b < 2
    → drop p octets ≡ first_octet 1 false b ∷ rest
    → read_tag octets p
      ≡ ok (record { number = 1; is_context = false; kind = value; body = b ∷ []; next = p + 1 })
unfolding tag_rest tag_length tag_value bytes all_bytes
read_tag-boolean octets p b h at =
    read_tag-first octets p 1 false (omega arith) b (omega arith) at ∙ ground arith

-- Where a complete tag that holds a value stands in a string, `read_tag` returns its number, class
-- and value octets, and the position behind it. The tag is a short one, a primitive with a number
-- below 15 and a value of less than 65536 octets that is no application BOOLEAN, or an application
-- BOOLEAN, or such a primitive with an extended number, 15 or more.
pub read_tag-Encoded :
    {n : ℕ} {c : Bool} {body encoding : Octets} (octets : Octets) (p : ℕ) (rest : Octets)
    → Encoded n c body encoding
    → drop p octets ≡ encoding ++ rest
    → (read_tag octets p
        ≡ ok (record {
          number = n;
          is_context = c;
          kind = value;
          body = body;
          next = p + length encoding;
        }))
      × (drop (p + length encoding) octets ≡ rest)
read_tag-Encoded octets p rest (short_tag n c body small primitive fits) at = (
  read_tag-short octets p n c body rest _ primitive fits small at refl,
  skip-at octets p (tagged n c body) rest _ at refl,
)
read_tag-Encoded octets p rest (boolean_tag b h) at =
    (read_tag-boolean octets p b h at, next-at octets p at)
read_tag-Encoded octets p rest (extended_tag n c body long fits) at =
    let primitive : (not c && n == 1) ≡ false = ground arith in
    (
      read_tag-long octets p n c body rest _ primitive fits long at refl,
      skip-at octets p (extended_tagged n c body) rest _ at refl,
    )

pub read_tag-tagged :
    (octets : Octets) (p n : ℕ) (c : Bool) (body rest : Octets)
    → n < 15
    → (not c && n == 1) ≡ false
    → length body < 65536
    → drop p octets ≡ tagged n c body ++ rest
    → (read_tag octets p
        ≡ ok (record {
          number = n;
          is_context = c;
          kind = value;
          body = body;
          next = p + length (tagged n c body);
        }))
      × (drop (p + length (tagged n c body)) octets ≡ rest)
read_tag-tagged octets p n c body rest small primitive fits at =
    read_tag-Encoded octets p rest (short_tag n c body small primitive fits) at

pub read_tag-opened :
    (octets : Octets) (p n : ℕ) (rest : Octets)
    → n < 15
    → drop p octets ≡ opened n ++ rest
    → (read_tag octets p
        ≡ ok (record { number = n; is_context = true; kind = open_tag; body = []; next = p + 1 }))
      × (drop (p + 1) octets ≡ rest)
read_tag-opened octets p n rest small at = (
  read_tag-first octets p n true small 6 (omega arith) at ∙ unfold tag_rest in refl,
  next-at octets p at,
)

pub read_tag-closed :
    (octets : Octets) (p n : ℕ) (rest : Octets)
    → n < 15
    → drop p octets ≡ closed n ++ rest
    → (read_tag octets p
        ≡ ok (record { number = n; is_context = true; kind = close_tag; body = []; next = p + 1 }))
      × (drop (p + 1) octets ≡ rest)
read_tag-closed octets p n rest small at = (
  read_tag-first octets p n true small 7 (omega arith) at ∙ unfold tag_rest in refl,
  next-at octets p at,
)

abbrev bracket_tag : ℕ → Kind → ℕ → Tag
bracket_tag n kind next = record {
  number = n;
  is_context = true;
  kind = kind;
  body = [];
  next = next;
}

-- An opening and a closing tag of any number.
pub read_tag-open :
    {opening closing : Octets} (octets : Octets) (p : ℕ) (rest : Octets)
    → Bracket opening closing
    → drop p octets ≡ opening ++ rest
    → (n : ℕ) × (read_tag octets p ≡ ok (bracket_tag n open_tag (p + length opening)))
      × (drop (p + length opening) octets ≡ rest)
read_tag-open octets p rest (short_bracket n small) at =
    let (reads, behind) = read_tag-opened octets p n rest small at in (n, reads, behind)
read_tag-open octets p rest (extended_bracket n long) at = (
  n,
  read_tag-extended octets p n true 6 (omega arith) at
      ∙ (unfold tag_rest in ap (λ next. ok (bracket_tag n open_tag next)) (omega arith)),
  skip-at octets p (first_octet 15 true 6 ∷ n ∷ []) rest _ at refl,
)

pub read_tag-close :
    {opening closing : Octets} (octets : Octets) (p : ℕ) (rest : Octets)
    → Bracket opening closing
    → drop p octets ≡ closing ++ rest
    → (n : ℕ) × (read_tag octets p ≡ ok (bracket_tag n close_tag (p + length closing)))
      × (drop (p + length closing) octets ≡ rest)
read_tag-close octets p rest (short_bracket n small) at =
    let (reads, behind) = read_tag-closed octets p n rest small at in (n, reads, behind)
read_tag-close octets p rest (extended_bracket n long) at = (
  n,
  read_tag-extended octets p n true 7 (omega arith) at
      ∙ (unfold tag_rest in ap (λ next. ok (bracket_tag n close_tag next)) (omega arith)),
  skip-at octets p (first_octet 15 true 7 ∷ n ∷ []) rest _ at refl,
)
