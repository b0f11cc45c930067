-- ===== src/Services/Multiple/RoundTrip.antt =====
-- What a client reads from an encoded ReadPropertyMultiple-ACK (codec.py and services.py).
use bacnet_profile_example_b.Base.{
  ℕ, ◌^◌, ◌<◌, true, false, Option, none, some, List, [], ◌∷◌, ◌++◌, ◌≡◌, refl, sym, arith, length,
  All, append-nil,
}
use bacnet_profile_example_b.Base.Eq.{nat_eq, pair_eq, option_eq}
use bacnet_profile_example_b.Python.{Octets, ok}
use bacnet_profile_example_b.Codec.Tagged.{tagged, opened, closed}
use bacnet_profile_example_b.Codec.Scan.Steps.{WellNested, empty, primitive}
use bacnet_profile_example_b.Codec.Scan.Consumes.{
  Consumes, Consumes-nothing, Consumes-append, Consumes-tagged, Consumes-opened, Consumes-closed,
  Consumes-enclosed, Consumes-scan,
}
use bacnet_profile_example_b.Codec.Encode.Minimal.{
  minimal, from_bytes-minimal, length-minimal_bounds,
}
use bacnet_profile_example_b.Codec.Encode.Writes.{
  IsIdentifier, identifier_octets, length-identifier_octets, context_unsigned-eq,
  context_object_id-eq, application_enumerated-eq,
}
use bacnet_profile_example_b.Codec.Requests.{
  access_result, access_results, multiple_results, read_property_multiple_ack,
}
use bacnet_profile_example_b.Codec.Requests.Shape.{enclosed-eq, bytes-three}
use bacnet_profile_example_b.Codec.Decode.{ObjectId}
use bacnet_profile_example_b.Codec.Decode.Reading.{object_identifier-octets}
use bacnet_profile_example_b.Codec.Decode.Lists.{values-written}
use bacnet_profile_example_b.Codec.Frame.{Frame}
use bacnet_profile_example_b.Services.{constructed_body}
use bacnet_profile_example_b.Services.Answered.{complex_ack-payload}
use bacnet_profile_example_b.Services.Multiple.{
  AccessResult, value_octets, failed, Reference, Results, Reading, set_default, put_result,
  access_result_of, result_turn, multiple_turn, multiple_results_of,
  parse_read_property_multiple_ack,
}

-- The values of the properties of one object: octets, or None for a property that it does not have.
abbrev pub Answers : Type 0
Answers = List (ℕ × Option Octets)

-- What a client makes of one of them.
abbrev pub result_of : Option Octets → AccessResult
result_of none = failed (2 ∷ 32 ∷ [])
result_of (some v) = value_octets v

-- The properties of an object are put into its dictionary one after another.
abbrev pub answered : ObjectId → Answers → Results → Results
answered object [] results = results
answered object ((p, v) ∷ answers) results =
    answered object answers (put_result results object (some p, none) (result_of v))

abbrev pub collected : List (ObjectId × Answers) → Results → Results
collected [] results = results
collected ((object, answers) ∷ more) results =
    collected more (answered object answers (set_default results object))

abbrev pub NestedValue : Option Octets → Type 0
NestedValue none = Unit {0}
NestedValue (some v) = WellNested v

abbrev pub IsAnswer : ℕ × Option Octets → Type 0
IsAnswer (p, v) = (p < 2 ^ 32) × NestedValue v

-- Answers that can be encoded.
abbrev pub IsObjectAnswer : ObjectId × Answers → Type 0
IsObjectAnswer ((t, i), answers) = IsIdentifier t i × All IsAnswer answers

-- The error of an unknown property, property(2) and unknown-property(32).
abbrev unknown : Octets
unknown = tagged 9 false (minimal 2) ++ tagged 9 false (minimal 32)

abbrev result_octets : Option Octets → Octets
result_octets none = opened 5 ++ (unknown ++ closed 5)
result_octets (some v) = opened 4 ++ (v ++ closed 4)

abbrev answers_octets : Answers → Octets
answers_octets [] = []
answers_octets ((p, v) ∷ answers) =
    (tagged 2 true (minimal p) ++ result_octets v) ++ answers_octets answers

abbrev pub objects_octets : List (ObjectId × Answers) → Octets
objects_octets [] = []
objects_octets (((t, i), answers) ∷ more) =
    tagged 0 true (identifier_octets t i)
    ++ ((opened 1 ++ (answers_octets answers ++ closed 1)) ++ objects_octets more)

access_result-eq :
    (p : ℕ) (v : Option Octets)
    → p < 2 ^ 32
    → access_result (p, v) ≡ ok (tagged 2 true (minimal p) ++ result_octets v)
unfolding access_result
access_result-eq p (some v) h =
    rw (context_unsigned-eq 2 p (omega arith) h, enclosed-eq 4 v (omega arith))
access_result-eq p none h = rw (
  context_unsigned-eq 2 p (omega arith) h,
  application_enumerated-eq 2 (omega arith),
  application_enumerated-eq 32 (omega arith),
  enclosed-eq 5 unknown (omega arith),
)

access_results-eq :
    (answers : Answers)
    → All IsAnswer answers
    → access_results answers ≡ ok (answers_octets answers)
unfolding access_results
access_results-eq [] h = refl
access_results-eq ((p, v) ∷ answers) (first, h) =
    rw (access_result-eq p v first.0, access_results-eq answers h)

multiple_results-eq :
    (results : List (ObjectId × Answers))
    → All IsObjectAnswer results
    → multiple_results results ≡ ok (objects_octets results)
unfolding multiple_results
multiple_results-eq [] h = refl
multiple_results-eq (((t, i), answers) ∷ results) ((object, fits), h) = rw (
  context_object_id-eq 0 t i (omega arith) object,
  access_results-eq answers fits,
  enclosed-eq 1 (answers_octets answers) (omega arith),
  multiple_results-eq results h,
)

-- The error that is read back from the error octets.
module _ where
  length-minimal_small : (v : ℕ) → length (minimal v) < 65536
  length-minimal_small v = omega (arith, length-minimal_bounds v)

  unknown-WellNested : WellNested unknown
  unknown-WellNested =
      primitive 9 false (minimal 2) (tagged 9 false (minimal 32)) refl (omega arith) refl
        (length-minimal_small 2)
        (primitive 9 false (minimal 32) [] (sym (append-nil (tagged 9 false (minimal 32))))
          (omega arith) refl (length-minimal_small 32) empty)

  access_result_of-unknown : access_result_of 5 unknown ≡ ok (failed (2 ∷ 32 ∷ []))
  unfolding access_result_of
  access_result_of-unknown =
      let read =
        (values-written ((false, 9, minimal 2) ∷ (false, 9, minimal 32) ∷ []) (
          (omega arith, refl, length-minimal_small 2),
          ((omega arith, refl, length-minimal_small 32), tt),
        )).0 in
      rw (
        rw (append-nil (tagged 9 false (minimal 32))) at read,
        from_bytes-minimal 2 (omega arith),
        from_bytes-minimal 32 (omega arith),
      )

module _ (apdu : Octets) where
  abbrev Reads : Octets → Reading → Reading → Type 0
  Reads = Consumes apdu (multiple_turn apdu)

  abbrev reading : Results → Option ObjectId → Reference → Reading
  reading results current reference = record {
    results = results;
    current = current;
    reference = reference;
  }

  Reads-object :
      (t i : ℕ) (results : Results) (current : Option ObjectId) (reference : Reference)
      → IsIdentifier t i
      → Reads
          (tagged 0 true (identifier_octets t i))
          (reading results current reference)
          (reading (set_default results (t, i)) (some (t, i)) reference)
  unfolding multiple_turn
  Reads-object t i results current reference h =
      Consumes-tagged apdu (multiple_turn apdu) 0 true (identifier_octets t i) _ _ (omega arith)
        refl (omega (arith, length-identifier_octets t i))
        (λ position. rw (object_identifier-octets t i h))

  module _ (object : ObjectId) where
    Reads-result :
        (v : Option Octets) (results : Results) (reference : Reference)
        → NestedValue v
        → Reads
            (result_octets v)
            (reading results (some object) reference)
            (reading (put_result results object reference (result_of v)) (some object) reference)
    unfolding multiple_turn result_turn constructed_body access_result_of
    Reads-result (some v) results reference h =
        Consumes-enclosed apdu (multiple_turn apdu) 4 v _ _ (omega arith) h
          (λ position after found. rw found)
    Reads-result none results reference h =
        Consumes-enclosed apdu (multiple_turn apdu) 5 unknown _ _ (omega arith) unknown-WellNested
          (λ position after found. rw (found, access_result_of-unknown))

    Reads-property :
        (p : ℕ) (results : Results) (reference : Reference)
        → p < 2 ^ 32
        → Reads
            (tagged 2 true (minimal p))
            (reading results (some object) reference)
            (reading results (some object) (some p, none))
    unfolding multiple_turn
    Reads-property p results reference fits =
        Consumes-tagged apdu (multiple_turn apdu) 2 true (minimal p) _ _ (omega arith) refl
          (length-minimal_small p) (λ position. rw (from_bytes-minimal p fits))

    Reads-bracket :
        (results : Results) (reference : Reference)
        → Reads
            (opened 1)
            (reading results (some object) reference)
            (reading results (some object) reference)
          × Reads
              (closed 1)
              (reading results (some object) reference)
              (reading results (some object) reference)
    unfolding multiple_turn result_turn
    Reads-bracket results reference = (
      Consumes-opened apdu (multiple_turn apdu) 1 _ _ (omega arith) (λ position. refl),
      Consumes-closed apdu (multiple_turn apdu) 1 _ _ (omega arith) (λ position. refl),
    )

    Reads-answers :
        (answers : Answers) (results : Results) (reference : Reference)
        → All IsAnswer answers
        → (reference' : Reference) × Reads
            (answers_octets answers)
            (reading results (some object) reference)
            (reading (answered object answers results) (some object) reference')
    Reads-answers [] results reference h = (
      reference,
      Consumes-nothing apdu (multiple_turn apdu) (reading results (some object) reference),
    )
    Reads-answers ((p, v) ∷ answers) results reference ((fits, nested), h) =
        let (reference', rest) =
          Reads-answers answers (put_result results object (some p, none) (result_of v))
            (some p, none) h in
        (
          reference',
          Consumes-append apdu (multiple_turn apdu) _ (answers_octets answers) _ _ _
              (Consumes-append apdu (multiple_turn apdu) (tagged 2 true (minimal p))
                (result_octets v) _ _ _ (Reads-property p results reference fits)
                (Reads-result v results (some p, none) nested))
              rest,
        )

  Reads-objects :
      (objects : List (ObjectId × Answers)) (results : Results) (current : Option ObjectId)
      (reference : Reference)
      → All IsObjectAnswer objects
      → (current' : Option ObjectId) × (reference' : Reference) × Reads
          (objects_octets objects)
          (reading results current reference)
          (reading (collected objects results) current' reference')
  Reads-objects [] results current reference h = (
    current,
    reference,
    Consumes-nothing apdu (multiple_turn apdu) (reading results current reference),
  )
  Reads-objects (((t, i), answers) ∷ objects) results current reference ((object, fits), h) =
      let inside = set_default results (t, i) in
      let (reference', read) = Reads-answers (t, i) answers inside reference fits in
      let after = answered (t, i) answers inside in
      let (current', last, rest) = Reads-objects objects after (some (t, i)) reference' h in
      (
        current',
        last,
        Consumes-append apdu (multiple_turn apdu) (tagged 0 true (identifier_octets t i)) _ _ _ _
            (Reads-object t i results current reference object)
            (Consumes-append apdu (multiple_turn apdu)
              (opened 1 ++ (answers_octets answers ++ closed 1)) (objects_octets objects) _ _ _
              (Consumes-append apdu (multiple_turn apdu) (opened 1) _ _ _ _
                (Reads-bracket (t, i) inside reference).0
                (Consumes-append apdu (multiple_turn apdu) (answers_octets answers) (closed 1) _ _ _
                  read (Reads-bracket (t, i) after reference').1))
              rest),
      )

module _ (n : ℕ) (results : List (ObjectId × Answers)) (fits : n < 256)
    (encodable : All IsObjectAnswer results) where
  pub read_property_multiple_ack-eq :
      read_property_multiple_ack n results ≡ ok (0x30 ∷ n ∷ 14 ∷ objects_octets results)
  unfolding read_property_multiple_ack
  read_property_multiple_ack-eq =
      rw (
        multiple_results-eq results encodable,
        bytes-three 48 n 14 (omega arith) fits (omega arith),
      )

  multiple_results_of-eq :
      multiple_results_of (0x30 ∷ n ∷ 14 ∷ objects_octets results)
      ≡ ok (some (collected results []))
  unfolding multiple_results_of
  multiple_results_of-eq =
      let apdu = 0x30 ∷ n ∷ 14 ∷ objects_octets results in
      let (current, reference, reads) = Reads-objects apdu results [] none (none, none) encodable in
      rw (Consumes-scan apdu (multiple_turn apdu) (objects_octets results) 3 _ _ reads refl)

  -- The dictionary of results, put together as the loop does it.
  pub parse-read_property_multiple_ack :
      (frame : Frame)
      → frame.network_message ≡ none
      → read_property_multiple_ack n results ≡ ok frame.payload
      → parse_read_property_multiple_ack (some (record { frame = some frame }))
        ≡ ok (some (collected results []))
  unfolding parse_read_property_multiple_ack
  parse-read_property_multiple_ack frame no_message encoded =
      let e : frame.payload ≡ 0x30 ∷ n ∷ 14 ∷ objects_octets results =
        ground (arith, encoded, read_property_multiple_ack-eq) in
      rw (
        complex_ack-payload frame 14 n (objects_octets results)
            (record { no_message = no_message; payload_is = e }),
        e,
        multiple_results_of-eq,
      )
