-- ===== src/Services/Multiple/Contents.antt =====
-- What a client finds in what it read from a ReadPropertyMultiple-ACK (services.py).
use bacnet_profile_example_b.Base.{
  ℕ, ◌<◌, Bool, true, false, ◌&&◌, Option, none, some, List, [], ◌∷◌, ◌≡◌, refl, sym, ◌∙◌, ap,
  arith, All, if◌then◌else◌, Bool-cases, inl, inr, Option-cases,
}
use bacnet_profile_example_b.Base.Eq.{nat_eq, pair_eq, option_eq}
use bacnet_profile_example_b.Python.{ok}
use bacnet_profile_example_b.Python.Dict.{get, put, get-put}
use bacnet_profile_example_b.Codec.Decode.{ObjectId}
use bacnet_profile_example_b.Codec.Requests.{read_property_multiple_ack}
use bacnet_profile_example_b.Codec.Frame.{Frame}
use bacnet_profile_example_b.Services.Multiple.{
  AccessResult, Reference, Results, results_or_empty, set_default, put_result,
  parse_read_property_multiple_ack,
}
use bacnet_profile_example_b.Services.Multiple.RoundTrip.{
  Answers, result_of, answered, collected, IsObjectAnswer, parse-read_property_multiple_ack,
}

-- `results.get(object, {}).get(reference)`
abbrev pub look : Results → ObjectId → Reference → Option AccessResult
look results object reference = get (results_or_empty (get results object)) reference

abbrev pub same_object : ObjectId → ObjectId → Bool
same_object = (pair_eq {A = ℕ} {B = ℕ}).beq

abbrev pub same_reference : Reference → Reference → Bool
same_reference = (pair_eq {A = Option ℕ} {B = Option ℕ}).beq

module _ (results : Results) (object other : ObjectId) where
  pub look-put_result :
      (reference reference' : Reference) (r : AccessResult)
      → look (put_result results object reference r) other reference' ≡ (
          if same_object object other && same_reference reference reference'
          then some r
          else look results other reference')
  unfolding put_result
  look-put_result reference reference' r =
      let inner = results_or_empty (get results object) in
      let outer = get-put results object other (put inner reference r) in
      elim (Bool-cases (same_object object other)) [
        | inl same ↦
            let e : object ≡ other =
              ground (arith, same, (pair_eq {A = ℕ} {B = ℕ}).beq_iff object other) in
            rw (outer, same, get-put inner reference reference' r, e) refl
        | inr different ↦ rw (outer, different) refl
      ]

  pub look-set_default :
      (reference : Reference)
      → look (set_default results object) other reference ≡ look results other reference
  unfolding set_default
  look-set_default reference = elim (Option-cases (get results object)) [
    | inl missing ↦ elim (Bool-cases (same_object object other)) [
      | inl same ↦
          let e : object ≡ other = ((pair_eq {A = ℕ} {B = ℕ}).beq_iff object other).0 same in
          rw (set_default, missing, get-put results object other [], same, sym e, missing) refl
      | inr different ↦ rw (set_default, missing, get-put results object other [], different) refl
    ]
    | inr (inner, there) ↦ rw (set_default, there) refl
  ]

abbrev later_or : Option AccessResult → Option AccessResult → Option AccessResult
later_or none earlier = earlier
later_or (some r) earlier = some r

-- The last answer of a list for a reference; the answers have no array index.
abbrev pub last_answer : Answers → Reference → Option AccessResult
last_answer [] reference = none
last_answer ((p, v) ∷ answers) reference =
    later_or (last_answer answers reference)
      (if same_reference (some p, none) reference then some (result_of v) else none)

-- The last answer for an object and a reference, over every entry that the object has in the list.
abbrev pub answer_for : List (ObjectId × Answers) → ObjectId → Reference → Option AccessResult
answer_for [] object reference = none
answer_for ((o, answers) ∷ objects) object reference =
    later_or (answer_for objects object reference)
      (if same_object o object then last_answer answers reference else none)

choose_later :
    (same same' : Bool) (last here before : Option AccessResult) (r : AccessResult)
    → here ≡ (if same && same' then some r else before)
    → later_or (if same then last else none) here
      ≡ later_or (if same then later_or last (if same' then some r else none) else none) before
choose_later false same' last here before r e = e
choose_later true same' (some x) here before r e = refl
choose_later true true none here before r e = e
choose_later true false none here before r e = e

look-answered :
    (object other : ObjectId) (answers : Answers) (results : Results) (reference : Reference)
    → look (answered object answers results) other reference
      ≡ later_or
          (if same_object object other then last_answer answers reference else none)
          (look results other reference)
look-answered object other [] results reference = ground arith
look-answered object other ((p, v) ∷ answers) results reference =
    look-answered object other answers (put_result results object (some p, none) (result_of v))
      reference
    ∙ choose_later (same_object object other) (same_reference (some p, none) reference)
        (last_answer answers reference) _ (look results other reference) (result_of v)
        (look-put_result results object other (some p, none) reference (result_of v))

later_or_assoc :
    (a b c : Option AccessResult) → later_or a (later_or b c) ≡ later_or (later_or a b) c
later_or_assoc none b c = refl
later_or_assoc (some r) b c = refl

look-collected :
    (objects : List (ObjectId × Answers)) (results : Results) (other : ObjectId)
    (reference : Reference)
    → look (collected objects results) other reference
      ≡ later_or (answer_for objects other reference) (look results other reference)
look-collected [] results other reference = refl
look-collected ((object, answers) ∷ objects) results other reference =
    let inside = set_default results object in
    let here = if same_object object other then last_answer answers reference else none in
    look-collected objects (answered object answers inside) other reference
    ∙ ap (later_or (answer_for objects other reference)) (
        look-answered object other answers inside reference
        ∙ ap (later_or here) (look-set_default results object other reference))
    ∙ later_or_assoc (answer_for objects other reference) here (look results other reference)

later_or-none : (a : Option AccessResult) → later_or a none ≡ a
later_or-none none = refl
later_or-none (some r) = refl

-- A client that gets an encoded ReadPropertyMultiple-ACK, with identifiers that fit their fields and well
-- nested values, reads a dictionary from it that has, for every object and reference, the last answer that was
-- encoded for them, over all entries of the object: the value octets, or for a property without a value the
-- error PROPERTY / UNKNOWN_PROPERTY; and nothing where no answer was encoded.
pub parse_ack-answer_for :
    (n : ℕ) (results : List (ObjectId × Answers))
    → n < 256
    → All IsObjectAnswer results
    → (frame : Frame) → frame.network_message ≡ none
    → read_property_multiple_ack n results ≡ ok frame.payload
    → (parsed : Results) × (parse_read_property_multiple_ack (some (record { frame = some frame }))
        ≡ ok (some parsed))
      × ((object : ObjectId) (reference : Reference)
          → look parsed object reference ≡ answer_for results object reference)
unfolding get
parse_ack-answer_for n results fits encodable frame no_message encoded = (
  collected results [],
  parse-read_property_multiple_ack n results fits encodable frame no_message encoded,
  λ object reference.
      look-collected results [] object reference
      ∙ later_or-none (answer_for results object reference),
)
