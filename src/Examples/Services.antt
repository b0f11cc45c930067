-- ===== src/Examples/Services.antt =====
-- ReadPropertyMultiple at a concrete server and client.
use bacnet_profile_example_b.Base.{
  ◌==◌, Bool-cases, inl, inr, subst, ℕ, false, none, some, List, [], ◌∷◌, ◌≡◌, refl, arith, All,
}
use bacnet_profile_example_b.Base.Eq.{nat_eq, pair_eq, option_eq}
use bacnet_profile_example_b.Python.{Octets, ok, ◌>>=◌}
use bacnet_profile_example_b.Python.Dict.{get, member}
use bacnet_profile_example_b.Codec.Tagged.{tagged}
use bacnet_profile_example_b.Codec.Scan.Steps.{WellNested, empty, primitive}
use bacnet_profile_example_b.Codec.Decode.{ObjectId}
use bacnet_profile_example_b.Codec.Frame.{Frame, blank}
use bacnet_profile_example_b.Services.Multiple.{
  Reference, Results, value_octets, parse_read_property_multiple_ack,
}
use bacnet_profile_example_b.Services.Multiple.RoundTrip.{
  Answers, IsObjectAnswer, objects_octets, read_property_multiple_ack-eq,
}
use bacnet_profile_example_b.Services.Multiple.Contents.{look, answer_for, parse_ack-answer_for}
use bacnet_profile_example_b.Services.Multiple.Asked.{Asked, references, IsAsked}
use bacnet_profile_example_b.Services.Requests.{read_property_multiple_request}
use bacnet_profile_example_b.Services.Multiple.Served.{arrived, read_multiple-served}
use bacnet_profile_example_b.Peer.Server.{served_value, properties_of}
use bacnet_profile_example_b.Peer.Server.Answers.{read_multiple}
use bacnet_profile_example_b.Examples.{peer}
use bacnet_profile_example_b.Examples.Servers.{server, output, zero_real}

zero_real-WellNested : WellNested zero_real
unfolding tagged
zero_real-WellNested =
    primitive 4 false (0 ∷ 0 ∷ 0 ∷ 0 ∷ []) [] refl (omega arith) refl (omega arith) empty

-- Present_Value, and Priority_Array, which the object has not.
abbrev two_answers : List (ObjectId × Answers)
two_answers = (output, (85, some zero_real) ∷ (87, none) ∷ []) ∷ []

two_answers-IsObjectAnswer : All IsObjectAnswer two_answers
two_answers-IsObjectAnswer = (
  (
    record { type_fits = omega arith; instance_fits = omega arith },
    ((omega arith, zero_real-WellNested), ((omega arith, tt), tt)),
  ),
  tt,
)

abbrev multiple_frame : Frame
multiple_frame = record (blank [] peer) { payload = 0x30 ∷ 7 ∷ 14 ∷ objects_octets two_answers }

parse_ack-answer_for_example :
    (parsed : Results) × (parse_read_property_multiple_ack
        (some (record { frame = some multiple_frame }))
      ≡ ok (some parsed))
    × ((object : ObjectId) (reference : Reference)
        → look parsed object reference ≡ answer_for two_answers object reference)
parse_ack-answer_for_example =
    parse_ack-answer_for 7 two_answers (omega arith) two_answers-IsObjectAnswer multiple_frame refl
      (read_property_multiple_ack-eq 7 two_answers (omega arith) two_answers-IsObjectAnswer)

-- Both properties of the Analog Output 0.
abbrev both_asked : Asked
both_asked = (output, 85 ∷ 87 ∷ []) ∷ []

both_asked-IsAsked : All IsAsked both_asked
both_asked-IsAsked = (
  (
    record { type_fits = omega arith; instance_fits = omega arith },
    (omega arith, (omega arith, tt)),
  ),
  tt,
)

described-WellNested : WellNested (0x70 ∷ [])
unfolding tagged
described-WellNested = primitive 7 false [] [] refl (omega arith) refl (omega arith) empty

-- What the server has: its Present_Value and its description.
server-WellNested :
    (object : ObjectId) (p : ℕ) (v : Octets)
    → served_value server 0 object p ≡ some v
    → WellNested v
unfolding served_value properties_of get
server-WellNested object p v e = elim (Bool-cases ((pair_eq {A = ℕ} {B = ℕ}).beq output object)) [
  | inr other ↦ absurd (let none_there = rw other at e in cc)
  | inl same ↦ elim (Bool-cases (85 == p)) [
    | inl present ↦
        let h = rw (same, present) at e in subst WellNested (ground (arith, h)) zero_real-WellNested
    | inr absent ↦ elim (Bool-cases (28 == p)) [
      | inl describes ↦
          let h = rw (same, absent, describes) at e in
          subst WellNested (ground (arith, h)) described-WellNested
      | inr unknown ↦ absurd (let none_there = rw (same, absent, unknown) at e in cc)
    ]
  ]
]

read_multiple-served_example :
    (results : Results) × ((read_property_multiple_request 7 (references both_asked) >>= λ apdu.
    read_multiple server 0 7 apdu >>= λ (answer, _).
    parse_read_property_multiple_ack (arrived (blank [] peer) answer))
      ≡ ok (some results))
    × (look results output (some 85, none) ≡ some (value_octets zero_real))
unfolding member served_value properties_of get
read_multiple-served_example =
    read_multiple-served server 0 7 both_asked (omega arith) both_asked-IsAsked server-WellNested
      (blank [] peer) output (85 ∷ 87 ∷ []) 85 refl refl refl
