-- ===== src/Services/Multiple.antt =====
-- wiretest/services.py, ReadPropertyMultiple on the side of the client.
pub mod RoundTrip
pub mod Contents
pub mod Asked
pub mod Served
use bacnet_profile_example_b.Base.{
  ℕ, ◌+◌, Bool, not, ◌&&◌, ◌||◌, Option, none, some, List, [], ◌∷◌, ◌++◌, map, take, ◌==◌,
  if◌then◌else◌,
}
use bacnet_profile_example_b.Base.Eq.{Eq, nat_eq, pair_eq, option_eq}
use bacnet_profile_example_b.Python.{Octets, Result, ok, ◌>>=◌, from_bytes, none_on_malformed}
use bacnet_profile_example_b.Python.Dict.{Dict, get, put}
use bacnet_profile_example_b.Platform.{Platform}
use bacnet_profile_example_b.Codec.Constants.{service_read_property_multiple}
use bacnet_profile_example_b.Codec.Tag.{Tag, open_tag, value}
use bacnet_profile_example_b.Codec.Scan.{Turn, go_on, scan}
use bacnet_profile_example_b.Codec.Decode.{ObjectId, is_kind, object_identifier, application_values}
use bacnet_profile_example_b.Codec.Values.{Value, decode_application}
use bacnet_profile_example_b.Client.{Answer}
use bacnet_profile_example_b.Services.{complex_ack, constructed_body}

-- Value octets, or ('error', error class, error code); an error has the numbers that were there.
pub data AccessResult : Type 0 where
  value_octets : Octets → AccessResult
  failed : List ℕ → AccessResult

-- A property identifier, which is None before one was read, and an array index or None.
abbrev pub Reference : Type 0
Reference = Option ℕ × Option ℕ

abbrev pub ObjectResults : Type 0
ObjectResults = Dict Reference AccessResult

abbrev pub Results : Type 0
Results = Dict ObjectId ObjectResults

-- The variables of the loop. The source's `current` is the inner dictionary itself, which stays in
-- `results`; here it is its key.
pub record Reading : Type 0 where
  pub results : Results
  pub current : Option ObjectId
  pub reference : Reference

abbrev pub nothing_read : Reading
nothing_read = record { results = []; current = none; reference = (none, none) }

abbrev pub results_or_empty : Option ObjectResults → ObjectResults
results_or_empty none = []
results_or_empty (some results) = results

-- `results.setdefault(object, {})`
unfoldable pub set_default : Results → ObjectId → Results
set_default results object = elim (get results object) [
  | none ↦ put results object []
  | some inner ↦ results
]

-- `current[reference] = result`
unfoldable pub put_result : Results → ObjectId → Reference → AccessResult → Results
put_result results object reference result =
    put results object (put (results_or_empty (get results object)) reference result)

-- What stands in [4], or the first two numbers in [5].
unfoldable pub access_result_of : ℕ → Octets → Result AccessResult
access_result_of number inner = if number == 4 then ok (value_octets inner) else (do
  values ← application_values inner
  ok (failed (map (λ (tag, body). from_bytes body) (take 2 values))))

-- An opening tag [4] or [5] of an object.
unfoldable pub result_turn : Octets → Reading → Tag → Option ObjectId → Result (Turn Reading)
unfolding put_result access_result_of
result_turn apdu s tag none = ok (go_on tag.next s)
result_turn apdu s tag (some object) =
    if is_kind tag.kind open_tag && (tag.number == 4 || tag.number == 5)
    then (do
      (inner, after) ← constructed_body apdu tag.next
      result ← access_result_of tag.number inner
      ok (go_on after (record s { results = put_result s.results object s.reference result })))
    else ok (go_on tag.next s)

abbrev pub is_context_value : Tag → ℕ → Bool
is_context_value tag number = is_kind tag.kind value && tag.is_context && tag.number == number

unfoldable pub multiple_turn : Octets → Reading → Tag → Result (Turn Reading)
unfolding result_turn set_default
multiple_turn apdu s tag =
    if is_context_value tag 0
    then (do
      object ← object_identifier tag.body
      ok (
          go_on tag.next
            (record s { results = set_default s.results object; current = some object })))
    else if is_context_value tag 2
    then ok (go_on tag.next (record s { reference = (some (from_bytes tag.body), none) }))
    else if is_context_value tag 3
    then ok (go_on tag.next (record s { reference = (s.reference.0, some (from_bytes tag.body)) }))
    else result_turn apdu s tag s.current

unfoldable pub multiple_results_of : Octets → Result (Option Results)
unfolding multiple_turn
multiple_results_of apdu = do s ← scan apdu (multiple_turn apdu) 3 nothing_read; ok (some s.results)

abbrev pub parsed_or_none : Option Octets → Result (Option Results)
parsed_or_none none = ok none
parsed_or_none (some apdu) = none_on_malformed (multiple_results_of apdu)

unfoldable pub parse_read_property_multiple_ack : Option Answer → Result (Option Results)
parse_read_property_multiple_ack answer = do
  apdu ← complex_ack answer (some service_read_property_multiple)
  parsed_or_none apdu

-- What `decode_result` returns: None and errors pass through.
pub data DecodedResult (Text Real : Type 0) : Type 0 where
  missing : DecodedResult Text Real
  refused : List ℕ → DecodedResult Text Real
  decoded : Value Text Real → DecodedResult Text Real

module _ {Text Real : Type 0} (platform : Platform Text Real) where
  unfoldable pub decode_result : Option AccessResult → Result (DecodedResult Text Real)
  decode_result none = ok missing
  decode_result (some (failed numbers)) = ok (refused numbers)
  decode_result (some (value_octets octets)) = do
    v ← decode_application platform octets
    ok (decoded v)
