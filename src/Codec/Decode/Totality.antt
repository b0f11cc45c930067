-- ===== src/Codec/Decode/Totality.antt =====
-- Every decoder ends on every octets: it returns a value or raises one of the exceptions of malformed
-- octets; its loops never run out of fuel.
use bacnet_profile_example_b.Base.{
  ℕ, Bool, not, ◌&&◌, Option, none, some, List, [], ◌∷◌, ◌++◌, ◌≢◌, arith, length, drop, ltb, ◌==◌,
  Option-cases, inl, inr,
}
use bacnet_profile_example_b.Base.Bits.{shr}
use bacnet_profile_example_b.Codec.Constants.{pdu_confirmed_request}
use bacnet_profile_example_b.Base.Eq.{nat_eq, pair_eq}
use bacnet_profile_example_b.Python.{
  Octets, Exception, Result, index_error, struct_error, value_error, none_on_malformed, from_bytes,
}
use bacnet_profile_example_b.Python.Dict.{Dict, get, put, get-put}
use bacnet_profile_example_b.Python.Ends.{Ends, returns, raises, Malformed, Ends-if, Ends-bind}
use bacnet_profile_example_b.Codec.Tag.{Tag, value, close_tag, open_tag}
use bacnet_profile_example_b.Codec.Tag.Advances.{index-Ends, unpack-Ends, read_tag-Ends}
use bacnet_profile_example_b.Codec.Scan.Fuel.{scan-Ends, nested_body-Ends}
use bacnet_profile_example_b.Codec.Decode.{
  ObjectId, Members, is_kind, object_identifier, property_value_turn, read_property_value,
  element_turn, application_elements, application_turn, application_values, context_turn,
  context_values, error_class_and_code, append_property, member_step, member_turn,
  read_access_specifications, trailing_index, read_property_parameters, parse_read_property_request,
  is_write_property, optional_index, trailing_priority, write_property_parameters,
  parse_write_property_request,
}

-- A value or an exception of malformed octets.
abbrev pub Total {ℓ} : {A : Type ℓ} → Result A → Type ℓ
Total r = Ends (λ _. Unit {0}) Malformed r

abbrev pub OnlyValueError : Exception → Type 0
OnlyValueError value_error = Unit {0}
OnlyValueError _ = ⊥

pub none_on_malformed-Ends {ℓ} :
    {A : Type ℓ} {r : Result (Option A)}
    → Total r
    → Ends (λ _. Unit {0}) OnlyValueError (none_on_malformed r)
none_on_malformed-Ends (returns h) = returns h
none_on_malformed-Ends (raises {e = index_error} h) = returns tt
none_on_malformed-Ends (raises {e = struct_error} h) = returns tt
none_on_malformed-Ends (raises {e = value_error} h) = raises tt
none_on_malformed-Ends (raises {e = Exception.overflow_error} h) = absurd h
none_on_malformed-Ends (raises {e = Exception.type_error} h) = absurd h
none_on_malformed-Ends (raises {e = Exception.key_error} h) = absurd h

module _ (octets : Octets) where
  pub application_values-Total : Total (application_values octets)
  unfolding application_values application_turn
  application_values-Total =
      scan-Ends octets application_turn (λ s. Unit) 0 [] (λ s p tag h lt. returns (lt, tt)) tt

  pub context_values-Total : Total (context_values octets)
  unfolding context_values context_turn
  context_values-Total =
      scan-Ends octets context_turn (λ s. Unit) 0 [] (λ s p tag h lt. returns (lt, tt)) tt

  -- Splitting any octets into tagged elements ends: it returns the elements, or raises IndexError,
  -- struct.error or ValueError.
  pub application_elements-Total : Total (application_elements octets)
  unfolding application_elements element_turn
  application_elements-Total =
      Ends-bind
        (scan-Ends octets (element_turn octets) (λ s. Unit) 0 (0, [])
          (λ s p tag h lt. returns (lt, tt)) tt)
        λ r e h. returns tt

  -- Looking for the value of a ReadProperty-ACK ends on any octets, with both of its loops: it returns a
  -- value or None, or raises IndexError, struct.error or ValueError.
  pub read_property_value-Total : Total (read_property_value octets)
  unfolding read_property_value property_value_turn
  read_property_value-Total =
      scan-Ends octets (property_value_turn octets) (λ s. Unit) 3 none
        (λ s p tag h lt.
          Ends-if (tag.is_context && tag.number == 3 && is_kind tag.kind open_tag)
            (λ t. Ends-bind (nested_body-Ends octets tag.next) λ r e k. returns tt)
            (λ f. returns (lt, tt)))
        tt

pub error_class_and_code-Total : (apdu : Octets) → Total (error_class_and_code apdu)
unfolding error_class_and_code
error_class_and_code-Total apdu =
    Ends-bind (application_values-Total (drop 3 apdu)) λ r e h. returns tt

pub object_identifier-Total : (body : Octets) → Total (object_identifier body)
unfolding object_identifier
object_identifier-Total body = Ends-bind (unpack-Ends 4 body) λ raw e h. returns tt

module _ (apdu : Octets) where
  trailing_index-Total : (p : ℕ) → Total (trailing_index apdu p)
  unfolding trailing_index
  trailing_index-Total p =
      Ends-if (ltb p (length apdu)) (λ t. Ends-bind (read_tag-Ends apdu p) λ tag e h. returns tt)
        (λ f. returns tt)

  trailing_priority-Total : (p : ℕ) → Total (trailing_priority apdu p)
  unfolding trailing_priority
  trailing_priority-Total p =
      Ends-if (ltb p (length apdu)) (λ t. Ends-bind (read_tag-Ends apdu p) λ tag e h. returns tt)
        (λ f. returns tt)

  optional_index-Total : (p : ℕ) → Total (optional_index apdu p)
  unfolding optional_index
  optional_index-Total p = Ends-bind (read_tag-Ends apdu p) λ tag e h. returns tt

  read_property_parameters-Total : (w : Bool) → Total (read_property_parameters apdu w)
  unfolding read_property_parameters
  read_property_parameters-Total w = Ends-bind (read_tag-Ends apdu 4) λ tag e h.
      Ends-bind (object_identifier-Total tag.body) λ object e h.
        Ends-bind (read_tag-Ends apdu tag.next) λ tag' e h.
          Ends-bind (Ends-if w (λ t. trailing_index-Total tag'.next) (λ f. returns tt))
            λ array_index e h. returns tt

  write_property_parameters-Total : Total (write_property_parameters apdu)
  unfolding write_property_parameters
  write_property_parameters-Total = Ends-bind (read_tag-Ends apdu 4) λ tag e h.
      Ends-bind (object_identifier-Total tag.body) λ object e h.
        Ends-bind (read_tag-Ends apdu tag.next) λ tag' e h.
          Ends-bind (optional_index-Total tag'.next) λ (array_index, p) e h.
            Ends-bind (read_tag-Ends apdu p) λ value_tag e h.
              Ends-bind (nested_body-Ends apdu value_tag.next) λ (v, after) e h.
                Ends-bind (trailing_priority-Total after) λ priority e h. returns tt

  is_write_property-Total : Total (is_write_property apdu)
  unfolding is_write_property
  is_write_property-Total = Ends-bind (index-Ends apdu 0) λ first e h.
      Ends-if (not (shr first 4 == pdu_confirmed_request)) (λ t. returns tt)
        (λ f. Ends-bind (index-Ends apdu 3) λ choice e h. returns tt)

  -- On any octets the ReadProperty parser returns a request or None, or raises ValueError.
  pub parse_read_property_request-Ends :
      (w : Bool) → Ends (λ _. Unit {0}) OnlyValueError (parse_read_property_request apdu w)
  unfolding parse_read_property_request
  parse_read_property_request-Ends w = none_on_malformed-Ends (read_property_parameters-Total w)

  -- On any octets the WriteProperty parser returns a request or None, or raises ValueError.
  pub parse_write_property_request-Ends :
      Ends (λ _. Unit {0}) OnlyValueError (parse_write_property_request apdu)
  unfolding parse_write_property_request
  parse_write_property_request-Ends = none_on_malformed-Ends (
      Ends-bind is_write_property-Total
        λ writes e h. Ends-if writes (λ t. write_property_parameters-Total) (λ f. returns tt))

-- The object that is being read has an entry in the dictionary.
abbrev HasEntry : Dict ObjectId (List ℕ) → Option ObjectId → Type 0
HasEntry members none = Unit {0}
HasEntry members (some object) = get members object ≢ none

abbrev EntryOf : Members → Type 0
EntryOf s = HasEntry s.members s.current

get-put_self :
    (d : Dict ObjectId (List ℕ)) (object : ObjectId) (v : List ℕ)
    → get (put d object v) object ≢ none
get-put_self d object v missing =
    ground
      (arith, get-put d object object v, missing, (pair_eq {A = ℕ} {B = ℕ}).beq_iff object object)

append_property-Ends :
    (members : Dict ObjectId (List ℕ)) (object : ObjectId) (property : ℕ)
    → HasEntry members (some object)
    → Ends (λ d. HasEntry d (some object)) Malformed (append_property members object property)
unfolding append_property
append_property-Ends members object property h = elim (Option-cases (get members object)) [
  | inl missing ↦ absurd (h missing)
  | inr (properties, there) ↦
      rw (there, append_property)
        (returns (get-put_self members object (properties ++ property ∷ [])))
]

member_step-Ends :
    (members : Dict ObjectId (List ℕ)) (current : Option ObjectId) (tag : Tag)
    → HasEntry members current
    → Ends EntryOf Malformed (member_step members current tag)
unfolding member_step
member_step-Ends members none tag h =
    Ends-if (is_kind tag.kind value && tag.is_context && tag.number == 0 && length tag.body == 4)
      (λ t.
        Ends-bind (object_identifier-Total tag.body)
          λ object e k. returns (get-put_self members object []))
      (λ f. returns tt)
member_step-Ends members (some object) tag h =
    Ends-if (is_kind tag.kind value && tag.is_context && tag.number == 0)
      (λ t.
        Ends-bind (append_property-Ends members object (from_bytes tag.body) h) λ d e k. returns k)
      (λ f.
        Ends-if (is_kind tag.kind close_tag && tag.number == 1) (λ t. returns tt) (λ f. returns h))

-- The decoder of a list of ReadAccessSpecifications ends on any octets: it returns a value or raises
-- IndexError, struct.error or ValueError. So it never extends the list of an object without an entry,
-- which would be a KeyError.
pub read_access_specifications-Total : (octets : Octets) → Total (read_access_specifications octets)
unfolding read_access_specifications member_turn
read_access_specifications-Total octets =
    Ends-bind
      (scan-Ends octets member_turn EntryOf 0 (record { members = []; current = none })
        (λ s p tag h lt.
          Ends-bind (member_step-Ends s.members s.current tag h) λ s' e k. returns (lt, k))
        tt)
      λ s e h. returns tt
