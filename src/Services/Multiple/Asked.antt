-- ===== src/Services/Multiple/Asked.antt =====
-- What a `SimulatedServer` (peer.py) reads from an encoded ReadPropertyMultiple request (services.py).
use bacnet_profile_example_b.Base.{
  ℕ, ◌^◌, ◌<◌, true, Option, none, some, List, [], ◌∷◌, ◌++◌, map, ◌≡◌, refl, ap, ◌∙◌, arith, All,
  append-nil, append_assoc, if◌then◌else◌,
}
use bacnet_profile_example_b.Base.Eq.{nat_eq, pair_eq}
use bacnet_profile_example_b.Python.{Octets, ok}
use bacnet_profile_example_b.Python.Dict.{Dict, get, put, get-put, get-put_same, put-put, All-put}
use bacnet_profile_example_b.Codec.Tagged.{tagged, opened, closed}
use bacnet_profile_example_b.Codec.Scan.Consumes.{
  Consumes, Consumes-nothing, Consumes-append, Consumes-tagged, Consumes-opened, Consumes-closed,
  Consumes-scan,
}
use bacnet_profile_example_b.Codec.Encode.Minimal.{
  minimal, from_bytes-minimal, length-minimal_bounds,
}
use bacnet_profile_example_b.Codec.Encode.Writes.{
  IsIdentifier, identifier_octets, length-identifier_octets, context_unsigned-eq,
  context_object_id-eq,
}
use bacnet_profile_example_b.Codec.Requests.{
  access_references, read_access_specification, optional_unsigned,
}
use bacnet_profile_example_b.Codec.Requests.Shape.{enclosed-eq, confirmed_request-eq}
use bacnet_profile_example_b.Codec.Decode.{
  ObjectId, Members, append_property, member_step, member_turn, read_access_specifications,
}
use bacnet_profile_example_b.Codec.Decode.Reading.{object_identifier-octets}
use bacnet_profile_example_b.Services.Requests.{
  specification_octets, read_property_multiple_request,
}

-- Objects with the properties that are asked of them, whole: without an array index.
abbrev pub Asked : Type 0
Asked = List (ObjectId × List ℕ)

abbrev pub whole : ℕ → ℕ × Option ℕ
whole p = (p, none)

abbrev pub references : Asked → List (ObjectId × List (ℕ × Option ℕ))
references asked = map (λ (object, properties). (object, map whole properties)) asked

abbrev pub IsAsked : ObjectId × List ℕ → Type 0
IsAsked ((t, i), properties) = IsIdentifier t i × All (λ p. p < 2 ^ 32) properties

abbrev property_octets : List ℕ → Octets
property_octets [] = []
property_octets (p ∷ properties) = tagged 0 true (minimal p) ++ property_octets properties

abbrev asked_octets : Asked → Octets
asked_octets [] = []
asked_octets (((t, i), properties) ∷ asked) =
    (tagged 0 true (identifier_octets t i)
      ++ (opened 1 ++ (property_octets properties ++ closed 1)))
    ++ asked_octets asked

access_references-eq :
    (properties : List ℕ)
    → All (λ p. p < 2 ^ 32) properties
    → access_references (map whole properties) ≡ ok (property_octets properties)
unfolding access_references optional_unsigned
access_references-eq [] h = refl
access_references-eq (p ∷ properties) (first, h) =
    rw (context_unsigned-eq 0 p (omega arith) first, access_references-eq properties h)

specification_octets-eq :
    (asked : Asked)
    → All IsAsked asked
    → specification_octets (references asked) ≡ ok (asked_octets asked)
unfolding specification_octets read_access_specification
specification_octets-eq [] h = refl
specification_octets-eq (((t, i), properties) ∷ asked) ((object, fits), h) = rw (
  context_object_id-eq 0 t i (omega arith) object,
  access_references-eq properties fits,
  enclosed-eq 1 (property_octets properties) (omega arith),
  specification_octets-eq asked h,
)

pub read_property_multiple_request-eq :
    (n : ℕ) (asked : Asked)
    → n < 256
    → All IsAsked asked
    → read_property_multiple_request n (references asked) ≡ ok (0 ∷ 5 ∷ n ∷ 14 ∷ asked_octets asked)
unfolding read_property_multiple_request
read_property_multiple_request-eq n asked fits h =
    rw (specification_octets-eq asked h)
      (confirmed_request-eq n 14 (asked_octets asked) fits (omega arith))

-- The server's dictionary: an object that is named again has the properties of the last time.
abbrev pub named : Asked → Dict ObjectId (List ℕ) → Dict ObjectId (List ℕ)
named [] members = members
named ((object, properties) ∷ asked) members = named asked (put members object properties)

module _ (octets : Octets) where
  abbrev Reads : Octets → Members → Members → Type 0
  Reads = Consumes octets member_turn

  abbrev reading : Dict ObjectId (List ℕ) → Option ObjectId → Members
  reading members current = record { members = members; current = current }

  Reads-object :
      (t i : ℕ) (members : Dict ObjectId (List ℕ))
      → IsIdentifier t i
      → Reads
          (tagged 0 true (identifier_octets t i))
          (reading members none)
          (reading (put members (t, i) []) (some (t, i)))
  unfolding member_turn member_step
  Reads-object t i members h =
      let size = length-identifier_octets t i in
      Consumes-tagged octets member_turn 0 true (identifier_octets t i) _ _ (omega arith) refl
        (omega (arith, size)) (λ position. rw (size, object_identifier-octets t i h))

  module _ (members : Dict ObjectId (List ℕ)) (object : ObjectId) where
    Reads-bracket :
        (done : List ℕ)
        → Reads
            (opened 1)
            (reading (put members object done) (some object))
            (reading (put members object done) (some object))
          × Reads
              (closed 1)
              (reading (put members object done) (some object))
              (reading (put members object done) none)
    unfolding member_turn member_step
    Reads-bracket done = (
      Consumes-opened octets member_turn 1 _ _ (omega arith) (λ position. refl),
      Consumes-closed octets member_turn 1 _ _ (omega arith) (λ position. refl),
    )

    append_property-put :
        (done : List ℕ) (p : ℕ)
        → append_property (put members object done) object p
          ≡ ok (put members object (done ++ p ∷ []))
    unfolding append_property
    append_property-put done p =
        rw (append_property, get-put_same members object done)
          (ap ok (put-put members object done (done ++ p ∷ [])))

    Reads-property :
        (done : List ℕ) (p : ℕ)
        → p < 2 ^ 32
        → Reads
            (tagged 0 true (minimal p))
            (reading (put members object done) (some object))
            (reading (put members object (done ++ p ∷ [])) (some object))
    unfolding member_turn member_step
    Reads-property done p fits =
        Consumes-tagged octets member_turn 0 true (minimal p) _ _ (omega arith) refl
          (omega (arith, length-minimal_bounds p))
          (λ position. rw (from_bytes-minimal p fits, append_property-put done p) refl)

    Reads-properties :
        (properties done : List ℕ)
        → All (λ p. p < 2 ^ 32) properties
        → Reads
            (property_octets properties)
            (reading (put members object done) (some object))
            (reading (put members object (done ++ properties)) (some object))
    Reads-properties [] done h = rw (append-nil done) (Consumes-nothing octets member_turn _)
    Reads-properties (p ∷ properties) done (first, h) =
        rw⁻¹ (append_assoc done (p ∷ []) properties) (
          Consumes-append octets member_turn (tagged 0 true (minimal p))
            (property_octets properties) _ _ _ (Reads-property done p first)
            (Reads-properties properties (done ++ p ∷ []) h))

  Reads-asked :
      (asked : Asked) (members : Dict ObjectId (List ℕ))
      → All IsAsked asked
      → Reads (asked_octets asked) (reading members none) (reading (named asked members) none)
  Reads-asked [] members h = Consumes-nothing octets member_turn _
  Reads-asked (((t, i), properties) ∷ asked) members ((object, fits), h) =
      Consumes-append octets member_turn _ (asked_octets asked) _ _ _
        (Consumes-append octets member_turn (tagged 0 true (identifier_octets t i)) _ _ _ _
          (Reads-object t i members object)
          (Consumes-append octets member_turn (opened 1) _ _ _ _ (Reads-bracket members (t, i) []).0
            (Consumes-append octets member_turn (property_octets properties) (closed 1) _ _ _
              (Reads-properties members (t, i) properties [] fits)
              (Reads-bracket members (t, i) properties).1)))
        (Reads-asked asked (put members (t, i) properties) h)

pub read_access_specifications-asked :
    (asked : Asked)
    → All IsAsked asked
    → read_access_specifications (asked_octets asked) ≡ ok (named asked [])
unfolding read_access_specifications
read_access_specifications-asked asked h =
    rw
      (Consumes-scan (asked_octets asked) member_turn (asked_octets asked) 0
        (record { members = []; current = none })
        (record { members = named asked []; current = none })
        (Reads-asked (asked_octets asked) asked [] h) refl)
      refl

-- The properties that are asked of an object where it is named last.
abbrev pub last_asked : Asked → ObjectId → Option (List ℕ) → Option (List ℕ)
last_asked [] object before = before
last_asked ((o, properties) ∷ asked) object before =
    last_asked asked object
      (if (pair_eq {A = ℕ} {B = ℕ}).beq o object then some properties else before)

pub get-named :
    (asked : Asked) (members : Dict ObjectId (List ℕ)) (object : ObjectId)
    → get (named asked members) object ≡ last_asked asked object (get members object)
get-named [] members object = refl
get-named ((o, properties) ∷ asked) members object =
    get-named asked (put members o properties) object
    ∙ ap (last_asked asked object) (get-put members o object properties)

pub named-All {ℓ} :
    (P : ObjectId × List ℕ → Type ℓ) (asked : Asked) (members : Dict ObjectId (List ℕ))
    → All P asked
    → All P members
    → All P (named asked members)
named-All P [] members h all = all
named-All P ((object, properties) ∷ asked) members (first, h) all =
    named-All P asked (put members object properties) h
      (All-put P members object properties all first)
