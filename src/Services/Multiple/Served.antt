-- ===== src/Services/Multiple/Served.antt =====
-- A ReadPropertyMultiple of a client (services.py) that a `SimulatedServer` (peer.py) answers.
use bacnet_profile_example_b.Base.{
  ℕ, ◌^◌, ◌<◌, ◌∙◌, true, Option, none, some, List, [], ◌∷◌, map, ◌≡◌, refl, arith, All, Bool-cases,
  inl, inr, ==_iff, ◌==◌, subst,
}
use bacnet_profile_example_b.Base.Eq.{nat_eq, pair_eq, option_eq}
use bacnet_profile_example_b.Python.{Octets, ok, ◌>>=◌}
use bacnet_profile_example_b.Python.Dict.{Dict, get, member}
use bacnet_profile_example_b.Codec.Decode.{ObjectId}
use bacnet_profile_example_b.Codec.Frame.{Frame}
use bacnet_profile_example_b.Client.{Answer}
use bacnet_profile_example_b.Codec.Scan.Steps.{WellNested}
use bacnet_profile_example_b.Services.Requests.{read_property_multiple_request}
use bacnet_profile_example_b.Services.Multiple.{
  Results, set_default, put_result, parse_read_property_multiple_ack,
}
use bacnet_profile_example_b.Services.Multiple.Contents.{
  look, same_object, look-put_result, look-set_default,
}
use bacnet_profile_example_b.Services.Multiple.Asked.{
  Asked, references, IsAsked, named, last_asked, get-named, named-All,
  read_property_multiple_request-eq, read_access_specifications-asked,
}
use bacnet_profile_example_b.Services.Multiple.RoundTrip.{
  Answers, NestedValue, IsAnswer, result_of, answered, collected, IsObjectAnswer, objects_octets,
  read_property_multiple_ack-eq, parse-read_property_multiple_ack,
}
use bacnet_profile_example_b.Peer.Server.{Server, served_value}
use bacnet_profile_example_b.Peer.Server.Answers.{read_multiple}

-- What is served for a property of an object is what the client finds for it.
module _ (f : ObjectId → ℕ → Option Octets) where
  abbrev Finds : Results → ObjectId → ℕ → Type 0
  Finds results object p = look results object (some p, none) ≡ some (result_of (f object p))

  abbrev served : ObjectId → List ℕ → Answers
  served object properties = map (λ p. (p, f object p)) properties

  abbrev pub all_served : Dict ObjectId (List ℕ) → List (ObjectId × Answers)
  all_served specifications =
      map (λ (object, properties). (object, served object properties)) specifications

  Finds-put :
      (results : Results) (object other : ObjectId) (p q : ℕ)
      → Finds results other q
      → Finds (put_result results object (some p, none) (result_of (f object p))) other q
  Finds-put results object other p q h = ground (
    arith,
    look-put_result results object other (some p, none) (some q, none) (result_of (f object p)),
    (pair_eq {A = ℕ} {B = ℕ}).beq_iff object other,
    h,
  )

  Finds-new :
      (results : Results) (object : ObjectId) (p : ℕ)
      → Finds (put_result results object (some p, none) (result_of (f object p))) object p
  Finds-new results object p = ground (
    arith,
    look-put_result results object object (some p, none) (some p, none) (result_of (f object p)),
    (pair_eq {A = ℕ} {B = ℕ}).beq_iff object object,
  )

  module _ (object : ObjectId) where
    Finds-answered :
        (properties : List ℕ) (results : Results) (other : ObjectId) (q : ℕ)
        → Finds results other q
        → Finds (answered object (served object properties) results) other q
    Finds-answered [] results other q h = h
    Finds-answered (p ∷ properties) results other q h =
        Finds-answered properties _ other q (Finds-put results object other p q h)

    Finds-member :
        (properties : List ℕ) (results : Results) (q : ℕ)
        → member properties q ≡ true
        → Finds (answered object (served object properties) results) object q
    unfolding member
    Finds-member [] results q h = absurd (cc)
    Finds-member (p ∷ properties) results q h = elim (Bool-cases (p == q)) [
      | inl same ↦
          let e : p ≡ q = (==_iff p q).0 same in
          subst (λ x. Finds (answered object (served object (p ∷ properties)) results) object x) e
            (Finds-answered properties _ object p (Finds-new results object p))
      | inr different ↦ Finds-member properties _ q (rw different at h)
    ]

  Finds-collected :
      (specifications : Dict ObjectId (List ℕ)) (results : Results) (other : ObjectId) (q : ℕ)
      → Finds results other q
      → Finds (collected (all_served specifications) results) other q
  Finds-collected [] results other q h = h
  Finds-collected ((object, properties) ∷ specifications) results other q h =
      Finds-collected specifications _ other q (
        Finds-answered object properties (set_default results object) other q
          (rw (look-set_default results object other (some q, none)) h))

  pub Finds-every :
      (specifications : Dict ObjectId (List ℕ)) (results : Results) (object : ObjectId)
      (properties : List ℕ) (q : ℕ)
      → get specifications object ≡ some properties
      → member properties q ≡ true
      → Finds (collected (all_served specifications) results) object q
  unfolding get
  Finds-every [] results object properties q there h = absurd (cc)
  Finds-every ((first, properties') ∷ specifications) results object properties q there h =
      elim (Bool-cases (same_object first object)) [
        | inl same ↦
            let e : first ≡ object = ((pair_eq {A = ℕ} {B = ℕ}).beq_iff first object).0 same in
            let e' : properties' ≡ properties = ground (arith, rw same at there) in
            subst
              (λ x.
                Finds
                  (collected (all_served specifications)
                    (answered first (served first properties') (set_default results first)))
                  x q)
              e
              (Finds-collected specifications _ first q
                (Finds-member first properties' (set_default results first) q (rw e' h)))
        | inr different ↦ Finds-every specifications _ object properties q (rw different at there) h
      ]

-- The answer as it comes to the client: a frame with the octets as its payload.
abbrev pub arrived : Frame → Option Octets → Option Answer
arrived frame none = none
arrived frame (some octets) = some (record { frame = some (record frame { payload = octets }) })

module _ (s : Server) (now n : ℕ) (asked : Asked) (fits : n < 256) (askable : All IsAsked asked)
    (nested : (object : ObjectId) (p : ℕ) (v : Octets)
      → served_value s now object p ≡ some v
      → WellNested v) where
  NestedValue-of : (v : Option Octets) → ((w : Octets) → v ≡ some w → WellNested w) → NestedValue v
  NestedValue-of none h = tt
  NestedValue-of (some v) h = h v refl

  IsAnswer-served :
      (object : ObjectId) (properties : List ℕ)
      → All (λ p. p < 2 ^ 32) properties
      → All IsAnswer (map (λ p. (p, served_value s now object p)) properties)
  IsAnswer-served object [] h = tt
  IsAnswer-served object (p ∷ properties) (first, h) = (
    (first, NestedValue-of (served_value s now object p) (nested object p)),
    IsAnswer-served object properties h,
  )

  IsObjectAnswer-served :
      (specifications : Dict ObjectId (List ℕ))
      → All IsAsked specifications
      → All IsObjectAnswer (all_served (served_value s now) specifications)
  IsObjectAnswer-served [] h = tt
  IsObjectAnswer-served ((object, properties) ∷ specifications) ((identifier, first), h) = (
    (identifier, IsAnswer-served object properties first),
    IsObjectAnswer-served specifications h,
  )

  abbrev specifications : Dict ObjectId (List ℕ)
  specifications = named asked []

  encodable : All IsObjectAnswer (all_served (served_value s now) specifications)
  encodable = IsObjectAnswer-served specifications (named-All IsAsked asked [] askable tt)

  abbrev read_back : Results
  read_back = collected (all_served (served_value s now) specifications) []

  read_multiple-parsed :
      (frame : Frame)
      → frame.network_message ≡ none
      → (read_property_multiple_request n (references asked) >>= λ apdu.
          read_multiple s now n apdu >>= λ (answer, _).
          parse_read_property_multiple_ack (arrived frame answer))
        ≡ ok (some read_back)
  unfolding read_multiple
  read_multiple-parsed frame no_message =
      let answers = all_served (served_value s now) specifications in
      let written = read_property_multiple_ack-eq n answers fits encodable in
      rw
        (
          read_property_multiple_request-eq n asked fits askable,
          read_access_specifications-asked asked askable,
          written,
        )
        (parse-read_property_multiple_ack n answers fits encodable
          (record frame { payload = 0x30 ∷ n ∷ 14 ∷ objects_octets answers }) no_message written)

  -- A client asks a server for properties of objects, each whole, in an encoded ReadPropertyMultiple request whose
  -- identifiers fit their fields. When the values that the server has are well nested, the client reads from the
  -- answer a dictionary that has, for every property that it asked of an object where it named it last, the octets
  -- that the server has for the property at that moment, or the error of an unknown property when it has none.
  pub read_multiple-served :
      (frame : Frame) (object : ObjectId) (properties : List ℕ) (q : ℕ)
      → frame.network_message ≡ none
      → last_asked asked object none ≡ some properties
      → member properties q ≡ true
      → (results : Results) × ((read_property_multiple_request n (references asked) >>= λ apdu.
            read_multiple s now n apdu >>= λ (answer, _).
            parse_read_property_multiple_ack (arrived frame answer))
          ≡ ok (some results))
        × (look results object (some q, none) ≡ some (result_of (served_value s now object q)))
  unfolding get
  read_multiple-served frame object properties q no_message listed asked_for = (
    read_back,
    read_multiple-parsed frame no_message,
    Finds-every (served_value s now) specifications [] object properties q
        (get-named asked [] object ∙ listed) asked_for,
  )
