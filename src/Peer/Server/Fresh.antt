-- ===== src/Peer/Server/Fresh.antt =====
-- wiretest/peer.py, the state in which `SimulatedServer.__init__` leaves a server.
use bacnet_profile_example_b.Base.{
  ℕ, Bool, true, Option, none, some, List, [], ◌∷◌, ◌≡◌, refl, sym, ap, ◌∙◌, map, replicate,
  Bool-cases, inl, inr,
}
use bacnet_profile_example_b.Base.Eq.{nat_eq, pair_eq}
use bacnet_profile_example_b.Python.{ok}
use bacnet_profile_example_b.Python.Dict.{Dict, get, member}
use bacnet_profile_example_b.Codec.Constants.{property_present_value}
use bacnet_profile_example_b.Codec.Decode.{ObjectId}
use bacnet_profile_example_b.Peer.Server.{
  Served, Server, Properties, properties_of, properties_or_empty, is_commandable, winning,
  defaults_of, new_server, empty_slots, or_nothing, fresh,
}
use bacnet_profile_example_b.Peer.Server.Priority.{Follows, Controlled}

-- Every object of the list is served with a Present_Value.
abbrev pub HasPresentValues : Dict ObjectId Properties → List ObjectId → Type 0
HasPresentValues objects commandable =
    (object : ObjectId)
    → member commandable object ≡ true
    → (properties : Properties) × (default : Served) × (get objects object ≡ some properties)
      × (get properties property_present_value ≡ some default)

has_empty_slots :
    (commandable : List ObjectId) (object : ObjectId)
    → member commandable object ≡ true
    → get (map (λ o. (o, empty_slots)) commandable) object ≡ some empty_slots
unfolding get member
has_empty_slots [] object h = cc
has_empty_slots (o ∷ commandable) object h = elim (Bool-cases (pair_eq.beq o object)) [
  | inl same ↦ rw same refl
  | inr different ↦ rw different (has_empty_slots commandable object (rw (sym h, different) refl))
]

member-here : (o : ObjectId) (objects : List ObjectId) → member (o ∷ objects) o ≡ true
unfolding member
member-here o objects = rw ((pair_eq.beq_iff o o).1 refl) refl

member-behind :
    (o object : ObjectId) (objects : List ObjectId)
    → member objects object ≡ true
    → member (o ∷ objects) object ≡ true
unfolding member
member-behind o object objects m = elim (Bool-cases (pair_eq.beq o object)) [
  | inl same ↦ rw same refl
  | inr different ↦ rw different m
]

-- The defaults are found, and each is the Present_Value of its object.
defaults_of-eq :
    (objects : Dict ObjectId Properties) (commandable : List ObjectId)
    → HasPresentValues objects commandable
    → (defaults : Dict ObjectId Served) × (defaults_of objects commandable ≡ ok defaults)
      × ((object : ObjectId)
          → member commandable object ≡ true
          → get defaults object
            ≡ get (properties_or_empty (get objects object)) property_present_value)
unfolding defaults_of get member
defaults_of-eq objects [] h = ([], refl, λ object m. cc)
defaults_of-eq objects (o ∷ commandable) h =
    let (properties, default, has_object, has_value) = h o (member-here o commandable) in
    let (defaults, e, values) =
      defaults_of-eq objects commandable
        (λ object m. h object (member-behind o object commandable m)) in
    (
      (o, default) ∷ defaults,
      rw (has_object, has_value, e) refl,
      λ object m. elim (Bool-cases (pair_eq.beq o object)) [
        | inl same ↦
            let at : get objects object ≡ some properties =
              ap (get objects) (sym ((pair_eq.beq_iff o object).0 same)) ∙ has_object in
            rw (same, at, has_value) refl
        | inr different ↦ rw different (values object (rw (sym m, different) refl))
      ],
    )

Follows-fresh :
    (s : Server) (object : ObjectId) (default : Served)
    → get s.priority_arrays object ≡ some empty_slots
    → get s.relinquish_defaults object ≡ some default
    → get (properties_of s object) property_present_value ≡ some default
    → Follows s object empty_slots default
unfolding winning properties_of
Follows-fresh s object default arrays defaults value = record {
  has_array = arrays;
  sixteen = refl;
  has_default = defaults;
  shows = value;
}

-- What a commandable object has at the start: sixteen empty slots, and the Present_Value that it was given as
-- its Relinquish_Default and as what it serves.
abbrev pub Starts : Server → ObjectId → Type 0
Starts s object =
    (given : Served) × (get (properties_of s object) property_present_value ≡ some given)
    × (get s.relinquish_defaults object ≡ some given)
    × (get s.priority_arrays object ≡ some (replicate 16 none))

-- A server whose commandable objects all have a Present_Value is made without an error and with its objects as
-- they were given, and at the start every commandable object has sixteen empty slots and has, as its
-- Relinquish_Default and as the Present_Value that it serves, the Present_Value that it was given; so every one
-- of them serves what its slots and its default say.
pub new_server-Controlled :
    (objects : Dict ObjectId Properties) (writable : Option (List (ObjectId × ℕ)))
    (commandable : Option (List ObjectId)) (array_elements : Bool)
    → HasPresentValues objects (or_nothing commandable)
    → (s : Server) × (new_server objects writable commandable array_elements ≡ ok s)
      × (s.objects ≡ objects)
      × ((object : ObjectId) → is_commandable s.commandable object ≡ true → Starts s object)
      × Controlled s
unfolding new_server Controlled properties_of is_commandable defaults_of
new_server-Controlled objects writable none array_elements h =
    (fresh objects writable none array_elements [], refl, refl, λ object m. cc, λ object m. cc)
new_server-Controlled objects writable (some commandable) array_elements h =
    let (defaults, e, values) = defaults_of-eq objects commandable h in
    (
      fresh objects writable (some commandable) array_elements defaults,
      rw e refl,
      refl,
      λ object m.
          let (properties, default, has_object, has_value) = h object m in
          let value : get (properties_or_empty (get objects object)) property_present_value
              ≡ some default =
            rw (has_object, has_value) refl in
          (default, value, values object m ∙ value, has_empty_slots commandable object m),
      λ object m.
          let (properties, default, has_object, has_value) = h object m in
          let value : get (properties_or_empty (get objects object)) property_present_value
              ≡ some default =
            rw (has_object, has_value) refl in
          (
            empty_slots,
            default,
            Follows-fresh (fresh objects writable (some commandable) array_elements defaults) object
                default (has_empty_slots commandable object m) (values object m ∙ value) value,
          ),
    )
