-- ===== src/Peer/Server/Levels/Refines.antt =====
-- The writes of a `SimulatedServer` (wiretest/peer.py) keep the promise that `Levels` states.
use bacnet_profile_example_b.Base.{
  ℕ, ◌≤◌, Bool, true, false, ◌&&◌, Option, none, some, List, [], ◌∷◌, ◌≡◌, refl, sym, ap, ◌∙◌,
  subst, arith, set, All, All-map, Bool-cases, Option-cases, inl, inr, ◌==◌, ==_iff, if◌then◌else◌,
}
use bacnet_profile_example_b.Base.Eq.{nat_eq, pair_eq}
use bacnet_profile_example_b.Python.{Octets, ok}
use bacnet_profile_example_b.Python.Dict.{Dict, get, put, get-put}
use bacnet_profile_example_b.Codec.Constants.{property_present_value}
use bacnet_profile_example_b.Codec.Decode.{ObjectId, WriteRequest}
use bacnet_profile_example_b.Peer.Server.{
  Served, stored, Server, Properties, properties_of, served_value, is_there, is_object,
  is_commandable, target, is_commanded, slot_index, effective, shown,
}
use bacnet_profile_example_b.Peer.Server.Answers.{accept}
use bacnet_profile_example_b.Peer.Server.Priority.{
  Follows, stored_in, get-stored_in, after_command, priority_of, slot_index-priority_of,
  accept-commanded, accept-plain, get-after_command, Follows-target, Follows-other, Follows-plain,
}
use bacnet_profile_example_b.Peer.Server.Levels.{
  Levels, same_object, written, all_written, highest, value_of, accept_all, slots_of,
  winning-slots_from, slots_from-changed,
}

-- The server is in a state that the abstract one describes.
pub record Represents (s : Server) (a : Levels) : Type 0 where
  pub same_objects : (object : ObjectId) → is_commandable s.commandable object ≡ a.has_levels object
  pub follows :
      (object : ObjectId)
      → is_commandable s.commandable object ≡ true
      → Follows s object (slots_of (a.level object)) (a.default object)
  pub same_properties :
      (object : ObjectId) (p : ℕ)
      → (is_commandable s.commandable object && p == property_present_value) ≡ false
      → get (properties_of s object) p ≡ a.property object p

effective-shown :
    (level : ℕ → Option Octets) (default : Served)
    → effective (slots_of level) default ≡ shown (highest 16 1 level) default
effective-shown level default = ap (λ v. shown v default) (winning-slots_from 16 1 level)

module _ (s : Server) (a : Levels) (represents : Represents s a) where
  -- What is served is what the abstract state says.
  served_value-Represents :
      (now : ℕ) (object : ObjectId) (p : ℕ) → served_value s now object p ≡ value_of a now object p
  unfolding served_value
  served_value-Represents now object p =
      elim (Bool-cases (is_commandable s.commandable object && p == property_present_value)) [
        | inl controlled ↦
            let on = rw (represents.same_objects object) at controlled in
            let present : p ≡ property_present_value =
              ground (arith, controlled, ==_iff p property_present_value) in
            let commandable : is_commandable s.commandable object ≡ true =
              ground (arith, controlled) in
            let shows = (represents.follows object commandable).shows in
            rw (on, present, shows, effective-shown (a.level object) (a.default object)) refl
        | inr plain ↦
            let off = rw (represents.same_objects object) at plain in
            rw (off, represents.same_properties object p plain) refl
      ]

  module _ (request : WriteRequest) (is_null : Bool) (properties : Properties)
      (there : get s.objects (target request) ≡ some properties) where
    Represents-plain :
        is_commanded s request ≡ false
        → Represents
            (stored_in s
              (target request)
              properties
              request.property_identifier
              (stored request.value_octets))
            (written a request is_null)
    unfolding is_commanded
    Represents-plain plain =
        let off = rw (represents.same_objects (target request)) at plain in
        rw off (record {
          same_objects = represents.same_objects;
          follows = λ object commandable.
              Follows-plain s request is_null properties there (slots_of (a.level object))
                (a.default object) object (represents.follows object commandable) commandable plain;
          same_properties = λ object p uncommanded.
              get-stored_in s (target request) properties request.property_identifier
                (stored request.value_octets) there object p
              ∙ rw (represents.same_properties object p uncommanded) refl;
        })

    abbrev after : Server
    after =
        after_command s properties request is_null (slots_of (a.level (target request)))
          (a.default (target request))

    abbrev new_level : Option Octets
    new_level = if is_null then none else some request.value_octets

    Follows-written :
        is_commanded s request ≡ true
        → priority_of request.priority ≤ 16
        → (object : ObjectId) → is_commandable s.commandable object ≡ true
        → Follows after object
            (slots_of (λ i.
              if same_object (target request) object && i == priority_of request.priority
              then new_level
              else a.level object i))
            (a.default object)
    unfolding is_commanded
    Follows-written commanded small object commandable =
        elim (Bool-cases (same_object (target request) object)) [
          | inl same ↦
              let e : target request ≡ object =
                ((pair_eq {A = ℕ} {B = ℕ}).beq_iff (target request) object).0 same in
              rw
                (
                  same,
                  slots_from-changed (a.level object) (priority_of request.priority) new_level 16 1
                      (slot_index request.priority)
                      (omega (arith, slot_index-priority_of request.priority)),
                )
                (subst
                  (λ o.
                    Follows after o
                      (set (slots_of (a.level o)) (slot_index request.priority) new_level)
                      (a.default o))
                  e
                  (Follows-target s request is_null properties there
                    (slots_of (a.level (target request))) (a.default (target request))
                    (represents.follows (target request) (ground (arith, commanded))) commanded))
          | inr different ↦ rw different (
              Follows-other s request is_null properties there (slots_of (a.level (target request)))
                (slots_of (a.level object)) (a.default (target request)) (a.default object) object
                (represents.follows object commandable) different)
        ]

    -- The command reaches no property that is not controlled.
    untouched :
        is_commanded s request ≡ true
        → (object : ObjectId) (p : ℕ)
        → (is_commandable s.commandable object && p == property_present_value) ≡ false
        → (same_object (target request) object && request.property_identifier == p) ≡ false
    unfolding is_commanded
    untouched commanded object p uncommanded =
        elim (Bool-cases (same_object (target request) object)) [
          | inl same ↦
              let e : target request ≡ object =
                ((pair_eq {A = ℕ} {B = ℕ}).beq_iff (target request) object).0 same in
              let commandable : is_commandable s.commandable object ≡ true =
                ap (is_commandable s.commandable) (sym e) ∙ ground (arith, commanded) in
              rw same (
                ground (
                  arith,
                  commanded,
                  commandable,
                  uncommanded,
                  ==_iff request.property_identifier p,
                  ==_iff request.property_identifier property_present_value,
                  ==_iff p property_present_value,
                ))
          | inr different ↦ rw different refl
        ]

    Represents-commanded :
        is_commanded s request ≡ true
        → priority_of request.priority ≤ 16
        → Represents after (written a request is_null)
    unfolding is_commanded
    Represents-commanded commanded small =
        let on = rw (represents.same_objects (target request)) at commanded in
        rw on (record {
          same_objects = represents.same_objects;
          follows = Follows-written commanded small;
          same_properties = λ object p uncommanded.
              let elsewhere = untouched commanded object p uncommanded in
              get-after_command s request is_null properties there
                (slots_of (a.level (target request))) (a.default (target request)) object p
              ∙ rw elsewhere (represents.same_properties object p uncommanded);
        })

-- A write that the theorem speaks of: to an object of the server, at a priority up to 16.
abbrev pub IsAcceptable : Server → WriteRequest × Bool → Type 0
IsAcceptable s (request, is_null) =
    (is_object s (target request) ≡ true) × (priority_of request.priority ≤ 16)

is_there-put :
    (objects : Dict ObjectId Properties) (object other : ObjectId) (properties : Properties)
    → is_there (get objects other) ≡ true
    → is_there (get (put objects object properties) other) ≡ true
is_there-put objects object other properties h =
    rw (get-put objects object other properties) (ground (arith, h))

module _ (s : Server) (a : Levels) (represents : Represents s a) (request : WriteRequest)
    (is_null : Bool) (object_there : is_object s (target request) ≡ true)
    (in_range : priority_of request.priority ≤ 16) where
  -- One write: it is accepted, and leads to a server that the abstract write describes, with the same objects.
  accept-Represents :
      (s' : Server) × (accept s request is_null ≡ ok s')
      × Represents s' (written a request is_null)
      × ((object : ObjectId) → is_object s object ≡ true → is_object s' object ≡ true)
  accept-Represents = elim (Option-cases (get s.objects (target request))) [
    | inl missing ↦ absurd (let no = rw missing at object_there in ground (arith, no))
    | inr (properties, there) ↦ elim (Bool-cases (is_commanded s request)) [
      | inl commanded ↦
          let follows =
            represents.follows (target request)
              (unfold is_commanded in ground (arith, commanded)) in
          (
            after s a represents request is_null properties there,
            accept-commanded s request is_null properties (slots_of (a.level (target request)))
                (a.default (target request)) there commanded follows
                (omega (arith, slot_index-priority_of request.priority)),
            Represents-commanded s a represents request is_null properties there commanded in_range,
            λ object h.
                is_there-put _ (target request) object _
                  (is_there-put s.objects (target request) object _ h),
          )
      | inr plain ↦ (
        stored_in s (target request) properties request.property_identifier
            (stored request.value_octets),
        accept-plain s request is_null properties there plain,
        Represents-plain s a represents request is_null properties there plain,
        λ object h. is_there-put s.objects (target request) object _ h,
      )
    ]
  ]

pub accept_all-refines :
    (requests : List (WriteRequest × Bool)) (s : Server) (a : Levels)
    → Represents s a
    → All (IsAcceptable s) requests
    → (s' : Server) × (accept_all s requests ≡ ok s')
      × ((now : ℕ) (object : ObjectId) (p : ℕ)
          → served_value s' now object p ≡ value_of (all_written a requests) now object p)
accept_all-refines [] s a represents h = (s, refl, served_value-Represents s a represents)
accept_all-refines ((request, is_null) ∷ requests) s a represents ((there, small), h) =
    let (s', accepted, represents', objects) =
      accept-Represents s a represents request is_null there small in
    let (s'', all_accepted, agrees) =
      accept_all-refines requests s' (written a request is_null) represents'
        (All-map requests (λ (r, n) (known, fits). (objects (target r) known, fits)) h) in
    (s'', rw accepted all_accepted, agrees)
