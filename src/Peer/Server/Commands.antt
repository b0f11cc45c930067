-- ===== src/Peer/Server/Commands.antt =====
-- wiretest/peer.py, what a WriteProperty does to the priority arrays of `SimulatedServer`.
use bacnet_profile_example_b.Base.{
  ℕ, zero, suc, ◌+◌, ◌<◌, ◌≤◌, ◌^◌, Bool, true, not, ◌||◌, Option, none, some, ◌∷◌, [], ◌≡◌, refl,
  arith, length, get_elem?, List, set, ◌==◌, ==_iff, Bool-cases, Option-cases, inl, inr,
  if◌then◌else◌,
}
use bacnet_profile_example_b.Base.Eq.{nat_eq, pair_eq}
use bacnet_profile_example_b.Python.{Octets, ok}
use bacnet_profile_example_b.Python.Dict.{get}
use bacnet_profile_example_b.Codec.Constants.{
  service_write_property, property_present_value, tag_null,
}
use bacnet_profile_example_b.Codec.Requests.{error_pdu, simple_ack}
use bacnet_profile_example_b.Codec.Requests.Shape.{error_pdu-eq, bytes-three}
use bacnet_profile_example_b.Codec.Decode.{WriteRequest, application_tag}
use bacnet_profile_example_b.Codec.Frame.{is_type}
use bacnet_profile_example_b.Peer.Server.{
  Served, stored, Server, Properties, Slots, properties_of, target, is_commanded, is_object,
  slot_index, winning, effective, default_hooks, is_refusing, is_allowed,
}
use bacnet_profile_example_b.Peer.Server.Answers.{
  accept, is_ignored_null, refusal, write_object, write,
}
use bacnet_profile_example_b.Peer.Server.Priority.{
  Follows, Controlled, priority_of, slot_index-priority_of, commanded_slots, after_command,
  accept-commanded, Follows-target, accept-Controlled, first-of_winning,
}

-- What sixteen slots and a default say to show: the value of the first slot that is not empty, or the
-- default when each of the sixteen is empty.
pub data Shows (slots : Slots) (default : Served) : Served → Type 0 where
  filled :
      (i : ℕ) (v : Octets)
      → get_elem? slots i ≡ some (some v)
      → ((j : ℕ) → j < i → get_elem? slots j ≡ some none)
      → Shows slots default (stored v)
  all_empty :
      ((j : ℕ) → j < length slots → get_elem? slots j ≡ some none) → Shows slots default default

winning-none :
    (slots : Slots)
    → winning slots ≡ none
    → (j : ℕ) → j < length slots
    → get_elem? slots j ≡ some none
unfolding winning
winning-none [] h j below = absurd (omega arith)
winning-none (some v ∷ slots) h j below = absurd (cc)
winning-none (none ∷ slots) h zero below = refl
winning-none (none ∷ slots) h (suc j) below = winning-none slots h j (omega arith)

effective-Shows : (slots : Slots) (default : Served) → Shows slots default (effective slots default)
effective-Shows slots default = elim (Option-cases (winning slots)) [
  | inl e ↦ rw e (all_empty (winning-none slots e))
  | inr (v, e) ↦ let (i, at, before) = first-of_winning slots v e in rw e (filled i v at before)
]

get_elem?-set {ℓ} :
    {A : Type ℓ} (xs : List A) (i j : ℕ) (v : A)
    → i < length xs
    → get_elem? (set xs i v) j ≡ (if i == j then some v else get_elem? xs j)
get_elem?-set [] i j v h = absurd (omega arith)
get_elem?-set (x ∷ xs) zero zero v h = refl
get_elem?-set (x ∷ xs) zero (suc j) v h = ground arith
get_elem?-set (x ∷ xs) (suc i) zero v h = ground arith
get_elem?-set (x ∷ xs) (suc i) (suc j) v h =
    let shift : (suc i == suc j) ≡ (i == j) = ground (arith, ==_iff i j, ==_iff (suc i) (suc j)) in
    rw (shift, get_elem?-set xs i j v (omega arith)) refl

abbrev pub new_value : WriteRequest → Bool → Option Octets
new_value request is_null = if is_null then none else some request.value_octets

-- The slot of a priority, the first for priority 1, has the new value, and the others stay.
slot_changed :
    (slots : Slots) (request : WriteRequest) (is_null : Bool) (i : ℕ)
    → slot_index request.priority < length slots
    → get_elem? (commanded_slots slots request is_null) i ≡ (
        if i + 1 == priority_of request.priority
        then some (new_value request is_null)
        else get_elem? slots i)
slot_changed slots request is_null i h =
    let k = slot_index request.priority in
    let same : (i + 1 == priority_of request.priority) ≡ (k == i) = ground (
      arith,
      slot_index-priority_of request.priority,
      ==_iff (i + 1) (priority_of request.priority),
      ==_iff k i,
    ) in
    rw (same, get_elem?-set slots k i (new_value request is_null) h) refl

-- A commanded write that nothing refuses, at a priority p from 1 to 16, where 0 and none stand for 16, is
-- stored without an error: the slot p - 1, counted from 0, holds the value, or is empty after a NULL, the
-- other slots are what they were, and the object shows as its Present_Value the value of the first slot
-- that is not empty, or its Relinquish_Default when all are.
pub accept-serves :
    (s : Server) (request : WriteRequest) (is_null : Bool) (properties : Properties) (slots : Slots)
    (default : Served)
    → get s.objects (target request) ≡ some properties
    → is_commanded s request ≡ true
    → Follows s (target request) slots default
    → priority_of request.priority ≤ 16
    → (s' : Server) × (slots' : Slots) × (served : Served) × (accept s request is_null ≡ ok s')
      × (get s'.priority_arrays (target request) ≡ some slots')
      × (length slots' ≡ 16)
      × ((i : ℕ)
          → get_elem? slots' i ≡ (
              if i + 1 == priority_of request.priority
              then some (new_value request is_null)
              else get_elem? slots i))
      × (get (properties_of s' (target request)) property_present_value ≡ some served)
      × Shows slots' default served
accept-serves s request is_null properties slots default e commanded follows in_range =
    let small : slot_index request.priority < 16 =
      omega (arith, slot_index-priority_of request.priority) in
    let after = Follows-target s request is_null properties e slots default follows commanded in
    let slots' = commanded_slots slots request is_null in
    (
      after_command s properties request is_null slots default,
      slots',
      effective slots' default,
      accept-commanded s request is_null properties slots default e commanded follows small,
      after.has_array,
      after.sixteen,
      λ i. slot_changed slots request is_null i (omega (arith, follows.sixteen)),
      after.shows,
      effective-Shows slots' default,
    )

-- The four answers to a write can be encoded.
module _ (n : ℕ) (fits : n < 256) where
  acknowledged : simple_ack n service_write_property ≡ ok (0x20 ∷ n ∷ 15 ∷ [])
  unfolding simple_ack
  acknowledged = bytes-three 0x20 n 15 (omega arith) fits (omega arith)

  refused :
      (error_class error_code : ℕ)
      → error_class < 2 ^ 32
      → error_code < 2 ^ 32
      → (octets : Octets) × (error_pdu n service_write_property error_class error_code ≡ ok octets)
  refused c e h k = (_, error_pdu-eq n 15 c e fits (omega arith) h k)

  module _ (s : Server) (request : WriteRequest) (tag : Option ℕ)
      (readable : application_tag request.value_octets ≡ ok tag) (controlled : Controlled s)
      (in_range : priority_of request.priority ≤ 16) where
    write_object-Controlled :
        (there : is_object s (target request) ≡ true)
        → (octets : Octets) × (s' : Server) × (write_object default_hooks s n request
              (is_type tag tag_null)
              (refusal default_hooks s request)
            ≡ ok (some octets, s'))
          × Controlled s'
    unfolding refusal write_object
    write_object-Controlled there =
        elim (Bool-cases (is_refusing s.mode || not (is_allowed s request))) [
          | inl denied ↦
              let (octets, e) = refused 2 40 (omega arith) (omega arith) in
              (octets, s, rw (denied, e) refl, controlled)
          | inr allowed ↦ elim (Option-cases (get s.objects (target request))) [
            | inl missing ↦ absurd (let no = rw missing at there in ground (arith, no))
            | inr (properties, found) ↦
                let (s', accepted, kept) =
                  accept-Controlled s request (is_type tag tag_null) properties controlled found
                    in_range in
                (0x20 ∷ n ∷ 15 ∷ [], s', rw (allowed, accepted, acknowledged) refl, kept)
          ]
        ]

    -- A server of which every commandable object serves what its sixteen slots and its Relinquish_Default
    -- say answers every WriteProperty of a readable value at a priority from 1 to 16 (0 and none stand for
    -- 16), whether it accepts the write, refuses it or ignores a NULL, and afterwards every commandable
    -- object still serves what its slots and its default say.
    pub write-Controlled :
        (octets : Octets) × (s' : Server) × (write default_hooks s n request ≡ ok (some octets, s'))
        × Controlled s'
    unfolding write
    write-Controlled = elim (Bool-cases (is_ignored_null s request (is_type tag tag_null))) [
      | inl ignored ↦ (0x20 ∷ n ∷ 15 ∷ [], s, rw (readable, ignored, acknowledged) refl, controlled)
      | inr done ↦ elim (Bool-cases (is_object s (target request))) [
        | inl there ↦
            let (octets, s', answers, kept) = write_object-Controlled there in
            (octets, s', rw (readable, done, there) answers, kept)
        | inr missing ↦
            let (octets, e) = refused 1 31 (omega arith) (omega arith) in
            (octets, s, rw (readable, done, missing, e) refl, controlled)
      ]
    ]
