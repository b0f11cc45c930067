-- ===== src/Peer/Server/Priority.antt =====
-- wiretest/peer.py, the 16-slot priority arrays of `SimulatedServer`.
use bacnet_profile_example_b.Base.{
  ℕ, zero, suc, ◌<◌, Bool, true, false, ◌&&◌, none, some, [], ◌∷◌, ◌≡◌, refl, sym, ap, ◌∙◌, ◌↔◌,
  subst, arith, length, get_elem?, set, length-set, ltb, ◌==◌, Bool-cases, inl, inr, if◌then◌else◌,
  ◌≤◌, ◌+◌, Option,
}
use bacnet_profile_example_b.Base.Eq.{nat_eq, pair_eq}
use bacnet_profile_example_b.Python.{Octets, ok}
use bacnet_profile_example_b.Python.Dict.{get, put, get-put, get-put_same}
use bacnet_profile_example_b.Codec.Constants.{property_present_value}
use bacnet_profile_example_b.Codec.Decode.{ObjectId, WriteRequest}
use bacnet_profile_example_b.Peer.Server.{
  Served, stored, Server, Properties, Slots, properties_of, is_commandable, target, is_commanded,
  slot_index, set_slot, winning, effective, shown, shown_value, store, command,
}
use bacnet_profile_example_b.Peer.Server.Answers.{accept}

-- The server after `store` has succeeded.
abbrev pub stored_in : Server → ObjectId → Properties → ℕ → Served → Server
stored_in s object properties p v = record s { objects = put s.objects object (put properties p v) }

store-eq :
    (s : Server) (object : ObjectId) (properties : Properties) (p : ℕ) (v : Served)
    → get s.objects object ≡ some properties
    → store s object p v ≡ ok (stored_in s object properties p v)
unfolding store
store-eq s object properties p v e = rw e refl

-- Every property of every object after a store.
pub get-stored_in :
    (s : Server) (object : ObjectId) (properties : Properties) (p : ℕ) (v : Served)
    → get s.objects object ≡ some properties
    → (other : ObjectId) (q : ℕ)
    → get (properties_of (stored_in s object properties p v) other) q
      ≡ (if pair_eq.beq object other && p == q then some v else get (properties_of s other) q)
unfolding properties_of
get-stored_in s object properties p v e other q = elim (Bool-cases (pair_eq.beq object other)) [
  | inl same ↦
      let at_other : get s.objects other ≡ some properties =
        ap (get s.objects) (sym ((pair_eq.beq_iff object other).0 same)) ∙ e in
      rw
        (
          get-put s.objects object other (put properties p v),
          same,
          at_other,
          get-put properties p q v,
        )
        refl
  | inr different ↦ rw (get-put s.objects object other (put properties p v), different) refl
]

-- A commandable object whose served Present_Value is what its sixteen slots and its default say.
pub record Follows (s : Server) (object : ObjectId) (slots : Slots) (default : Served)
    : Type 0 where
  pub has_array : get s.priority_arrays object ≡ some slots
  pub sixteen : length slots ≡ 16
  pub has_default : get s.relinquish_defaults object ≡ some default
  pub shows : get (properties_of s object) property_present_value ≡ some (effective slots default)

-- The priority that a write is made at: without one, or with 0, it is 16.
abbrev pub priority_of : Option ℕ → ℕ
priority_of none = 16
priority_of (some zero) = 16
priority_of (some (suc p)) = suc p

pub slot_index-priority_of : (priority : Option ℕ) → slot_index priority + 1 ≡ priority_of priority
unfolding slot_index
slot_index-priority_of none = refl
slot_index-priority_of (some zero) = refl
slot_index-priority_of (some (suc p)) = omega arith

-- Every commandable object follows its priority array.
unfoldable pub Controlled : Server → Type 0
Controlled s =
    (object : ObjectId)
    → is_commandable s.commandable object ≡ true
    → (slots : Slots) × (default : Served) × Follows s object slots default

-- The slots that a command leaves.
abbrev pub commanded_slots : Slots → WriteRequest → Bool → Slots
commanded_slots slots request is_null =
    set slots (slot_index request.priority) (if is_null then none else some request.value_octets)

-- The server after an accepted write to a commanded Present_Value.
abbrev pub after_command : Server → Properties → WriteRequest → Bool → Slots → Served → Server
after_command s properties request is_null slots default =
    let object = target request in
    let p = request.property_identifier in
    let written = put properties p (stored request.value_octets) in
    let slots' = commanded_slots slots request is_null in
    stored_in
      (record (stored_in s object properties p (stored request.value_octets)) {
        priority_arrays = put s.priority_arrays object slots';
      })
      object written p (effective slots' default)

shown_value-shown :
    (v : Option Octets) (default : Served) → shown_value v (some default) ≡ ok (shown v default)
shown_value-shown none default = refl
shown_value-shown (some v) default = refl

pub accept-commanded :
    (s : Server) (request : WriteRequest) (is_null : Bool) (properties : Properties) (slots : Slots)
    (default : Served)
    → get s.objects (target request) ≡ some properties
    → is_commanded s request ≡ true
    → Follows s (target request) slots default
    → slot_index request.priority < 16
    → accept s request is_null ≡ ok (after_command s properties request is_null slots default)
unfolding accept command set_slot store
accept-commanded s request is_null properties slots default e commanded follows small =
    let inside : ltb (slot_index request.priority) (length slots) ≡ true =
      ground (arith, follows.sixteen) in
    let again =
      get-put_same s.objects (target request)
        (put properties request.property_identifier (stored request.value_octets)) in
    let value = shown_value-shown (winning (commanded_slots slots request is_null)) default in
    rw (e, commanded, follows.has_array, inside, follows.has_default, value, again) refl

pub accept-plain :
    (s : Server) (request : WriteRequest) (is_null : Bool) (properties : Properties)
    → get s.objects (target request) ≡ some properties
    → is_commanded s request ≡ false
    → accept s request is_null
      ≡ ok (
          stored_in s
            (target request)
            properties
            request.property_identifier
            (stored request.value_octets))
unfolding accept store
accept-plain s request is_null properties e plain = rw (e, plain) refl

module _ (s : Server) (request : WriteRequest) (is_null : Bool) (properties : Properties)
    (e : get s.objects (target request) ≡ some properties) where
  abbrev written : Properties
  written = put properties request.property_identifier (stored request.value_octets)

  -- What is read at another object than the one that is commanded.
  pub get-after_command :
      (slots : Slots) (default : Served) (other : ObjectId) (q : ℕ)
      → get (properties_of (after_command s properties request is_null slots default) other) q ≡ (
          if pair_eq.beq (target request) other && request.property_identifier == q
          then some (effective (commanded_slots slots request is_null) default)
          else if pair_eq.beq (target request) other && request.property_identifier == q
          then some (stored request.value_octets)
          else get (properties_of s other) q)
  unfolding properties_of
  get-after_command slots default other q =
      let p = request.property_identifier in
      let v = effective (commanded_slots slots request is_null) default in
      rw
        (sym
          (get-stored_in s (target request) properties p (stored request.value_octets) e other q))
        (get-stored_in
          (record (stored_in s (target request) properties p (stored request.value_octets)) {
            priority_arrays =
                put s.priority_arrays (target request) (commanded_slots slots request is_null);
          })
          (target request) written p v (get-put_same s.objects (target request) written) other q)

  pub Follows-target :
      (slots : Slots) (default : Served)
      → Follows s (target request) slots default
      → is_commanded s request ≡ true
      → Follows
          (after_command s properties request is_null slots default)
          (target request)
          (commanded_slots slots request is_null)
          default
  unfolding is_commanded
  Follows-target slots default follows commanded =
      let here : pair_eq.beq (target request) (target request) ≡ true =
        (pair_eq.beq_iff (target request) (target request)).1 refl in
      let present : (request.property_identifier == property_present_value) ≡ true = ground arith in
      record {
        has_array =
            get-put_same s.priority_arrays (target request) (commanded_slots slots request is_null);
        sixteen = length-set slots (slot_index request.priority) _ ∙ follows.sixteen;
        has_default = follows.has_default;
        shows =
            get-after_command slots default (target request) property_present_value
            ∙ rw (here, present) refl;
      }

  pub Follows-other :
      (slots slots' : Slots) (default default' : Served) (other : ObjectId)
      → Follows s other slots' default'
      → pair_eq.beq (target request) other ≡ false
      → Follows (after_command s properties request is_null slots default) other slots' default'
  Follows-other slots slots' default default' other follows different = record {
    has_array =
        get-put s.priority_arrays (target request) other (commanded_slots slots request is_null)
        ∙ rw different follows.has_array;
    sixteen = follows.sixteen;
    has_default = follows.has_default;
    shows =
        get-after_command slots default other property_present_value ∙ rw different follows.shows;
  }

  pub Follows-plain :
      (slots : Slots) (default : Served) (other : ObjectId)
      → Follows s other slots default
      → is_commandable s.commandable other ≡ true
      → is_commanded s request ≡ false
      → Follows
          (stored_in s
            (target request)
            properties
            request.property_identifier
            (stored request.value_octets))
          other
          slots
          default
  unfolding is_commanded
  Follows-plain slots default other follows commandable plain =
      let away : (pair_eq.beq (target request) other
            && request.property_identifier == property_present_value)
          ≡ false =
        elim (Bool-cases (pair_eq.beq (target request) other)) [
          | inl same ↦
              let here : is_commandable s.commandable (target request) ≡ true =
                ap (is_commandable s.commandable) ((pair_eq.beq_iff (target request) other).0 same)
                ∙ commandable in
              let no : (request.property_identifier == property_present_value) ≡ false =
                ground arith in
              rw (same, no) refl
          | inr different ↦ rw different refl
        ] in
      record {
        has_array = follows.has_array;
        sixteen = follows.sixteen;
        has_default = follows.has_default;
        shows =
            get-stored_in s (target request) properties request.property_identifier
              (stored request.value_octets) e other property_present_value
            ∙ rw away follows.shows;
      }

-- What `_write` does once nothing refuses the write.
pub accept-Controlled :
    (s : Server) (request : WriteRequest) (is_null : Bool) (properties : Properties)
    → Controlled s
    → get s.objects (target request) ≡ some properties
    → priority_of request.priority ≤ 16
    → (s' : Server) × (accept s request is_null ≡ ok s') × Controlled s'
unfolding is_commanded Controlled
accept-Controlled s request is_null properties controlled e in_range =
    let small : slot_index request.priority < 16 =
      omega (arith, slot_index-priority_of request.priority) in
    elim (Bool-cases (is_commanded s request)) [
      | inl commanded ↦
          let (slots, default, follows) = controlled (target request) (ground arith) in
          (
            after_command s properties request is_null slots default,
            accept-commanded s request is_null properties slots default e commanded follows small,
            λ other commandable. elim (Bool-cases (pair_eq.beq (target request) other)) [
              | inl same ↦
                  let at : target request ≡ other =
                    (pair_eq.beq_iff (target request) other).0 same in
                  (
                    commanded_slots slots request is_null,
                    default,
                    subst
                        (λ o.
                          Follows (after_command s properties request is_null slots default) o
                            (commanded_slots slots request is_null) default)
                        at
                        (Follows-target s request is_null properties e slots default follows
                          commanded),
                  )
              | inr different ↦
                  let (slots', default', follows') = controlled other commandable in
                  (
                    slots',
                    default',
                    Follows-other s request is_null properties e slots slots' default default' other
                        follows' different,
                  )
            ],
          )
      | inr plain ↦ (
        stored_in s (target request) properties request.property_identifier
            (stored request.value_octets),
        accept-plain s request is_null properties e plain,
        λ other commandable.
            let (slots, default, follows) = controlled other commandable in
            (
              slots,
              default,
              Follows-plain s request is_null properties e slots default other follows commandable
                  plain,
            ),
      )
    ]

-- Behind an empty slot, the slots before the winning one are empty too.
behind_empty :
    (slots : Slots) (i : ℕ)
    → ((j : ℕ) → j < i → get_elem? slots j ≡ some none)
    → (j : ℕ) → j < suc i
    → get_elem? (none ∷ slots) j ≡ some none
behind_empty slots i before zero below = refl
behind_empty slots i before (suc j) below = before j (omega arith)

pub first-of_winning :
    (slots : Slots) (v : Octets)
    → winning slots ≡ some v
    → (i : ℕ) × (get_elem? slots i ≡ some (some v))
      × ((j : ℕ) → j < i → get_elem? slots j ≡ some none)
unfolding winning
first-of_winning (some w ∷ slots) v h = (0, ap some h, λ j below. absurd (omega arith))
first-of_winning (none ∷ slots) v h =
    let (i, at, before) = first-of_winning slots v h in (suc i, at, behind_empty slots i before)
first-of_winning [] v h = cc

winning-at :
    (slots : Slots) (v : Octets) (i : ℕ)
    → get_elem? slots i ≡ some (some v)
    → ((j : ℕ) → j < i → get_elem? slots j ≡ some none)
    → winning slots ≡ some v
unfolding winning
winning-at [] v i at before = cc
winning-at (some w ∷ slots) v zero at before = cc
winning-at (some w ∷ slots) v (suc i) at before = let h = before 0 (omega arith) in cc
winning-at (none ∷ slots) v zero at before = cc
winning-at (none ∷ slots) v (suc i) at before =
    winning-at slots v i at λ j below. before (suc j) (omega arith)

-- `winning` is the value in the first slot that is not empty: it has one exactly when some slot holds a
-- value and every slot before that one is empty.
pub winning-first :
    (slots : Slots) (v : Octets)
    → (winning slots ≡ some v) ↔ (
        (i : ℕ) × (get_elem? slots i ≡ some (some v))
        × ((j : ℕ) → j < i → get_elem? slots j ≡ some none))
winning-first slots v =
    (first-of_winning slots v, λ (i, at, before). winning-at slots v i at before)
