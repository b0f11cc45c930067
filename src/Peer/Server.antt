-- ===== src/Peer/Server.antt =====
-- wiretest/peer.py, `SimulatedServer`: a device with objects that a test controls.
pub mod Answers
pub mod Priority
pub mod Commands
pub mod Fresh
pub mod Modes
pub mod Levels
use bacnet_profile_example_b.Base.{
  ℕ, zero, suc, ◌+◌, ◌-◌, Bool, true, false, not, ◌&&◌, ◌||◌, Option, none, some, List, [], ◌∷◌,
  ◌++◌, length, drop, get_elem?, set, replicate, map, ltb, leb, ◌==◌, if◌then◌else◌,
}
use bacnet_profile_example_b.Base.Bits.{shl}
use bacnet_profile_example_b.Base.Eq.{Eq, nat_eq, pair_eq}
use bacnet_profile_example_b.Python.{
  Octets, Result, ok, raised, index_error, key_error, ◌>>=◌, bytes,
}
use bacnet_profile_example_b.Python.Dict.{Dict, get, put, member}
use bacnet_profile_example_b.Codec.Constants.{
  pdu_confirmed_request, service_read_property, service_write_property,
  service_read_property_multiple, property_present_value, error_class_object, error_class_property,
  error_code_unknown_object, error_code_unknown_property, error_code_write_access_denied,
  error_code_invalid_array_index, tag_null, reject_reason_unrecognized_service,
  abort_reason_segmentation_not_supported, pdu_complex_ack,
}
use bacnet_profile_example_b.Codec.Encode.{
  context_unsigned, context_object_id, application_null, application_unsigned,
}
use bacnet_profile_example_b.Codec.Requests.{
  enclosed, error_pdu, read_property_ack, read_property_multiple_ack, simple_ack, reject_pdu,
  abort_pdu,
}
use bacnet_profile_example_b.Codec.Decode.{
  ObjectId, ReadRequest, WriteRequest, application_tag, application_elements,
  parse_read_property_request, parse_write_property_request, read_access_specifications,
}
use bacnet_profile_example_b.Codec.Frame.{Frame, is_type, pdu_type, service}

-- A value that is served: octets, or a callable that returns them or None. What a callable returns may be
-- another thing at each call; `now` numbers the moment.
pub data Served : Type 0 where
  stored : Octets → Served
  callable : (ℕ → Option Octets) → Served

abbrev pub octets_now : ℕ → Served → Option Octets
octets_now now (stored octets) = some octets
octets_now now (callable f) = f now

pub data Mode : Type 0 where
  online offline refusing : Mode

pub data Failure : Type 0 where
  reject abort silent malformed : Failure

abbrev pub Properties : Type 0
Properties = Dict ℕ Served

abbrev pub Slots : Type 0
Slots = List (Option Octets)

-- One entry of `read_requests`: the service, and the properties of each object.
abbrev pub ReadRecord : Type 0
ReadRecord = ℕ × List (ObjectId × List ℕ)

pub record Server : Type 0 where
  pub objects : Dict ObjectId Properties
  pub writable : Option (List (ObjectId × ℕ))
  pub mode : Mode
  pub read_requests : List ReadRecord
  pub write_requests : List WriteRequest
  pub requests_while_offline : ℕ
  pub commandable : Option (List ObjectId)
  pub relinquish_defaults : Dict ObjectId Served
  pub priority_arrays : Dict ObjectId Slots
  pub array_elements : Bool
  pub array_reads : List (ObjectId × ℕ × ℕ)
  pub failures : Dict ObjectId Failure
  pub whole_arrays_refused : List (ObjectId × ℕ)
  pub silent_requests : ℕ

abbrev pub properties_or_empty : Option Properties → Properties
properties_or_empty none = []
properties_or_empty (some properties) = properties

-- `objects.get(key, {})`
unfoldable pub properties_of : Server → ObjectId → Properties
properties_of s object = properties_or_empty (get s.objects object)

abbrev pub octets_if : ℕ → Option Served → Option Octets
octets_if now none = none
octets_if now (some v) = octets_now now v

-- `SimulatedServer.value`
unfoldable pub served_value : Server → ℕ → ObjectId → ℕ → Option Octets
served_value s now object property = octets_if now (get (properties_of s object) property)

-- `key in dict`
abbrev pub is_there {ℓ} : {A : Type ℓ} → Option A → Bool
is_there none = false
is_there (some a) = true

abbrev pub is_object : Server → ObjectId → Bool
is_object s object = is_there (get s.objects object)

-- `self.commandable is not None and key in self.commandable`
unfoldable pub is_commandable : Option (List ObjectId) → ObjectId → Bool
is_commandable none object = false
is_commandable (some objects) object = member objects object

abbrev pub target : WriteRequest → ObjectId
target request = (request.object_type, request.object_instance)

unfoldable pub is_commanded : Server → WriteRequest → Bool
is_commanded s request =
    is_commandable s.commandable (target request)
    && request.property_identifier == property_present_value

-- `(priority or PRIORITY_DEFAULT) - 1`
unfoldable pub slot_index : Option ℕ → ℕ
slot_index none = 15
slot_index (some zero) = 15
slot_index (some (suc p)) = p

-- `slots[i] = value`
unfoldable pub set_slot : Slots → ℕ → Option Octets → Result Slots
set_slot slots i v = if ltb i (length slots) then ok (set slots i v) else raised index_error

-- The highest-priority slot that is not None.
unfoldable pub winning : Slots → Option Octets
winning [] = none
winning (some v ∷ slots) = some v
winning (none ∷ slots) = winning slots

abbrev pub shown : Option Octets → Served → Served
shown none default = default
shown (some v) default = stored v

-- What the slots and the default say.
abbrev pub effective : Slots → Served → Served
effective slots default = shown (winning slots) default

abbrev pub found_key {ℓ} : {A : Type ℓ} → Option A → Result A
found_key none = raised key_error
found_key (some a) = ok a

-- `winning[0] if winning else self.relinquish_defaults[key]`
abbrev pub shown_value : Option Octets → Option Served → Result Served
shown_value (some v) default = ok (stored v)
shown_value none default = found_key default

-- `self.objects[key][property] = value`
unfoldable pub store : Server → ObjectId → ℕ → Served → Result Server
store s object property v = do
  properties ← found_key (get s.objects object)
  ok (record s { objects = put s.objects object (put properties property v) })

-- A commanded write: the slot is set, and Present_Value follows the slots.
unfoldable pub command : Server → WriteRequest → Bool → Result Server
command s request is_null = do
  slots ← found_key (get s.priority_arrays (target request))
  slots' ←
      set_slot slots (slot_index request.priority)
        (if is_null then none else some request.value_octets)
  v ← shown_value (winning slots') (get s.relinquish_defaults (target request))
  store (record s { priority_arrays = put s.priority_arrays (target request) slots' })
      (target request) request.property_identifier v

abbrev pub is_refusing : Mode → Bool
is_refusing refusing = true
is_refusing _ = false

abbrev pub is_online : Mode → Bool
is_online online = true
is_online _ = false

unfoldable pub is_allowed : Server → WriteRequest → Bool
is_allowed s request = elim s.writable [
  | none ↦ is_there (get (properties_of s (target request)) request.property_identifier)
  | some allowed ↦ member allowed (target request, request.property_identifier)
]

-- `{key: self.objects[key][PROPERTY_PRESENT_VALUE] for key in commandable}`
unfoldable pub defaults_of :
    Dict ObjectId Properties → List ObjectId → Result (Dict ObjectId Served)
defaults_of objects [] = ok []
defaults_of objects (object ∷ commandable) = do
  properties ← found_key (get objects object)
  default ← found_key (get properties property_present_value)
  rest ← defaults_of objects commandable
  ok ((object, default) ∷ rest)

abbrev pub empty_slots : Slots
empty_slots = replicate 16 none

abbrev pub or_nothing : Option (List ObjectId) → List ObjectId
or_nothing none = []
or_nothing (some objects) = objects

-- The attributes that `__init__` sets.
abbrev pub fresh :
    Dict ObjectId Properties
    → Option (List (ObjectId × ℕ))
    → Option (List ObjectId)
    → Bool
    → Dict ObjectId Served
    → Server
fresh objects writable commandable array_elements defaults = record {
  objects = objects;
  writable = writable;
  mode = online;
  read_requests = [];
  write_requests = [];
  requests_while_offline = 0;
  commandable = commandable;
  relinquish_defaults = defaults;
  priority_arrays = map (λ object. (object, empty_slots)) (or_nothing commandable);
  array_elements = array_elements;
  array_reads = [];
  failures = [];
  whole_arrays_refused = [];
  silent_requests = 0;
}

-- `SimulatedServer.__init__`
unfoldable pub new_server :
    Dict ObjectId Properties
    → Option (List (ObjectId × ℕ))
    → Option (List ObjectId)
    → Bool
    → Result Server
new_server objects writable commandable array_elements = do
  defaults ← defaults_of objects (or_nothing commandable)
  ok (fresh objects writable commandable array_elements defaults)

-- The overridable methods, `check_write` and `on_write`; the class itself refuses nothing and does nothing.
pub record Hooks : Type 0 where
  pub check_write : Server → WriteRequest → Option (ℕ × ℕ)
  pub on_write : WriteRequest → Server → Server

abbrev pub default_hooks : Hooks
default_hooks = record { check_write = λ s request. none; on_write = λ request s. s }

-- `failures.get(requested object)`; nothing is looked up for a frame that names no object.
abbrev pub failure_at : Dict ObjectId Failure → Option ObjectId → Option Failure
failure_at failures none = none
failure_at failures (some object) = get failures object
