-- ===== src/Peer/Server/Modes.antt =====
-- wiretest/peer.py, the modes "offline" and "refusing" of `SimulatedServer`, and its plain writes.
use bacnet_profile_example_b.Base.{
  ℕ, ◌+◌, Bool, true, false, ◌&&◌, Option, none, some, ◌≡◌, refl, arith, ◌==◌, if◌then◌else◌, ◌⊎◌,
  inl,
}
use bacnet_profile_example_b.Base.Eq.{nat_eq, pair_eq}
use bacnet_profile_example_b.Python.{
  Octets, Result, ok, Exception, value_error, index_error, struct_error,
}
use bacnet_profile_example_b.Python.Dict.{get}
use bacnet_profile_example_b.Python.Ends.{Ends, returns, raises, Malformed, Ends-if, Ends-bind}
use bacnet_profile_example_b.Codec.Constants.{
  pdu_confirmed_request, service_write_property, error_class_object, error_class_property,
  error_code_unknown_object, error_code_write_access_denied,
}
use bacnet_profile_example_b.Codec.Requests.{error_pdu}
use bacnet_profile_example_b.Codec.Decode.{ObjectId, WriteRequest, application_tag}
use bacnet_profile_example_b.Codec.Decode.Totality.{
  Total, OnlyValueError, parse_write_property_request-Ends,
}
use bacnet_profile_example_b.Codec.Frame.Totality.{service-Total}
use bacnet_profile_example_b.Codec.Frame.{Frame, is_type, pdu_type}
use bacnet_profile_example_b.Platform.{Platform}
use bacnet_profile_example_b.Peer.{Identity}
use bacnet_profile_example_b.Peer.Server.{
  Served, stored, offline, refusing, Server, properties_of, is_object, target, is_commanded, Hooks,
  Properties, octets_if, served_value,
}
use bacnet_profile_example_b.Peer.Server.Priority.{stored_in, accept-plain, get-stored_in}
use bacnet_profile_example_b.Peer.Server.Answers.{
  answering, is_ignored_null, refusal, accept, write_object, write, write_request_of, noted_write,
  counted_offline, failure_of, answer_confirmed, answer_failing, server_answer,
}

-- What an offline server keeps.
abbrev pub Kept : Server → Server → Type 0
Kept s s' =
    (s'.objects ≡ s.objects)
    × (s'.priority_arrays ≡ s.priority_arrays)
    × (s'.mode ≡ offline)
    × (s'.silent_requests ≡ s.silent_requests)
    × (s'.read_requests ≡ s.read_requests)
    × ((s'.requests_while_offline ≡ s.requests_while_offline)
        ⊎ (s'.requests_while_offline ≡ s.requests_while_offline + 1))

Kept-counted :
    (s : Server) (request : Option WriteRequest) (choice : Option ℕ)
    → Kept s (counted_offline (noted_write (record s { mode = offline }) request) choice)
unfolding counted_offline
Kept-counted s none choice = ground arith
Kept-counted s (some request) choice = ground arith

any_malformed {ℓ} : {A : Type ℓ} {r : Result A} → Ends (λ _. Unit {0}) OnlyValueError r → Total r
any_malformed (returns h) = returns h
any_malformed (raises {e = value_error} h) = raises h
any_malformed (raises {e = index_error} h) = absurd h
any_malformed (raises {e = struct_error} h) = absurd h
any_malformed (raises {e = Exception.overflow_error} h) = absurd h
any_malformed (raises {e = Exception.type_error} h) = absurd h
any_malformed (raises {e = Exception.key_error} h) = absurd h

octets_if-if :
    (b : Bool) (now : ℕ) (octets : Octets) (old : Option Served)
    → octets_if now (if b then some (stored octets) else old)
      ≡ (if b then some octets else octets_if now old)
octets_if-if true now octets old = refl
octets_if-if false now octets old = refl

module _ {Text Real : Type 0} (platform : Platform Text Real) (device : Identity Text)
    (hooks : Hooks) where
  write_request_of-Total :
      (frame : Frame) (choice : Option ℕ) → Total (write_request_of frame choice)
  unfolding write_request_of
  write_request_of-Total frame choice =
      Ends-if (is_type choice service_write_property)
        (λ h. any_malformed (parse_write_property_request-Ends frame.payload)) (λ h. returns tt)

  -- An offline server answers no frame at all, whatever its failures are and whatever the frame holds;
  -- its objects, its priority arrays and its mode stay as they are, and it counts at most one unanswered request. The
  -- only other outcome is an exception of a malformed request.
  pub server_answer-offline :
      (now : ℕ) (frame : Frame) (s : Server)
      → s.mode ≡ offline
      → Ends
          (λ (apdu, s'). (apdu ≡ none) × Kept s s')
          Malformed
          (server_answer platform device hooks now frame s)
  unfolding server_answer failure_of answer_failing answer_confirmed
  server_answer-offline now frame s h =
      Ends-if (is_type (pdu_type frame) pdu_confirmed_request)
        (λ confirmed. Ends-bind (service-Total frame) λ choice e t. rw h (
          Ends-bind (write_request_of-Total frame choice)
            λ request e' t'. returns (refl, Kept-counted s request choice)))
        (λ other. rw h (returns (refl, (refl, refl, h, refl, refl, inl refl))))

module _ (hooks : Hooks) where
  -- A server in the mode "refusing" answers a write whose value has a readable tag with an Error,
  -- PROPERTY / WRITE_ACCESS_DENIED or, for an object that it has not, OBJECT / UNKNOWN_OBJECT, and
  -- nothing of the server changes.
  pub write-refusing :
      (s : Server) (n : ℕ) (request : WriteRequest) (tag : Option ℕ)
      → s.mode ≡ refusing
      → application_tag request.value_octets ≡ ok tag
      → write hooks s n request
        ≡ answering s (
            if is_object s (target request)
            then error_pdu n service_write_property error_class_property
                error_code_write_access_denied
            else error_pdu n service_write_property error_class_object error_code_unknown_object)
  unfolding write is_ignored_null refusal write_object
  write-refusing s n request tag h e = rw (e, h) (ground arith)

-- A write that is accepted and not commanded is what is read back: the property that was written has
-- the value octets of the request, and every other property of every object is what it was.
pub accept-reads_back :
    (s : Server) (request : WriteRequest) (is_null : Bool) (properties : Properties)
    → get s.objects (target request) ≡ some properties
    → is_commanded s request ≡ false
    → (s' : Server) × (accept s request is_null ≡ ok s')
      × ((now : ℕ) (object : ObjectId) (property : ℕ)
          → served_value s' now object property ≡ (
              if pair_eq.beq (target request) object && request.property_identifier == property
              then some request.value_octets
              else served_value s now object property))
unfolding served_value properties_of
accept-reads_back s request is_null properties e plain =
    let p = request.property_identifier in
    let v = stored request.value_octets in
    (
      stored_in s (target request) properties p v,
      accept-plain s request is_null properties e plain,
      λ now object property.
          let test = pair_eq.beq (target request) object && p == property in
          rw (get-stored_in s (target request) properties p v e object property)
            (octets_if-if test now request.value_octets (get (properties_of s object) property)),
    )
