-- ===== src/Services/Values.antt =====
-- wiretest/services.py, the values of Landing_Calls and Lighting_Command.
use bacnet_profile_example_b.Base.{
  ℕ, Bool, true, false, not, ◌&&◌, Option, none, some, List, [], ◌∷◌, ◌++◌, length, drop, ◌==◌,
  if◌then◌else◌,
}
use bacnet_profile_example_b.Python.{
  Octets, Result, ok, raised, value_error, struct_error, ◌>>=◌, from_bytes,
}
use bacnet_profile_example_b.Platform.{Platform}
use bacnet_profile_example_b.Codec.Tag.{Tag, value}
use bacnet_profile_example_b.Codec.Scan.{Turn, go_on, scan}
use bacnet_profile_example_b.Codec.Encode.{context_unsigned, context_enumerated}
use bacnet_profile_example_b.Codec.Requests.{optional_unsigned}
use bacnet_profile_example_b.Codec.Decode.{Primitives, is_kind, context_values}
use bacnet_profile_example_b.Codec.Values.{context_real, context_character_string}

-- One BACnetLandingCallStatus as a dictionary.
pub record LandingCall (Text : Type 0) : Type 0 where
  pub floor : ℕ
  pub direction : Option ℕ
  pub destination : Option ℕ
  pub floor_text : Option Text

-- A BACnetLightingCommand: the keys that are there.
pub record LightingCommand (Real : Type 0) : Type 0 where
  pub operation : Option ℕ
  pub target_level : Option Real
  pub ramp_rate : Option Real
  pub step_increment : Option Real
  pub fade_time : Option ℕ
  pub priority : Option ℕ

-- The command of a landing call: exactly one of the two, else a ValueError.
unfoldable pub landing_command : Option ℕ → Option ℕ → Result Octets
landing_command none none = raised value_error
landing_command (some direction) (some destination) = raised value_error
landing_command (some direction) none = context_enumerated 1 direction
landing_command none (some destination) = context_unsigned 2 destination

-- The check of the command comes before anything is encoded.
unfoldable pub has_one_command : Option ℕ → Option ℕ → Bool
has_one_command none none = false
has_one_command (some direction) (some destination) = false
has_one_command _ _ = true

module _ {Text Real : Type 0} (platform : Platform Text Real) where
  open platform use {decode, unpack_float}

  unfoldable pub floor_text_octets : Option Text → Result Octets
  floor_text_octets none = ok []
  floor_text_octets (some t) = context_character_string platform 3 t

  unfoldable pub landing_call_status : LandingCall Text → Result Octets
  unfolding landing_command has_one_command floor_text_octets
  landing_call_status call =
      if not (has_one_command call.direction call.destination) then raised value_error else (do
        floor ← context_unsigned 0 call.floor
        command ← landing_command call.direction call.destination
        name ← floor_text_octets call.floor_text
        ok (floor ++ (command ++ name)))

  -- `calls[-1]` with a key set; nothing without a call.
  unfoldable pub change_last :
      (LandingCall Text → LandingCall Text) → List (LandingCall Text) → List (LandingCall Text)
  change_last change [] = []
  change_last change (call ∷ []) = change call ∷ []
  change_last change (call ∷ call' ∷ calls) = call ∷ change_last change (call' ∷ calls)

  unfoldable pub landing_field : List (LandingCall Text) → ℕ → Octets → List (LandingCall Text)
  unfolding change_last
  landing_field calls number body =
      if number == 0
      then calls
        ++ record {
          floor = from_bytes body;
          direction = none;
          destination = none;
          floor_text = none;
        }
          ∷ []
      else if number == 1
      then change_last (λ call. record call { direction = some (from_bytes body) }) calls
      else if number == 2
      then change_last (λ call. record call { destination = some (from_bytes body) }) calls
      else if number == 3
      then change_last (λ call. record call { floor_text = some (decode (drop 1 body)) }) calls
      else calls

  unfoldable pub landing_turn :
      List (LandingCall Text) → Tag → Result (Turn (List (LandingCall Text)))
  unfolding landing_field
  landing_turn calls tag = ok (
      go_on tag.next (
        if is_kind tag.kind value && tag.is_context
        then landing_field calls tag.number tag.body
        else calls))

  unfoldable pub decode_landing_calls : Octets → Result (List (LandingCall Text))
  unfolding landing_turn
  decode_landing_calls octets = scan octets landing_turn 0 []

  unfoldable pub optional_real : ℕ → Option Real → Result Octets
  optional_real tag none = ok []
  optional_real tag (some v) = context_real platform tag v

  unfoldable pub lighting_command :
      ℕ → Option Real → Option Real → Option Real → Option ℕ → Option ℕ → Result Octets
  unfolding optional_real
  lighting_command operation target_level ramp_rate step_increment fade_time priority = do
    first ← context_enumerated 0 operation
    level ← optional_real 1 target_level
    rate ← optional_real 2 ramp_rate
    step ← optional_real 3 step_increment
    fade ← optional_unsigned 4 fade_time
    last ← optional_unsigned 5 priority
    ok (first ++ (level ++ (rate ++ (step ++ (fade ++ last)))))

  -- `struct.unpack(">f", body)[0]`
  unfoldable pub unpack_real : Octets → Result Real
  unpack_real body = if length body == 4 then ok (unpack_float body) else raised struct_error

  unfoldable pub lighting_field : LightingCommand Real → ℕ → Octets → Result (LightingCommand Real)
  unfolding unpack_real
  lighting_field c tag body =
      if tag == 0
      then ok (record c { operation = some (from_bytes body) })
      else if tag == 1
      then (do v ← unpack_real body; ok (record c { target_level = some v }))
      else if tag == 2
      then (do v ← unpack_real body; ok (record c { ramp_rate = some v }))
      else if tag == 3
      then (do v ← unpack_real body; ok (record c { step_increment = some v }))
      else if tag == 4
      then ok (record c { fade_time = some (from_bytes body) })
      else if tag == 5
      then ok (record c { priority = some (from_bytes body) })
      else ok c

  unfoldable pub lighting_fields : LightingCommand Real → Primitives → Result (LightingCommand Real)
  unfolding lighting_field
  lighting_fields c [] = ok c
  lighting_fields c ((tag, body) ∷ values) = do
    c' ← lighting_field c tag body
    lighting_fields c' values

  abbrev pub no_command : LightingCommand Real
  no_command = record {
    operation = none;
    target_level = none;
    ramp_rate = none;
    step_increment = none;
    fade_time = none;
    priority = none;
  }

  unfoldable pub decode_lighting_command : Octets → Result (Option (LightingCommand Real))
  unfolding lighting_fields
  decode_lighting_command [] = ok none
  decode_lighting_command (b ∷ octets) = do
    values ← context_values (b ∷ octets)
    c ← lighting_fields no_command values
    ok (some c)
