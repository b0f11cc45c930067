-- ===== src/Alarm/Requests.antt =====
-- wiretest/alarm.py, the requests.
pub mod Shape
use bacnet_profile_example_b.Base.{
  ℕ, Bool, true, false, not, Option, none, some, List, [], ◌∷◌, ◌++◌, drop, ◌==◌, if◌then◌else◌,
}
use bacnet_profile_example_b.Base.Bits.{shl}
use bacnet_profile_example_b.Python.{Octets, Result, ok, ◌>>=◌, bytes}
use bacnet_profile_example_b.Platform.{Platform}
use bacnet_profile_example_b.Codec.Constants.{object_type_device, pdu_unconfirmed_request}
use bacnet_profile_example_b.Codec.Encode.{
  context_unsigned, context_enumerated, context_object_id, context_boolean,
}
use bacnet_profile_example_b.Codec.Requests.{confirmed_request, optional_unsigned, enclosed}
use bacnet_profile_example_b.Codec.Values.{
  application_date, application_time, context_real, context_bit_string, context_character_string,
}
use bacnet_profile_example_b.Alarm.{DateTime, context_date_time}

abbrev pub service_acknowledge_alarm : ℕ
service_acknowledge_alarm = 0

abbrev pub service_confirmed_event_notification : ℕ
service_confirmed_event_notification = 2

abbrev pub service_device_communication_control : ℕ
service_device_communication_control = 17

abbrev pub service_get_event_information : ℕ
service_get_event_information = 29

abbrev pub service_unconfirmed_event_notification : ℕ
service_unconfirmed_event_notification = 3

abbrev pub service_time_synchronization : ℕ
service_time_synchronization = 6

abbrev pub event_state_normal : ℕ
event_state_normal = 0

abbrev pub notify_type_ack_notification : ℕ
notify_type_ack_notification = 2

abbrev pub event_type_out_of_range : ℕ
event_type_out_of_range = 5

unfoldable pub last_received_octets : Option (ℕ × ℕ) → Result Octets
last_received_octets none = ok []
last_received_octets (some (object_type, instance)) = context_object_id 0 object_type instance

unfoldable pub get_event_information_request : ℕ → Option (ℕ × ℕ) → Result Octets
unfolding last_received_octets
get_event_information_request invoke_id last_received = do
  parameters ← last_received_octets last_received
  confirmed_request invoke_id service_get_event_information parameters

unfoldable pub time_synchronization : ℕ → ℕ → ℕ → ℕ → ℕ → ℕ → ℕ → Result Octets
time_synchronization year month day weekday hour minute second = do
  date ← application_date year month day weekday
  time ← application_time hour minute second 0
  ok (0x10 ∷ service_time_synchronization ∷ (date ++ time))

-- The parameters of `event_notification`; a time stamp is (date, time) with the date as (year, month,
-- day, weekday) and the time as (hour, minute, second).
pub record EventReport (Text Real : Type 0) : Type 0 where
  pub initiating_device : ℕ
  pub event_object : ℕ × ℕ
  pub to_state : ℕ
  pub from_state : ℕ
  pub confirmed : Bool
  pub invoke_id : ℕ
  pub process_identifier : ℕ
  pub notification_class : ℕ
  pub priority : ℕ
  pub notify_type : ℕ
  pub ack_required : Bool
  pub message_text : Option Text
  pub date : ℕ × ℕ × ℕ × ℕ
  pub time : ℕ × ℕ × ℕ
  pub exceeding_value : Real
  pub exceeded_limit : Real

abbrev pub date_octets_of : ℕ × ℕ × ℕ × ℕ → Result Octets
date_octets_of (year, month, day, weekday) = application_date year month day weekday

abbrev pub clock_octets_of : ℕ × ℕ × ℕ → Result Octets
clock_octets_of (hour, minute, second) = application_time hour minute second 0

abbrev pub event_object_octets : ℕ × ℕ → Result Octets
event_object_octets (object_type, instance) = context_object_id 2 object_type instance

module _ {Text Real : Type 0} (platform : Platform Text Real) where
  unfoldable pub optional_text : ℕ → Option Text → Result Octets
  optional_text tag none = ok []
  optional_text tag (some t) = context_character_string platform tag t

  unfoldable pub acknowledge_alarm_request :
      ℕ → ℕ → ℕ → ℕ → ℕ → DateTime → Text → DateTime → Result Octets
  acknowledge_alarm_request invoke_id process_identifier object_type instance
        event_state_acknowledged time_stamp source time_of_acknowledgment =
      do
        process ← context_unsigned 0 process_identifier
        object ← context_object_id 1 object_type instance
        state ← context_enumerated 2 event_state_acknowledged
        stamp ← context_date_time 3 time_stamp
        name ← context_character_string platform 4 source
        acknowledged ← context_date_time 5 time_of_acknowledgment
        confirmed_request invoke_id service_acknowledge_alarm
            (process ++ (object ++ (state ++ (stamp ++ (name ++ acknowledged)))))

  unfoldable pub device_communication_control_request :
      ℕ → ℕ → Option Text → Option ℕ → Result Octets
  unfolding optional_text
  device_communication_control_request invoke_id enable_disable password minutes = do
    duration ← optional_unsigned 0 minutes
    state ← context_enumerated 1 enable_disable
    secret ← optional_text 2 password
    confirmed_request invoke_id service_device_communication_control (duration ++ (state ++ secret))

  -- [12] the values of an out-of-range event [5]. The deadband is `1.0`, a float literal.
  unfoldable pub event_values : Real → EventReport Text Real → Result Octets
  event_values one r = do
    exceeding ← context_real platform 0 r.exceeding_value
    flags ←
        context_bit_string 1 (not (r.to_state == event_state_normal) ∷ false ∷ false ∷ false ∷ [])
    deadband ← context_real platform 2 one
    limit ← context_real platform 3 r.exceeded_limit
    choice ← enclosed 5 (exceeding ++ (flags ++ (deadband ++ limit)))
    enclosed 12 choice

  -- What follows the notify type: an acknowledgement has only the new state.
  unfoldable pub transition_octets : Real → EventReport Text Real → Result Octets
  unfolding event_values
  transition_octets one r =
      if not (r.notify_type == notify_type_ack_notification)
      then (do
        required ← context_boolean 9 r.ack_required
        old ← context_enumerated 10 r.from_state
        new ← context_enumerated 11 r.to_state
        values ← event_values one r
        ok (required ++ (old ++ (new ++ values))))
      else context_enumerated 11 r.to_state

  unfoldable pub event_parameters : Real → EventReport Text Real → Result Octets
  unfolding transition_octets
  event_parameters one r = do
    date ← date_octets_of r.date
    time ← clock_octets_of r.time
    process ← context_unsigned 0 r.process_identifier
    device ← context_object_id 1 object_type_device r.initiating_device
    object ← event_object_octets r.event_object
    stamp ← context_date_time 3 (drop 1 date, drop 1 time)
    class ← context_unsigned 4 r.notification_class
    level ← context_unsigned 5 r.priority
    type ← context_enumerated 6 event_type_out_of_range
    message ← optional_text 7 r.message_text
    notify ← context_enumerated 8 r.notify_type
    transition ← transition_octets one r
    ok (
        process
        ++ (device
            ++ (object
                ++ (stamp ++ (class ++ (level ++ (type ++ (message ++ (notify ++ transition)))))))))

  unfoldable pub event_notification : Real → EventReport Text Real → Result Octets
  unfolding event_parameters
  event_notification one r = do
    parameters ← event_parameters one r
    if r.confirmed
        then confirmed_request r.invoke_id service_confirmed_event_notification parameters
        else (do
          head ← bytes (shl pdu_unconfirmed_request 4 ∷ service_unconfirmed_event_notification ∷ [])
          ok (head ++ parameters))
