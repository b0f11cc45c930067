-- ===== src/Services.antt =====
-- wiretest/services.py: the services beyond ReadProperty and WriteProperty, and the values of some
-- properties. Here what its parsers share: the ComplexACK of an answer, and constructed values.
pub mod Answered
pub mod Requests
pub mod Multiple
pub mod Lists
pub mod Files
pub mod Cov
pub mod Values
use bacnet_profile_example_b.Base.{ℕ, Bool, Option, none, some, if◌then◌else◌}
use bacnet_profile_example_b.Python.{Octets, Result, ok, ◌>>=◌}
use bacnet_profile_example_b.Codec.Constants.{pdu_complex_ack}
use bacnet_profile_example_b.Codec.Scan.{nested_body, nested_end}
use bacnet_profile_example_b.Codec.Frame.{Frame, is_type, pdu_type, service}
use bacnet_profile_example_b.Client.{Answer}

-- The payload, if the frame is of the service or any service will do.
unfoldable pub of_service : Frame → Option ℕ → Result (Option Octets)
of_service frame none = ok (some frame.payload)
of_service frame (some choice) = do
  own ← service frame
  ok (if is_type own choice then some frame.payload else none)

unfoldable pub complex_ack_frame : Option Frame → Option ℕ → Result (Option Octets)
complex_ack_frame none choice = ok none
complex_ack_frame (some frame) choice =
    if is_type (pdu_type frame) pdu_complex_ack then of_service frame choice else ok none

abbrev pub frame_of : Option Answer → Option Frame
frame_of none = none
frame_of (some answer) = answer.frame

-- `_complex_ack`
unfoldable pub complex_ack : Option Answer → Option ℕ → Result (Option Octets)
unfolding complex_ack_frame of_service
complex_ack answer choice = complex_ack_frame (frame_of answer) choice

-- `_constructed_end` and `_constructed_body`: their loop is that of the codec's decoders.
unfoldable pub constructed_end : Octets → ℕ → Result ℕ
constructed_end octets position = nested_end octets position

unfoldable pub constructed_body : Octets → ℕ → Result (Octets × ℕ)
constructed_body octets position = nested_body octets position
