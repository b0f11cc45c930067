-- ===== src/Services/Answered.antt =====
-- The ComplexACKs that the parsers of wiretest/services.py accept.
use bacnet_profile_example_b.Base.{ℕ, none, some, ◌∷◌, ◌≡◌, arith, ==_iff}
use bacnet_profile_example_b.Python.{Octets, ok, index}
use bacnet_profile_example_b.Codec.Frame.{Frame, pdu_type, service}
use bacnet_profile_example_b.Services.{complex_ack, complex_ack_frame, of_service}

-- A frame with a ComplexACK of the service `choice`.
pub record IsAckOf (frame : Frame) (choice invoke_id : ℕ) (body : Octets) : Type 0 where
  pub no_message : frame.network_message ≡ none
  pub payload_is : frame.payload ≡ 0x30 ∷ invoke_id ∷ choice ∷ body

pub complex_ack-payload :
    (frame : Frame) (choice n : ℕ) (body : Octets)
    → IsAckOf frame choice n body
    → complex_ack (some (record { frame = some frame })) (some choice) ≡ ok (some frame.payload)
unfolding complex_ack complex_ack_frame of_service pdu_type service index
complex_ack-payload frame choice n body h =
    rw (pdu_type, service, h.no_message, h.payload_is, index) (ground (arith, ==_iff choice choice))
