-- ===== src/Codec/Frame/Totality.antt =====
-- The properties of a frame that read its payload end.
use bacnet_profile_example_b.Base.{ℕ, ◌&&◌, ◌||◌, some, length, ltb}
use bacnet_profile_example_b.Python.{Octets, ok, ◌>>=◌, index}
use bacnet_profile_example_b.Python.Ends.{returns, Ends-if, Ends-bind}
use bacnet_profile_example_b.Codec.Constants.{
  pdu_confirmed_request, pdu_unconfirmed_request, pdu_simple_ack, pdu_complex_ack, pdu_error,
  pdu_reject, pdu_abort,
}
use bacnet_profile_example_b.Codec.Tag.Advances.{index-Ends}
use bacnet_profile_example_b.Codec.Decode.Totality.{Total}
use bacnet_profile_example_b.Codec.Frame.{Frame, is_type, pdu_type, invoke_id, service}

octet_at-Total : (octets : Octets) (i : ℕ) → Total (index octets i >>= λ n. ok (some n))
octet_at-Total octets i = Ends-bind (index-Ends octets i) (λ n e inside. returns tt)

pub service-Total : (frame : Frame) → Total (service frame)
unfolding service
service-Total frame =
    let pdu = pdu_type frame in
    Ends-if (is_type pdu pdu_simple_ack || is_type pdu pdu_complex_ack || is_type pdu pdu_error)
      (λ h. octet_at-Total frame.payload 2)
      (λ h.
        Ends-if (is_type pdu pdu_confirmed_request && ltb 3 (length frame.payload))
          (λ k. octet_at-Total frame.payload 3)
          (λ k.
            Ends-if (is_type pdu pdu_unconfirmed_request && ltb 1 (length frame.payload))
              (λ l. octet_at-Total frame.payload 1) (λ l. returns tt)))

pub invoke_id-Total : (frame : Frame) → Total (invoke_id frame)
unfolding invoke_id
invoke_id-Total frame =
    let pdu = pdu_type frame in
    Ends-if
      (is_type pdu pdu_simple_ack
        || is_type pdu pdu_complex_ack
        || is_type pdu pdu_error
        || is_type pdu pdu_reject
        || is_type pdu pdu_abort)
      (λ h. octet_at-Total frame.payload 1)
      (λ h.
        Ends-if (is_type pdu pdu_confirmed_request && ltb 2 (length frame.payload))
          (λ k. octet_at-Total frame.payload 2) (λ k. returns tt))
