-- ===== src/Workstation/Handling.antt =====
-- What the background thread of the workstation does with any frame.
use bacnet_profile_example_b.Base.{
  ℕ, Bool, true, false, not, ◌&&◌, ◌||◌, Option, none, some, List, [], ◌∷◌, ◌++◌, ◌≡◌, ◌⊎◌, inl,
  inr, refl, ltb, ◌^◌, ◌*◌, ◌+◌, length,
}
use bacnet_profile_example_b.Python.{Octets, Result, bytes, pack}
use bacnet_profile_example_b.Python.Ends.{Ends, returns, raises, Ends-if, Ends-bind, Ends-raising}
use bacnet_profile_example_b.Codec.Bvll.{
  local, npdu, npdu_control, npdu_address, npdu_hop_count, npdu_message, bvll, bvlc, is_given,
}
use bacnet_profile_example_b.Codec.Requests.{simple_ack}
use bacnet_profile_example_b.Codec.Tag.Advances.{bytes-Ends}
use bacnet_profile_example_b.Codec.Frame.{Frame}
use bacnet_profile_example_b.Codec.Frame.Totality.{invoke_id-Total}
use bacnet_profile_example_b.Peer.{required, own_invoke_id}
use bacnet_profile_example_b.Alarm.Notification.{EventNotification}
use bacnet_profile_example_b.Alarm.Notification.Totality.{
  is_event_notification-Total, event_notification_of-Total,
}
use bacnet_profile_example_b.Workstation.{Workstation, is_response, acknowledgement, handle}

-- A value or an exception.
abbrev pub Finishes {ℓ κ} : {A : Type ℓ} → (A → Type κ) → Result A → Type (ℓ ⊔ κ)
Finishes P r = Ends P (λ e. Unit {0}) r

abbrev Done {ℓ} : {A : Type ℓ} → Result A → Type ℓ
Done r = Finishes (λ a. Unit {0}) r

bytes-Done : (octets : List ℕ) → Done (bytes octets)
bytes-Done octets = Ends-raising (bytes-Ends octets) (λ e h. tt)

pack-Done : (n value : ℕ) → Done (pack n value)
unfolding pack
pack-Done n value = Ends-if (ltb value (2 ^ (8 * n))) (λ t. returns tt) (λ f. raises tt)

required-Done : (n : Option ℕ) → Done (required n)
unfolding required
required-Done none = raises tt
required-Done (some n) = returns tt

own_invoke_id-Done : (frame : Frame) → Done (own_invoke_id frame)
unfolding own_invoke_id
own_invoke_id-Done frame =
    Ends-bind (Ends-raising (invoke_id-Total frame) (λ e h. tt)) λ n e h. required-Done n

bvlc-Done : (octets : Octets) (broadcast : Bool) → Done (bvlc octets broadcast)
unfolding bvlc bvll
bvlc-Done octets broadcast = Ends-bind (pack-Done 1 0x81) λ a e h.
    Ends-bind (pack-Done 1 _)
      λ b e' h'. Ends-bind (pack-Done 2 (4 + length octets)) λ c e'' h''. returns tt

npdu-Done : (apdu : Octets) → Done (npdu apdu local)
unfolding npdu npdu_address npdu_hop_count npdu_message
npdu-Done apdu = Ends-bind (bytes-Done (0x01 ∷ npdu_control local ∷ [])) λ a e h. returns tt

acknowledgement-Done :
    (w : Workstation) (frame : Frame) (notification : EventNotification)
    → Done (acknowledgement w frame notification)
unfolding acknowledgement simple_ack
acknowledgement-Done w frame notification =
    Ends-if (notification.confirmed && w.answer_notifications)
      (λ t. Ends-bind (own_invoke_id-Done frame) λ n e h.
        Ends-bind (bytes-Done (0x20 ∷ n ∷ 2 ∷ [])) λ apdu e' h'.
          Ends-bind (npdu-Done apdu)
            λ octets e'' h''. Ends-bind (bvlc-Done octets false) λ datagram e''' h'''. returns tt)
      (λ f. returns tt)

-- What may become of the workstation: it keeps a notification, or a response, or nothing.
abbrev pub Handled : Workstation → Frame → Workstation → Type 0
Handled w frame w' =
    (w'.answer_notifications ≡ w.answer_notifications)
    × (w'.last_invoke_id ≡ w.last_invoke_id)
    × ((w'.responses ≡ w.responses)
        ⊎ ((w'.responses ≡ w.responses ++ frame ∷ []) × (is_response frame ≡ true)))

-- Handling any frame ends. If it returns, the frame is kept as the last of the responses only when it is
-- one, the responses are otherwise what they were, and the invoke id is what it was.
pub handle-Handled :
    (w : Workstation) (frame : Frame)
    → Finishes (λ (w', datagram). Handled w frame w') (handle w frame)
unfolding handle
handle-Handled w frame =
    Ends-if (not frame.accepted || is_given frame.network_message)
      (λ t. returns (refl, refl, inl refl))
      (λ f. Ends-bind (Ends-raising (is_event_notification-Total frame) (λ e h. tt)) λ is_event e h.
        Ends-if is_event
          (λ t.
            Ends-bind (Ends-raising (event_notification_of-Total frame) (λ e h. tt))
              λ notification e' h'.
                Ends-bind (acknowledgement-Done w frame notification)
                  λ datagram e'' h''. returns (refl, refl, inl refl))
          (λ f'.
            Ends-if (is_response frame) (λ t. returns (refl, refl, inr (refl, t)))
              (λ f''. returns (refl, refl, inl refl))))
