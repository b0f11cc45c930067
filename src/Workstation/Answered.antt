-- ===== src/Workstation/Answered.antt =====
-- A response that arrives while a request of the workstation waits is handed to it.
use bacnet_profile_example_b.Base.{
  ℕ, Bool, true, false, ◌||◌, Option, none, some, List, [], ◌∷◌, ◌++◌, ◌≡◌, refl, arith, All,
  All-append, inl, inr, Bool-cases, ==_iff,
}
use bacnet_profile_example_b.Python.{Octets, Result, ok}
use bacnet_profile_example_b.Python.Ends.{Ends-ok, returns, Ends-bind, Ends-raising}
use bacnet_profile_example_b.Codec.Constants.{
  pdu_simple_ack, pdu_complex_ack, pdu_error, pdu_reject, pdu_abort, pdu_confirmed_request,
  pdu_unconfirmed_request,
}
use bacnet_profile_example_b.Codec.Bvll.{is_given}
use bacnet_profile_example_b.Codec.Frame.{
  Frame, Source, is_type, pdu_type, pdu_type_of, invoke_id, decode,
}
use bacnet_profile_example_b.Codec.Frame.Totality.{invoke_id-Total}
use bacnet_profile_example_b.Services.Cov.{is_service}
use bacnet_profile_example_b.Alarm.Notification.{is_event_notification}
use bacnet_profile_example_b.Client.{next_invoke_id}
use bacnet_profile_example_b.Workstation.{
  Workstation, is_response, handle, serve, without_answers, begin, taken, take_response, Arrival,
  await,
}
use bacnet_profile_example_b.Workstation.Handling.{Finishes, handle-Handled}

-- A frame whose invoke id can be read and is another one.
abbrev pub HasOther : ℕ → Frame → Type 0
HasOther n frame = (own : Option ℕ) × (invoke_id frame ≡ ok own) × (is_type own n ≡ false)

module _ (n : ℕ) where
  taken-none :
      (responses : List Frame)
      → All (HasOther n) responses
      → taken n responses ≡ ok (none, responses)
  unfolding taken
  taken-none [] h = refl
  taken-none (frame ∷ responses) ((own, has, other), h) =
      rw (has, other, taken-none responses h) refl

  taken-first :
      (responses : List Frame) (frame : Frame)
      → All (HasOther n) responses
      → invoke_id frame ≡ ok (some n)
      → taken n (responses ++ frame ∷ []) ≡ ok (some frame, responses)
  unfolding taken
  taken-first [] frame h has = rw has (ground (arith, ==_iff n n))
  taken-first (other ∷ responses) frame ((own, had, differs), h) has =
      rw (had, differs, taken-first responses frame h has) refl

  take_response-none :
      (w : Workstation) → All (HasOther n) w.responses → take_response n w ≡ ok (none, w)
  unfolding take_response
  take_response-none w h = rw (taken-none w.responses h) refl

  abbrev with_response : Workstation → Frame → Workstation
  with_response w frame = record w { responses = w.responses ++ frame ∷ [] }

  take_response-first :
      (w : Workstation) (frame : Frame)
      → All (HasOther n) w.responses
      → invoke_id frame ≡ ok (some n)
      → take_response n (with_response w frame) ≡ ok (some frame, w)
  unfolding take_response
  take_response-first w frame h has = rw (taken-first w.responses frame h has) refl

  await-first :
      (arrivals : List Arrival) (w : Workstation) (frame : Frame)
      → All (HasOther n) w.responses
      → invoke_id frame ≡ ok (some n)
      → await n arrivals (with_response w frame) ≡ ok (some frame, w)
  unfolding await
  await-first [] w frame h has = take_response-first w frame h has
  await-first ((octets, source) ∷ arrivals) w frame h has =
      rw (take_response-first w frame h has) refl

abbrev response_type : Option ℕ → Bool
response_type pdu =
    is_type pdu pdu_simple_ack
    || is_type pdu pdu_complex_ack
    || is_type pdu pdu_error
    || is_type pdu pdu_reject
    || is_type pdu pdu_abort

-- A response is neither kind of request.
not_request :
    (pdu : Option ℕ)
    → response_type pdu ≡ true
    → (is_type pdu pdu_confirmed_request ≡ false) × (is_type pdu pdu_unconfirmed_request ≡ false)
not_request none h = absurd (ground (arith, h))
not_request (some k) h = ground (arith, h)

no_layer :
    (message : Option ℕ) (payload : Octets)
    → response_type (pdu_type_of message payload) ≡ true
    → is_given message ≡ false
unfolding pdu_type_of
no_layer none payload h = refl
no_layer (some m) payload h = absurd (ground (arith, h))

by_layer :
    (message : Option ℕ) (of_apdu : Result Bool)
    → of_apdu ≡ ok false
    → (elim message as (λ _. Result Bool) [ some m ↦ ok false | none ↦ of_apdu ]) ≡ ok false
by_layer none of_apdu e = e
by_layer (some m) of_apdu e = refl

module _ (frame : Frame) (response : is_response frame ≡ true) where
  response_type-frame : response_type (pdu_type frame) ≡ true
  unfolding is_response
  response_type-frame = response

  not_event : is_event_notification frame ≡ ok false
  unfolding is_event_notification is_service
  not_event =
      let (confirmed, unconfirmed) = not_request (pdu_type frame) response_type-frame in
      by_layer frame.network_message _ (rw (confirmed, unconfirmed) refl)

  is_apdu : is_given frame.network_message ≡ false
  unfolding pdu_type
  is_apdu = no_layer frame.network_message frame.payload response_type-frame

  -- A response is kept.
  handle-response :
      (w : Workstation)
      → frame.accepted ≡ true
      → handle w frame ≡ ok (record w { responses = w.responses ++ frame ∷ [] }, none)
  unfolding handle
  handle-response w accepted = rw (handle, not_event, response, is_apdu) (ground (arith, accepted))

-- A datagram that the thread handles without an exception, whatever it keeps, and that is no response or one
-- whose invoke id can be read and is another one.
abbrev pub IsPassing : ℕ → Arrival → Type 0
IsPassing n (octets, source) =
    (frame : Frame) × (decode octets source ≡ ok frame)
    × ((w : Workstation) → (r : Workstation × Option Octets) × (handle w frame ≡ ok r))
    × (is_response frame ≡ true → HasOther n frame)

module _ (n : ℕ) where
  without_answers-other :
      (responses : List Frame) → Finishes (All (HasOther n)) (without_answers n responses)
  unfolding without_answers
  without_answers-other [] = returns tt
  without_answers-other (frame ∷ responses) =
      Ends-bind (Ends-raising (invoke_id-Total frame) (λ e k. tt)) λ own has k.
        Ends-bind (without_answers-other responses) λ rest e all.
          elim (Bool-cases (is_type own n)) [
            | inl same ↦ rw same (returns all)
            | inr other ↦ rw other (returns ((own, has, other), all))
          ]

begin-Others : (w : Workstation) → Finishes (λ (m, w'). All (HasOther m) w'.responses) (begin w)
unfolding begin
begin-Others w =
    Ends-bind (without_answers-other (next_invoke_id w.last_invoke_id) w.responses)
      λ rest e all. returns all

module _ (n : ℕ) where
  -- The workstation after a datagram that passes.
  passed :
      (w : Workstation) (octets : Octets) (source : Source)
      → IsPassing n (octets, source)
      → All (HasOther n) w.responses
      → (w' : Workstation) × (datagram : Option Octets) × (serve octets source w
          ≡ ok (w', datagram))
        × All (HasOther n) w'.responses
  unfolding serve
  passed w octets source (frame, decodes, handles, other) h =
      let ((w', datagram), handled) = handles w in
      let (_, _, kept) = Ends-ok (handle-Handled w frame) handled in
      (
        w',
        datagram,
        rw decodes handled,
        elim kept [
          | inl same ↦ rw same h
          | inr (longer, response) ↦
              rw longer (All-append (HasOther n) w.responses (frame ∷ []) h (other response, tt))
        ],
      )

  module _ (octets : Octets) (source : Source) (frame : Frame) (later : List Arrival)
      (decodes : decode octets source ≡ ok frame) (accepted : frame.accepted ≡ true)
      (response : is_response frame ≡ true) (has : invoke_id frame ≡ ok (some n)) where
    await-answered :
        (earlier : List Arrival) (w : Workstation)
        → All (HasOther n) w.responses
        → All (IsPassing n) earlier
        → (w' : Workstation) × (await n (earlier ++ (octets, source) ∷ later) w
            ≡ ok (some frame, w'))
    unfolding await serve
    await-answered [] w h passing = (
      w,
      rw (take_response-none n w h, decodes, handle-response frame response w accepted)
          (await-first n later w frame h has),
    )
    await-answered ((octets', source') ∷ earlier) w h (passes, passing) =
        let (w', datagram, served, h') = passed w octets' source' passes h in
        let (w'', delivered) = await-answered earlier w' h' passing in
        (w'', rw (take_response-none n w h, served) delivered)

    -- A request that begins with the invoke id, and whose answer arrives before the deadline, behind any
    -- datagrams that the thread handles without an exception and that are no responses or responses whose
    -- invoke id can be read and is another one, gets that answer; what was kept from before the request and
    -- what arrives later do not matter.
    pub begin-answered :
        (w w' : Workstation) (earlier : List Arrival)
        → begin w ≡ ok (n, w')
        → All (IsPassing n) earlier
        → (w'' : Workstation) × (await n (earlier ++ (octets, source) ∷ later) w'
            ≡ ok (some frame, w''))
    begin-answered w w' earlier begun passing =
        await-answered earlier w' (Ends-ok (begin-Others w) begun) passing
