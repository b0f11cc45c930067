-- ===== src/Peer/Replies.antt =====
-- wiretest/peer.py, the addressing of an answer and the selection of a Who-Is.
use bacnet_profile_example_b.Base.{
  ℕ, ◌+◌, ◌<◌, Bool, true, false, ◌&&◌, Option, none, some, List, [], ◌∷◌, ◌++◌, ◌≡◌, refl, sym, ap,
  ◌∙◌, ◌^◌, arith, length, length-append, drop, leb, append-nil, if◌then◌else◌,
}
use bacnet_profile_example_b.Python.{Octets, Result, ok, raised, out_of_fuel, ◌>>=◌, from_bytes}
use bacnet_profile_example_b.Codec.Encode.Minimal.{
  minimal, length-minimal_bounds, from_bytes-minimal,
}
use bacnet_profile_example_b.Codec.Requests.{who_is, i_am}
use bacnet_profile_example_b.Codec.Requests.Shape.{who_is-eq}
use bacnet_profile_example_b.Codec.Tagged.{tagged}
use bacnet_profile_example_b.Codec.Scan.{go_on}
use bacnet_profile_example_b.Codec.Bvll.{npdu, bvlc}
use bacnet_profile_example_b.Codec.Decode.Reading.{tag_at}
use bacnet_profile_example_b.Codec.Decode.Lists.{scan-written}
use bacnet_profile_example_b.Codec.Frame.{Frame, Source, decode}
use bacnet_profile_example_b.Codec.Frame.Npdu.{IsRouting, routed, kept, AddressFits}
use bacnet_profile_example_b.Codec.Frame.RoundTrip.{received, bvll_octets, npdu_octets, decode-bvlc}
use bacnet_profile_example_b.Platform.{Platform}
use bacnet_profile_example_b.Peer.{
  Identity, limit_turn, limits_of, within, answer_who_is, back_to, reply_datagram,
}

-- The round of `limits_of` at one primitive.
abbrev kept_limit : List ℕ → ℕ → Bool × ℕ × Octets → List ℕ
kept_limit limits position (context, n, body) = limits ++ from_bytes body ∷ []

limit_round :
    (limits : List ℕ) (position n : ℕ) (c : Bool) (b : Octets)
    → limit_turn limits (tag_at position n c b)
      ≡ ok (go_on (position + length (tagged n c b)) (kept_limit limits position (c, n, b)))
unfolding limit_turn
limit_round limits position n c b = refl

-- The parameters of a Who-Is with limits.
abbrev pub limit_octets : ℕ → ℕ → Octets
limit_octets low high = tagged 0 true (minimal low) ++ tagged 1 true (minimal high)

limits_of-limit_octets :
    (low high : ℕ)
    → low < 2 ^ 32
    → high < 2 ^ 32
    → limits_of (limit_octets low high) ≡ ok (low ∷ high ∷ [])
unfolding limits_of
limits_of-limit_octets low high h k =
    let small = length-minimal_bounds low in
    let small' = length-minimal_bounds high in
    let ps : List (Bool × ℕ × Octets) = (true, 0, minimal low) ∷ (true, 1, minimal high) ∷ [] in
    scan-written (limit_octets low high) limit_turn kept_limit
      (λ s position n c b rest at. limit_round s position n c b) ps []
      ((omega arith, refl, omega arith), ((omega arith, refl, omega arith), tt))
      (ap (λ end. tagged 0 true (minimal low) ++ end)
        (sym (append-nil (tagged 1 true (minimal high)))))
    ∙ rw (from_bytes-minimal low h, from_bytes-minimal high k) refl

module _ {Text Real : Type 0} (platform : Platform Text Real) (device : Identity Text) where
  -- A Who-Is with limits below 2^32 is answered with the device's I-Am exactly when its instance is within them,
  -- both included.
  pub answer_who_is-who_is :
      (frame : Frame) (low high : ℕ)
      → low < 2 ^ 32
      → high < 2 ^ 32
      → who_is (some (low, high)) ≡ ok frame.payload
      → answer_who_is platform device frame ≡ (
          if leb low device.device_instance && leb device.device_instance high
          then (i_am device.device_instance device.vendor_identifier 1476 3 >>= λ apdu.
              ok (some apdu))
          else ok none)
  unfolding answer_who_is within
  answer_who_is-who_is frame low high h k e =
      let payload : frame.payload ≡ 0x10 ∷ 8 ∷ limit_octets low high =
        cc (e, who_is-eq low high h k) in
      rw (ap (drop 2) payload, limits_of-limit_octets low high h k) refl

pub bind_assoc :
    {A B C : Type 0} (first : Result A) (second : A → Result B) (third : B → Result C)
    → ((first >>= second) >>= third) ≡ (first >>= λ a. second a >>= third)
bind_assoc out_of_fuel second third = refl
bind_assoc (raised e) second third = refl
bind_assoc (ok a) second third = refl

-- What `back_to` fills in, and what is decoded of it.
pub back_to-IsRouting :
    (net : Option ℕ) (adr : Octets) → AddressFits net adr → IsRouting (back_to net adr)
back_to-IsRouting none adr h = record {
  destination_fits = tt;
  source_fits = tt;
  message_fits = tt;
  hop_count_fits = omega arith;
}
back_to-IsRouting (some net) adr h = record {
  destination_fits = h;
  source_fits = tt;
  message_fits = tt;
  hop_count_fits = omega arith;
}

pub back_to-small :
    (net : Option ℕ) (adr apdu : Octets) (source : Source) (fits : AddressFits net adr)
    → length apdu < 65000
    → 4 + length (npdu_octets (back_to net adr) (back_to-IsRouting net adr fits) apdu source)
      < 65536
back_to-small none adr apdu source fits h = omega arith
back_to-small (some net) adr apdu source fits h = omega (arith, length-append adr (255 ∷ apdu))

-- A frame that carries `apdu` back to where the request came from.
pub record IsReply (request : Frame) (apdu : Octets) (frame : Frame) : Type 0 where
  pub is_accepted : frame.accepted ≡ true
  pub to_network : frame.dnet ≡ request.snet
  pub to_address : frame.dadr ≡ kept request.snet request.sadr
  pub from_here : frame.snet ≡ none
  pub no_message : frame.network_message ≡ none
  pub carries : frame.payload ≡ apdu

routed-IsReply :
    (request frame : Frame) (net : Option ℕ) (adr apdu : Octets)
    → net ≡ request.snet
    → adr ≡ request.sadr
    → IsReply request apdu (routed frame (back_to net adr) apdu)
routed-IsReply request frame none adr apdu e k = record {
  is_accepted = refl;
  to_network = e;
  to_address = rw (sym e) refl;
  from_here = refl;
  no_message = refl;
  carries = refl;
}
routed-IsReply request frame (some net) adr apdu e k = record {
  is_accepted = refl;
  to_network = e;
  to_address = rw (sym e) k;
  from_here = refl;
  no_message = refl;
  carries = refl;
}

-- The answer to a request that a router relayed goes back to the network and the address that the
-- router named, and any other answer has no routing information: the datagram of an answer of fewer
-- than 65,000 octets is made without an error, and decoded it is a frame of those addresses with the
-- octets of the answer.
pub decode-reply_datagram :
    (request : Frame) (apdu : Octets) (source : Source)
    → AddressFits request.snet request.sadr
    → length apdu < 65000
    → (frame : Frame) × ((reply_datagram request apdu >>= λ datagram. decode datagram source)
        ≡ ok frame)
      × IsReply request apdu frame
unfolding reply_datagram
decode-reply_datagram request apdu source fits small =
    let r = back_to request.snet request.sadr in
    let fits' = back_to-IsRouting request.snet request.sadr fits in
    let small' = back_to-small request.snet request.sadr apdu source fits small in
    let octets = npdu_octets r fits' apdu source in
    let unrouted = received (bvll_octets 0x0a octets) source 0x0a octets in
    (
      routed unrouted r apdu,
      bind_assoc (npdu apdu r) (λ octets. bvlc octets false) (λ datagram. decode datagram source)
          ∙ decode-bvlc r fits' apdu source false small',
      routed-IsReply request unrouted request.snet request.sadr apdu refl refl,
    )
