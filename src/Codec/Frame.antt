-- ===== src/Codec/Frame.antt =====
-- wiretest/codec.py, the class `Frame`: a received datagram decoded down to the APDU or the network
-- layer message. A frame whose constructor raises is a `raised` result.
pub mod Npdu
pub mod RoundTrip
pub mod Totality
use Prim.Native.String.{String}
use bacnet_profile_example_b.Base.{
  ℕ, zero, suc, ◌+◌, ◌-◌, ◌*◌, ◌≤◌, ◌<◌, bit_and, Bool, true, false, not, ◌&&◌, ◌||◌, Option, none,
  some, List, [], ◌∷◌, length, drop, ltb, leb, ◌==◌, if◌then◌else◌,
}
use bacnet_profile_example_b.Base.Bits.{shr}
use bacnet_profile_example_b.Python.{
  Octets, Result, ok, raised, struct_error, ◌>>=◌, index, slice, from_bytes, unpack,
}
use bacnet_profile_example_b.Codec.Constants.{
  bvlc_type, bvlc_result, bvlc_original_broadcast, bvlc_original_unicast, bvlc_forwarded_npdu,
  bvlc_distribute_broadcast_to_network, bvlc_read_broadcast_distribution_table_ack,
  bvlc_read_foreign_device_table_ack, pdu_confirmed_request, pdu_unconfirmed_request,
  pdu_simple_ack, pdu_complex_ack, pdu_error, pdu_reject, pdu_abort,
}

-- (ip, udp port)
abbrev pub Source : Type 0
Source = String × ℕ

-- `accepted` is the attribute `ok`.
pub record Frame : Type 0 where
  pub raw : Octets
  pub source : Source
  pub bvlc_function : Option ℕ
  pub bvll_data : Octets
  pub originating_mac : Octets
  pub has_npdu : Bool
  pub snet : Option ℕ
  pub sadr : Octets
  pub dnet : Option ℕ
  pub dadr : Octets
  pub expecting_reply : Bool
  pub network_message : Option ℕ
  pub payload : Octets
  pub accepted : Bool

-- The attributes before `_decode` runs.
abbrev pub blank : Octets → Source → Frame
blank octets source = record {
  raw = octets;
  source = source;
  bvlc_function = none;
  bvll_data = [];
  originating_mac = [];
  has_npdu = false;
  snet = none;
  sadr = [];
  dnet = none;
  dadr = [];
  expecting_reply = false;
  network_message = none;
  payload = [];
  accepted = false;
}

-- `function in BVLC_FUNCTIONS_WITH_NPDU`
unfoldable pub carries_npdu : ℕ → Bool
carries_npdu function =
    function == bvlc_forwarded_npdu
    || function == bvlc_distribute_broadcast_to_network
    || function == bvlc_original_unicast
    || function == bvlc_original_broadcast

-- `bool(control & bit)`
abbrev pub has_bit : ℕ → ℕ → Bool
has_bit control bit = not (bit_and control bit == 0)

-- `struct.unpack(">HB", octets)`
unfoldable pub unpack_address : Octets → Result (ℕ × ℕ)
unpack_address (a ∷ b ∷ c ∷ []) = ok (from_bytes (a ∷ b ∷ []), c)
unpack_address _ = raised struct_error

-- DNET/DADR or SNET/SADR at `position`, if the control octet says that it is there.
unfoldable pub read_address : Bool → Octets → ℕ → Result (Option ℕ × Octets × ℕ)
read_address false octets position = ok (none, [], position)
read_address true octets position = do
  (net, size) ← unpack_address (slice octets position (position + 3))
  ok (some net, slice octets (position + 3) (position + 3 + size), position + 3 + size)

-- The message type; a proprietary one is followed by a vendor id.
unfoldable pub read_message : Bool → Octets → ℕ → Result (Option ℕ × ℕ)
read_message false octets position = ok (none, position)
read_message true octets position = do
  message ← index octets position
  ok (some message, (if leb 0x80 message then position + 3 else position + 1))

unfoldable pub decode_npdu : Octets → Frame → Result Frame
decode_npdu octets frame = do
  control ← index octets 1
  (dnet, dadr, after_destination) ← read_address (has_bit control 0x20) octets 2
  (snet, sadr, after_source) ← read_address (has_bit control 0x08) octets after_destination
  (message, position) ←
      read_message (has_bit control 0x80) octets
        (if has_bit control 0x20 then after_source + 1 else after_source)
  ok (record frame {
    has_npdu = true;
    expecting_reply = has_bit control 0x04;
    dnet = dnet;
    dadr = dadr;
    snet = snet;
    sadr = sadr;
    network_message = message;
    payload = drop position octets;
    accepted = true;
  })

-- Octets of an NPDU, or a frame that is not accepted.
unfoldable pub decode_npdu_octets : Octets → Frame → Result Frame
unfolding decode_npdu
decode_npdu_octets octets frame =
    if ltb (length octets) 2
    then ok frame
    else do version ← index octets 0; if version == 0x01 then decode_npdu octets frame else ok frame

-- From the BVLC function on.
unfoldable pub decode_bvll : Octets → ℕ → Frame → Result Frame
decode_bvll octets function frame =
    if not (carries_npdu function)
    then ok (record frame { accepted = true })
    else if function == bvlc_forwarded_npdu
    then decode_npdu_octets (drop 10 octets) (record frame { originating_mac = slice octets 4 10 })
    else decode_npdu_octets (drop 4 octets) frame

-- `Frame(data, source)`
unfoldable pub decode : Octets → Source → Result Frame
decode octets source = if ltb (length octets) 4 then ok (blank octets source) else do
  first ← index octets 0
  function ← index octets 1
  if first == bvlc_type
      then decode_bvll octets function (record (blank octets source) {
        bvlc_function = some function;
        bvll_data = drop 4 octets;
      })
      else ok (blank octets source)

-- `pdu_type`; the other properties may raise IndexError on a short payload.
unfoldable pub pdu_type_of : Option ℕ → Octets → Option ℕ
pdu_type_of none (b ∷ payload) = some (shr b 4)
pdu_type_of _ _ = none

unfoldable pub pdu_type : Frame → Option ℕ
unfolding pdu_type_of
pdu_type frame = pdu_type_of frame.network_message frame.payload

abbrev pub is_type : Option ℕ → ℕ → Bool
is_type none number = false
is_type (some n) number = n == number

unfoldable pub invoke_id : Frame → Result (Option ℕ)
invoke_id frame =
    let pdu = pdu_type frame in
    if is_type pdu pdu_simple_ack
      || is_type pdu pdu_complex_ack
      || is_type pdu pdu_error
      || is_type pdu pdu_reject
      || is_type pdu pdu_abort
    then (do n ← index frame.payload 1; ok (some n))
    else if is_type pdu pdu_confirmed_request && ltb 2 (length frame.payload)
    then (do n ← index frame.payload 2; ok (some n))
    else ok none

unfoldable pub service : Frame → Result (Option ℕ)
service frame =
    let pdu = pdu_type frame in
    if is_type pdu pdu_simple_ack || is_type pdu pdu_complex_ack || is_type pdu pdu_error
    then (do n ← index frame.payload 2; ok (some n))
    else if is_type pdu pdu_confirmed_request && ltb 3 (length frame.payload)
    then (do n ← index frame.payload 3; ok (some n))
    else if is_type pdu pdu_unconfirmed_request && ltb 1 (length frame.payload)
    then (do n ← index frame.payload 1; ok (some n))
    else ok none

unfoldable pub result_code : Frame → Result (Option ℕ)
result_code frame =
    if is_type frame.bvlc_function bvlc_result && leb 2 (length frame.bvll_data)
    then (do code ← unpack 2 (slice frame.bvll_data 0 2); ok (some code))
    else ok none

-- What `mac_text` prints: an IPv4 address and a port, or octets in hexadecimal.
pub data MacText : Type 0 where
  host : Octets → ℕ → MacText
  hex : Octets → MacText

unfoldable pub mac_text : Octets → Result MacText
mac_text octets =
    if length octets == 6
    then (do port ← unpack 2 (drop 4 octets); ok (host (slice octets 0 4) port))
    else ok (hex octets)

-- The entries of a table, ten octets each: `rounds` of the loop over `range(0, len - 9, 10)`.
unfoldable pub table_from {ℓ} : {A : Type ℓ} → (ℕ → Result A) → ℕ → ℕ → ℕ → Result (List A)
table_from entry zero stop offset = ok []
table_from entry (suc rounds) stop offset = elim (ltb offset stop) [
  | true ↦ entry offset >>= λ first.
      table_from entry rounds stop (offset + 10) >>= λ rest. ok (first ∷ rest)
  | false ↦ ok []
]

abbrev pub table {ℓ} : {A : Type ℓ} → Octets → (ℕ → Result A) → Result (List A)
table octets entry = table_from entry (length octets) (length octets - 9) 0

-- The mask is the four octets that `inet_ntoa` prints.
unfoldable pub bdt_entry : Octets → ℕ → Result (MacText × Octets)
bdt_entry octets offset = do
  address ← mac_text (slice octets offset (offset + 6))
  ok (address, slice octets (offset + 6) (offset + 10))

unfoldable pub bdt_entries : Frame → Result (Option (List (MacText × Octets)))
unfolding bdt_entry table_from
bdt_entries frame =
    if not (is_type frame.bvlc_function bvlc_read_broadcast_distribution_table_ack)
    then ok none
    else do entries ← table frame.bvll_data (bdt_entry frame.bvll_data); ok (some entries)

-- (B/IP address, time-to-live, seconds remaining)
unfoldable pub fdt_entry : Octets → ℕ → Result (MacText × ℕ × ℕ)
fdt_entry octets offset = do
  address ← mac_text (slice octets offset (offset + 6))
  time_to_live ← unpack 2 (slice octets (offset + 6) (offset + 8))
  remaining ← unpack 2 (slice octets (offset + 8) (offset + 10))
  ok (address, time_to_live, remaining)

unfoldable pub fdt_entries : Frame → Result (Option (List (MacText × ℕ × ℕ)))
unfolding fdt_entry table_from
fdt_entries frame =
    if not (is_type frame.bvlc_function bvlc_read_foreign_device_table_ack)
    then ok none
    else do entries ← table frame.bvll_data (fdt_entry frame.bvll_data); ok (some entries)

-- `networks`: the numbers in pairs of octets; an odd octet at the end is left out.
unfoldable pub networks_of : Octets → List ℕ
networks_of (a ∷ b ∷ payload) = from_bytes (a ∷ b ∷ []) ∷ networks_of payload
networks_of _ = []

unfoldable pub networks : Frame → List ℕ
unfolding networks_of
networks frame = networks_of frame.payload
