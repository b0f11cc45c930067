-- ===== src/Codec/Frame/Npdu.antt =====
-- An encoded NPDU is decoded to the routing information and the payload that it was made of.
use bacnet_profile_example_b.Base.{
  ℕ, ◌+◌, ◌/◌, ◌%◌, ◌<◌, Bool, true, Option, none, some, [], ◌∷◌, ◌++◌, ◌≡◌, refl, ap, ◌∙◌, arith,
  length, drop, leb, Bool-cases, inl, inr, drop-drop, if◌then◌else◌,
}
use bacnet_profile_example_b.Python.{Octets, ok, index, pack, big_endian, from_bytes}
use bacnet_profile_example_b.Python.Cursor.{index-at, next-at, slice-at, skip-at}
use bacnet_profile_example_b.Codec.Encode.Writes.{bytes-one, bytes-two}
use bacnet_profile_example_b.Codec.Bvll.{
  Routing, is_given, flag, npdu_control, npdu_address, npdu_hop_count, npdu_message, npdu,
}
use bacnet_profile_example_b.Codec.Frame.{
  Frame, has_bit, unpack_address, read_address, read_message, decode_npdu, decode_npdu_octets,
}

pub pack-one : (v : ℕ) → v < 256 → pack 1 v ≡ ok (v ∷ [])
unfolding pack big_endian
pack-one v h = ground arith

pub pack-two : (v : ℕ) → v < 65536 → pack 2 v ≡ ok (v / 256 ∷ v % 256 ∷ [])
unfolding pack big_endian
pack-two v h = ground arith

pub from_bytes-two : (v : ℕ) → v < 65536 → from_bytes (v / 256 ∷ v % 256 ∷ []) ≡ v
unfolding from_bytes
from_bytes-two v h = omega arith

-- A network number and an address that an NPDU can carry.
abbrev pub AddressFits : Option ℕ → Octets → Type 0
AddressFits none adr = Unit {0}
AddressFits (some net) adr = (net < 65536) × (length adr < 256)

abbrev pub ByteFits : Option ℕ → Type 0
ByteFits none = Unit {0}
ByteFits (some v) = v < 256

pub record IsRouting (r : Routing) : Type 0 where
  pub destination_fits : AddressFits r.dnet r.dadr
  pub source_fits : AddressFits r.snet r.sadr
  pub message_fits : ByteFits r.network_message
  pub hop_count_fits : r.hop_count < 256

abbrev pub address_octets : Option ℕ → Octets → Octets
address_octets none adr = []
address_octets (some net) adr = net / 256 ∷ net % 256 ∷ length adr ∷ adr

abbrev pub hop_octets : Option ℕ → ℕ → Octets
hop_octets none hop_count = []
hop_octets (some net) hop_count = hop_count ∷ []

abbrev pub message_octets : Option ℕ → Octets
message_octets none = []
message_octets (some message) = message ∷ []

-- What follows the two octets at the head of an NPDU.
abbrev pub npdu_rest : Octets → Routing → Octets
npdu_rest payload r =
    address_octets r.dnet r.dadr
    ++ (address_octets r.snet r.sadr
        ++ (hop_octets r.dnet r.hop_count ++ (message_octets r.network_message ++ payload)))

npdu_address-eq :
    (net : Option ℕ) (adr : Octets)
    → AddressFits net adr
    → npdu_address net adr ≡ ok (address_octets net adr)
unfolding npdu_address
npdu_address-eq none adr h = refl
npdu_address-eq (some net) adr h = rw (pack-two net h.0, pack-one (length adr) h.1)

npdu_hop_count-eq :
    (net : Option ℕ) (hops : ℕ) → hops < 256 → npdu_hop_count net hops ≡ ok (hop_octets net hops)
unfolding npdu_hop_count
npdu_hop_count-eq none hops h = refl
npdu_hop_count-eq (some net) hops h = bytes-one hops h

npdu_message-eq :
    (message : Option ℕ) → ByteFits message → npdu_message message ≡ ok (message_octets message)
unfolding npdu_message
npdu_message-eq none h = refl
npdu_message-eq (some m) h = bytes-one m h

-- The control octet fits, and its four bits say what was given.
control_bits :
    (m d s e : Bool)
    → let control = flag e 0x04 (flag s 0x08 (flag d 0x20 (flag m 0x80 0))) in
      (control < 256)
      × (has_bit control 0x80 ≡ m)
      × (has_bit control 0x20 ≡ d)
      × (has_bit control 0x08 ≡ s)
      × (has_bit control 0x04 ≡ e)
control_bits m d s e = ground arith

module _ (r : Routing) (fits : IsRouting r) (payload : Octets) where
  pub npdu-eq : npdu payload r ≡ ok (1 ∷ npdu_control r ∷ npdu_rest payload r)
  unfolding npdu npdu_control
  npdu-eq =
      let bits =
        control_bits (is_given r.network_message) (is_given r.dnet) (is_given r.snet)
          r.expecting_reply in
      rw (
        bytes-two 0x01 _ (omega arith) bits.0,
        npdu_address-eq r.dnet r.dadr fits.destination_fits,
        npdu_address-eq r.snet r.sadr fits.source_fits,
        npdu_hop_count-eq r.dnet r.hop_count fits.hop_count_fits,
        npdu_message-eq r.network_message fits.message_fits,
      )

-- An address is kept only with its network number.
abbrev pub kept : Option ℕ → Octets → Octets
kept none adr = []
kept (some net) adr = adr

-- What is left of the payload: the decoder skips the vendor id behind a proprietary message type.
abbrev pub after_message : Option ℕ → Octets → Octets
after_message none payload = payload
after_message (some m) payload = if leb 0x80 m then drop 2 payload else payload

module _ (octets : Octets) (p : ℕ) where
  read_address-eq :
      (net : Option ℕ) (adr rest : Octets)
      → AddressFits net adr
      → drop p octets ≡ address_octets net adr ++ rest
      → (q : ℕ) × (read_address (is_given net) octets p ≡ ok (net, kept net adr, q))
        × (drop q octets ≡ rest)
  unfolding read_address unpack_address
  read_address-eq none adr rest h at = (p, refl, at)
  read_address-eq (some net) adr rest h at =
      let head : Octets = net / 256 ∷ net % 256 ∷ length adr ∷ [] in
      let behind = skip-at octets p head (adr ++ rest) (p + 3) at refl in
      (
        p + 3 + length adr,
        rw (
          slice-at octets p head (adr ++ rest) (p + 3) at refl,
          from_bytes-two net h.0,
          slice-at octets (p + 3) adr rest (p + 3 + length adr) behind refl,
        ),
        skip-at octets (p + 3) adr rest (p + 3 + length adr) behind refl,
      )

  read_message-eq :
      (message : Option ℕ) (rest : Octets)
      → drop p octets ≡ message_octets message ++ rest
      → (q : ℕ) × (read_message (is_given message) octets p ≡ ok (message, q))
        × (drop q octets ≡ after_message message rest)
  unfolding read_message
  read_message-eq none rest at = (p, refl, at)
  read_message-eq (some m) rest at =
      let behind = next-at octets p at in
      elim (Bool-cases (leb 0x80 m)) [
        | inl proprietary ↦ (
          p + 3,
          rw (index-at octets p at, proprietary),
          rw proprietary (drop-drop (p + 1) 2 (p + 3) octets (omega arith) ∙ ap (drop 2) behind),
        )
        | inr standard ↦ (p + 1, rw (index-at octets p at, standard), rw standard behind)
      ]

  skip_hops :
      (net : Option ℕ) (hops : ℕ) (rest : Octets)
      → drop p octets ≡ hop_octets net hops ++ rest
      → drop (if is_given net then p + 1 else p) octets ≡ rest
  skip_hops none hops rest at = at
  skip_hops (some net) hops rest at = next-at octets p at

-- The frame that an NPDU with this routing information and payload is decoded to.
abbrev pub routed : Frame → Routing → Octets → Frame
routed frame r payload = record frame {
  has_npdu = true;
  expecting_reply = r.expecting_reply;
  dnet = r.dnet;
  dadr = kept r.dnet r.dadr;
  snet = r.snet;
  sadr = kept r.snet r.sadr;
  network_message = r.network_message;
  payload = after_message r.network_message payload;
  accepted = true;
}

module _ (r : Routing) (fits : IsRouting r) (payload : Octets) (frame : Frame) where
  pub decode_npdu-eq :
      decode_npdu_octets (1 ∷ npdu_control r ∷ npdu_rest payload r) frame
      ≡ ok (routed frame r payload)
  unfolding decode_npdu_octets decode_npdu index npdu_control
  decode_npdu-eq =
      let octets = 1 ∷ npdu_control r ∷ npdu_rest payload r in
      let (_, message_bit, destination_bit, source_bit, reply_bit) =
        control_bits (is_given r.network_message) (is_given r.dnet) (is_given r.snet)
          r.expecting_reply in
      let message_part = message_octets r.network_message ++ payload in
      let hop_part = hop_octets r.dnet r.hop_count ++ message_part in
      let (p, destination_read, at_source) =
        read_address-eq octets 2 r.dnet r.dadr (address_octets r.snet r.sadr ++ hop_part)
          fits.destination_fits refl in
      let (q, source_read, at_hops) =
        read_address-eq octets p r.snet r.sadr hop_part fits.source_fits at_source in
      let at_message = skip_hops octets q r.dnet r.hop_count message_part at_hops in
      let (s, message_read, at_payload) =
        read_message-eq octets (if is_given r.dnet then q + 1 else q) r.network_message payload
          at_message in
      rw
        (
          destination_bit, destination_read, source_bit, source_read, message_bit, message_read,
          at_payload, reply_bit,
        )
        (ground arith)
