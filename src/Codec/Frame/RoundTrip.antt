-- ===== src/Codec/Frame/RoundTrip.antt =====
-- A datagram that the encoders build is decoded to the frame that it was built from.
use bacnet_profile_example_b.Base.{
  ℕ, ◌+◌, ◌/◌, ◌%◌, ◌<◌, Bool, true, false, some, ◌∷◌, ◌++◌, ◌≡◌, refl, arith, length, drop,
  if◌then◌else◌,
}
use bacnet_profile_example_b.Python.{Octets, ok, ◌>>=◌, index, slice}
use bacnet_profile_example_b.Python.Cursor.{slice-at, skip-at}
use bacnet_profile_example_b.Codec.Bvll.{Routing, npdu_control, npdu, bvll, bvlc, forwarded_npdu}
use bacnet_profile_example_b.Codec.Frame.{Frame, Source, blank, carries_npdu, decode_bvll, decode}
use bacnet_profile_example_b.Codec.Frame.Npdu.{
  pack-one, pack-two, IsRouting, npdu_rest, npdu-eq, routed, decode_npdu-eq,
}

-- The four octets at the head of a BVLL message and what follows them.
abbrev pub bvll_octets : ℕ → Octets → Octets
bvll_octets function body =
    0x81 ∷ function ∷ (4 + length body) / 256 ∷ (4 + length body) % 256 ∷ body

pub bvll-eq :
    (function : ℕ) (body : Octets)
    → function < 256
    → 4 + length body < 65536
    → bvll function body ≡ ok (bvll_octets function body)
unfolding bvll
bvll-eq function body h k =
    rw (pack-one 0x81 (omega arith), pack-one function h, pack-two (4 + length body) k)

-- A frame of any BVLL function, before an NPDU in it is read.
abbrev pub received : Octets → Source → ℕ → Octets → Frame
received octets source function body = record (blank octets source) {
  bvlc_function = some function;
  bvll_data = body;
}

decode-bvll :
    (function : ℕ) (body : Octets) (source : Source)
    → decode (bvll_octets function body) source
      ≡ decode_bvll
          (bvll_octets function body)
          function
          (received (bvll_octets function body) source function body)
unfolding decode index
decode-bvll function body source = ground arith

-- A BVLL message of fewer than 65536 octets whose function carries no NPDU is accepted with its data,
-- and nothing else of the frame is set.
decode-bvll_only :
    (function : ℕ) (body : Octets) (source : Source)
    → function < 256
    → 4 + length body < 65536
    → carries_npdu function ≡ false
    → (bvll function body >>= λ octets. decode octets source)
      ≡ ok (record (received (bvll_octets function body) source function body) { accepted = true })
unfolding decode_bvll
decode-bvll_only function body source h k only =
    rw (bvll-eq function body h k, decode-bvll function body source, only)

module _ (r : Routing) (fits : IsRouting r) (payload : Octets) (source : Source) where
  abbrev pub npdu_octets : Octets
  npdu_octets = 1 ∷ npdu_control r ∷ npdu_rest payload r

  -- An NPDU whose routing information fits, in an Original-Unicast-NPDU or an Original-Broadcast-NPDU
  -- of fewer than 65536 octets, is decoded to a frame with that routing information and the payload. Of
  -- an address without a network number nothing is sent, and the two octets behind a message type from
  -- 0x80 on are skipped as a vendor identifier.
  pub decode-bvlc :
      (broadcast : Bool)
      → 4 + length npdu_octets < 65536
      → (npdu payload r >>= λ octets. bvlc octets broadcast >>= λ datagram. decode datagram source)
        ≡ (let function = if broadcast then 0x0b else 0x0a in
            ok (
              routed
                (received (bvll_octets function npdu_octets) source function npdu_octets)
                r
                payload))
  unfolding bvlc decode_bvll carries_npdu
  decode-bvlc true small = rw (
    npdu-eq r fits payload,
    bvll-eq 0x0b npdu_octets (omega arith) small,
    decode-bvll 0x0b npdu_octets source,
    decode_npdu-eq r fits payload,
  )
  decode-bvlc false small = rw (
    npdu-eq r fits payload,
    bvll-eq 0x0a npdu_octets (omega arith) small,
    decode-bvll 0x0a npdu_octets source,
    decode_npdu-eq r fits payload,
  )

  -- The same NPDU in a Forwarded-NPDU is decoded to a frame that has, in addition, the six octets of its
  -- originator's address.
  pub decode-forwarded_npdu :
      (originating_mac : Octets)
      → length originating_mac ≡ 6
      → 4 + length (originating_mac ++ npdu_octets) < 65536
      → (npdu payload r >>= λ octets.
          forwarded_npdu originating_mac octets >>= λ datagram. decode datagram source)
        ≡ (let body = originating_mac ++ npdu_octets in
            ok (
              routed
                (record (received (bvll_octets 0x04 body) source 0x04 body) {
                  originating_mac = originating_mac;
                })
                r
                payload))
  unfolding forwarded_npdu decode_bvll carries_npdu
  decode-forwarded_npdu mac six small =
      let body = mac ++ npdu_octets in
      let datagram = bvll_octets 0x04 body in
      let originator : slice datagram 4 10 ≡ mac =
        slice-at datagram 4 mac npdu_octets 10 refl (omega arith) in
      let behind : drop 10 datagram ≡ npdu_octets =
        skip-at datagram 4 mac npdu_octets 10 refl (omega arith) in
      rw (
        npdu-eq r fits payload,
        bvll-eq 0x04 body (omega arith) small,
        decode-bvll 0x04 body source,
        originator,
        behind,
        decode_npdu-eq r fits payload,
      )
