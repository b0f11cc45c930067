-- ===== src/Codec/Decode/Answers.antt =====
-- What the encoders of answers and announcements write, the decoders read back.
use bacnet_profile_example_b.Base.{
  ℕ, ◌+◌, ◌^◌, ◌≤◌, ◌<◌, true, false, none, some, [], ◌∷◌, ◌++◌, ◌≡◌, refl, ap, arith, length,
  length-append, append-nil, bit_and,
}
use bacnet_profile_example_b.Base.Bits.{shr, bit_and-ones}
use bacnet_profile_example_b.Python.{Octets, ok, ◌>>=◌, index}
use bacnet_profile_example_b.Python.Bytes.{unpack-eq}
use bacnet_profile_example_b.Codec.Tag.{value}
use bacnet_profile_example_b.Codec.Tagged.{tagged, opened, closed}
use bacnet_profile_example_b.Codec.Tagged.Read.{read_tag-opened}
use bacnet_profile_example_b.Codec.Scan.Steps.{
  WellNested, nested_body-WellNested, Scans-go_on, Scans-leave, Scans-scan,
}
use bacnet_profile_example_b.Codec.Encode.Minimal.{
  minimal, from_bytes-minimal, length-minimal_bounds,
}
use bacnet_profile_example_b.Codec.Encode.Writes.{
  IsIdentifier, identifier, identifier_octets, length-identifier_octets, tagged-short,
}
use bacnet_profile_example_b.Codec.Constants.{max_instance}
use bacnet_profile_example_b.Codec.Requests.{read_property_ack, error_pdu, i_am}
use bacnet_profile_example_b.Codec.Requests.Shape.{
  IsReference, read_property_ack-eq, error_pdu-eq, i_am-eq,
}
use bacnet_profile_example_b.Codec.Decode.{
  property_value_turn, read_property_value, error_class_and_code, is_i_am, announced_instance,
  i_am_device_instance,
}
use bacnet_profile_example_b.Codec.Decode.Reading.{
  Reads-identifier, Reads-number, from_bytes-identifier_octets,
}
use bacnet_profile_example_b.Codec.Decode.Lists.{values-written, tagged-positive}

module _ (invoke_id t i pid : ℕ) (h : IsReference invoke_id t i pid) (v : Octets)
    (nested : WellNested v) where
  abbrev ack : Octets
  ack =
      0x30
      ∷ invoke_id
      ∷ 12
      ∷ (tagged 0 true (identifier_octets t i)
          ++ (tagged 1 true (minimal pid) ++ (opened 3 ++ (v ++ closed 3))))

  ack-value : read_property_value ack ≡ ok (some v)
  unfolding read_property_value property_value_turn
  ack-value =
      let (object_read, at_property) =
        Reads-identifier ack 3 0 true (omega arith) (λ e. refl) t i
          (tagged 1 true (minimal pid) ++ (opened 3 ++ (v ++ closed 3))) refl in
      let p = 3 + length (tagged 0 true (identifier_octets t i)) in
      let (property_read, at_value) =
        Reads-number ack p 1 true (omega arith) (λ e. refl) pid (opened 3 ++ (v ++ closed 3))
          at_property in
      let q = p + length (tagged 1 true (minimal pid)) in
      let (value_read, at_body) = read_tag-opened ack q 3 (v ++ closed 3) (omega arith) at_value in
      let (body_read, end) =
        nested_body-WellNested ack v [] 3 (q + 1) nested (omega arith)
          (rw (append-nil (closed 3)) at_body) in
      Scans-scan ack (property_value_turn ack) 3 none (some v) (
        Scans-go_on ack _ 3 none none _ _ p object_read refl
          (omega (arith, tagged-positive 0 true (identifier_octets t i)))
          (Scans-go_on ack _ p none none _ _ q property_read refl
            (omega (arith, tagged-positive 1 true (minimal pid)))
            (Scans-leave ack _ q none _ _ value_read (rw body_read))))

  -- The value octets that are read from an encoded ReadProperty-ACK, its identifiers fitting their fields, are
  -- those that were put there,
  -- whatever complete and closed tags they are: primitives of up to 65535 octets, application BOOLEANs,
  -- extended tag numbers and groups.
  pub read_property_value-ack :
      (read_property_ack invoke_id t i pid v >>= λ apdu. read_property_value apdu) ≡ ok (some v)
  read_property_value-ack = rw (read_property_ack-eq invoke_id t i pid h v) ack-value

-- An encoded Error PDU, its class and code below 2^32, gives the class and the code back.
pub error_class_and_code-error_pdu :
    (invoke_id service error_class error_code : ℕ)
    → invoke_id < 256
    → service < 256
    → error_class < 2 ^ 32
    → error_code < 2 ^ 32
    → (error_pdu invoke_id service error_class error_code >>= λ apdu. error_class_and_code apdu)
      ≡ ok (some (error_class, error_code))
unfolding error_class_and_code
error_class_and_code-error_pdu invoke_id service c e h k l m =
    let size = length-minimal_bounds c in
    let size' = length-minimal_bounds e in
    let read =
      (values-written ((false, 9, minimal c) ∷ (false, 9, minimal e) ∷ [])
        ((omega arith, refl, omega arith), ((omega arith, refl, omega arith), tt))).0 in
    rw (
      error_pdu-eq invoke_id service c e h k l m,
      rw (append-nil (tagged 9 false (minimal e))) at read,
      from_bytes-minimal c l,
      from_bytes-minimal e m,
    )

announced_instance-device :
    (device next : ℕ)
    → device < 4194304
    → announced_instance (record {
      number = 12;
      is_context = false;
      kind = value;
      body = identifier_octets 8 device;
      next = next;
    })
      ≡ ok (some device)
unfolding announced_instance
announced_instance-device device next h =
    let is_device : IsIdentifier 8 device = omega arith in
    let size = length-identifier_octets 8 device in
    let low : bit_and (identifier 8 device) max_instance ≡ device =
      omega (arith, bit_and-ones 22 (identifier 8 device)) in
    let high : shr (identifier 8 device) 22 ≡ 8 = omega arith in
    rw (
      size,
      unpack-eq 4 (identifier_octets 8 device) size,
      from_bytes-identifier_octets 8 device is_device,
      high,
      low,
    )

is_i_am-long : (rest : Octets) → 5 ≤ length rest → is_i_am (0x10 ∷ 0 ∷ rest) ≡ ok true
unfolding is_i_am index
is_i_am-long rest h = ground arith

-- An encoded I-Am of a Device instance below 2^22 gives that instance back.
pub i_am_device_instance-i_am :
    (device vendor max_apdu segmentation : ℕ)
    → device < 4194304
    → vendor < 2 ^ 32
    → max_apdu < 2 ^ 32
    → segmentation < 2 ^ 32
    → (i_am device vendor max_apdu segmentation >>= λ apdu. i_am_device_instance apdu)
      ≡ ok (some device)
i_am_device_instance-i_am device vendor max_apdu segmentation h k l m =
    let rest =
      tagged 2 false (minimal max_apdu)
      ++ (tagged 9 false (minimal segmentation) ++ tagged 2 false (minimal vendor)) in
    let body = tagged 12 false (identifier_octets 8 device) in
    let (object_read, at_rest) =
      Reads-identifier (0x10 ∷ 0 ∷ (body ++ rest)) 2 12 false (omega arith)
        (λ e. absurd (omega arith)) 8 device rest refl in
    let size = length-identifier_octets 8 device in
    let short = tagged-short 12 false (identifier_octets 8 device) (omega arith) in
    let long =
      is_i_am-long (body ++ rest) (omega (arith, length-append body rest, ap length short)) in
    rw (i_am-eq device vendor max_apdu segmentation h k l m) (
      unfold i_am_device_instance in
      rw (long, object_read) (announced_instance-device device (2 + length body) h))
