-- ===== src/Codec/Decode/RoundTrip.antt =====
-- What the request encoders write, the request parsers read back.
use bacnet_profile_example_b.Base.{
  ℕ, ◌+◌, ◌^◌, ◌<◌, Bool, true, false, Option, none, some, [], ◌++◌, ◌≡◌, refl, ap, ◌∙◌, arith,
  length, drop, length-drop, lt→ltb, if◌then◌else◌, append_assoc, append-nil,
}
use bacnet_profile_example_b.Python.{Octets, ok, ◌>>=◌, index}
use bacnet_profile_example_b.Python.Ends.{Ends-ok}
use bacnet_profile_example_b.Codec.Tag.Advances.{read_tag-Ends}
use bacnet_profile_example_b.Codec.Tagged.{tagged, opened, closed}
use bacnet_profile_example_b.Codec.Tagged.Read.{read_tag-opened}
use bacnet_profile_example_b.Codec.Scan.Steps.{WellNested, nested_body-WellNested}
use bacnet_profile_example_b.Codec.Encode.Minimal.{minimal, from_bytes-minimal}
use bacnet_profile_example_b.Codec.Encode.Writes.{IsIdentifier, identifier_octets}
use bacnet_profile_example_b.Codec.Requests.{read_property_request, write_property_request}
use bacnet_profile_example_b.Codec.Requests.Shape.{
  Fits, optional_tagged, IsReference, read_property_request-eq, write_property_request-eq,
}
use bacnet_profile_example_b.Codec.Decode.{
  read_request, trailing_index, read_property_parameters, parse_read_property_request,
  write_request, is_write_property, optional_index, trailing_priority, write_property_parameters,
  parse_write_property_request,
}
use bacnet_profile_example_b.Codec.Decode.Reading.{
  Reads, tag_at, object_identifier-octets, Reads-identifier, Reads-number,
}

module _ (octets : Octets) (p : ℕ) where
  trailing_index-eq :
      (array_index : Option ℕ)
      → Fits array_index
      → drop p octets ≡ optional_tagged 2 array_index
      → trailing_index octets p ≡ ok array_index
  unfolding trailing_index
  trailing_index-eq none fits at = ground (arith, length-drop p octets, ap length at)
  trailing_index-eq (some v) fits at =
      let here : drop p octets ≡ tagged 2 true (minimal v) ++ [] = rw append-nil at in
      let (reads, behind) = Reads-number octets p 2 true (omega arith) (λ e. refl) v [] here in
      let (inside, _) = Ends-ok (read_tag-Ends octets p) reads in
      rw (lt→ltb p (length octets) inside, reads, from_bytes-minimal v fits)

  trailing_priority-eq :
      (priority : Option ℕ)
      → Fits priority
      → drop p octets ≡ optional_tagged 4 priority
      → trailing_priority octets p ≡ ok priority
  unfolding trailing_priority
  trailing_priority-eq none fits at = ground (arith, length-drop p octets, ap length at)
  trailing_priority-eq (some v) fits at =
      let here : drop p octets ≡ tagged 4 true (minimal v) ++ [] = rw append-nil at in
      let (reads, behind) = Reads-number octets p 4 true (omega arith) (λ e. refl) v [] here in
      let (inside, _) = Ends-ok (read_tag-Ends octets p) reads in
      rw (lt→ltb p (length octets) inside, reads, from_bytes-minimal v fits)

  -- Where the opening tag [3] stands: behind the array index, if there is one.
  optional_index-eq :
      (array_index : Option ℕ) (rest : Octets)
      → Fits array_index
      → drop p octets ≡ optional_tagged 2 array_index ++ (opened 3 ++ rest)
      → (q : ℕ) × (optional_index octets p ≡ ok (array_index, q))
        × (drop q octets ≡ opened 3 ++ rest)
  unfolding optional_index
  optional_index-eq none rest fits at =
      let (reads, behind) = read_tag-opened octets p 3 rest (omega arith) at in (p, rw reads, at)
  optional_index-eq (some v) rest fits at =
      let (reads, behind) =
        Reads-number octets p 2 true (omega arith) (λ e. refl) v (opened 3 ++ rest) at in
      (p + length (tagged 2 true (minimal v)), rw (reads, from_bytes-minimal v fits), behind)

module _ (octets : Octets) (t i pid : ℕ) (h : IsIdentifier t i) (fits : pid < 2 ^ 32)
    (rest : Octets)
    (at : drop 4 octets
      ≡ tagged 0 true (identifier_octets t i) ++ (tagged 1 true (minimal pid) ++ rest)) where
  abbrev property_start : ℕ
  property_start = 4 + length (tagged 0 true (identifier_octets t i))

  abbrev property_end : ℕ
  property_end = property_start + length (tagged 1 true (minimal pid))

  object_read :
      Reads octets 4 (tag_at 4 0 true (identifier_octets t i)) (tagged 1 true (minimal pid) ++ rest)
  object_read =
      Reads-identifier octets 4 0 true (omega arith) (λ e. refl) t i
        (tagged 1 true (minimal pid) ++ rest) at

  property_read : Reads octets property_start (tag_at property_start 1 true (minimal pid)) rest
  property_read =
      Reads-number octets property_start 1 true (omega arith) (λ e. refl) pid rest object_read.1

  read_property_parameters-eq :
      (array_index : Option ℕ) (w : Bool)
      → Fits array_index
      → rest ≡ optional_tagged 2 array_index
      → read_property_parameters octets w
        ≡ ok (some (read_request (t, i) pid (if w then array_index else none)))
  unfolding read_property_parameters
  read_property_parameters-eq array_index true ok_index e = rw (
    object_read.0,
    object_identifier-octets t i h,
    property_read.0,
    trailing_index-eq octets property_end array_index ok_index (property_read.1 ∙ e),
    from_bytes-minimal pid fits,
  )
  read_property_parameters-eq array_index false ok_index e =
      rw (
        object_read.0,
        object_identifier-octets t i h,
        property_read.0,
        from_bytes-minimal pid fits,
      )

  write_property_parameters-eq :
      (array_index priority : Option ℕ) (v : Octets)
      → Fits array_index
      → Fits priority
      → WellNested v
      → rest
        ≡ optional_tagged 2 array_index
          ++ (opened 3 ++ (v ++ (closed 3 ++ optional_tagged 4 priority)))
      → write_property_parameters octets
        ≡ ok (some (write_request (t, i) pid array_index v priority))
  unfolding write_property_parameters
  write_property_parameters-eq array_index priority v ok_index ok_priority nested e =
      let (q, index_read, at_value) =
        optional_index-eq octets property_end array_index
          (v ++ (closed 3 ++ optional_tagged 4 priority)) ok_index (property_read.1 ∙ e) in
      let (value_read, at_body) =
        read_tag-opened octets q 3 (v ++ (closed 3 ++ optional_tagged 4 priority)) (omega arith)
          at_value in
      let (body_read, at_priority) =
        nested_body-WellNested octets v (optional_tagged 4 priority) 3 (q + 1) nested (omega arith)
          at_body in
      rw (
        object_read.0,
        object_identifier-octets t i h,
        property_read.0,
        index_read,
        value_read,
        body_read,
        trailing_priority-eq octets (q + 1 + length v + 1) priority ok_priority at_priority,
        from_bytes-minimal pid fits,
      )

module _ (invoke_id t i pid : ℕ) (h : IsReference invoke_id t i pid) where
  -- Parsing an encoded ReadProperty request whose parameters fit gives them back; without `with_array_index`
  -- the array index is left out.
  pub parse-read_property_request :
      (array_index : Option ℕ) (with_array_index : Bool)
      → Fits array_index
      → (read_property_request invoke_id t i pid array_index >>= λ apdu.
          parse_read_property_request apdu with_array_index)
        ≡ ok (some (read_request (t, i) pid (if with_array_index then array_index else none)))
  unfolding parse_read_property_request
  parse-read_property_request array_index w fits = rw (
    read_property_request-eq invoke_id t i pid h array_index fits,
    read_property_parameters-eq _ t i pid h.object_fits h.property_fits
        (optional_tagged 2 array_index) refl array_index w fits refl,
  )

  -- Parsing an encoded WriteProperty request whose parameters fit gives every one of them back, the
  -- value octets unchanged, whatever complete and closed tags they are: primitives of up to 65535 octets,
  -- application BOOLEANs, extended tag numbers and groups.
  pub parse-write_property_request :
      (v : Octets) (priority array_index : Option ℕ)
      → WellNested v
      → Fits priority
      → Fits array_index
      → (write_property_request invoke_id t i pid v priority array_index >>= λ apdu.
          parse_write_property_request apdu)
        ≡ ok (some (write_request (t, i) pid array_index v priority))
  unfolding parse_write_property_request is_write_property index
  parse-write_property_request v priority array_index nested fits fits' = rw (
    write_property_request-eq invoke_id t i pid h v priority array_index fits fits',
    write_property_parameters-eq _ t i pid h.object_fits h.property_fits
        (optional_tagged 2 array_index
          ++ ((opened 3 ++ (v ++ closed 3)) ++ optional_tagged 4 priority))
        refl array_index priority v fits' fits nested
        (rw (append_assoc v (closed 3) (optional_tagged 4 priority))),
  )
