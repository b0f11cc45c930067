-- ===== src/Codec/Requests/Shape.antt =====
-- The octets that the APDU encoders produce, in terms of the tagged encoding.
use bacnet_profile_example_b.Base.{
  ℕ, ◌^◌, ◌<◌, Option, none, some, [], ◌∷◌, ◌++◌, ◌≡◌, refl, arith, true, false,
}
use bacnet_profile_example_b.Python.{Octets, ok, bytes}
use bacnet_profile_example_b.Codec.Encode.Minimal.{minimal}
use bacnet_profile_example_b.Codec.Encode.Writes.{
  IsIdentifier, identifier_octets, opening-eq, closing-eq, context_unsigned-eq,
  context_object_id-eq, application_unsigned-eq, application_enumerated-eq,
  application_object_id-eq,
}
use bacnet_profile_example_b.Codec.Tagged.{tagged, opened, closed}
use bacnet_profile_example_b.Codec.Requests.{
  confirmed_request, optional_unsigned, enclosed, read_property_request, write_property_request,
  read_property_ack, error_pdu, who_is, i_am,
}
use bacnet_profile_example_b.Codec.Constants.{service_read_property, service_write_property}

-- An optional parameter that can be encoded.
abbrev pub Fits : Option ℕ → Type 0
Fits none = Unit {0}
Fits (some v) = v < 2 ^ 32

abbrev pub optional_tagged : ℕ → Option ℕ → Octets
optional_tagged tag none = []
optional_tagged tag (some v) = tagged tag true (minimal v)

pub optional_unsigned-eq :
    (tag : ℕ) (o : Option ℕ)
    → tag < 16
    → Fits o
    → optional_unsigned tag o ≡ ok (optional_tagged tag o)
unfolding optional_unsigned
optional_unsigned-eq tag none h fits = refl
optional_unsigned-eq tag (some v) h fits = context_unsigned-eq tag v h fits

pub enclosed-eq :
    (tag : ℕ) (v : Octets) → tag < 16 → enclosed tag v ≡ ok (opened tag ++ (v ++ closed tag))
unfolding enclosed
enclosed-eq tag v h = rw (opening-eq tag h, closing-eq tag h)

pub bytes-three :
    (a b c : ℕ) → a < 256 → b < 256 → c < 256 → bytes (a ∷ b ∷ c ∷ []) ≡ ok (a ∷ b ∷ c ∷ [])
unfolding bytes
bytes-three a b c h k l = ground arith

pub confirmed_request-eq :
    (invoke_id service : ℕ) (parameters : Octets)
    → invoke_id < 256
    → service < 256
    → confirmed_request invoke_id service parameters ≡ ok (0 ∷ 5 ∷ invoke_id ∷ service ∷ parameters)
unfolding confirmed_request bytes
confirmed_request-eq invoke_id service parameters h k = ground arith

-- The ranges of the parameters that name a property of an object.
pub record IsReference (invoke_id object_type instance property_identifier : ℕ) : Type 0 where
  pub invoke_fits : invoke_id < 256
  pub object_fits : IsIdentifier object_type instance
  pub property_fits : property_identifier < 2 ^ 32

module _ (invoke_id t i p : ℕ) (h : IsReference invoke_id t i p) where
  pub read_property_request-eq :
      (array_index : Option ℕ)
      → Fits array_index
      → read_property_request invoke_id t i p array_index
        ≡ ok (
            0
            ∷ 5
            ∷ invoke_id
            ∷ 12
            ∷ (tagged 0 true (identifier_octets t i)
                ++ (tagged 1 true (minimal p) ++ optional_tagged 2 array_index)))
  unfolding read_property_request
  read_property_request-eq array_index fits =
      rw
        (
          context_object_id-eq 0 t i (omega arith) h.object_fits,
          context_unsigned-eq 1 p (omega arith) h.property_fits,
          optional_unsigned-eq 2 array_index (omega arith) fits,
        )
        (confirmed_request-eq invoke_id service_read_property _ h.invoke_fits (omega arith))

  pub write_property_request-eq :
      (v : Octets) (priority array_index : Option ℕ)
      → Fits priority
      → Fits array_index
      → write_property_request invoke_id t i p v priority array_index
        ≡ ok (
            0
            ∷ 5
            ∷ invoke_id
            ∷ 15
            ∷ (tagged 0 true (identifier_octets t i)
                ++ (tagged 1 true (minimal p)
                    ++ (optional_tagged 2 array_index
                        ++ ((opened 3 ++ (v ++ closed 3)) ++ optional_tagged 4 priority)))))
  unfolding write_property_request
  write_property_request-eq v priority array_index fits fits' =
      rw
        (
          context_object_id-eq 0 t i (omega arith) h.object_fits,
          context_unsigned-eq 1 p (omega arith) h.property_fits,
          optional_unsigned-eq 2 array_index (omega arith) fits',
          enclosed-eq 3 v (omega arith),
          optional_unsigned-eq 4 priority (omega arith) fits,
        )
        (confirmed_request-eq invoke_id service_write_property _ h.invoke_fits (omega arith))

  pub read_property_ack-eq :
      (v : Octets)
      → read_property_ack invoke_id t i p v
        ≡ ok (
            0x30
            ∷ invoke_id
            ∷ 12
            ∷ (tagged 0 true (identifier_octets t i)
                ++ (tagged 1 true (minimal p) ++ (opened 3 ++ (v ++ closed 3)))))
  unfolding read_property_ack
  read_property_ack-eq v = rw (
    bytes-three 0x30 invoke_id service_read_property (omega arith) h.invoke_fits (omega arith),
    context_object_id-eq 0 t i (omega arith) h.object_fits,
    context_unsigned-eq 1 p (omega arith) h.property_fits,
    enclosed-eq 3 v (omega arith),
  )

pub error_pdu-eq :
    (invoke_id service error_class error_code : ℕ)
    → invoke_id < 256
    → service < 256
    → error_class < 2 ^ 32
    → error_code < 2 ^ 32
    → error_pdu invoke_id service error_class error_code
      ≡ ok (
          0x50
          ∷ invoke_id
          ∷ service
          ∷ (tagged 9 false (minimal error_class) ++ tagged 9 false (minimal error_code)))
unfolding error_pdu
error_pdu-eq invoke_id service c e h k l m = rw (
  bytes-three 0x50 invoke_id service (omega arith) h k,
  application_enumerated-eq c l,
  application_enumerated-eq e m,
)

pub i_am-eq :
    (device vendor max_apdu segmentation : ℕ)
    → device < 4194304
    → vendor < 2 ^ 32
    → max_apdu < 2 ^ 32
    → segmentation < 2 ^ 32
    → i_am device vendor max_apdu segmentation
      ≡ ok (
          0x10
          ∷ 0
          ∷ (tagged 12 false (identifier_octets 8 device)
              ++ (tagged 2 false (minimal max_apdu)
                  ++ (tagged 9 false (minimal segmentation) ++ tagged 2 false (minimal vendor)))))
unfolding i_am
i_am-eq device vendor max_apdu segmentation h k l m = rw (
  application_object_id-eq 8 device (omega arith),
  application_unsigned-eq max_apdu l,
  application_enumerated-eq segmentation m,
  application_unsigned-eq vendor k,
)

pub who_is-eq :
    (low high : ℕ)
    → low < 2 ^ 32
    → high < 2 ^ 32
    → who_is (some (low, high))
      ≡ ok (0x10 ∷ 8 ∷ (tagged 0 true (minimal low) ++ tagged 1 true (minimal high)))
unfolding who_is
who_is-eq low high h k =
    rw (context_unsigned-eq 0 low (omega arith) h, context_unsigned-eq 1 high (omega arith) k)
