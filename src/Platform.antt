-- ===== src/Platform.antt =====
-- The parts of Python's library that the codec calls and this development does not define: UTF-8,
-- IEEE floating point in `struct` formats, and `inet_aton`. `Text` stands for `str` without lone
-- surrogates, `Real` for `float`.
use bacnet_profile_example_b.Base.{◌≡◌, length}
use bacnet_profile_example_b.Python.{Octets, Result, ok}

pub record Platform (Text Real : Type 0) : Type 0 where
  -- `text.encode("utf-8")`
  pub encode : Text → Octets
  -- `octets.decode("utf-8", errors="replace")`
  pub decode : Octets → Text
  -- `struct.pack(">f", value)`, which raises OverflowError for what is too large
  pub pack_float : Real → Result Octets
  -- `struct.unpack(">f", octets)[0]` of four octets, and `">d"` of eight
  pub unpack_float : Octets → Real
  pub unpack_double : Octets → Real
  pub decode-encode : (text : Text) → decode (encode text) ≡ text
  pub pack_float-length :
      (value : Real) (octets : Octets) → pack_float value ≡ ok octets → length octets ≡ 4
