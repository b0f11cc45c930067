-- ===== src/Services/Files.antt =====
-- wiretest/services.py, the answers to CreateObject, AtomicReadFile and AtomicWriteFile.
use bacnet_profile_example_b.Base.{Bool, not, ◌&&◌, Option, none, some, drop, ◌==◌, if◌then◌else◌}
use bacnet_profile_example_b.Base.Int.{ℤ}
use bacnet_profile_example_b.Python.{Octets, Result, ok, ◌>>=◌, index, none_on_malformed}
use bacnet_profile_example_b.Platform.{Platform}
use bacnet_profile_example_b.Codec.Tag.{open_tag, value, read_tag}
use bacnet_profile_example_b.Codec.Decode.{ObjectId, is_kind}
use bacnet_profile_example_b.Codec.Values.{Value, object, decode_application, from_bytes_signed}
use bacnet_profile_example_b.Client.{Answer}
use bacnet_profile_example_b.Services.{complex_ack}

module _ {Text Real : Type 0} (platform : Platform Text Real) where
  abbrev pub if_object : Value Text Real → Option ObjectId
  if_object (object o) = some o
  if_object _ = none

  abbrev pub created_in : Option Octets → Result (Option ObjectId)
  created_in none = ok none
  created_in (some apdu) = do v ← decode_application platform (drop 3 apdu); ok (if_object v)

  unfoldable pub created_object_identifier : Option Answer → Result (Option ObjectId)
  created_object_identifier answer = do apdu ← complex_ack answer none; created_in apdu

-- (end of file, start position, data)
abbrev pub FileRead : Type 0
FileRead = Bool × ℤ × Octets

-- Stream access stands in [0].
unfoldable pub stream_read : Octets → Result (Option FileRead)
stream_read apdu = do
  eof ← read_tag apdu 3
  stream ← read_tag apdu eof.next
  if not (stream.is_context && stream.number == 0 && is_kind stream.kind open_tag)
      then ok none
      else (do
        start ← read_tag apdu stream.next
        content ← read_tag apdu start.next
        flag ← index eof.body 0
        ok (some (not (flag == 0), from_bytes_signed start.body, content.body)))

abbrev pub read_or_none : Option Octets → Result (Option FileRead)
read_or_none none = ok none
read_or_none (some apdu) = none_on_malformed (stream_read apdu)

unfoldable pub parse_atomic_read_file_ack : Option Answer → Result (Option FileRead)
parse_atomic_read_file_ack answer = do apdu ← complex_ack answer none; read_or_none apdu

abbrev pub written_at : Option Octets → Result (Option ℤ)
written_at none = ok none
written_at (some apdu) = do
  tag ← read_tag apdu 3
  ok (
      if tag.is_context && tag.number == 0 && is_kind tag.kind value
      then some (from_bytes_signed tag.body)
      else none)

unfoldable pub parse_atomic_write_file_ack : Option Answer → Result (Option ℤ)
parse_atomic_write_file_ack answer = do apdu ← complex_ack answer none; written_at apdu
