-- ===== src/Protocol/Header.antt =====
-- `TransportHeader` of AiDist/1 protocol.h: the sixteen bytes in front of every packet.
pub mod Laws
use turbo_core_dist_ai_clush.Prelude.{
  ℕ, ◌≤◌, ◌<◌, ◌^◌, ◌≡◌, refl, ap, ◌∙◌, Bool, not, Option, none, some, List, [], ◌++◌, arith, ltb,
  ◌==◌, if◌then◌else◌, length, drop, length-drop, length-append, drop-append_le,
}
use turbo_core_dist_ai_clush.Protocol.Words.{
  write_uint32, write_uint16, read_uint32, read_uint16, read_uint32-bytes, read_uint16-bytes,
  read_uint32-append, read_uint16-append, read_uint32-lt, read_uint16-lt,
}

abbrev pub ai_schedule_magic : ℕ
ai_schedule_magic = 0x4153_4348

abbrev pub ai_schedule_protocol_version : ℕ
ai_schedule_protocol_version = 1

pub record TransportHeader : Type 0 where
  pub magic : ℕ
  pub version : ℕ
  pub reserve : ℕ
  pub body_len : ℕ
  pub checksum : ℕ

-- `header_size()`, which is `sizeof(TransportHeader)` too.
abbrev pub header_size : ℕ
header_size = 16

unfoldable pub serialize_to_bytes : TransportHeader → List ℕ → List ℕ
unfolding write_uint32 write_uint16
serialize_to_bytes h out = write_uint32 h.checksum (
    write_uint32 h.body_len
      (write_uint16 h.reserve (write_uint16 h.version (write_uint32 h.magic out))))

-- The fields as they lie in the buffer.
unfoldable pub read_fields : List ℕ → TransportHeader
read_fields buf = record {
  magic = read_uint32 buf;
  version = read_uint16 (drop 4 buf);
  reserve = read_uint16 (drop 6 buf);
  body_len = read_uint32 (drop 8 buf);
  checksum = read_uint32 (drop 12 buf);
}

-- The checks of magic and version, after the fields are read.
unfoldable pub check_fields : TransportHeader → Option TransportHeader
check_fields out =
    if not (out.magic == ai_schedule_magic)
    then none
    else if ltb ai_schedule_protocol_version out.version
    then none
    else some out

-- `false` is `none`: no caller reads the header that a failed call leaves behind.
unfoldable pub deserialize_from_bytes : List ℕ → Option TransportHeader
unfolding read_fields check_fields
deserialize_from_bytes buf =
    if ltb (length buf) header_size then none else check_fields (read_fields buf)
