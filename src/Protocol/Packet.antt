-- ===== src/Protocol/Packet.antt =====
-- `BasePacket` and `AiSchedulePacket` of AiDist/1 protocol.h, over an abstract JSON library.
-- The assertion of `serialize` is left out: the text of a JSON object is never empty.
pub mod RoundTrip
pub mod Accepts
use turbo_core_dist_ai_clush.Prelude.{
  ℕ, ◌+◌, ◌%◌, ◌^◌, Bool, not, Option, none, some, List, [], ◌∷◌, ◌++◌, String, ltb, ◌==◌,
  if◌then◌else◌, length, take, drop,
}
use turbo_core_dist_ai_clush.Prelude.Result.{Result, ok, throws, ◌>>=◌, caught}
use turbo_core_dist_ai_clush.Protocol.Crc.{crc32}
use turbo_core_dist_ai_clush.Protocol.Header.{
  TransportHeader, header_size, ai_schedule_magic, ai_schedule_protocol_version, serialize_to_bytes,
  deserialize_from_bytes,
}
use turbo_core_dist_ai_clush.Protocol.Types.{PacketType, packet_type_to_int, packet_type_of_int}
use turbo_core_dist_ai_clush.Protocol.Json.{JsonLib}

pub record BasePacket : Type 0 where
  pub seq : ℕ
  pub packet_type : PacketType
  pub sender_id : String

-- `build` leaves `trans_header` unset, and `serialize` does not read it.
pub record AiSchedulePacket (Json : Type 0) : Type 0 where
  pub trans_header : TransportHeader
  pub base_header : BasePacket
  pub body : Json

-- The header that `serialize` fills in for a body text.
unfoldable pub header_for : List ℕ → TransportHeader
header_for body_str = record {
  magic = ai_schedule_magic;
  version = ai_schedule_protocol_version;
  reserve = 0;
  body_len = length body_str % 2 ^ 32;
  checksum = crc32 0 body_str;
}

module _ (J : JsonLib) where
  open J use {
    Json, object, from_string, from_int32, from_uint64, at, get_string, get_int32, get_uint64, dump,
    parse,
  }

  unfoldable pub base_to_json : BasePacket → Json
  base_to_json p = object (
      ("seq", from_uint64 p.seq)
      ∷ ("type", from_int32 (packet_type_to_int p.packet_type))
      ∷ ("sender_id", from_string p.sender_id)
      ∷ [])

  unfoldable pub base_from_json : Json → Result BasePacket
  base_from_json j = do
    seq ← at j "seq" >>= get_uint64
    type ← at j "type" >>= get_int32
    sender_id ← at j "sender_id" >>= get_string
    ok (record { seq = seq; packet_type = packet_type_of_int type; sender_id = sender_id })

  -- `full_body`
  unfoldable pub full_json : AiSchedulePacket Json → Json
  full_json p = object (("base", base_to_json p.base_header) ∷ ("body", p.body) ∷ [])

  unfoldable pub serialize : AiSchedulePacket Json → List ℕ → Result (List ℕ)
  serialize p out_bytes = do
    body_str ← dump (full_json p)
    ok (serialize_to_bytes (header_for body_str) out_bytes ++ body_str)

  -- The `try` block of `deserialize`.
  unfoldable pub read_body : TransportHeader → List ℕ → Result (AiSchedulePacket Json)
  read_body h body_str = do
    full ← parse body_str
    base ← at full "base" >>= base_from_json
    body ← at full "body"
    ok (record { trans_header = h; base_header = base; body = body })

  -- The checks behind the transport header.
  unfoldable pub deserialize_body : TransportHeader → List ℕ → Option (AiSchedulePacket Json)
  deserialize_body h buf =
      if ltb (length buf) (header_size + h.body_len)
      then none
      else if not (crc32 0 (take h.body_len (drop header_size buf)) == h.checksum)
      then none
      else caught (read_body h (take h.body_len (drop header_size buf)))

  -- `false` is `none`; the list holds the `buf_len` bytes at `buf`.
  unfoldable pub deserialize : List ℕ → Option (AiSchedulePacket Json)
  unfolding deserialize_body
  deserialize buf = elim (deserialize_from_bytes buf) [
    | none ↦ none
    | some h ↦ deserialize_body h buf
  ]

  unfoldable pub build : ℕ → PacketType → String → Json → TransportHeader → AiSchedulePacket Json
  build seq type sender_id body unset = record {
    trans_header = unset;
    base_header = record { seq = seq; packet_type = type; sender_id = sender_id };
    body = body;
  }
