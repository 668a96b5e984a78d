-- ===== src/Tests/Protocol.antt =====
-- AiDist/1 protocol.h at concrete inputs.
use turbo_core_dist_ai_clush.Prelude.{ℕ, ◌≡◌, refl, List, [], ◌∷◌, some, arith, drop, none}
use turbo_core_dist_ai_clush.Prelude.Int.{pos}
use turbo_core_dist_ai_clush.Prelude.Result.{ok}
use turbo_core_dist_ai_clush.Protocol.Words
use turbo_core_dist_ai_clush.Protocol.Crc.{crc32}
use turbo_core_dist_ai_clush.Protocol.Header.{
  TransportHeader, serialize_to_bytes, deserialize_from_bytes, ai_schedule_magic,
}
use turbo_core_dist_ai_clush.Protocol.Header.Laws.{IsHeader}
use turbo_core_dist_ai_clush.Protocol.Types.{PacketType, packet_type_of_int, packet_type_to_int}
use turbo_core_dist_ai_clush.Protocol.Packet.{
  AiSchedulePacket, full_json, base_to_json, header_for, serialize, deserialize,
}
use turbo_core_dist_ai_clush.Protocol.Packet.RoundTrip.{IsBasePacket, frame, deserialize-serialize}
use turbo_core_dist_ai_clush.Protocol.Packet.Accepts.{Accepts, deserialize-Accepts}
use turbo_core_dist_ai_clush.Tests.JsonText.{Value, Members, json_text, json_text-JsonLaws, write}

-- "123456789", the check value of the CRC-32 of zlib and Ethernet
crc32_check : crc32 0 (49 ∷ 50 ∷ 51 ∷ 52 ∷ 53 ∷ 54 ∷ 55 ∷ 56 ∷ 57 ∷ []) ≡ 0xcbf4_3926
unfolding crc32
crc32_check = refl

abbrev sample_header : TransportHeader
sample_header = record {
  magic = ai_schedule_magic;
  version = 1;
  reserve = 0;
  body_len = 258;
  checksum = 0xdead_beef;
}

abbrev pub header_bytes : List ℕ
header_bytes =
    0x41 ∷ 0x53 ∷ 0x43 ∷ 0x48 ∷ 0 ∷ 1 ∷ 0 ∷ 0 ∷ 0 ∷ 0 ∷ 1 ∷ 2 ∷ 0xde ∷ 0xad ∷ 0xbe ∷ 0xef ∷ []

serialize_to_bytes_run : serialize_to_bytes sample_header [] ≡ header_bytes
unfolding serialize_to_bytes
serialize_to_bytes_run = refl

-- A version above the protocol's is refused.
newer_version :
    deserialize_from_bytes (0x41 ∷ 0x53 ∷ 0x43 ∷ 0x48 ∷ 0 ∷ 2 ∷ drop 6 header_bytes) ≡ none
unfolding deserialize_from_bytes Words.read_uint32 Words.read_uint16
newer_version = refl

-- A heartbeat of the node "n1".
abbrev pub sample_body : Value
sample_body = Value.object (Members.member "node_id" (Value.str "n1") Members.end)

abbrev pub sample_packet : AiSchedulePacket Value
sample_packet = record {
  trans_header = record sample_header { body_len = 0 };
  base_header = record { seq = 7; packet_type = PacketType.heartbeat; sender_id = "n1" };
  body = sample_body;
}

abbrev pub sample_document : Value
sample_document = Value.object (
    Members.member "base"
      (Value.object (
        Members.member "seq" (Value.unsigned 7) (
          Members.member "type" (Value.signed (pos 2))
            (Members.member "sender_id" (Value.str "n1") Members.end))))
      (Members.member "body" sample_body Members.end))

abbrev pub sample_text : List ℕ
sample_text = write sample_document

abbrev pub known : List Value
known = sample_document ∷ []

sample_full_json : full_json (json_text known) sample_packet ≡ sample_document
unfolding full_json base_to_json packet_type_to_int
sample_full_json = refl

pub sample_base : IsBasePacket sample_packet.base_header
unfolding packet_type_to_int packet_type_of_int
sample_base = record {
  seq_fits = omega arith;
  type_fits = (omega arith, omega arith);
  type_ok = refl;
}

deserialize-serialize_example :
    (serialize (json_text known) sample_packet [] ≡ ok (frame sample_text))
    × (deserialize (json_text known) (frame sample_text)
        ≡ some (record sample_packet { trans_header = header_for sample_text }))
unfolding full_json base_to_json packet_type_to_int
deserialize-serialize_example =
    deserialize-serialize (json_text known) (json_text-JsonLaws known) sample_packet sample_text
      sample_base refl refl (omega arith)

deserialize-Accepts_example :
    IsHeader (header_for sample_text)
    × Accepts
        (json_text known)
        (header_for sample_text)
        (frame sample_text)
        (record sample_packet { trans_header = header_for sample_text })
deserialize-Accepts_example =
    deserialize-Accepts (json_text known) (frame sample_text) deserialize-serialize_example.1
