-- ===== src/Tests/Parser.antt =====
-- `PacketParser` at concrete inputs.
use mathlib.Core.List.{flatten}
use turbo_core_dist_ai_clush.Prelude.{
  ℕ, ◌≡◌, refl, List, [], ◌∷◌, ◌++◌, some, arith, length, drop, take, String,
}
use turbo_core_dist_ai_clush.Protocol.Crc.{crc32}
use turbo_core_dist_ai_clush.Protocol.Header.{
  TransportHeader, serialize_to_bytes, ai_schedule_magic,
}
use turbo_core_dist_ai_clush.Protocol.Types.{packet_type_to_int}
use turbo_core_dist_ai_clush.Protocol.Packet.{AiSchedulePacket, full_json, base_to_json, header_for}
use turbo_core_dist_ai_clush.Protocol.Packet.RoundTrip.{frame}
use turbo_core_dist_ai_clush.Parser.{
  PacketParser, new_parser, parse_all, receive, receive_each, turn, stop,
}
use turbo_core_dist_ai_clush.Parser.Run.{Parses, parse_all-Parses}
use turbo_core_dist_ai_clush.Parser.Chunks.{receive_each-flatten}
use turbo_core_dist_ai_clush.Parser.Stream.{
  Piece, IsSent, IsDamaged, stream_bytes, receive_each-stream,
}
use turbo_core_dist_ai_clush.Prelude.NatMap
use turbo_core_dist_ai_clush.Prelude.Int.{pos}
use turbo_core_dist_ai_clush.Gateway.{Gateway, on_backend_response}
use turbo_core_dist_ai_clush.Gateway.Backends.{
  respond_all, on_backend_messages, on_backend_messages-stream,
}
use turbo_core_dist_ai_clush.Tests.JsonText.{Value, json_text, json_text-JsonLaws}
use turbo_core_dist_ai_clush.Tests.Protocol.{sample_packet, sample_text, sample_base, known}

-- A header for two bytes, with a checksum that theirs is not.
abbrev bad_header : TransportHeader
bad_header = record {
  magic = ai_schedule_magic;
  version = 1;
  reserve = 0;
  body_len = 2;
  checksum = 5;
}

abbrev pieces : List (Piece (json_text known))
pieces =
    Piece.sent sample_packet sample_text
    ∷ Piece.damaged bad_header (1 ∷ 2 ∷ [])
    ∷ Piece.sent sample_packet sample_text
    ∷ []

abbrev bytes : List ℕ
bytes = stream_bytes (json_text known) pieces

sample-IsSent : IsSent (json_text known) sample_packet sample_text
unfolding full_json base_to_json packet_type_to_int
sample-IsSent = record { base_ok = sample_base; text = refl; short = omega arith }

bad-IsDamaged : IsDamaged (json_text known) bad_header (1 ∷ 2 ∷ [])
unfolding crc32
bad-IsDamaged = record {
  header_ok = omega arith;
  length_ok = refl;
  sum_wrong = λ e. absurd (omega arith);
}

-- The stream arrives in three messages, the first cut within a header.
receive_each-stream_example :
    receive_each
      (json_text known)
      new_parser
      (take 5 bytes ∷ take 60 (drop 5 bytes) ∷ drop 65 bytes ∷ [])
    ≡ some (
      2,
      record sample_packet { trans_header = header_for sample_text }
          ∷ record sample_packet { trans_header = header_for sample_text }
          ∷ [],
      new_parser,
    )
unfolding flatten serialize_to_bytes header_for crc32
receive_each-stream_example =
    receive_each-stream (json_text known) pieces (take 5 bytes)
      (take 60 (drop 5 bytes) ∷ drop 65 bytes ∷ []) (json_text-JsonLaws known)
      (sample-IsSent, (bad-IsDamaged, (sample-IsSent, tt))) refl

abbrev waiting : Gateway String
waiting = record { m_pending_reqs = (7, "first") ∷ (8, "second") ∷ []; m_next_seq = 9 }

-- The packet answers request 7 of the gateway; its second copy answers none.
on_backend_messages-stream_example :
    on_backend_messages
      (json_text known)
      new_parser
      waiting
      (take 5 bytes ∷ take 60 (drop 5 bytes) ∷ drop 65 bytes ∷ [])
    ≡ some (
      new_parser,
      (
        record { m_pending_reqs = (8, "second") ∷ []; m_next_seq = 9 },
        ("first", pos 200, sample_packet.body) ∷ [],
      ),
    )
unfolding flatten serialize_to_bytes header_for crc32 respond_all on_backend_response NatMap.find
    NatMap.erase
on_backend_messages-stream_example =
    on_backend_messages-stream (json_text known) waiting pieces (take 5 bytes)
      (take 60 (drop 5 bytes) ∷ drop 65 bytes ∷ []) (json_text-JsonLaws known)
      (sample-IsSent, (bad-IsDamaged, (sample-IsSent, tt))) refl

receive_each-flatten_example :
    receive_each (json_text known) new_parser ((1 ∷ 2 ∷ []) ∷ frame sample_text ∷ [])
    ≡ receive (json_text known) new_parser (flatten ((1 ∷ 2 ∷ []) ∷ frame sample_text ∷ []))
receive_each-flatten_example =
    receive_each-flatten (json_text known) new_parser (1 ∷ 2 ∷ []) (frame sample_text ∷ [])

abbrev garbled : PacketParser
garbled = record { m_buffer = 1 ∷ 2 ∷ frame sample_text }

parse_all-Parses_example :
    (packets : List (AiSchedulePacket Value)) × (left : List ℕ) × Parses
      (json_text known)
      garbled.m_buffer
      packets
      left
    × (turn (json_text known) left ≡ stop)
    × (parse_all (json_text known) garbled []
        ≡ some (length packets, [] ++ packets, record { m_buffer = left }))
parse_all-Parses_example = parse_all-Parses (json_text known) garbled []
