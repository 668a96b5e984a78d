-- ===== src/Parser/Stream.antt =====
-- A stream of packets from `AiSchedulePacket::serialize`, some of them damaged on the way.
use mathlib.Core.List.{flatten}
use turbo_core_dist_ai_clush.Prelude.{
  ℕ, ◌+◌, ◌<◌, ◌^◌, ◌≡◌, ◌≢◌, ap, ap₂, ◌∙◌, Option, none, some, List, [], ◌∷◌, ◌++◌, length, arith,
  length-append, append_assoc, All, take-append_length, drop-append_length,
}
use turbo_core_dist_ai_clush.Prelude.Result.{ok}
use turbo_core_dist_ai_clush.Protocol.Crc.{crc32}
use turbo_core_dist_ai_clush.Protocol.Header.{
  TransportHeader, header_size, deserialize_from_bytes, serialize_to_bytes,
}
use turbo_core_dist_ai_clush.Protocol.Header.Laws.{
  IsHeader, length-serialize_to_bytes, deserialize_from_bytes-serialize_to_bytes,
}
use turbo_core_dist_ai_clush.Protocol.Json.{JsonLib, JsonLaws}
use turbo_core_dist_ai_clush.Protocol.Packet.{AiSchedulePacket, header_for, full_json, deserialize}
use turbo_core_dist_ai_clush.Protocol.Packet.RoundTrip.{
  IsBasePacket, frame, deserialize-frame, header_for-IsHeader, body_len-header_for,
}
use turbo_core_dist_ai_clush.Protocol.Packet.Accepts.{deserialize-damaged}
use turbo_core_dist_ai_clush.Parser.{new_parser, go_on, turn, receive, receive_each}
use turbo_core_dist_ai_clush.Parser.Run.{found, Parses, halt, next}
use turbo_core_dist_ai_clush.Parser.Chunks.{
  receive_of_Parses, receive_each-flatten, turn_long_some, turn_empty, turn_body_complete,
}

module _ (J : JsonLib) where
  open J use {Json, parse}

  -- One unit of the stream: a packet with the text that it was serialized to, or a header with a
  -- body that is not the one it was made for.
  pub data Piece : Type 0 where
    sent : AiSchedulePacket Json → List ℕ → Piece
    damaged : TransportHeader → List ℕ → Piece

  pub record IsSent (p : AiSchedulePacket Json) (body_str : List ℕ) : Type 0 where
    pub base_ok : IsBasePacket p.base_header
    pub text : parse body_str ≡ ok (full_json J p)
    pub short : length body_str < 2 ^ 32

  pub record IsDamaged (h : TransportHeader) (body_str : List ℕ) : Type 0 where
    pub header_ok : IsHeader h
    pub length_ok : h.body_len ≡ length body_str
    pub sum_wrong : crc32 0 body_str ≢ h.checksum

  abbrev pub IsPiece : Piece → Type 0
  IsPiece (sent p body_str) = IsSent p body_str
  IsPiece (damaged h body_str) = IsDamaged h body_str

  abbrev pub piece_bytes : Piece → List ℕ
  piece_bytes (sent p body_str) = frame body_str
  piece_bytes (damaged h body_str) = serialize_to_bytes h [] ++ body_str

  abbrev pub stream_bytes : List Piece → List ℕ
  stream_bytes [] = []
  stream_bytes (piece ∷ pieces) = piece_bytes piece ++ stream_bytes pieces

  -- What the receiver is to see of a piece.
  abbrev pub delivered : Piece → Option (AiSchedulePacket Json)
  delivered (sent p body_str) = some (record p { trans_header = header_for body_str })
  delivered (damaged h body_str) = none

  abbrev pub deliveries : List Piece → List (AiSchedulePacket Json)
  deliveries [] = []
  deliveries (piece ∷ pieces) = found (delivered piece) ++ deliveries pieces

  -- One round takes off a header and the body that it announces.
  turn_unit :
      (h : TransportHeader) (body_str rest : List ℕ)
      → IsHeader h
      → h.body_len ≡ length body_str
      → turn J ((serialize_to_bytes h [] ++ body_str) ++ rest)
        ≡ go_on (deserialize J (serialize_to_bytes h [] ++ body_str)) rest
  turn_unit h body_str rest v len =
      turn_long_some J (unit ++ rest) h (omega (arith, size, length-append unit rest)) header
      ∙ turn_body_complete J h (unit ++ rest) (omega (arith, size, len, length-append unit rest))
      ∙ ap₂ go_on
          (ap (deserialize J)
            (take-append_length (header_size + h.body_len) unit rest (omega (arith, size, len))))
          (drop-append_length (header_size + h.body_len) unit rest (omega (arith, size, len)))
    where
      unit : List ℕ
      unit = serialize_to_bytes h [] ++ body_str

      size : length unit ≡ header_size + length body_str
      size =
          omega (
            arith,
            length-append (serialize_to_bytes h []) body_str,
            length-serialize_to_bytes h [],
          )

      header : deserialize_from_bytes (unit ++ rest) ≡ some h
      header =
          ap deserialize_from_bytes (append_assoc (serialize_to_bytes h []) body_str rest)
          ∙ deserialize_from_bytes-serialize_to_bytes h (body_str ++ rest) v

  turn-piece :
      (piece : Piece) (rest : List ℕ)
      → JsonLaws J
      → IsPiece piece
      → turn J (piece_bytes piece ++ rest) ≡ go_on (delivered piece) rest
  turn-piece (sent p body_str) rest L v =
      turn_unit (header_for body_str) body_str rest (header_for-IsHeader body_str v.short)
        (body_len-header_for body_str v.short)
      ∙ ap (λ q. go_on q rest) (deserialize-frame J L p body_str v.base_ok v.text v.short)
  turn-piece (damaged h body_str) rest L v =
      turn_unit h body_str rest v.header_ok v.length_ok
      ∙ ap (λ q. go_on q rest)
          (deserialize-damaged J h body_str v.header_ok v.length_ok v.sum_wrong)

  pub Parses-stream :
      (pieces : List Piece)
      → JsonLaws J
      → All IsPiece pieces
      → Parses J (stream_bytes pieces) (deliveries pieces) []
  Parses-stream [] L v = halt (turn_empty J)
  Parses-stream (piece ∷ pieces) L v =
      next (turn-piece piece (stream_bytes pieces) L v.0) (Parses-stream pieces L v.1)

  -- A stream that is made of serialized packets and of units whose body does not have the
  -- checksum of its header, cut into messages in any way: the receiver gets the packets of the
  -- former, in order and with base header and body as they were sent, nothing of the latter, and
  -- has no byte left over.
  pub receive_each-stream :
      (pieces : List Piece) (message : List ℕ) (messages : List (List ℕ))
      → JsonLaws J
      → All IsPiece pieces
      → flatten (message ∷ messages) ≡ stream_bytes pieces
      → receive_each J new_parser (message ∷ messages)
        ≡ some (length (deliveries pieces), deliveries pieces, new_parser)
  receive_each-stream pieces message messages L v cut =
      receive_each-flatten J new_parser message messages
      ∙ ap (receive J new_parser) cut
      ∙ receive_of_Parses J new_parser (stream_bytes pieces) (Parses-stream pieces L v)
