-- ===== src/Parser.antt =====
-- `PacketParser` of AiDist/2 packet_parser.h and AiDist/2.  Packet_Parser.cpp: packets out of a
-- byte stream that arrives in pieces.
pub mod Run
pub mod Chunks
pub mod Stream
use turbo_core_dist_ai_clush.Prelude.{
  ℕ, zero, suc, ◌+◌, Bool, true, false, not, Option, none, some, List, [], ◌∷◌, ◌++◌, ltb,
  if◌then◌else◌, length, take, drop,
}
use turbo_core_dist_ai_clush.Protocol.Header.{TransportHeader, header_size, deserialize_from_bytes}
use turbo_core_dist_ai_clush.Protocol.Json.{JsonLib}
use turbo_core_dist_ai_clush.Protocol.Packet.{AiSchedulePacket, deserialize}

pub record PacketParser : Type 0 where
  pub m_buffer : List ℕ

-- `PacketParser() = default`
abbrev pub new_parser : PacketParser
new_parser = record { m_buffer = [] }

unfoldable pub feed : PacketParser → List ℕ → PacketParser
feed p bytes = record { m_buffer = p.m_buffer ++ bytes }

unfoldable pub reset : PacketParser → PacketParser
reset p = record { m_buffer = [] }

unfoldable pub can_parse : PacketParser → Bool
can_parse p = not (ltb (length p.m_buffer) header_size)

-- One round of the loop of `ParseAll`: it ends, or it goes on with a shorter buffer and the packet
-- that the round put out, if any.
pub data Turn (Packet : Type 0) : Type 0 where
  stop : Turn Packet
  go_on : Option Packet → List ℕ → Turn Packet

-- `out.push_back(packet)`
abbrev pub push_back {ℓ} : {A : Type ℓ} → Option A → List A → List A
push_back none out = out
push_back (some packet) out = out ++ packet ∷ []

-- `parsed++`
abbrev pub count_packet {ℓ} : {A : Type ℓ} → Option A → ℕ → ℕ
count_packet none parsed = parsed
count_packet (some packet) parsed = parsed + 1

-- Adds what one message gave to what the later ones give.
abbrev pub later {ℓ} :
    {A : Type ℓ}
    → ℕ
    → List A
    → Option (ℕ × List A × PacketParser)
    → Option (ℕ × List A × PacketParser)
later parsed packets none = none
later parsed packets (some (m, more, last)) = some (parsed + m, packets ++ more, last)

module _ (J : JsonLib) where
  open J use {Json}

  -- The round behind the transport header.
  unfoldable pub turn_body : TransportHeader → List ℕ → Turn (AiSchedulePacket Json)
  turn_body h buf =
      if ltb (length buf) (header_size + h.body_len)
      then stop
      else go_on (deserialize J (take (header_size + h.body_len) buf))
          (drop (header_size + h.body_len) buf)

  unfoldable pub turn : List ℕ → Turn (AiSchedulePacket Json)
  turn buf = if ltb (length buf) header_size then stop else (elim (deserialize_from_bytes buf) [
    | none ↦ go_on none (drop 1 buf)
    | some h ↦ turn_body h buf
  ])

  -- The loop, on fuel; `none` would mean that the fuel ran out.
  unfoldable pub parse_loop :
      ℕ
      → List ℕ
      → List (AiSchedulePacket Json)
      → ℕ
      → Option (ℕ × List (AiSchedulePacket Json) × PacketParser)
  parse_loop zero buf out parsed = none
  parse_loop (suc fuel) buf out parsed = elim (turn buf) [
    | stop ↦ some (parsed, out, record { m_buffer = buf })
    | go_on packet rest ↦ parse_loop fuel rest (push_back packet out) (count_packet packet parsed)
  ]

  -- Each round but the last shortens the buffer, so its length bounds the rounds.
  unfoldable pub parse_all :
      PacketParser
      → List (AiSchedulePacket Json)
      → Option (ℕ × List (AiSchedulePacket Json) × PacketParser)
  parse_all p out = parse_loop (suc (length p.m_buffer)) p.m_buffer out 0

  unfoldable pub try_parse_body :
      TransportHeader → PacketParser → Option (AiSchedulePacket Json) × PacketParser
  try_parse_body h p = if ltb (length p.m_buffer) (header_size + h.body_len) then (none, p) else (
    deserialize J (take (header_size + h.body_len) p.m_buffer),
    record { m_buffer = drop (header_size + h.body_len) p.m_buffer },
  )

  -- `TryParseOne`: `none` for `false`. On an empty buffer its `erase` is undefined behaviour; here
  -- nothing is dropped.
  unfoldable pub try_parse_one : PacketParser → Option (AiSchedulePacket Json) × PacketParser
  try_parse_one p = elim (deserialize_from_bytes p.m_buffer) [
    | none ↦ (none, record { m_buffer = drop 1 p.m_buffer })
    | some h ↦ try_parse_body h p
  ]

  -- What `OnMessage` of the servers and clients does with the bytes of one message.
  unfoldable pub receive :
      PacketParser → List ℕ → Option (ℕ × List (AiSchedulePacket Json) × PacketParser)
  receive p bytes = parse_all (feed p bytes) []

  -- A connection's messages one after the other, each received by the parser that the last one left.
  unfoldable pub receive_each :
      PacketParser → List (List ℕ) → Option (ℕ × List (AiSchedulePacket Json) × PacketParser)
  receive_each p [] = some (0, [], p)
  receive_each p (message ∷ messages) = elim (receive p message) [
    | none ↦ none
    | some (parsed, packets, p') ↦ later parsed packets (receive_each p' messages)
  ]
