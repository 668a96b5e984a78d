-- ===== src/Gateway/Backends.antt =====
-- The backends of AiDist/9. Gateway.cpp: their connections, and the bytes that come from them. The
-- parser of the message callback is static, so it is one for all backends.
use mathlib.Core.List.{flatten}
use turbo_core_dist_ai_clush.Prelude.{
  ℕ, ◌≡◌, refl, ap, ◌∙◌, Bool, true, false, not, List, [], ◌∷◌, ◌++◌, String, Option, none, some,
  if◌then◌else◌, length, append_assoc, All, sym, ◌+◌,
}
use turbo_core_dist_ai_clush.Prelude.Int.{ℤ}
use turbo_core_dist_ai_clush.Parser.{PacketParser, new_parser, receive, receive_each, feed}
use turbo_core_dist_ai_clush.Parser.Run.{parse_all-Parses}
use turbo_core_dist_ai_clush.Parser.Stream.{
  Piece, IsPiece, stream_bytes, deliveries, receive_each-stream,
}
use turbo_core_dist_ai_clush.Protocol.Json.{JsonLib, JsonLaws}
use turbo_core_dist_ai_clush.Protocol.Packet.{AiSchedulePacket}
use turbo_core_dist_ai_clush.Gateway.{Gateway, Backend, on_backend_response}

-- The backends of the constructor.
abbrev pub new_backends : List Backend
new_backends =
    record { service_name = "registry"; connected = false; client_connected = false }
    ∷ record { service_name = "scheduler"; connected = false; client_connected = false }
    ∷ []

-- `connected` is set whatever `Connect` does; `is_connected` is what the new client then says.
unfoldable pub init_backend_connections : (String → Bool) → List Backend → List Backend
init_backend_connections is_connected [] = []
init_backend_connections is_connected (b ∷ bs) =
    record b { connected = true; client_connected = is_connected b.service_name }
    ∷ init_backend_connections is_connected bs

-- The backends whose client `Stop` disconnects; a backend has a client since it is connected.
unfoldable pub disconnected_by : List Backend → List String
disconnected_by [] = []
disconnected_by (b ∷ bs) =
    if b.connected then b.service_name ∷ disconnected_by bs else disconnected_by bs

-- `m_running` after `Stop`, and the clients that it disconnects.
unfoldable pub stop : Bool → List Backend → Bool × List String
stop m_running backends =
    if not m_running then (m_running, []) else (false, disconnected_by backends)

module _ (J : JsonLib) {Callback : Type 0} where
  open J use {Json}

  -- The loop over the packets of a message.
  unfoldable pub respond_all :
      Gateway Callback
      → List (AiSchedulePacket Json)
      → Gateway Callback × List (Callback × ℤ × Json)
  respond_all g [] = (g, [])
  respond_all g (packet ∷ packets) =
      let one = on_backend_response J g packet in
      let rest = respond_all one.0 packets in (rest.0, one.1 ++ rest.1)

  -- The message callback; `none` is fuel of the parser that ran out, which does not happen.
  unfoldable pub on_backend_message :
      PacketParser
      → Gateway Callback
      → List ℕ
      → Option (PacketParser × (Gateway Callback × List (Callback × ℤ × Json)))
  on_backend_message parser g bytes = elim (receive J parser bytes) [
    | none ↦ none
    | some (parsed, packets, parser') ↦ some (parser', respond_all g packets)
  ]

  abbrev pub and_called :
      List (Callback × ℤ × Json)
      → Option (PacketParser × (Gateway Callback × List (Callback × ℤ × Json)))
      → Option (PacketParser × (Gateway Callback × List (Callback × ℤ × Json)))
  and_called called none = none
  and_called called (some (parser, (g, more))) = some (parser, (g, called ++ more))

  -- The messages of the backends, one after the other.
  unfoldable pub on_backend_messages :
      PacketParser
      → Gateway Callback
      → List (List ℕ)
      → Option (PacketParser × (Gateway Callback × List (Callback × ℤ × Json)))
  on_backend_messages parser g [] = some (parser, (g, []))
  on_backend_messages parser g (message ∷ messages) = elim (on_backend_message parser g message) [
    | none ↦ none
    | some (parser', (g', called)) ↦ and_called called (on_backend_messages parser' g' messages)
  ]

  respond_all-append :
      (g : Gateway Callback) (ps qs : List (AiSchedulePacket Json))
      → respond_all g (ps ++ qs) ≡ (
        (respond_all (respond_all g ps).0 qs).0,
        (respond_all g ps).1 ++ (respond_all (respond_all g ps).0 qs).1,
      )
  unfolding respond_all
  respond_all-append g [] qs = refl
  respond_all-append g (p ∷ ps) qs =
      let one = on_backend_response J g p in
      ap (λ (r : Gateway Callback × List (Callback × ℤ × Json)). (r.0, one.1 ++ r.1))
        (respond_all-append one.0 ps qs)
      ∙ ap (λ cs. ((respond_all (respond_all one.0 ps).0 qs).0, cs))
          (sym (
            append_assoc one.1 (respond_all one.0 ps).1
              (respond_all (respond_all one.0 ps).0 qs).1))

  -- However the messages are cut, the gateway handles the packets that the parser receives from
  -- them, in order.
  on_backend_messages-receive_each :
      (parser : PacketParser) (g : Gateway Callback) (messages : List (List ℕ))
      → (n : ℕ) × (packets : List (AiSchedulePacket Json)) × (last : PacketParser) × (receive_each J
            parser messages
          ≡ some (n, packets, last))
        × (on_backend_messages parser g messages ≡ some (last, respond_all g packets))
  unfolding receive_each on_backend_messages on_backend_message receive respond_all
  on_backend_messages-receive_each parser g [] = (0, [], parser, refl, refl)
  on_backend_messages-receive_each parser g (message ∷ messages) =
      let (packets, left, run, stops, same) = parse_all-Parses J (feed parser message) [] in
      let (n, more, last, received, handled) =
        on_backend_messages-receive_each (record { m_buffer = left }) (respond_all g packets).0
          messages in
      (
        length packets + n,
        packets ++ more,
        last,
        rw (same, receive_each, received) refl,
        rw (same, on_backend_messages, handled)
            (ap (λ r. some (last, r)) (sym (respond_all-append g packets more))),
      )

  abbrev answered :
      Gateway Callback
      → Option (ℕ × List (AiSchedulePacket Json) × PacketParser)
      → Option (PacketParser × (Gateway Callback × List (Callback × ℤ × Json)))
  answered g none = none
  answered g (some (n, packets, last)) = some (last, respond_all g packets)

  -- One backend sends a stream that is made of serialized packets and of units whose body does not
  -- have the checksum of its header, cut into messages in any way, and the other sends nothing: the
  -- gateway handles each packet of the former as a response, in order and with base header and body
  -- as they were sent, and nothing of the latter, and its parser has no byte left over.
  pub on_backend_messages-stream :
      (g : Gateway Callback) (pieces : List (Piece J)) (message : List ℕ) (messages : List (List ℕ))
      → JsonLaws J
      → All (IsPiece J) pieces
      → flatten (message ∷ messages) ≡ stream_bytes J pieces
      → on_backend_messages new_parser g (message ∷ messages)
        ≡ some (new_parser, respond_all g (deliveries J pieces))
  on_backend_messages-stream g pieces message messages L v cut =
      let (n, packets, last, received, handled) =
        on_backend_messages-receive_each new_parser g (message ∷ messages) in
      handled
      ∙ ap (answered g) (sym received ∙ receive_each-stream J pieces message messages L v cut)
