-- ===== src/Parser/Chunks.antt =====
-- How the stream is cut into messages makes no difference to the packets.
use native.Mathlib.Nat.{add-zero}
use mathlib.Core.List.{flatten}
use turbo_core_dist_ai_clush.Prelude.{
  refl, ℕ, ◌+◌, ◌≤◌, ◌≡◌, ap, ap₂, subst, ◌∙◌, sym, Option, none, some, List, [], ◌∷◌, ◌++◌, length,
  take, drop, arith, length-append, append_assoc, append-nil, inl, inr, take-append_le,
  drop-append_le,
}
use turbo_core_dist_ai_clush.Protocol.Header.{TransportHeader, header_size, deserialize_from_bytes}
use turbo_core_dist_ai_clush.Protocol.Header.Laws.{deserialize_from_bytes-append}
use turbo_core_dist_ai_clush.Protocol.Json.{JsonLib}
use turbo_core_dist_ai_clush.Protocol.Packet.{AiSchedulePacket, deserialize}
use turbo_core_dist_ai_clush.Parser.{
  PacketParser, stop, go_on, turn_body, turn, feed, receive, receive_each, later,
}
use turbo_core_dist_ai_clush.Parser.Run.{
  found, Parses, halt, next, parse_all-Parses, Parses-unique, turn-go_on, turn_body-go_on,
}

module _ (J : JsonLib) where
  open J use {Json}

  turn_long_none :
      (buf : List ℕ)
      → header_size ≤ length buf
      → deserialize_from_bytes buf ≡ none
      → turn J buf ≡ go_on none (drop 1 buf)
  unfolding turn
  turn_long_none buf long e = ground arith

  pub turn_empty : turn J [] ≡ stop
  unfolding turn
  turn_empty = refl

  pub turn_long_some :
      (buf : List ℕ) (h : TransportHeader)
      → header_size ≤ length buf
      → deserialize_from_bytes buf ≡ some h
      → turn J buf ≡ turn_body J h buf
  unfolding turn
  turn_long_some buf h long e = ground arith

  pub turn_body_complete :
      (h : TransportHeader) (buf : List ℕ)
      → header_size + h.body_len ≤ length buf
      → turn_body J h buf
        ≡ go_on
            (deserialize J (take (header_size + h.body_len) buf))
            (drop (header_size + h.body_len) buf)
  unfolding turn_body
  turn_body_complete h buf long = ground arith

  -- A round that goes on does the same when more bytes follow.
  pub turn-append :
      (buf more : List ℕ) {packet : Option (AiSchedulePacket Json)} {rest : List ℕ}
      → turn J buf ≡ go_on packet rest
      → turn J (buf ++ more) ≡ go_on packet (rest ++ more)
  turn-append buf more {packet} {rest} e =
      let (long, why) = turn-go_on J buf e in
      let longer : header_size ≤ length (buf ++ more) = omega (arith, length-append buf more) in
      let header = deserialize_from_bytes-append buf more long in
      elim why [
        | inl (bad, nothing, same) ↦
            turn_long_none (buf ++ more) longer (header ∙ bad)
            ∙ ap₂ go_on (sym nothing)
                (drop-append_le 1 buf more (omega arith) ∙ ap (λ r. r ++ more) (sym same))
        | inr (h, good, body) ↦
            let (fits, read, same) = turn_body-go_on J h buf body in
            turn_long_some (buf ++ more) h longer (header ∙ good)
            ∙ turn_body_complete h (buf ++ more) (omega (arith, length-append buf more))
            ∙ ap₂ go_on
                (ap (deserialize J) (take-append_le (header_size + h.body_len) buf more fits)
                  ∙ sym read)
                (drop-append_le (header_size + h.body_len) buf more fits
                  ∙ ap (λ r. r ++ more) (sym same))
      ]

  -- Parsing a buffer, and then what it left with more bytes, is parsing all the bytes at once.
  pub Parses-append :
      {buf left end : List ℕ} {ps qs : List (AiSchedulePacket Json)} (more : List ℕ)
      → Parses J buf ps left
      → Parses J (left ++ more) qs end
      → Parses J (buf ++ more) (ps ++ qs) end
  Parses-append more (halt e) run = run
  Parses-append {end = end} {qs = qs} more
        (next {buf = buf} {packet = packet} {packets = ps} e first) run =
      subst (λ l. Parses J (buf ++ more) l end) (sym (append_assoc (found packet) ps qs))
        (next (turn-append buf more e) (Parses-append more first run))

  -- What `receive` returns, from the rounds that the loop makes.
  pub receive_of_Parses :
      (p : PacketParser) (message : List ℕ) {packets : List (AiSchedulePacket Json)} {left : List ℕ}
      → Parses J (p.m_buffer ++ message) packets left
      → receive J p message ≡ some (length packets, packets, record { m_buffer = left })
  unfolding receive feed
  receive_of_Parses p message run =
      let (packets, left, found_run, _, same) = parse_all-Parses J (feed p message) [] in
      let (heads, lefts) = Parses-unique J found_run run in
      same ∙ λ i. some (length (heads i), heads i, record { m_buffer = lefts i })

  pub receive-Parses :
      (p : PacketParser) (message : List ℕ)
      → (packets : List (AiSchedulePacket Json)) × (left : List ℕ) × Parses J
          (p.m_buffer ++ message)
          packets
          left
        × (receive J p message ≡ some (length packets, packets, record { m_buffer = left }))
  unfolding receive feed
  receive-Parses p message =
      let (packets, left, run, _, same) = parse_all-Parses J (feed p message) [] in
      (packets, left, run, same)

  receive_each_step :
      (p : PacketParser) (message : List ℕ) (messages : List (List ℕ)) {n : ℕ}
      {packets : List (AiSchedulePacket Json)} {p' : PacketParser}
      → receive J p message ≡ some (n, packets, p')
      → receive_each J p (message ∷ messages) ≡ later n packets (receive_each J p' messages)
  unfolding receive_each
  receive_each_step p message messages e = rw (e, receive_each)

  -- However the bytes of a stream are cut into messages, the parser puts out the same packets in
  -- the same order, counts the same number, and keeps the same bytes as for one message with all
  -- the bytes.
  pub receive_each-flatten :
      (p : PacketParser) (message : List ℕ) (messages : List (List ℕ))
      → receive_each J p (message ∷ messages) ≡ receive J p (flatten (message ∷ messages))
  unfolding receive_each flatten
  receive_each-flatten p message [] =
      let (packets, left, _, same) = receive-Parses p message in
      receive_each_step p message [] same
      ∙ (λ i. some (add-zero (length packets) i, append-nil packets i, record { m_buffer = left }))
      ∙ sym (ap (receive J p) (append-nil message) ∙ same)
  receive_each-flatten p message (m ∷ ms) =
      let (ps, left, first, same) = receive-Parses p message in
      let p' : PacketParser = record { m_buffer = left } in
      let (qs, end, second, rest) = receive-Parses p' (flatten (m ∷ ms)) in
      let both : Parses J (p.m_buffer ++ (message ++ flatten (m ∷ ms))) (ps ++ qs) end =
        subst (λ buf. Parses J buf (ps ++ qs) end)
          (append_assoc p.m_buffer message (flatten (m ∷ ms)))
          (Parses-append (flatten (m ∷ ms)) first second) in
      receive_each_step p message (m ∷ ms) same
      ∙ ap (later (length ps) ps) (receive_each-flatten p' m ms ∙ rest)
      ∙ ap (λ n. some (n, ps ++ qs, record { m_buffer = end })) (sym (length-append ps qs))
      ∙ sym (receive_of_Parses p (message ++ flatten (m ∷ ms)) both)
