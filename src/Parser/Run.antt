-- ===== src/Parser/Run.antt =====
-- The loop of `ParseAll`: it ends, and what it has done when it ends.
use turbo_core_dist_ai_clush.Prelude.{
  ℕ, zero, suc, ◌+◌, ◌≤◌, ◌<◌, ◌≡◌, refl, ap, ap₂, subst, ◌∙◌, sym, Option, none, some, List, [],
  ◌∷◌, ◌++◌, length, take, drop, arith, length-drop, append_assoc, append-nil, ◌⊎◌, inl, inr,
}
use turbo_core_dist_ai_clush.Protocol.Header.{TransportHeader, header_size, deserialize_from_bytes}
use turbo_core_dist_ai_clush.Protocol.Json.{JsonLib}
use turbo_core_dist_ai_clush.Protocol.Packet.{AiSchedulePacket, deserialize}
use turbo_core_dist_ai_clush.Parser.{
  PacketParser, Turn, stop, go_on, push_back, count_packet, turn_body, turn, parse_loop, parse_all,
}

abbrev pub found {ℓ} : {A : Type ℓ} → Option A → List A
found none = []
found (some a) = a ∷ []

pub Turn-cases :
    {Packet : Type 0} (t : Turn Packet)
    → (t ≡ stop) ⊎ ((packet : Option Packet) × (rest : List ℕ) × (t ≡ go_on packet rest))
Turn-cases stop = inl refl
Turn-cases (go_on packet rest) = inr (packet, rest, refl)

push_back-found {ℓ} :
    {A : Type ℓ} (packet : Option A) (out packets : List A)
    → push_back packet out ++ packets ≡ out ++ (found packet ++ packets)
push_back-found none out packets = refl
push_back-found (some a) out packets = append_assoc out (a ∷ []) packets

count_packet-found {ℓ} :
    {A : Type ℓ} (packet : Option A) (parsed : ℕ) (packets : List A)
    → count_packet packet parsed + length packets ≡ parsed + length (found packet ++ packets)
count_packet-found none parsed packets = refl
count_packet-found (some a) parsed packets = omega arith

module _ (J : JsonLib) where
  open J use {Json}

  pub turn_body-go_on :
      (h : TransportHeader) (buf : List ℕ) {packet : Option (AiSchedulePacket Json)} {rest : List ℕ}
      → turn_body J h buf ≡ go_on packet rest
      → (header_size + h.body_len ≤ length buf)
        × (packet ≡ deserialize J (take (header_size + h.body_len) buf))
        × (rest ≡ drop (header_size + h.body_len) buf)
  unfolding turn_body
  turn_body-go_on h buf e = ground arith

  pub turn-go_on :
      (buf : List ℕ) {packet : Option (AiSchedulePacket Json)} {rest : List ℕ}
      → turn J buf ≡ go_on packet rest
      → (header_size ≤ length buf)
        × (((deserialize_from_bytes buf ≡ none) × (packet ≡ none) × (rest ≡ drop 1 buf))
            ⊎ ((h : TransportHeader) × (deserialize_from_bytes buf ≡ some h)
                × (turn_body J h buf ≡ go_on packet rest)))
  unfolding turn
  turn-go_on buf e = ground arith

  -- A round that goes on shortens the buffer.
  pub turn-shortens :
      (buf : List ℕ) {packet : Option (AiSchedulePacket Json)} {rest : List ℕ}
      → turn J buf ≡ go_on packet rest
      → length rest < length buf
  turn-shortens buf {packet} {rest} e =
      let (long, why) = turn-go_on buf e in
      elim why [
        | inl (_, _, same) ↦ omega (arith, ap length same, length-drop 1 buf)
        | inr (h, _, body) ↦
            let (fits, _, same) = turn_body-go_on h buf body in
            omega (arith, ap length same, length-drop (header_size + h.body_len) buf)
      ]

  -- The rounds of the loop from a buffer: the packets in order, and the bytes that are left.
  pub data Parses : List ℕ → List (AiSchedulePacket Json) → List ℕ → Type 0 where
    halt : {buf : List ℕ} → turn J buf ≡ stop → Parses buf [] buf
    next :
        {buf rest left : List ℕ} {packet : Option (AiSchedulePacket Json)}
        {packets : List (AiSchedulePacket Json)}
        → turn J buf ≡ go_on packet rest
        → Parses rest packets left
        → Parses buf (found packet ++ packets) left

  parse_loop-Parses :
      (fuel : ℕ) (buf : List ℕ) (out : List (AiSchedulePacket Json)) (parsed : ℕ)
      → length buf < fuel
      → (packets : List (AiSchedulePacket Json)) × (left : List ℕ) × Parses buf packets left
        × (parse_loop J fuel buf out parsed
            ≡ some (parsed + length packets, out ++ packets, record { m_buffer = left }))
  unfolding parse_loop
  parse_loop-Parses zero buf out parsed h = absurd (omega arith)
  parse_loop-Parses (suc fuel) buf out parsed h = elim (Turn-cases (turn J buf)) [
    | inl e ↦ (
      [],
      buf,
      halt e,
      rw (e, parse_loop, append-nil out)
          (ap (λ n. some (n, out, record { m_buffer = buf })) (omega arith)),
    )
    | inr (packet, rest, e) ↦
        let (packets, left, run, same) =
          parse_loop-Parses fuel rest (push_back packet out) (count_packet packet parsed)
            (omega (arith, turn-shortens buf e)) in
        (
          found packet ++ packets,
          left,
          next e run,
          rw (e, parse_loop)
              (same ∙ λ i. some (
                count_packet-found packet parsed packets i,
                push_back-found packet out packets i,
                record { m_buffer = left },
              )),
        )
  ]

  Parses-stop :
      {buf left : List ℕ} {packets : List (AiSchedulePacket Json)}
      → Parses buf packets left
      → turn J left ≡ stop
  Parses-stop (halt e) = e
  Parses-stop (next e run) = Parses-stop run

  -- `ParseAll` always ends. It puts out the packets of its rounds behind those that `out` held,
  -- returns their number, and keeps the bytes that the rounds left, on which no round goes on.
  pub parse_all-Parses :
      (p : PacketParser) (out : List (AiSchedulePacket Json))
      → (packets : List (AiSchedulePacket Json)) × (left : List ℕ) × Parses p.m_buffer packets left
        × (turn J left ≡ stop)
        × (parse_all J p out ≡ some (length packets, out ++ packets, record { m_buffer = left }))
  unfolding parse_all
  parse_all-Parses p out =
      let (packets, left, run, same) =
        parse_loop-Parses (suc (length p.m_buffer)) p.m_buffer out 0 (omega arith) in
      (
        packets,
        left,
        run,
        Parses-stop run,
        same ∙ ap (λ n. some (n, out ++ packets, record { m_buffer = left })) (omega arith),
      )

  stop-ne-go_on :
      (buf rest : List ℕ) (packet : Option (AiSchedulePacket Json))
      → turn J buf ≡ stop
      → turn J buf ≡ go_on packet rest
      → ⊥
  stop-ne-go_on buf rest packet a b = cc

  -- The rounds are determined by the buffer.
  pub Parses-unique :
      {buf l₁ l₂ : List ℕ} {ps qs : List (AiSchedulePacket Json)}
      → Parses buf ps l₁
      → Parses buf qs l₂
      → (ps ≡ qs) × (l₁ ≡ l₂)
  Parses-unique (halt a) (halt b) = (refl, refl)
  Parses-unique (halt a) (next b r) = absurd (stop-ne-go_on _ _ _ a b)
  Parses-unique (next a r) (halt b) = absurd (stop-ne-go_on _ _ _ b a)
  Parses-unique {l₂ = l₂} (next {rest = r₁} {packet = p₁} a r)
        (next {rest = r₂} {packet = p₂} {packets = qs} b s) =
      let same_rest : r₁ ≡ r₂ = cc in
      let same_packet : p₁ ≡ p₂ = cc in
      let (tails, lefts) = Parses-unique r (subst (λ x. Parses x qs l₂) (sym same_rest) s) in
      (ap₂ (λ p ps. found p ++ ps) same_packet tails, lefts)
