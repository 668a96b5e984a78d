-- ===== src/Registry/Server/Messages.antt =====
-- `RegistryServer::OnMessage`: the bytes of a connection go through its own parser, and each packet is
-- handled in turn.
use turbo_core_dist_ai_clush.Prelude.{
  ℕ, ◌+◌, ◌≡◌, refl, Bool, List, [], ◌∷◌, ◌++◌, Option, none, some, if◌then◌else◌, ◌==◌, arith,
  length, Option-cases, inl, inr,
}
use turbo_core_dist_ai_clush.Parser.{PacketParser, receive, feed}
use turbo_core_dist_ai_clush.Parser.Run.{parse_all-Parses}
use turbo_core_dist_ai_clush.Protocol.Header.{TransportHeader}
use turbo_core_dist_ai_clush.Protocol.Json.{JsonLib}
use turbo_core_dist_ai_clush.Protocol.Packet.{AiSchedulePacket}
use turbo_core_dist_ai_clush.Registry.Manager.Calls.{IsValid}
use turbo_core_dist_ai_clush.Registry.Server.{RegistryServer, Handled, silent, handle_packet}
use turbo_core_dist_ai_clush.Registry.Server.Valid.{handle_packet-IsValid}

module _ (J : JsonLib) (unset : TransportHeader) where
  open J use {Json}

  -- The loop over the packets, which an exception leaves. The clock is read anew for each.
  unfoldable pub handle_packets :
      (ℕ → ℕ)
      → (ℕ → ℕ)
      → (ℕ → Bool)
      → ℕ
      → ℕ
      → List (AiSchedulePacket Json)
      → RegistryServer
      → Handled
  handle_packets heard now is_connected conn i [] server = silent server
  handle_packets heard now is_connected conn i (packet ∷ packets) server =
      let first = handle_packet J unset (heard i) (now i) is_connected conn packet server in
      let rest = handle_packets heard now is_connected conn (i + 1) packets first.server in
      elim first.thrown [ some e ↦ first | none ↦ record rest { sent = first.sent ++ rest.sent } ]

  -- `none` is fuel of the parser that ran out, which does not happen.
  unfoldable pub on_message :
      (ℕ → ℕ)
      → (ℕ → ℕ)
      → (ℕ → Bool)
      → ℕ
      → List ℕ
      → PacketParser
      → RegistryServer
      → Option (PacketParser × Handled)
  on_message heard now is_connected conn bytes parser server = elim (receive J parser bytes) [
    | none ↦ none
    | some (parsed, packets, parser') ↦ some (
      parser',
      if parsed == 0
          then silent server
          else handle_packets heard now is_connected conn 0 packets server,
    )
  ]

  handle_packets-IsValid :
      (heard now : ℕ → ℕ) (is_connected : ℕ → Bool) (conn i : ℕ)
      (packets : List (AiSchedulePacket Json)) (server : RegistryServer)
      → IsValid server.m_registry_manager
      → IsValid
          (handle_packets heard now is_connected conn i packets server).server.m_registry_manager
  unfolding handle_packets
  handle_packets-IsValid heard now is_connected conn i [] server v = v
  handle_packets-IsValid heard now is_connected conn i (packet ∷ packets) server v =
      let first = handle_packet J unset (heard i) (now i) is_connected conn packet server in
      let kept =
        (handle_packet-IsValid J unset (heard i) (now i) is_connected conn packet server v).0 in
      let rest =
        handle_packets-IsValid heard now is_connected conn (i + 1) packets first.server kept in
      elim (Option-cases first.thrown) [
        | inl none_thrown ↦ rw (none_thrown, handle_packets) rest
        | inr (e, thrown) ↦ rw (thrown, handle_packets) kept
      ]

  -- Whatever bytes arrive on a connection, whatever its parser still holds, and whatever the handlers
  -- throw, `OnMessage` comes to an end, and it leaves a registry whose table is keyed by the ids
  -- without repetition, if it was so before.
  pub on_message-IsValid :
      (heard now : ℕ → ℕ) (is_connected : ℕ → Bool) (conn : ℕ) (bytes : List ℕ)
      (parser : PacketParser) (server : RegistryServer)
      → IsValid server.m_registry_manager
      → (parser' : PacketParser) × (after : Handled) × (on_message heard now is_connected conn bytes
            parser server
          ≡ some (parser', after))
        × IsValid after.server.m_registry_manager
  unfolding on_message receive
  on_message-IsValid heard now is_connected conn bytes parser server v =
      let (packets, left, run, stops, same) = parse_all-Parses J (feed parser bytes) [] in
      let all = handle_packets-IsValid heard now is_connected conn 0 packets server v in
      (
        record { m_buffer = left },
        if length packets == 0
            then silent server
            else handle_packets heard now is_connected conn 0 packets server,
        rw (same, on_message) refl,
        ground (arith, v, all),
      )
