-- ===== src/Tests/Server.antt =====
-- AiDist/5. Registry_Server.cpp at concrete inputs.
use turbo_core_dist_ai_clush.Prelude.{
  ℕ, ◌≡◌, ◌≢◌, refl, true, List, [], ◌∷◌, ◌++◌, ◌*◌, none, some, All, ◌==◌, arith,
}
use turbo_core_dist_ai_clush.Prelude.Dict.{find, assign}
use turbo_core_dist_ai_clush.Protocol.Header.{TransportHeader, serialize_to_bytes}
use turbo_core_dist_ai_clush.Protocol.Types.{PacketType}
use turbo_core_dist_ai_clush.Protocol.Json.{JsonLib}
use turbo_core_dist_ai_clush.Protocol.Packet.{header_for, serialize, full_json, build}
use turbo_core_dist_ai_clush.Registry.Manager.{
  new_registry_manager, scan_timeout_nodes, scan_nodes, seconds_since, register_worker, new_node_id,
  to_string, ticks_per_second,
}
use turbo_core_dist_ai_clush.Registry.Manager.Calls.{registers, run, step, IsValid, run-new-IsValid}
use turbo_core_dist_ai_clush.Registry.Server.{
  RegistryServer, Handled, new_registry_server, handle_packet, scan_task, offline_body,
}
use turbo_core_dist_ai_clush.Parser.{PacketParser}
use turbo_core_dist_ai_clush.Registry.Server.Messages.{on_message, on_message-IsValid}
use turbo_core_dist_ai_clush.Registry.Server.Replies.{IsAnswer, handle_packet-IsAnswer}
use turbo_core_dist_ai_clush.Registry.Server.Broadcast.{
  AreNotices, connected, notices, scan_task_lem,
}
use turbo_core_dist_ai_clush.Tests.JsonText.{json_text, write}
use turbo_core_dist_ai_clush.Tests.Protocol.{sample_packet}
use turbo_core_dist_ai_clush.Tests.Registry.{worker}

abbrev J : JsonLib
J = json_text []

abbrev unset : TransportHeader
unset = sample_packet.trans_header

not_a_remove : PacketType.heartbeat ≢ PacketType.worker_remove
not_a_remove e = ground arith

-- A heartbeat of a node that is not registered.
handle_packet-IsAnswer_example :
    All
      (IsAnswer J unset 3 7)
      (handle_packet J unset 5 5 (λ conn. true) 3 sample_packet new_registry_server).sent
handle_packet-IsAnswer_example =
    handle_packet-IsAnswer J unset 5 5 (λ conn. true) 3 sample_packet new_registry_server
      not_a_remove

abbrev busy : RegistryServer
busy = record {
  m_registry_manager = run new_registry_manager (registers 7 (worker "h1" 100) ∷ []);
  m_all_connections = 3 ∷ 4 ∷ [];
}

-- The document of the notice about the node "h1_7".
abbrev notice_text : List ℕ
notice_text = write (
    full_json J
      (build J 0 PacketType.worker_offline "registry_server" (offline_body J unset "h1_7") unset))

abbrev notice : List ℕ
notice = serialize_to_bytes (header_for notice_text) [] ++ notice_text

only_notice :
    AreNotices J unset
      (scan_timeout_nodes (40 * ticks_per_second) busy.m_registry_manager).0
      (notice ∷ [])
unfolding scan_timeout_nodes scan_nodes seconds_since run step register_worker new_node_id to_string
    find assign serialize
only_notice = (refl, tt)

-- Only the connection 4 is connected.
scan_task_lem_example :
    ((scan_task J unset (40 * ticks_per_second) (λ conn. conn == 4) busy).sent ≡ (4, notice) ∷ [])
    × ((scan_task J unset (40 * ticks_per_second) (λ conn. conn == 4) busy).thrown ≡ none)
unfolding connected notices
scan_task_lem_example =
    scan_task_lem J unset (λ conn. conn == 4) (40 * ticks_per_second) busy (notice ∷ []) only_notice

-- The bytes are one byte of nothing; the parser holds the start of a header.
on_message-IsValid_example :
    (parser' : PacketParser) × (after : Handled) × (on_message J unset
        (λ i. 5)
        (λ i. 5)
        (λ conn. true)
        3
        (0 ∷ [])
        (record { m_buffer = 65 ∷ [] })
        busy
      ≡ some (parser', after))
    × IsValid after.server.m_registry_manager
on_message-IsValid_example =
    on_message-IsValid J unset (λ i. 5) (λ i. 5) (λ conn. true) 3 (0 ∷ [])
      (record { m_buffer = 65 ∷ [] }) busy (run-new-IsValid (registers 7 (worker "h1" 100) ∷ []))
