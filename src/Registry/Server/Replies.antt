-- ===== src/Registry/Server/Replies.antt =====
-- The answers of the registry, and what its handlers keep of the manager.
use turbo_core_dist_ai_clush.Prelude.{◌≢◌, ℕ, ◌≡◌, refl, Bool, List, [], inl, inr, Bool-cases, All}
use turbo_core_dist_ai_clush.Prelude.Result.{Result-cases, ok}
use turbo_core_dist_ai_clush.Registry.Manager.{has_node}
use turbo_core_dist_ai_clush.Registry.Server.{
  RegistryServer, reply, send_response, handle_register, handle_heartbeat, handle_node_query,
  handle_packet,
}
use turbo_core_dist_ai_clush.Protocol.Header.{TransportHeader}
use turbo_core_dist_ai_clush.Protocol.Types.{PacketType}
use turbo_core_dist_ai_clush.Protocol.Json.{JsonLib}
use turbo_core_dist_ai_clush.Protocol.Packet.{AiSchedulePacket, serialize, build}
use turbo_core_dist_ai_clush.Protocol.Messages.Worker.{
  worker_register_req_from_json, heartbeat_from_json,
}
use turbo_core_dist_ai_clush.Protocol.Messages.Query.{node_query_req_from_json}

module _ (J : JsonLib) (unset : TransportHeader) where
  open J use {Json}

  -- A message to the connection that carries the number.
  abbrev pub IsAnswer : ℕ → ℕ → ℕ × List ℕ → Type 0
  IsAnswer conn seq message =
      (message.0 ≡ conn)
      × ((type : PacketType) × (body : Json) × (serialize J
              (build J seq type "registry_server" body unset) []
            ≡ ok message.1))

  reply-IsAnswer :
      (server : RegistryServer) (conn seq : ℕ) (type : PacketType) (body : Json)
      → All
          (IsAnswer conn seq)
          (reply J unset server (send_response J unset conn seq type body)).sent
  unfolding send_response
  reply-IsAnswer server conn seq type body =
      elim (Result-cases (serialize J (build J seq type "registry_server" body unset) [])) [
        | inl (bytes, e) ↦ rw e ((refl, (type, body, e)), tt)
        | inr (text, e) ↦ rw e tt
      ]

  handle_register-IsAnswer :
      (heard now conn : ℕ) (packet : AiSchedulePacket Json) (server : RegistryServer)
      → All
          (IsAnswer conn packet.base_header.seq)
          (handle_register J unset heard now conn packet server).sent
  unfolding handle_register
  handle_register-IsAnswer heard now conn packet server =
      elim (Result-cases (worker_register_req_from_json J packet.body)) [
        | inl (req, e) ↦ rw (e, handle_register) (reply-IsAnswer _ conn packet.base_header.seq _ _)
        | inr (text, e) ↦
            rw (e, handle_register) (reply-IsAnswer server conn packet.base_header.seq _ _)
      ]

  handle_heartbeat-IsAnswer :
      (now conn : ℕ) (packet : AiSchedulePacket Json) (server : RegistryServer)
      → All
          (IsAnswer conn packet.base_header.seq)
          (handle_heartbeat J unset now conn packet server).sent
  unfolding handle_heartbeat
  handle_heartbeat-IsAnswer now conn packet server =
      elim (Result-cases (heartbeat_from_json J packet.body)) [
        | inl (hb, e) ↦ elim (Bool-cases (has_node server.m_registry_manager hb.node_id)) [
          | inl known ↦
              rw (e, known, handle_heartbeat) (reply-IsAnswer _ conn packet.base_header.seq _ _)
          | inr unknown ↦
              rw (e, unknown, handle_heartbeat)
                (reply-IsAnswer server conn packet.base_header.seq _ _)
        ]
        | inr (text, e) ↦ rw (e, handle_heartbeat) tt
      ]

  handle_node_query-IsAnswer :
      (now conn : ℕ) (packet : AiSchedulePacket Json) (server : RegistryServer)
      → All
          (IsAnswer conn packet.base_header.seq)
          (handle_node_query J unset now conn packet server).sent
  unfolding handle_node_query
  handle_node_query-IsAnswer now conn packet server =
      elim (Result-cases (node_query_req_from_json J packet.body)) [
        | inl (req, e) ↦
            rw (e, handle_node_query) (reply-IsAnswer server conn packet.base_header.seq _ _)
        | inr (text, e) ↦ rw (e, handle_node_query) tt
      ]

  handled-IsAnswer :
      (heard now : ℕ) (is_connected : ℕ → Bool) (conn : ℕ) (packet : AiSchedulePacket Json)
      (server : RegistryServer) (type : PacketType)
      → packet.base_header.packet_type ≡ type
      → type ≢ PacketType.worker_remove
      → All
          (IsAnswer conn packet.base_header.seq)
          (handle_packet J unset heard now is_connected conn packet server).sent
  unfolding handle_packet
  handled-IsAnswer heard now is_connected conn packet server PacketType.register_worker e ne =
      rw (e, handle_packet) (handle_register-IsAnswer heard now conn packet server)
  handled-IsAnswer heard now is_connected conn packet server PacketType.heartbeat e ne =
      rw (e, handle_packet) (handle_heartbeat-IsAnswer now conn packet server)
  handled-IsAnswer heard now is_connected conn packet server PacketType.node_query e ne =
      rw (e, handle_packet) (handle_node_query-IsAnswer now conn packet server)
  handled-IsAnswer heard now is_connected conn packet server PacketType.worker_remove e ne =
      absurd (ne refl)
  handled-IsAnswer heard now is_connected conn packet server type e ne = rw (e, handle_packet) tt

  -- Whatever the registry sends on a packet other than a request to leave goes to the connection
  -- that the packet came from, and is the serialization of a packet with the same sequence number.
  pub handle_packet-IsAnswer :
      (heard now : ℕ) (is_connected : ℕ → Bool) (conn : ℕ) (packet : AiSchedulePacket Json)
      (server : RegistryServer)
      → packet.base_header.packet_type ≢ PacketType.worker_remove
      → All
          (IsAnswer conn packet.base_header.seq)
          (handle_packet J unset heard now is_connected conn packet server).sent
  handle_packet-IsAnswer heard now is_connected conn packet server ne =
      handled-IsAnswer heard now is_connected conn packet server packet.base_header.packet_type refl
        ne
