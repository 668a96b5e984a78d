-- ===== src/Registry/Server/Valid.antt =====
-- The handlers keep the registry's table well formed.
use turbo_core_dist_ai_clush.Prelude.{sym, subst, ℕ, ◌≡◌, refl, Bool, List, inl, inr, Bool-cases}
use turbo_core_dist_ai_clush.Prelude.Result.{Result-cases, Result, ok, throws}
use turbo_core_dist_ai_clush.Registry.Manager.{has_node}
use turbo_core_dist_ai_clush.Registry.Manager.Calls.{
  IsValid, registers, beats, removes, scans, step, step-IsValid,
}
use turbo_core_dist_ai_clush.Registry.Server.{
  RegistryServer, reply, handle_register, handle_heartbeat, handle_node_query, handle_remove,
  handle_packet, requested_node, scan_task,
}
use turbo_core_dist_ai_clush.Protocol.Header.{TransportHeader}
use turbo_core_dist_ai_clush.Protocol.Types.{PacketType}
use turbo_core_dist_ai_clush.Protocol.Json.{JsonLib}
use turbo_core_dist_ai_clush.Protocol.Packet.{AiSchedulePacket}
use turbo_core_dist_ai_clush.Protocol.Messages.Worker.{
  worker_register_req_from_json, heartbeat_from_json, worker_remove_req_from_json,
}
use turbo_core_dist_ai_clush.Protocol.Messages.Query.{node_query_req_from_json}

module _ (J : JsonLib) (unset : TransportHeader) where
  open J use {Json}

  abbrev HasValidTable : RegistryServer → Type 0
  HasValidTable server = IsValid server.m_registry_manager

  reply-server :
      (server : RegistryServer) (message : Result (ℕ × List ℕ))
      → (reply J unset server message).server ≡ server
  reply-server server (ok sent) = refl
  reply-server server (throws e) = refl

  reply-HasValidTable :
      (server : RegistryServer) (message : Result (ℕ × List ℕ))
      → HasValidTable server
      → HasValidTable (reply J unset server message).server
  reply-HasValidTable server message v = subst HasValidTable (sym (reply-server server message)) v

  handle_register-HasValidTable :
      (heard now conn : ℕ) (packet : AiSchedulePacket Json) (server : RegistryServer)
      → HasValidTable server
      → HasValidTable (handle_register J unset heard now conn packet server).server
  unfolding handle_register step
  handle_register-HasValidTable heard now conn packet server v =
      elim (Result-cases (worker_register_req_from_json J packet.body)) [
        | inl (req, e) ↦
            rw (e, handle_register)
              (reply-HasValidTable _ _ (
                step-IsValid server.m_registry_manager (registers now (requested_node heard req))
                  v))
        | inr (text, e) ↦ rw (e, handle_register) (reply-HasValidTable server _ v)
      ]

  handle_heartbeat-HasValidTable :
      (now conn : ℕ) (packet : AiSchedulePacket Json) (server : RegistryServer)
      → HasValidTable server
      → HasValidTable (handle_heartbeat J unset now conn packet server).server
  unfolding handle_heartbeat step
  handle_heartbeat-HasValidTable now conn packet server v =
      elim (Result-cases (heartbeat_from_json J packet.body)) [
        | inl (hb, e) ↦ elim (Bool-cases (has_node server.m_registry_manager hb.node_id)) [
          | inl known ↦
              rw (e, known, handle_heartbeat)
                (reply-HasValidTable _ _ (
                  step-IsValid server.m_registry_manager
                    (beats now hb.node_id hb.available_memory_mb hb.online_models) v))
          | inr unknown ↦ rw (e, unknown, handle_heartbeat) (reply-HasValidTable server _ v)
        ]
        | inr (text, e) ↦ rw (e, handle_heartbeat) v
      ]

  handle_node_query-HasValidTable :
      (now conn : ℕ) (packet : AiSchedulePacket Json) (server : RegistryServer)
      → HasValidTable server
      → HasValidTable (handle_node_query J unset now conn packet server).server
  unfolding handle_node_query
  handle_node_query-HasValidTable now conn packet server v =
      elim (Result-cases (node_query_req_from_json J packet.body)) [
        | inl (req, e) ↦ rw (e, handle_node_query) (reply-HasValidTable server _ v)
        | inr (text, e) ↦ rw (e, handle_node_query) v
      ]

  handle_remove-HasValidTable :
      (is_connected : ℕ → Bool) (packet : AiSchedulePacket Json) (server : RegistryServer)
      → HasValidTable server
      → HasValidTable (handle_remove J unset is_connected packet server).server
  unfolding handle_remove step
  handle_remove-HasValidTable is_connected packet server v =
      elim (Result-cases (worker_remove_req_from_json J packet.body)) [
        | inl (req, e) ↦
            rw (e, handle_remove) (step-IsValid server.m_registry_manager (removes req.node_id) v)
        | inr (text, e) ↦ rw (e, handle_remove) v
      ]

  dispatched-HasValidTable :
      (heard now : ℕ) (is_connected : ℕ → Bool) (conn : ℕ) (packet : AiSchedulePacket Json)
      (server : RegistryServer) (type : PacketType)
      → packet.base_header.packet_type ≡ type
      → HasValidTable server
      → HasValidTable (handle_packet J unset heard now is_connected conn packet server).server
  unfolding handle_packet
  dispatched-HasValidTable heard now is_connected conn packet server PacketType.register_worker e
        v =
      rw (e, handle_packet) (handle_register-HasValidTable heard now conn packet server v)
  dispatched-HasValidTable heard now is_connected conn packet server PacketType.heartbeat e v =
      rw (e, handle_packet) (handle_heartbeat-HasValidTable now conn packet server v)
  dispatched-HasValidTable heard now is_connected conn packet server PacketType.node_query e v =
      rw (e, handle_packet) (handle_node_query-HasValidTable now conn packet server v)
  dispatched-HasValidTable heard now is_connected conn packet server PacketType.worker_remove e v =
      rw (e, handle_packet) (handle_remove-HasValidTable is_connected packet server v)
  dispatched-HasValidTable heard now is_connected conn packet server type e v =
      rw (e, handle_packet) v

  -- Every packet that `HandlePacket` handles, whatever its type and body, and every run of the scan
  -- task leave a registry whose table is keyed by the ids without repetition in that state, also
  -- where an exception ends the handler.
  pub handle_packet-IsValid :
      (heard now : ℕ) (is_connected : ℕ → Bool) (conn : ℕ) (packet : AiSchedulePacket Json)
      (server : RegistryServer)
      → IsValid server.m_registry_manager
      → IsValid
          (handle_packet J unset heard now is_connected conn packet
            server).server.m_registry_manager
        × IsValid (scan_task J unset now is_connected server).server.m_registry_manager
  unfolding scan_task step
  handle_packet-IsValid heard now is_connected conn packet server v = (
    dispatched-HasValidTable heard now is_connected conn packet server
        packet.base_header.packet_type refl v,
    step-IsValid server.m_registry_manager (scans now) v,
  )
