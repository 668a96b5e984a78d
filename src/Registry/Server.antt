-- ===== src/Registry/Server.antt =====
-- `RegistryServer` of AiDist/5 Regisrty_Server.h and AiDist/5. Registry_Server.cpp: the handlers,
-- over an abstract JSON library. A connection is a number; which of them are connected is an
-- argument; what a handler passes to `Send` is a list of connections with bytes.
pub mod Replies
pub mod Valid
pub mod Broadcast
pub mod Messages
use Prim.Native.String.{◌++◌ as join}
use turbo_core_dist_ai_clush.Prelude.{
  ℕ, Bool, true, false, not, List, [], ◌∷◌, ◌++◌, String, Option, none, some, if◌then◌else◌, ◌==◌,
  map,
}
use turbo_core_dist_ai_clush.Prelude.Int.{ℤ}
use turbo_core_dist_ai_clush.Prelude.Result.{Result, ok, throws, ◌>>=◌}
use turbo_core_dist_ai_clush.Registry.NodeInfo.{RegistryNodeInfo, new_node_info}
use turbo_core_dist_ai_clush.Registry.Manager.{
  RegistryManager, new_registry_manager, register_worker, update_heartbeat, remove_worker,
  get_online_nodes_by_model, scan_timeout_nodes, has_node,
}
use turbo_core_dist_ai_clush.Protocol.Header.{TransportHeader}
use turbo_core_dist_ai_clush.Protocol.Types.{PacketType}
use turbo_core_dist_ai_clush.Protocol.Json.{JsonLib}
use turbo_core_dist_ai_clush.Protocol.Packet.{AiSchedulePacket, serialize, build}
use turbo_core_dist_ai_clush.Protocol.Messages.Worker.{
  WorkerRegisterReq, WorkerRegisterResp, Heartbeat, HeartbeatResp, WorkerRemoveReq,
  worker_register_req_from_json, worker_register_resp_to_json, heartbeat_from_json,
  heartbeat_resp_to_json, worker_remove_req_from_json,
}
use turbo_core_dist_ai_clush.Protocol.Messages.Query.{NodeQueryReq, node_query_req_from_json}

pub record RegistryServer : Type 0 where
  pub m_registry_manager : RegistryManager
  pub m_all_connections : List ℕ

abbrev pub new_registry_server : RegistryServer
new_registry_server = record { m_registry_manager = new_registry_manager; m_all_connections = [] }

-- What a handler leaves: the state, what it sent, in order, and the exception that left it, if any.
pub record Handled : Type 0 where
  pub server : RegistryServer
  pub sent : List (ℕ × List ℕ)
  pub thrown : Option String

abbrev pub silent : RegistryServer → Handled
silent server = record { server = server; sent = []; thrown = none }

-- `remove_if` by identity, then `erase`
unfoldable pub without_conn : ℕ → List ℕ → List ℕ
without_conn conn [] = []
without_conn conn (item ∷ items) =
    if item == conn then without_conn conn items else item ∷ without_conn conn items

unfoldable pub on_connection : Bool → ℕ → RegistryServer → RegistryServer
unfolding without_conn
on_connection true conn server = record server {
  m_all_connections = server.m_all_connections ++ conn ∷ [];
}
on_connection false conn server = record server {
  m_all_connections = without_conn conn server.m_all_connections;
}

-- The node that `HandleRegister` fills in from the request, at the time of its clock reading.
abbrev pub requested_node : ℕ → WorkerRegisterReq → RegistryNodeInfo
requested_node heard req = record (new_node_info heard) {
  node_addr = req.node_addr;
  support_models = req.support_models;
  total_memory_mb = req.total_memory_mb;
  available_memory_mb = req.total_memory_mb;
  weight = req.weight;
}

module _ (J : JsonLib) (unset : TransportHeader) where
  open J use {Json, object, array, from_string, from_int32}

  -- The bytes that `Send` is given; their length goes through an `int`, which holds fewer than 2 ^ 31,
  -- and larger packets are not modelled. The packet's transport header is not set and not read.
  unfoldable pub send_response : ℕ → ℕ → PacketType → Json → Result (ℕ × List ℕ)
  send_response conn req_seq resp_type body = do
    out_bytes ← serialize J (build J req_seq resp_type "registry_server" body unset) []
    ok (conn, out_bytes)

  -- One `SendResponse` as the last thing that a handler does.
  abbrev pub reply : RegistryServer → Result (ℕ × List ℕ) → Handled
  reply server (ok message) = record { server = server; sent = message ∷ []; thrown = none }
  reply server (throws e) = record { server = server; sent = []; thrown = some e }

  abbrev pub register_reply : Bool → String → String → Json
  register_reply success node_id message =
      worker_register_resp_to_json J
        (record { success = success; node_id = node_id; message = message })

  -- The clock is read for the node and again by `RegisterWorker`.
  unfoldable pub handle_register : ℕ → ℕ → ℕ → AiSchedulePacket Json → RegistryServer → Handled
  unfolding send_response
  handle_register heard now conn packet server =
      let seq = packet.base_header.seq in
      elim (worker_register_req_from_json J packet.body) [
        | throws e ↦ reply server (
            send_response conn seq PacketType.register_resp
              (register_reply false "" (join "parse failed: " e)))
        | ok req ↦
            let registered =
              register_worker now server.m_registry_manager (requested_node heard req) in
            reply (record server { m_registry_manager = registered.1 })
              (send_response conn seq PacketType.register_resp
                (register_reply true registered.0 "register success"))
      ]

  abbrev pub heartbeat_reply : Bool → String → Json
  heartbeat_reply ack message = heartbeat_resp_to_json J (record { ack = ack; message = message })

  unfoldable pub handle_heartbeat : ℕ → ℕ → AiSchedulePacket Json → RegistryServer → Handled
  unfolding send_response
  handle_heartbeat now conn packet server =
      let seq = packet.base_header.seq in
      elim (heartbeat_from_json J packet.body) [
        | throws e ↦ silent server
        | ok hb ↦
            if has_node server.m_registry_manager hb.node_id
            then reply
                (record server {
                  m_registry_manager =
                      update_heartbeat now server.m_registry_manager hb.node_id
                        hb.available_memory_mb hb.online_models;
                })
                (send_response conn seq PacketType.heartbeat_resp (heartbeat_reply true "ok"))
            else reply server (
                send_response conn seq PacketType.heartbeat_resp
                  (heartbeat_reply false "node not registered, please re-register"))
      ]

  abbrev pub node_json : RegistryNodeInfo → Json
  node_json node = object (
      ("node_id", from_string node.node_id)
      ∷ ("node_addr", from_string node.node_addr)
      ∷ ("available_memory_mb", from_int32 node.available_memory_mb)
      ∷ ("weight", from_int32 node.weight)
      ∷ [])

  unfoldable pub handle_node_query : ℕ → ℕ → AiSchedulePacket Json → RegistryServer → Handled
  unfolding send_response
  handle_node_query now conn packet server = elim (node_query_req_from_json J packet.body) [
    | throws e ↦ silent server
    | ok req ↦ reply server (
        send_response conn packet.base_header.seq PacketType.node_query_resp (
          array (
            map node_json
              (get_online_nodes_by_model now server.m_registry_manager req.model_name))))
  ]

  abbrev pub offline_body : String → Json
  offline_body node_id = object (("node_id", from_string node_id) ∷ [])

  -- The loop over the connections, which an exception leaves.
  unfoldable pub broadcast : (ℕ → Bool) → String → List ℕ → List (ℕ × List ℕ) × Option String
  unfolding send_response
  broadcast is_connected node_id [] = ([], none)
  broadcast is_connected node_id (conn ∷ conns) =
      let rest = broadcast is_connected node_id conns in
      if is_connected conn
      then (elim (send_response conn 0 PacketType.worker_offline (offline_body node_id)) [
        | ok message ↦ (message ∷ rest.0, rest.1)
        | throws e ↦ ([], some e)
      ])
      else rest

  unfoldable pub handle_remove : (ℕ → Bool) → AiSchedulePacket Json → RegistryServer → Handled
  unfolding broadcast
  handle_remove is_connected packet server = elim (worker_remove_req_from_json J packet.body) [
    | throws e ↦ silent server
    | ok req ↦
        let told = broadcast is_connected req.node_id server.m_all_connections in
        record {
          server = record server {
            m_registry_manager = remove_worker server.m_registry_manager req.node_id;
          };
          sent = told.0;
          thrown = told.1;
        }
  ]

  unfoldable pub handle_packet :
      ℕ → ℕ → (ℕ → Bool) → ℕ → AiSchedulePacket Json → RegistryServer → Handled
  unfolding handle_register handle_heartbeat handle_node_query handle_remove
  handle_packet heard now is_connected conn packet server = elim packet.base_header.packet_type [
    | PacketType.register_worker ↦ handle_register heard now conn packet server
    | PacketType.heartbeat ↦ handle_heartbeat now conn packet server
    | PacketType.node_query ↦ handle_node_query now conn packet server
    | PacketType.worker_remove ↦ handle_remove is_connected packet server
    | _ ↦ silent server
  ]

  -- The loop over the nodes that timed out.
  unfoldable pub broadcast_all :
      (ℕ → Bool) → List ℕ → List String → List (ℕ × List ℕ) × Option String
  unfolding broadcast
  broadcast_all is_connected conns [] = ([], none)
  broadcast_all is_connected conns (node_id ∷ node_ids) =
      let told = broadcast is_connected node_id conns in
      let rest = broadcast_all is_connected conns node_ids in
      elim told.1 [ none ↦ (told.0 ++ rest.0, rest.1) | some e ↦ told ]

  -- The timer task of `Start`, without the `RunAfter` at its end, which arms it again.
  unfoldable pub scan_task : ℕ → (ℕ → Bool) → RegistryServer → Handled
  unfolding broadcast_all
  scan_task now is_connected server =
      let scanned = scan_timeout_nodes now server.m_registry_manager in
      let told = broadcast_all is_connected server.m_all_connections scanned.0 in
      record {
        server = record server { m_registry_manager = scanned.1 };
        sent = told.0;
        thrown = told.1;
      }
