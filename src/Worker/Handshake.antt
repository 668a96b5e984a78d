-- ===== src/Worker/Handshake.antt =====
-- The registration of a worker node: `DoRegister`, the registry's `HandleRegister`, and the answer
-- in `OnMessage`.
use turbo_core_dist_ai_clush.Prelude.{ℕ, ◌<◌, ◌^◌, ◌≡◌, Bool, true, List, arith, length}
use turbo_core_dist_ai_clush.Prelude.Result.{ok}
use turbo_core_dist_ai_clush.Prelude.Size.{ok as gives}
use turbo_core_dist_ai_clush.Protocol.Header.{TransportHeader}
use turbo_core_dist_ai_clush.Protocol.Types.{PacketType}
use turbo_core_dist_ai_clush.Protocol.Json.{JsonLib, JsonLaws}
use turbo_core_dist_ai_clush.Protocol.Packet.{AiSchedulePacket, build, full_json, header_for}
use turbo_core_dist_ai_clush.Protocol.Messages.Worker.{worker_register_req_to_json}
use turbo_core_dist_ai_clush.Registry.NodeInfo.{RegistryNodeInfo}
use turbo_core_dist_ai_clush.Registry.Manager.{register_worker, new_node_id}
use text.Mathlib.Text.{◌==◌ as str_eq}
use turbo_core_dist_ai_clush.Registry.Server
use turbo_core_dist_ai_clush.Registry.Server.{RegistryServer, requested_node, register_reply}
use turbo_core_dist_ai_clush.Worker.{WorkerNode, register_req, int_as_size}

-- A length that `int` holds is passed on as it is.
pub int_as_size-small : (n : ℕ) → n < 2 ^ 31 → int_as_size n ≡ n
unfolding int_as_size
int_as_size-small n h = ground (arith, h)

module _ (J : JsonLib) (L : JsonLaws J) where
  open J use {Json, dump, parse}

  -- The JSON library writes the packet as this text, which fits a packet, and reads it back.
  pub record IsText (p : AiSchedulePacket Json) (text : List ℕ) : Type 0 where
    pub written : dump (full_json J p) ≡ ok text
    pub read : parse text ≡ ok (full_json J p)
    pub short : length text < 2 ^ 32

  -- The packet as its receiver sees it.
  abbrev pub received : AiSchedulePacket Json → List ℕ → AiSchedulePacket Json
  received p text = record p { trans_header = header_for text }

  module _ (unset : TransportHeader) (w : WorkerNode) (ticks : ℕ) (fits : ticks < 2 ^ 64) where
    abbrev pub request : AiSchedulePacket Json
    request =
        build J ticks PacketType.register_worker w.m_node_addr
          (worker_register_req_to_json J (register_req w)) unset

    -- The registry's node for the request.
    module _ (heard now conn : ℕ) (is_connected : ℕ → Bool) (server : RegistryServer) where
      abbrev pub node : RegistryNodeInfo
      node = requested_node heard (register_req w)

      abbrev pub response : AiSchedulePacket Json
      response =
          build J ticks PacketType.register_resp "registry_server"
            (register_reply J unset true (new_node_id now node) "register success") unset
