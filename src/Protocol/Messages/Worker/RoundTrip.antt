-- ===== src/Protocol/Messages/Worker/RoundTrip.antt =====
-- `from_json` of what `to_json` makes of the messages on registration, heartbeat and leave.
use turbo_core_dist_ai_clush.Prelude.{◌≡◌, refl, ◌∙◌}
use turbo_core_dist_ai_clush.Prelude.Int.{IsInt32}
use turbo_core_dist_ai_clush.Prelude.Result.{ok, >>=-ok}
use turbo_core_dist_ai_clush.Prelude.Dict.{find}
use turbo_core_dist_ai_clush.Protocol.Json.{JsonLib, JsonLaws, at-object_get}
use turbo_core_dist_ai_clush.Protocol.Messages.Worker.{
  WorkerRegisterReq, worker_register_req_to_json, worker_register_req_from_json, WorkerRegisterResp,
  worker_register_resp_to_json, worker_register_resp_from_json, Heartbeat, heartbeat_to_json,
  heartbeat_from_json, HeartbeatResp, heartbeat_resp_to_json, heartbeat_resp_from_json,
  WorkerRemoveReq, worker_remove_req_to_json, worker_remove_req_from_json, WorkerOfflineNotify,
  worker_offline_notify_to_json, worker_offline_notify_from_json,
}

module _ (J : JsonLib) (L : JsonLaws J) where
  -- Reading the JSON that is written for a registration, whose numbers fit their C types, gives
  -- the same `WorkerRegisterReq` again, under the laws of the JSON library.
  pub worker_register_req_from_json-worker_register_req_to_json :
      (r : WorkerRegisterReq)
      → IsInt32 r.total_memory_mb
      → IsInt32 r.weight
      → worker_register_req_from_json J (worker_register_req_to_json J r) ≡ ok r
  unfolding worker_register_req_from_json worker_register_req_to_json find
  worker_register_req_from_json-worker_register_req_to_json r h1 h2 =
      >>=-ok _
        (at-object_get L "node_addr" _ J.get_string refl (L.get_string-from_string r.node_addr))
      ∙ >>=-ok _ (
          at-object_get L "support_models" _ J.get_strings refl
            (L.get_strings-from_strings r.support_models))
      ∙ >>=-ok _ (
          at-object_get L "total_memory_mb" _ J.get_int32 refl
            (L.get_int32-from_int32 r.total_memory_mb h1))
      ∙ >>=-ok _ (at-object_get L "weight" _ J.get_int32 refl (L.get_int32-from_int32 r.weight h2))

  -- Reading the JSON that is written for the answer to a registration gives the same
  -- `WorkerRegisterResp` again, under the laws of the JSON library.
  pub worker_register_resp_from_json-worker_register_resp_to_json :
      (r : WorkerRegisterResp)
      → worker_register_resp_from_json J (worker_register_resp_to_json J r) ≡ ok r
  unfolding worker_register_resp_from_json worker_register_resp_to_json find
  worker_register_resp_from_json-worker_register_resp_to_json r =
      >>=-ok _ (at-object_get L "success" _ J.get_bool refl (L.get_bool-from_bool r.success))
      ∙ >>=-ok _
          (at-object_get L "node_id" _ J.get_string refl (L.get_string-from_string r.node_id))
      ∙ >>=-ok _
          (at-object_get L "message" _ J.get_string refl (L.get_string-from_string r.message))

  -- Reading the JSON that is written for a heartbeat, whose numbers fit their C types, gives the
  -- same `Heartbeat` again, under the laws of the JSON library.
  pub heartbeat_from_json-heartbeat_to_json :
      (r : Heartbeat)
      → IsInt32 r.available_memory_mb
      → heartbeat_from_json J (heartbeat_to_json J r) ≡ ok r
  unfolding heartbeat_from_json heartbeat_to_json find
  heartbeat_from_json-heartbeat_to_json r h1 =
      >>=-ok _ (at-object_get L "node_id" _ J.get_string refl (L.get_string-from_string r.node_id))
      ∙ >>=-ok _ (
          at-object_get L "available_memory_mb" _ J.get_int32 refl
            (L.get_int32-from_int32 r.available_memory_mb h1))
      ∙ >>=-ok _ (
          at-object_get L "online_models" _ J.get_strings refl
            (L.get_strings-from_strings r.online_models))

  -- Reading the JSON that is written for the answer to a heartbeat gives the same `HeartbeatResp`
  -- again, under the laws of the JSON library.
  pub heartbeat_resp_from_json-heartbeat_resp_to_json :
      (r : HeartbeatResp) → heartbeat_resp_from_json J (heartbeat_resp_to_json J r) ≡ ok r
  unfolding heartbeat_resp_from_json heartbeat_resp_to_json find
  heartbeat_resp_from_json-heartbeat_resp_to_json r =
      >>=-ok _ (at-object_get L "ack" _ J.get_bool refl (L.get_bool-from_bool r.ack))
      ∙ >>=-ok _
          (at-object_get L "message" _ J.get_string refl (L.get_string-from_string r.message))

  -- Reading the JSON that is written for a request to leave gives the same `WorkerRemoveReq`
  -- again, under the laws of the JSON library.
  pub worker_remove_req_from_json-worker_remove_req_to_json :
      (r : WorkerRemoveReq) → worker_remove_req_from_json J (worker_remove_req_to_json J r) ≡ ok r
  unfolding worker_remove_req_from_json worker_remove_req_to_json find
  worker_remove_req_from_json-worker_remove_req_to_json r =
      >>=-ok _ (at-object_get L "node_id" _ J.get_string refl (L.get_string-from_string r.node_id))

  -- Reading the JSON that is written for the notice that a node is gone gives the same
  -- `WorkerOfflineNotify` again, under the laws of the JSON library.
  pub worker_offline_notify_from_json-worker_offline_notify_to_json :
      (r : WorkerOfflineNotify)
      → worker_offline_notify_from_json J (worker_offline_notify_to_json J r) ≡ ok r
  unfolding worker_offline_notify_from_json worker_offline_notify_to_json find
  worker_offline_notify_from_json-worker_offline_notify_to_json r =
      >>=-ok _ (at-object_get L "node_id" _ J.get_string refl (L.get_string-from_string r.node_id))
      ∙ >>=-ok _ (
          at-object_get L "running_tasks" _ J.get_strings refl
            (L.get_strings-from_strings r.running_tasks))
