-- ===== src/Protocol/Messages/Worker.antt =====
-- The messages of AiDist/1 protocol.h on registration, heartbeat and leave, each with `to_json` and `from_json`.
pub mod RoundTrip
use turbo_core_dist_ai_clush.Prelude.{ℕ, Bool, List, [], ◌∷◌, String}
use turbo_core_dist_ai_clush.Prelude.Int.{ℤ}
use turbo_core_dist_ai_clush.Prelude.Result.{Result, ok, ◌>>=◌}
use turbo_core_dist_ai_clush.Protocol.Json.{JsonLib}

pub record WorkerRegisterReq : Type 0 where
  pub node_addr : String
  pub support_models : List String
  pub total_memory_mb : ℤ
  pub weight : ℤ

pub record WorkerRegisterResp : Type 0 where
  pub success : Bool
  pub node_id : String
  pub message : String

pub record Heartbeat : Type 0 where
  pub node_id : String
  pub available_memory_mb : ℤ
  pub online_models : List String

pub record HeartbeatResp : Type 0 where
  pub ack : Bool
  pub message : String

pub record WorkerRemoveReq : Type 0 where
  pub node_id : String

pub record WorkerOfflineNotify : Type 0 where
  pub node_id : String
  pub running_tasks : List String

module _ (J : JsonLib) where
  open J use {
    Json, object, at, from_bool, from_int32, from_string, from_strings, get_bool, get_int32,
    get_string, get_strings,
  }

  unfoldable pub worker_register_req_to_json : WorkerRegisterReq → Json
  worker_register_req_to_json r = object (
      ("node_addr", from_string r.node_addr)
      ∷ ("support_models", from_strings r.support_models)
      ∷ ("total_memory_mb", from_int32 r.total_memory_mb)
      ∷ ("weight", from_int32 r.weight)
      ∷ [])

  unfoldable pub worker_register_req_from_json : Json → Result WorkerRegisterReq
  worker_register_req_from_json j = do
    node_addr ← at j "node_addr" >>= get_string
    support_models ← at j "support_models" >>= get_strings
    total_memory_mb ← at j "total_memory_mb" >>= get_int32
    weight ← at j "weight" >>= get_int32
    ok (record {
      node_addr = node_addr;
      support_models = support_models;
      total_memory_mb = total_memory_mb;
      weight = weight;
    })

  unfoldable pub worker_register_resp_to_json : WorkerRegisterResp → Json
  worker_register_resp_to_json r = object (
      ("success", from_bool r.success)
      ∷ ("node_id", from_string r.node_id)
      ∷ ("message", from_string r.message)
      ∷ [])

  unfoldable pub worker_register_resp_from_json : Json → Result WorkerRegisterResp
  worker_register_resp_from_json j = do
    success ← at j "success" >>= get_bool
    node_id ← at j "node_id" >>= get_string
    message ← at j "message" >>= get_string
    ok (record { success = success; node_id = node_id; message = message })

  unfoldable pub heartbeat_to_json : Heartbeat → Json
  heartbeat_to_json r = object (
      ("node_id", from_string r.node_id)
      ∷ ("available_memory_mb", from_int32 r.available_memory_mb)
      ∷ ("online_models", from_strings r.online_models)
      ∷ [])

  unfoldable pub heartbeat_from_json : Json → Result Heartbeat
  heartbeat_from_json j = do
    node_id ← at j "node_id" >>= get_string
    available_memory_mb ← at j "available_memory_mb" >>= get_int32
    online_models ← at j "online_models" >>= get_strings
    ok (record {
      node_id = node_id;
      available_memory_mb = available_memory_mb;
      online_models = online_models;
    })

  unfoldable pub heartbeat_resp_to_json : HeartbeatResp → Json
  heartbeat_resp_to_json r =
      object (("ack", from_bool r.ack) ∷ ("message", from_string r.message) ∷ [])

  unfoldable pub heartbeat_resp_from_json : Json → Result HeartbeatResp
  heartbeat_resp_from_json j = do
    ack ← at j "ack" >>= get_bool
    message ← at j "message" >>= get_string
    ok (record { ack = ack; message = message })

  unfoldable pub worker_remove_req_to_json : WorkerRemoveReq → Json
  worker_remove_req_to_json r = object (("node_id", from_string r.node_id) ∷ [])

  unfoldable pub worker_remove_req_from_json : Json → Result WorkerRemoveReq
  worker_remove_req_from_json j = do
    node_id ← at j "node_id" >>= get_string
    ok (record { node_id = node_id })

  unfoldable pub worker_offline_notify_to_json : WorkerOfflineNotify → Json
  worker_offline_notify_to_json r =
      object
        (("node_id", from_string r.node_id) ∷ ("running_tasks", from_strings r.running_tasks) ∷ [])

  unfoldable pub worker_offline_notify_from_json : Json → Result WorkerOfflineNotify
  worker_offline_notify_from_json j = do
    node_id ← at j "node_id" >>= get_string
    running_tasks ← at j "running_tasks" >>= get_strings
    ok (record { node_id = node_id; running_tasks = running_tasks })
