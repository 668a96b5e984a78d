-- ===== src/Protocol/Messages/Query.antt =====
-- The messages of AiDist/1 protocol.h on queries and errors, each with `to_json` and `from_json`.
pub mod RoundTrip
use turbo_core_dist_ai_clush.Prelude.{ℕ, Bool, List, [], ◌∷◌, String}
use turbo_core_dist_ai_clush.Prelude.Int.{ℤ}
use turbo_core_dist_ai_clush.Prelude.Result.{Result, ok, ◌>>=◌}
use turbo_core_dist_ai_clush.Protocol.Json.{JsonLib}
use turbo_core_dist_ai_clush.Protocol.Types.{TaskStatus, task_status_to_int, task_status_of_int}

pub record TaskQueryReq : Type 0 where
  pub task_id : String

pub record TaskQueryResp : Type 0 where
  pub exists : Bool
  pub status : TaskStatus
  pub total_slices : ℤ
  pub finished_slices : ℤ
  pub progress_percent : ℤ
  pub result_file_url : String
  pub message : String

pub record NodeQueryReq : Type 0 where
  pub model_name : String

pub record ErrorResp : Type 0 where
  pub req_seq : ℕ
  pub code : ℤ
  pub message : String

module _ (J : JsonLib) where
  open J use {
    Json, object, at, from_bool, from_int32, from_string, from_uint64, get_bool, get_int32,
    get_string, get_uint64,
  }

  unfoldable pub task_query_req_to_json : TaskQueryReq → Json
  task_query_req_to_json r = object (("task_id", from_string r.task_id) ∷ [])

  unfoldable pub task_query_req_from_json : Json → Result TaskQueryReq
  task_query_req_from_json j = do
    task_id ← at j "task_id" >>= get_string
    ok (record { task_id = task_id })

  unfoldable pub task_query_resp_to_json : TaskQueryResp → Json
  task_query_resp_to_json r = object (
      ("exists", from_bool r.exists)
      ∷ ("status", from_int32 (task_status_to_int r.status))
      ∷ ("total_slices", from_int32 r.total_slices)
      ∷ ("finished_slices", from_int32 r.finished_slices)
      ∷ ("progress_percent", from_int32 r.progress_percent)
      ∷ ("result_file_url", from_string r.result_file_url)
      ∷ ("message", from_string r.message)
      ∷ [])

  unfoldable pub task_query_resp_from_json : Json → Result TaskQueryResp
  task_query_resp_from_json j = do
    exists ← at j "exists" >>= get_bool
    status ← at j "status" >>= get_int32
    total_slices ← at j "total_slices" >>= get_int32
    finished_slices ← at j "finished_slices" >>= get_int32
    progress_percent ← at j "progress_percent" >>= get_int32
    result_file_url ← at j "result_file_url" >>= get_string
    message ← at j "message" >>= get_string
    ok (record {
      exists = exists;
      status = task_status_of_int status;
      total_slices = total_slices;
      finished_slices = finished_slices;
      progress_percent = progress_percent;
      result_file_url = result_file_url;
      message = message;
    })

  unfoldable pub node_query_req_to_json : NodeQueryReq → Json
  node_query_req_to_json r = object (("model_name", from_string r.model_name) ∷ [])

  unfoldable pub node_query_req_from_json : Json → Result NodeQueryReq
  node_query_req_from_json j = do
    model_name ← at j "model_name" >>= get_string
    ok (record { model_name = model_name })

  unfoldable pub error_resp_to_json : ErrorResp → Json
  error_resp_to_json r = object (
      ("req_seq", from_uint64 r.req_seq)
      ∷ ("code", from_int32 r.code)
      ∷ ("message", from_string r.message)
      ∷ [])

  unfoldable pub error_resp_from_json : Json → Result ErrorResp
  error_resp_from_json j = do
    req_seq ← at j "req_seq" >>= get_uint64
    code ← at j "code" >>= get_int32
    message ← at j "message" >>= get_string
    ok (record { req_seq = req_seq; code = code; message = message })
