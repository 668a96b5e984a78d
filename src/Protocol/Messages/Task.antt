-- ===== src/Protocol/Messages/Task.antt =====
-- The messages of AiDist/1 protocol.h on submission, dispatch and results, each with `to_json` and `from_json`.
pub mod RoundTrip
use turbo_core_dist_ai_clush.Prelude.{ℕ, Bool, List, [], ◌∷◌, String}
use turbo_core_dist_ai_clush.Prelude.Int.{ℤ}
use turbo_core_dist_ai_clush.Prelude.Result.{Result, ok, ◌>>=◌}
use turbo_core_dist_ai_clush.Protocol.Json.{JsonLib}

pub record SubmitTaskReq : Type 0 where
  pub model_name : String
  pub slice_size : ℤ
  pub input_file_url : String

pub record SubmitTaskResp : Type 0 where
  pub success : Bool
  pub task_id : String
  pub message : String

pub record TaskDispatch : Type 0 where
  pub task_id : String
  pub slice_id : ℤ
  pub model_name : String
  pub inputs : List String
  pub scheduler_ip : String
  pub scheduler_port : ℤ

pub record TaskResultReport : Type 0 where
  pub task_id : String
  pub slice_id : ℤ
  pub success : Bool
  pub message : String
  pub cost_ms : ℤ
  pub outputs : List String
  pub scheduler_ip : String
  pub scheduler_port : ℤ

module _ (J : JsonLib) where
  open J use {
    Json, object, at, from_bool, from_int32, from_string, from_strings, get_bool, get_int32,
    get_string, get_strings,
  }

  unfoldable pub submit_task_req_to_json : SubmitTaskReq → Json
  submit_task_req_to_json r = object (
      ("model_name", from_string r.model_name)
      ∷ ("slice_size", from_int32 r.slice_size)
      ∷ ("input_file_url", from_string r.input_file_url)
      ∷ [])

  unfoldable pub submit_task_req_from_json : Json → Result SubmitTaskReq
  submit_task_req_from_json j = do
    model_name ← at j "model_name" >>= get_string
    slice_size ← at j "slice_size" >>= get_int32
    input_file_url ← at j "input_file_url" >>= get_string
    ok (record {
      model_name = model_name;
      slice_size = slice_size;
      input_file_url = input_file_url;
    })

  unfoldable pub submit_task_resp_to_json : SubmitTaskResp → Json
  submit_task_resp_to_json r = object (
      ("success", from_bool r.success)
      ∷ ("task_id", from_string r.task_id)
      ∷ ("message", from_string r.message)
      ∷ [])

  unfoldable pub submit_task_resp_from_json : Json → Result SubmitTaskResp
  submit_task_resp_from_json j = do
    success ← at j "success" >>= get_bool
    task_id ← at j "task_id" >>= get_string
    message ← at j "message" >>= get_string
    ok (record { success = success; task_id = task_id; message = message })

  unfoldable pub task_dispatch_to_json : TaskDispatch → Json
  task_dispatch_to_json r = object (
      ("task_id", from_string r.task_id)
      ∷ ("slice_id", from_int32 r.slice_id)
      ∷ ("model_name", from_string r.model_name)
      ∷ ("inputs", from_strings r.inputs)
      ∷ ("scheduler_ip", from_string r.scheduler_ip)
      ∷ ("scheduler_port", from_int32 r.scheduler_port)
      ∷ [])

  unfoldable pub task_dispatch_from_json : Json → Result TaskDispatch
  task_dispatch_from_json j = do
    task_id ← at j "task_id" >>= get_string
    slice_id ← at j "slice_id" >>= get_int32
    model_name ← at j "model_name" >>= get_string
    inputs ← at j "inputs" >>= get_strings
    scheduler_ip ← at j "scheduler_ip" >>= get_string
    scheduler_port ← at j "scheduler_port" >>= get_int32
    ok (record {
      task_id = task_id;
      slice_id = slice_id;
      model_name = model_name;
      inputs = inputs;
      scheduler_ip = scheduler_ip;
      scheduler_port = scheduler_port;
    })

  unfoldable pub task_result_report_to_json : TaskResultReport → Json
  task_result_report_to_json r = object (
      ("task_id", from_string r.task_id)
      ∷ ("slice_id", from_int32 r.slice_id)
      ∷ ("success", from_bool r.success)
      ∷ ("message", from_string r.message)
      ∷ ("cost_ms", from_int32 r.cost_ms)
      ∷ ("outputs", from_strings r.outputs)
      ∷ ("scheduler_ip", from_string r.scheduler_ip)
      ∷ ("scheduler_port", from_int32 r.scheduler_port)
      ∷ [])

  unfoldable pub task_result_report_from_json : Json → Result TaskResultReport
  task_result_report_from_json j = do
    task_id ← at j "task_id" >>= get_string
    slice_id ← at j "slice_id" >>= get_int32
    success ← at j "success" >>= get_bool
    message ← at j "message" >>= get_string
    cost_ms ← at j "cost_ms" >>= get_int32
    outputs ← at j "outputs" >>= get_strings
    scheduler_ip ← at j "scheduler_ip" >>= get_string
    scheduler_port ← at j "scheduler_port" >>= get_int32
    ok (record {
      task_id = task_id;
      slice_id = slice_id;
      success = success;
      message = message;
      cost_ms = cost_ms;
      outputs = outputs;
      scheduler_ip = scheduler_ip;
      scheduler_port = scheduler_port;
    })
