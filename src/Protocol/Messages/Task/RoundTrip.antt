-- ===== src/Protocol/Messages/Task/RoundTrip.antt =====
-- `from_json` of what `to_json` makes of the messages on submission, dispatch and results.
use turbo_core_dist_ai_clush.Prelude.{◌≡◌, refl, ◌∙◌}
use turbo_core_dist_ai_clush.Prelude.Int.{IsInt32}
use turbo_core_dist_ai_clush.Prelude.Result.{ok, >>=-ok}
use turbo_core_dist_ai_clush.Prelude.Dict.{find}
use turbo_core_dist_ai_clush.Protocol.Json.{JsonLib, JsonLaws, at-object_get}
use turbo_core_dist_ai_clush.Protocol.Messages.Task.{
  SubmitTaskReq, submit_task_req_to_json, submit_task_req_from_json, SubmitTaskResp,
  submit_task_resp_to_json, submit_task_resp_from_json, TaskDispatch, task_dispatch_to_json,
  task_dispatch_from_json, TaskResultReport, task_result_report_to_json,
  task_result_report_from_json,
}

module _ (J : JsonLib) (L : JsonLaws J) where
  -- Reading the JSON that is written for a submission, whose numbers fit their C types, gives the
  -- same `SubmitTaskReq` again, under the laws of the JSON library.
  pub submit_task_req_from_json-submit_task_req_to_json :
      (r : SubmitTaskReq)
      → IsInt32 r.slice_size
      → submit_task_req_from_json J (submit_task_req_to_json J r) ≡ ok r
  unfolding submit_task_req_from_json submit_task_req_to_json find
  submit_task_req_from_json-submit_task_req_to_json r h1 =
      >>=-ok _
        (at-object_get L "model_name" _ J.get_string refl (L.get_string-from_string r.model_name))
      ∙ >>=-ok _
          (at-object_get L "slice_size" _ J.get_int32 refl (L.get_int32-from_int32 r.slice_size h1))
      ∙ >>=-ok _ (
          at-object_get L "input_file_url" _ J.get_string refl
            (L.get_string-from_string r.input_file_url))

  -- Reading the JSON that is written for the answer to a submission gives the same
  -- `SubmitTaskResp` again, under the laws of the JSON library.
  pub submit_task_resp_from_json-submit_task_resp_to_json :
      (r : SubmitTaskResp) → submit_task_resp_from_json J (submit_task_resp_to_json J r) ≡ ok r
  unfolding submit_task_resp_from_json submit_task_resp_to_json find
  submit_task_resp_from_json-submit_task_resp_to_json r =
      >>=-ok _ (at-object_get L "success" _ J.get_bool refl (L.get_bool-from_bool r.success))
      ∙ >>=-ok _
          (at-object_get L "task_id" _ J.get_string refl (L.get_string-from_string r.task_id))
      ∙ >>=-ok _
          (at-object_get L "message" _ J.get_string refl (L.get_string-from_string r.message))

  -- Reading the JSON that is written for a slice that is sent to a worker, whose numbers fit
  -- their C types, gives the same `TaskDispatch` again, under the laws of the JSON library.
  pub task_dispatch_from_json-task_dispatch_to_json :
      (r : TaskDispatch)
      → IsInt32 r.slice_id
      → IsInt32 r.scheduler_port
      → task_dispatch_from_json J (task_dispatch_to_json J r) ≡ ok r
  unfolding task_dispatch_from_json task_dispatch_to_json find
  task_dispatch_from_json-task_dispatch_to_json r h1 h2 =
      >>=-ok _ (at-object_get L "task_id" _ J.get_string refl (L.get_string-from_string r.task_id))
      ∙ >>=-ok _
          (at-object_get L "slice_id" _ J.get_int32 refl (L.get_int32-from_int32 r.slice_id h1))
      ∙ >>=-ok _
          (at-object_get L "model_name" _ J.get_string refl (L.get_string-from_string r.model_name))
      ∙ >>=-ok _
          (at-object_get L "inputs" _ J.get_strings refl (L.get_strings-from_strings r.inputs))
      ∙ >>=-ok _ (
          at-object_get L "scheduler_ip" _ J.get_string refl
            (L.get_string-from_string r.scheduler_ip))
      ∙ >>=-ok _ (
          at-object_get L "scheduler_port" _ J.get_int32 refl
            (L.get_int32-from_int32 r.scheduler_port h2))

  -- Reading the JSON that is written for the result of a slice, whose numbers fit their C types,
  -- gives the same `TaskResultReport` again, under the laws of the JSON library.
  pub task_result_report_from_json-task_result_report_to_json :
      (r : TaskResultReport)
      → IsInt32 r.slice_id
      → IsInt32 r.cost_ms
      → IsInt32 r.scheduler_port
      → task_result_report_from_json J (task_result_report_to_json J r) ≡ ok r
  unfolding task_result_report_from_json task_result_report_to_json find
  task_result_report_from_json-task_result_report_to_json r h1 h2 h3 =
      >>=-ok _ (at-object_get L "task_id" _ J.get_string refl (L.get_string-from_string r.task_id))
      ∙ >>=-ok _
          (at-object_get L "slice_id" _ J.get_int32 refl (L.get_int32-from_int32 r.slice_id h1))
      ∙ >>=-ok _ (at-object_get L "success" _ J.get_bool refl (L.get_bool-from_bool r.success))
      ∙ >>=-ok _
          (at-object_get L "message" _ J.get_string refl (L.get_string-from_string r.message))
      ∙ >>=-ok _
          (at-object_get L "cost_ms" _ J.get_int32 refl (L.get_int32-from_int32 r.cost_ms h2))
      ∙ >>=-ok _
          (at-object_get L "outputs" _ J.get_strings refl (L.get_strings-from_strings r.outputs))
      ∙ >>=-ok _ (
          at-object_get L "scheduler_ip" _ J.get_string refl
            (L.get_string-from_string r.scheduler_ip))
      ∙ >>=-ok _ (
          at-object_get L "scheduler_port" _ J.get_int32 refl
            (L.get_int32-from_int32 r.scheduler_port h3))
