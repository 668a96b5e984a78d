-- ===== src/Protocol/Messages/Query/RoundTrip.antt =====
-- `from_json` of what `to_json` makes of the messages on queries and errors.
use turbo_core_dist_ai_clush.Prelude.{◌<◌, ◌^◌, ◌≡◌, refl, ap, ◌∙◌}
use turbo_core_dist_ai_clush.Prelude.Int.{IsInt32}
use turbo_core_dist_ai_clush.Prelude.Result.{ok, >>=-ok}
use turbo_core_dist_ai_clush.Prelude.Dict.{find}
use turbo_core_dist_ai_clush.Protocol.Json.{JsonLib, JsonLaws, at-object_get}
use turbo_core_dist_ai_clush.Protocol.Types.{task_status_to_int, IsTaskStatus}
use turbo_core_dist_ai_clush.Protocol.Messages.Query.{
  TaskQueryReq, task_query_req_to_json, task_query_req_from_json, TaskQueryResp,
  task_query_resp_to_json, task_query_resp_from_json, NodeQueryReq, node_query_req_to_json,
  node_query_req_from_json, ErrorResp, error_resp_to_json, error_resp_from_json,
}

module _ (J : JsonLib) (L : JsonLaws J) where
  -- Reading the JSON that is written for the query of a task gives the same `TaskQueryReq` again,
  -- under the laws of the JSON library.
  pub task_query_req_from_json-task_query_req_to_json :
      (r : TaskQueryReq) → task_query_req_from_json J (task_query_req_to_json J r) ≡ ok r
  unfolding task_query_req_from_json task_query_req_to_json find
  task_query_req_from_json-task_query_req_to_json r =
      >>=-ok _ (at-object_get L "task_id" _ J.get_string refl (L.get_string-from_string r.task_id))

  -- Reading the JSON that is written for the answer to the query of a task, whose numbers fit
  -- their C types and whose status is a value of its enumeration, gives the same `TaskQueryResp`
  -- again, under the laws of the JSON library.
  pub task_query_resp_from_json-task_query_resp_to_json :
      (r : TaskQueryResp)
      → IsInt32 (task_status_to_int r.status)
      → IsTaskStatus r.status
      → IsInt32 r.total_slices
      → IsInt32 r.finished_slices
      → IsInt32 r.progress_percent
      → task_query_resp_from_json J (task_query_resp_to_json J r) ≡ ok r
  unfolding task_query_resp_from_json task_query_resp_to_json find
  task_query_resp_from_json-task_query_resp_to_json r h1 h2 h3 h4 h5 =
      >>=-ok _ (at-object_get L "exists" _ J.get_bool refl (L.get_bool-from_bool r.exists))
      ∙ >>=-ok _ (at-object_get L "status" _ J.get_int32 refl (L.get_int32-from_int32 _ h1))
      ∙ >>=-ok _ (
          at-object_get L "total_slices" _ J.get_int32 refl
            (L.get_int32-from_int32 r.total_slices h3))
      ∙ >>=-ok _ (
          at-object_get L "finished_slices" _ J.get_int32 refl
            (L.get_int32-from_int32 r.finished_slices h4))
      ∙ >>=-ok _ (
          at-object_get L "progress_percent" _ J.get_int32 refl
            (L.get_int32-from_int32 r.progress_percent h5))
      ∙ >>=-ok _ (
          at-object_get L "result_file_url" _ J.get_string refl
            (L.get_string-from_string r.result_file_url))
      ∙ >>=-ok _
          (at-object_get L "message" _ J.get_string refl (L.get_string-from_string r.message))
      ∙ ap (λ s. ok (record r { status = s })) h2

  -- Reading the JSON that is written for the query of nodes gives the same `NodeQueryReq` again,
  -- under the laws of the JSON library.
  pub node_query_req_from_json-node_query_req_to_json :
      (r : NodeQueryReq) → node_query_req_from_json J (node_query_req_to_json J r) ≡ ok r
  unfolding node_query_req_from_json node_query_req_to_json find
  node_query_req_from_json-node_query_req_to_json r =
      >>=-ok _
        (at-object_get L "model_name" _ J.get_string refl (L.get_string-from_string r.model_name))

  -- Reading the JSON that is written for an error, whose numbers fit their C types, gives the
  -- same `ErrorResp` again, under the laws of the JSON library.
  pub error_resp_from_json-error_resp_to_json :
      (r : ErrorResp)
      → r.req_seq < 2 ^ 64
      → IsInt32 r.code
      → error_resp_from_json J (error_resp_to_json J r) ≡ ok r
  unfolding error_resp_from_json error_resp_to_json find
  error_resp_from_json-error_resp_to_json r h1 h2 =
      >>=-ok _
        (at-object_get L "req_seq" _ J.get_uint64 refl (L.get_uint64-from_uint64 r.req_seq h1))
      ∙ >>=-ok _ (at-object_get L "code" _ J.get_int32 refl (L.get_int32-from_int32 r.code h2))
      ∙ >>=-ok _
          (at-object_get L "message" _ J.get_string refl (L.get_string-from_string r.message))
