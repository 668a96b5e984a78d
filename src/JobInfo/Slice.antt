-- ===== src/JobInfo/Slice.antt =====
-- `TaskSlice::to_json` and `TaskSlice::from_json` of AiDist/6 JobInfo.h.
use turbo_core_dist_ai_clush.Prelude.{◌≡◌, refl, ap, ◌∙◌, [], ◌∷◌, get_or}
use turbo_core_dist_ai_clush.Prelude.Int.{ℤ, pos, negsuc, IsInt32}
use turbo_core_dist_ai_clush.Prelude.Result.{Result, ok, ◌>>=◌, >>=-ok}
use turbo_core_dist_ai_clush.Prelude.Dict.{find}
use turbo_core_dist_ai_clush.Protocol.Json.{JsonLib, JsonLaws, at-object_get}
use turbo_core_dist_ai_clush.JobInfo.{TaskSlice, SliceStatus}

-- `(int)status`
unfoldable slice_status_to_int : SliceStatus → ℤ
slice_status_to_int SliceStatus.pending = pos 0
slice_status_to_int SliceStatus.running = pos 1
slice_status_to_int SliceStatus.finished = pos 2
slice_status_to_int SliceStatus.failed = pos 3
slice_status_to_int (SliceStatus.unnamed z) = z

-- `static_cast<SliceStatus>(n)`
unfoldable slice_status_of_int : ℤ → SliceStatus
slice_status_of_int (pos n) =
    get_or
      (SliceStatus.pending ∷ SliceStatus.running ∷ SliceStatus.finished ∷ SliceStatus.failed ∷ []) n
      (SliceStatus.unnamed (pos n))
slice_status_of_int (negsuc n) = SliceStatus.unnamed (negsuc n)

module _ (J : JsonLib) where
  open J use {
    Json, object, at, from_int32, from_string, from_strings, get_int32, get_string, get_strings,
  }

  unfoldable task_slice_to_json : TaskSlice → Json
  task_slice_to_json s = object (
      ("job_id", from_string s.job_id)
      ∷ ("slice_id", from_int32 s.slice_id)
      ∷ ("input_range", from_string s.input_range)
      ∷ ("inputs", from_strings s.inputs)
      ∷ ("assigned_node_id", from_string s.assigned_node_id)
      ∷ ("status", from_int32 (slice_status_to_int s.status))
      ∷ ("result_url", from_string s.result_url)
      ∷ ("error_message", from_string s.error_message)
      ∷ ("retry_count", from_int32 s.retry_count)
      ∷ [])

  unfoldable task_slice_from_json : Json → Result TaskSlice
  task_slice_from_json j = do
    job_id ← at j "job_id" >>= get_string
    slice_id ← at j "slice_id" >>= get_int32
    input_range ← at j "input_range" >>= get_string
    inputs ← at j "inputs" >>= get_strings
    assigned_node_id ← at j "assigned_node_id" >>= get_string
    status ← at j "status" >>= get_int32
    result_url ← at j "result_url" >>= get_string
    error_message ← at j "error_message" >>= get_string
    retry_count ← at j "retry_count" >>= get_int32
    ok (record {
      job_id = job_id;
      slice_id = slice_id;
      input_range = input_range;
      inputs = inputs;
      assigned_node_id = assigned_node_id;
      status = slice_status_of_int status;
      result_url = result_url;
      error_message = error_message;
      retry_count = retry_count;
    })

module _ (J : JsonLib) (L : JsonLaws J) where
  -- Reading the JSON that is written for a slice, whose numbers fit their C types and whose status
  -- is a value of its enumeration, gives the same `TaskSlice` again, under the laws of the JSON
  -- library.
  task_slice_from_json-task_slice_to_json :
      (s : TaskSlice)
      → IsInt32 s.slice_id
      → IsInt32 (slice_status_to_int s.status)
      → slice_status_of_int (slice_status_to_int s.status) ≡ s.status
      → IsInt32 s.retry_count
      → task_slice_from_json J (task_slice_to_json J s) ≡ ok s
  unfolding task_slice_from_json task_slice_to_json find
  task_slice_from_json-task_slice_to_json s h1 h2 h3 h4 =
      >>=-ok _ (at-object_get L "job_id" _ J.get_string refl (L.get_string-from_string s.job_id))
      ∙ >>=-ok _
          (at-object_get L "slice_id" _ J.get_int32 refl (L.get_int32-from_int32 s.slice_id h1))
      ∙ >>=-ok _ (
          at-object_get L "input_range" _ J.get_string refl
            (L.get_string-from_string s.input_range))
      ∙ >>=-ok _
          (at-object_get L "inputs" _ J.get_strings refl (L.get_strings-from_strings s.inputs))
      ∙ >>=-ok _ (
          at-object_get L "assigned_node_id" _ J.get_string refl
            (L.get_string-from_string s.assigned_node_id))
      ∙ >>=-ok _ (at-object_get L "status" _ J.get_int32 refl (L.get_int32-from_int32 _ h2))
      ∙ >>=-ok _
          (at-object_get L "result_url" _ J.get_string refl (L.get_string-from_string s.result_url))
      ∙ >>=-ok _ (
          at-object_get L "error_message" _ J.get_string refl
            (L.get_string-from_string s.error_message))
      ∙ >>=-ok _ (
          at-object_get L "retry_count" _ J.get_int32 refl
            (L.get_int32-from_int32 s.retry_count h4))
      ∙ ap (λ t. ok (record s { status = t })) h3
