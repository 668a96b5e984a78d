-- ===== src/Gateway/Routes.antt =====
-- The HTTP requests of AiDist/9. Gateway.cpp: `HandleHttpRequest`, its four handlers, and the routes
-- of `Start`. A response callback is a value; that it is called, with what status and text, is an
-- entry of a list.
pub mod Answers
use Prim.Native.String.{◌++◌ as join}
use text.Mathlib.Text.{◌==◌ as str_eq}
use turbo_core_dist_ai_clush.Prelude.{
  ℕ, Bool, true, false, List, [], ◌∷◌, String, Option, none, some, if◌then◌else◌,
}
use turbo_core_dist_ai_clush.Prelude.Int.{ℤ, pos}
use turbo_core_dist_ai_clush.Prelude.Result.{Result, ok, throws, ◌>>=◌}
use turbo_core_dist_ai_clush.Protocol.Header.{TransportHeader}
use turbo_core_dist_ai_clush.Protocol.Types.{PacketType}
use turbo_core_dist_ai_clush.Protocol.Json.{JsonLib}
use turbo_core_dist_ai_clush.Protocol.Packet.{AiSchedulePacket, build}
use turbo_core_dist_ai_clush.Protocol.Messages.Task.{SubmitTaskReq, submit_task_req_to_json}
use turbo_core_dist_ai_clush.Protocol.Messages.Query.{
  task_query_req_to_json, node_query_req_to_json,
}
use turbo_core_dist_ai_clush.Gateway.{Gateway, Backend, Forwarded, error_body, forward_to_backend}

pub record GatewayHttpRequest (Json : Type 0) : Type 0 where
  pub path : String
  pub method : String
  pub body : Json

-- What a handler leaves: the pending requests, the response callbacks that it called with status and
-- text, what it sent to which backend, and the exception that left it, if any.
pub record Routed (Callback : Type 0) : Type 0 where
  pub gateway : Gateway Callback
  pub answers : List (Callback × ℤ × List ℕ)
  pub sent : Option (String × List ℕ)
  pub thrown : Option String

-- `std::find_if` over the backends
unfoldable pub find_backend : String → List Backend → Option Backend
find_backend name [] = none
find_backend name (b ∷ bs) = if str_eq b.service_name name then some b else find_backend name bs

abbrev pub named {ℓ} : {A : Type ℓ} → String → Option A → Option (String × A)
named name none = none
named name (some bytes) = some (name, bytes)

module _ (J : JsonLib) where
  open J use {Json, at, has_key, get_string, get_int32}

  -- The `try` block of `HandleSubmitTask`.
  unfoldable pub read_submit_req : Json → Result SubmitTaskReq
  read_submit_req body = do
    model_name ← at body "model_name" >>= get_string
    input_file_url ← at body "input_file_url" >>= get_string
    slice_size ←
        if has_key body "slice_size" then at body "slice_size" >>= get_int32 else ok (pos 0)
    ok (record {
      model_name = model_name;
      slice_size = slice_size;
      input_file_url = input_file_url;
    })

module _ (J : JsonLib) {Callback : Type 0} where
  open J use {Json, dump, parse, object, from_string, at, get_string}

  -- `resp_callback(code, body.dump())`
  unfoldable pub respond : Gateway Callback → Callback → ℤ → Json → Routed Callback
  respond g resp code body = elim (dump body) [
    | throws e ↦ record { gateway = g; answers = []; sent = none; thrown = some e }
    | ok text ↦ record {
      gateway = g;
      answers = (resp, code, text) ∷ [];
      sent = none;
      thrown = none;
    }
  ]

  -- `ForwardToBackend` with the callback that dumps the body.
  unfoldable pub relay : String → Forwarded Callback Json → Routed Callback
  relay name f = elim f.called [
    | [] ↦ record { gateway = f.gateway; answers = []; sent = named name f.sent; thrown = f.thrown }
    | (resp, code, body) ∷ more ↦ respond f.gateway resp code body
  ]

  unfoldable pub to_backend :
      Gateway Callback → List Backend → String → AiSchedulePacket Json → Callback → Routed Callback
  to_backend g backends name packet resp = elim (find_backend name backends) [
    | none ↦ respond g resp (pos 500) (error_body J (pos 500) (join name " backend not configured"))
    | some backend ↦ relay name (forward_to_backend J g backend packet resp)
  ]

  abbrev pub failed : Gateway Callback → String → Routed Callback
  failed g e = record { gateway = g; answers = []; sent = none; thrown = some e }

  -- The `catch` of the route of POST: what was called or sent before stays.
  unfoldable pub answer_exception : Callback → Routed Callback → Routed Callback
  answer_exception resp r = elim r.thrown [
    | none ↦ r
    | some e ↦
        respond r.gateway resp (pos 400) (error_body J (pos 400) (join "parse request failed: " e))
  ]

  module _ (unset : TransportHeader) (g : Gateway Callback) (backends : List Backend) where
    unfoldable pub handle_submit_task : GatewayHttpRequest Json → Callback → Routed Callback
    handle_submit_task req resp = elim (read_submit_req J req.body) [
      | throws e ↦ respond g resp (pos 400) (error_body J (pos 400) (join "invalid request: " e))
      | ok submit_req ↦
          to_backend g backends "scheduler"
            (build J 0 PacketType.submit_task "gateway" (submit_task_req_to_json J submit_req)
              unset)
            resp
    ]

    unfoldable pub handle_query_task : GatewayHttpRequest Json → Callback → Routed Callback
    handle_query_task req resp = elim (at req.body "task_id" >>= get_string) [
      | throws e ↦ failed g e
      | ok task_id ↦
          to_backend g backends "scheduler"
            (build J 0 PacketType.task_query "gateway"
              (task_query_req_to_json J (record { task_id = task_id })) unset)
            resp
    ]

    unfoldable pub handle_list_nodes : GatewayHttpRequest Json → Callback → Routed Callback
    handle_list_nodes req resp = elim (at req.body "model_name" >>= get_string) [
      | throws e ↦ failed g e
      | ok model_name ↦
          to_backend g backends "registry"
            (build J 0 PacketType.node_query "gateway"
              (node_query_req_to_json J (record { model_name = model_name })) unset)
            resp
    ]

    -- The body is a value that was default-constructed.
    unfoldable pub handle_list_jobs : GatewayHttpRequest Json → Callback → Routed Callback
    handle_list_jobs req resp =
        to_backend g backends "scheduler" (build J 0 PacketType.job_list_req "gateway" J.null unset)
          resp

    unfoldable pub handle_http_request : GatewayHttpRequest Json → Callback → Routed Callback
    handle_http_request req resp =
        if str_eq req.path "/api/v1/submit_task"
        then handle_submit_task req resp
        else if str_eq req.path "/api/v1/query_task"
        then handle_query_task req resp
        else if str_eq req.path "/api/v1/list_nodes"
        then handle_list_nodes req resp
        else if str_eq req.path "/api/v1/list_jobs"
        then handle_list_jobs req resp
        else respond g resp (pos 404) (error_body J (pos 404) "api not found")

    -- The routes of `Start`, from the text or the parameter that the HTTP library gives.
    unfoldable pub post_submit_task : List ℕ → Callback → Routed Callback
    post_submit_task text resp = answer_exception resp (elim (parse text) [
      | throws e ↦ failed g e
      | ok body ↦
          handle_http_request
            (record { path = "/api/v1/submit_task"; method = "POST"; body = body }) resp
    ])

    unfoldable pub get_query_task : String → Callback → Routed Callback
    get_query_task task_id resp =
        handle_http_request
          (record {
            path = "/api/v1/query_task";
            method = "GET";
            body = object (("task_id", from_string task_id) ∷ []);
          })
          resp

    unfoldable pub get_list_nodes : String → Callback → Routed Callback
    get_list_nodes model_name resp =
        handle_http_request
          (record {
            path = "/api/v1/list_nodes";
            method = "GET";
            body = object (("model_name", from_string model_name) ∷ []);
          })
          resp

    unfoldable pub get_list_jobs : Callback → Routed Callback
    get_list_jobs resp =
        handle_http_request (record { path = "/api/v1/list_jobs"; method = "GET"; body = J.null })
          resp
