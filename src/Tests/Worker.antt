-- ===== src/Tests/Worker.antt =====
-- AiDist/8. WorkerNode.cpp at concrete inputs.
use turbo_core_dist_ai_clush.Prelude.{
  ℕ, ◌≡◌, ◌≤◌, ◌<◌, refl, true, List, [], ◌∷◌, some, arith, length,
}
use turbo_core_dist_ai_clush.Prelude.Int.{pos}
use turbo_core_dist_ai_clush.Prelude.Size.{ok as gives}
use turbo_core_dist_ai_clush.Prelude.Result.{ok}
use turbo_core_dist_ai_clush.Parser.{new_parser}
use turbo_core_dist_ai_clush.Protocol.Header.{TransportHeader, serialize_to_bytes}
use turbo_core_dist_ai_clush.Protocol.Types.{PacketType, packet_type_to_int}
use turbo_core_dist_ai_clush.Protocol.Json.{JsonLib}
use turbo_core_dist_ai_clush.Protocol.Packet.{
  AiSchedulePacket, full_json, base_to_json, build, deserialize,
}
use turbo_core_dist_ai_clush.Protocol.Packet.RoundTrip.{frame}
use turbo_core_dist_ai_clush.Protocol.Messages.Worker
use turbo_core_dist_ai_clush.Protocol.Messages.Task.{
  TaskDispatch, TaskResultReport, task_dispatch_to_json, task_result_report_to_json,
  task_result_report_from_json,
}
use turbo_core_dist_ai_clush.Registry.Manager
use turbo_core_dist_ai_clush.Registry.Server
use turbo_core_dist_ai_clush.Registry.Server.{new_registry_server}
use text.Mathlib.Text.{◌==◌ as str_eq}
use turbo_core_dist_ai_clush.Worker.{
  WorkerNode, doing, reports, handle_packet, result_of, gives_bytes, to_uint16, shuts_down,
  deletes_client,
}
use turbo_core_dist_ai_clush.Worker.Handshake.{IsText, request, response}
use turbo_core_dist_ai_clush.Worker.Tasks.{report, handle_packet-dispatch}
use turbo_core_dist_ai_clush.Tests.JsonText.{Value, json_text, json_text-JsonLaws, write}

abbrev unset : TransportHeader
unset = record { magic = 0; version = 0; reserve = 0; body_len = 0; checksum = 0 }

abbrev w : WorkerNode
w = record {
  m_node_id = "";
  m_node_addr = "w";
  m_total_memory_mb = pos 16000;
  m_weight = pos 1;
  m_support_models = "m" ∷ [];
  m_available_memory_mb = pos 16000;
  m_parser = new_parser;
}

abbrev K : JsonLib
K = json_text []

-- The two documents of a registration at time 7, answered at time 9.
request_document : Value
unfolding build full_json base_to_json packet_type_to_int Worker.worker_register_req_to_json
request_document = full_json K (request K (json_text-JsonLaws []) unset w 7 (omega arith))

response_document : Value
unfolding build full_json base_to_json packet_type_to_int Worker.worker_register_resp_to_json
    Manager.new_node_id Manager.to_string
response_document = full_json K (
    response K (json_text-JsonLaws []) unset w 7 (omega arith) 8 9 3 (λ c. true)
      new_registry_server)

abbrev known : List Value
known = request_document ∷ response_document ∷ []

-- A task of two inputs for the scheduler at port 9000.
abbrev task : TaskDispatch
task = record {
  task_id = "t";
  slice_id = pos 2;
  model_name = "m";
  inputs = "a" ∷ "b" ∷ [];
  scheduler_ip = "10.0.0.1";
  scheduler_port = pos 9000;
}

report_document : Value
unfolding build full_json base_to_json packet_type_to_int task_result_report_to_json result_of
report_document = full_json K (report K (json_text-JsonLaws []) unset 5 7 task w)

abbrev reads : List Value
reads = report_document ∷ []

report-IsText :
    IsText
      (json_text reads)
      (json_text-JsonLaws reads)
      (report (json_text reads) (json_text-JsonLaws reads) unset 5 7 task w)
      (write report_document)
unfolding report_document build full_json base_to_json packet_type_to_int task_result_report_to_json
    result_of Manager.to_string
report-IsText = record { written = refl; read = refl; short = omega arith }

handle_packet-dispatch_example :
    let J = json_text reads in
    let text = write report_document in
    (handle_packet J unset 5 7
        (build J 4 PacketType.task_dispatch "s" (task_dispatch_to_json J task) unset)
        w
      ≡ gives (
          doing w (
            reports "10.0.0.1" 9000
              (gives_bytes (frame text) (length (frame text)) ∷ shuts_down ∷ deletes_client ∷ [])
            ∷ [])))
    × ((packet : AiSchedulePacket Value) × (r : TaskResultReport) × (deserialize J (frame text)
          ≡ some packet)
        × (packet.base_header.packet_type ≡ PacketType.task_result_report)
        × (task_result_report_from_json J packet.body ≡ ok r)
        × (r.task_id ≡ "t")
        × (r.slice_id ≡ pos 2)
        × (r.success ≡ true)
        × ((ms : ℕ) × (r.cost_ms ≡ pos ms) × (1000 ≤ ms) × (ms < 5000)))
unfolding serialize_to_bytes report_document Manager.to_string to_uint16
handle_packet-dispatch_example =
    handle_packet-dispatch (json_text reads) (json_text-JsonLaws reads) unset 5 7 task w 4 "s"
      (write report_document) (omega arith, omega arith) (omega arith, omega arith)
      (omega arith, omega arith) (omega arith) (omega arith) report-IsText (omega arith)
