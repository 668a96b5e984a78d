-- ===== src/Worker.antt =====
-- `WorkerNode` of AiDist/8 WorkerNode.h and AiDist/8. WorkerNode.cpp, over an abstract JSON library.
-- What it asks of its loop and of its clients is a list of actions, in order. `connected` tells
-- whether the registry's client has a connection that is connected; `ticks` is the clock's count.
pub mod Handshake
pub mod Tasks
pub mod Timing
use Prim.Native.String.{◌++◌ as join}
use text.Mathlib.Text.{◌==◌ as str_eq}
use turbo_core_dist_ai_clush.Prelude.{
  ℕ, ◌+◌, ◌-◌, ◌*◌, ◌%◌, ◌^◌, Bool, true, not, ◌&&◌, List, [], ◌∷◌, ◌++◌, String, Option, none,
  some, if◌then◌else◌, ◌==◌, length, ltb, leb, suc,
}
use turbo_core_dist_ai_clush.Prelude.Int.{ℤ, pos, negsuc, ◌+ℤ◌, ◌-ℤ◌, wrap_int32}
use turbo_core_dist_ai_clush.Prelude.Result.{ok, throws}
use turbo_core_dist_ai_clush.Prelude.Size.{Outcome, ok as gives, undefined, ◌>>=◌}
use turbo_core_dist_ai_clush.Parser.{PacketParser, new_parser, receive}
use turbo_core_dist_ai_clush.Registry.Manager.{to_string}
use turbo_core_dist_ai_clush.Protocol.Header.{TransportHeader}
use turbo_core_dist_ai_clush.Protocol.Types.{PacketType}
use turbo_core_dist_ai_clush.Protocol.Json.{JsonLib}
use turbo_core_dist_ai_clush.Protocol.Packet.{AiSchedulePacket, serialize, build}
use turbo_core_dist_ai_clush.Protocol.Messages.Worker.{
  WorkerRegisterReq, Heartbeat, worker_register_req_to_json, worker_register_resp_from_json,
  heartbeat_to_json, heartbeat_resp_from_json, worker_remove_req_to_json,
}
use turbo_core_dist_ai_clush.Protocol.Messages.Task.{
  TaskDispatch, TaskResultReport, task_dispatch_from_json, task_result_report_to_json,
}

pub record WorkerNode : Type 0 where
  pub m_node_id : String
  pub m_node_addr : String
  pub m_total_memory_mb : ℤ
  pub m_weight : ℤ
  pub m_support_models : List String
  pub m_available_memory_mb : ℤ
  pub m_parser : PacketParser

unfoldable pub new_worker_node : String → ℤ → ℤ → List String → WorkerNode
new_worker_node node_addr total_memory_mb weight support_models = record {
  m_node_id = "";
  m_node_addr = node_addr;
  m_total_memory_mb = total_memory_mb;
  m_weight = weight;
  m_support_models = support_models;
  m_available_memory_mb = total_memory_mb;
  m_parser = new_parser;
}

pub data Timer : Type 0 where
  heartbeat_task reconnect : Timer

-- What the connection callback of the client of `ReportResult` does once it is connected. `gives` is
-- `Send`, with the bytes at the pointer and the length.
pub data ReportCall : Type 0 where
  gives_bytes : List ℕ → ℕ → ReportCall
  shuts_down deletes_client : ReportCall

-- `sends` is `Send` on the registry's connection, with the bytes at the pointer and the length,
-- `delays` is `RunAfter` with its argument, and `reports` is the client that `ReportResult` makes for an
-- address and connects, with its callback.
pub data Action : Type 0 where
  sends : List ℕ → ℕ → Action
  connects disconnects : Action
  delays : ℕ → Timer → Action
  reports : String → ℕ → List ReportCall → Action

-- `(int)out_bytes.size()`, which `Send` takes as a `size_t`.
unfoldable pub int_as_size : ℕ → ℕ
int_as_size n = if ltb (n % 2 ^ 32) (2 ^ 31) then n % 2 ^ 32 else n % 2 ^ 32 + (2 ^ 64 - 2 ^ 32)

-- An `int32_t` as the `uint16_t` of `Address`.
unfoldable pub to_uint16 : ℤ → ℕ
to_uint16 (pos n) = n % 2 ^ 16
to_uint16 (negsuc n) = 2 ^ 16 - 1 - n % 2 ^ 16

-- What an operation leaves: the state, what it did, and the exception that left it, if any.
pub record Done : Type 0 where
  pub worker : WorkerNode
  pub did : List Action
  pub thrown : Option String

abbrev pub idle : WorkerNode → Done
idle w = record { worker = w; did = []; thrown = none }

abbrev pub doing : WorkerNode → List Action → Done
doing w actions = record { worker = w; did = actions; thrown = none }

-- Two operations in turn; an exception leaves out the second.
unfoldable pub and_then : Done → (WorkerNode → Done) → Done
and_then d next = elim d.thrown [
  | some e ↦ d
  | none ↦ record (next d.worker) { did = d.did ++ (next d.worker).did }
]

-- `int32_t` times 256, which is undefined where it overflows.
unfoldable pub times_256 : ℤ → Outcome ℤ
times_256 (pos n) = if ltb (n * 256) (2 ^ 31) then gives (pos (n * 256)) else undefined
times_256 (negsuc n) =
    if leb (suc n * 256) (2 ^ 31) then gives (negsuc (suc n * 256 - 1)) else undefined

-- `-=` and `+=` of an atomic integer wrap around.
abbrev pub take_memory : ℤ → WorkerNode → WorkerNode
take_memory used w = record w {
  m_available_memory_mb = wrap_int32 (w.m_available_memory_mb -ℤ used);
}

abbrev pub give_memory : ℤ → WorkerNode → WorkerNode
give_memory used w = record w {
  m_available_memory_mb = wrap_int32 (w.m_available_memory_mb +ℤ used);
}

abbrev pub int_to_string : ℤ → String
int_to_string (pos n) = to_string n
int_to_string (negsuc n) = join "-" (to_string (suc n))

-- `random` is what `std::rand()` returns.
abbrev pub simulate_ms : ℕ → ℕ
simulate_ms random = 1000 + random % 4000

unfoldable pub result_of : ℕ → TaskDispatch → TaskResultReport
result_of random task = record {
  task_id = task.task_id;
  slice_id = task.slice_id;
  success = true;
  message = "inference execute success";
  cost_ms = pos (simulate_ms random);
  outputs =
      join "simulate_result_" (join task.task_id (join "_slice_" (int_to_string task.slice_id)))
      ∷ [];
  scheduler_ip = task.scheduler_ip;
  scheduler_port = task.scheduler_port;
}

abbrev pub if_connected : Bool → List ℕ → List Action
if_connected connected out_bytes =
    if connected then sends out_bytes (int_as_size (length out_bytes)) ∷ [] else []

abbrev pub register_req : WorkerNode → WorkerRegisterReq
register_req w = record {
  node_addr = w.m_node_addr;
  support_models = w.m_support_models;
  total_memory_mb = w.m_total_memory_mb;
  weight = w.m_weight;
}

abbrev pub heartbeat_of : WorkerNode → Heartbeat
heartbeat_of w = record {
  node_id = w.m_node_id;
  available_memory_mb = w.m_available_memory_mb;
  online_models = w.m_support_models;
}

-- The models are not loaded yet: `LoadModels` only logs.
abbrev pub load_models : WorkerNode → WorkerNode
load_models w = w

unfoldable pub start : WorkerNode → Done
start w = doing (load_models w) (connects ∷ [])

unfoldable pub stop : WorkerNode → Done
stop w = doing w (disconnects ∷ [])

unfoldable pub on_registry_disconnected : WorkerNode → Done
on_registry_disconnected w = doing (record w { m_node_id = "" }) (delays (3 * 1000) reconnect ∷ [])

module _ (J : JsonLib) where
  open J use {Json}

  unfoldable pub handle_register_resp : AiSchedulePacket Json → WorkerNode → Done
  handle_register_resp packet w = elim (worker_register_resp_from_json J packet.body) [
    | throws e ↦ idle w
    | ok resp ↦ if resp.success then idle (record w { m_node_id = resp.node_id }) else idle w
  ]

  unfoldable pub handle_heartbeat_resp : AiSchedulePacket Json → WorkerNode → Done
  handle_heartbeat_resp packet w = elim (heartbeat_resp_from_json J packet.body) [
    | throws e ↦ idle w
    | ok resp ↦
        if not resp.ack then doing w (disconnects ∷ delays (3 * 1000) reconnect ∷ []) else idle w
  ]

module _ (J : JsonLib) (unset : TransportHeader) where
  open J use {Json}

  -- A packet of the node, and what is done with its bytes.
  unfoldable pub with_packet :
      WorkerNode → ℕ → PacketType → String → Json → (List ℕ → List Action) → Done
  with_packet w ticks type sender_id body actions =
      elim (serialize J (build J ticks type sender_id body unset) []) [
        | throws e ↦ record { worker = w; did = []; thrown = some e }
        | ok out_bytes ↦ doing w (actions out_bytes)
      ]

  unfoldable pub do_register : Bool → ℕ → WorkerNode → Done
  do_register connected ticks w =
      with_packet w ticks PacketType.register_worker w.m_node_addr
        (worker_register_req_to_json J (register_req w)) (if_connected connected)

  unfoldable pub send_heartbeat : Bool → ℕ → WorkerNode → Done
  send_heartbeat connected ticks w =
      if str_eq w.m_node_id ""
      then idle w
      else with_packet w ticks PacketType.heartbeat w.m_node_id
          (heartbeat_to_json J (heartbeat_of w)) (if_connected connected)

  unfoldable pub on_registry_connected : Bool → ℕ → WorkerNode → Done
  on_registry_connected connected ticks w =
      and_then (do_register connected ticks w)
        (λ x. doing x (delays (1 * 1000) heartbeat_task ∷ []))

  -- The callbacks of the timers.
  unfoldable pub on_timer : Bool → ℕ → Timer → WorkerNode → Done
  on_timer connected ticks heartbeat_task w =
      and_then (send_heartbeat connected ticks w)
        (λ x. doing x (delays (30 * 1000) heartbeat_task ∷ []))
  on_timer connected ticks reconnect w = doing w (connects ∷ [])

  -- The destructor, whose exceptions end the program.
  unfoldable pub destroy : Bool → ℕ → WorkerNode → Done
  destroy connected ticks w =
      if not (str_eq w.m_node_id "") && connected
      then with_packet w ticks PacketType.worker_remove w.m_node_id
          (worker_remove_req_to_json J (record { node_id = w.m_node_id }))
          (λ bytes. sends bytes (int_as_size (length bytes)) ∷ [])
      else idle w

  unfoldable pub report_result : ℕ → TaskResultReport → WorkerNode → Done
  report_result ticks result w =
      with_packet w ticks PacketType.task_result_report w.m_node_id
        (task_result_report_to_json J result)
        (λ bytes.
          reports result.scheduler_ip (to_uint16 result.scheduler_port)
            (gives_bytes bytes (int_as_size (length bytes)) ∷ shuts_down ∷ deletes_client ∷ [])
          ∷ [])

  unfoldable pub run_inference_task : ℕ → ℕ → TaskDispatch → WorkerNode → Outcome Done
  run_inference_task random ticks task w = do
    used_mem ← times_256 (wrap_int32 (pos (length task.inputs)))
    gives (
        report_result ticks (result_of random task) (give_memory used_mem (take_memory used_mem w)))

  unfoldable pub handle_dispatch : ℕ → ℕ → AiSchedulePacket Json → WorkerNode → Outcome Done
  handle_dispatch random ticks packet w = elim (task_dispatch_from_json J packet.body) [
    | throws e ↦ gives (idle w)
    | ok task ↦ run_inference_task random ticks task w
  ]

  unfoldable pub handle_packet : ℕ → ℕ → AiSchedulePacket Json → WorkerNode → Outcome Done
  handle_packet random ticks packet w = elim packet.base_header.packet_type [
    | PacketType.register_resp ↦ gives (handle_register_resp J packet w)
    | PacketType.heartbeat_resp ↦ gives (handle_heartbeat_resp J packet w)
    | PacketType.task_dispatch ↦ handle_dispatch random ticks packet w
    | _ ↦ gives (idle w)
  ]

  -- The loop over the packets of a message, each with the values that its handler reads.
  unfoldable pub handle_packets :
      (ℕ → ℕ) → (ℕ → ℕ) → ℕ → List (AiSchedulePacket Json) → WorkerNode → Outcome Done
  handle_packets random ticks i [] w = gives (idle w)
  handle_packets random ticks i (packet ∷ packets) w = do
    d ← handle_packet (random i) (ticks i) packet w
    elim d.thrown [
      | some e ↦ gives d
      | none ↦ do
        rest ← handle_packets random ticks (i + 1) packets d.worker
        gives (record rest { did = d.did ++ rest.did })
    ]

  -- `bytes` are those of the buffer, all of which are retrieved. The outer `none` is fuel of the
  -- parser that ran out, which does not happen.
  unfoldable pub on_message : (ℕ → ℕ) → (ℕ → ℕ) → List ℕ → WorkerNode → Option (Outcome Done)
  on_message random ticks bytes w = elim (receive J w.m_parser bytes) [
    | none ↦ none
    | some (parsed_cnt, packets, parser) ↦
        let parsed = record w { m_parser = parser } in
        some (
          if parsed_cnt == 0
          then gives (idle parsed)
          else handle_packets random ticks 0 packets parsed)
  ]
