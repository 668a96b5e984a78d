-- ===== src/Protocol/Types.antt =====
-- The enumerations of AiDist/1 protocol.h, with the casts to and from `int`.
use turbo_core_dist_ai_clush.Prelude.{◌≡◌, List, [], ◌∷◌, get_or}
use turbo_core_dist_ai_clush.Prelude.Int.{ℤ, pos, negsuc}

-- `enum class PacketType`. A cast from `int` may give a value that no enumerator names.
pub data PacketType : Type 0 where
  register_worker register_resp heartbeat heartbeat_resp submit_task submit_task_resp : PacketType
  task_dispatch task_result_report task_query task_query_resp worker_remove worker_offline
        node_query node_query_resp job_list_req job_list_resp error_resp :
      PacketType
  unnamed : ℤ → PacketType

-- `(int)type`
unfoldable pub packet_type_to_int : PacketType → ℤ
packet_type_to_int register_worker = pos 0
packet_type_to_int register_resp = pos 1
packet_type_to_int heartbeat = pos 2
packet_type_to_int heartbeat_resp = pos 3
packet_type_to_int submit_task = pos 4
packet_type_to_int submit_task_resp = pos 5
packet_type_to_int task_dispatch = pos 6
packet_type_to_int task_result_report = pos 7
packet_type_to_int task_query = pos 8
packet_type_to_int task_query_resp = pos 9
packet_type_to_int worker_remove = pos 10
packet_type_to_int worker_offline = pos 11
packet_type_to_int node_query = pos 12
packet_type_to_int node_query_resp = pos 13
packet_type_to_int job_list_req = pos 14
packet_type_to_int job_list_resp = pos 15
packet_type_to_int error_resp = pos 16
packet_type_to_int (unnamed z) = z

-- The enumerators in the order of their declaration, which gives them the values from 0 on.
abbrev enumerators : List PacketType
enumerators =
    register_worker ∷ register_resp ∷ heartbeat ∷ heartbeat_resp ∷ submit_task ∷ submit_task_resp
    ∷ task_dispatch ∷ task_result_report ∷ task_query ∷ task_query_resp ∷ worker_remove
    ∷ worker_offline ∷ node_query ∷ node_query_resp ∷ job_list_req ∷ job_list_resp ∷ error_resp ∷ []

-- `static_cast<PacketType>`
unfoldable pub packet_type_of_int : ℤ → PacketType
packet_type_of_int (pos n) = get_or enumerators n (unnamed (pos n))
packet_type_of_int (negsuc n) = unnamed (negsuc n)

-- `enum class TaskStatus`
pub data TaskStatus : Type 0 where
  queuing dispatching running finished failed : TaskStatus
  unnamed : ℤ → TaskStatus

unfoldable pub task_status_to_int : TaskStatus → ℤ
task_status_to_int queuing = pos 0
task_status_to_int dispatching = pos 1
task_status_to_int running = pos 2
task_status_to_int finished = pos 3
task_status_to_int failed = pos 4
task_status_to_int (unnamed z) = z

unfoldable pub task_status_of_int : ℤ → TaskStatus
task_status_of_int (pos n) =
    get_or (queuing ∷ dispatching ∷ running ∷ finished ∷ failed ∷ []) n (unnamed (pos n))
task_status_of_int (negsuc n) = unnamed (negsuc n)

-- The values that a cast can give: an enumerator, or a number that names none.
abbrev pub IsPacketType : PacketType → Type 0
IsPacketType t = packet_type_of_int (packet_type_to_int t) ≡ t

abbrev pub IsTaskStatus : TaskStatus → Type 0
IsTaskStatus t = task_status_of_int (task_status_to_int t) ≡ t
