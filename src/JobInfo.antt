-- ===== src/JobInfo.antt =====
-- The records of AiDist/6 JobInfo.h.
pub mod Slice
use turbo_core_dist_ai_clush.Prelude.{Bool, List, [], String}
use turbo_core_dist_ai_clush.Prelude.Int.{ℤ, pos}
use turbo_core_dist_ai_clush.Registry.NodeInfo.{RegistryNodeInfo}

pub data JobDefineStatus : Type 0 where
  disabled enabled : JobDefineStatus

-- `unnamed` is a value of the underlying int that no enumerator has.
pub data JobStatus : Type 0 where
  pending scheduling running finished failed : JobStatus
  unnamed : ℤ → JobStatus

pub data SliceStatus : Type 0 where
  pending running finished failed : SliceStatus
  unnamed : ℤ → SliceStatus

pub record TaskSlice : Type 0 where
  pub job_id : String
  pub slice_id : ℤ
  pub input_range : String
  pub inputs : List String
  pub assigned_node_id : String
  pub status : SliceStatus
  pub result_url : String
  pub error_message : String
  pub retry_count : ℤ

pub record JobInfo : Type 0 where
  pub job_id : String
  pub job_name : String
  pub model_name : String
  pub cron_expr : String
  pub handler_name : String
  pub job_params : String
  pub input_file_url : String
  pub output_result_url : String
  pub status : JobDefineStatus
  pub timeout_seconds : ℤ
  pub max_retry_times : ℤ
  pub expect_slice_count : ℤ
  pub create_time : ℤ
  pub update_time : ℤ
  pub finish_time : ℤ
  pub run_status : JobStatus
  pub available_nodes : List RegistryNodeInfo
  pub slices : List TaskSlice

-- `JobInfo()`
abbrev pub new_job_info : JobInfo
new_job_info = record {
  job_id = "";
  job_name = "";
  model_name = "";
  cron_expr = "";
  handler_name = "";
  job_params = "";
  input_file_url = "";
  output_result_url = "";
  status = JobDefineStatus.enabled;
  timeout_seconds = pos 300;
  max_retry_times = pos 2;
  expect_slice_count = pos 0;
  create_time = pos 0;
  update_time = pos 0;
  finish_time = pos 0;
  run_status = JobStatus.pending;
  available_nodes = [];
  slices = [];
}

pub record JobResult : Type 0 where
  pub result_id : String
  pub job_id : String
  pub slice_id : ℤ
  pub node_id : String
  pub success : Bool
  pub output : String
  pub exit_code : ℤ
  pub retry_count : ℤ
  pub cost_ms : ℤ
  pub execute_time : ℤ

unfoldable pub job_status_to_str : JobStatus → String
job_status_to_str JobStatus.pending = "PENDING"
job_status_to_str JobStatus.scheduling = "SCHEDULING"
job_status_to_str JobStatus.running = "RUNNING"
job_status_to_str JobStatus.finished = "FINISHED"
job_status_to_str JobStatus.failed = "FAILED"
job_status_to_str (JobStatus.unnamed z) = "UNKNOWN"
