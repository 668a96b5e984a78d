-- ===== src/Registry/NodeInfo.antt =====
-- `NodeStatus` and `RegistryNodeInfo` of AiDist/3 Registry_NofeInfo.h. A `time_point` is its count of
-- clock ticks.
use turbo_core_dist_ai_clush.Prelude.{ℕ, List, [], String}
use turbo_core_dist_ai_clush.Prelude.Int.{ℤ, pos}

pub data NodeStatus : Type 0 where
  offline online unhealthy : NodeStatus

pub record RegistryNodeInfo : Type 0 where
  pub node_id : String
  pub node_addr : String
  pub support_models : List String
  pub total_memory_mb : ℤ
  pub available_memory_mb : ℤ
  pub weight : ℤ
  pub status : NodeStatus
  pub last_heartbeat : ℕ

-- `RegistryNodeInfo()` at the time `now`
abbrev pub new_node_info : ℕ → RegistryNodeInfo
new_node_info now = record {
  node_id = "";
  node_addr = "";
  support_models = [];
  total_memory_mb = pos 0;
  available_memory_mb = pos 0;
  weight = pos 100;
  status = NodeStatus.offline;
  last_heartbeat = now;
}
