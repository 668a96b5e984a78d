-- ===== src/Tests/Registry.antt =====
-- AiDist/4. Registry_Manager.cpp at concrete inputs.
use mathlib.Core.List.{Mem, mem-cons_self}
use turbo_core_dist_ai_clush.Prelude.{
  ℕ, ◌≡◌, ◌≢◌, ◌*◌, refl, false, List, [], ◌∷◌, String, some, All, arith,
}
use turbo_core_dist_ai_clush.Prelude.Int.{pos}
use turbo_core_dist_ai_clush.Prelude.Dict.{find, assign}
use turbo_core_dist_ai_clush.Registry.NodeInfo.{RegistryNodeInfo, new_node_info, online}
use turbo_core_dist_ai_clush.Registry.Manager.{
  RegistryManager, new_registry_manager, register_worker, new_node_id, to_string, add_to_index,
  update_heartbeat, refreshed, remove_worker, get_online_nodes_by_model, available_nodes,
  is_available, seconds_since, sort_nodes, insert_node, scan_timeout_nodes, ticks_per_second,
}
use turbo_core_dist_ai_clush.Registry.Manager.Calls.{
  RegistryCall, registers, beats, removes, scans, run, step, run-new-IsValid, run-new-IsOffered,
}
use turbo_core_dist_ai_clush.Registry.Manager.Sort.{IsSorted}
use turbo_core_dist_ai_clush.Registry.Manager.Query.{IsOffered, get_online_nodes_by_model-Mem}
use turbo_core_dist_ai_clush.Registry.Manager.Scan.{
  lists, kept, goes, scan_timeout_nodes_lem, scan_timeout_nodes-update_heartbeat,
}
use turbo_core_dist_ai_clush.Registry.Manager.Stays.{
  heard_by, last_heard, IsSparing, AreSparing, get_online_nodes_by_model-run,
}
use turbo_core_dist_ai_clush.Registry.Manager.Index.{
  get_online_nodes_by_model-remove_worker, get_online_nodes_by_model-update_heartbeat,
}

abbrev pub worker : String → ℕ → RegistryNodeInfo
worker addr memory = record (new_node_info 5) {
  node_addr = addr;
  support_models = "m" ∷ [];
  total_memory_mb = pos memory;
  available_memory_mb = pos memory;
}

abbrev calls : List RegistryCall
calls = registers 7 (worker "h1" 100) ∷ registers 7 (worker "h2" 300) ∷ []

abbrev two : RegistryManager
two = run new_registry_manager calls

abbrev h1 : RegistryNodeInfo
h1 = record (worker "h1" 100) { node_id = "h1_7"; status = online }

abbrev h2 : RegistryNodeInfo
h2 = record (worker "h2" 300) { node_id = "h2_7"; status = online }

query_run : get_online_nodes_by_model 9 two "m" ≡ h2 ∷ h1 ∷ []
unfolding get_online_nodes_by_model available_nodes is_available seconds_since sort_nodes
    insert_node run step register_worker new_node_id to_string add_to_index find assign
query_run = refl

run-new-IsOffered_example :
    All (IsOffered 9 two "m") (get_online_nodes_by_model 9 two "m")
    × IsSorted (get_online_nodes_by_model 9 two "m")
run-new-IsOffered_example = run-new-IsOffered calls 9 "m"

h1-IsOffered : IsOffered 9 two "m" h1
unfolding run step register_worker new_node_id to_string add_to_index find assign seconds_since
h1-IsOffered = (mem-cons_self, refl, omega arith, refl)

get_online_nodes_by_model-Mem_example : Mem h1 (get_online_nodes_by_model 9 two "m")
get_online_nodes_by_model-Mem_example = get_online_nodes_by_model-Mem 9 two "m" h1 h1-IsOffered

-- The third worker sends a heartbeat, another one leaves, and a scan comes.
abbrev afterwards : List RegistryCall
afterwards =
    beats (20 * ticks_per_second) "h3_8" (pos 50) ("m" ∷ [])
    ∷ removes "h1_7"
    ∷ scans (40 * ticks_per_second)
    ∷ []

afterwards-AreSparing : AreSparing (new_node_id 8 (worker "h3" 1)) 5 afterwards
unfolding AreSparing IsSparing heard_by new_node_id to_string seconds_since
afterwards-AreSparing = (tt, (refl, (omega arith, tt)))

get_online_nodes_by_model-run_example :
    (node : RegistryNodeInfo) × (node.node_id ≡ new_node_id 8 (worker "h3" 1))
    × Mem node (
        get_online_nodes_by_model
          (45 * ticks_per_second)
          (run (register_worker 8 two (worker "h3" 1)).1 afterwards)
          "m")
unfolding lists seconds_since last_heard heard_by new_node_id to_string
get_online_nodes_by_model-run_example =
    get_online_nodes_by_model-run 8 (45 * ticks_per_second) two (worker "h3" 1) "m" afterwards
      (run-new-IsValid calls).0 refl afterwards-AreSparing (omega arith)

get_online_nodes_by_model-remove_worker_example :
    All (λ node. node.node_id ≢ "h1_7") (get_online_nodes_by_model 9 (remove_worker two "h1_7") "m")
get_online_nodes_by_model-remove_worker_example =
    get_online_nodes_by_model-remove_worker 9 two "h1_7" "m" (run-new-IsValid calls)

get_online_nodes_by_model-update_heartbeat_example :
    get_online_nodes_by_model 9 (update_heartbeat 8 two "h1_7" (pos 50) ("new" ∷ [])) "new" ≡ []
unfolding run step register_worker new_node_id to_string add_to_index find assign
get_online_nodes_by_model-update_heartbeat_example =
    get_online_nodes_by_model-update_heartbeat 8 9 two "h1_7" (pos 50) ("new" ∷ []) "new" refl

scan_timeout_nodes_lem_example :
    let scanned = scan_timeout_nodes (40 * ticks_per_second) two in
    (find scanned.1.m_nodes "h1_7" ≡ kept (40 * ticks_per_second) (find two.m_nodes "h1_7"))
    × (lists scanned.0 "h1_7" ≡ goes (40 * ticks_per_second) (find two.m_nodes "h1_7"))
scan_timeout_nodes_lem_example =
    scan_timeout_nodes_lem (40 * ticks_per_second) two "h1_7" (run-new-IsValid calls).0

h1_found : find two.m_nodes "h1_7" ≡ some h1
unfolding run step register_worker new_node_id to_string find assign
h1_found = refl

scan_timeout_nodes-update_heartbeat_example :
    let scanned =
      scan_timeout_nodes
        (40 * ticks_per_second)
        (update_heartbeat (10 * ticks_per_second) two "h1_7" (pos 60) []) in
    (find scanned.1.m_nodes "h1_7" ≡ some (refreshed (10 * ticks_per_second) (pos 60) [] h1))
    × (lists scanned.0 "h1_7" ≡ false)
scan_timeout_nodes-update_heartbeat_example =
    scan_timeout_nodes-update_heartbeat (10 * ticks_per_second) (40 * ticks_per_second) two "h1_7"
      (pos 60) [] h1 (run-new-IsValid calls).0 h1_found (omega arith)
