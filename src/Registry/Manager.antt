-- ===== src/Registry/Manager.antt =====
-- `RegistryManager` of AiDist/4 Registry_Manager.h and AiDist/4. Registry_Manager.cpp. The mutex makes
-- each call one step. A call that reads the clock takes the reading, in ticks, as its argument `now`.
pub mod Calls
pub mod Table
pub mod Index
pub mod Stays
pub mod Sort
pub mod Query
pub mod Scan
use Prim.Native.String.{◌++◌ as join}
use text.Mathlib.Text.{◌==◌ as str_eq}
use turbo_core_dist_ai_clush.Prelude.{
  ℕ, zero, suc, ◌-◌, ◌/◌, ◌%◌, Bool, true, false, ◌&&◌, List, [], ◌∷◌, ◌++◌, String, Option, none,
  some, ltb, if◌then◌else◌, get_or, ◌==◌,
}
use turbo_core_dist_ai_clush.Prelude.Int.{ℤ, ltb_ℤ}
use turbo_core_dist_ai_clush.Prelude.Dict.{StringMap, find, has, assign, erase}
use turbo_core_dist_ai_clush.Registry.NodeInfo.{
  RegistryNodeInfo, NodeStatus, offline, online, unhealthy,
}

pub record RegistryManager : Type 0 where
  pub m_nodes : StringMap RegistryNodeInfo
  pub m_model_to_nodes : StringMap (List String)

abbrev pub new_registry_manager : RegistryManager
new_registry_manager = record { m_nodes = []; m_model_to_nodes = [] }

-- `std::to_string` of a count of ticks, which has at most 19 digits
to_string_from : ℕ → ℕ → String → String
to_string_from zero n digits = digits
to_string_from (suc fuel) n digits =
    let longer =
      join (get_or ("0" ∷ "1" ∷ "2" ∷ "3" ∷ "4" ∷ "5" ∷ "6" ∷ "7" ∷ "8" ∷ "9" ∷ []) (n % 10) "")
        digits in
    let rest = to_string_from fuel (n / 10) longer in if n / 10 == 0 then longer else rest

unfoldable pub to_string : ℕ → String
unfolding to_string_from
to_string n = to_string_from 19 n ""

abbrev pub ids_of : StringMap (List String) → String → List String
ids_of index model = elim (find index model) [ none ↦ [] | some ids ↦ ids ]

-- `m_model_to_nodes[model].push_back(node_id)` for every model
unfoldable pub add_to_index :
    StringMap (List String) → String → List String → StringMap (List String)
add_to_index index node_id [] = index
add_to_index index node_id (model ∷ models) =
    add_to_index (assign index model (ids_of index model ++ node_id ∷ [])) node_id models

-- The id is the address and the clock.
unfoldable pub new_node_id : ℕ → RegistryNodeInfo → String
new_node_id now info = join info.node_addr (join "_" (to_string now))

unfoldable pub register_worker : ℕ → RegistryManager → RegistryNodeInfo → String × RegistryManager
register_worker now m info =
    let node_id = new_node_id now info in
    (
      node_id,
      record {
        m_nodes = assign m.m_nodes node_id (record info { node_id = node_id; status = online });
        m_model_to_nodes = add_to_index m.m_model_to_nodes node_id info.support_models;
      },
    )

-- What a heartbeat writes into the entry of the node.
abbrev pub refreshed : ℕ → ℤ → List String → RegistryNodeInfo → RegistryNodeInfo
refreshed now available_memory_mb online_models node = record node {
  last_heartbeat = now;
  available_memory_mb = available_memory_mb;
  support_models = online_models;
  status = online;
}

unfoldable pub update_heartbeat : ℕ → RegistryManager → String → ℤ → List String → RegistryManager
update_heartbeat now m node_id available_memory_mb online_models = elim (find m.m_nodes node_id) [
  | none ↦ m
  | some node ↦ record m {
    m_nodes = assign m.m_nodes node_id (refreshed now available_memory_mb online_models node);
  }
]

-- `vec.erase(std::remove(vec.begin(), vec.end(), node_id), vec.end())`
unfoldable pub without : String → List String → List String
without node_id [] = []
without node_id (id ∷ ids) =
    if str_eq id node_id then without node_id ids else id ∷ without node_id ids

unfoldable pub remove_from_index :
    StringMap (List String) → String → List String → StringMap (List String)
unfolding without
remove_from_index index node_id [] = index
remove_from_index index node_id (model ∷ models) =
    remove_from_index (assign index model (without node_id (ids_of index model))) node_id models

unfoldable pub remove_worker : RegistryManager → String → RegistryManager
remove_worker m node_id = elim (find m.m_nodes node_id) [
  | none ↦ m
  | some node ↦ record {
    m_nodes = erase m.m_nodes node_id;
    m_model_to_nodes = remove_from_index m.m_model_to_nodes node_id node.support_models;
  }
]

-- `steady_clock` counts nanoseconds; `duration_cast` cuts off.
abbrev pub ticks_per_second : ℕ
ticks_per_second = 1000000000

unfoldable pub seconds_since : ℕ → ℕ → ℕ
seconds_since now last = (now - last) / ticks_per_second

abbrev pub is_online : NodeStatus → Bool
is_online offline = false
is_online online = true
is_online unhealthy = false

unfoldable pub is_available : ℕ → RegistryNodeInfo → Bool
is_available now node = ltb (seconds_since now node.last_heartbeat) 30 && is_online node.status

-- The loop over the ids that the index has for the model.
unfoldable pub available_nodes :
    ℕ → StringMap RegistryNodeInfo → List String → List RegistryNodeInfo
available_nodes now nodes [] = []
available_nodes now nodes (id ∷ ids) =
    let rest = available_nodes now nodes ids in
    elim (find nodes id) [
      | none ↦ rest
      | some node ↦ if is_available now node then node ∷ rest else rest
    ]

-- `std::sort` with the comparison of the source; the order of equal nodes is open there.
unfoldable pub insert_node : RegistryNodeInfo → List RegistryNodeInfo → List RegistryNodeInfo
insert_node node [] = node ∷ []
insert_node node (first ∷ rest) =
    let later = insert_node node rest in
    if ltb_ℤ node.available_memory_mb first.available_memory_mb
    then first ∷ later
    else node ∷ first ∷ rest

unfoldable pub sort_nodes : List RegistryNodeInfo → List RegistryNodeInfo
unfolding insert_node
sort_nodes [] = []
sort_nodes (node ∷ nodes) = insert_node node (sort_nodes nodes)

unfoldable pub get_online_nodes_by_model : ℕ → RegistryManager → String → List RegistryNodeInfo
unfolding available_nodes sort_nodes
get_online_nodes_by_model now m model_name = elim (find m.m_model_to_nodes model_name) [
  | none ↦ []
  | some ids ↦ sort_nodes (available_nodes now m.m_nodes ids)
]

abbrev pub has_timed_out : ℕ → RegistryNodeInfo → Bool
has_timed_out now node = ltb 30 (seconds_since now node.last_heartbeat)

-- The loop over the table: the ids that go, and the table that stays.
unfoldable pub scan_nodes :
    ℕ → StringMap RegistryNodeInfo → List String × StringMap RegistryNodeInfo
scan_nodes now [] = ([], [])
scan_nodes now ((id, node) ∷ nodes) =
    let rest = scan_nodes now nodes in
    if has_timed_out now node then (id ∷ rest.0, rest.1) else (rest.0, (id, node) ∷ rest.1)

unfoldable pub scan_timeout_nodes : ℕ → RegistryManager → List String × RegistryManager
unfolding scan_nodes
scan_timeout_nodes now m =
    let scanned = scan_nodes now m.m_nodes in (scanned.0, record m { m_nodes = scanned.1 })

unfoldable pub has_node : RegistryManager → String → Bool
has_node m node_id = has m.m_nodes node_id
