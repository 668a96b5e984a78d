-- ===== src/Registry/Manager/Table.antt =====
-- The table of the nodes: what a heartbeat, a registration and a removal do to it.
use text.Mathlib.Text.{◌==◌ as str_eq}
use text.Mathlib.TextEquality.{eq_iff}
use text.Mathlib.TextPositions.{eq_refl}
use turbo_core_dist_ai_clush.Prelude.{
  ◌∙◌, ℕ, ◌≡◌, List, String, arith, if◌then◌else◌, none, some, Option-cases, inl, inr,
}
use turbo_core_dist_ai_clush.Prelude.Int.{ℤ}
use turbo_core_dist_ai_clush.Prelude.Dict.{
  find, find-assign, find-erase, HasDistinctKeys, assign-HasDistinctKeys, erase-HasDistinctKeys,
}
use turbo_core_dist_ai_clush.Registry.NodeInfo.{RegistryNodeInfo, online}
use turbo_core_dist_ai_clush.Registry.Manager.{
  RegistryManager, register_worker, new_node_id, update_heartbeat, refreshed, remove_worker,
}

-- `RegisterWorker` stores the node under the id that it returns, online and with that id in it,
-- and changes no other entry.
pub register_worker_lem :
    (now : ℕ) (m : RegistryManager) (info : RegistryNodeInfo) (other : String)
    → let registered = register_worker now m info in
      find registered.1.m_nodes other ≡ (
        if str_eq registered.0 other
        then some (record info { node_id = registered.0; status = online })
        else find m.m_nodes other)
unfolding register_worker
register_worker_lem now m info other =
    find-assign m.m_nodes (new_node_id now info)
      (record info { node_id = new_node_id now info; status = online }) other

-- `UpdateHeartbeat` puts the time, the memory and the models into the entry of a known node and
-- sets it online; it adds no node and changes no other.
pub update_heartbeat_lem :
    (now : ℕ) (m : RegistryManager) (node_id : String) (memory : ℤ) (models : List String)
    (other : String)
    → find (update_heartbeat now m node_id memory models).m_nodes other
      ≡ (elim (find m.m_nodes other) [
        | none ↦ none
        | some node ↦
            if str_eq node_id other then some (refreshed now memory models node) else some node
      ])
unfolding update_heartbeat
update_heartbeat_lem now m node_id memory models other =
    elim (Option-cases (find m.m_nodes node_id)) [
      | inl unknown ↦ ground (arith, unknown, eq_iff node_id other)
      | inr (node, known) ↦ ground (
        arith,
        known,
        eq_iff node_id other,
        find-assign m.m_nodes node_id (refreshed now memory models node) other,
      )
    ]

-- After `RemoveWorker` the node is not in the table and every other entry is as it was.
pub remove_worker_lem :
    (m : RegistryManager) (node_id other : String)
    → find (remove_worker m node_id).m_nodes other
      ≡ (if str_eq node_id other then none else find m.m_nodes other)
unfolding remove_worker
remove_worker_lem m node_id other =
    ground (arith, eq_iff node_id other, find-erase m.m_nodes node_id other)

-- The entry that a heartbeat leaves.
pub find-update_heartbeat :
    (now : ℕ) (m : RegistryManager) (node_id : String) (memory : ℤ) (models : List String)
    (node : RegistryNodeInfo)
    → find m.m_nodes node_id ≡ some node
    → find (update_heartbeat now m node_id memory models).m_nodes node_id
      ≡ some (refreshed now memory models node)
find-update_heartbeat now m node_id memory models node found =
    update_heartbeat_lem now m node_id memory models node_id ∙ rw (found, eq_refl node_id)

pub register_worker-HasDistinctKeys :
    (now : ℕ) (m : RegistryManager) (info : RegistryNodeInfo)
    → HasDistinctKeys m.m_nodes
    → HasDistinctKeys (register_worker now m info).1.m_nodes
unfolding register_worker
register_worker-HasDistinctKeys now m info d =
    assign-HasDistinctKeys m.m_nodes (new_node_id now info)
      (record info { node_id = new_node_id now info; status = online }) d

pub update_heartbeat-HasDistinctKeys :
    (now : ℕ) (m : RegistryManager) (node_id : String) (memory : ℤ) (models : List String)
    → HasDistinctKeys m.m_nodes
    → HasDistinctKeys (update_heartbeat now m node_id memory models).m_nodes
unfolding update_heartbeat
update_heartbeat-HasDistinctKeys now m node_id memory models d =
    elim (Option-cases (find m.m_nodes node_id)) [
      | inl unknown ↦ rw (unknown, update_heartbeat) d
      | inr (node, known) ↦
          rw (known, update_heartbeat)
            (assign-HasDistinctKeys m.m_nodes node_id (refreshed now memory models node) d)
    ]

pub remove_worker-HasDistinctKeys :
    (m : RegistryManager) (node_id : String)
    → HasDistinctKeys m.m_nodes
    → HasDistinctKeys (remove_worker m node_id).m_nodes
unfolding remove_worker
remove_worker-HasDistinctKeys m node_id d = elim (Option-cases (find m.m_nodes node_id)) [
  | inl unknown ↦ rw (unknown, remove_worker) d
  | inr (node, known) ↦ rw (known, remove_worker) (erase-HasDistinctKeys m.m_nodes node_id d)
]
