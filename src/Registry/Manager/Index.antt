-- ===== src/Registry/Manager/Index.antt =====
-- The index from models to nodes, and the queries after a registration, a removal or a heartbeat.
use text.Mathlib.Text.{◌==◌ as str_eq}
use text.Mathlib.TextEquality.{eq_iff}
use mathlib.Core.List.{Mem, mem-cons_self, mem-append_left, mem-append_right}
use turbo_core_dist_ai_clush.Prelude.{
  none, some, ap, sym, subst, ◌∙◌, ◌≢◌, ℕ, ◌≡◌, true, List, [], ◌∷◌, ◌++◌, String, arith,
  if◌then◌else◌, inl, inr, All, Bool-cases,
}
use turbo_core_dist_ai_clush.Prelude.Int.{ℤ}
use turbo_core_dist_ai_clush.Prelude.Dict.{StringMap, assign, find-assign}
use turbo_core_dist_ai_clush.Registry.NodeInfo.{RegistryNodeInfo}
use turbo_core_dist_ai_clush.Registry.Manager.{
  RegistryManager, ids_of, add_to_index, register_worker, new_node_id, update_heartbeat,
  remove_worker, get_online_nodes_by_model, available_nodes, sort_nodes,
}
use turbo_core_dist_ai_clush.Registry.Manager.Table.{remove_worker_lem}
use turbo_core_dist_ai_clush.Registry.Manager.Scan.{lists}
use turbo_core_dist_ai_clush.Registry.Manager.Query.{
  IsOffered, query_lem, get_online_nodes_by_model-IsOffered,
}
use turbo_core_dist_ai_clush.Registry.Manager.Calls.{removes, IsValid, step-IsKeyed, step}

pub ids_of-assign :
    (index : StringMap (List String)) (key : String) (ids : List String) (model : String)
    → ids_of (assign index key ids) model ≡ (if str_eq key model then ids else ids_of index model)
ids_of-assign index key ids model = ground (arith, find-assign index key ids model)

-- One round of the loop of `RegisterWorker`.
abbrev added : StringMap (List String) → String → String → StringMap (List String)
added index node_id model = assign index model (ids_of index model ++ node_id ∷ [])

module _ (id : String) where
  added-Mem :
      (index : StringMap (List String)) (other : String) (node_id model : String)
      → Mem id (ids_of index model)
      → Mem id (ids_of (added index node_id other) model)
  added-Mem index other node_id model mem =
      subst (Mem id) (sym (ids_of-assign index other (ids_of index other ++ node_id ∷ []) model))
        (elim (Bool-cases (str_eq other model)) [
          | inl same ↦ rw (same, (eq_iff other model).0 same) (mem-append_left (node_id ∷ []) mem)
          | inr different ↦ rw different mem
        ])

  pub add_to_index-Mem_old :
      (index : StringMap (List String)) (node_id : String) (models : List String) (model : String)
      → Mem id (ids_of index model)
      → Mem id (ids_of (add_to_index index node_id models) model)
  unfolding add_to_index
  add_to_index-Mem_old index node_id [] model mem = mem
  add_to_index-Mem_old index node_id (first ∷ models) model mem =
      add_to_index-Mem_old (added index node_id first) node_id models model
        (added-Mem index first node_id model mem)

  add_to_index-Mem :
      (index : StringMap (List String)) (models : List String) (model : String)
      → lists models model ≡ true
      → Mem id (ids_of (add_to_index index id models) model)
  unfolding add_to_index lists
  add_to_index-Mem index [] model listed = absurd (ground arith)
  add_to_index-Mem index (first ∷ models) model listed = elim (Bool-cases (str_eq first model)) [
    | inl same ↦ add_to_index-Mem_old (added index id first) id models model (
        subst (Mem id) (sym (ids_of-assign index first (ids_of index first ++ id ∷ []) model))
          (rw same (mem-append_right (ids_of index first) mem-cons_self)))
    | inr different ↦
        add_to_index-Mem (added index id first) models model (ground (arith, listed, different))
  ]

pub register_worker-Mem :
    (now : ℕ) (m : RegistryManager) (info : RegistryNodeInfo) (model : String)
    → lists info.support_models model ≡ true
    → let registered = register_worker now m info in
      Mem registered.0 (ids_of registered.1.m_model_to_nodes model)
unfolding register_worker
register_worker-Mem now m info model listed =
    add_to_index-Mem (new_node_id now info) m.m_model_to_nodes info.support_models model listed

pub update_heartbeat-index :
    (now : ℕ) (m : RegistryManager) (id : String) (memory : ℤ) (models : List String)
    → (update_heartbeat now m id memory models).m_model_to_nodes ≡ m.m_model_to_nodes
unfolding update_heartbeat
update_heartbeat-index now m id memory models = ground arith

some_not_none : {node : RegistryNodeInfo} → some node ≢ none
some_not_none e = ground arith

removed_lem :
    (now : ℕ) (m : RegistryManager) (id model : String) (nodes : List RegistryNodeInfo)
    → All (IsOffered now (remove_worker m id) model) nodes
    → All (λ node. node.node_id ≢ id) nodes
removed_lem now m id model [] offered = tt
removed_lem now m id model (node ∷ nodes) offered = (
  λ same. absurd (
      some_not_none (
        sym offered.0.1
        ∙ remove_worker_lem m id node.node_id
        ∙ rw ((eq_iff id node.node_id).1 (sym same)))),
  removed_lem now m id model nodes offered.1,
)

-- After a node is removed from a registry whose table is keyed by the ids without repetition, no
-- query returns it, whatever the index still has.
pub get_online_nodes_by_model-remove_worker :
    (now : ℕ) (m : RegistryManager) (id model : String)
    → IsValid m
    → All (λ node. node.node_id ≢ id) (get_online_nodes_by_model now (remove_worker m id) model)
unfolding step
get_online_nodes_by_model-remove_worker now m id model v =
    removed_lem now m id model (get_online_nodes_by_model now (remove_worker m id) model)
      (get_online_nodes_by_model-IsOffered now (remove_worker m id) model
        (step-IsKeyed m (removes id) v)).0

-- A heartbeat never makes a node findable by a model: where the index has no node for a model, a
-- query for it returns nothing after any heartbeat, also one that names the model.
pub get_online_nodes_by_model-update_heartbeat :
    (now later : ℕ) (m : RegistryManager) (id : String) (memory : ℤ) (models : List String)
    (model : String)
    → ids_of m.m_model_to_nodes model ≡ []
    → get_online_nodes_by_model later (update_heartbeat now m id memory models) model ≡ []
unfolding available_nodes sort_nodes
get_online_nodes_by_model-update_heartbeat now later m id memory models model none_there =
    let m' = update_heartbeat now m id memory models in
    query_lem later m' model
    ∙ ap (λ ids. sort_nodes (available_nodes later m'.m_nodes ids))
        (ap (λ index. ids_of index model) (update_heartbeat-index now m id memory models)
          ∙ none_there)
