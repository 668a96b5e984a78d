-- ===== src/Registry/Manager/Stays.antt =====
-- A node that registers stays findable while it is heard of, whatever becomes of other nodes.
use text.Mathlib.Text.{◌==◌ as str_eq}
use text.Mathlib.TextEquality.{eq_iff}
use text.Mathlib.TextPositions.{eq_refl}
use mathlib.Core.List.{Mem, Mem-prop, eq-or-mem_of_mem-cons, mem-cons_self, mem-cons_of_mem}
use mathlib.Core.Logic.Or
use turbo_core_dist_ai_clush.Prelude.{
  ℕ, ◌≤◌, ◌<◌, ◌≡◌, refl, ap, ◌∙◌, sym, subst, false, true, List, [], ◌∷◌, String, some, arith,
  if◌then◌else◌, Bool-cases, Option-cases, inl, inr,
}
use turbo_core_dist_ai_clush.Prelude.Dict.{StringMap, find, assign, HasDistinctKeys}
use turbo_core_dist_ai_clush.Registry.NodeInfo.{RegistryNodeInfo, online}
use turbo_core_dist_ai_clush.Registry.Manager.{
  RegistryManager, ids_of, new_node_id, register_worker, remove_worker, without, remove_from_index,
  scan_timeout_nodes, seconds_since, get_online_nodes_by_model, refreshed,
}
use turbo_core_dist_ai_clush.Registry.Manager.Table.{
  register_worker_lem, update_heartbeat_lem, remove_worker_lem,
}
use turbo_core_dist_ai_clush.Registry.Manager.Scan.{lists, scan_timeout_nodes_lem}
use turbo_core_dist_ai_clush.Registry.Manager.Query.{get_online_nodes_by_model-Mem}
use turbo_core_dist_ai_clush.Registry.Manager.Calls.{
  RegistryCall, registers, beats, removes, scans, step, run, step-HasDistinctKeys,
}
use turbo_core_dist_ai_clush.Registry.Manager.Index.{
  ids_of-assign, add_to_index-Mem_old, register_worker-Mem, update_heartbeat-index,
}

-- When the node was last heard of, behind calls.
unfoldable pub heard_by : String → ℕ → RegistryCall → ℕ
heard_by id heard (beats now node_id memory models) = if str_eq node_id id then now else heard
heard_by id heard (registers now info) = heard
heard_by id heard (removes node_id) = heard
heard_by id heard (scans now) = heard

unfoldable pub last_heard : String → ℕ → List RegistryCall → ℕ
last_heard id heard [] = heard
last_heard id heard (call ∷ calls) = last_heard id (heard_by id heard call) calls

-- The call does not take the node away: it registers or removes no node of its id, and a scan finds
-- that the node was heard of at most 30 seconds ago.
unfoldable pub IsSparing : String → ℕ → RegistryCall → Type 0
IsSparing id heard (registers now info) = str_eq (new_node_id now info) id ≡ false
IsSparing id heard (removes node_id) = str_eq node_id id ≡ false
IsSparing id heard (scans now) = seconds_since now heard ≤ 30
IsSparing id heard (beats now node_id memory models) = Unit {0}

unfoldable pub AreSparing : String → ℕ → List RegistryCall → Type 0
AreSparing id heard [] = Unit {0}
AreSparing id heard (call ∷ calls) =
    IsSparing id heard call × AreSparing id (heard_by id heard call) calls

-- The node is in the table, online and last heard of then, and the index has it for the model.
record IsThere (id : String) (heard : ℕ) (model : String) (m : RegistryManager) : Type 0 where
  node : RegistryNodeInfo
  found : find m.m_nodes id ≡ some node
  same_id : node.node_id ≡ id
  last : node.last_heartbeat ≡ heard
  is_on : node.status ≡ online
  indexed : Mem id (ids_of m.m_model_to_nodes model)

without-Mem :
    (other id : String) (ids : List String)
    → str_eq other id ≡ false
    → Mem id ids
    → Mem id (without other ids)
unfolding without
without-Mem other id [] h mem = mem
without-Mem other id (first ∷ ids) h mem = elim (Bool-cases (str_eq first other)) [
  | inl gone ↦ rw gone (
      Or.elim Mem-prop (eq-or-mem_of_mem-cons mem)
        (λ e.
          absurd
            (ground (arith, h, (eq_iff other id).1 (sym ((eq_iff first other).0 gone) ∙ sym e))))
        (λ m. without-Mem other id ids h m))
  | inr stays ↦ rw stays (
      Or.elim Mem-prop (eq-or-mem_of_mem-cons mem)
        (λ e. subst (λ x. Mem id (x ∷ without other ids)) e mem-cons_self)
        (λ m. mem-cons_of_mem first (without-Mem other id ids h m)))
]

remove_from_index-Mem :
    (index : StringMap (List String)) (other id : String) (models : List String) (model : String)
    → str_eq other id ≡ false
    → Mem id (ids_of index model)
    → Mem id (ids_of (remove_from_index index other models) model)
unfolding remove_from_index
remove_from_index-Mem index other id [] model h mem = mem
remove_from_index-Mem index other id (first ∷ models) model h mem =
    let fewer = without other (ids_of index first) in
    remove_from_index-Mem (assign index first fewer) other id models model h (
      subst (Mem id) (sym (ids_of-assign index first fewer model))
        (elim (Bool-cases (str_eq first model)) [
          | inl same ↦ rw same (
              without-Mem other id (ids_of index first) h
                (subst (λ k. Mem id (ids_of index k)) (sym ((eq_iff first model).0 same)) mem))
          | inr different ↦ rw different mem
        ]))

remove_worker-Mem :
    (m : RegistryManager) (other id model : String)
    → str_eq other id ≡ false
    → Mem id (ids_of m.m_model_to_nodes model)
    → Mem id (ids_of (remove_worker m other).m_model_to_nodes model)
unfolding remove_worker
remove_worker-Mem m other id model h mem = elim (Option-cases (find m.m_nodes other)) [
  | inl unknown ↦ rw (unknown, remove_worker) mem
  | inr (node, known) ↦
      rw (known, remove_worker)
        (remove_from_index-Mem m.m_model_to_nodes other id node.support_models model h mem)
]

step-IsThere :
    (id model : String) (heard : ℕ) (m : RegistryManager) (call : RegistryCall)
    → HasDistinctKeys m.m_nodes
    → IsThere id heard model m
    → IsSparing id heard call
    → IsThere id (heard_by id heard call) model (step m call)
unfolding step heard_by IsSparing register_worker scan_timeout_nodes
step-IsThere id model heard m (registers now info) d t h = record {
  node = t.node;
  found = register_worker_lem now m info id ∙ rw h t.found;
  same_id = t.same_id;
  last = t.last;
  is_on = t.is_on;
  indexed =
      add_to_index-Mem_old id m.m_model_to_nodes (new_node_id now info) info.support_models model
        t.indexed;
}
step-IsThere id model heard m (beats now node_id memory models) d t h =
    let there = update_heartbeat_lem now m node_id memory models id in
    let indexed =
      subst (λ index. Mem id (ids_of index model))
        (sym (update_heartbeat-index now m node_id memory models)) t.indexed in
    elim (Bool-cases (str_eq node_id id)) [
      | inl same ↦ record {
        node = refreshed now memory models t.node;
        found = there ∙ rw (t.found, same) refl;
        same_id = t.same_id;
        last = rw same refl;
        is_on = refl;
        indexed = indexed;
      }
      | inr other ↦ record {
        node = t.node;
        found = there ∙ rw (t.found, other) refl;
        same_id = t.same_id;
        last = rw other t.last;
        is_on = t.is_on;
        indexed = indexed;
      }
    ]
step-IsThere id model heard m (removes node_id) d t h = record {
  node = t.node;
  found = remove_worker_lem m node_id id ∙ rw h t.found;
  same_id = t.same_id;
  last = t.last;
  is_on = t.is_on;
  indexed = remove_worker-Mem m node_id id model h t.indexed;
}
step-IsThere id model heard m (scans now) d t h = record {
  node = t.node;
  found =
      (scan_timeout_nodes_lem now m id d).0
      ∙ rw t.found (ground (arith, h, ap (seconds_since now) t.last));
  same_id = t.same_id;
  last = t.last;
  is_on = t.is_on;
  indexed = t.indexed;
}

run-IsThere :
    (id model : String) (heard : ℕ) (m : RegistryManager) (calls : List RegistryCall)
    → HasDistinctKeys m.m_nodes
    → IsThere id heard model m
    → AreSparing id heard calls
    → IsThere id (last_heard id heard calls) model (run m calls)
unfolding run AreSparing last_heard
run-IsThere id model heard m [] d t h = t
run-IsThere id model heard m (call ∷ calls) d t (now, rest) =
    run-IsThere id model (heard_by id heard call) (step m call) calls
      (step-HasDistinctKeys m call d) (step-IsThere id model heard m call d t now) rest

-- In a registry whose table is keyed by the ids without repetition, a node is found by a query for each
-- model that it registered with, from the time of its registration until 30 seconds after it was last
-- heard of, whatever is called in between that does not take it away: heartbeats of any node,
-- registrations and removals under other ids, and scans that come at most 30 seconds after it was heard
-- of. It is heard of at the time in its registration, and at each of its heartbeats.
pub get_online_nodes_by_model-run :
    (now later : ℕ) (m : RegistryManager) (info : RegistryNodeInfo) (model : String)
    (calls : List RegistryCall)
    → HasDistinctKeys m.m_nodes
    → lists info.support_models model ≡ true
    → AreSparing (new_node_id now info) info.last_heartbeat calls
    → seconds_since later (last_heard (new_node_id now info) info.last_heartbeat calls) < 30
    → (node : RegistryNodeInfo) × (node.node_id ≡ new_node_id now info)
      × Mem node (get_online_nodes_by_model later (run (register_worker now m info).1 calls) model)
unfolding step register_worker
get_online_nodes_by_model-run now later m info model calls d listed sparing recent =
    let id = new_node_id now info in
    let t =
      run-IsThere id model info.last_heartbeat (register_worker now m info).1 calls
        (step-HasDistinctKeys m (registers now info) d)
        (record {
          node = record info { node_id = id; status = online };
          found = register_worker_lem now m info id ∙ rw (eq_refl id) refl;
          same_id = refl;
          last = refl;
          is_on = refl;
          indexed = register_worker-Mem now m info model listed;
        })
        sparing in
    (
      t.node,
      t.same_id,
      get_online_nodes_by_model-Mem later (run (register_worker now m info).1 calls) model t.node (
        subst
            (λ k. Mem k (ids_of (run (register_worker now m info).1 calls).m_model_to_nodes model))
            (sym t.same_id) t.indexed,
        ap (find (run (register_worker now m info).1 calls).m_nodes) t.same_id ∙ t.found,
        subst (λ l. seconds_since later l < 30) (sym t.last) recent,
        t.is_on,
      ),
    )
