-- ===== src/Registry/Manager/Calls.antt =====
-- Sequences of calls of a `RegistryManager`, in the order in which its mutex lets them through.
use text.Mathlib.Text.{◌==◌ as str_eq}
use text.Mathlib.TextEquality.{eq_iff}
use turbo_core_dist_ai_clush.Prelude.{
  sym, subst, ℕ, List, [], ◌∷◌, String, Option-cases, inl, inr, Bool-cases, All,
}
use turbo_core_dist_ai_clush.Prelude.Int.{ℤ}
use turbo_core_dist_ai_clush.Prelude.Dict.{find, HasDistinctKeys}
use turbo_core_dist_ai_clush.Registry.NodeInfo.{RegistryNodeInfo}
use turbo_core_dist_ai_clush.Registry.Manager.{
  RegistryManager, new_registry_manager, register_worker, update_heartbeat, remove_worker,
  scan_timeout_nodes, has_timed_out, get_online_nodes_by_model,
}
use turbo_core_dist_ai_clush.Registry.Manager.Table.{
  register_worker_lem, update_heartbeat_lem, remove_worker_lem, register_worker-HasDistinctKeys,
  update_heartbeat-HasDistinctKeys, remove_worker-HasDistinctKeys,
}
use turbo_core_dist_ai_clush.Registry.Manager.Scan.{
  scan_timeout_nodes_lem, scan_timeout_nodes-HasDistinctKeys,
}
use turbo_core_dist_ai_clush.Registry.Manager.Sort.{IsSorted}
use turbo_core_dist_ai_clush.Registry.Manager.Query.{
  IsKeyed, IsKeyedAt, IsOffered, get_online_nodes_by_model-IsOffered,
}

-- The calls that change the state, each with the clock reading it takes.
pub data RegistryCall : Type 0 where
  registers : ℕ → RegistryNodeInfo → RegistryCall
  beats : ℕ → String → ℤ → List String → RegistryCall
  removes : String → RegistryCall
  scans : ℕ → RegistryCall

unfoldable pub step : RegistryManager → RegistryCall → RegistryManager
step m (registers now info) = (register_worker now m info).1
step m (beats now node_id memory models) = update_heartbeat now m node_id memory models
step m (removes node_id) = remove_worker m node_id
step m (scans now) = (scan_timeout_nodes now m).1

unfoldable pub run : RegistryManager → List RegistryCall → RegistryManager
run m [] = m
run m (call ∷ calls) = run (step m call) calls

abbrev pub IsValid : RegistryManager → Type 0
IsValid m = HasDistinctKeys m.m_nodes × IsKeyed m

pub step-HasDistinctKeys :
    (m : RegistryManager) (call : RegistryCall)
    → HasDistinctKeys m.m_nodes
    → HasDistinctKeys (step m call).m_nodes
unfolding step
step-HasDistinctKeys m (registers now info) d = register_worker-HasDistinctKeys now m info d
step-HasDistinctKeys m (beats now node_id memory models) d =
    update_heartbeat-HasDistinctKeys now m node_id memory models d
step-HasDistinctKeys m (removes node_id) d = remove_worker-HasDistinctKeys m node_id d
step-HasDistinctKeys m (scans now) d = scan_timeout_nodes-HasDistinctKeys now m d

pub step-IsKeyed : (m : RegistryManager) (call : RegistryCall) → IsValid m → IsKeyed (step m call)
unfolding step
step-IsKeyed m (registers now info) (d, keyed) key =
    let registered = register_worker now m info in
    subst (IsKeyedAt key) (sym (register_worker_lem now m info key))
      (elim (Bool-cases (str_eq registered.0 key)) [
        | inl same ↦ rw same ((eq_iff registered.0 key).0 same)
        | inr other ↦ rw other (keyed key)
      ])
step-IsKeyed m (beats now node_id memory models) (d, keyed) key =
    subst (IsKeyedAt key) (sym (update_heartbeat_lem now m node_id memory models key))
      (elim (Option-cases (find m.m_nodes key)) [
        | inl missing ↦ rw missing tt
        | inr (node, found) ↦
            let same_id = subst (IsKeyedAt key) found (keyed key) in
            elim (Bool-cases (str_eq node_id key)) [
              | inl same ↦ rw (found, same) same_id
              | inr other ↦ rw (found, other) same_id
            ]
      ])
step-IsKeyed m (removes node_id) (d, keyed) key =
    subst (IsKeyedAt key) (sym (remove_worker_lem m node_id key))
      (elim (Bool-cases (str_eq node_id key)) [
        | inl same ↦ rw same tt
        | inr other ↦ rw other (keyed key)
      ])
step-IsKeyed m (scans now) (d, keyed) key =
    subst (IsKeyedAt key) (sym (scan_timeout_nodes_lem now m key d).0)
      (elim (Option-cases (find m.m_nodes key)) [
        | inl missing ↦ rw missing tt
        | inr (node, found) ↦ elim (Bool-cases (has_timed_out now node)) [
          | inl old ↦ rw (found, old) tt
          | inr recent ↦ rw (found, recent) (subst (IsKeyedAt key) found (keyed key))
        ]
      ])

pub step-IsValid : (m : RegistryManager) (call : RegistryCall) → IsValid m → IsValid (step m call)
step-IsValid m call v = (step-HasDistinctKeys m call v.0, step-IsKeyed m call v)

run-IsValid : (m : RegistryManager) (calls : List RegistryCall) → IsValid m → IsValid (run m calls)
unfolding run
run-IsValid m [] v = v
run-IsValid m (call ∷ calls) v = run-IsValid (step m call) calls (step-IsValid m call v)

new_registry_manager-IsValid : IsValid new_registry_manager
unfolding find
new_registry_manager-IsValid = (tt, λ key. tt)

-- After any sequence of registrations, heartbeats, removals and scans on a new registry, no id has
-- two entries in the table and every entry holds its key as its id.
pub run-new-IsValid : (calls : List RegistryCall) → IsValid (run new_registry_manager calls)
run-new-IsValid calls = run-IsValid new_registry_manager calls new_registry_manager-IsValid

-- After any sequence of calls on a new registry, a query returns only nodes that the index has for
-- the model, each as the table has it, online and heard of less than 30 seconds ago, and those with
-- the most available memory first.
pub run-new-IsOffered :
    (calls : List RegistryCall) (now : ℕ) (model : String)
    → let m = run new_registry_manager calls in
      All (IsOffered now m model) (get_online_nodes_by_model now m model)
      × IsSorted (get_online_nodes_by_model now m model)
run-new-IsOffered calls now model =
    get_online_nodes_by_model-IsOffered now (run new_registry_manager calls) model
      (run-new-IsValid calls).1
