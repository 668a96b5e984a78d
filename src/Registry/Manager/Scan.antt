-- ===== src/Registry/Manager/Scan.antt =====
-- What `ScanTimeoutNodes` removes.
use text.Mathlib.Text.{◌==◌ as str_eq}
use text.Mathlib.TextEquality.{eq_iff}
use turbo_core_dist_ai_clush.Prelude.{
  ap, ◌∙◌, ℕ, ◌+◌, ◌*◌, ltb, ◌≡◌, ◌<◌, refl, Bool, true, false, List, [], ◌∷◌, String, arith,
  if◌then◌else◌, Option, none, some, inl, inr, Bool-cases,
}
use turbo_core_dist_ai_clush.Prelude.Int.{ℤ}
use turbo_core_dist_ai_clush.Prelude.Dict.{StringMap, find, has, HasDistinctKeys, has-find}
use turbo_core_dist_ai_clush.Registry.NodeInfo.{RegistryNodeInfo}
use turbo_core_dist_ai_clush.Registry.Manager.{
  RegistryManager, has_timed_out, scan_nodes, scan_timeout_nodes, seconds_since, update_heartbeat,
  refreshed, ticks_per_second,
}
use turbo_core_dist_ai_clush.Registry.Manager.Table.{
  find-update_heartbeat, update_heartbeat-HasDistinctKeys,
}

-- The id is in the list.
unfoldable pub lists : List String → String → Bool
lists [] id = false
lists (first ∷ ids) id = if str_eq first id then true else lists ids id

-- An entry that stays, and an entry that goes.
abbrev pub kept : ℕ → Option RegistryNodeInfo → Option RegistryNodeInfo
kept now none = none
kept now (some node) = if has_timed_out now node then none else some node

abbrev pub goes : ℕ → Option RegistryNodeInfo → Bool
goes now none = false
goes now (some node) = has_timed_out now node

missing :
    (nodes : StringMap RegistryNodeInfo) (key id : String)
    → has nodes key ≡ false
    → str_eq key id ≡ true
    → find nodes id ≡ none
missing nodes key id none_there same =
    ground (arith, has-find nodes id, ap (has nodes) ((eq_iff key id).0 same), none_there)

scan_nodes-find :
    (now : ℕ) (nodes : StringMap RegistryNodeInfo) (id : String)
    → HasDistinctKeys nodes
    → (find (scan_nodes now nodes).1 id ≡ kept now (find nodes id))
      × (lists (scan_nodes now nodes).0 id ≡ goes now (find nodes id))
unfolding scan_nodes find lists has
scan_nodes-find now [] id d = (refl, refl)
scan_nodes-find now ((key, node) ∷ nodes) id d =
    let ih = scan_nodes-find now nodes id d.1 in
    elim (Bool-cases (str_eq key id)) [
      | inl same ↦ ground (arith, same, ih.0, ih.1, missing nodes key id d.0 same)
      | inr other ↦ ground (arith, other, ih.0, ih.1)
    ]

scan_nodes-HasDistinctKeys :
    (now : ℕ) (nodes : StringMap RegistryNodeInfo)
    → HasDistinctKeys nodes
    → HasDistinctKeys (scan_nodes now nodes).1
unfolding scan_nodes has
scan_nodes-HasDistinctKeys now [] d = tt
scan_nodes-HasDistinctKeys now ((key, node) ∷ nodes) d =
    let rest = scan_nodes-HasDistinctKeys now nodes d.1 in
    elim (Bool-cases (has_timed_out now node)) [
      | inl old ↦ rw old rest
      | inr fresh ↦ rw fresh (
        ground (
          arith,
          has-find (scan_nodes now nodes).1 key,
          (scan_nodes-find now nodes key d.1).0,
          has-find nodes key,
          d.0,
        ),
        rest,
      )
    ]

-- Where no id has two entries, `ScanTimeoutNodes` returns exactly the ids of the nodes that were
-- last heard of more than 30 seconds ago, measured in whole seconds, and takes exactly these out of
-- the table; every other entry is as it was.
pub scan_timeout_nodes_lem :
    (now : ℕ) (m : RegistryManager) (id : String)
    → HasDistinctKeys m.m_nodes
    → (find (scan_timeout_nodes now m).1.m_nodes id ≡ kept now (find m.m_nodes id))
      × (lists (scan_timeout_nodes now m).0 id ≡ goes now (find m.m_nodes id))
unfolding scan_timeout_nodes
scan_timeout_nodes_lem now m id d = scan_nodes-find now m.m_nodes id d

recent_stays :
    (now last : ℕ) → now < last + 31 * ticks_per_second → ltb 30 (seconds_since now last) ≡ false
unfolding seconds_since
recent_stays now last h = ground arith

-- A node that is in the table and sends a heartbeat is in the table after a scan less than 31
-- seconds later, online and with the memory and the models of that heartbeat, and the scan does not
-- report it.
pub scan_timeout_nodes-update_heartbeat :
    (now later : ℕ) (m : RegistryManager) (id : String) (memory : ℤ) (models : List String)
    (node : RegistryNodeInfo)
    → HasDistinctKeys m.m_nodes
    → find m.m_nodes id ≡ some node
    → later < now + 31 * ticks_per_second
    → let scanned = scan_timeout_nodes later (update_heartbeat now m id memory models) in
      (find scanned.1.m_nodes id ≡ some (refreshed now memory models node))
      × (lists scanned.0 id ≡ false)
scan_timeout_nodes-update_heartbeat now later m id memory models node d found soon =
    let m' = update_heartbeat now m id memory models in
    let beaten = find-update_heartbeat now m id memory models node found in
    let scanned =
      scan_timeout_nodes_lem later m' id
        (update_heartbeat-HasDistinctKeys now m id memory models d) in
    let stays = recent_stays later now soon in
    (scanned.0 ∙ ap (kept later) beaten ∙ rw stays, scanned.1 ∙ ap (goes later) beaten ∙ stays)

pub scan_timeout_nodes-HasDistinctKeys :
    (now : ℕ) (m : RegistryManager)
    → HasDistinctKeys m.m_nodes
    → HasDistinctKeys (scan_timeout_nodes now m).1.m_nodes
unfolding scan_timeout_nodes
scan_timeout_nodes-HasDistinctKeys now m d = scan_nodes-HasDistinctKeys now m.m_nodes d
