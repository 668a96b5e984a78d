-- ===== src/Registry/Server/Broadcast.antt =====
-- The notices that a node is gone.
use turbo_core_dist_ai_clush.Prelude.{
  Option, some, ap₂, ap, ℕ, ◌≡◌, refl, Bool, List, [], ◌∷◌, ◌++◌, String, arith, if◌then◌else◌,
  none, map,
}
use turbo_core_dist_ai_clush.Prelude.Result.{ok}
use turbo_core_dist_ai_clush.Registry.Manager.{scan_timeout_nodes}
use turbo_core_dist_ai_clush.Registry.Server.{
  RegistryServer, send_response, offline_body, broadcast, broadcast_all, scan_task,
}
use turbo_core_dist_ai_clush.Protocol.Header.{TransportHeader}
use turbo_core_dist_ai_clush.Protocol.Types.{PacketType}
use turbo_core_dist_ai_clush.Protocol.Json.{JsonLib}
use turbo_core_dist_ai_clush.Protocol.Packet.{serialize, build}

-- Those of the connections that are connected.
unfoldable pub connected : (ℕ → Bool) → List ℕ → List ℕ
connected is_connected [] = []
connected is_connected (conn ∷ conns) =
    if is_connected conn then conn ∷ connected is_connected conns else connected is_connected conns

unfoldable pub notices : List ℕ → List (List ℕ) → List (ℕ × List ℕ)
notices conns [] = []
notices conns (bytes ∷ rest) = map (λ conn. (conn, bytes)) conns ++ notices conns rest

module _ (J : JsonLib) (unset : TransportHeader) where
  -- The bytes of the notice about a node.
  abbrev pub IsNotice : String → List ℕ → Type 0
  IsNotice node_id bytes =
      serialize J
        (build J 0 PacketType.worker_offline "registry_server" (offline_body J unset node_id) unset)
        []
      ≡ ok bytes

  abbrev pub AreNotices : List String → List (List ℕ) → Type 0
  AreNotices [] [] = Unit
  AreNotices [] (bytes ∷ rest) = ⊥
  AreNotices (node_id ∷ node_ids) [] = ⊥
  AreNotices (node_id ∷ node_ids) (bytes ∷ rest) = IsNotice node_id bytes × AreNotices node_ids rest

module _ (J : JsonLib) (unset : TransportHeader) (is_connected : ℕ → Bool) where
  broadcast_lem :
      (node_id : String) (bytes : List ℕ) (conns : List ℕ)
      → IsNotice J unset node_id bytes
      → broadcast J unset is_connected node_id conns
        ≡ (map (λ conn. (conn, bytes)) (connected is_connected conns), none)
  unfolding broadcast connected send_response
  broadcast_lem node_id bytes [] e = refl
  broadcast_lem node_id bytes (conn ∷ conns) e =
      ground (arith, e, broadcast_lem node_id bytes conns e)

  broadcast_all_lem :
      (conns : List ℕ) (node_ids : List String) (texts : List (List ℕ))
      → AreNotices J unset node_ids texts
      → broadcast_all J unset is_connected conns node_ids
        ≡ (notices (connected is_connected conns) texts, none)
  unfolding broadcast_all notices
  broadcast_all_lem conns [] [] n = refl
  broadcast_all_lem conns [] (bytes ∷ rest) n = elim n [ ]
  broadcast_all_lem conns (node_id ∷ node_ids) [] n = elim n [ ]
  broadcast_all_lem conns (node_id ∷ node_ids) (bytes ∷ rest) n =
      ap₂
        (λ (told rest : List (ℕ × List ℕ) × Option String).
          elim told.1 as (λ thrown. List (ℕ × List ℕ) × Option String) [
            | none ↦ (told.0 ++ rest.0, rest.1)
            | some e ↦ told
          ])
        (broadcast_lem node_id bytes conns n.0) (broadcast_all_lem conns node_ids rest n.1)

  -- Where every notice can be written, the scan task of the registry sends one notice for each node
  -- that the scan removed to each connection that is connected, node after node and each time in the
  -- order of the connections, no other message, and it throws nothing.
  pub scan_task_lem :
      (now : ℕ) (server : RegistryServer) (texts : List (List ℕ))
      → AreNotices J unset (scan_timeout_nodes now server.m_registry_manager).0 texts
      → ((scan_task J unset now is_connected server).sent
          ≡ notices (connected is_connected server.m_all_connections) texts)
        × ((scan_task J unset now is_connected server).thrown ≡ none)
  unfolding scan_task
  scan_task_lem now server texts n =
      let told =
        broadcast_all_lem server.m_all_connections
          (scan_timeout_nodes now server.m_registry_manager).0 texts n in
      (ap (λ t. t.0) told, ap (λ t. t.1) told)
