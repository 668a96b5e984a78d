-- ===== src/Registry/Manager/Query.antt =====
-- What `GetOnlineNodesByModel` returns.
use mathlib.Core.List.{Mem, Memᴰ, mem-cons_self, Mem-prop, mem-cons_of_mem}
use mathlib.Core.List.Perm
use mathlib.Core.Logic.{∥∥₁_elim}
use turbo_core_dist_ai_clush.Prelude.{
  ap, Option, none, some, sym, subst, ◌∙◌, ℕ, ◌≡◌, ◌<◌, refl, true, false, List, [], ◌∷◌, String,
  arith, none, some, Option-cases, inl, inr, All, Bool-cases,
}
use turbo_core_dist_ai_clush.Prelude.Dict.{find}
use turbo_core_dist_ai_clush.Registry.NodeInfo.{
  RegistryNodeInfo, NodeStatus, offline, online, unhealthy,
}
use turbo_core_dist_ai_clush.Registry.Manager.{
  RegistryManager, ids_of, seconds_since, is_online, is_available, available_nodes, sort_nodes,
  get_online_nodes_by_model,
}
use turbo_core_dist_ai_clush.Registry.Manager.Sort.{
  IsSorted, sort_nodes-IsSorted, sort_nodes-Perm, sort_nodes-All,
}

-- Every entry has its key as its id.
abbrev pub IsKeyedAt : String → Option RegistryNodeInfo → Type 0
IsKeyedAt key none = Unit
IsKeyedAt key (some node) = node.node_id ≡ key

abbrev pub IsKeyed : RegistryManager → Type 0
IsKeyed m = (key : String) → IsKeyedAt key (find m.m_nodes key)

-- The index has the node for the model, the table has the node as it is given, its last heartbeat is
-- less than 30 seconds ago and it is online.
abbrev pub IsOffered : ℕ → RegistryManager → String → RegistryNodeInfo → Type 0
IsOffered now m model node =
    Mem node.node_id (ids_of m.m_model_to_nodes model)
    × (find m.m_nodes node.node_id ≡ some node)
    × (seconds_since now node.last_heartbeat < 30)
    × (node.status ≡ online)

online_lem : (status : NodeStatus) → is_online status ≡ true → status ≡ online
online_lem offline h = ground arith
online_lem online h = refl
online_lem unhealthy h = ground arith

module _ (now : ℕ) (m : RegistryManager) where
  Chosen : List String → RegistryNodeInfo → Type 0
  Chosen ids node =
      Mem node.node_id ids
      × (find m.m_nodes node.node_id ≡ some node)
      × (seconds_since now node.last_heartbeat < 30)
      × (node.status ≡ online)

  available_lem :
      (node : RegistryNodeInfo)
      → is_available now node ≡ true
      → (seconds_since now node.last_heartbeat < 30) × (node.status ≡ online)
  unfolding is_available
  available_lem node h = (ground arith, online_lem node.status (ground arith))

  lem_available :
      (node : RegistryNodeInfo)
      → seconds_since now node.last_heartbeat < 30
      → node.status ≡ online
      → is_available now node ≡ true
  unfolding is_available
  lem_available node h e = ground (arith, ap is_online e)

  later :
      (id : String) (ids : List String) (node : RegistryNodeInfo)
      → Chosen ids node
      → Chosen (id ∷ ids) node
  unfolding Chosen
  later id ids node (mem, found, fresh, is_on) = (mem-cons_of_mem id mem, found, fresh, is_on)

  All-later :
      (id : String) (ids : List String) (nodes : List RegistryNodeInfo)
      → All (Chosen ids) nodes
      → All (Chosen (id ∷ ids)) nodes
  All-later id ids [] all = tt
  All-later id ids (node ∷ nodes) all = (later id ids node all.0, All-later id ids nodes all.1)

  module _ (id : String) (ids : List String) where
    available_nodes-missing :
        find m.m_nodes id ≡ none
        → available_nodes now m.m_nodes (id ∷ ids) ≡ available_nodes now m.m_nodes ids
    unfolding available_nodes
    available_nodes-missing e = ground (arith, e)

    available_nodes-stale :
        {node : RegistryNodeInfo}
        → find m.m_nodes id ≡ some node
        → is_available now node ≡ false
        → available_nodes now m.m_nodes (id ∷ ids) ≡ available_nodes now m.m_nodes ids
    unfolding available_nodes
    available_nodes-stale e h = ground (arith, e, h)

    available_nodes-fresh :
        {node : RegistryNodeInfo}
        → find m.m_nodes id ≡ some node
        → is_available now node ≡ true
        → available_nodes now m.m_nodes (id ∷ ids) ≡ node ∷ available_nodes now m.m_nodes ids
    unfolding available_nodes
    available_nodes-fresh e h = ground (arith, e, h)

    chosen :
        {node : RegistryNodeInfo}
        → node.node_id ≡ id
        → find m.m_nodes id ≡ some node
        → is_available now node ≡ true
        → Chosen (id ∷ ids) node
    unfolding Chosen
    chosen {node} same found available =
        let fresh = available_lem node available in
        (
          subst (λ i. Mem i (id ∷ ids)) (sym same) mem-cons_self,
          ap (find m.m_nodes) same ∙ found,
          fresh.0,
          fresh.1,
        )

  available_nodes-All :
      (ids : List String) → IsKeyed m → All (Chosen ids) (available_nodes now m.m_nodes ids)
  unfolding available_nodes
  available_nodes-All [] keyed = tt
  available_nodes-All (id ∷ ids) keyed =
      let rest =
        All-later id ids (available_nodes now m.m_nodes ids) (available_nodes-All ids keyed) in
      elim (Option-cases (find m.m_nodes id)) [
        | inl missing ↦
            subst (All (Chosen (id ∷ ids))) (sym (available_nodes-missing id ids missing)) rest
        | inr (node, found) ↦ elim (Bool-cases (is_available now node)) [
          | inl available ↦
              subst (All (Chosen (id ∷ ids))) (sym (available_nodes-fresh id ids found available))
                (chosen id ids (subst (IsKeyedAt id) found (keyed id)) found available, rest)
          | inr stale ↦
              subst (All (Chosen (id ∷ ids))) (sym (available_nodes-stale id ids found stale)) rest
        ]
      ]

  available_nodes-later :
      (id : String) (ids : List String) (node : RegistryNodeInfo)
      → Mem node (available_nodes now m.m_nodes ids)
      → Mem node (available_nodes now m.m_nodes (id ∷ ids))
  available_nodes-later id ids node mem = elim (Option-cases (find m.m_nodes id)) [
    | inl missing ↦ subst (Mem node) (sym (available_nodes-missing id ids missing)) mem
    | inr (other, found) ↦ elim (Bool-cases (is_available now other)) [
      | inl available ↦
          subst (Mem node) (sym (available_nodes-fresh id ids found available))
            (mem-cons_of_mem other mem)
      | inr stale ↦ subst (Mem node) (sym (available_nodes-stale id ids found stale)) mem
    ]
  ]

  available_nodes-Mem :
      (ids : List String) (id : String) (node : RegistryNodeInfo)
      → Memᴰ id ids
      → find m.m_nodes id ≡ some node
      → is_available now node ≡ true
      → Mem node (available_nodes now m.m_nodes ids)
  available_nodes-Mem [] id node mem found available = elim mem [ ]
  available_nodes-Mem (first ∷ ids) id node (Memᴰ.head e) found available =
      subst (Mem node)
        (sym (available_nodes-fresh first ids (ap (find m.m_nodes) (sym e) ∙ found) available))
        mem-cons_self
  available_nodes-Mem (first ∷ ids) id node (Memᴰ.tail mem) found available =
      available_nodes-later first ids node (available_nodes-Mem ids id node mem found available)

pub query_lem :
    (now : ℕ) (m : RegistryManager) (model : String)
    → get_online_nodes_by_model now m model
      ≡ sort_nodes (available_nodes now m.m_nodes (ids_of m.m_model_to_nodes model))
unfolding get_online_nodes_by_model available_nodes sort_nodes
query_lem now m model = elim (Option-cases (find m.m_model_to_nodes model)) [
  | inl missing ↦ ground (arith, missing)
  | inr (ids, found) ↦ ground (arith, found)
]

-- Where every entry has its key as its id, `GetOnlineNodesByModel` returns only nodes that the
-- index has for the model, each as the table has it, online and heard of less than 30 seconds ago,
-- and those with the most available memory first.
pub get_online_nodes_by_model-IsOffered :
    (now : ℕ) (m : RegistryManager) (model : String)
    → IsKeyed m
    → All (IsOffered now m model) (get_online_nodes_by_model now m model)
      × IsSorted (get_online_nodes_by_model now m model)
unfolding Chosen
get_online_nodes_by_model-IsOffered now m model keyed =
    let chosen = available_nodes now m.m_nodes (ids_of m.m_model_to_nodes model) in
    subst (λ nodes. All (IsOffered now m model) nodes × IsSorted nodes)
      (sym (query_lem now m model))
      (
        sort_nodes-All (IsOffered now m model) chosen
            (available_nodes-All now m (ids_of m.m_model_to_nodes model) keyed),
        sort_nodes-IsSorted chosen,
      )

-- `GetOnlineNodesByModel` returns every node that the index has for the model and the table has
-- online and heard of less than 30 seconds ago.
pub get_online_nodes_by_model-Mem :
    (now : ℕ) (m : RegistryManager) (model : String) (node : RegistryNodeInfo)
    → IsOffered now m model node
    → Mem node (get_online_nodes_by_model now m model)
get_online_nodes_by_model-Mem now m model node (mem, found, fresh, is_on) =
    let ids = ids_of m.m_model_to_nodes model in
    subst (Mem node) (sym (query_lem now m model)) (
      (Perm.mem_iff (sort_nodes-Perm (available_nodes now m.m_nodes ids))).0 (
        ∥∥₁_elim mem Mem-prop (λ d.
          available_nodes-Mem now m ids node.node_id node d found
            (lem_available now m node fresh is_on))))
