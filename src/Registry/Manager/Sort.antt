-- ===== src/Registry/Manager/Sort.antt =====
-- The sort of `GetOnlineNodesByModel`: its result is sorted and has the same nodes.
use mathlib.Core.List.{Perm}
use mathlib.Core.List.Perm
use turbo_core_dist_ai_clush.Prelude.{
  ◌≡◌, true, false, List, [], ◌∷◌, arith, inl, inr, All, Bool-cases,
}
use turbo_core_dist_ai_clush.Prelude.Int.{ℤ, ltb_ℤ, ◌≤ℤ◌}
use turbo_core_dist_ai_clush.Registry.NodeInfo.{RegistryNodeInfo}
use turbo_core_dist_ai_clush.Registry.Manager.{insert_node, sort_nodes}

-- Most available memory first.
abbrev pub IsSorted : List RegistryNodeInfo → Type 0
IsSorted [] = Unit
IsSorted (first ∷ rest) =
    All (λ node. node.available_memory_mb ≤ℤ first.available_memory_mb) rest × IsSorted rest

insert_node-All {ℓ} :
    (P : RegistryNodeInfo → Type ℓ) (node : RegistryNodeInfo) (nodes : List RegistryNodeInfo)
    → P node
    → All P nodes
    → All P (insert_node node nodes)
unfolding insert_node
insert_node-All P node [] p ps = (p, ps)
insert_node-All P node (first ∷ rest) p ps =
    elim (Bool-cases (ltb_ℤ node.available_memory_mb first.available_memory_mb)) [
      | inl less ↦ rw less (ps.0, insert_node-All P node rest p ps.1)
      | inr more ↦ rw more (p, ps)
    ]

ltb_ℤ→le : (a b : ℤ) → ltb_ℤ a b ≡ true → a ≤ℤ b
ltb_ℤ→le a b h = ground arith

not_ltb_ℤ→le : (a b : ℤ) → ltb_ℤ a b ≡ false → b ≤ℤ a
not_ltb_ℤ→le a b h = ground arith

≤ℤ_trans : (a b c : ℤ) → a ≤ℤ b → b ≤ℤ c → a ≤ℤ c
≤ℤ_trans a b c h k = ground arith

weaken-All :
    (a b : ℤ) (nodes : List RegistryNodeInfo)
    → a ≤ℤ b
    → All (λ node. node.available_memory_mb ≤ℤ a) nodes
    → All (λ node. node.available_memory_mb ≤ℤ b) nodes
weaken-All a b [] h all = tt
weaken-All a b (node ∷ nodes) h all =
    (≤ℤ_trans node.available_memory_mb a b all.0 h, weaken-All a b nodes h all.1)

insert_node-IsSorted :
    (node : RegistryNodeInfo) (nodes : List RegistryNodeInfo)
    → IsSorted nodes
    → IsSorted (insert_node node nodes)
unfolding insert_node
insert_node-IsSorted node [] s = (tt, tt)
insert_node-IsSorted node (first ∷ rest) s =
    elim (Bool-cases (ltb_ℤ node.available_memory_mb first.available_memory_mb)) [
      | inl less ↦ rw less (
        insert_node-All (λ n. n.available_memory_mb ≤ℤ first.available_memory_mb) node rest
            (ltb_ℤ→le node.available_memory_mb first.available_memory_mb less) s.0,
        insert_node-IsSorted node rest s.1,
      )
      | inr more ↦
          let le = not_ltb_ℤ→le node.available_memory_mb first.available_memory_mb more in
          rw more
            ((le, weaken-All first.available_memory_mb node.available_memory_mb rest le s.0), s)
    ]

pub sort_nodes-IsSorted : (nodes : List RegistryNodeInfo) → IsSorted (sort_nodes nodes)
unfolding sort_nodes
sort_nodes-IsSorted [] = tt
sort_nodes-IsSorted (node ∷ nodes) =
    insert_node-IsSorted node (sort_nodes nodes) (sort_nodes-IsSorted nodes)

insert_node-Perm :
    (node : RegistryNodeInfo) (nodes : List RegistryNodeInfo)
    → Perm (node ∷ nodes) (insert_node node nodes)
unfolding insert_node
insert_node-Perm node [] = Perm.refl (node ∷ [])
insert_node-Perm node (first ∷ rest) =
    elim (Bool-cases (ltb_ℤ node.available_memory_mb first.available_memory_mb)) [
      | inl less ↦
          rw less
            (Perm.trans (Perm.swap first node rest) (Perm.cons first (insert_node-Perm node rest)))
      | inr more ↦ rw more (Perm.refl (node ∷ first ∷ rest))
    ]

pub sort_nodes-Perm : (nodes : List RegistryNodeInfo) → Perm nodes (sort_nodes nodes)
unfolding sort_nodes
sort_nodes-Perm [] = Perm.refl []
sort_nodes-Perm (node ∷ nodes) =
    Perm.trans (Perm.cons node (sort_nodes-Perm nodes)) (insert_node-Perm node (sort_nodes nodes))

pub sort_nodes-All {ℓ} :
    (P : RegistryNodeInfo → Type ℓ) (nodes : List RegistryNodeInfo)
    → All P nodes
    → All P (sort_nodes nodes)
unfolding sort_nodes
sort_nodes-All P [] ps = tt
sort_nodes-All P (node ∷ nodes) ps =
    insert_node-All P node (sort_nodes nodes) ps.0 (sort_nodes-All P nodes ps.1)
