-- ===== src/Retrieval/Subgraph/Truncation.antt =====
-- What truncateGraphPreserveSeeds keeps.
use gontext.Base.{ℕ, zero, suc, ◌-◌, ◌≤◌, ◌<◌}
use gontext.Base.{String, string_eq, ◌==◌, eq_iff, contains}
use gontext.Base.{◌≡◌, refl, ◌≢◌, inl, inr}
use gontext.Base.{true, false, not, ◌&&◌, ◌||◌, List, [], ◌∷◌, ◌++◌}
use gontext.Base.{arith, leb, Bool-cases, length, select, All, length-append}
use gontext.Base.{number_eq}
use gontext.Base.Sort.{All-select_keeps, All-append}
use gontext.Ports.{GraphEdge}
use gontext.Retrieval.{GraphNode}
use gontext.Retrieval.Subgraph.{keep_seeds, keep_others, node_ids, truncate_graph}

keep_seeds-All :
    (P : GraphNode → Type 0) (nodes : List GraphNode) (seeds kept : List String) (room : ℕ)
    → All P nodes
    → All P (keep_seeds seeds kept room nodes)
unfolding keep_seeds
keep_seeds-All P [] seeds kept zero a = tt
keep_seeds-All P [] seeds kept (suc room) a = tt
keep_seeds-All P (n ∷ ns) seeds kept zero a = tt
keep_seeds-All P (n ∷ ns) seeds kept (suc room) (h, a) =
    elim (Bool-cases (contains seeds n.resource_id && not (contains kept n.resource_id))) [
      | inl y ↦ rw (y) (h, keep_seeds-All P ns seeds (n.resource_id ∷ kept) room a)
      | inr k ↦ rw (k) (keep_seeds-All P ns seeds kept (suc room) a)
    ]

keep_others-All :
    (P : GraphNode → Type 0) (nodes : List GraphNode) (kept : List String) (room : ℕ)
    → All P nodes
    → All P (keep_others kept room nodes)
unfolding keep_others
keep_others-All P [] kept zero a = tt
keep_others-All P [] kept (suc room) a = tt
keep_others-All P (n ∷ ns) kept zero a = tt
keep_others-All P (n ∷ ns) kept (suc room) (h, a) =
    elim (Bool-cases (contains kept n.resource_id)) [
      | inl y ↦ rw (y) (keep_others-All P ns kept (suc room) a)
      | inr k ↦ rw (k) (h, keep_others-All P ns (n.resource_id ∷ kept) room a)
    ]

length-keep_seeds :
    (nodes : List GraphNode) (seeds kept : List String) (room : ℕ)
    → length (keep_seeds seeds kept room nodes) ≤ room
unfolding keep_seeds
length-keep_seeds [] seeds kept zero = omega arith
length-keep_seeds [] seeds kept (suc room) = omega arith
length-keep_seeds (n ∷ ns) seeds kept zero = omega arith
length-keep_seeds (n ∷ ns) seeds kept (suc room) = ground (
  arith,
  length-keep_seeds ns seeds (n.resource_id ∷ kept) room,
  length-keep_seeds ns seeds kept (suc room),
)

length-keep_others :
    (nodes : List GraphNode) (kept : List String) (room : ℕ)
    → length (keep_others kept room nodes) ≤ room
unfolding keep_others
length-keep_others [] kept zero = omega arith
length-keep_others [] kept (suc room) = omega arith
length-keep_others (n ∷ ns) kept zero = omega arith
length-keep_others (n ∷ ns) kept (suc room) = ground (
  arith,
  length-keep_others ns (n.resource_id ∷ kept) room,
  length-keep_others ns kept (suc room),
)

-- The seed is kept, where it is among the nodes.
keep_seeds-seed :
    (nodes : List GraphNode) (seed : String) (kept : List String) (room : ℕ)
    → contains (node_ids nodes) seed ≡ true
    → contains kept seed ≡ false
    → contains (node_ids (keep_seeds (seed ∷ []) kept (suc room) nodes)) seed ≡ true
unfolding keep_seeds node_ids
keep_seeds-seed [] seed kept room h k = cc
keep_seeds-seed (n ∷ ns) seed kept room h k = elim (Bool-cases (n.resource_id == seed)) [
  | inl y ↦
      let same : n.resource_id ≡ seed = (eq_iff n.resource_id seed).0 y in
      rw (same, k) (ground (arith, eq_iff seed seed))
  | inr d ↦
      let other : (contains (seed ∷ []) n.resource_id && not (contains kept n.resource_id))
          ≡ false =
        ground (arith, eq_iff n.resource_id seed, eq_iff seed n.resource_id) in
      rw (other) (keep_seeds-seed ns seed kept room (ground arith) k)
]

node_ids-append :
    (xs ys : List GraphNode) (x : String)
    → contains (node_ids (xs ++ ys)) x ≡ (contains (node_ids xs) x || contains (node_ids ys) x)
unfolding node_ids
node_ids-append [] ys x = refl
node_ids-append (n ∷ xs) ys x = ground (arith, node_ids-append xs ys x)

-- Truncation adds no node and no edge.
pub truncate_graph-All :
    (P : GraphNode → Type 0) (Q : GraphEdge → Type 0) (nodes : List GraphNode)
    (edges : List GraphEdge) (seeds : List String) (max_nodes : ℕ)
    → All P nodes
    → All Q edges
    → All P (truncate_graph nodes edges seeds max_nodes).0
      × All Q (truncate_graph nodes edges seeds max_nodes).1
unfolding truncate_graph
truncate_graph-All P Q nodes edges seeds max_nodes a b =
    elim (Bool-cases (max_nodes == 0 || leb (length nodes) max_nodes)) [
      | inl y ↦ rw (y) (a, b)
      | inr n ↦ rw (n) (
        All-append P _ _ (keep_seeds-All P nodes _ [] max_nodes a) (keep_others-All P nodes _ _ a),
        All-select_keeps Q _ edges b,
      )
    ]

pub length-truncate_graph :
    (nodes : List GraphNode) (edges : List GraphEdge) (seeds : List String) (max_nodes : ℕ)
    → 0 < max_nodes
    → length (truncate_graph nodes edges seeds max_nodes).0 ≤ max_nodes
unfolding truncate_graph
length-truncate_graph nodes edges seeds max_nodes pos =
    elim (Bool-cases (max_nodes == 0 || leb (length nodes) max_nodes)) [
      | inl y ↦ rw (y) (ground arith)
      | inr n ↦
          let named = select (λ s. not (s == "")) seeds in
          let first = keep_seeds named [] max_nodes nodes in
          let others = keep_others (node_ids first) (max_nodes - length first) nodes in
          rw (n) (
            omega (
              arith,
              length-append first others,
              length-keep_seeds nodes named [] max_nodes,
              length-keep_others nodes (node_ids first) (max_nodes - length first),
            ))
    ]

-- With a positive bound, truncateGraphPreserveSeeds keeps no more nodes than the bound, and keeps
-- the seed where the seed is among the nodes.
truncate_graph-seed :
    (nodes : List GraphNode) (edges : List GraphEdge) (seed : String) (max_nodes : ℕ)
    → 0 < max_nodes
    → seed ≢ ""
    → contains (node_ids nodes) seed ≡ true
    → (length (truncate_graph nodes edges (seed ∷ []) max_nodes).0 ≤ max_nodes)
      × (contains (node_ids (truncate_graph nodes edges (seed ∷ []) max_nodes).0) seed ≡ true)
unfolding truncate_graph
truncate_graph-seed nodes edges seed zero pos named found = absurd (omega arith)
truncate_graph-seed nodes edges seed (suc room) pos named found = (
  length-truncate_graph nodes edges (seed ∷ []) (suc room) pos,
  elim (Bool-cases (suc room == 0 || leb (length nodes) (suc room))) [
    | inl y ↦ rw (y) found
    | inr n ↦
        let full : (seed == "") ≡ false = ground (arith, eq_iff seed "") in
        let first = keep_seeds (seed ∷ []) [] (suc room) nodes in
        let others = keep_others (node_ids first) (suc room - length first) nodes in
        rw (n, full)
          (ground (
            arith,
            node_ids-append first others seed,
            keep_seeds-seed nodes seed [] room found refl,
          ))
  ],
)
