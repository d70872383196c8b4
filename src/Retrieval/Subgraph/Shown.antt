-- ===== src/Retrieval/Subgraph/Shown.antt =====
-- What visibleSubgraph returns: nodes and edges that may be seen.
use gontext.Base.{ℕ}
use gontext.Base.{String, string_eq, ◌==◌, eq_iff, contains}
use gontext.Base.{◌≡◌, refl, inl, inr}
use gontext.Base.{true, false, not, ◌||◌, some, List, [], ◌∷◌, map}
use gontext.Base.{arith, Bool-cases, Option-cases, take, select, All}
use gontext.Base.Sort.{sort, text_less, All-sort}
use gontext.Ports.{Principal, AuthzCheck, AuthzDecision, GraphEdge, LedgerRecord}
use gontext.Platform.{ok, Result-cases}
use gontext.Ledger.Edges.{tombstoned}
use gontext.Retrieval.{Pipeline, Request, GraphNode}
use gontext.Retrieval.Subgraph.{
  Walk, edge_cap, unique, edges_of, batch_allow, hydrate, shown, is_shown, node_of, visible_edges,
  edge_before, shown_graph, visible_subgraph,
}
use gontext.Retrieval.Subgraph.Visible.{
  Decides, Lists, Allows, Within, All-contains, batch_allow-Allows, select-Both, walk-Within,
}

module _ (p : Pipeline) (decide : AuthzCheck → AuthzDecision) (Stored : GraphEdge → Type 0)
    (principal : Principal) (req : Request) (predicates seeds : List String) (depth : ℕ) where
  -- A resource within reach, by resources that may be read, whose record the ledger returns and
  -- the policy and the record's state let be shown.
  unfoldable pub IsOpen : String → LedgerRecord → Type 0
  IsOpen id rec =
      Within decide Stored principal req seeds depth id
      × (p.get_record req.org_id id ≡ ok rec)
      × (is_shown p principal req predicates rec ≡ true)

  -- The node of such a record.
  unfoldable pub IsDisclosed : GraphNode → Type 0
  IsDisclosed n = (id : String) × (rec : LedgerRecord) × IsOpen id rec × (n ≡ node_of rec)

  -- An edge that is not removed, both of whose ends are such resources.
  unfoldable pub IsDisclosedEdge : GraphEdge → Type 0
  IsDisclosedEdge e =
      ((e.state == tombstoned) ≡ false)
      × ((rec : LedgerRecord) × IsOpen e.from_id rec)
      × ((rec : LedgerRecord) × IsOpen e.to_id rec)

  shown-some :
      (id : String) (rec : LedgerRecord)
      → shown p principal req predicates id ≡ some rec
      → (p.get_record req.org_id id ≡ ok rec) × (is_shown p principal req predicates rec ≡ true)
  unfolding shown
  shown-some id rec h = elim (Result-cases (p.get_record req.org_id id)) [
    | inl (e, k) ↦ absurd (cc (rw (k, shown) at h))
    | inr (r, k) ↦ elim (Bool-cases (is_shown p principal req predicates r)) [
      | inl y ↦ let same : r ≡ rec = cc (rw (k, y, shown) at h) in rw (← same) (k, y)
      | inr n ↦ absurd (cc (rw (k, n, shown) at h))
    ]
  ]

  hydrate-IsOpen :
      (ids : List String)
      → All (Within decide Stored principal req seeds depth) ids
      → All
          (λ x. (rec : LedgerRecord) × IsOpen x.0 rec × (x.1 ≡ node_of rec))
          (hydrate p principal req predicates ids)
  unfolding hydrate IsOpen
  hydrate-IsOpen [] a = tt
  hydrate-IsOpen (id ∷ ids) (w, a) = elim (Option-cases (shown p principal req predicates id)) [
    | inl n ↦ rw (n, hydrate) (hydrate-IsOpen ids a)
    | inr (rec, e) ↦
        let (g, s) = shown-some id rec e in
        rw (e, hydrate) ((rec, (w, g, s), refl), hydrate-IsOpen ids a)
  ]

  ids-IsOpen :
      (xs : List (String × GraphNode))
      → All (λ x. (rec : LedgerRecord) × IsOpen x.0 rec × (x.1 ≡ node_of rec)) xs
      → All (λ id. (rec : LedgerRecord) × IsOpen id rec) (map (λ (x : String × GraphNode). x.0) xs)
  ids-IsOpen [] a = tt
  ids-IsOpen (x ∷ xs) ((rec, o, s), a) = ((rec, o), ids-IsOpen xs a)

  nodes-IsDisclosed :
      (xs : List (String × GraphNode))
      → All (λ x. (rec : LedgerRecord) × IsOpen x.0 rec × (x.1 ≡ node_of rec)) xs
      → All IsDisclosed (map (λ (x : String × GraphNode). x.1) xs)
  unfolding IsDisclosed
  nodes-IsDisclosed [] a = tt
  nodes-IsDisclosed (x ∷ xs) ((rec, o, s), a) = ((x.0, rec, o, s), nodes-IsDisclosed xs a)

  visible_edges-IsDisclosedEdge :
      (ids : List String) (es : List GraphEdge) (seen : List String)
      → All (λ id. (rec : LedgerRecord) × IsOpen id rec) ids
      → All IsDisclosedEdge (visible_edges ids seen es)
  unfolding visible_edges IsDisclosedEdge
  visible_edges-IsDisclosedEdge ids [] seen a = tt
  visible_edges-IsDisclosedEdge ids (e ∷ es) seen a =
      elim (Bool-cases (
        e.state == tombstoned
        || contains seen e.edge_id
        || not (contains ids e.from_id)
        || not (contains ids e.to_id))) [
          | inl y ↦ rw (y) (visible_edges-IsDisclosedEdge ids es seen a)
          | inr n ↦ rw (n) (
            (
              ground arith,
              All-contains (λ id. (rec : LedgerRecord) × IsOpen id rec) ids e.from_id a
                  (ground arith),
              All-contains (λ id. (rec : LedgerRecord) × IsOpen id rec) ids e.to_id a
                  (ground arith),
            ),
            visible_edges-IsDisclosedEdge ids es (e.edge_id ∷ seen) a,
          )
        ]

  shown_graph-IsDisclosed :
      (w : Walk)
      → All (Within decide Stored principal req seeds depth) w.discovery
      → All IsDisclosed (shown_graph p principal req predicates w).nodes
        × All IsDisclosedEdge (shown_graph p principal req predicates w).edges
  unfolding shown_graph
  shown_graph-IsDisclosed w a =
      let found = hydrate p principal req predicates w.discovery in
      let opened = hydrate-IsOpen w.discovery a in
      elim (Result-cases
        (edges_of p principal req predicates (map (λ (x : String × GraphNode). x.0) found))) [
          | inl (x, h) ↦ rw (h, shown_graph) (nodes-IsDisclosed found opened, tt)
          | inr (es, h) ↦
              rw (h, shown_graph)
                (
                  nodes-IsDisclosed found opened,
                  All-sort IsDisclosedEdge edge_before _ (
                      visible_edges-IsDisclosedEdge _ (take edge_cap es) []
                        (ids-IsOpen found opened)),
                )
        ]

  unique-All :
      (P : String → Type 0) (xs : List String) (seen : List String)
      → All P xs
      → All P (unique seen xs)
  unfolding unique
  unique-All P [] seen a = tt
  unique-All P (x ∷ xs) seen (h, a) = elim (Bool-cases (x == "" || contains seen x)) [
    | inl y ↦ rw (y) (unique-All P xs seen a)
    | inr n ↦ rw (n) (h, unique-All P xs (x ∷ seen) a)
  ]

  contained :
      (ys xs : List String)
      → ((x : String) → contains xs x ≡ true → contains ys x ≡ true)
      → All (λ x. contains ys x ≡ true) xs
  contained ys [] sub = tt
  contained ys (x ∷ xs) sub =
      (sub x (ground (arith, eq_iff x x)), contained ys xs (λ y m. sub y (ground arith)))

  -- Every node that visibleSubgraph returns is of a resource within reach of the seeds, over
  -- resources that may all be read, and may be shown; so are both ends of every edge.
  pub visible_subgraph-IsDisclosed :
      Decides p decide
      → Lists p req.org_id Stored
      → All IsDisclosed (visible_subgraph p principal req predicates seeds depth).nodes
        × All IsDisclosedEdge (visible_subgraph p principal req predicates seeds depth).edges
  unfolding visible_subgraph
  visible_subgraph-IsDisclosed d l =
      let ids = sort text_less (unique [] seeds) in
      elim (Result-cases (batch_allow p principal req ids)) [
        | inl (x, h) ↦ rw (h, visible_subgraph) (tt, tt)
        | inr (a, h) ↦
            let first : All (Within decide Stored principal req seeds 0)
                (select (contains a.0) ids) =
              unfold Within in
              select-Both (λ x. contains seeds x ≡ true) (Allows decide principal req) a.0 ids
                (All-sort (λ x. contains seeds x ≡ true) text_less (unique [] seeds)
                  (unique-All (λ x. contains seeds x ≡ true) seeds []
                    (contained seeds seeds (λ x m. m))))
                (batch_allow-Allows p decide principal req ids a d h) in
            rw (h, visible_subgraph)
              (shown_graph-IsDisclosed _ (
                walk-Within decide Stored principal req seeds p predicates d l depth 0 depth _
                  (omega arith) (λ x m. m) first))
      ]
