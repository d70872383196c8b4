-- ===== src/Retrieval/Subgraph.antt =====
-- batchAllow, visibleSubgraph, truncateGraphPreserveSeeds and sanitizeNodeAttrs of
-- internal/retrieval/retrieval.go.
pub mod Visible
pub mod Shown
pub mod Truncation
use gontext.Base.{ℕ, zero, suc, ◌+◌, ◌-◌}
use gontext.Base.{String, string_eq, ◌==◌, contains}
use gontext.Base.{Bool, true, false, not, ◌&&◌, ◌||◌, Option, none, some, List, [], ◌∷◌, ◌++◌, map}
use gontext.Base.{ltb, leb, number_eq, if◌then◌else◌, length, take, select}
use gontext.Base.Dict.{Dict}
use gontext.Base.Sort.{sort, text_less, is_empty}
use gontext.Ports.{
  Principal, AuthzDecision, LedgerRecord, GraphEdge, lifecycle_placeholder, lifecycle_ensured,
}
use gontext.Platform.{Result, ok, err, ◌>>=◌}
use gontext.Ledger.Edges.{tombstoned}
use gontext.Deletion.{is_tombstoned}
use gontext.Retrieval.{Pipeline, Request, GraphNode, read_check, policy_request}

-- const edgeCap
abbrev pub edge_cap : ℕ
edge_cap = 500

-- The loop over the identifiers with their decisions: what is allowed, and the revision of the last
-- decision that allows.
unfoldable pub pair_allowed : List String → List AuthzDecision → String → List String × String
pair_allowed [] ds rev = ([], rev)
pair_allowed (id ∷ ids) [] rev = ([], rev)
pair_allowed (id ∷ ids) (d ∷ ds) rev =
    let rest = pair_allowed ids ds (if d.allowed then d.model_revision else rev) in
    (if d.allowed then id ∷ rest.0 else rest.0, rest.1)

-- batchAllow
unfoldable pub batch_allow :
    Pipeline → Principal → Request → List String → Result (List String × String)
batch_allow p principal req [] = ok ([], "")
batch_allow p principal req (id ∷ ids) =
    p.batch_check (map (read_check principal req) (id ∷ ids)) >>= λ ds.
    ok (pair_allowed (id ∷ ids) ds "")

-- The identifiers that are not "", each once, in order.
unfoldable pub unique : List String → List String → List String
unique seen [] = []
unique seen (id ∷ ids) =
    let rest = unique seen ids in
    let more = unique (id ∷ seen) ids in if id == "" || contains seen id then rest else id ∷ more

-- the ends of the edges that are not yet authorized, each once
unfoldable pub neighbors : List String → List String → List GraphEdge → List String
neighbors authorized seen [] = []
neighbors authorized seen (e ∷ es) =
    let from_new = not (contains authorized e.from_id) && not (contains seen e.from_id) in
    let seen' = if from_new then e.from_id ∷ seen else seen in
    let to_new = not (contains authorized e.to_id) && not (contains seen' e.to_id) in
    let seen'' = if to_new then e.to_id ∷ seen' else seen' in
    let skipped = neighbors authorized seen es in
    let rest = neighbors authorized seen'' es in
    if e.state == tombstoned
    then skipped
    else (if from_new then e.from_id ∷ [] else [])
      ++ ((if to_new then e.to_id ∷ [] else []) ++ rest)

-- The search's variables. `authzOK` holds what `discovery` does.
pub record Walk : Type 0 where
  pub discovery : List String
  pub frontier : List String
  pub truncated : Bool

abbrev pub hidden_attrs : List String
hidden_attrs = "visibility_ref" ∷ "placeholder" ∷ "ensured" ∷ "signing_secret" ∷ "mapping_spec" ∷ []

-- sanitizeNodeAttrs: no attributes are an empty map
unfoldable pub sanitize_node_attrs : Dict String → Dict String
sanitize_node_attrs attributes = select (λ a. not (contains hidden_attrs a.0)) attributes

unfoldable pub node_of : LedgerRecord → GraphNode
node_of rec = record {
  resource_id = rec.resource_id;
  kind = rec.kind;
  title = rec.title;
  classification = rec.classification;
  labels = rec.labels;
  revision_id = rec.current_rev_id;
  state = rec.state;
  attributes = sanitize_node_attrs rec.attributes;
}

-- the loop over the edges: those whose ends are both visible, each identifier once
unfoldable pub visible_edges : List String → List String → List GraphEdge → List GraphEdge
visible_edges ids seen [] = []
visible_edges ids seen (e ∷ es) =
    let skipped = visible_edges ids seen es in
    let rest = visible_edges ids (e.edge_id ∷ seen) es in
    if e.state == tombstoned
      || contains seen e.edge_id
      || not (contains ids e.from_id)
      || not (contains ids e.to_id)
    then skipped
    else e ∷ rest

-- the comparison of the returned edges
unfoldable pub edge_before : GraphEdge → GraphEdge → Bool
edge_before a b =
    if not (a.from_id == b.from_id)
    then text_less a.from_id b.from_id
    else if not (a.predicate == b.predicate)
    then text_less a.predicate b.predicate
    else text_less a.to_id b.to_id

-- The nodes, the edges, and whether a bound was met.
pub record Subgraph : Type 0 where
  pub ids : List String
  pub nodes : List GraphNode
  pub edges : List GraphEdge
  pub truncated : Bool

module _ (p : Pipeline) (principal : Principal) (req : Request) (predicates : List String) where
  edges_of : List String → Result (List GraphEdge)
  edges_of ids = p.list_edges req.org_id (record {
    resource_ids = ids;
    predicates = predicates;
    include_dead = false;
    limit = edge_cap + 1;
  })

  -- the identifiers that a hop asks for
  unfoldable pub asked : List String → List GraphEdge → List String
  asked discovery edges =
      take edge_cap (sort text_less (neighbors discovery [] (take edge_cap edges)))

  -- whether a hop met a bound
  unfoldable pub met_cap : List String → List GraphEdge → Bool
  met_cap discovery edges =
      ltb edge_cap (length edges)
      || ltb edge_cap (length (neighbors discovery [] (take edge_cap edges)))

  -- The loop over the hops that are left.
  unfoldable pub walk : ℕ → Walk → Walk
  unfolding edges_of
  walk zero w = w
  walk (suc hops) w = elim (is_empty w.frontier) [
    | true ↦ w
    | false ↦ elim (edges_of w.frontier) [
      | err e ↦ w
      | ok edges ↦
          let ids = asked w.discovery edges in
          let cut_off = w.truncated || met_cap w.discovery edges in
          elim (is_empty ids) [
            | true ↦ record w { truncated = cut_off }
            | false ↦ elim (batch_allow p principal req ids) [
              | err e ↦ record w { truncated = cut_off }
              | ok a ↦
                  let next = select (contains a.0) ids in
                  walk hops (record {
                    discovery = w.discovery ++ next;
                    frontier = next;
                    truncated = cut_off;
                  })
            ]
          ]
    ]
  ]

  -- whether the policy lets a record be shown
  unfoldable pub policy_allows : LedgerRecord → Bool
  policy_allows rec =
      elim (p.evaluate (policy_request principal req rec.classification (some rec) 0)) [
        | err e ↦ false
        | ok r ↦ r.allow
      ]

  unfoldable pub is_shown : LedgerRecord → Bool
  is_shown rec =
      not (is_tombstoned rec.state)
      && not (rec.state == lifecycle_placeholder)
      && not (rec.state == lifecycle_ensured)
      && policy_allows rec

  unfoldable pub shown : String → Option LedgerRecord
  shown id = elim (p.get_record req.org_id id) [
    | err e ↦ none
    | ok rec ↦ if is_shown rec then some rec else none
  ]

  -- The visible nodes with their identifiers, in the order of discovery.
  unfoldable pub hydrate : List String → List (String × GraphNode)
  hydrate [] = []
  hydrate (id ∷ ids) = elim (shown id) [
    | none ↦ hydrate ids
    | some rec ↦ (id, node_of rec) ∷ hydrate ids
  ]

  -- the visible subgraph of a finished search
  unfoldable pub shown_graph : Walk → Subgraph
  unfolding edges_of
  shown_graph w =
      let found = hydrate w.discovery in
      let ids = map (λ x. x.0) found in
      elim (edges_of ids) [
        | err e ↦ record {
          ids = ids;
          nodes = map (λ x. x.1) found;
          edges = [];
          truncated = w.truncated;
        }
        | ok edges ↦ record {
          ids = ids;
          nodes = map (λ x. x.1) found;
          edges = sort edge_before (visible_edges ids [] (take edge_cap edges));
          truncated = w.truncated || ltb edge_cap (length edges);
        }
      ]

  -- visibleSubgraph
  unfoldable pub visible_subgraph : List String → ℕ → Subgraph
  visible_subgraph seeds depth =
      let ids = sort text_less (unique [] seeds) in
      elim (batch_allow p principal req ids) [
        | err e ↦ record { ids = []; nodes = []; edges = []; truncated = false }
        | ok a ↦
            let found = select (contains a.0) ids in
            shown_graph
              (walk depth (record { discovery = found; frontier = found; truncated = false }))
      ]

-- The two passes: the nodes that are kept, and their identifiers.
unfoldable pub keep_seeds : List String → List String → ℕ → List GraphNode → List GraphNode
keep_seeds seeds kept zero nodes = []
keep_seeds seeds kept (suc room) [] = []
keep_seeds seeds kept (suc room) (n ∷ ns) =
    let skipped = keep_seeds seeds kept (suc room) ns in
    let rest = keep_seeds seeds (n.resource_id ∷ kept) room ns in
    if contains seeds n.resource_id && not (contains kept n.resource_id) then n ∷ rest else skipped

unfoldable pub keep_others : List String → ℕ → List GraphNode → List GraphNode
keep_others kept zero nodes = []
keep_others kept (suc room) [] = []
keep_others kept (suc room) (n ∷ ns) =
    let skipped = keep_others kept (suc room) ns in
    let rest = keep_others (n.resource_id ∷ kept) room ns in
    if contains kept n.resource_id then skipped else n ∷ rest

unfoldable pub node_ids : List GraphNode → List String
node_ids nodes = map (λ n. n.resource_id) nodes

-- truncateGraphPreserveSeeds
unfoldable pub truncate_graph :
    List GraphNode → List GraphEdge → List String → ℕ → List GraphNode × List GraphEdge × Bool
truncate_graph nodes edges seeds max_nodes =
    if max_nodes == 0 || leb (length nodes) max_nodes
    then (nodes, edges, false)
    else (let first = keep_seeds (select (λ s. not (s == "")) seeds) [] max_nodes nodes in
        let out = first ++ keep_others (node_ids first) (max_nodes - length first) nodes in
        (
          out,
          select (λ e. contains (node_ids out) e.from_id && contains (node_ids out) e.to_id) edges,
          true,
        ))
