-- ===== src/Retrieval/Local.antt =====
-- The pipeline over the in-memory adapters, as cmd/context-fabric/main.go puts it together where no
-- external service is configured: internal/adapters/memory and internal/adapters/openfga/memory.go.
use gontext.Base.{ℕ, ◌≤◌, ◌<◌}
use gontext.Base.{String, string_eq, contains}
use gontext.Base.{◌≡◌, refl, sym, ap, subst, ◌∙◌, ◌≢◌, ◌⊎◌, inl, inr}
use gontext.Base.{true, false, ◌||◌, Option, none, some, List, [], ◌∷◌, map}
use gontext.Base.{arith, Bool-cases, length, select, All}
use gontext.Base.Dict.{Dict, inner, get2}
use gontext.Base.Sort.{values, is_empty, All-sort, All-take, All-imp}
use gontext.Ports.{
  Principal, AuthzCheck, GraphEdge, EdgeListOptions, AuditEvent, IndexDocument, LedgerRecord,
  SearchHit,
}
use gontext.Platform.{Result, ok, ok_injective}
use gontext.Policy.{Provider, evaluate}
use gontext.Fga.{Memory}
use gontext.Fga.Model.{Grants}
use gontext.Fga.Decides.{allowed-iff-Grants}
use gontext.Fga.Check.{
  check, batch_check, resolve_candidate_scope, format_object, format_user, map_relation,
}
use gontext.Index.{Index, search_candidates, get_document}
use gontext.Index.Search.{length-search}
use gontext.Deletion.{is_tombstoned}
use gontext.Ledger.{Store, or_limit, found-ok}
use gontext.Ledger.Records.{get_record}
use gontext.Ledger.Edges.{list_edges, wanted, edge_less}
use gontext.Retrieval.{
  Pipeline, Credentials, Request, Citation, ContextPacket, GraphNode, read_check,
}
use gontext.Retrieval.Subgraph.Visible.{Decides, Lists, Allows, Within-Allows}
use gontext.Retrieval.Subgraph.{node_of}
use gontext.Retrieval.Subgraph.Shown.{IsDisclosed, IsOpen}
use gontext.Retrieval.Graph.{Ids, graph}
use gontext.Retrieval.Graph.Disclosure.{graph-DisclosesOnly, graph_request, DisclosesOnly}
use gontext.Retrieval.Search.Citations.{
  Limits, IsCitable, CitesOnly, search_request, search_context-CitesOnly,
}
use gontext.Retrieval.Search.{Made, search_context}

text_in : Option IndexDocument → Option String
text_in none = none
text_in (some d) = some d.text

-- the providers of a process that keeps everything in memory
unfoldable pub local_pipeline :
    (Credentials → Result Principal) → Provider → Memory → ℕ → Store → Index → Pipeline
unfolding text_in
local_pipeline authenticate policy m now s idx = record {
  authenticate = authenticate;
  resolve_scope = λ r. ok (resolve_candidate_scope m r);
  batch_check = λ cs. ok (batch_check m now cs);
  evaluate = λ q. ok (evaluate policy q);
  get_record = λ org id. get_record org id s;
  list_edges = λ org opts. ok (list_edges org opts s);
  search_candidates = λ org query limit filters. ok (search_candidates org query limit filters idx);
  snippet_of = λ org id. text_in (get_document org id idx);
  allow_empty_scopes = false;
}

-- an edge that the organization's map holds
unfoldable pub IsOneOf : GraphEdge → List GraphEdge → Type 0
IsOneOf e [] = ⊥
IsOneOf e (x ∷ xs) = (x ≡ e) ⊎ IsOneOf e xs

unfoldable pub IsStored : Store → String → GraphEdge → Type 0
IsStored s org e = IsOneOf e (values (inner s.edges org))

batch_check-map :
    (m : Memory) (now : ℕ) (cs : List AuthzCheck) → batch_check m now cs ≡ map (check m now) cs
unfolding batch_check check
batch_check-map m now [] = refl
batch_check-map m now (c ∷ cs) = ap (λ ds. check m now c ∷ ds) (batch_check-map m now cs)

module _ (authenticate : Credentials → Result Principal) (policy : Provider) (m : Memory) (now : ℕ)
    (s : Store) (idx : Index) where
  -- The in-memory authorization decides each check of a batch by itself.
  pub local-Decides : Decides (local_pipeline authenticate policy m now s idx) (check m now)
  unfolding local_pipeline
  local-Decides = record { pointwise = λ cs ds h. sym (ok_injective h) ∙ batch_check-map m now cs }

  IsStored-select :
      (opts : EdgeListOptions) (org : String) (es : List GraphEdge)
      → is_empty opts.resource_ids ≡ false
      → ((e : GraphEdge) → IsOneOf e es → IsStored s org e)
      → All
          (λ e.
            IsStored s org e
            × ((contains opts.resource_ids e.from_id || contains opts.resource_ids e.to_id) ≡ true))
          (select (wanted opts) es)
  unfolding IsOneOf wanted
  IsStored-select opts org [] full sub = tt
  IsStored-select opts org (e ∷ es) full sub = elim (Bool-cases (wanted opts e)) [
    | inl y ↦
        rw (y) (
          (sub e (inl refl), ground arith),
          IsStored-select opts org es full (λ x i. sub x (inr i)),
        )
    | inr n ↦ rw (n) (IsStored-select opts org es full (λ x i. sub x (inr i)))
  ]

  full_ids : (xs : List String) → xs ≢ [] → is_empty xs ≡ false
  full_ids [] h = absurd (h refl)
  full_ids (x ∷ xs) h = refl

  -- ListEdges lists stored edges that touch what is asked for.
  pub local-Lists :
      (org : String) → Lists (local_pipeline authenticate policy m now s idx) org (IsStored s org)
  unfolding local_pipeline list_edges IsStored
  local-Lists org = record {
    listed = λ opts es full h.
        subst
          (λ xs.
            All
              (λ e.
                IsStored s org e
                × ((contains opts.resource_ids e.from_id || contains opts.resource_ids e.to_id)
                    ≡ true))
              xs)
          (ok_injective h)
          (All-take _ (or_limit opts.limit 200) _ (
            All-sort _ edge_less _ (
              IsStored-select opts org (values (inner s.edges org))
                (full_ids opts.resource_ids full) (λ e i. i))));
  }

  -- What the checks of the in-memory authorization allow is derivable in its model.
  Allows-Grants :
      (principal : Principal) (req : Request) (id : String)
      → Allows (check m now) principal req id
      → Grants m (format_user principal) (format_object id) "can_read"
  unfolding Allows check read_check map_relation
  Allows-Grants principal req id h =
      (allowed-iff-Grants m (format_object id) "can_read" (format_user principal)).0 h

  search_le :
      (org query : String) (limit : ℕ) (filters : Dict String)
      → 0 < limit
      → length (search_candidates org query limit filters idx) ≤ limit
  unfolding or_limit
  search_le org query limit filters pos = ground (arith, length-search org query limit filters idx)

  -- SearchCandidates returns no more hits than it is asked for.
  pub local-Limits : Limits (local_pipeline authenticate policy m now s idx)
  unfolding local_pipeline
  local-Limits = record {
    limited = λ org query limit filters hs pos h.
        subst (λ (xs : List SearchHit). length xs ≤ limit) (ok_injective h)
          (search_le org query limit filters pos);
  }

  IsDisclosed-Grants :
      (principal : Principal) (req : Request) (predicates seeds : List String) (depth : ℕ)
      (n : GraphNode)
      → IsDisclosed
          (local_pipeline authenticate policy m now s idx)
          (check m now)
          (IsStored s req.org_id)
          principal
          req
          predicates
          seeds
          depth
          n
      → (id : String) × (rec : LedgerRecord) × (get2 s.records req.org_id id ≡ some rec)
        × (n ≡ node_of rec)
        × Grants m (format_user principal) (format_object id) "can_read"
  unfolding IsDisclosed IsOpen local_pipeline get_record
  IsDisclosed-Grants principal req predicates seeds depth n (id, rec, (w, g, shown), e) = (
    id,
    rec,
    found-ok (get2 s.records req.org_id id) "record not found" rec g,
    e,
    Allows-Grants principal req id
        (Within-Allows (check m now) (IsStored s req.org_id) principal req seeds depth id w),
  )

  nodes-Grants :
      (principal : Principal) (req : Request) (packet : ContextPacket)
      → DisclosesOnly
          (local_pipeline authenticate policy m now s idx)
          (check m now)
          (IsStored s req.org_id)
          principal
          req
          packet
      → All
          (λ n.
            (id : String) × (rec : LedgerRecord) × (get2 s.records req.org_id id ≡ some rec)
            × (n ≡ node_of rec)
            × Grants m (format_user principal) (format_object id) "can_read")
          packet.nodes
  unfolding DisclosesOnly
  nodes-Grants principal req packet h =
      All-imp _ packet.nodes
        (IsDisclosed-Grants principal req req.predicates (req.resource_id ∷ []) req.depth) h.0

  -- A node of Graph over the in-memory adapters is that of a record which the principal's own
  -- organization holds under an identifier that the relationships grant the principal to read.
  pub local_graph-Grants :
      (ids : Ids) (request : Request) (r : ContextPacket × AuditEvent)
      → graph (local_pipeline authenticate policy m now s idx) now ids request ≡ ok r
      → (principal : Principal) × (authenticate request.credentials ≡ ok principal)
        × All
            (λ n.
              (id : String) × (rec : LedgerRecord) × (get2 s.records principal.org_id id ≡ some rec)
              × (n ≡ node_of rec)
              × Grants m (format_user principal) (format_object id) "can_read")
            r.0.nodes
  unfolding local_pipeline graph_request
  local_graph-Grants ids request r h =
      let p = local_pipeline authenticate policy m now s idx in
      let (principal, e, only, few, deep) =
        graph-DisclosesOnly p (check m now) (IsStored s) now ids request r local-Decides local-Lists
          h in
      (principal, e, nodes-Grants principal (graph_request request principal) r.0 only)

  IsCitable-Grants :
      (principal : Principal) (req : Request) (id : String)
      → IsCitable
          (local_pipeline authenticate policy m now s idx)
          (check m now)
          (IsStored s req.org_id)
          principal
          req
          id
      → (rec : LedgerRecord) × (get2 s.records req.org_id id ≡ some rec)
        × (is_tombstoned rec.state ≡ false)
        × Grants m (format_user principal) (format_object id) "can_read"
  unfolding IsCitable local_pipeline get_record
  IsCitable-Grants principal req id (a, rec, pol, g, t, q, y) = (
    rec,
    found-ok (get2 s.records req.org_id id) "record not found" rec g,
    t,
    Allows-Grants principal req id a,
  )

  citations-Grants :
      (principal : Principal) (req : Request) (packet : ContextPacket)
      → CitesOnly
          (local_pipeline authenticate policy m now s idx)
          (check m now)
          (IsStored s req.org_id)
          principal
          req
          packet
      → All
          (λ (c : Citation).
            (rec : LedgerRecord) × (get2 s.records req.org_id c.resource_id ≡ some rec)
            × (is_tombstoned rec.state ≡ false)
            × Grants m (format_user principal) (format_object c.resource_id) "can_read")
          packet.citations
  unfolding CitesOnly
  citations-Grants principal req packet h =
      All-imp _ packet.citations (λ (c : Citation). IsCitable-Grants principal req c.resource_id)
        h.0

  -- A citation of Search over the in-memory adapters is of a record that the principal's own
  -- organization holds and has not deleted, and that the relationships grant the principal to read.
  pub local_search-Grants :
      (made : Made) (request : Request) (r : ContextPacket × AuditEvent)
      → search_context (local_pipeline authenticate policy m now s idx) now made request ≡ ok r
      → (principal : Principal) × (authenticate request.credentials ≡ ok principal)
        × All
            (λ (c : Citation).
              (rec : LedgerRecord) × (get2 s.records principal.org_id c.resource_id ≡ some rec)
              × (is_tombstoned rec.state ≡ false)
              × Grants m (format_user principal) (format_object c.resource_id) "can_read")
            r.0.citations
  unfolding local_pipeline search_request
  local_search-Grants made request r h =
      let p = local_pipeline authenticate policy m now s idx in
      let (principal, e, limit, few, only) =
        search_context-CitesOnly p (check m now) (IsStored s) now made request r local-Decides
          local-Lists local-Limits h in
      (principal, e, citations-Grants principal (search_request request principal limit) r.0 only)
