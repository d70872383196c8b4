-- ===== src/Tests/Retrieval.antt =====
-- Search and Graph over the in-memory adapters.
use gontext.Base.{ℕ, ◌≤◌}
use gontext.Base.{String, string_eq, eq_iff, contains, lower, trim_space}
use gontext.Base.{◌≡◌, refl, ◌≢◌}
use gontext.Base.{true, false, none, some, List, [], ◌∷◌, map}
use gontext.Base.{arith, length, All}
use gontext.Base.Dict.{Dict, get2}
use gontext.Ports.{Principal, AuditEvent, RelationshipTuple, LedgerRecord}
use gontext.Platform.{Result, ok, err}
use gontext.Policy.{new_provider}
use gontext.Fga.{Memory, new_memory, write_tuples}
use gontext.Fga.Model.{Grants}
use gontext.Fga.Check.{check, format_user, format_object}
use gontext.Index.{Index, upsert}
use gontext.Deletion.{is_tombstoned}
use gontext.Ledger.{Store, new_store}
use gontext.Ledger.Records.{upsert_record}
use gontext.Ledger.Edges.{upsert_edge}
use gontext.Retrieval.{
  Pipeline, Credentials, Request, GraphNode, Citation, ContextPacket, empty_packet,
}
use gontext.Retrieval.Subgraph.{node_of, node_ids, truncate_graph}
use gontext.Retrieval.Graph.{Ids, graph}
use gontext.Retrieval.Graph.Disclosure.{graph-DisclosesOnly, DisclosesOnly, graph_request}
use gontext.Retrieval.Search.{Made, search_context}
use gontext.Retrieval.Search.Citations.{search_context-CitesOnly, CitesOnly, search_request}
use gontext.Retrieval.Local.{
  local_pipeline, IsStored, local-Decides, local-Lists, local-Limits, local_graph-Grants,
  local_search-Grants,
}
use gontext.Tests.Data.{ann, plan, reads_plan, plan_in_folder, plan_document}

abbrev is_member : RelationshipTuple
is_member = record { object = "organization:acme"; relation = "member"; subject = "user:ann" }

abbrev reads_folder : RelationshipTuple
reads_folder = record { object = "resource:folder"; relation = "can_read"; subject = "user:ann" }

abbrev relations : Memory
relations = write_tuples new_memory (is_member ∷ reads_plan ∷ reads_folder ∷ [])

abbrev folder : LedgerRecord
folder = record plan { resource_id = "folder"; title = "Folder" }

abbrev ledger : Store
ledger =
    (upsert_edge plan_in_folder 5 "x"
      (upsert_record folder 5 (upsert_record plan 5 new_store).1).1).1

abbrev index : Index
index = upsert (record plan_document { labels = "purpose:support" ∷ [] } ∷ []) []

as_ann : Credentials → Result Principal
as_ann c = ok ann

abbrev about_plan : Request
about_plan = record {
  credentials = record { bearer_token = "t"; api_key = ""; extra = [] };
  org_id = "";
  query = "plan";
  purpose = "support";
  limit = 0;
  filters = [];
  consistency = "";
  scopes = "context:read" ∷ [];
  action = "";
  resource_id = "plan";
  depth = 0;
  max_nodes = 0;
  predicates = [];
  delegation = none;
}

abbrev pipeline : Pipeline
pipeline = local_pipeline as_ann new_provider relations 9 ledger index

abbrev ids : Ids
ids = record { packet = "p1"; audit = "a1"; citation = λ id. id }

abbrev made : Made
made = record { packet = "p1"; audit = "a1"; citation = λ id. id; query_hash = "h" }

value_of : Result (ContextPacket × AuditEvent) → ContextPacket × AuditEvent
value_of (ok r) = r
value_of (err e) = empty_packet ann about_plan "" 0 ""

abbrev graph_answer : ContextPacket × AuditEvent
graph_answer = value_of (graph pipeline 9 ids about_plan)

graph_answered : graph pipeline 9 ids about_plan ≡ ok graph_answer
unfolding value_of graph gontext.Retrieval.Graph.graph_defaults local_pipeline as_ann
    gontext.Retrieval.tenant_of gontext.Retrieval.Graph.admitted_graph
    gontext.Retrieval.check_delegation gontext.Retrieval.gate_scopes
    gontext.Retrieval.effective_scopes gontext.Retrieval.needed_scope
    gontext.Fga.Check.resolve_candidate_scope gontext.Fga.has gontext.Base.Dict.get get2
    write_tuples gontext.Fga.write_one gontext.Fga.grant gontext.Base.Dict.put2
    gontext.Base.Dict.put new_memory format_user gontext.Policy.evaluate gontext.Policy.normal lower
    trim_space gontext.Retrieval.policy_request new_provider gontext.Policy.rank
    gontext.Policy.class_of gontext.Retrieval.Graph.seeded gontext.Retrieval.Subgraph.batch_allow
    gontext.Retrieval.Subgraph.pair_allowed gontext.Fga.Check.batch_check gontext.Fga.Check.allowed
    gontext.Fga.can gontext.Fga.body gontext.Fga.Check.map_relation gontext.Retrieval.read_check
    gontext.Fga.read_body gontext.Fga.reads_directly format_object
graph_answered = refl

two_nodes : map (λ (n : GraphNode). n.resource_id) graph_answer.0.nodes ≡ "plan" ∷ "folder" ∷ []
unfolding value_of graph gontext.Retrieval.Graph.graph_defaults local_pipeline as_ann
    gontext.Retrieval.tenant_of gontext.Retrieval.Graph.admitted_graph
    gontext.Retrieval.check_delegation gontext.Retrieval.gate_scopes
    gontext.Retrieval.effective_scopes gontext.Retrieval.needed_scope
    gontext.Fga.Check.resolve_candidate_scope gontext.Fga.has gontext.Base.Dict.get get2
    write_tuples gontext.Fga.write_one gontext.Fga.grant gontext.Base.Dict.put2
    gontext.Base.Dict.put gontext.Base.Dict.inner gontext.Fga.new_memory gontext.Fga.writable
    gontext.Fga.blank_tuple format_user gontext.Policy.evaluate gontext.Policy.normal lower
    trim_space gontext.Retrieval.policy_request new_provider gontext.Policy.rank
    gontext.Policy.class_of gontext.Retrieval.Graph.seeded gontext.Retrieval.Subgraph.batch_allow
    gontext.Retrieval.Subgraph.pair_allowed gontext.Fga.Check.batch_check gontext.Fga.Check.allowed
    gontext.Fga.can gontext.Fga.body gontext.Fga.Check.map_relation gontext.Retrieval.read_check
    gontext.Fga.read_body gontext.Fga.reads_directly format_object
    gontext.Retrieval.Graph.graph_packet truncate_graph gontext.Retrieval.Subgraph.visible_subgraph
    gontext.Base.Sort.sort gontext.Retrieval.Subgraph.unique gontext.Retrieval.Subgraph.shown_graph
    gontext.Retrieval.Subgraph.hydrate gontext.Retrieval.Subgraph.walk
    gontext.Retrieval.Subgraph.asked gontext.Retrieval.Subgraph.neighbors
    gontext.Ledger.Edges.list_edges upsert_edge upsert_record gontext.Ledger.Edges.merge_edge
    gontext.Base.Count.refresh gontext.Ledger.Edges.wanted gontext.Retrieval.Subgraph.shown
    gontext.Ledger.Records.get_record gontext.Retrieval.Subgraph.is_shown is_tombstoned
    gontext.Retrieval.Subgraph.policy_allows node_of
two_nodes = refl

graph-DisclosesOnly_example :
    (principal : Principal) × (as_ann about_plan.credentials ≡ ok principal)
    × DisclosesOnly pipeline
        (check relations 9)
        (IsStored ledger principal.org_id)
        principal
        (graph_request about_plan principal)
        graph_answer.0
    × (length graph_answer.0.nodes ≤ 200)
    × ((graph_request about_plan principal).depth ≤ 4)
unfolding local_pipeline
graph-DisclosesOnly_example =
    graph-DisclosesOnly pipeline (check relations 9) (IsStored ledger) 9 ids about_plan graph_answer
      (local-Decides as_ann new_provider relations 9 ledger index)
      (local-Lists as_ann new_provider relations 9 ledger index) graph_answered

local_graph-Grants_example :
    (principal : Principal) × (as_ann about_plan.credentials ≡ ok principal)
    × All
        (λ n.
          (id : String) × (rec : LedgerRecord) × (get2 ledger.records principal.org_id id
            ≡ some rec)
          × (n ≡ node_of rec)
          × Grants relations (format_user principal) (format_object id) "can_read")
        graph_answer.0.nodes
local_graph-Grants_example =
    local_graph-Grants as_ann new_provider relations 9 ledger index ids about_plan graph_answer
      graph_answered

abbrev search_answer : ContextPacket × AuditEvent
search_answer = value_of (search_context pipeline 9 made about_plan)

search_answered : search_context pipeline 9 made about_plan ≡ ok search_answer
unfolding value_of search_context gontext.Retrieval.Search.search_defaults
    gontext.Retrieval.Search.admitted_search local_pipeline as_ann gontext.Retrieval.tenant_of
    gontext.Retrieval.check_delegation gontext.Retrieval.gate_scopes
    gontext.Retrieval.effective_scopes gontext.Retrieval.needed_scope
    gontext.Fga.Check.resolve_candidate_scope gontext.Fga.has gontext.Base.Dict.get get2
    write_tuples gontext.Fga.write_one gontext.Fga.grant gontext.Base.Dict.put2
    gontext.Base.Dict.put gontext.Base.Dict.inner gontext.Fga.new_memory gontext.Fga.writable
    gontext.Fga.blank_tuple format_user gontext.Policy.evaluate gontext.Policy.normal lower
    trim_space gontext.Retrieval.policy_request new_provider gontext.Policy.rank
    gontext.Policy.class_of gontext.Retrieval.Search.candidates gontext.Retrieval.Search.decided
    gontext.Fga.Check.batch_check gontext.Index.search_candidates gontext.Base.Dict.log_of upsert
    gontext.Index.upsert_doc gontext.Index.is_hit gontext.Index.match_filters gontext.Index.text_of
    gontext.Retrieval.Search.search_filters gontext.Retrieval.Search.passed_filters
    gontext.Index.has_purpose gontext.Retrieval.Search.search_packet
    gontext.Retrieval.Search.cite_all gontext.Retrieval.Search.allowed_hits gontext.Index.class_rank
    gontext.Index.doc_class gontext.Index.is_relevant
search_answered = refl

one_citation : map (λ (c : Citation). c.resource_id) search_answer.0.citations ≡ "plan" ∷ []
unfolding value_of search_context gontext.Retrieval.Search.search_defaults
    gontext.Retrieval.Search.admitted_search local_pipeline as_ann gontext.Retrieval.tenant_of
    gontext.Retrieval.check_delegation gontext.Retrieval.gate_scopes
    gontext.Retrieval.effective_scopes gontext.Retrieval.needed_scope
    gontext.Fga.Check.resolve_candidate_scope gontext.Fga.has gontext.Base.Dict.get get2
    write_tuples gontext.Fga.write_one gontext.Fga.grant gontext.Base.Dict.put2
    gontext.Base.Dict.put gontext.Base.Dict.inner gontext.Fga.new_memory gontext.Fga.writable
    gontext.Fga.blank_tuple format_user gontext.Policy.evaluate gontext.Policy.normal lower
    trim_space gontext.Retrieval.policy_request new_provider gontext.Policy.rank
    gontext.Policy.class_of gontext.Retrieval.Search.candidates gontext.Retrieval.Search.decided
    gontext.Fga.Check.batch_check gontext.Index.search_candidates gontext.Base.Dict.log_of upsert
    gontext.Index.upsert_doc gontext.Index.is_hit gontext.Index.match_filters gontext.Index.text_of
    gontext.Retrieval.Search.search_filters gontext.Retrieval.Search.passed_filters
    gontext.Index.has_purpose gontext.Retrieval.Search.search_packet
    gontext.Retrieval.Search.cite_all gontext.Retrieval.Search.allowed_hits
    gontext.Retrieval.Subgraph.batch_allow gontext.Retrieval.Subgraph.pair_allowed
    gontext.Fga.Check.allowed gontext.Fga.can gontext.Fga.body gontext.Fga.Check.map_relation
    gontext.Retrieval.read_check gontext.Fga.read_body gontext.Fga.reads_directly format_object
    gontext.Retrieval.Subgraph.visible_subgraph gontext.Base.Sort.sort
    gontext.Retrieval.Subgraph.unique gontext.Retrieval.Subgraph.shown_graph
    gontext.Retrieval.Subgraph.hydrate gontext.Retrieval.Subgraph.walk
    gontext.Retrieval.Subgraph.asked gontext.Retrieval.Subgraph.neighbors
    gontext.Ledger.Edges.list_edges upsert_edge upsert_record gontext.Ledger.Edges.merge_edge
    gontext.Base.Count.refresh gontext.Ledger.Edges.wanted gontext.Retrieval.Subgraph.shown
    gontext.Ledger.Records.get_record gontext.Retrieval.Subgraph.is_shown is_tombstoned
    gontext.Retrieval.Subgraph.policy_allows node_of gontext.Index.class_rank
    gontext.Index.doc_class gontext.Index.is_relevant gontext.Index.hit_of
    gontext.Retrieval.Search.citable gontext.Retrieval.Search.cite
one_citation = refl

search_context-CitesOnly_example :
    (principal : Principal) × (as_ann about_plan.credentials ≡ ok principal)
    × (limit : ℕ) × (limit ≤ 50)
    × CitesOnly pipeline
        (check relations 9)
        (IsStored ledger principal.org_id)
        principal
        (search_request about_plan principal limit)
        search_answer.0
unfolding local_pipeline
search_context-CitesOnly_example =
    search_context-CitesOnly pipeline (check relations 9) (IsStored ledger) 9 made about_plan
      search_answer (local-Decides as_ann new_provider relations 9 ledger index)
      (local-Lists as_ann new_provider relations 9 ledger index)
      (local-Limits as_ann new_provider relations 9 ledger index) search_answered

local_search-Grants_example :
    (principal : Principal) × (as_ann about_plan.credentials ≡ ok principal)
    × All
        (λ (c : Citation).
          (rec : LedgerRecord) × (get2 ledger.records principal.org_id c.resource_id ≡ some rec)
          × (is_tombstoned rec.state ≡ false)
          × Grants relations (format_user principal) (format_object c.resource_id) "can_read")
        search_answer.0.citations
local_search-Grants_example =
    local_search-Grants as_ann new_provider relations 9 ledger index made about_plan search_answer
      search_answered

abbrev three_nodes : List GraphNode
three_nodes = node_of folder ∷ node_of (record folder { resource_id = "annex" }) ∷ node_of plan ∷ []

plan_named : plan.resource_id ≢ ""
plan_named e = absurd (ground (arith, eq_iff plan.resource_id ""))

plan_among : contains (node_ids three_nodes) "plan" ≡ true
unfolding node_ids node_of
plan_among = refl
