-- ===== src/Retrieval/Graph.antt =====
-- Graph of internal/retrieval/retrieval.go. The clock's reading and the identifiers of the packet
-- and of its event are arguments; metrics are left out.
pub mod Disclosure
use gontext.Base.{ℕ, min}
use gontext.Base.{String, string_eq, ◌==◌, contains}
use gontext.Base.{◌||◌, none, some, [], ◌∷◌, map}
use gontext.Base.{number_eq, if◌then◌else◌, length, take}
use gontext.Ports.{Principal, PolicyResult, AuditEvent}
use gontext.Platform.{Result, ok, err, ◌>>=◌, err_validation}
use gontext.Ledger.{or_default, or_limit}
use gontext.Retrieval.{
  Pipeline, Request, GraphNode, Citation, ContextPacket, consistency_min_latency, policy_revision,
  packet_version, gate_scopes, effective_scopes, check_delegation, tenant_of, policy_request,
  empty_packet, truncation_cursor,
}
use gontext.Retrieval.Subgraph.{Subgraph, batch_allow, visible_subgraph, truncate_graph}

-- The identifiers that Graph makes: of the packet, of its event, and of the citation of a node.
pub record Ids : Type 0 where
  pub packet : String
  pub audit : String
  pub citation : String → String

-- the request with its defaults and bounds
unfoldable pub graph_defaults : Request → Request
unfolding or_default or_limit
graph_defaults req =
    let nodes = min (or_limit req.max_nodes 50) 200 in
    record req {
      action = or_default req.action "context.graph";
      depth = min (or_limit req.depth 1) 4;
      max_nodes = nodes;
      limit = or_limit req.limit nodes;
      consistency = or_default req.consistency consistency_min_latency;
    }

unfoldable pub node_citation : Ids → GraphNode → Citation
unfolding or_default
node_citation ids n = record {
  citation_id = ids.citation n.resource_id;
  resource_id = n.resource_id;
  revision_id = n.revision_id;
  snippet = or_default n.title n.resource_id;
}

-- the packet of the visible subgraph, with its event. The depth's text is left out of the event.
unfoldable pub graph_packet :
    Principal → Request → PolicyResult → String → Subgraph → ℕ → Ids → ContextPacket × AuditEvent
unfolding node_citation
graph_packet principal req pol authz_rev g now ids =
    let t = truncate_graph g.nodes g.edges (req.resource_id ∷ []) req.max_nodes in
    let truncated = g.truncated || t.2 in
    (
      record {
        version = packet_version;
        packet_id = ids.packet;
        org_id = req.org_id;
        purpose = req.purpose;
        redaction_profile = pol.redaction_profile;
        nodes = t.0;
        edges = t.1;
        citations = map (node_citation ids) t.0;
        redactions = [];
        policy_revision = policy_revision;
        authz_revision = authz_rev;
        audit_id = ids.audit;
        action_restrictions = "outbound.send" ∷ [];
        truncated = truncated;
        next_cursor = truncation_cursor truncated t.1;
        generated_at = now;
      },
      record {
        audit_id = ids.audit;
        org_id = req.org_id;
        principal_id = principal.id;
        principal_kind = principal.kind;
        delegation_id = "";
        action = req.action;
        reason_code = "GRAPH_OK";
        authz_model_rev = authz_rev;
        policy_revision = policy_revision;
        resource_count = length t.0;
        resource_ids_sample = take 8 (map (λ n. n.resource_id) t.0);
        trace_id = "";
        attributes = some (("seed", req.resource_id) ∷ []);
        created_at = now;
      },
    )

module _ (p : Pipeline) (now : ℕ) (ids : Ids) where
  -- with the policy's answer: the seed first, then what can be reached from it
  unfoldable pub seeded : Principal → Request → PolicyResult → Result (ContextPacket × AuditEvent)
  seeded principal req pol = batch_allow p principal req (req.resource_id ∷ []) >>= λ a.
      if contains a.0 req.resource_id
      then ok (
          graph_packet principal req pol a.1
            (visible_subgraph p principal req req.predicates (req.resource_id ∷ []) req.depth) now
            ids)
      else ok (empty_packet principal req "AUTHZ_DENY" now ids.audit)

  -- with the principal and its organization: delegation, scopes, coarse scope, policy
  unfoldable pub admitted_graph : Principal → Request → Result (ContextPacket × AuditEvent)
  admitted_graph principal req = check_delegation req.delegation req.purpose now >>= λ delegated.
      gate_scopes (effective_scopes principal req) req.action p.allow_empty_scopes >>= λ gated.
      p.resolve_scope
        (record { principal = principal; action = req.action; consistency = req.consistency })
      >>= λ scope.
          if scope.reason_code == "AUTHZ_SCOPE_DENY"
          then ok (empty_packet principal req "AUTHZ_SCOPE_DENY" now ids.audit)
          else p.evaluate (policy_request principal req "internal" none req.max_nodes) >>= λ pol.
              if pol.allow
              then seeded principal req pol
              else ok (empty_packet principal req pol.reason_code now ids.audit)

  -- Graph
  unfoldable pub graph : Request → Result (ContextPacket × AuditEvent)
  graph request =
      let req = graph_defaults request in
      if req.resource_id == ""
      then err (err_validation "resource_id required")
      else p.authenticate req.credentials >>= λ principal. tenant_of principal req.org_id >>= λ org.
          admitted_graph principal (record req { org_id = org })
