-- ===== src/Retrieval/Graph/Disclosure.antt =====
-- What a packet of Graph discloses.
use gontext.Base.{ℕ, ◌≤◌, ◌<◌}
use gontext.Base.{String, string_eq, ◌==◌, contains}
use gontext.Base.{◌≡◌, subst, inl, inr}
use gontext.Base.{none, [], ◌∷◌}
use gontext.Base.{arith, Bool-cases, length, All}
use gontext.Ports.{Principal, AuthzCheck, AuthzDecision, GraphEdge, PolicyResult, AuditEvent}
use gontext.Platform.{Result, ok, >>=-eq-ok, ok_injective}
use gontext.Ledger.{or_limit}
use gontext.Retrieval.{
  Pipeline, Request, ContextPacket, tenant_of, tenant_of-ok, empty_packet, check_delegation,
  gate_scopes, effective_scopes, policy_request,
}
use gontext.Retrieval.Subgraph.{batch_allow, visible_subgraph}
use gontext.Retrieval.Subgraph.Visible.{Decides, Lists}
use gontext.Retrieval.Subgraph.Shown.{IsDisclosed, IsDisclosedEdge, visible_subgraph-IsDisclosed}
use gontext.Retrieval.Subgraph.Truncation.{truncate_graph-All, length-truncate_graph}
use gontext.Retrieval.Graph.{Ids, graph_defaults, graph_packet, seeded, admitted_graph, graph}

-- the request that Graph carries out for a principal
unfoldable pub graph_request : Request → Principal → Request
graph_request request principal = record (graph_defaults request) { org_id = principal.org_id }

module _ (p : Pipeline) (decide : AuthzCheck → AuthzDecision) (Stored : GraphEdge → Type 0)
    (principal : Principal) (req : Request) where
  -- Every node and every edge of the packet may be seen, and there are at most so many nodes.
  unfoldable pub DisclosesOnly : ContextPacket → Type 0
  DisclosesOnly packet =
      All
        (IsDisclosed p decide Stored principal req req.predicates (req.resource_id ∷ []) req.depth)
        packet.nodes
      × All
          (IsDisclosedEdge p decide Stored principal req req.predicates (req.resource_id ∷ [])
            req.depth)
          packet.edges
      × (length packet.nodes ≤ req.max_nodes)

  module _ (now : ℕ) (ids : Ids) (d : Decides p decide) (l : Lists p req.org_id Stored) where
    empty-DisclosesOnly :
        (reason : String) (r : ContextPacket × AuditEvent)
        → ◌≡◌ {A = Result (ContextPacket × AuditEvent)}
            (ok (empty_packet principal req reason now ids.audit))
            (ok r)
        → DisclosesOnly r.0
    unfolding empty_packet DisclosesOnly
    empty-DisclosesOnly reason r h =
        subst (λ (x : ContextPacket × AuditEvent). DisclosesOnly x.0) (ok_injective h)
          (tt, tt, omega arith)

    seeded-DisclosesOnly :
        (pol : PolicyResult) (r : ContextPacket × AuditEvent)
        → 0 < req.max_nodes
        → seeded p now ids principal req pol ≡ ok r
        → DisclosesOnly r.0
    unfolding seeded graph_packet DisclosesOnly
    seeded-DisclosesOnly pol r pos h =
        let (a, e, k) = >>=-eq-ok (batch_allow p principal req (req.resource_id ∷ [])) _ h in
        elim (Bool-cases (contains a.0 req.resource_id)) [
          | inr n ↦ empty-DisclosesOnly "AUTHZ_DENY" r (rw (n) at k)
          | inl y ↦
              let g =
                visible_subgraph p principal req req.predicates (req.resource_id ∷ []) req.depth in
              let (ns, es) =
                visible_subgraph-IsDisclosed p decide Stored principal req req.predicates
                  (req.resource_id ∷ []) req.depth d l in
              let t =
                truncate_graph-All _ _ g.nodes g.edges (req.resource_id ∷ []) req.max_nodes ns es in
              subst (λ (x : ContextPacket × AuditEvent). DisclosesOnly x.0)
                (ok_injective (rw (y) at k))
                (
                  t.0,
                  t.1,
                  length-truncate_graph g.nodes g.edges (req.resource_id ∷ []) req.max_nodes pos,
                )
        ]

    admitted_graph-DisclosesOnly :
        (r : ContextPacket × AuditEvent)
        → 0 < req.max_nodes
        → admitted_graph p now ids principal req ≡ ok r
        → DisclosesOnly r.0
    unfolding admitted_graph
    admitted_graph-DisclosesOnly r pos h =
        let (u, e0, h0) = >>=-eq-ok (check_delegation req.delegation req.purpose now) _ h in
        let (v, e1, h1) =
          >>=-eq-ok (gate_scopes (effective_scopes principal req) req.action p.allow_empty_scopes) _
            h0 in
        let (scope, e2, h2) =
          >>=-eq-ok
            (p.resolve_scope (record {
              principal = principal;
              action = req.action;
              consistency = req.consistency;
            }))
            _ h1 in
        elim (Bool-cases (scope.reason_code == "AUTHZ_SCOPE_DENY")) [
          | inl y ↦ empty-DisclosesOnly "AUTHZ_SCOPE_DENY" r (rw (y) at h2)
          | inr n ↦
              let (pol, e3, h3) =
                >>=-eq-ok (p.evaluate (policy_request principal req "internal" none req.max_nodes))
                  _ (rw (n) at h2) in
              elim (Bool-cases pol.allow) [
                | inl y ↦ seeded-DisclosesOnly pol r pos (rw (y) at h3)
                | inr k ↦ empty-DisclosesOnly pol.reason_code r (rw (k) at h3)
              ]
        ]

graph_defaults_bounds :
    (request : Request)
    → (0 < (graph_defaults request).max_nodes)
      × ((graph_defaults request).max_nodes ≤ 200)
      × ((graph_defaults request).depth ≤ 4)
unfolding graph_defaults or_limit
graph_defaults_bounds request = (ground arith, ground arith, ground arith)

DisclosesOnly-length :
    (p : Pipeline) (decide : AuthzCheck → AuthzDecision) (Stored : GraphEdge → Type 0)
    (principal : Principal) (req : Request) (packet : ContextPacket)
    → DisclosesOnly p decide Stored principal req packet
    → length packet.nodes ≤ req.max_nodes
unfolding DisclosesOnly
DisclosesOnly-length p decide Stored principal req packet h = h.2

-- A packet of Graph discloses, to the principal that the credentials authenticate, only resources
-- of the principal's own organization that the seed reaches over at most four stored edges, where
-- every resource on the way may be read, whose records may be shown; only edges with two such
-- ends; and at most 200 nodes. So it is where the authorization provider decides each check of a
-- batch by itself and the ledger lists stored edges of the organization that touch what is asked.
pub graph-DisclosesOnly :
    (p : Pipeline) (decide : AuthzCheck → AuthzDecision) (Stored : String → GraphEdge → Type 0)
    (now : ℕ) (ids : Ids) (request : Request) (r : ContextPacket × AuditEvent)
    → Decides p decide
    → ((org : String) → Lists p org (Stored org))
    → graph p now ids request ≡ ok r
    → (principal : Principal) × (p.authenticate request.credentials ≡ ok principal)
      × DisclosesOnly p decide
          (Stored principal.org_id)
          principal
          (graph_request request principal)
          r.0
      × (length r.0.nodes ≤ 200)
      × ((graph_request request principal).depth ≤ 4)
unfolding graph graph_request graph_defaults
graph-DisclosesOnly p decide Stored now ids request r d l h =
    let req = graph_defaults request in
    elim (Bool-cases (req.resource_id == "")) [
      | inl y ↦ absurd (cc (rw (y, graph) at h))
      | inr n ↦
          let (principal, e, h1) = >>=-eq-ok (p.authenticate req.credentials) _ (rw (n) at h) in
          let (org, f, h2) = >>=-eq-ok (tenant_of principal req.org_id) _ h1 in
          let same = tenant_of-ok principal req.org_id org f in
          let only =
            admitted_graph-DisclosesOnly p decide (Stored principal.org_id) principal
              (record req { org_id = principal.org_id }) now ids d (l principal.org_id) r
              (graph_defaults_bounds request).0
              (subst (λ o. admitted_graph p now ids principal (record req { org_id = o }) ≡ ok r)
                same.0 h2) in
          let few : length r.0.nodes ≤ 200 = omega (
            arith,
            DisclosesOnly-length p decide (Stored principal.org_id) principal
                (record req { org_id = principal.org_id }) r.0 only,
            (graph_defaults_bounds request).1,
          ) in
          (principal, e, only, few, (graph_defaults_bounds request).2)
    ]
