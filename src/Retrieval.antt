-- ===== src/Retrieval.antt =====
-- internal/retrieval/retrieval.go: what Search and Graph share. The providers are the interfaces of
-- internal/ports/ports.go, as a record of functions that may fail; an `int` of the request is a
-- number, 0 for what the code takes as not positive. A map of true values is the list of its keys.
pub mod Subgraph
pub mod Search
pub mod Graph
pub mod Local
use gontext.Base.{ℕ}
use gontext.Base.{String, string_eq, ◌==◌, eq_iff, concat, contains}
use gontext.Base.{◌≡◌, ◌≢◌}
use gontext.Base.{Bool, false, not, ◌&&◌, ◌||◌, Option, none, some, List, [], ◌∷◌}
use gontext.Base.{arith, ltb, if◌then◌else◌, any}
use gontext.Base.Dict.{Dict}
use gontext.Base.Sort.{is_empty}
use gontext.Ports.{
  Principal, DelegationGrant, AuthzCheck, AuthzDecision, ScopeResolve, CandidateScope, PolicyEval,
  PolicyResult, LedgerRecord, GraphEdge, EdgeListOptions, SearchHit, AuditEvent,
}
use gontext.Platform.{Result, ok, err, err_forbidden}

-- ports.Credentials
pub record Credentials : Type 0 where
  pub bearer_token : String
  pub api_key : String
  pub extra : Dict String

-- ports.GraphNode
pub record GraphNode : Type 0 where
  pub resource_id : String
  pub kind : String
  pub title : String
  pub classification : String
  pub labels : List String
  pub revision_id : String
  pub state : String
  pub attributes : Dict String

-- ports.Redaction, without the fields that no code here sets
pub record Redaction : Type 0 where
  pub profile : String
  pub reason_code : String

-- ports.Citation, without the score
pub record Citation : Type 0 where
  pub citation_id : String
  pub resource_id : String
  pub revision_id : String
  pub snippet : String

-- ports.ContextPacket, without the summary, which is the text of two numbers
pub record ContextPacket : Type 0 where
  pub version : String
  pub packet_id : String
  pub org_id : String
  pub purpose : String
  pub redaction_profile : String
  pub nodes : List GraphNode
  pub edges : List GraphEdge
  pub citations : List Citation
  pub redactions : List Redaction
  pub policy_revision : String
  pub authz_revision : String
  pub audit_id : String
  pub action_restrictions : List String
  pub truncated : Bool
  pub next_cursor : String
  pub generated_at : ℕ

-- Pipeline: its providers, with the method that the pipeline calls of each
pub record Pipeline : Type 0 where
  pub authenticate : Credentials → Result Principal
  pub resolve_scope : ScopeResolve → Result CandidateScope
  pub batch_check : List AuthzCheck → Result (List AuthzDecision)
  pub evaluate : PolicyEval → Result PolicyResult
  pub get_record : String → String → Result LedgerRecord
  pub list_edges : String → EdgeListOptions → Result (List GraphEdge)
  pub search_candidates : String → String → ℕ → Dict String → Result (List SearchHit)
  -- the text of a document, none without a source of snippets or a document
  pub snippet_of : String → String → Option String
  pub allow_empty_scopes : Bool

-- Request
pub record Request : Type 0 where
  pub credentials : Credentials
  pub org_id : String
  pub query : String
  pub purpose : String
  pub limit : ℕ
  pub filters : Dict String
  pub consistency : String
  pub scopes : List String
  pub action : String
  pub resource_id : String
  pub depth : ℕ
  pub max_nodes : ℕ
  pub predicates : List String
  pub delegation : Option DelegationGrant

abbrev pub consistency_min_latency : String
consistency_min_latency = "min_latency"

-- policy.Revision
abbrev pub policy_revision : String
policy_revision = "policy-v1"

abbrev pub packet_version : String
packet_version = "context-fabric.packet/v1"

-- the scope that an action needs
unfoldable pub needed_scope : String → String
needed_scope action =
    if contains ("context.get" ∷ "context.brief" ∷ "context.graph" ∷ []) action
    then "context:read"
    else "context:search"

-- gateScopes
unfoldable pub gate_scopes : List String → String → Bool → Result (Unit {0})
gate_scopes [] action allow_empty =
    if allow_empty then ok tt else err (err_forbidden "missing scopes")
gate_scopes (s ∷ ss) action allow_empty =
    let need = needed_scope action in
    if any (λ t. t == need || need == "context:search" && t == "context:read") (s ∷ ss)
    then ok tt
    else err (err_forbidden (concat "missing oauth scope " need))

-- The principal's scopes, the request's where it has none.
unfoldable pub effective_scopes : Principal → Request → List String
effective_scopes principal req = if is_empty principal.scopes then req.scopes else principal.scopes

unfoldable pub is_past : Option ℕ → ℕ → Bool
is_past none now = false
is_past (some at) now = ltb at now

-- the checks of a delegation: revoked, expired, purpose
unfoldable pub check_delegation : Option DelegationGrant → String → ℕ → Result (Unit {0})
check_delegation none purpose now = ok tt
check_delegation (some d) purpose now =
    if d.revoked
    then err (err_forbidden "delegation revoked")
    else if is_past d.expires_at now
    then err (err_forbidden "delegation expired")
    else if not (is_empty d.purposes) && not (contains d.purposes purpose)
    then err (err_forbidden "purpose outside delegation")
    else ok tt

-- the organization of the request, the principal's where it names none
unfoldable pub tenant_of : Principal → String → Result String
tenant_of principal org_id =
    if principal.org_id == ""
    then err (err_forbidden "principal missing organization")
    else if org_id == ""
    then ok principal.org_id
    else if principal.org_id == org_id
    then ok org_id
    else err (err_forbidden "organization mismatch")

unfoldable pub read_check : Principal → Request → String → AuthzCheck
read_check principal req id = record {
  principal = principal;
  action = "can_read";
  resource_id = id;
  consistency = req.consistency;
  delegation = req.delegation;
}

unfoldable pub policy_request : Principal → Request → String → Option LedgerRecord → ℕ → PolicyEval
policy_request principal req class rec limit = record {
  principal = principal;
  action = req.action;
  purpose = req.purpose;
  classification = class;
  ledger_record = rec;
  requested_limit = limit;
}

unfoldable pub delegation_id : Option DelegationGrant → String
delegation_id none = ""
delegation_id (some d) = d.id

-- emptyPacket, with the event that it appends to the audit log
unfoldable pub empty_packet : Principal → Request → String → ℕ → String → ContextPacket × AuditEvent
empty_packet principal req reason now audit_id = (
  record {
    version = packet_version;
    packet_id = "";
    org_id = req.org_id;
    purpose = req.purpose;
    redaction_profile = "";
    nodes = [];
    edges = [];
    citations = [];
    redactions = [];
    policy_revision = policy_revision;
    authz_revision = "";
    audit_id = audit_id;
    action_restrictions = "context.search" ∷ "context.get" ∷ [];
    truncated = false;
    next_cursor = "";
    generated_at = now;
  },
  record {
    audit_id = audit_id;
    org_id = req.org_id;
    principal_id = principal.id;
    principal_kind = principal.kind;
    delegation_id = "";
    action = req.action;
    reason_code = reason;
    authz_model_rev = "";
    policy_revision = "";
    resource_count = 0;
    resource_ids_sample = [];
    trace_id = "";
    attributes = none;
    created_at = now;
  },
)

-- edges[len(edges)-1], none of an empty list
unfoldable pub last_edge : List GraphEdge → Option GraphEdge
last_edge [] = none
last_edge (e ∷ []) = some e
last_edge (e ∷ f ∷ es) = last_edge (f ∷ es)

-- truncationCursor
unfoldable pub truncation_cursor : Bool → List GraphEdge → String
truncation_cursor truncated edges = elim (last_edge edges) [
  | none ↦ ""
  | some e ↦ if truncated then concat "edge:" e.edge_id else ""
]

-- A request that is let through has the organization of its principal, which is named.
pub tenant_of-ok :
    (principal : Principal) (org_id org : String)
    → tenant_of principal org_id ≡ ok org
    → (org ≡ principal.org_id) × (principal.org_id ≢ "")
unfolding tenant_of err_forbidden
tenant_of-ok principal org_id org h = (
  ground (arith, eq_iff principal.org_id "", eq_iff org_id "", eq_iff principal.org_id org_id),
  λ e. absurd (ground (arith, eq_iff principal.org_id "")),
)
