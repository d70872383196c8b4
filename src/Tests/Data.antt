-- ===== src/Tests/Data.antt =====
-- The data of the tests: an organization "acme" with a user, two resources and an edge.
use gontext.Base.{String}
use gontext.Base.{true, false, none, some, [], ◌∷◌}
use gontext.Ports.{
  Confidence, Principal, PolicyEval, LedgerRecord, GraphEdge, AuthzTupleOp, RelationshipTuple,
  OutboxEntry, IndexDocument, AuditEvent, IdempotencyRecord, DelegationGrant,
}

abbrev pub acme : String
acme = "acme"

abbrev pub ann : Principal
ann = record {
  id = "ann";
  kind = "user";
  org_id = acme;
  issuer = "";
  subject = "ann";
  roles = [];
  groups = [];
  scopes = [];
  email = "";
  attributes = [];
}

abbrev pub plan : LedgerRecord
plan = record {
  resource_id = "plan";
  org_id = acme;
  kind = "doc";
  title = "The Plan";
  classification = "internal";
  labels = [];
  source_system = "";
  external_id = "";
  current_rev_id = "";
  state = "ACCEPTED";
  attributes = [];
  created_at = 0;
  updated_at = 0;
}

abbrev pub owns_plan : RelationshipTuple
owns_plan = record { object = "resource:plan"; relation = "can_admin"; subject = "user:ann" }

abbrev pub reads_plan : RelationshipTuple
reads_plan = record { object = "resource:plan"; relation = "can_read"; subject = "user:ann" }

abbrev pub plan_in_folder : GraphEdge
plan_in_folder = record {
  edge_id = "e1";
  org_id = acme;
  from_id = "plan";
  to_id = "folder";
  predicate = "parent";
  confidence = Confidence.at_one;
  state = "";
  sync_authz = true;
  attributes = [];
  created_at = 0;
  updated_at = 0;
}

abbrev pub parent_op : AuthzTupleOp
parent_op = record {
  id = "t1";
  org_id = acme;
  operation = "write";
  object = "resource:plan";
  relation = "parent";
  subject = "resource:folder";
  edge_id = "e1";
  status = "pending";
  attempts = 0;
  last_error = "";
  lease_until = none;
  next_attempt = 5;
  created_at = 5;
  updated_at = 5;
  applied_at = none;
}

abbrev pub plan_event : OutboxEntry
plan_event = record {
  id = "o1";
  org_id = acme;
  subject = "events";
  payload = "{}";
  headers = none;
  created_at = 5;
  published = none;
}

abbrev pub plan_document : IndexDocument
plan_document = record {
  resource_id = "plan";
  revision_id = "r1";
  org_id = acme;
  text = "The Plan";
  labels = [];
  attributes = ("classification", "internal") ∷ [];
}

abbrev pub support_request : PolicyEval
support_request = record {
  principal = ann;
  action = "context.get";
  purpose = "support";
  classification = "internal";
  ledger_record = none;
  requested_limit = 10;
}

abbrev pub searched : AuditEvent
searched = record {
  audit_id = "a1";
  org_id = acme;
  principal_id = "ann";
  principal_kind = "user";
  delegation_id = "";
  action = "context.search";
  reason_code = "OK";
  authz_model_rev = "";
  policy_revision = "";
  resource_count = 1;
  resource_ids_sample = "plan" ∷ [];
  trace_id = "";
  attributes = some (("Query", "the plan") ∷ []);
  created_at = 5;
}

abbrev pub intake_key : IdempotencyRecord
intake_key = record {
  org_id = "acme|eu";
  idempotency_key = "k1";
  event_id = "ev1";
  resource_id = "plan";
  revision_id = "r1";
  created_at = 5;
}

abbrev pub ann_grant : DelegationGrant
ann_grant = record {
  id = "d1";
  org_id = acme;
  subject_id = "ann";
  actor_id = "bot";
  owner_id = "";
  actions = [];
  resource_ids = [];
  purposes = [];
  expires_at = none;
  revoked = false;
  created_at = 5;
}
