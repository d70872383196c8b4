-- ===== src/Sync.antt =====
-- internal/authzsync/synchronizer.go: the relationship writes that an edge asks for.
pub mod Pending
use gontext.Base.{ℕ}
use gontext.Base.{String, string_eq, ◌==◌, concat}
use gontext.Base.{Bool, not, ◌&&◌, none}
use gontext.Base.{if◌then◌else◌}
use gontext.Ports.{GraphEdge, AuthzTupleOp, edge_parent}
use gontext.Platform.{ok}
use gontext.Ledger.{Store, Step}
use gontext.Ledger.Tuples.{pending, enqueue_authz_tuple}

abbrev pub operation_write : String
operation_write = "write"

abbrev pub operation_delete : String
operation_delete = "delete"

-- ResourceObject
unfoldable pub resource_object : String → String
resource_object resource_id = concat "resource:" resource_id

-- NeedsSynchronization
unfoldable pub needs_synchronization : GraphEdge → Bool
needs_synchronization edge = edge.sync_authz && edge.predicate == edge_parent

unfoldable pub edge_op : GraphEdge → String → ℕ → String → AuthzTupleOp
unfolding resource_object
edge_op edge operation now fresh = record {
  id = fresh;
  org_id = edge.org_id;
  operation = if operation == operation_delete then operation_delete else operation_write;
  object = resource_object edge.from_id;
  relation = edge_parent;
  subject = resource_object edge.to_id;
  edge_id = edge.edge_id;
  status = pending;
  attempts = 0;
  last_error = "";
  lease_until = none;
  next_attempt = now;
  created_at = now;
  updated_at = now;
  applied_at = none;
}

-- EnqueueForEdge: the time given is the edge's; the ledger reads its own clock.
unfoldable pub enqueue_for_edge : GraphEdge → String → ℕ → String → ℕ → Store → Step (Unit {0})
enqueue_for_edge edge operation now fresh clock s =
    if not (needs_synchronization edge)
    then (ok tt, s)
    else enqueue_authz_tuple (edge_op edge operation now fresh) clock fresh s
