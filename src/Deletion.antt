-- ===== src/Deletion.antt =====
-- internal/deletion/deletion.go: the deletion saga. Authorization, the index, the evidence store and
-- the legal holds are interfaces there, and arguments here.
pub mod Saga
pub mod Frames
pub mod Outcome
pub mod Endings
use gontext.Base.{ℕ}
use gontext.Base.{String, string_eq, ◌==◌}
use gontext.Base.{Bool, true, false, not, ◌||◌, Option, none, some, List, [], ◌∷◌, ◌++◌}
use gontext.Base.{if◌then◌else◌}
use gontext.Base.{number_eq, cut}
use gontext.Ports.{
  Principal, AuthzCheck, AuthzDecision, LedgerRecord, Revision, GraphEdge, AuditEvent,
}
use gontext.Platform.{Result, ok, err, ◌>>=◌, err_forbidden}
use gontext.Ledger.{Store, Step, and_then}
use gontext.Ledger.Records.{upsert_record, append_revision, list_revisions}
use gontext.Ledger.Edges.{list_edges, tombstone_edge}
use gontext.Sync.{operation_delete, enqueue_for_edge}

pub record Request : Type 0 where
  pub org_id : String
  pub resource_id : String
  pub principal : Principal
  pub reason : String

pub record DerivativeRef : Type 0 where
  pub kind : String
  pub ref : String

-- CompletionManifest, before it is signed
pub record CompletionManifest : Type 0 where
  pub deletion_id : String
  pub organization_id : String
  pub resource_id : String
  pub revision_id : String
  pub status : String
  pub blocked_reason : String
  pub derivatives : List DerivativeRef
  pub index_removed : Bool
  pub evidence_erased : Bool
  pub completed_at : ℕ

-- The identifiers that a run draws: for the deletion, the revision, the change, the two audit
-- events and, by edge, the relationship deletions.
pub record Fresh : Type 0 where
  pub deletion_id : String
  pub revision_id : String
  pub event_id : String
  pub audit_id : String
  pub final_audit_id : String
  pub tuple_id : String → String

-- The readings of the clock: at the start, when the edges go, in the ledger, and at the end.
pub record Clock : Type 0 where
  pub start : ℕ
  pub edges : ℕ
  pub store : ℕ
  pub end : ℕ

-- splitEvidenceRef: at the first '@', or else at the first '#'
unfoldable pub split_evidence_ref : String → String × String
split_evidence_ref ref = elim (cut 64 ref) [
  | some parts ↦ parts
  | none ↦ elim (cut 35 ref) [ some parts ↦ parts | none ↦ (ref, "") ]
]

-- IsTombstoned
unfoldable pub is_tombstoned : String → Bool
is_tombstoned state = state == "TOMBSTONED" || state == "PURGE_PENDING" || state == "PURGED"

unfoldable pub revision_refs : List Revision → List DerivativeRef
revision_refs [] = []
revision_refs (r ∷ rs) =
    (if r.evidence_ref == "" then [] else record { kind = "evidence"; ref = r.evidence_ref } ∷ [])
    ++ (record { kind = "revision"; ref = r.revision_id } ∷ revision_refs rs)

edge_refs : List GraphEdge → List DerivativeRef
edge_refs [] = []
edge_refs (e ∷ es) = record { kind = "graph_edge"; ref = e.edge_id } ∷ edge_refs es

-- enumerate
unfoldable pub enumerate : String → String → LedgerRecord → Store → List DerivativeRef
unfolding edge_refs
enumerate org_id resource_id rec s =
    (record { kind = "record"; ref = resource_id } ∷ [])
    ++ (if rec.current_rev_id == ""
        then []
        else record { kind = "revision"; ref = rec.current_rev_id } ∷ [])
    ++ revision_refs (list_revisions org_id resource_id 100 s)
    ++ (record { kind = "index"; ref = resource_id }
        ∷ record { kind = "cache"; ref = resource_id }
        ∷ [])
    ++ edge_refs (
        list_edges org_id
          (record {
            resource_ids = resource_id ∷ [];
            predicates = [];
            include_dead = true;
            limit = 200;
          })
          s)

-- The loop over the edges, inside the transaction. The in-memory ledger does not roll back.
unfoldable pub drop_edges : String → Fresh → Clock → List GraphEdge → Store → Step (Unit {0})
drop_edges org_id fresh clock [] s = (ok tt, s)
drop_edges org_id fresh clock (e ∷ es) s =
    and_then (tombstone_edge org_id e.edge_id clock.store s) λ done s1.
      and_then
        (enqueue_for_edge e operation_delete clock.edges (fresh.tuple_id e.edge_id) clock.store s1)
        λ done2 s2. drop_edges org_id fresh clock es s2

unfoldable pub tomb : Request → Fresh → Clock → Revision
tomb req fresh clock = record {
  revision_id = fresh.revision_id;
  resource_id = req.resource_id;
  org_id = req.org_id;
  content_hash = "";
  evidence_ref = "";
  sequence = clock.start;
  state = "TOMBSTONED";
  attributes = ("deletion_id", fresh.deletion_id) ∷ ("reason", req.reason) ∷ [];
  observed_at = clock.start;
  created_at = clock.start;
}

-- the record as the saga first stores it
unfoldable pub buried : LedgerRecord → Fresh → Clock → LedgerRecord
buried rec fresh clock = record rec {
  state = "TOMBSTONED";
  current_rev_id = fresh.revision_id;
  updated_at = clock.start;
}

-- The transaction that revokes the visibility.
unfoldable pub revoke_visibility : Request → LedgerRecord → Fresh → Clock → Store → Step (Unit {0})
unfolding tomb
revoke_visibility req rec fresh clock s =
    and_then (append_revision (tomb req fresh clock) clock.store s) λ done s1.
      and_then (upsert_record rec clock.store s1) λ done2 s2.
        drop_edges req.org_id fresh clock
          (list_edges req.org_id
            (record {
              resource_ids = req.resource_id ∷ [];
              predicates = [];
              include_dead = false;
              limit = 1000;
            })
            s2)
          s2

unfoldable pub audit_event : Request → String → String → ℕ → List (String × String) → AuditEvent
audit_event req id reason now attributes = record {
  audit_id = id;
  org_id = req.org_id;
  principal_id = req.principal.id;
  principal_kind = req.principal.kind;
  delegation_id = "";
  action = "context.delete";
  reason_code = reason;
  authz_model_rev = "";
  policy_revision = "";
  resource_count = 0;
  resource_ids_sample = req.resource_id ∷ [];
  trace_id = "";
  attributes = some attributes;
  created_at = now;
}

-- The authorization provider: Check.
unfoldable pub authorize : (AuthzCheck → Result AuthzDecision) → Request → Result (Unit {0})
authorize check req = check (query "can_delete") >>= λ dec.
    if dec.allowed
    then ok tt
    else check (query "can_admin") >>= λ dec2.
        if dec2.allowed then ok tt else err (err_forbidden "deletion not authorized")
  where
    query : String → AuthzCheck
    query action = record {
      principal = req.principal;
      action = action;
      resource_id = req.resource_id;
      consistency = "fully_consistent";
      delegation = none;
    }

-- The loop over the evidence: whether there was some, and whether a deletion failed.
unfoldable pub purge : Option (String × String → Bool) → List DerivativeRef → Bool × Bool
purge none ds = (false, false)
purge (some fails) [] = (false, false)
purge (some fails) (d ∷ ds) =
    let rest = purge (some fails) ds in
    if not (d.kind == "evidence")
    then rest
    else if fails (split_evidence_ref d.ref)
    then (true, true)
    else (true, rest.1)
