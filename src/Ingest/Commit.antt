-- ===== src/Ingest/Commit.antt =====
-- The transaction of Intake, writeEdges, ensureEndpoint and deterministicEdgeID of
-- internal/ingest/ingest.go, over the in-memory ledger, whose transaction has no effect of its own:
-- the steps that were done stay done. New identifiers are arguments.
pub mod Steps
pub mod Ends
pub mod Outcome
use gontext.Base.{ℕ}
use gontext.Base.{String, string_eq, ◌==◌, concat, contains}
use gontext.Base.{Bool, false, ◌&&◌, Option, none, some, List, [], ◌∷◌}
use gontext.Base.{if◌then◌else◌}
use gontext.Base.{number_eq}
use Prim.Native.String.{slice}
use gontext.Ports.{
  LedgerRecord, Revision, GraphEdge, OutboxEntry, IdempotencyRecord, lifecycle_placeholder,
  edge_parent,
}
use gontext.Platform.{Result, ok, err, Error, err_forbidden, status_of}
use gontext.Ledger.{Store, Step, and_then, or_default}
use gontext.Ledger.Records.{get_record, promote_placeholder, append_revision, insert_placeholder}
use gontext.Ledger.Edges.{upsert_edge, active}
use gontext.Ledger.Outbox.{enqueue_outbox}
use gontext.Ledger.Once.{put_idempotency}
use gontext.Sync.{operation_write, enqueue_for_edge}
use gontext.Mapping.{CanonicalEdge, Host}
use gontext.Ingest.{is_source_of_truth, would_overwrite, preserve}

-- deterministicEdgeID
unfoldable pub deterministic_edge_id : Host → String → String → String → String → String
deterministic_edge_id host org_id from_id to_id predicate =
    let named =
      concat org_id
        (concat "|" (concat from_id (concat "|" (concat predicate (concat "|" to_id))))) in
    concat "edge_" (slice (host.sha256_hex named) 0 24)

unfoldable pub placeholder : String → String → String → String → String → ℕ → LedgerRecord
placeholder org_id resource_id kind title external_id now = record {
  resource_id = resource_id;
  org_id = org_id;
  kind = or_default kind "resource";
  title = or_default title resource_id;
  classification = "internal";
  labels = [];
  source_system = "";
  external_id = external_id;
  current_rev_id = "";
  state = lifecycle_placeholder;
  attributes = ("placeholder", "true") ∷ [];
  created_at = now;
  updated_at = now;
}

unfoldable pub is_not_found : Error → Bool
is_not_found e = elim (status_of e) [ none ↦ false | some code ↦ code == 404 ]

unfoldable pub forget : Step Bool → Step (Unit {0})
forget (ok b, s) = (ok tt, s)
forget (err e, s) = (err e, s)

-- ensureEndpoint
unfoldable pub ensure_endpoint : LedgerRecord → ℕ → Store → Step (Unit {0})
ensure_endpoint rec now s =
    let made = forget (insert_placeholder rec now s) in
    if rec.resource_id == "" then (ok tt, s) else elim (get_record rec.org_id rec.resource_id s) [
      | ok old ↦ (ok tt, s)
      | err e ↦ if is_not_found e then made else (err e, s)
    ]

-- an end of an edge, made where it is not known
unfoldable pub ensure_new : Bool → LedgerRecord → ℕ → Store → Step (Unit {0})
ensure_new is_known rec now s = if is_known then (ok tt, s) else ensure_endpoint rec now s

unfoldable pub mapped_graph_edge : Host → String → CanonicalEdge → ℕ → GraphEdge
mapped_graph_edge host org_id e now = record {
  edge_id = deterministic_edge_id host org_id e.from_id e.to_id e.predicate;
  org_id = org_id;
  from_id = e.from_id;
  to_id = e.to_id;
  predicate = e.predicate;
  confidence = e.confidence;
  state = active;
  sync_authz = e.sync_authz_parent && e.predicate == edge_parent;
  attributes = ("source", "mapping") ∷ [];
  created_at = now;
  updated_at = now;
}

module _ (host : Host) (org_id : String) (now : ℕ) (fresh : String → String) where
  from_end : CanonicalEdge → LedgerRecord
  from_end e = placeholder org_id e.from_id "resource" e.from_id "" now

  to_end : CanonicalEdge → LedgerRecord
  to_end e =
      placeholder org_id e.to_id (or_default e.to_kind "resource") e.to_title e.to_external_id now

  -- the two ends, where the edge asks for them: the first is known to the second
  unfoldable pub ensure_ends : CanonicalEdge → List String → Store → Step (Unit {0})
  unfolding from_end to_end
  ensure_ends e known s =
      if e.ensure_endpoints
      then and_then (ensure_new (contains known e.from_id) (from_end e) now s)
          (λ done s1. ensure_new (contains (e.from_id ∷ known) e.to_id) (to_end e) now s1)
      else (ok tt, s)

  unfoldable pub known_after : CanonicalEdge → List String → List String
  known_after e known = if e.ensure_endpoints then e.to_id ∷ e.from_id ∷ known else known

  -- the edge, and the relationship write that it asks for
  unfoldable pub write_edge : CanonicalEdge → Store → Step (Unit {0})
  write_edge e s =
      let edge = mapped_graph_edge host org_id e now in
      and_then (upsert_edge edge now (fresh edge.edge_id) s)
        (λ done s1. enqueue_for_edge edge operation_write now (fresh edge.edge_id) now s1)

  -- writeEdges, from the identifiers that are known
  unfoldable pub write_edges : List CanonicalEdge → List String → Store → Step (Unit {0})
  write_edges [] known s = (ok tt, s)
  write_edges (e ∷ es) known s = and_then (ensure_ends e known s) (λ done s1.
      and_then (write_edge e s1) (λ written s2. write_edges es (known_after e known) s2))

-- the identifiers that are known first
unfoldable pub seed_of : String → List String
seed_of id = if id == "" then [] else id ∷ []

-- what the transaction writes beside the record and the edges
pub record Writes : Type 0 where
  pub revision : Revision
  pub entry : OutboxEntry
  -- none without an idempotency key
  pub once : Option IdempotencyRecord

unfoldable pub put_once : Option IdempotencyRecord → ℕ → Store → Step (Unit {0})
put_once none now s = (ok tt, s)
put_once (some rec) now s = put_idempotency rec now s

-- the record that is written over the one that is there, if the source may
unfoldable pub merged : Bool → LedgerRecord → Option LedgerRecord → ℕ → Result LedgerRecord
merged generated rec none now = ok (record rec { created_at = now })
merged generated rec (some existing) now =
    if generated && is_source_of_truth existing && would_overwrite existing rec
    then err (err_forbidden "generated observation cannot overwrite source_of_truth")
    else ok
        (record (if generated && is_source_of_truth existing then preserve existing rec else rec) {
          created_at = existing.created_at;
        })

module _ (host : Host) (org_id : String) (now : ℕ) (fresh : String → String) where
  -- the steps of the transaction with the record that is written
  unfoldable pub write_all : LedgerRecord → List CanonicalEdge → Writes → Store → Step (Unit {0})
  write_all rec edges w s = and_then (promote_placeholder rec now s) (λ promoted s1.
      and_then (append_revision w.revision now s1) (λ appended s2.
        and_then (write_edges host org_id now fresh edges (seed_of rec.resource_id) s2)
          (λ written s3.
            and_then (enqueue_outbox w.entry now w.entry.id s3)
              (λ queued s4. put_once w.once now s4))))

  unfoldable pub write_merged :
      Result LedgerRecord → List CanonicalEdge → Writes → Store → Step LedgerRecord
  write_merged (err e) edges w s = (err e, s)
  write_merged (ok rec) edges w s = and_then (write_all rec edges w s) (λ done s1. (ok rec, s1))

  -- the transaction: the record that it wrote
  unfoldable pub commit :
      Bool → LedgerRecord → List CanonicalEdge → Writes → Store → Step LedgerRecord
  commit generated rec edges w s = elim (get_record org_id rec.resource_id s) [
    | ok old ↦ write_merged (merged generated rec (some old) now) edges w s
    | err e ↦
        if is_not_found e
        then write_merged (merged generated rec none now) edges w s
        else (err e, s)
  ]
